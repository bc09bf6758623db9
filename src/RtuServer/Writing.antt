-- ===== src/RtuServer/Writing.antt =====
-- The loop of rtu_server_data_handler.cpp that writes registers from a request's payload.
use mathlib.Core.Path.{subst}
use modbus_scanner.RtuServer.Cells.{stored, stored-ext, window, window-stored}
use modbus_scanner.Base.{
  ℕ, zero, suc, ◌+◌, ◌*◌, ◌/◌, ◌%◌, ◌≤◌, ◌<◌, ◌≡◌, refl, sym, ap, ◌∙◌, List, [], ◌∷◌, ◌++◌, some,
  none, arith, lt→ltb, ◌==◌, if◌then◌else◌, length, length-append, append_assoc, All,
}
use modbus_scanner.RtuServer.Memory.{coil, reg, reg-assign}
use modbus_scanner.RtuServer.Monad.{Server, assign, ◌>>=◌, set_reg}
use modbus_scanner.RtuServer.Registers.{reg_bytes}
use modbus_scanner.RtuServer.Replies.{u8, u16, at, write_regs}
use modbus_scanner.Scanner.{Order, little_endian, combine, combine_lem, get_hi_lo}

-- The payload of a write request: each register's high byte, then its low byte.
abbrev pub payload_of : List ℕ → List ℕ
payload_of [] = []
payload_of (v ∷ vs) = v / 256 ∷ v % 256 ∷ payload_of vs

-- From `s` to `t`: the registers are written, and all else is as before.
pub record Stored (s t : Server) (vs : List ℕ) (a : ℕ) : Type 0 where
  pub regs : (j : ℕ) → reg t j ≡ stored vs a (reg s) j
  pub coils : (j : ℕ) → coil t j ≡ coil s j
  pub scanner : t.modbus_scanner ≡ s.modbus_scanner
  pub input : t.input_buffer ≡ s.input_buffer
  pub output : t.output_buffer ≡ s.output_buffer
  pub address : t.dev_address ≡ s.dev_address
  pub ops : t.ops ≡ s.ops

pub at-append :
    (before : List ℕ) (x : ℕ) (after : List ℕ) (s : Server)
    → at (before ++ x ∷ after) (length before) s ≡ some (x, s)
unfolding at
at-append [] x after s = refl
at-append (b ∷ before) x after s = at-append before x after s

at-append-second :
    (before : List ℕ) (x y : ℕ) (after : List ℕ) (s : Server)
    → at (before ++ x ∷ y ∷ after) (suc (length before)) s ≡ some (y, s)
unfolding at
at-append-second [] x y after s = refl
at-append-second (b ∷ before) x y after s = at-append-second before x y after s

pub at-end :
    (before : List ℕ) (x : ℕ) (s : Server) → at (before ++ x ∷ []) (suc (length before)) s ≡ none
unfolding at
at-end [] x s = refl
at-end (b ∷ before) x s = at-end before x s

module _ (order : Order) where
  abbrev one_set : Server → ℕ → ℕ → Server
  one_set s a v = record s { regs = assign a v s.regs }

  round :
      (xs : List ℕ) (count left ix a hi lo : ℕ) (s : Server)
      → ix < count
      → at xs ix s ≡ some (hi, s)
      → at xs (u8 (ix + 1)) s ≡ some (lo, s)
      → write_regs order xs count (suc left) ix a s
        ≡ write_regs order xs count left
            (u8 (ix + 2))
            (u16 (a + 1))
            (one_set s a (combine order hi lo))
  unfolding write_regs set_reg
  round xs count left ix a hi lo s h p q = rw (lt→ltb ix count h, p, q, ◌>>=◌)

  Stored-then :
      (s t : Server) (v : ℕ) (vs : List ℕ) (a : ℕ)
      → Stored (one_set s a v) t vs (u16 (a + 1))
      → Stored s t (v ∷ vs) a
  unfolding coil
  Stored-then s t v vs a later = record {
    regs = λ j.
        later.regs j
        ∙ stored-ext vs (u16 (a + 1)) (reg (one_set s a v)) (λ i. if a == i then v else reg s i) j
            (λ i. reg-assign s a i v);
    coils = later.coils;
    scanner = later.scanner;
    input = later.input;
    output = later.output;
    address = later.address;
    ops = later.ops;
  }

  two_more :
      (before after : List ℕ) (v count left a : ℕ) (s : Server)
      → length before + 2 ≤ count
      → count < 256
      → let before' = before ++ v / 256 ∷ v % 256 ∷ [] in
        write_regs order (before ++ v / 256 ∷ v % 256 ∷ after) count (suc left) (length before) a s
        ≡ write_regs order
            (before' ++ after)
            count
            left
            (length before')
            (u16 (a + 1))
            (one_set s a v)
  two_more before after v count left a s e h =
      let xs = before ++ v / 256 ∷ v % 256 ∷ after in
      let before' = before ++ v / 256 ∷ v % 256 ∷ [] in
      let ix = length before in
      let here : u8 (ix + 1) ≡ suc ix = omega arith in
      let next : u8 (ix + 2) ≡ length before' =
        omega (arith, length-append before (v / 256 ∷ v % 256 ∷ [])) in
      let whole : combine order (v / 256) (v % 256) ≡ v =
        combine_lem order (v / 256) (v % 256) ∙ omega arith in
      round xs count left ix a (v / 256) (v % 256) s (omega arith)
        (at-append before (v / 256) (v % 256 ∷ after) s)
        (ap (λ i. at xs i s) here ∙ at-append-second before (v / 256) (v % 256) after s)
      ∙ ap (λ w. write_regs order xs count left (u8 (ix + 2)) (u16 (a + 1)) (one_set s a w)) whole
      ∙ ap (λ i. write_regs order xs count left i (u16 (a + 1)) (one_set s a v)) next
      ∙ ap (λ ys. write_regs order ys count left (length before') (u16 (a + 1)) (one_set s a v))
          (sym (append_assoc before (v / 256 ∷ v % 256 ∷ []) after))

  -- The loop over a payload with its own byte count stores its registers.
  pub write_regs-Stored :
      (vs before : List ℕ) (count a : ℕ) (s : Server)
      → count ≡ length before + 2 * length vs
      → count < 256
      → (t : Server) × (write_regs order
            (before ++ payload_of vs)
            count
            (length vs)
            (length before)
            a
            s
          ≡ some (tt, t))
        × Stored s t vs a
  unfolding write_regs
  write_regs-Stored [] before count a s e h = (
    s,
    refl,
    record {
      regs = λ j. refl;
      coils = λ j. refl;
      scanner = refl;
      input = refl;
      output = refl;
      address = refl;
      ops = refl;
    },
  )
  write_regs-Stored (v ∷ vs) before count a s e h =
      let before' = before ++ v / 256 ∷ v % 256 ∷ [] in
      let (t, done, later) =
        write_regs-Stored vs before' count (u16 (a + 1)) (one_set s a v)
          (omega (arith, length-append before (v / 256 ∷ v % 256 ∷ []))) h in
      (
        t,
        two_more before (payload_of vs) v count (length vs) a s (omega arith) h ∙ done,
        Stored-then s t v vs a later,
      )

  odd_end :
      (before : List ℕ) (x count left a : ℕ) (s : Server)
      → count ≡ length before + 1
      → count < 256
      → write_regs order (before ++ x ∷ []) count (suc left) (length before) a s ≡ none
  unfolding write_regs
  odd_end before x count left a s e h =
      let here : u8 (length before + 1) ≡ suc (length before) = omega arith in
      let second = ap (λ i. at (before ++ x ∷ []) i s) here ∙ at-end before x s in
      rw (lt→ltb (length before) count (omega arith), at-append before x [] s, second, ◌>>=◌) refl

  -- With an odd byte count, the loop reads behind the end of the payload.
  pub write_regs-odd :
      (vs before : List ℕ) (x count left a : ℕ) (s : Server)
      → count ≡ length before + 2 * length vs + 1
      → count < 256
      → write_regs order
          (before ++ (payload_of vs ++ x ∷ []))
          count
          (length vs + suc left)
          (length before)
          a
          s
        ≡ none
  write_regs-odd [] before x count left a s e h =
      ap (λ n. write_regs order (before ++ x ∷ []) count n (length before) a s) (omega arith)
      ∙ odd_end before x count left a s (omega arith) h
  write_regs-odd (v ∷ vs) before x count left a s e h =
      let before' = before ++ v / 256 ∷ v % 256 ∷ [] in
      let after = payload_of vs ++ x ∷ [] in
      let n : length (v ∷ vs) + suc left ≡ suc (length vs + suc left) = omega arith in
      ap (λ n. write_regs order (before ++ v / 256 ∷ v % 256 ∷ after) count n (length before) a s) n
      ∙ two_more before after v count (length vs + suc left) a s (omega arith) h
      ∙ write_regs-odd vs before' x count left (u16 (a + 1)) (one_set s a v)
          (omega (arith, length-append before (v / 256 ∷ v % 256 ∷ []))) h

-- The bytes of registers are those of the window they stand in.
pub reg_bytes-window :
    (memory : ℕ → ℕ) (n a : ℕ)
    → All (λ v. v < 65536) (window memory n a)
    → reg_bytes little_endian memory n a ≡ payload_of (window memory n a)
unfolding get_hi_lo
reg_bytes-window memory zero a small = refl
reg_bytes-window memory (suc n) a small =
    let v = memory a in
    let high : v / 256 % 256 ≡ v / 256 = omega (arith, small.0) in
    ap (λ hi. hi ∷ v % 256 ∷ reg_bytes little_endian memory n (u16 (a + 1))) high
    ∙ ap (λ ys. v / 256 ∷ v % 256 ∷ ys) (reg_bytes-window memory n (u16 (a + 1)) small.1)

-- Registers that were written are read back as the payload they came in.
pub reg_bytes-stored :
    (vs : List ℕ) (a : ℕ) (memory : ℕ → ℕ)
    → a < 65536
    → length vs ≤ 65536
    → All (λ v. v < 65536) vs
    → reg_bytes little_endian (stored vs a memory) (length vs) a ≡ payload_of vs
reg_bytes-stored vs a memory h room small =
    let back = window-stored vs a memory h room in
    let fits : All (λ v. v < 65536) (window (stored vs a memory) (length vs) a) =
      subst (All (λ v. v < 65536)) (sym back) small in
    reg_bytes-window (stored vs a memory) (length vs) a fits ∙ ap payload_of back
