-- ===== src/RtuServer/CoilWrites.antt =====
-- Writing several coils in rtu_server_data_handler.cpp, and the reply.
use mathlib.Core.Path.{subst}
use modbus_scanner.Base.{
  ℕ, zero, suc, ◌+◌, ◌-◌, ◌*◌, ◌/◌, ◌%◌, ◌^◌, ◌<◌, ◌≡◌, refl, sym, ap, ◌∙◌, Bool, not, List, [],
  ◌∷◌, ◌++◌, some, arith, ◌==◌, if◌then◌else◌, length, length-append, append_assoc, bit_and, take,
  IsBytes,
}
use modbus_scanner.Defs.{contents, buf_size}
use modbus_scanner.Rtu.Frame.{crc_bytes}
use modbus_scanner.RtuServer.Bits.{bits_of, unpack, bit_and-two_pow, div-two_pow, u8-two_pow}
use modbus_scanner.RtuServer.Cells.{after, stored, stored-ext, stored-append}
use modbus_scanner.RtuServer.Memory.{Same, coil, reg, coil-assign}
use modbus_scanner.RtuServer.Monad.{
  Server, assign, async_write, m_output_buffer, ◌>>=◌, ◌>>◌, set_coil,
}
use modbus_scanner.RtuServer.Output.{Holds-output, then_some}
use modbus_scanner.RtuServer.Replies.{
  u8, u16, at, reply_header, f15_bits, f15_loop, confirm, reply_f15,
}
use modbus_scanner.RtuServer.Sending.{Sent, header_lem}
use modbus_scanner.RtuServer.WriteReplies.{Replies-confirm}
use modbus_scanner.RtuServer.Writing.{at-append}
use modbus_scanner.Scanner.{Order, get_hi_lo}

-- From `s` to `t`: the coils are written, and all else is as before.
pub record CoilsStored (s t : Server) (vs : List Bool) (a : ℕ) : Type 0 where
  pub coils : (j : ℕ) → coil t j ≡ stored vs a (coil s) j
  pub regs : (j : ℕ) → reg t j ≡ reg s j
  pub scanner : t.modbus_scanner ≡ s.modbus_scanner
  pub input : t.input_buffer ≡ s.input_buffer
  pub output : t.output_buffer ≡ s.output_buffer
  pub address : t.dev_address ≡ s.dev_address
  pub ops : t.ops ≡ s.ops

CoilsStored-nil : (s : Server) (a : ℕ) → CoilsStored s s [] a
CoilsStored-nil s a = record {
  coils = λ j. refl;
  regs = λ j. refl;
  scanner = refl;
  input = refl;
  output = refl;
  address = refl;
  ops = refl;
}

CoilsStored-append :
    {s t u : Server} (xs ys : List Bool) (a : ℕ)
    → CoilsStored s t xs a
    → CoilsStored t u ys (after (length xs) a)
    → CoilsStored s u (xs ++ ys) a
CoilsStored-append {s} {t} xs ys a p q = record {
  coils = λ j.
      q.coils j
      ∙ stored-ext ys (after (length xs) a) (coil t) (stored xs a (coil s)) j p.coils
      ∙ sym (stored-append xs ys a (coil s) j);
  regs = λ j. q.regs j ∙ p.regs j;
  scanner = q.scanner ∙ p.scanner;
  input = q.input ∙ p.input;
  output = q.output ∙ p.output;
  address = q.address ∙ p.address;
  ops = q.ops ∙ p.ops;
}

abbrev one_coil : Server → ℕ → Bool → Server
one_coil s a v = record s { coils = assign a v s.coils }

one_coil-CoilsStored : (s : Server) (a : ℕ) (v : Bool) → CoilsStored s (one_coil s a v) (v ∷ []) a
unfolding reg
one_coil-CoilsStored s a v = record {
  coils = λ j. coil-assign s a j v;
  regs = λ j. refl;
  scanner = refl;
  input = refl;
  output = refl;
  address = refl;
  ops = refl;
}

-- What `reply_f15` sets a coil to, by the mask of bit `k`.
mask_lem :
    (k v mask : ℕ)
    → k < 8
    → v < 256
    → mask ≡ u8 (2 ^ k)
    → not ((if bit_and v mask == 0 then 0 else 1) == 0) ≡ (v / 2 ^ k % 2 == 1)
mask_lem k v mask h l m =
    ap (λ x. not ((if bit_and v x == 0 then 0 else 1) == 0)) (m ∙ (u8-two_pow k h).0)
    ∙ ap (λ (x : ℕ). not (x == 0)) (bit_and-two_pow k v h l)
    ∙ one_of_two (v / 2 ^ k % 2) (omega arith)
  where
    one_of_two : (x : ℕ) → x < 2 → not (x == 0) ≡ (x == 1)
    one_of_two x small = ground arith

-- One byte's bits from bit `k` on, into at most `left` coils; `w` is the byte shifted by `k`.
bits_lem :
    (n k v w mask a left : ℕ) (s : Server)
    → k + n ≡ 8
    → v < 256
    → w ≡ v / 2 ^ k
    → mask ≡ u8 (2 ^ k)
    → let vs = take left (bits_of n w) in
      (t : Server) × (f15_bits n v mask a left s ≡ some ((after (length vs) a, left - n), t))
      × CoilsStored s t vs a
unfolding f15_bits set_coil
bits_lem zero k v w mask a zero s e l p m = (s, refl, CoilsStored-nil s a)
bits_lem zero k v w mask a (suc left) s e l p m = (
  s,
  ap (λ i. some ((a, i), s)) (let q : suc left ≡ suc left - 0 = omega arith in q),
  CoilsStored-nil s a,
)
bits_lem (suc n) k v w mask a zero s e l p m =
    (s, ap (λ i. some ((a, i), s)) (let q : 0 ≡ 0 - suc n = omega arith in q), CoilsStored-nil s a)
bits_lem (suc n) k v w mask a (suc left) s e l p m =
    let h : k < 8 = omega arith in
    let set = not ((if bit_and v mask == 0 then 0 else 1) == 0) in
    let bit : set ≡ (w % 2 == 1) = mask_lem k v mask h l m ∙ ap (λ (x : ℕ). x % 2 == 1) (sym p) in
    let vs = take left (bits_of n (w / 2)) in
    let (t, done, q) =
      bits_lem n (suc k) v (w / 2) (u8 (mask * 2)) (u16 (a + 1)) left (one_coil s a set)
        (omega arith) l (ap (λ (x : ℕ). x / 2) p ∙ div-two_pow k v h l)
        (ap (λ (x : ℕ). u8 (x * 2)) (m ∙ (u8-two_pow k h).0) ∙ (u8-two_pow k h).1) in
    (
      t,
      done
          ∙ ap (λ i. some ((after (length vs) (u16 (a + 1)), i), t))
              (let q : left - n ≡ suc left - suc n = omega arith in q),
      subst (λ b. CoilsStored s t (b ∷ vs) a) bit
          (CoilsStored-append (set ∷ []) vs a (one_coil-CoilsStored s a set) q),
    )

take-nil : {A : Type 0} (n : ℕ) → take {A = A} n [] ≡ []
take-nil zero = refl
take-nil (suc n) = refl

take-append :
    {A : Type 0} (n : ℕ) (xs ys : List A) → take n (xs ++ ys) ≡ take n xs ++ take (n - length xs) ys
take-append n [] ys =
    ap (λ m. take m ys) (let e : n ≡ n - 0 = omega arith in e)
    ∙ sym (ap (λ xs. xs ++ take (n - 0) ys) (take-nil n))
take-append zero (x ∷ xs) ys =
    sym (ap (λ m. take m ys) (let e : 0 - suc (length xs) ≡ 0 = omega arith in e))
take-append (suc n) (x ∷ xs) ys =
    ap (λ zs. x ∷ zs) (take-append n xs ys)
    ∙ ap (λ m. x ∷ (take n xs ++ take m ys))
        (let e : n - length xs ≡ suc n - suc (length xs) = omega arith in e)

-- The loop over a payload with its own byte count sets the coils that its bits stand for, the
-- lowest bit of each byte first.
pub f15_loop-CoilsStored :
    (rest before : List ℕ) (a left : ℕ) (s : Server)
    → IsBytes rest
    → length before + length rest < 256
    → (t : Server) × (f15_loop (before ++ rest) (length rest) (length before) a left s
        ≡ some (tt, t))
      × CoilsStored s t (take left (unpack rest)) a
unfolding f15_loop
f15_loop-CoilsStored [] before a left s bytes few =
    (s, refl, subst (λ vs. CoilsStored s s vs a) (sym (take-nil left)) (CoilsStored-nil s a))
f15_loop-CoilsStored (v ∷ rest) before a zero s bytes few = (s, refl, CoilsStored-nil s a)
f15_loop-CoilsStored (v ∷ rest) before a (suc left) s bytes few =
    let payload = before ++ v ∷ rest in
    let before' = before ++ v ∷ [] in
    let ix = length before in
    let here = take (suc left) (bits_of 8 v) in
    let (t, first, p) =
      bits_lem 8 0 v v 1 a (suc left) s (omega arith) bytes.0 (omega arith) refl in
    let (u, done, q) =
      f15_loop-CoilsStored rest before' (after (length here) a) (suc left - 8) t bytes.1
        (omega (arith, length-append before (v ∷ []))) in
    let index : u8 (ix + 1) ≡ length before' = omega (arith, length-append before (v ∷ [])) in
    let later = λ (next : ℕ × ℕ). f15_loop payload (length rest) (u8 (ix + 1)) next.0 next.1 in
    (
      u,
      then_some (at payload ix) (λ byte_val. f15_bits 8 byte_val 1 a (suc left) >>= later)
            (at-append before v rest s)
          ∙ then_some (f15_bits 8 v 1 a (suc left)) later first
          ∙ ap (λ i. f15_loop payload (length rest) i (after (length here) a) (suc left - 8) t)
              index
          ∙ ap
              (λ xs.
                f15_loop xs (length rest) (length before') (after (length here) a) (suc left - 8) t)
              (sym (append_assoc before (v ∷ []) rest))
          ∙ done,
      subst (λ vs. CoilsStored s u vs a) (sym (take-append (suc left) (bits_of 8 v) (unpack rest)))
          (CoilsStored-append here (take (suc left - 8) (unpack rest)) a p q),
    )

-- From `s` to `t`: the coils `vs` are written from address `a` on, `body` with its checksum
-- stands in the output buffer, a write of just that has been started, and the registers, the
-- scanner, the input and the address are as before.
pub record CoilsWritten (s t : Server) (vs : List Bool) (a : ℕ) (body : List ℕ) : Type 0 where
  pub coils : (j : ℕ) → coil t j ≡ stored vs a (coil s) j
  pub regs : (j : ℕ) → reg t j ≡ reg s j
  pub shown : contents t.output_buffer ≡ body ++ crc_bytes body
  pub started : t.ops ≡ s.ops ++ async_write m_output_buffer (length body + 2) ∷ []
  pub scanner : t.modbus_scanner ≡ s.modbus_scanner
  pub input : t.input_buffer ≡ s.input_buffer
  pub address : t.dev_address ≡ s.dev_address
  pub whole : length t.output_buffer.bytes ≡ buf_size

after_header :
    {s h t u : Server} {vs : List Bool} {a : ℕ} (body : List ℕ)
    → Same s h
    → CoilsStored h t vs a
    → Sent t u body
    → CoilsWritten s u vs a body
after_header {s} {h} {t} {u} {vs} {a} body same p q = record {
  coils = λ j. q.coils j ∙ p.coils j ∙ stored-ext vs a (coil h) (coil s) j same.coils;
  regs = λ j. q.regs j ∙ p.regs j ∙ same.regs j;
  shown = q.shown;
  started =
      q.started
      ∙ ap (λ ops. ops ++ async_write m_output_buffer (length body + 2) ∷ []) (p.ops ∙ same.ops);
  scanner = q.scanner ∙ p.scanner ∙ same.scanner;
  input = q.input ∙ p.input ∙ same.input;
  address = q.address ∙ p.address ∙ same.address;
  whole = q.whole;
}

-- A request of function 15 whose byte count, below 256, is that of its payload: as many of the
-- payload's bits as the quantity allows are written to the coils from the starting address on,
-- addresses wrapping at 2 ^ 16, and the reply repeats the starting address and the quantity.
pub reply_f15_fits :
    (order : Order) (fc starting_address quantity : ℕ) (payload : List ℕ) (s : Server)
    → length s.output_buffer.bytes ≡ buf_size
    → IsBytes payload
    → length payload < 256
    → let start = get_hi_lo order starting_address in
      let many = get_hi_lo order quantity in
      (t : Server) × (reply_f15 order fc starting_address quantity (length payload) payload s
        ≡ some (tt, t))
      × CoilsWritten s t
          (take quantity (unpack payload))
          starting_address
          (s.dev_address ∷ fc ∷ start.hi ∷ start.lo ∷ many.hi ∷ many.lo ∷ [])
unfolding reply_f15
reply_f15_fits order fc a q payload s whole bytes few =
    let writes = f15_loop payload (length payload) 0 a q in
    let (h, headed, holds, same) = header_lem fc s whole in
    let (t, wrote, p) = f15_loop-CoilsStored payload [] a q h bytes (omega arith) in
    let (u, replied, sent) =
      (Replies-confirm order a q t).fits (s.dev_address ∷ fc ∷ [])
        (Holds-output h t (s.dev_address ∷ fc ∷ []) p.output holds) (omega arith) in
    (
      u,
      then_some (reply_header fc) (λ _. writes >> confirm order a q) headed
          ∙ (then_some writes (λ _. confirm order a q) wrote ∙ replied),
      after_header _ same p sent,
    )
