-- ===== src/RtuServer/CoilReads.antt =====
-- The coil replies of rtu_server_data_handler.cpp.
use mathlib.Core.Path.{subst}
use native.Mathlib.Decide.{dec_lt}
use modbus_scanner.Base.{
  ◌⊎◌, inl, inr, ℕ, zero, suc, ◌+◌, ◌/◌, ◌^◌, ◌≤◌, ◌<◌, ◌≡◌, refl, sym, ap, ◌∙◌, Bool, true, false,
  List, [], ◌∷◌, ◌++◌, Option, none, some, arith, ltb, lt→ltb, ◌==◌, ==_iff, if◌then◌else◌, length,
  append-nil, bit_or, replicate, IsBytes,
}
use modbus_scanner.Spelled.{Bool-cases}
use modbus_scanner.Defs.{buf_size}
use modbus_scanner.RtuServer.Bits.{
  unpack, pack, pack-full, pack-more, set_bound, bit_or-two_pow, u8-two_pow, small_power,
  length-pack, padding, pack-IsPacked,
}
use modbus_scanner.RtuServer.Cells.{window, window-ext, length-window}
use modbus_scanner.RtuServer.Memory.{
  Same, Same-refl, Same-trans, coil, coil_read, get_coil_lem, get_coil-Same, get_coil-output,
}
use modbus_scanner.RtuServer.Monad.{Server, M, pure, ◌>>=◌, ◌>>◌, add, get_coil, send_pdu}
use modbus_scanner.RtuServer.Output.{
  Holds-output, Emits, Emits-nil, Emits-add, Emits-then, then_some,
}
use modbus_scanner.RtuServer.Replies.{
  u8, u16, add_crc, flush_byte, f1_loop, f1_byte_count, reply_f1,
}
use modbus_scanner.RtuServer.Sending.{
  Sent, Replies, Replies-then, Replies-end, reply_fits, reply_overflows,
}

bind_assoc_at :
    {A B C : Type 0} (o : Option (A × Server)) (f : A → M B) (g : B → M C) (s : Server)
    → let m : M A = λ _. o in ((m >>= f) >>= g) s ≡ (m >>= (λ a. f a >>= g)) s
bind_assoc_at none f g s = refl
bind_assoc_at (some (a, t)) f g s = refl

bind_assoc :
    {A B C : Type 0} (m : M A) (f : A → M B) (g : B → M C) (s : Server)
    → ((m >>= f) >>= g) s ≡ (m >>= (λ a. f a >>= g)) s
bind_assoc m f g s = bind_assoc_at (m s) f g s

-- `m` in `s` does what `m'` does in `t`, which reads as `s` and has the same output.
Emits-moved :
    (m m' : M (Unit {0})) (s t : Server) (ys : List ℕ)
    → m s ≡ m' t
    → Same s t
    → t.output_buffer ≡ s.output_buffer
    → Emits m' t ys
    → Emits m s ys
Emits-moved m m' s t ys e same out p = record {
  fits = λ xs h room.
      let (u, q, hu, same') = p.fits xs (Holds-output s t xs out h) room in
      (u, e ∙ q, hu, Same-trans same same');
  overflows = λ xs h room full. e ∙ p.overflows xs (Holds-output s t xs out h) room full;
}

-- The last byte of the reply, where it is not full.
abbrev finish : ℕ × ℕ → M (Unit {0})
finish last = if ltb 0 last.1 then add last.0 else pure tt

set_bit :
    (byte k : ℕ) (b : Bool)
    → byte < 2 ^ k
    → k < 8
    → (if b then bit_or byte (u8 (2 ^ k)) else byte) ≡ byte + (if b then 2 ^ k else 0)
set_bit byte k true l h =
    ap (bit_or byte) (u8-two_pow k h).0 ∙ bit_or-two_pow k byte h (omega (arith, small_power k h)) l
set_bit byte k false l h = omega arith

abbrev rounds : ℕ → ℕ → ℕ → ℕ → M (Unit {0})
rounds left byte k ix = f1_loop left byte k ix >>= finish

round_lem :
    (left byte k ix : ℕ) (s : Server)
    → byte < 2 ^ k
    → k < 8
    → let byte' = byte + (if coil s ix then 2 ^ k else 0) in
      rounds (suc left) byte k ix s
      ≡ (flush_byte byte' (k + 1) >>= (λ next. rounds left next.0 next.1 (u16 (ix + 1))))
          (coil_read s ix)
unfolding f1_loop
round_lem left byte k ix s l h =
    let u = coil_read s ix in
    let next = λ (p : ℕ × ℕ). f1_loop left p.0 p.1 (u16 (ix + 1)) in
    let flush = λ (v : ℕ). flush_byte v (k + 1) >>= next in
    let set = λ (c : Bool). if c then bit_or byte (u8 (2 ^ k)) else byte in
    bind_assoc (get_coil ix) (λ c. flush (set c)) finish s
    ∙ then_some (get_coil ix) (λ c. flush (set c) >>= finish) (get_coil_lem s ix)
    ∙ ap (λ v. (flush v >>= finish) u) (set_bit byte k (coil s ix) l h)
    ∙ bind_assoc (flush_byte (byte + (if coil s ix then 2 ^ k else 0)) (k + 1)) next finish u

module _ (byte n : ℕ) (next : ℕ × ℕ → M (Unit {0})) (s : Server) where
  flush_keep : n < 8 → (flush_byte byte n >>= next) s ≡ next (byte, n) s
  unfolding flush_byte
  flush_keep h = rw (let e : (n == 8) ≡ false = ground arith in e)

  flush_full : n ≡ 8 → (flush_byte byte n >>= next) s ≡ (add byte >> next (0, 0)) s
  unfolding flush_byte
  flush_full e = rw ((==_iff n 8).1 e) (bind_assoc (add byte) (λ _. pure {A = ℕ × ℕ} (0, 0)) next s)

-- The loop and the last byte together append the coils, packed.
Emits-rounds :
    (left byte k ix : ℕ) (s : Server)
    → byte < 2 ^ k
    → k < 8
    → Emits (rounds left byte k ix) s (pack byte k (window (coil s) left ix))
Emits-rounds zero byte k ix s l h = last byte k s
  where
    last : (byte k : ℕ) (s : Server) → Emits (rounds 0 byte k ix) s (pack byte k [])
    last byte zero s = unfold f1_loop pack in Emits-nil s
    last byte (suc k) s =
        unfold f1_loop pack in
        Emits-moved _ (add byte) s s (byte ∷ []) (rw (lt→ltb 0 (suc k) (omega arith))) (Same-refl s)
          refl (Emits-add s byte)
Emits-rounds (suc left) byte k ix s l h =
    let b = coil s ix in
    let byte' = byte + (if b then 2 ^ k else 0) in
    let u = coil_read s ix in
    let same = get_coil-Same s ix in
    let ix' = u16 (ix + 1) in
    let bs = window (coil s) left ix' in
    let more_rounds = λ (p : ℕ × ℕ). rounds left p.0 p.1 ix' in
    let first = round_lem left byte k ix s l h in
    let out = get_coil-output s ix in
    let seen = window-ext (coil s) (coil u) left ix' same.coils in
    elim (dec_lt (k + 1) 8) [
      | yes more ↦
          subst (Emits (rounds (suc left) byte k ix) s) (sym (pack-more byte k b bs more)) (
            Emits-moved _ (rounds left byte' (k + 1) ix') s u _
              (first ∙ flush_keep byte' (k + 1) more_rounds u more) same out
              (subst (λ w. Emits (rounds left byte' (k + 1) ix') u (pack byte' (k + 1) w)) seen
                (Emits-rounds left byte' (k + 1) ix' u (set_bound byte k b bs l) more)))
      | no full ↦
          let end : k + 1 ≡ 8 = omega arith in
          subst (Emits (rounds (suc left) byte k ix) s) (sym (pack-full byte k b bs end)) (
            Emits-moved _ (add byte' >> rounds left 0 0 ix') s u _
              (first ∙ flush_full byte' (k + 1) more_rounds u end) same out
              (Emits-then (add byte') (rounds left 0 0 ix') u (byte' ∷ []) (pack 0 0 bs)
                (Emits-add u byte')
                (λ v same'.
                  subst (λ w. Emits (rounds left 0 0 ix') v (pack 0 0 w))
                    (window-ext (coil s) (coil v) left ix' (λ i. same'.coils i ∙ same.coils i))
                    (Emits-rounds left 0 0 ix' v (omega arith) (omega arith)))))
    ]

Replies-moved :
    (m m' : M (Unit {0})) (s : Server) (ys : List ℕ) → m s ≡ m' s → Replies m' s ys → Replies m s ys
Replies-moved m m' s ys e p = record {
  fits = λ xs h room. let (t, q, sent) = p.fits xs h room in (t, e ∙ q, sent);
  overflows = λ xs h room full. e ∙ p.overflows xs h room full;
}

count_lem : (n : ℕ) → f1_byte_count n ≡ u8 ((n + 7) / 8)
unfolding f1_byte_count
count_lem n = ground arith

abbrev f1_rest : ℕ → ℕ → M (Unit {0})
f1_rest a q =
    add (f1_byte_count q) >> (f1_loop q 0 0 a >>= (λ last. finish last >> (add_crc >> send_pdu)))

Replies-f1_rest :
    (a q : ℕ) (s t : Server)
    → Same s t
    → Replies (f1_rest a q) t (u8 ((q + 7) / 8) ∷ pack 0 0 (window (coil s) q a))
Replies-f1_rest a q s t same =
    let count = f1_byte_count q in
    let bytes = pack 0 0 (window (coil s) q a) in
    let ending = add_crc >> send_pdu in
    subst (λ n. Replies (f1_rest a q) t (n ∷ bytes)) (count_lem q)
      (rw (append-nil bytes) at (
        Replies-then (add count) _ t (count ∷ []) (bytes ++ []) (Emits-add t count) (λ u p.
          Replies-moved _ (rounds q 0 0 a >> ending) u (bytes ++ [])
            (sym (bind_assoc (f1_loop q 0 0 a) finish (λ _. ending) u))
            (Replies-then (rounds q 0 0 a) ending u bytes []
              (subst (λ w. Emits (rounds q 0 0 a) u (pack 0 0 w))
                (window-ext (coil s) (coil u) q a (λ i. p.coils i ∙ same.coils i))
                (Emits-rounds q 0 0 a u (omega arith) (omega arith)))
              (λ v _. Replies-end v)))))

-- How many bytes the coils of a reply take.
length-f1 : (a q : ℕ) (s : Server) → length (pack 0 0 (window (coil s) q a)) ≡ (q + 7) / 8
length-f1 a q s =
    length-pack 0 0 (window (coil s) q a) (omega arith) ∙ omega (arith, length-window (coil s) q a)

-- Reading at most 8152 coils: the reply is the device address, the function code, the byte count
-- modulo 256, bytes whose bits, the lowest first, are the coils from the starting address on and
-- then zeros up to a whole byte, and the checksum of all that; a write of just these bytes is
-- started, and no coil, no register, nor the scanner nor the input is changed.
pub reply_f1_fits :
    (fc starting_address quantity : ℕ) (s : Server)
    → length s.output_buffer.bytes ≡ buf_size
    → quantity ≤ 8152
    → (t : Server) × (bytes : List ℕ) × (reply_f1 fc starting_address quantity s ≡ some (tt, t))
      × Sent s t (s.dev_address ∷ fc ∷ u8 (length bytes) ∷ bytes)
      × IsBytes bytes
      × (unpack bytes
          ≡ window (coil s) quantity starting_address ++ replicate (padding quantity) false)
unfolding reply_f1
reply_f1_fits fc a q s whole room =
    let bs = window (coil s) q a in
    let bytes = pack 0 0 bs in
    let size = length-f1 a q s in
    let packed = pack-IsPacked 0 0 bs (omega arith) (omega arith) in
    let all : 0 + length bs ≡ q = omega (arith, length-window (coil s) q a) in
    let (t, done, sent) =
      reply_fits fc (f1_rest a q) s _ whole (Replies-f1_rest a q s) (omega (arith, size)) in
    (
      t,
      bytes,
      done,
      subst (λ n. Sent s t (s.dev_address ∷ fc ∷ u8 n ∷ bytes)) (sym size) sent,
      packed.bytes,
      packed.bits ∙ ap (λ n. bs ++ replicate (padding n) false) all,
    )

-- Reading more than 8152 coils, the reply is written past the end of the output buffer.
reply_f1_overflows :
    (fc starting_address quantity : ℕ) (s : Server)
    → length s.output_buffer.bytes ≡ buf_size
    → 8152 < quantity
    → reply_f1 fc starting_address quantity s ≡ none
unfolding reply_f1
reply_f1_overflows fc a q s whole over =
    reply_overflows fc (f1_rest a q) s _ whole (Replies-f1_rest a q s)
      (omega (arith, length-f1 a q s))

abbrev pub F1Outcome : ℕ → ℕ → ℕ → Server → Type 0
F1Outcome fc starting_address quantity s =
    ((quantity ≤ 8152)
      × ((t : Server) × (bytes : List ℕ) × (reply_f1 fc starting_address quantity s ≡ some (tt, t))
          × Sent s t (s.dev_address ∷ fc ∷ u8 (length bytes) ∷ bytes)
          × IsBytes bytes
          × (unpack bytes
              ≡ window (coil s) quantity starting_address ++ replicate (padding quantity) false)))
    ⊎ ((8152 < quantity) × (reply_f1 fc starting_address quantity s ≡ none))

-- Reading coils, for every quantity: up to 8152, the reply has the device address, the function
-- code, the byte count modulo 256, bytes whose bits, the lowest first, are the coils from the
-- starting address on and then zeros up to a whole byte, and the checksum of all that; a write of
-- just these bytes is started, and no coil, no register, nor the scanner nor the input is changed.
-- Above 8152, the reply is written past the end of the output buffer.
pub reply_f1_lem :
    (fc starting_address quantity : ℕ) (s : Server)
    → length s.output_buffer.bytes ≡ buf_size
    → F1Outcome fc starting_address quantity s
reply_f1_lem fc a q s whole = elim (Bool-cases (ltb 8152 q)) [
  | inl over ↦
      let many : 8152 < q = ground (arith, over) in
      inr (many, reply_f1_overflows fc a q s whole many)
  | inr room ↦
      let few : q ≤ 8152 = ground (arith, room) in inl (few, reply_f1_fits fc a q s whole few)
]
