-- ===== src/Crc/Reference.antt =====
-- The table-driven loops compute the CRC-16 of the MODBUS specification, bit by bit.
use mathlib.Core.Path.{ap₂}
use modbus_scanner.Base.{
  ◌↔◌, ℕ, zero, suc, ◌+◌, ◌*◌, ◌/◌, ◌%◌, ◌^◌, ◌<◌, ◌≡◌, refl, sym, ap, ◌∙◌, true, ◌&&◌, Bool, ltb,
  List, [], ◌∷◌, arith, ◌==◌, ==_iff, &&_split, ltb→lt, bit_xor, IsBytes, holds_below,
  holds_below_sound,
}
use modbus_scanner.Base.Xor.{
  zero-xor, xor_comm, xor-lt, xor-div-two, xor-mod-two, xor-zero, xor_fields, xor_swap_middle,
  xor-bits-mul, mul-two-pow-suc,
}
use modbus_scanner.Defs.{Buffer, contents}
use modbus_scanner.Crc.{
  calc_crc_rtu, check_crc_rtu, crchi, crclo, Crc, crc_step, crc_loop, crc_start,
}

-- A shift by one bit, with the polynomial 0xA001 when the bit that falls out is 1.
abbrev pub shift : ℕ → ℕ
shift x = bit_xor (x / 2) (x % 2 * 0xa001)

unfoldable pub shifts : ℕ → ℕ → ℕ
shifts zero x = x
shifts (suc n) x = shifts n (shift x)

-- The specification's algorithm: the byte into the low end, then eight shifts.
unfoldable pub reference : ℕ → List ℕ → ℕ
reference x [] = x
reference x (b ∷ bs) = reference (shifts 8 (bit_xor x b)) bs

-- The register of the specification: `hi` is the byte that is sent first, its low end.
abbrev pub register : Crc → ℕ
register k = k.lo * 256 + k.hi

shift-xor : (x y : ℕ) → shift (bit_xor x y) ≡ bit_xor (shift x) (shift y)
shift-xor x y = rw (xor-div-two x y) (
    ap (bit_xor (bit_xor (x / 2) (y / 2))) (
      ap (λ (t : ℕ). t * 0xa001)
        (let e : bit_xor x y % 2 ≡ (x % 2 + y % 2) % 2 = omega (arith, xor-mod-two x y) in e)
      ∙ sym (xor-bits-mul (x % 2) (y % 2) 0xa001 (omega arith) (omega arith)))
    ∙ xor_swap_middle (x / 2) (y / 2) (x % 2 * 0xa001) (y % 2 * 0xa001))

shifts-xor : (n x y : ℕ) → shifts n (bit_xor x y) ≡ bit_xor (shifts n x) (shifts n y)
unfolding shifts
shifts-xor zero x y = refl
shifts-xor (suc n) x y = ap (shifts n) (shift-xor x y) ∙ shifts-xor n (shift x) (shift y)

shift_even : (y : ℕ) → shift (2 * y) ≡ y
shift_even y =
    ap₂ bit_xor (let e : 2 * y / 2 ≡ y = omega arith in e)
      (let e : 2 * y % 2 * 0xa001 ≡ 0 = omega arith in e)
    ∙ xor-zero y

shifts_high : (n y : ℕ) → shifts n (y * 2 ^ n) ≡ y
unfolding shifts
shifts_high zero y = omega arith
shifts_high (suc n) y =
    ap (shifts n) (ap shift (mul-two-pow-suc y n) ∙ shift_even (y * 2 ^ n)) ∙ shifts_high n y

table_test : ℕ → Bool
unfolding shifts crchi crclo
table_test i = shifts 8 i == crclo i * 256 + crchi i && (ltb (crclo i) 256 && ltb (crchi i) 256)

table_all : holds_below table_test 256 ≡ true
unfolding holds_below table_test
table_all = refl

-- Each entry of the tables is what eight shifts give, and is a byte.
pub tables_lem :
    (i : ℕ) → i < 256 → (shifts 8 i ≡ crclo i * 256 + crchi i) × (crclo i < 256) × (crchi i < 256)
unfolding table_test
tables_lem i h =
    let e : table_test i ≡ true = holds_below_sound table_test 256 i h table_all in
    let (p, q) =
      &&_split (shifts 8 i == crclo i * 256 + crchi i) (ltb (crclo i) 256 && ltb (crchi i) 256) e in
    let (r, s) = &&_split (ltb (crclo i) 256) (ltb (crchi i) 256) q in
    ((==_iff _ _).0 p, ltb→lt _ _ r, ltb→lt _ _ s)

crc_step-register :
    (k : Crc) (b : ℕ)
    → k.hi < 256
    → k.lo < 256
    → b < 256
    → register (crc_step k b) ≡ shifts 8 (bit_xor (register k) b)
unfolding crc_step
crc_step-register k b h l hb =
    let i = bit_xor k.hi b in
    let i_lt : i < 256 = xor-lt 8 k.hi b h hb in
    let t = tables_lem i i_lt in
    let low : shifts 8 (bit_xor (register k) b) ≡ shifts 8 (bit_xor (k.lo * 256) i) =
      ap (shifts 8) (xor_fields 8 k.lo k.hi b h hb ∙ sym (high k.lo i i_lt)) in
    sym (
      low
      ∙ shifts-xor 8 (k.lo * 256) i
      ∙ ap₂ bit_xor (shifts_high 8 k.lo) t.0
      ∙ xor_comm k.lo (crclo i * 256 + crchi i)
      ∙ xor_fields 8 (crclo i) (crchi i) k.lo t.2 l
      ∙ ap (λ (x : ℕ). crclo i * 256 + x) (xor_comm (crchi i) k.lo))
  where
    high : (q r : ℕ) → r < 256 → bit_xor (q * 256) r ≡ q * 256 + r
    high q r f =
        ap (λ x. bit_xor x r) (let e : q * 256 ≡ q * 256 + 0 = omega arith in e)
        ∙ xor_fields 8 q 0 r (omega arith) f
        ∙ ap (λ (x : ℕ). q * 256 + x) (zero-xor r)

-- The bytes of a checksum.
abbrev pub IsCrc : Crc → Type 0
IsCrc k = (k.hi < 256) × (k.lo < 256)

pub crc_step-IsCrc : (k : Crc) (b : ℕ) → IsCrc k → b < 256 → IsCrc (crc_step k b)
unfolding crc_step
crc_step-IsCrc k b h hb =
    let t = tables_lem (bit_xor k.hi b) (xor-lt 8 k.hi b h.0 hb) in
    (xor-lt 8 k.lo (crchi (bit_xor k.hi b)) h.1 t.2, t.1)

pub crc_loop-IsCrc : (k : Crc) (buf : List ℕ) → IsCrc k → IsBytes buf → IsCrc (crc_loop k buf)
unfolding crc_loop
crc_loop-IsCrc k [] h hb = h
crc_loop-IsCrc k (b ∷ buf) h hb = crc_loop-IsCrc (crc_step k b) buf (crc_step-IsCrc k b h hb.0) hb.1

-- From any register, the loop over the tables and the bit by bit algorithm go on alike.
pub crc_loop-reference :
    (k : Crc) (buf : List ℕ)
    → IsCrc k
    → IsBytes buf
    → register (crc_loop k buf) ≡ reference (register k) buf
unfolding crc_loop reference
crc_loop-reference k [] h hb = refl
crc_loop-reference k (b ∷ buf) h hb =
    crc_loop-reference (crc_step k b) buf (crc_step-IsCrc k b h hb.0) hb.1
    ∙ ap (λ x. reference x buf) (crc_step-register k b h.0 h.1 hb.0)

-- For every buffer of byte values in use, `calc_crc_rtu` leaves the checksum that the bit by bit
-- CRC-16 of the MODBUS specification (start value 0xFFFF, polynomial 0xA001) gives.
pub calc_crc_rtu-reference :
    (buf : Buffer)
    → IsBytes (contents buf)
    → register (calc_crc_rtu buf) ≡ reference 0xffff (contents buf)
unfolding calc_crc_rtu
calc_crc_rtu-reference buf h =
    crc_loop-reference crc_start (contents buf) (omega arith, omega arith) h

-- `check_crc_rtu` accepts two received bytes exactly when they are the two bytes of the
-- bit by bit CRC-16 of the buffer, the low one first.
pub check_crc_rtu-reference :
    (buf : List ℕ) (received_crc_hi received_crc_lo : ℕ)
    → IsBytes buf
    → (check_crc_rtu buf received_crc_hi received_crc_lo ≡ true) ↔ (
        (received_crc_hi ≡ reference 0xffff buf % 256)
        × (received_crc_lo ≡ reference 0xffff buf / 256))
unfolding check_crc_rtu
check_crc_rtu-reference buf hi lo h =
    let crc = crc_loop crc_start buf in
    let e = crc_loop-reference crc_start buf (omega arith, omega arith) h in
    let r = crc_loop-IsCrc crc_start buf (omega arith, omega arith) h in ground (arith, e, r)
