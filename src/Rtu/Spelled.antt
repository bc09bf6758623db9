-- ===== src/Rtu/Spelled.antt =====
-- What slave_rtu_scanner.cpp has read of a frame, spelled by its local variables.
use modbus_scanner.Base.{
  ℕ, IsBytes, ◌≡◌, refl, sym, ap, ◌∙◌, true, false, ◌||◌, List, ◌∷◌, ◌++◌, arith, ◌==◌, length,
}
use modbus_scanner.Request.{print, request_of}
use modbus_scanner.Rtu.{Scanner, finished}
use modbus_scanner.Scanner.{Order, combine}
use modbus_scanner.Spelled
use modbus_scanner.Spelled.{Locals, Bool-cases, short_request, long_request}

abbrev pub locals : Scanner → Locals
locals s = record {
  i16_1_hi = s.i16_1_hi;
  i16_1_lo = s.i16_1_lo;
  i16_2_hi = s.i16_2_hi;
  i16_2_lo = s.i16_2_lo;
  i16_3_hi = s.i16_3_hi;
  i16_3_lo = s.i16_3_lo;
  i16_4_hi = s.i16_4_hi;
  i16_4_lo = s.i16_4_lo;
}

abbrev pub six : Scanner → List ℕ
six s = s.address ∷ Spelled.six s.fc (locals s)

abbrev pub ten : Scanner → List ℕ
ten s = s.address ∷ Spelled.ten s.fc (locals s)

-- In front of the byte count.
abbrev pub spelled : Scanner → List ℕ
spelled s = s.address ∷ Spelled.spelled s.fc (locals s)

-- The function has a payload, and the numbers that only function 23 has are in `m_pdu`.
pub record HasCount (order : Order) (s : Scanner) : Type 0 where
  pub takes : (s.fc == 23 || (s.fc == 15 || s.fc == 16)) ≡ true
  pub third : (s.fc == 23) ≡ true → s.pdu.i16_3 ≡ combine order s.i16_3_hi s.i16_3_lo
  pub fourth : (s.fc == 23) ≡ true → s.pdu.i16_4 ≡ combine order s.i16_4_hi s.i16_4_lo

pub short_frame :
    (order : Order) (s : Scanner)
    → IsBytes (six s)
    → (s.fc == 23) ≡ false
    → (s.fc == 15 || s.fc == 16) ≡ false
    → six s ≡ s.address ∷ print (request_of (finished order s))
short_frame order s small n m =
    ap (λ xs. s.address ∷ xs)
      (short_request order (locals s) (finished order s) (record { first = refl; second = refl })
        small.1 (ground (arith, n, m)))

pub long_frame :
    (order : Order) (s : Scanner)
    → IsBytes (spelled s)
    → HasCount order s
    → length s.pdu.payload ≡ s.pdu.i8_1
    → spelled s ++ s.pdu.i8_1 ∷ s.pdu.payload ≡ s.address ∷ print (request_of (finished order s))
long_frame order s small h n =
    ap (λ m. spelled s ++ m ∷ s.pdu.payload) (sym n)
    ∙ ap (λ xs. s.address ∷ xs)
        (long_request order (locals s) (finished order s) (record { first = refl; second = refl })
          small.1 h.takes (record { third = h.third; fourth = h.fourth }))
