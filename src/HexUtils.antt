-- ===== src/HexUtils.antt =====
-- hex_utils.cpp: bytes in hexadecimal. A string is the list of its character codes.
use modbus_scanner.Base.{
  ℕ, zero, suc, ◌+◌, ◌*◌, ◌/◌, ◌≤◌, ◌<◌, ◌≡◌, refl, ap, ◌∙◌, Bool, true, List, [], ◌∷◌, ◌++◌,
  Option, some, none, arith, ltb, ◌^◌, ◌-◌, ◌==◌, if◌then◌else◌, bit_and, get_or, take, length,
  IsBytes, holds_below, holds_below_sound,
}

-- The digits 0 to 9 and A to F.
abbrev tab : List ℕ
tab = 48 ∷ 49 ∷ 50 ∷ 51 ∷ 52 ∷ 53 ∷ 54 ∷ 55 ∷ 56 ∷ 57 ∷ 65 ∷ 66 ∷ 67 ∷ 68 ∷ 69 ∷ 70 ∷ []

-- `to_hex` of one byte. Both indices lie in the table.
unfoldable pub to_hex_byte : ℕ → List ℕ
to_hex_byte uc = get_or tab (uc / 2 ^ 4) 0 ∷ get_or tab (bit_and uc 0xf) 0 ∷ []

-- `to_hex` of a vector; 32 is the blank.
unfoldable pub to_hex : List ℕ → List ℕ
unfolding to_hex_byte
to_hex [] = []
to_hex (uc ∷ uv) = to_hex_byte uc ++ (32 ∷ to_hex uv)

-- `to_hex` of the first `length` bytes of an array; `none` is a read outside it.
unfoldable pub to_hex_array : List ℕ → ℕ → Option (List ℕ)
unfolding to_hex_byte
to_hex_array ar zero = some []
to_hex_array [] (suc n) = none
to_hex_array (uc ∷ ar) (suc n) = elim (to_hex_array ar n) [
  | none ↦ none
  | some res ↦ some (to_hex_byte uc ++ (32 ∷ res))
]

-- A reader: the value of a digit, and the bytes of a line of pairs of digits.
unfoldable pub digit : ℕ → ℕ
digit c = if ltb c 58 then c - 48 else c - 55

unfoldable pub from_hex : List ℕ → Option (List ℕ)
unfolding digit
from_hex [] = some []
from_hex (h ∷ l ∷ blank ∷ rest) = elim (from_hex rest) [
  | none ↦ none
  | some uv ↦ some ((digit h * 16 + digit l) ∷ uv)
]
from_hex (h ∷ []) = none
from_hex (h ∷ l ∷ []) = none

byte_test : ℕ → Bool
unfolding digit
byte_test uc = digit (get_or tab (uc / 2 ^ 4) 0) * 16 + digit (get_or tab (bit_and uc 0xf) 0) == uc

byte_all : holds_below byte_test 256 ≡ true
unfolding holds_below byte_test digit
byte_all = refl

byte_lem :
    (uc : ℕ)
    → uc < 256
    → digit (get_or tab (uc / 2 ^ 4) 0) * 16 + digit (get_or tab (bit_and uc 0xf) 0) ≡ uc
unfolding byte_test
byte_lem uc h =
    let e : byte_test uc ≡ true = holds_below_sound byte_test 256 uc h byte_all in ground (arith, e)

-- Bytes are read back from what `to_hex` writes for them.
pub from_hex-to_hex : (uv : List ℕ) → IsBytes uv → from_hex (to_hex uv) ≡ some uv
unfolding from_hex to_hex
from_hex-to_hex [] h = refl
from_hex-to_hex (uc ∷ uv) h =
    rw (from_hex-to_hex uv h.1) (ap (λ b. some (b ∷ uv)) (byte_lem uc h.0))

-- On an array, `to_hex` gives what it gives on the vector of the first `length` bytes where there
-- are that many, and reads outside the array where there are not.
pub to_hex_array-to_hex :
    (ar : List ℕ) (n more : ℕ)
    → n ≤ length ar
    → (to_hex_array ar n ≡ some (to_hex (take n ar)))
      × (to_hex_array ar (length ar + suc more) ≡ none)
unfolding to_hex_array to_hex
to_hex_array-to_hex ar n more h = (inside ar n h, outside ar more)
  where
    inside : (ar : List ℕ) (n : ℕ) → n ≤ length ar → to_hex_array ar n ≡ some (to_hex (take n ar))
    inside ar zero h = refl
    inside [] (suc n) h = absurd (omega arith)
    inside (uc ∷ ar) (suc n) h = rw (inside ar n (omega arith)) refl

    outside : (ar : List ℕ) (more : ℕ) → to_hex_array ar (length ar + suc more) ≡ none
    outside [] more = ap (to_hex_array []) (let e : 0 + suc more ≡ suc more = omega arith in e)
    outside (uc ∷ ar) more =
        ap (to_hex_array (uc ∷ ar))
          (let e : suc (length ar) + suc more ≡ suc (length ar + suc more) = omega arith in e)
        ∙ rw (outside ar more, to_hex_array) refl
