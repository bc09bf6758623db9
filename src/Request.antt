-- ===== src/Request.antt =====
-- The requests of mb_functions.txt, described independently of the scanners: their bytes, and
-- what `pdu_c` (defs.h) holds of them.
use modbus_scanner.Base.{
  ℕ, ◌/◌, ◌%◌, ◌≤◌, ◌<◌, ◌≡◌, refl, ◌⊎◌, ◌||◌, List, [], ◌∷◌, ◌++◌, Option, none, some, length,
  arith, ◌==◌, if◌then◌else◌,
}
use modbus_scanner.Defs.{Pdu, Event, on_pdu, on_nonse}

-- The functions 1 to 6 have two numbers, 15 and 16 have two and a payload, 23 has four and a
-- payload.
pub data Request : Type 0 where
  short : ℕ → ℕ → ℕ → Request
  write : ℕ → ℕ → ℕ → List ℕ → Request
  read_write : ℕ → ℕ → ℕ → ℕ → List ℕ → Request

abbrev pub Is16 : ℕ → Type 0
Is16 n = n < 65536

-- What fits the fields of a frame.
abbrev pub IsRequest : Request → Type 0
IsRequest (short fc a b) = (1 ≤ fc) × (fc ≤ 6) × Is16 a × Is16 b
IsRequest (write fc a b bytes) = ((fc ≡ 15) ⊎ (fc ≡ 16)) × Is16 a × Is16 b × (length bytes < 256)
IsRequest (read_write a b c d bytes) = Is16 a × Is16 b × Is16 c × Is16 d × (length bytes < 256)

-- The payload, where the request has one, is not empty.
abbrev pub HasPayload : Request → Type 0
HasPayload (short fc a b) = Unit {0}
HasPayload (write fc a b bytes) = 0 < length bytes
HasPayload (read_write a b c d bytes) = 0 < length bytes

-- A 16-bit number, the high byte first.
abbrev pub two_bytes : ℕ → List ℕ → List ℕ
two_bytes n rest = n / 256 ∷ n % 256 ∷ rest

-- The request behind the device address, with no checksum.
abbrev pub print : Request → List ℕ
print (short fc a b) = fc ∷ two_bytes a (two_bytes b [])
print (write fc a b bytes) = fc ∷ two_bytes a (two_bytes b (length bytes ∷ bytes))
print (read_write a b c d bytes) =
    23 ∷ two_bytes a (two_bytes b (two_bytes c (two_bytes d (length bytes ∷ bytes))))

-- The numbers of the request in the fields of `pdu_c`. What the request does not have keeps
-- its value from an earlier one.
abbrev pub decoded : Request → Pdu → Pdu
decoded (short fc a b) p = record p { fc = fc; i16_1 = a; i16_2 = b }
decoded (write fc a b bytes) p = record p {
  fc = fc;
  i16_1 = a;
  i16_2 = b;
  i8_1 = length bytes;
  payload = bytes;
}
decoded (read_write a b c d bytes) p = record p {
  fc = 23;
  i16_1 = a;
  i16_2 = b;
  i16_3 = c;
  i16_4 = d;
  i8_1 = length bytes;
  payload = bytes;
}

-- The request that a user reads off a `pdu_c`, by its function code as `on_pdu` does.
unfoldable pub request_of : Pdu → Request
request_of p =
    if p.fc == 23
    then read_write p.i16_1 p.i16_2 p.i16_3 p.i16_4 p.payload
    else if p.fc == 15 || p.fc == 16
    then write p.fc p.i16_1 p.i16_2 p.payload
    else short p.fc p.i16_1 p.i16_2

pub request_of-decoded : (r : Request) (p : Pdu) → IsRequest r → request_of (decoded r p) ≡ r
unfolding request_of
request_of-decoded (short fc a b) p h = ground arith
request_of-decoded (write fc a b bytes) p h = ground arith
request_of-decoded (read_write a b c d bytes) p h = ground arith

-- What a user is told by the calls: a request, or nonsense.
abbrev pub told : List Event → List (Option Request)
told [] = []
told (on_pdu p ∷ calls) = some (request_of p) ∷ told calls
told (on_nonse ∷ calls) = none ∷ told calls

pub told-append : (xs ys : List Event) → told (xs ++ ys) ≡ told xs ++ told ys
told-append [] ys = refl
told-append (on_pdu p ∷ xs) ys = rw (told-append xs ys)
told-append (on_nonse ∷ xs) ys = rw (told-append xs ys)
