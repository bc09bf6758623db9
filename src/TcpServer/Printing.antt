-- ===== src/TcpServer/Printing.antt =====
-- What tcp_server/server_connection.cpp prints of a request.
use mathlib.Core.Path.{ap₂}
use modbus_scanner.Base.{
  ℕ, zero, suc, ◌≤◌, ◌≡◌, ◌⊎◌, refl, sym, ap, ◌∙◌, inl, inr, true, List, [], ◌∷◌, ◌++◌, arith,
  length,
}
use modbus_scanner.Defs.{Pdu}
use modbus_scanner.HexUtils.{to_hex}
use modbus_scanner.Request.{Request, short, write, read_write, IsRequest, decoded, request_of}
use modbus_scanner.Scanner.{valid_fc}
use modbus_scanner.Spelled.{takes_payload}
use modbus_scanner.TcpServer.{Out, text, number, string, endl, print_pdu, pdu_fields}

-- What a reader takes from the output: the numbers, and the strings that were computed.
pub data Seen : Type 0 where
  value : ℕ → Seen
  hex : List ℕ → Seen

abbrev pub seen : List Out → List Seen
seen [] = []
seen (text t ∷ out) = seen out
seen (number n ∷ out) = value n ∷ seen out
seen (string s ∷ out) = hex s ∷ seen out
seen (endl ∷ out) = seen out

-- The numbers of a request, in the order of its bytes, and its payload in hexadecimal.
abbrev pub shown : Request → List Seen
shown (short fc a b) = value fc ∷ value a ∷ value b ∷ []
shown (write fc a b bytes) =
    value fc ∷ value a ∷ value b ∷ value (length bytes) ∷ hex (to_hex bytes) ∷ []
shown (read_write a b c d bytes) =
    value 23
    ∷ value a
    ∷ value b
    ∷ value c
    ∷ value d
    ∷ value (length bytes)
    ∷ hex (to_hex bytes)
    ∷ []

pub seen-append : (xs ys : List Out) → seen (xs ++ ys) ≡ seen xs ++ seen ys
seen-append [] ys = refl
seen-append (text t ∷ xs) ys = seen-append xs ys
seen-append (number n ∷ xs) ys = ap (λ zs. value n ∷ zs) (seen-append xs ys)
seen-append (string s ∷ xs) ys = ap (λ zs. hex s ∷ zs) (seen-append xs ys)
seen-append (endl ∷ xs) ys = seen-append xs ys

short_printed :
    (fc a b : ℕ) (p : Pdu)
    → 1 ≤ fc
    → fc ≤ 6
    → seen (print_pdu (decoded (short fc a b) p)) ≡ shown (short fc a b)
unfolding print_pdu pdu_fields
short_printed zero a b p h g = absurd (omega arith)
short_printed (suc zero) a b p h g = refl
short_printed (suc (suc zero)) a b p h g = refl
short_printed (suc (suc (suc zero))) a b p h g = refl
short_printed (suc (suc (suc (suc zero)))) a b p h g = refl
short_printed (suc (suc (suc (suc (suc zero))))) a b p h g = refl
short_printed (suc (suc (suc (suc (suc (suc zero)))))) a b p h g = refl
short_printed (suc (suc (suc (suc (suc (suc (suc fc))))))) a b p h g = absurd (omega arith)

write_printed :
    (fc a b : ℕ) (bytes : List ℕ) (p : Pdu)
    → (fc ≡ 15) ⊎ (fc ≡ 16)
    → seen (print_pdu (decoded (write fc a b bytes) p)) ≡ shown (write fc a b bytes)
unfolding print_pdu pdu_fields
write_printed fc a b bytes p (inl e) =
    ap (λ f. seen (print_pdu (decoded (write f a b bytes) p))) e
    ∙ ap (λ f. shown (write f a b bytes)) (sym e)
write_printed fc a b bytes p (inr e) =
    ap (λ f. seen (print_pdu (decoded (write f a b bytes) p))) e
    ∙ ap (λ f. shown (write f a b bytes)) (sym e)

-- For every request, `on_pdu` prints its function code, all its numbers in their order, and the
-- payload, where it has one, in hexadecimal, and nothing that `m_pdu` holds of earlier requests.
pub print_pdu-decoded :
    (r : Request) (p : Pdu) → IsRequest r → seen (print_pdu (decoded r p)) ≡ shown r
unfolding print_pdu pdu_fields
print_pdu-decoded (short fc a b) p h = short_printed fc a b p h.0 h.1
print_pdu-decoded (write fc a b bytes) p h = write_printed fc a b bytes p h.0
print_pdu-decoded (read_write a b c d bytes) p h = refl

valid_fc-cases :
    (fc : ℕ) → valid_fc fc ≡ true → ((1 ≤ fc) × (fc ≤ 6)) ⊎ (((fc ≡ 15) ⊎ (fc ≡ 16)) ⊎ (fc ≡ 23))
unfolding valid_fc
valid_fc-cases fc e = ground (arith, e)

-- A `m_pdu` whose byte count is its payload's, where its function has one, is printed as the request
-- that is read off it.
pub print_pdu-request_of :
    (p : Pdu)
    → valid_fc p.fc ≡ true
    → (takes_payload p.fc ≡ true → p.i8_1 ≡ length p.payload)
    → seen (print_pdu p) ≡ shown (request_of p)
unfolding print_pdu pdu_fields request_of
print_pdu-request_of p v counted = elim (valid_fc-cases p.fc v) [
  | inl (lo, hi) ↦
      let r : request_of p ≡ short p.fc p.i16_1 p.i16_2 = ground arith in
      short_printed p.fc p.i16_1 p.i16_2 p lo hi ∙ ap shown (sym r)
  | inr (inl w) ↦
      let r : request_of p ≡ write p.fc p.i16_1 p.i16_2 p.payload = ground (arith, w) in
      let n : p.i8_1 ≡ length p.payload = counted (ground (arith, w)) in
      ap (λ (x : ℕ). seen (print_pdu (record p { i8_1 = x }))) n
      ∙ write_printed p.fc p.i16_1 p.i16_2 p.payload p w
      ∙ ap shown (sym r)
  | inr (inr w) ↦
      let r : request_of p ≡ read_write p.i16_1 p.i16_2 p.i16_3 p.i16_4 p.payload =
        ground (arith, w) in
      let n : p.i8_1 ≡ length p.payload = counted (ground (arith, w)) in
      ap₂ (λ (f x : ℕ). seen (print_pdu (record p { fc = f; i8_1 = x }))) w n ∙ ap shown (sym r)
]
