-- ===== src/TcpServer/Shown.antt =====
-- What tcp_server/server_connection.cpp has printed, step by step of its scanner.
use mathlib.Core.Path.{ap₂, subst}
use modbus_scanner.Base.{
  ℕ, ◌+◌, ◌<◌, ◌≡◌, ◌⊎◌, inl, inr, refl, sym, ap, ◌∙◌, true, ◌||◌, IsBytes, List, [], ◌∷◌, ◌++◌,
  Option, none, some, ◌==◌, ltb, length, length-append, append_assoc, arith, All,
}
use modbus_scanner.Coroutine.{Next, scan_all}
use modbus_scanner.Coroutine.Chunks.{IsChunk}
use modbus_scanner.Coroutine.Following
use modbus_scanner.Coroutine.Following.{scan_all-Kept}
use modbus_scanner.Defs.{Buffer, Pdu, Event, on_pdu, on_nonse, contents}
use modbus_scanner.Request.{Request, told, told-append}
use modbus_scanner.Scanner.{Order, valid_fc}
use modbus_scanner.Spelled.{takes_payload, Bool-cases}
use modbus_scanner.Tcp
use modbus_scanner.Tcp.Stream.{Inv, machine-IsMachine}
use modbus_scanner.Tcp.{
  Scanner, Point, pre_transact_state, transact_id_state, transact_id_2_state, protocol_id_state,
  protocol_id_2_state, length_state, length_2_state, unit_id_state, function_state, i16_1_hi_state,
  i16_1_lo_state, i16_2_hi_state, i16_2_lo_state, i16_3_hi_state, i16_3_lo_state, i16_4_hi_state,
  i16_4_lo_state, i8_1_state, data_state, finished, whole_pdu, step_at, machine,
}
use modbus_scanner.TcpServer.{printed, print_pdu, print_nonse}
use modbus_scanner.TcpServer.Printing.{Seen, seen, seen-append, shown, print_pdu-request_of}

-- What is to be seen of what the user was told: each request once, and of nonsense no values.
abbrev pub told_shown : List (Option Request) → List Seen
told_shown [] = []
told_shown (some r ∷ rs) = shown r ++ told_shown rs
told_shown (none ∷ rs) = told_shown rs

told_shown-append :
    (xs ys : List (Option Request)) → told_shown (xs ++ ys) ≡ told_shown xs ++ told_shown ys
told_shown-append [] ys = refl
told_shown-append (some r ∷ xs) ys =
    ap (λ zs. shown r ++ zs) (told_shown-append xs ys)
    ∙ sym (append_assoc (shown r) (told_shown xs) (told_shown ys))
told_shown-append (none ∷ xs) ys = told_shown-append xs ys

printed-append :
    (xs ys : List Event) → seen (printed (xs ++ ys)) ≡ seen (printed xs) ++ seen (printed ys)
unfolding printed
printed-append [] ys = refl
printed-append (on_pdu p ∷ xs) ys =
    seen-append (print_pdu p) (printed (xs ++ ys))
    ∙ ap (λ zs. seen (print_pdu p) ++ zs) (printed-append xs ys)
    ∙ sym (append_assoc (seen (print_pdu p)) (seen (printed xs)) (seen (printed ys)))
    ∙ ap (λ zs. zs ++ seen (printed ys)) (sym (seen-append (print_pdu p) (printed xs)))
printed-append (on_nonse ∷ xs) ys =
    seen-append print_nonse (printed (xs ++ ys))
    ∙ ap (λ zs. seen print_nonse ++ zs) (printed-append xs ys)
    ∙ sym (append_assoc (seen print_nonse) (seen (printed xs)) (seen (printed ys)))
    ∙ ap (λ zs. zs ++ seen (printed ys)) (sym (seen-append print_nonse (printed xs)))

-- What has been printed shows what has been told.
abbrev pub IsPrinted : List Event → Type 0
IsPrinted calls = seen (printed calls) ≡ told_shown (told calls)

one_more :
    (calls : List Event) (e : Event)
    → IsPrinted calls
    → IsPrinted (e ∷ [])
    → IsPrinted (calls ++ e ∷ [])
one_more calls e h g =
    printed-append calls (e ∷ [])
    ∙ ap₂ (λ xs ys. xs ++ ys) h g
    ∙ sym (told_shown-append (told calls) (told (e ∷ [])))
    ∙ ap told_shown (sym (told-append calls (e ∷ [])))

on_nonse-IsPrinted : IsPrinted (on_nonse ∷ [])
unfolding printed print_nonse
on_nonse-IsPrinted = refl

on_pdu-IsPrinted :
    (p : Pdu)
    → valid_fc p.fc ≡ true
    → (takes_payload p.fc ≡ true → p.i8_1 ≡ length p.payload)
    → IsPrinted (on_pdu p ∷ [])
unfolding printed
on_pdu-IsPrinted p v counted =
    seen-append (print_pdu p) [] ∙ ap (λ xs. xs ++ []) (print_pdu-request_of p v counted)

-- What the local variables keep at a point.
abbrev Keeps : Point → Scanner → Type 0
Keeps pre_transact_state s = Unit {0}
Keeps transact_id_state s = Unit {0}
Keeps transact_id_2_state s = Unit {0}
Keeps protocol_id_state s = Unit {0}
Keeps protocol_id_2_state s = Unit {0}
Keeps length_state s = Unit {0}
Keeps length_2_state s = Unit {0}
Keeps unit_id_state s = Unit {0}
Keeps function_state s = Unit {0}
Keeps i16_1_hi_state s = valid_fc s.fc ≡ true
Keeps i16_1_lo_state s = valid_fc s.fc ≡ true
Keeps i16_2_hi_state s = valid_fc s.fc ≡ true
Keeps i16_2_lo_state s = valid_fc s.fc ≡ true
Keeps i16_3_hi_state s = valid_fc s.fc ≡ true
Keeps i16_3_lo_state s = valid_fc s.fc ≡ true
Keeps i16_4_hi_state s = valid_fc s.fc ≡ true
Keeps i16_4_lo_state s = valid_fc s.fc ≡ true
Keeps i8_1_state s = valid_fc s.fc ≡ true
Keeps data_state s =
    (valid_fc s.fc ≡ true)
    × (length s.pdu.payload ≡ s.ix)
    × ((s.ix < s.pdu.i8_1) ⊎ ((s.ix ≡ 0) × (s.pdu.i8_1 ≡ 0)))

room_or_none : (n : ℕ) → let start : ℕ = 0 in (start < n) ⊎ ((start ≡ 0) × (n ≡ 0))
room_or_none n = ground arith

abbrev Prints : List ℕ → Scanner → Type 0
Prints history s = Keeps s.point s × IsPrinted s.calls

abbrev Goes : Next Scanner → Type 0
Goes = Following.Goes Prints []

module _ (order : Order) (s : Scanner) (c : ℕ) (printed_so_far : IsPrinted s.calls) where
  whole_pdu-Goes :
      (t : Scanner)
      → t.calls ≡ s.calls
      → valid_fc t.fc ≡ true
      → (takes_payload t.fc ≡ true → t.pdu.i8_1 ≡ length t.pdu.payload)
      → Goes (whole_pdu order t)
  unfolding whole_pdu
  whole_pdu-Goes t same v counted = (
    tt,
    one_more t.calls (on_pdu (finished order t)) (subst IsPrinted (sym same) printed_so_far)
        (on_pdu-IsPrinted (finished order t) v counted),
  )

  step_at-Goes : (p : Point) → Keeps p s → Goes (step_at order p s c)
  unfolding step_at
  step_at-Goes pre_transact_state k = (tt, printed_so_far)
  step_at-Goes transact_id_state k = (tt, printed_so_far)
  step_at-Goes transact_id_2_state k = (tt, printed_so_far)
  step_at-Goes protocol_id_state k = (tt, printed_so_far)
  step_at-Goes protocol_id_2_state k = (tt, printed_so_far)
  step_at-Goes length_state k = (tt, printed_so_far)
  step_at-Goes length_2_state k = (tt, printed_so_far)
  step_at-Goes unit_id_state k = elim (Bool-cases (c == s.address)) [
    | inl e ↦ rw e (tt, printed_so_far)
    | inr e ↦ rw e (λ rest. (tt, printed_so_far))
  ]
  step_at-Goes function_state k = elim (Bool-cases (valid_fc c)) [
    | inl e ↦ rw e (e, printed_so_far)
    | inr e ↦ rw e (λ rest. (tt, one_more s.calls on_nonse printed_so_far on_nonse-IsPrinted))
  ]
  step_at-Goes i16_1_hi_state k = (k, printed_so_far)
  step_at-Goes i16_1_lo_state k = (k, printed_so_far)
  step_at-Goes i16_2_hi_state k = (k, printed_so_far)
  step_at-Goes i16_2_lo_state k = elim (Bool-cases (s.fc == 23)) [
    | inl e ↦ rw e (k, printed_so_far)
    | inr e ↦ rw e (elim (Bool-cases (s.fc == 15 || s.fc == 16)) [
      | inl f ↦ rw f (k, printed_so_far)
      | inr f ↦ rw f (
          whole_pdu-Goes (record s { i16_2_lo = c }) refl k (λ g. absurd (ground (arith, e, f, g))))
    ])
  ]
  step_at-Goes i16_3_hi_state k = (k, printed_so_far)
  step_at-Goes i16_3_lo_state k = (k, printed_so_far)
  step_at-Goes i16_4_hi_state k = (k, printed_so_far)
  step_at-Goes i16_4_lo_state k = (k, printed_so_far)
  step_at-Goes i8_1_state k = ((k, refl, room_or_none c), printed_so_far)
  step_at-Goes data_state k =
      let t = record s {
        ix = s.ix + 1;
        pdu = record (s.pdu) { payload = s.pdu.payload ++ c ∷ [] };
      } in
      let size : length t.pdu.payload ≡ s.ix + 1 =
        omega (arith, k.1, length-append s.pdu.payload (c ∷ [])) in
      elim (Bool-cases (ltb s.ix s.pdu.i8_1)) [
        | inl e ↦ rw e (elim (Bool-cases (ltb t.ix t.pdu.i8_1)) [
          | inl f ↦ rw f ((k.0, size, inl (ground (arith, f))), printed_so_far)
          | inr f ↦ rw f (whole_pdu-Goes t refl k.0 (λ g. ground (arith, e, f, size)))
        ])
        | inr e ↦ rw e (whole_pdu-Goes s refl k.0 (λ g. ground (arith, e, k.1, k.2)))
      ]

step-Prints :
    (order : Order) (history : List ℕ) (s : Scanner) (c : ℕ)
    → c < 256
    → Prints history s
    → Following.Goes Prints (history ++ c ∷ []) (step_at order s.point s c)
step-Prints order history s c small k = step_at-Goes order s c k.1 s.point k.0

-- After any bytes, what has been printed shows what has been told.
pub scan_all-IsPrinted :
    (order : Order) (address : ℕ) (pdu : Pdu) (chunks : List Buffer) (t : Scanner)
    → All IsChunk chunks
    → All (λ b. IsBytes (contents b)) chunks
    → scan_all (machine order) chunks (Tcp.new address pdu) ≡ some t
    → IsPrinted t.calls
unfolding Tcp.new printed
scan_all-IsPrinted order address pdu chunks t c h done =
    let (u, done', k) =
      scan_all-Kept (machine order) Prints (step-Prints order) Inv (machine-IsMachine order) chunks
        [] (Tcp.new address pdu) c h tt (tt, refl) in
    subst (λ (o : Option Scanner). elim o [ none ↦ Unit {0} | some v ↦ IsPrinted v.calls ])
      (sym done' ∙ done) k.1
