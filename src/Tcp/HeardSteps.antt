-- ===== src/Tcp/HeardSteps.antt =====
-- slave_tcp_scanner.cpp, step by step: the steps that test what they read.
use mathlib.Core.Path.{subst}
use modbus_scanner.Base.{
  snoc, ℕ, zero, suc, ◌+◌, ◌<◌, ◌≡◌, ◌⊎◌, refl, sym, ap, ◌∙◌, inl, inr, true, false, ◌||◌, List, [],
  ◌∷◌, ◌++◌, arith, ◌==◌, ltb, length, length-append, All-append, IsBytes, append_assoc, append-nil,
}
use modbus_scanner.Request.{print, request_of}
use modbus_scanner.InOrder.{then_nonse, read_on}
use modbus_scanner.Scanner.{Order, valid_fc}
use modbus_scanner.Spelled.{Bool-cases, takes_payload, HasFour, short_request, long_request}
use modbus_scanner.Tcp.Decode.{Header, header_bytes}
use modbus_scanner.Tcp.Heard.{Follows, Goes, locals, six, spelled, fresh, kept, pushed, told}
use modbus_scanner.Tcp.{
  Scanner, pre_transact_state, unit_id_state, function_state, i16_1_hi_state, i16_2_lo_state,
  i16_3_hi_state, i16_4_lo_state, i8_1_state, data_state, finished, step_at,
}

whole_message :
    (order : Order) (s : Scanner)
    → IsBytes (spelled s)
    → takes_payload s.fc ≡ true
    → HasFour order (locals s) (finished order s)
    → length s.pdu.payload ≡ s.pdu.i8_1
    → spelled s ++ s.pdu.i8_1 ∷ s.pdu.payload ≡ print (request_of (finished order s))
whole_message order s small takes four n =
    ap (λ m. spelled s ++ m ∷ s.pdu.payload) (sym n)
    ∙ long_request order (locals s) (finished order s) (record { first = refl; second = refl })
        small takes four

behind_header : (h : Header) (a : ℕ) (xs : List ℕ) → IsBytes (header_bytes h a ++ xs) → IsBytes xs
behind_header h a xs b = b.1.1.1.1.1.1.1

module _ (order : Order) (history : List ℕ) (s : Scanner) (c : ℕ) (small : c < 256) where
  abbrev now : List ℕ
  now = history ++ c ∷ []

  pub unit_step :
      Follows order unit_id_state history s
      → Goes order s.address now (step_at order unit_id_state s c)
  unfolding step_at
  unit_step f = elim (Bool-cases (c == s.address)) [
    | inl e ↦ rw e (
        let (a, b, l, read) = f.partial in
        let h : Header = record {
          transact_id_1 = s.pdu.transact_id_1;
          transact_id_2 = s.pdu.transact_id_2;
          protocol_1 = a;
          protocol_2 = b;
          length_1 = s.length_1;
          length_2 = l;
        } in
        let here : c ≡ s.address = ground (arith, e) in
        (
          pushed order history s c small unit_id_state function_state _ f refl refl
              (h, (refl, refl), snoc c read ∙ ap (λ x. header_bytes h x) here),
          refl,
        ))
    | inr e ↦ rw e (λ rest. (
      fresh order pre_transact_state (now ++ rest) _
          (read_on now rest (now ++ rest) s.calls (kept order history s c small unit_id_state f)
            refl)
          refl,
      refl,
    ))
  ]

  pub function_step :
      Follows order function_state history s
      → Goes order s.address now (step_at order function_state s c)
  unfolding step_at
  function_step f = elim (Bool-cases (valid_fc c)) [
    | inl e ↦ rw e (
        let (h, id, read) = f.partial in
        (
          pushed order history s c small function_state i16_1_hi_state _ f refl refl
              (h, id, snoc c read),
          refl,
        ))
    | inr e ↦ rw e (λ rest. (
      fresh order pre_transact_state (now ++ rest) _
          (then_nonse (now ++ rest) s.calls (
            read_on now rest (now ++ rest) s.calls (kept order history s c small function_state f)
              refl))
          refl,
      refl,
    ))
  ]

  pub second_step :
      Follows order i16_2_lo_state history s
      → Goes order s.address now (step_at order i16_2_lo_state s c)
  unfolding step_at
  second_step f =
      let t = record s { i16_2_lo = c } in
      let (h, id, read) = f.partial in
      let read' : f.got ++ c ∷ [] ≡ header_bytes h s.address ++ six t = snoc c read in
      elim (Bool-cases (s.fc == 23)) [
        | inl e ↦ rw e (
          pushed order history s c small i16_2_lo_state i16_3_hi_state _ f refl refl
              ((h, id, read'), e),
          refl,
        )
        | inr e ↦ elim (Bool-cases (s.fc == 15 || s.fc == 16)) [
          | inl e' ↦
              rw (e, e')
                (
                  pushed order history s c small i16_2_lo_state i8_1_state _ f refl refl (
                    (h, id, rw e read'),
                    rw (e, e') refl,
                    record {
                      third = λ d. absurd (ground (arith, e, d));
                      fourth = λ d. absurd (ground (arith, e, d));
                    },
                  ),
                  refl,
                )
          | inr e' ↦
              rw (e, e')
                (told order history s c small i16_2_lo_state t h [] f refl refl id (
                  read'
                  ∙ ap (λ xs. header_bytes h s.address ++ xs)
                      (short_request order (locals t) (finished order t)
                          (record { first = refl; second = refl })
                          (behind_header h s.address (six t) (
                            subst IsBytes read'
                              (All-append (λ x. x < 256) f.got (c ∷ []) f.bytes (small, tt))))
                          (ground (arith, e, e'))
                        ∙ sym (append-nil _))))
        ]
      ]

  pub fourth_step :
      Follows order i16_4_lo_state history s
      → Goes order s.address now (step_at order i16_4_lo_state s c)
  unfolding step_at
  fourth_step f =
      let ((h, id, read), wide) = f.partial in
      (
        pushed order history s c small i16_4_lo_state i8_1_state _ f refl refl (
          (h, id, rw wide (snoc c read)),
          rw wide refl,
          record { third = λ d. refl; fourth = λ d. refl },
        ),
        refl,
      )

  pub count_step :
      Follows order i8_1_state history s → Goes order s.address now (step_at order i8_1_state s c)
  unfolding step_at
  count_step f =
      let ((h, id, read), takes, four) = f.partial in
      (
        pushed order history s c small i8_1_state data_state _ f refl refl (
          (h, id, snoc c read ∙ append_assoc (header_bytes h s.address) (spelled s) (c ∷ [])),
          takes,
          record { third = four.third; fourth = four.fourth },
          behind_header h s.address (spelled s) (subst IsBytes read f.bytes),
          refl,
          room c,
        ),
        refl,
      )
    where
      room : (n : ℕ) → (0 < n) ⊎ (◌≡◌ {A = ℕ} 0 0 × (n ≡ 0))
      room zero = inr (refl, refl)
      room (suc n) = inl (omega arith)

  -- A byte of a payload that wants more.
  data_more :
      (f : Follows order data_state history s)
      → s.ix < s.pdu.i8_1
      → Goes order s.address now (step_at order data_state s c)
  unfolding step_at
  data_more f room =
      let ((h, id, read), takes, four, front, count, rooms) = f.partial in
      let payload = s.pdu.payload ++ c ∷ [] in
      let t = record s { ix = s.ix + 1; pdu = record (s.pdu) { payload = payload } } in
      let four' : HasFour order (locals t) (finished order t) = record {
        third = four.third;
        fourth = four.fourth;
      } in
      let body : f.got ++ c ∷ [] ≡ header_bytes h s.address ++ (spelled s ++ s.pdu.i8_1 ∷ payload) =
        snoc c read
        ∙ ap (λ xs. header_bytes h s.address ++ xs)
            (append_assoc (spelled s) (s.pdu.i8_1 ∷ s.pdu.payload) (c ∷ [])) in
      let size : length payload ≡ s.ix + 1 =
        omega (arith, count, length-append s.pdu.payload (c ∷ [])) in
      let wanted : ltb s.ix s.pdu.i8_1 ≡ true = ground (arith, room) in
      elim (Bool-cases (ltb (s.ix + 1) s.pdu.i8_1)) [
        | inl e ↦
            rw (wanted, e)
              (
                pushed order history s c small data_state data_state _ f refl refl (
                  (h, id, body),
                  takes,
                  record { third = four.third; fourth = four.fourth },
                  front,
                  size,
                  inl (ground (arith, e)),
                ),
                refl,
              )
        | inr e ↦
            rw (wanted, e)
              (told order history s c small data_state t h [] f refl refl id (
                body
                ∙ ap (λ xs. header_bytes h s.address ++ xs)
                    (whole_message order t front takes four' (size ∙ ground (arith, e, room))
                      ∙ sym (append-nil _))))
      ]

  -- The byte behind the count 0 is skipped.
  data_none :
      (f : Follows order data_state history s)
      → s.ix ≡ 0
      → s.pdu.i8_1 ≡ 0
      → Goes order s.address now (step_at order data_state s c)
  unfolding step_at
  data_none f no_index empty =
      let ((h, id, read), takes, four, front, count, rooms) = f.partial in
      let none_wanted : ltb s.ix s.pdu.i8_1 ≡ false = ground (arith, no_index, empty) in
      rw none_wanted (
        told order history s c small data_state s h (c ∷ []) f refl refl id (
          snoc c (
            read
            ∙ ap (λ xs. header_bytes h s.address ++ xs)
                (whole_message order s front takes four (omega (arith, count, no_index, empty))))))

  pub data_step :
      Follows order data_state history s → Goes order s.address now (step_at order data_state s c)
  data_step f = elim f.partial.5 [
    | inl room ↦ data_more f room
    | inr (no_index, empty) ↦ data_none f no_index empty
  ]
