-- ===== src/Rtu/HeardNumbers.antt =====
-- slave_rtu_scanner.cpp, step by step: the steps behind the second number, and at the byte count
-- and the payload.
use mathlib.Core.Path.{subst}
use modbus_scanner.Base.{
  ℕ, ◌+◌, ◌<◌, ◌≡◌, refl, ap, ◌∙◌, inl, inr, false, ◌||◌, List, [], ◌∷◌, ◌++◌, arith, ◌==◌, ltb,
  length, length-append, All-append, IsBytes, append_assoc,
}
use modbus_scanner.Rtu.Spelled.{six, ten, spelled, HasCount, short_frame, long_frame}
use modbus_scanner.Spelled.{Bool-cases}
use modbus_scanner.Rtu.{
  Scanner, Point, i16_2_lo_state, i16_3_hi_state, i16_4_lo_state, i8_1_state, data_state,
  crc_hi_state, step_at, after_i16_2,
}
use modbus_scanner.Scanner.{Order}
use modbus_scanner.Rtu.Heard.{Follows, Goes, pushed}

module _ (order : Order) (history : List ℕ) (s : Scanner) (c : ℕ) (small : c < 256) where
  pub after_i16_2_step :
      Follows order i16_2_lo_state history s
      → Goes order s.address (history ++ c ∷ []) (step_at order i16_2_lo_state s c)
  unfolding step_at after_i16_2
  after_i16_2_step f =
      let t = record s { i16_2_lo = c; crc_buf = s.crc_buf ++ c ∷ [] } in
      let buf : s.crc_buf ++ c ∷ [] ≡ six t = ap (λ xs. xs ++ c ∷ []) f.partial in
      let on =
        λ (q : Point) (u : Scanner). pushed order history s c small i16_2_lo_state q u f refl in
      elim (Bool-cases (s.fc == 23)) [
        | inl e ↦ rw e (
          pushed order history s c small i16_2_lo_state i16_3_hi_state _ f refl refl refl refl refl
              (buf, e),
          refl,
        )
        | inr e ↦ elim (Bool-cases (s.fc == 15 || s.fc == 16)) [
          | inl e' ↦
              rw (e, e')
                (
                  pushed order history s c small i16_2_lo_state i8_1_state _ f refl refl refl refl
                      refl
                      (
                        rw e buf,
                        record {
                          takes = rw (e, e') refl;
                          third = λ d. absurd (ground (arith, e, d));
                          fourth = λ d. absurd (ground (arith, e, d));
                        },
                      ),
                  refl,
                )
          | inr e' ↦
              rw (e, e')
                (
                  pushed order history s c small i16_2_lo_state crc_hi_state _ f refl refl refl refl
                      refl
                      (buf
                        ∙ short_frame order t
                            (subst IsBytes buf
                              (All-append (λ x. x < 256) s.crc_buf (c ∷ []) f.bytes (small, tt)))
                            e e'),
                  refl,
                )
        ]
      ]

  pub count_step :
      Follows order i8_1_state history s
      → Goes order s.address (history ++ c ∷ []) (step_at order i8_1_state s c)
  unfolding step_at
  count_step f =
      let t = record s { pdu = record (s.pdu) { i8_1 = c; payload = [] } } in
      let counts : HasCount order t = record {
        takes = f.partial.1.takes;
        third = f.partial.1.third;
        fourth = f.partial.1.fourth;
      } in
      let front : IsBytes (spelled t) = subst IsBytes f.partial.0 f.bytes in
      let buf : s.crc_buf ++ c ∷ [] ≡ spelled t ++ c ∷ [] = ap (λ xs. xs ++ c ∷ []) f.partial.0 in
      elim (Bool-cases (ltb 0 c)) [
        | inl e ↦ rw e (
          pushed order history s c small i8_1_state data_state _ f refl refl refl refl refl (
            buf,
            record {
              takes = f.partial.1.takes;
              third = f.partial.1.third;
              fourth = f.partial.1.fourth;
            },
            front,
            refl,
            ground (arith, e),
          ),
          refl,
        )
        | inr e ↦ rw e (
          pushed order history s c small i8_1_state crc_hi_state _ f refl refl refl refl refl
              (buf ∙ long_frame order t front counts (ground (arith, e))),
          refl,
        )
      ]

  pub data_step :
      Follows order data_state history s
      → Goes order s.address (history ++ c ∷ []) (step_at order data_state s c)
  unfolding step_at
  data_step f =
      let payload = s.pdu.payload ++ c ∷ [] in
      let t = record s { pdu = record (s.pdu) { payload = payload } } in
      let (read, had, front, count, room) = f.partial in
      let counts : HasCount order t = record {
        takes = had.takes;
        third = had.third;
        fourth = had.fourth;
      } in
      let buf : s.crc_buf ++ c ∷ [] ≡ spelled t ++ s.pdu.i8_1 ∷ payload =
        ap (λ xs. xs ++ c ∷ []) read
        ∙ append_assoc (spelled s) (s.pdu.i8_1 ∷ s.pdu.payload) (c ∷ []) in
      let size : length payload ≡ s.ix + 1 =
        omega (arith, count, length-append s.pdu.payload (c ∷ [])) in
      elim (Bool-cases (ltb (s.ix + 1) s.pdu.i8_1)) [
        | inl e ↦ rw e (
          pushed order history s c small data_state data_state _ f refl refl refl refl refl (
            buf,
            record { takes = had.takes; third = had.third; fourth = had.fourth },
            front,
            size,
            ground (arith, e),
          ),
          refl,
        )
        | inr e ↦ rw e (
          pushed order history s c small data_state crc_hi_state _ f refl refl refl refl refl
              (buf ∙ long_frame order t front counts (size ∙ last e room)),
          refl,
        )
      ]
    where
      last : ltb (s.ix + 1) s.pdu.i8_1 ≡ false → s.ix < s.pdu.i8_1 → s.ix + 1 ≡ s.pdu.i8_1
      last e room = ground (arith, e, room)

  pub fourth_step :
      Follows order i16_4_lo_state history s
      → Goes order s.address (history ++ c ∷ []) (step_at order i16_4_lo_state s c)
  unfolding step_at
  fourth_step f =
      let t = record s { i16_4_lo = c } in
      let buf : s.crc_buf ++ c ∷ [] ≡ ten t = ap (λ xs. xs ++ c ∷ []) f.partial.0 in
      (
        pushed order history s c small i16_4_lo_state i8_1_state _ f refl refl refl refl refl (
          rw f.partial.1 buf,
          record { takes = rw f.partial.1 refl; third = λ d. refl; fourth = λ d. refl },
        ),
        refl,
      )
