-- ===== src/RtuOld/HeardSteps.antt =====
-- slave_rtu_old.cpp, byte by byte: each state keeps what has been read and what has been told.
use mathlib.Core.Path.{subst}
use modbus_scanner.Base.{
  snoc, ℕ, zero, suc, ◌<◌, ◌≡◌, refl, sym, ap, ◌∙◌, ◌⊎◌, inl, inr, true, false, ◌||◌, List, [], ◌∷◌,
  ◌++◌, arith, ◌==◌, All-append, IsBytes, append-nil,
}
use modbus_scanner.RtuOld.{
  Scanner, m_init_state, m_fc_state, m_i16_1_hi_state, m_i16_2_lo_state, m_i16_3_hi_state,
  m_i16_4_lo_state, m_i8_1_state, m_data_state, m_cs_1_state, after_i16_2, finished, on_char_at,
}
use modbus_scanner.Scanner.{Order, valid_fc}
use modbus_scanner.Spelled.{Bool-cases, short_request}
use modbus_scanner.RtuOld.Heard.{Follows, heard_so_far, Goes, six, locals, kept, pushed, fresh}

-- The diagnostic states cannot be entered.
valid_fc-diagnostic : (c : ℕ) → valid_fc c ≡ true → (c == 8) ≡ false
unfolding valid_fc
valid_fc-diagnostic c h = ground arith

module _ (order : Order) (history : List ℕ) (s : Scanner) (c : ℕ) (small : c < 256) where
  pub init_step :
      s.current_state ≡ m_init_state
      → Follows order m_init_state history s
      → Goes order s.address (history ++ c ∷ []) (on_char_at order m_init_state s c)
  unfolding on_char_at
  init_step here f = elim (Bool-cases (c == s.address)) [
    | inl e ↦ rw e (
        let same : c ≡ s.address = ground (arith, e) in
        (
          record {
            before = history;
            between = [];
            behind = ap (λ xs. history ++ (xs ++ c ∷ [])) (sym f.partial.0);
            partial = (snoc c f.partial.0 ∙ ap (λ x. x ∷ []) same, f.partial.1);
            bytes = subst (λ xs. IsBytes (xs ++ c ∷ [])) (sym f.partial.0) (small, tt);
            heard = heard_so_far order m_init_state history s f;
          },
          refl,
        ))
    | inr e ↦ rw e (
      subst (λ st. Follows order st (history ++ c ∷ []) s) (sym here)
          (fresh order history s c small s (kept order history s c small m_init_state f) refl
            f.partial.0 f.partial.1),
      refl,
    )
  ]

  pub fc_step :
      Follows order m_fc_state history s
      → Goes order s.address (history ++ c ∷ []) (on_char_at order m_fc_state s c)
  unfolding on_char_at
  fc_step f = elim (Bool-cases (valid_fc c)) [
    | inl e ↦
        rw (e, valid_fc-diagnostic c e)
          (
            pushed order history s c small m_fc_state m_i16_1_hi_state _ f refl refl refl refl refl
                (snoc c f.partial.0, f.partial.1),
            refl,
          )
    | inr e ↦ rw e (
      fresh order history s c small _ (kept order history s c small m_fc_state f) refl refl
          f.partial.1,
      refl,
    )
  ]

  pub second_step :
      Follows order m_i16_2_lo_state history s
      → Goes order s.address (history ++ c ∷ []) (on_char_at order m_i16_2_lo_state s c)
  unfolding on_char_at after_i16_2
  second_step f =
      let t = record s { i16_2_lo = c } in
      let buf : s.crc_buffer ++ c ∷ [] ≡ six t = snoc c f.partial.0 in
      elim (Bool-cases (s.fc == 15 || s.fc == 16)) [
        | inl e ↦
            let n : (s.fc == 23) ≡ false = ground (arith, e) in
            rw e (
              pushed order history s c small m_i16_2_lo_state m_i8_1_state _ f refl refl refl refl
                  refl (rw n buf, f.partial.1, rw (n, e) refl),
              refl,
            )
        | inr e ↦ elim (Bool-cases (s.fc == 23)) [
          | inl e' ↦
              rw (e, e')
                (
                  pushed order history s c small m_i16_2_lo_state m_i16_3_hi_state _ f refl refl
                      refl refl refl (buf, f.partial.1, e'),
                  refl,
                )
          | inr e' ↦
              rw (e, e')
                (
                  pushed order history s c small m_i16_2_lo_state m_cs_1_state _ f refl
                      (append-nil _) refl refl refl
                      (
                        buf
                            ∙ ap (λ xs. s.address ∷ xs)
                                (short_request order (locals t) (finished order t)
                                  (record { first = refl; second = refl })
                                  (subst IsBytes buf (
                                    All-append (λ x. x < 256) s.crc_buffer (c ∷ []) f.bytes
                                      (small, tt))).1
                                  (ground (arith, e, e'))),
                        f.partial.1,
                        inl refl,
                      ),
                  refl,
                )
        ]
      ]

  pub count_step :
      Follows order m_i8_1_state history s
      → Goes order s.address (history ++ c ∷ []) (on_char_at order m_i8_1_state s c)
  unfolding on_char_at
  count_step f =
      let (buf, no_index, takes) = f.partial in
      (
        pushed order history s c small m_i8_1_state m_data_state _ f refl refl refl refl refl
            (snoc c buf, takes, subst IsBytes buf f.bytes, sym no_index, small, room c),
        refl,
      )
    where
      room : (n : ℕ) → (s.index < n) ⊎ ((s.index ≡ 0) × (n ≡ 0))
      room zero = inr (f.partial.1, refl)
      room (suc n) = inl (omega (arith, f.partial.1))

  pub fourth_step :
      Follows order m_i16_4_lo_state history s
      → Goes order s.address (history ++ c ∷ []) (on_char_at order m_i16_4_lo_state s c)
  unfolding on_char_at
  fourth_step f = (
    pushed order history s c small m_i16_4_lo_state m_i8_1_state _ f refl refl refl refl refl
        (rw f.partial.2 (snoc c f.partial.0), f.partial.1, rw f.partial.2 refl),
    refl,
  )
