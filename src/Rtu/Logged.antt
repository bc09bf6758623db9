-- ===== src/Rtu/Logged.antt =====
-- The calls that slave_rtu_scanner.cpp has made play no part in what it does next.
use modbus_scanner.Base.{ℕ, ◌≡◌, refl, ap, ◌∙◌, List, [], ◌∷◌, ◌++◌, append_assoc, arith}
use modbus_scanner.Coroutine.Chunks.{Next-cases, is_more, is_skip, is_drop, run, state}
use modbus_scanner.Coroutine.{Next, more, skip, drop}
use modbus_scanner.Defs.{Event, on_pdu, on_nonse}
use modbus_scanner.Rtu.{
  Scanner, Point, pre_address_state, pdu_done, function_state, i16_1_hi_state, i16_1_lo_state,
  i16_2_hi_state, i16_2_lo_state, i16_3_hi_state, i16_3_lo_state, i16_4_hi_state, i16_4_lo_state,
  i8_1_state, data_state, crc_hi_state, crc_low_state, step_at, machine, finished,
}
use modbus_scanner.Scanner.{Order}

-- The scanner with earlier calls in front of its log.
abbrev pub logged : List Event → Scanner → Scanner
logged earlier s = record s { calls = earlier ++ s.calls }

abbrev logged_next : List Event → Next Scanner → Next Scanner
logged_next earlier (more t) = more (logged earlier t)
logged_next earlier (skip t) = skip (logged earlier t)
logged_next earlier (drop t) = drop (logged earlier t)

module _ (order : Order) (earlier : List Event) where
  step_at-logged :
      (p : Point) (s : Scanner) (c : ℕ)
      → step_at order p (logged earlier s) c ≡ logged_next earlier (step_at order p s c)
  unfolding step_at
  step_at-logged pre_address_state s c = ground arith
  step_at-logged pdu_done s c = ground arith
  step_at-logged function_state s c = ground (arith, append_assoc earlier s.calls (on_nonse ∷ []))
  step_at-logged crc_low_state s c = ground (
    arith,
    append_assoc earlier s.calls (on_nonse ∷ []),
    append_assoc earlier s.calls (on_pdu (finished order s) ∷ []),
  )
  step_at-logged i16_1_hi_state s c = refl
  step_at-logged i16_1_lo_state s c = refl
  step_at-logged i16_2_hi_state s c = refl
  step_at-logged i16_2_lo_state s c = refl
  step_at-logged i16_3_hi_state s c = refl
  step_at-logged i16_3_lo_state s c = refl
  step_at-logged i16_4_hi_state s c = refl
  step_at-logged i16_4_lo_state s c = refl
  step_at-logged i8_1_state s c = refl
  step_at-logged data_state s c = refl
  step_at-logged crc_hi_state s c = refl

  pub run-logged :
      (xs : List ℕ) (s : Scanner)
      → state (run (machine order) xs (logged earlier s))
        ≡ logged earlier (state (run (machine order) xs s))
  unfolding run
  run-logged [] s = refl
  run-logged (c ∷ xs) s = elim (Next-cases (step_at order s.point s c)) [
    | is_more t e ↦
        rw (step_at-logged s.point s c ∙ ap (logged_next earlier) e, e, run) (run-logged xs t)
    | is_skip t e ↦
        rw (step_at-logged s.point s c ∙ ap (logged_next earlier) e, e, run) (run-logged xs t)
    | is_drop t e ↦ rw (step_at-logged s.point s c ∙ ap (logged_next earlier) e, e, run)
  ]
