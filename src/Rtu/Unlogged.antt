-- ===== src/Rtu/Unlogged.antt =====
-- The log of a scanner's calls plays no part in what slave_rtu_scanner.cpp has read of a frame.
use modbus_scanner.InOrder.{nothing_told}
use modbus_scanner.Base.{ℕ, ◌≡◌, refl, ap, ◌∙◌, List, [], ◌++◌}
use modbus_scanner.Rtu.Heard.{Follows, Partial, under_way}
use modbus_scanner.Rtu.{
  Scanner, Point, pre_address_state, pdu_done, function_state, i16_1_hi_state, i16_1_lo_state,
  i16_2_hi_state, i16_2_lo_state, i16_3_hi_state, i16_3_lo_state, i16_4_hi_state, i16_4_lo_state,
  i8_1_state, data_state, crc_hi_state, crc_low_state,
}
use modbus_scanner.Scanner.{Order}

abbrev unlogged : Scanner → Scanner
unlogged s = record s { calls = [] }

under_way-unlogged : (p : Point) (s : Scanner) → under_way p s ≡ under_way p (unlogged s)
under_way-unlogged pre_address_state s = refl
under_way-unlogged pdu_done s = refl
under_way-unlogged function_state s = refl
under_way-unlogged i16_1_hi_state s = refl
under_way-unlogged i16_1_lo_state s = refl
under_way-unlogged i16_2_hi_state s = refl
under_way-unlogged i16_2_lo_state s = refl
under_way-unlogged i16_3_hi_state s = refl
under_way-unlogged i16_3_lo_state s = refl
under_way-unlogged i16_4_hi_state s = refl
under_way-unlogged i16_4_lo_state s = refl
under_way-unlogged i8_1_state s = refl
under_way-unlogged data_state s = refl
under_way-unlogged crc_hi_state s = refl
under_way-unlogged crc_low_state s = refl

module _ (order : Order) where
  Partial-unlogged : (p : Point) (s : Scanner) → Partial order p s → Partial order p (unlogged s)
  Partial-unlogged pre_address_state s h = h
  Partial-unlogged pdu_done s h = h
  Partial-unlogged function_state s h = h
  Partial-unlogged i16_1_hi_state s h = h
  Partial-unlogged i16_1_lo_state s h = h
  Partial-unlogged i16_2_hi_state s h = h
  Partial-unlogged i16_2_lo_state s h = h
  Partial-unlogged i16_3_hi_state s h = h
  Partial-unlogged i16_3_lo_state s h = h
  Partial-unlogged i16_4_hi_state s h = h
  Partial-unlogged i16_4_lo_state s h = h
  Partial-unlogged i8_1_state s h =
      (h.0, record { takes = h.1.takes; third = h.1.third; fourth = h.1.fourth })
  Partial-unlogged data_state s h =
      (h.0, record { takes = h.1.takes; third = h.1.third; fourth = h.1.fourth }, h.2, h.3, h.4)
  Partial-unlogged crc_hi_state s h = h
  Partial-unlogged crc_low_state s h = h

  -- With its log emptied, a scanner goes on as before.
  pub Follows-unlogged :
      (history : List ℕ) (s : Scanner)
      → Follows order s.point history s
      → Follows order s.point history (unlogged s)
  Follows-unlogged history s f = record {
    before = f.before;
    behind = f.behind ∙ ap (λ xs. f.before ++ xs) (under_way-unlogged s.point s);
    partial = Partial-unlogged s.point s f.partial;
    bytes = f.bytes;
    heard = nothing_told f.before;
  }
