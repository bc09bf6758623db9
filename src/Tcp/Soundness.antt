-- ===== src/Tcp/Soundness.antt =====
-- slave_tcp_scanner.cpp tells its user nothing but the messages that are in the stream.
use modbus_scanner.Base.{snoc, ℕ, ◌<◌, ◌%◌, ◌≡◌, refl, List, [], ◌∷◌, ◌++◌, All, IsBytes, some}
use mathlib.Core.Path.{subst}
use modbus_scanner.Coroutine.Chunks.{IsChunk, stream}
use modbus_scanner.Coroutine.Following.{scan_all-Kept}
use modbus_scanner.Coroutine.{scan_all}
use modbus_scanner.Defs.{Buffer, Pdu, contents}
use modbus_scanner.InOrder.{InOrder, nothing_told, read_on}
use modbus_scanner.Scanner.{Order}
use modbus_scanner.Tcp
use modbus_scanner.Tcp.Heard.{IsMessage, Follows, Kept, Goes, fresh, pushed}
use modbus_scanner.Tcp.HeardSteps.{
  unit_step, function_step, second_step, fourth_step, count_step, data_step,
}
use modbus_scanner.Tcp.Stream.{Inv, machine-IsMachine}
use modbus_scanner.Tcp.{
  Scanner, Point, pre_transact_state, transact_id_state, transact_id_2_state, protocol_id_state,
  protocol_id_2_state, length_state, length_2_state, unit_id_state, function_state, i16_1_hi_state,
  i16_1_lo_state, i16_2_hi_state, i16_2_lo_state, i16_3_hi_state, i16_3_lo_state, i16_4_hi_state,
  i16_4_lo_state, i8_1_state, data_state, step_at, machine,
}

module _ (order : Order) where
  module _ (history : List ℕ) (s : Scanner) (c : ℕ) (small : c < 256) where
    -- Every step keeps what has been read and what has been told in step.
    step_at-Goes :
        (p : Point)
        → Follows order p history s
        → Goes order s.address (history ++ c ∷ []) (step_at order p s c)
    unfolding step_at
    step_at-Goes pre_transact_state f = (
      pushed order history s c small pre_transact_state transact_id_2_state _ f refl refl
          (snoc c f.partial),
      refl,
    )
    step_at-Goes transact_id_state f = (
      pushed order history s c small transact_id_state transact_id_2_state _ f refl refl
          (snoc c f.partial),
      refl,
    )
    step_at-Goes transact_id_2_state f = (
      pushed order history s c small transact_id_2_state protocol_id_state _ f refl refl
          (snoc c f.partial),
      refl,
    )
    step_at-Goes protocol_id_state f = (
      pushed order history s c small protocol_id_state protocol_id_2_state _ f refl refl
          (c, snoc c f.partial),
      refl,
    )
    step_at-Goes protocol_id_2_state f =
        let (a, e) = f.partial in
        (
          pushed order history s c small protocol_id_2_state length_state _ f refl refl
              (a, c, snoc c e),
          refl,
        )
    step_at-Goes length_state f =
        let (a, b, e) = f.partial in
        (
          pushed order history s c small length_state length_2_state _ f refl refl (a, b, snoc c e),
          refl,
        )
    step_at-Goes length_2_state f =
        let (a, b, e) = f.partial in
        (
          pushed order history s c small length_2_state unit_id_state _ f refl refl
              (a, b, c, snoc c e),
          refl,
        )
    step_at-Goes unit_id_state f = unit_step order history s c small f
    step_at-Goes function_state f = function_step order history s c small f
    step_at-Goes i16_1_hi_state f =
        let (h, id, e) = f.partial in
        (
          pushed order history s c small i16_1_hi_state i16_1_lo_state _ f refl refl
              (h, id, snoc c e),
          refl,
        )
    step_at-Goes i16_1_lo_state f =
        let (h, id, e) = f.partial in
        (
          pushed order history s c small i16_1_lo_state i16_2_hi_state _ f refl refl
              (h, id, snoc c e),
          refl,
        )
    step_at-Goes i16_2_hi_state f =
        let (h, id, e) = f.partial in
        (
          pushed order history s c small i16_2_hi_state i16_2_lo_state _ f refl refl
              (h, id, snoc c e),
          refl,
        )
    step_at-Goes i16_2_lo_state f = second_step order history s c small f
    step_at-Goes i16_3_hi_state f =
        let ((h, id, e), wide) = f.partial in
        (
          pushed order history s c small i16_3_hi_state i16_3_lo_state _ f refl refl
              ((h, id, snoc c e), wide),
          refl,
        )
    step_at-Goes i16_3_lo_state f =
        let ((h, id, e), wide) = f.partial in
        (
          pushed order history s c small i16_3_lo_state i16_4_hi_state _ f refl refl
              ((h, id, snoc c e), wide),
          refl,
        )
    step_at-Goes i16_4_hi_state f =
        let ((h, id, e), wide) = f.partial in
        (
          pushed order history s c small i16_4_hi_state i16_4_lo_state _ f refl refl
              ((h, id, snoc c e), wide),
          refl,
        )
    step_at-Goes i16_4_lo_state f = fourth_step order history s c small f
    step_at-Goes i8_1_state f = count_step order history s c small f
    step_at-Goes data_state f = data_step order history s c small f

  step-Kept :
      (address : ℕ) (history : List ℕ) (s : Scanner) (c : ℕ)
      → c < 256
      → Kept order address history s
      → Goes order address (history ++ c ∷ []) (step_at order s.point s c)
  step-Kept address history s c h k =
      subst (λ a. Goes order a (history ++ c ∷ []) (step_at order s.point s c)) k.1
        (step_at-Goes history s c h s.point k.0)

-- A new TCP scanner and any bytes at all, in chunks none of which is empty: the calls of `scan`
-- read nothing outside the chunks' arrays, and the requests that `m_pdu_cb` is called with stand in the
-- stream as whole messages, each told once, in their order, one behind the other: a header with
-- the unit's address and the transaction id that `m_pdu` has, and the request.
pub only_messages_are_told :
    (order : Order) (address : ℕ) (pdu : Pdu) (chunks : List Buffer)
    → All IsChunk chunks
    → All (λ b. IsBytes (contents b)) chunks
    → (t : Scanner) × (scan_all (machine order) chunks (Tcp.new address pdu) ≡ some t)
      × InOrder (IsMessage (address % 256)) (stream chunks) t.calls
unfolding Tcp.new
only_messages_are_told order address pdu chunks c h =
    let s = Tcp.new address pdu in
    let start : Follows order pre_transact_state [] s =
      fresh order pre_transact_state [] s (nothing_told []) refl in
    let (t, done, told) =
      scan_all-Kept (machine order) (Kept order s.address) (step-Kept order s.address) Inv
        (machine-IsMachine order) chunks [] s c h tt (start, refl) in
    (
      t,
      done,
      subst (λ a. InOrder (IsMessage a) (stream chunks) t.calls) told.1
          (read_on told.0.before told.0.got (stream chunks) t.calls told.0.heard told.0.behind),
    )
