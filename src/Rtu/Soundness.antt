-- ===== src/Rtu/Soundness.antt =====
-- slave_rtu_scanner.cpp tells its user nothing but the frames that are in the stream.
use mathlib.Core.Path.{subst}
use modbus_scanner.Base.{
  ℕ, ◌<◌, ◌%◌, ◌≡◌, refl, sym, ap, ◌∙◌, List, [], ◌∷◌, ◌++◌, All, IsBytes, append_assoc, append-nil,
  some,
}
use modbus_scanner.Coroutine.Chunks.{IsChunk, run, state, stream}
use modbus_scanner.Coroutine.Following
use modbus_scanner.Coroutine.Following.{run-Kept, scan_all-Kept}
use modbus_scanner.Coroutine.{Next, more, skip, drop, scan_all}
use modbus_scanner.Defs.{Buffer, Pdu, contents}
use modbus_scanner.Rtu.Decode.{Inv}
use modbus_scanner.Rtu.Stream.{machine-IsMachine}
use modbus_scanner.Rtu
use modbus_scanner.Rtu.{
  Scanner, Point, pre_address_state, pdu_done, function_state, i16_1_hi_state, i16_1_lo_state,
  i16_2_hi_state, i16_2_lo_state, i16_3_hi_state, i16_3_lo_state, i16_4_hi_state, i16_4_lo_state,
  i8_1_state, data_state, crc_hi_state, crc_low_state, step_at, machine, finished, after_i16_2,
  data_loop,
}
use modbus_scanner.InOrder.{InOrder, nothing_told, read_on}
use modbus_scanner.Scanner.{Order}
use modbus_scanner.Rtu.Heard.{
  IsFrame, Follows, Goes, heard_so_far, address_step, function_step, crc_step, pushed,
}
use modbus_scanner.Rtu.HeardNumbers.{after_i16_2_step, count_step, data_step, fourth_step}

module _ (order : Order) where
  -- Every step keeps what has been read and what has been told in step.
  step_at-Goes :
      (p : Point) (history : List ℕ) (s : Scanner) (c : ℕ)
      → c < 256
      → Follows order p history s
      → Goes order s.address (history ++ c ∷ []) (step_at order p s c)
  unfolding step_at
  step_at-Goes pre_address_state history s c h f =
      address_step order history s c h f.partial (heard_so_far order pre_address_state history s f)
  step_at-Goes pdu_done history s c h f =
      address_step order history (record s { crc_buf = [] }) c h refl
        (heard_so_far order pdu_done history s f)
  step_at-Goes function_state history s c h f = function_step order history s c h f
  step_at-Goes i16_1_hi_state history s c h f = (
    pushed order history s c h i16_1_hi_state i16_1_lo_state _ f refl refl refl refl refl
        (ap (λ xs. xs ++ c ∷ []) f.partial),
    refl,
  )
  step_at-Goes i16_1_lo_state history s c h f = (
    pushed order history s c h i16_1_lo_state i16_2_hi_state _ f refl refl refl refl refl
        (ap (λ xs. xs ++ c ∷ []) f.partial),
    refl,
  )
  step_at-Goes i16_2_hi_state history s c h f = (
    pushed order history s c h i16_2_hi_state i16_2_lo_state _ f refl refl refl refl refl
        (ap (λ xs. xs ++ c ∷ []) f.partial),
    refl,
  )
  step_at-Goes i16_2_lo_state history s c h f = after_i16_2_step order history s c h f
  step_at-Goes i16_3_hi_state history s c h f = (
    pushed order history s c h i16_3_hi_state i16_3_lo_state _ f refl refl refl refl refl
        (ap (λ xs. xs ++ c ∷ []) f.partial.0, f.partial.1),
    refl,
  )
  step_at-Goes i16_3_lo_state history s c h f = (
    pushed order history s c h i16_3_lo_state i16_4_hi_state _ f refl refl refl refl refl
        (ap (λ xs. xs ++ c ∷ []) f.partial.0, f.partial.1),
    refl,
  )
  step_at-Goes i16_4_hi_state history s c h f = (
    pushed order history s c h i16_4_hi_state i16_4_lo_state _ f refl refl refl refl refl
        (ap (λ xs. xs ++ c ∷ []) f.partial.0, f.partial.1),
    refl,
  )
  step_at-Goes i16_4_lo_state history s c h f = fourth_step order history s c h f
  step_at-Goes i8_1_state history s c h f = count_step order history s c h f
  step_at-Goes data_state history s c h f = data_step order history s c h f
  step_at-Goes crc_hi_state history s c h f = (
    record {
      before = f.before;
      behind = ap (λ xs. xs ++ c ∷ []) f.behind ∙ append_assoc f.before s.crc_buf (c ∷ []);
      partial = f.partial;
      bytes = f.bytes;
      heard = f.heard;
    },
    refl,
  )
  step_at-Goes crc_low_state history s c h f = crc_step order history s c h f

  -- Between two frames, or where the rest of a chunk is dropped, more may be read over.
  Follows-dropped :
      (history rest : List ℕ) (s : Scanner)
      → s.point ≡ pre_address_state
      → Follows order s.point history s
      → Follows order s.point (history ++ rest) s
  Follows-dropped history rest s at_start f =
      let g : Follows order pre_address_state history s =
        subst (λ p. Follows order p history s) at_start f in
      subst (λ p. Follows order p (history ++ rest) s) (sym at_start)
        (record {
          before = history ++ rest;
          behind = sym (append-nil (history ++ rest));
          partial = g.partial;
          bytes = g.bytes;
          heard =
              read_on history rest (history ++ rest) s.calls
                (heard_so_far order pre_address_state history s g) refl;
        })

  module _ (address : ℕ) where
    -- The scanner has the address, and has kept what it has read and told in step.
    abbrev Kept : List ℕ → Scanner → Type 0
    Kept history s = Follows order s.point history s × (s.address ≡ address)

    step-Kept :
        (history : List ℕ) (s : Scanner) (c : ℕ)
        → c < 256
        → Kept history s
        → Following.Goes Kept (history ++ c ∷ []) (step_at order s.point s c)
    step-Kept history s c h k =
        after (step_at order s.point s c) (step_at-Goes s.point history s c h k.0)
      where
        now : List ℕ
        now = history ++ c ∷ []

        after : (n : Next Scanner) → Goes order s.address now n → Following.Goes Kept now n
        after (more t) g = (g.0, g.1 ∙ k.1)
        after (skip t) g = (g.0, g.1 ∙ k.1)
        after (drop t) g = λ rest. (Follows-dropped now rest t g.2 g.0, g.1 ∙ k.1)

  pub run-Follows :
      (xs history : List ℕ) (s : Scanner)
      → IsBytes xs
      → Follows order s.point history s
      → let t = state (run (machine order) xs s) in
        Follows order t.point (history ++ xs) t × (t.address ≡ s.address)
  run-Follows xs history s h f =
      run-Kept (machine order) (Kept s.address) (step-Kept s.address) xs history s h (f, refl)

-- A new scanner and any bytes at all, in chunks none of which is empty: the calls of `scan` read
-- nothing outside the chunks' arrays, and the requests that `m_pdu_cb` is called with stand in the stream
-- as whole frames, each told once, in their order, one behind the other: the device's address, the
-- request and their right checksum.
pub only_frames_are_told :
    (order : Order) (address : ℕ) (pdu : Pdu) (chunks : List Buffer)
    → All IsChunk chunks
    → All (λ b. IsBytes (contents b)) chunks
    → (t : Scanner) × (scan_all (machine order) chunks (Rtu.new address pdu) ≡ some t)
      × InOrder (IsFrame (address % 256)) (stream chunks) t.calls
unfolding Rtu.new
only_frames_are_told order address pdu chunks c h =
    let start : Follows order pre_address_state [] (Rtu.new address pdu) = record {
      before = [];
      behind = refl;
      partial = refl;
      bytes = tt;
      heard = nothing_told [];
    } in
    let s = Rtu.new address pdu in
    let (t, done, told) =
      scan_all-Kept (machine order) (Kept order s.address) (step-Kept order s.address) Inv
        (machine-IsMachine order) chunks [] s c h (λ e. refl) (start, refl) in
    (
      t,
      done,
      subst (λ a. InOrder (IsFrame a) (stream chunks) t.calls) told.1
          (heard_so_far order t.point (stream chunks) t told.0),
    )
