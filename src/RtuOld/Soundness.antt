-- ===== src/RtuOld/Soundness.antt =====
-- What slave_rtu_old.cpp tells its user of any stream of bytes.
use mathlib.Core.Path.{subst}
use modbus_scanner.Base.{
  ℕ, ◌%◌, ◌<◌, ◌≡◌, refl, sym, ap, ◌∙◌, List, [], ◌∷◌, ◌++◌, All, All-append, IsBytes, append_assoc,
  append-nil, some,
}
use modbus_scanner.Coroutine.Chunks.{IsChunk, stream}
use modbus_scanner.Defs.{Buffer, Pdu, contents}
use modbus_scanner.RtuOld
use modbus_scanner.RtuOld.Decode.{on_chars}
use modbus_scanner.RtuOld.Heard.{IsFrame, heard_so_far, Partial, Follows, Goes, pushed}
use modbus_scanner.RtuOld.HeardSteps.{init_step, fc_step, second_step, fourth_step, count_step}
use modbus_scanner.RtuOld.HeardData.{data_step, crc1_step, crc2_step}
use modbus_scanner.RtuOld.Stream.{scan_each, scan_each-on_chars}
use modbus_scanner.RtuOld.{
  Scanner, ScanState, m_init_state, m_fc_state, m_i16_1_hi_state, m_i16_1_lo_state,
  m_i16_2_hi_state, m_i16_2_lo_state, m_i16_3_hi_state, m_i16_3_lo_state, m_i16_4_hi_state,
  m_i16_4_lo_state, m_i8_1_state, m_data_state, m_sub_diag_1_state, m_sub_diag_2_state,
  m_diag_data_1_state, m_diag_data_2_state, m_cs_1_state, m_cs_2_state, on_char, on_char_at,
}
use modbus_scanner.InOrder.{InOrder, nothing_told}
use modbus_scanner.Scanner.{Order}

-- The states for the diagnostic functions.
abbrev pub IsDiagnostic : ScanState → Type 0
IsDiagnostic m_sub_diag_1_state = Unit
IsDiagnostic m_sub_diag_2_state = Unit
IsDiagnostic m_diag_data_1_state = Unit
IsDiagnostic m_diag_data_2_state = Unit
IsDiagnostic _ = ⊥

module _ (order : Order) where
  on_char_at-Goes :
      (st : ScanState) (history : List ℕ) (s : Scanner) (c : ℕ)
      → c < 256
      → s.current_state ≡ st
      → Follows order st history s
      → Goes order s.address (history ++ c ∷ []) (on_char_at order st s c)
  unfolding on_char_at
  on_char_at-Goes m_init_state history s c h here f = init_step order history s c h here f
  on_char_at-Goes m_fc_state history s c h here f = fc_step order history s c h f
  on_char_at-Goes m_i16_1_hi_state history s c h here f = (
    pushed order history s c h m_i16_1_hi_state m_i16_1_lo_state _ f refl refl refl refl refl
        (ap (λ xs. xs ++ c ∷ []) f.partial.0, f.partial.1),
    refl,
  )
  on_char_at-Goes m_i16_1_lo_state history s c h here f = (
    pushed order history s c h m_i16_1_lo_state m_i16_2_hi_state _ f refl refl refl refl refl
        (ap (λ xs. xs ++ c ∷ []) f.partial.0, f.partial.1),
    refl,
  )
  on_char_at-Goes m_i16_2_hi_state history s c h here f = (
    pushed order history s c h m_i16_2_hi_state m_i16_2_lo_state _ f refl refl refl refl refl
        (ap (λ xs. xs ++ c ∷ []) f.partial.0, f.partial.1),
    refl,
  )
  on_char_at-Goes m_i16_3_hi_state history s c h here f = (
    pushed order history s c h m_i16_3_hi_state m_i16_3_lo_state _ f refl refl refl refl refl
        (ap (λ xs. xs ++ c ∷ []) f.partial.0, f.partial.1, f.partial.2),
    refl,
  )
  on_char_at-Goes m_i16_3_lo_state history s c h here f = (
    pushed order history s c h m_i16_3_lo_state m_i16_4_hi_state _ f refl refl refl refl refl
        (ap (λ xs. xs ++ c ∷ []) f.partial.0, f.partial.1, f.partial.2),
    refl,
  )
  on_char_at-Goes m_i16_4_hi_state history s c h here f = (
    pushed order history s c h m_i16_4_hi_state m_i16_4_lo_state _ f refl refl refl refl refl
        (ap (λ xs. xs ++ c ∷ []) f.partial.0, f.partial.1, f.partial.2),
    refl,
  )
  on_char_at-Goes m_i16_2_lo_state history s c h here f = second_step order history s c h f
  on_char_at-Goes m_i16_4_lo_state history s c h here f = fourth_step order history s c h f
  on_char_at-Goes m_i8_1_state history s c h here f = count_step order history s c h f
  on_char_at-Goes m_data_state history s c h here f = data_step order history s c h here f
  on_char_at-Goes m_sub_diag_1_state history s c h here f = absurd f.partial
  on_char_at-Goes m_sub_diag_2_state history s c h here f = absurd f.partial
  on_char_at-Goes m_diag_data_1_state history s c h here f = absurd f.partial
  on_char_at-Goes m_diag_data_2_state history s c h here f = absurd f.partial
  on_char_at-Goes m_cs_1_state history s c h here f = crc1_step order history s c h f
  on_char_at-Goes m_cs_2_state history s c h here f = crc2_step order history s c h f

  on_chars-Follows :
      (xs history : List ℕ) (s : Scanner)
      → IsBytes xs
      → Follows order s.current_state history s
      → Goes order s.address (history ++ xs) (on_chars order xs s)
  unfolding on_chars
  on_chars-Follows [] history s h f =
      (subst (λ hs. Follows order s.current_state hs s) (sym (append-nil history)) f, refl)
  on_chars-Follows (c ∷ xs) history s h f =
      let (g, same) = on_char_at-Goes s.current_state history s c h.0 refl f in
      let t = on_char order s c in
      let (later, same') = on_chars-Follows xs (history ++ c ∷ []) t h.1 g in
      let u = on_chars order xs t in
      (
        subst (λ hs. Follows order u.current_state hs u) (append_assoc history (c ∷ []) xs) later,
        same' ∙ same,
      )

  Follows-not-IsDiagnostic :
      (st : ScanState) (history : List ℕ) (s : Scanner)
      → Follows order st history s
      → ¬ IsDiagnostic st
  Follows-not-IsDiagnostic st history s f d = by_case st f.partial d
    where
      by_case : (st : ScanState) → Partial order st s f.between → ¬ IsDiagnostic st
      by_case m_sub_diag_1_state p d = p
      by_case m_sub_diag_2_state p d = p
      by_case m_diag_data_1_state p d = p
      by_case m_diag_data_2_state p d = p
      by_case m_init_state p d = d
      by_case m_fc_state p d = d
      by_case m_i16_1_hi_state p d = d
      by_case m_i16_1_lo_state p d = d
      by_case m_i16_2_hi_state p d = d
      by_case m_i16_2_lo_state p d = d
      by_case m_i16_3_hi_state p d = d
      by_case m_i16_3_lo_state p d = d
      by_case m_i16_4_hi_state p d = d
      by_case m_i16_4_lo_state p d = d
      by_case m_i8_1_state p d = d
      by_case m_data_state p d = d
      by_case m_cs_1_state p d = d
      by_case m_cs_2_state p d = d

stream-IsBytes : (bs : List Buffer) → All (λ b. IsBytes (contents b)) bs → IsBytes (stream bs)
stream-IsBytes [] h = tt
stream-IsBytes (b ∷ bs) h =
    All-append (λ x. x < 256) (contents b) (stream bs) h.0 (stream-IsBytes bs h.1)

-- A new table-driven scanner and any bytes at all, in chunks none of which is empty: `scan` reads
-- nothing outside the chunks' arrays; the requests that `m_pdu_cb` is called with stand in the stream, each told
-- once, in their order, one behind the other, with the device's address in front and their right
-- checksum behind, directly or, where a request with a payload has an empty one, one byte later;
-- and the scanner is in none of the diagnostic states.
pub told_have_checksums :
    (order : Order) (address : ℕ) (pdu : Pdu) (chunks : List Buffer)
    → All IsChunk chunks
    → All (λ b. IsBytes (contents b)) chunks
    → (t : Scanner) × (scan_each order chunks (RtuOld.new address pdu) ≡ some t)
      × InOrder (IsFrame (address % 256)) (stream chunks) t.calls
      × (¬ IsDiagnostic t.current_state)
unfolding RtuOld.new
told_have_checksums order address pdu chunks c h =
    let s = RtuOld.new address pdu in
    let start : Follows order m_init_state [] s = record {
      before = [];
      between = [];
      behind = refl;
      partial = (refl, refl);
      bytes = tt;
      heard = nothing_told [];
    } in
    let t = on_chars order (stream chunks) s in
    let (f, same) = on_chars-Follows order (stream chunks) [] s (stream-IsBytes chunks h) start in
    (
      t,
      scan_each-on_chars order chunks s c,
      subst (λ a. InOrder (IsFrame a) (stream chunks) t.calls) same
          (heard_so_far order t.current_state (stream chunks) t f),
      Follows-not-IsDiagnostic order t.current_state (stream chunks) t f,
    )
