-- ===== src/RtuServer/Silence.antt =====
-- rtu_server_data_handler.cpp does nothing for bytes that have no frame for it.
use mathlib.Core.Path.{subst}
use modbus_scanner.Base.{
  ℕ, ◌+◌, ◌%◌, ◌≡◌, refl, sym, ap, ◌∙◌, false, List, [], ◌∷◌, ◌++◌, Option, none, some, All,
  IsBytes, append_assoc,
}
use modbus_scanner.Coroutine.Chunks.{IsChunk, run, state, scan-run, run-Inv, stream}
use modbus_scanner.Defs.{Buffer, Pdu, Event, on_pdu, on_nonse, contents, set_actual_size}
use modbus_scanner.Request.{Request, request_of}
use modbus_scanner.Rtu
use modbus_scanner.Rtu.Decode.{Inv}
use modbus_scanner.Rtu.Frame.{frame}
use modbus_scanner.InOrder.{InOrder, nothing_told, then_pdu, then_nonse}
use modbus_scanner.Rtu.Heard.{IsFrame, Follows, heard_so_far}
use modbus_scanner.Rtu.Unlogged.{Follows-unlogged}
use modbus_scanner.Rtu.Soundness.{run-Follows}
use modbus_scanner.Rtu.Stream.{machine-IsMachine}
use modbus_scanner.RtuServer.Monad.{Server}
use modbus_scanner.RtuServer.EachMethod.{pdu_count}
use modbus_scanner.RtuServer.Reading.{fresh, scanned_to, handle_read_lem, handle_calls-quiet}
use modbus_scanner.RtuServer.Replies.{handle_read}
use modbus_scanner.Scanner.{Order}

-- No frame for the device stands in the bytes.
abbrev pub IsSilent : ℕ → List ℕ → Type 0
IsSilent address bytes =
    (r : Request) (before after : List ℕ) → ¬ (bytes ≡ before ++ (frame address r ++ after))

-- One chunk after the other, each as its array and its length.
abbrev pub handle_reads : Order → List Buffer → Server → Option Server
handle_reads order [] s = some s
handle_reads order (b ∷ bs) s =
    elim (handle_read order false b.actual_size
      (record s { input_buffer = record (s.input_buffer) { bytes = b.bytes } })) [
        | none ↦ none
        | some (done, t) ↦ handle_reads order bs t
      ]

pdu_count-nonse : (calls : List Event) → pdu_count (calls ++ on_nonse ∷ []) ≡ pdu_count calls
pdu_count-nonse [] = refl
pdu_count-nonse (on_pdu p ∷ calls) = ap (λ n. 1 + n) (pdu_count-nonse calls)
pdu_count-nonse (on_nonse ∷ calls) = pdu_count-nonse calls

silent_calls :
    (address : ℕ) (bytes : List ℕ) (calls : List Event)
    → IsSilent address bytes
    → InOrder (IsFrame address) bytes calls
    → pdu_count calls ≡ 0
silent_calls address bytes calls silent (nothing_told _) = refl
silent_calls address bytes calls silent (then_pdu before xs after cs p _ earlier e whole) =
    absurd (silent (request_of p) before after (whole ∙ ap (λ ys. before ++ (ys ++ after)) e))
silent_calls address bytes calls silent (then_nonse _ cs earlier) =
    pdu_count-nonse cs ∙ silent_calls address bytes cs silent earlier

-- What is silent as a whole is silent up to any place.
IsSilent-start :
    (address : ℕ) (bytes rest : List ℕ) → IsSilent address (bytes ++ rest) → IsSilent address bytes
IsSilent-start address bytes rest silent r before after e = silent r before (after ++ rest) (
    ap (λ xs. xs ++ rest) e
    ∙ append_assoc before (frame address r ++ after) rest
    ∙ ap (λ xs. before ++ xs) (append_assoc (frame address r) after rest))

module _ (order : Order) where
  -- One silent chunk.
  silent_read :
      (b : Buffer) (history rest : List ℕ) (s : Server)
      → IsChunk b
      → IsBytes (contents b)
      → Inv s.modbus_scanner
      → Follows order s.modbus_scanner.point history (fresh s)
      → IsSilent s.modbus_scanner.address (history ++ (contents b ++ rest))
      → (t : Server) × (handle_read order false b.actual_size
            (record s { input_buffer = record (s.input_buffer) { bytes = b.bytes } })
          ≡ some (tt, t))
        × Follows order t.modbus_scanner.point (history ++ contents b) (fresh t)
        × Inv t.modbus_scanner
        × (t.modbus_scanner.address ≡ s.modbus_scanner.address)
        × (t.coils ≡ s.coils)
        × (t.regs ≡ s.regs)
        × (t.ops ≡ s.ops)
  unfolding Rtu.scan set_actual_size
  silent_read b history rest s c small i f silent =
      let m = Rtu.machine order in
      let s' = record s { input_buffer = record (s.input_buffer) { bytes = b.bytes } } in
      let u = state (run m (contents b) (fresh s)) in
      let (g, same) = run-Follows order (contents b) history (fresh s) small f in
      let scanned = scan-run m Inv (machine-IsMachine order) b (fresh s) c i in
      let quiet =
        silent_calls u.address (history ++ contents b) u.calls
          (subst (λ a. IsSilent a (history ++ contents b)) (sym same)
            (IsSilent-start s.modbus_scanner.address (history ++ contents b) rest (
              subst (IsSilent s.modbus_scanner.address)
                (sym (append_assoc history (contents b) rest)) silent)))
          (heard_so_far order u.point (history ++ contents b) u g) in
      (
        scanned_to s' b.actual_size u,
        handle_read_lem order b.actual_size s' u c.not_empty scanned
            ∙ handle_calls-quiet order u.calls (scanned_to s' b.actual_size u) quiet,
        Follows-unlogged order (history ++ contents b) u g,
        run-Inv m Inv (machine-IsMachine order) (contents b) (fresh s) i,
        same,
        refl,
        refl,
        refl,
      )

  silent_reads :
      (bs : List Buffer) (history : List ℕ) (s : Server)
      → All IsChunk bs
      → All (λ b. IsBytes (contents b)) bs
      → Inv s.modbus_scanner
      → Follows order s.modbus_scanner.point history (fresh s)
      → IsSilent s.modbus_scanner.address (history ++ stream bs)
      → (t : Server) × (handle_reads order bs s ≡ some t)
        × (t.coils ≡ s.coils)
        × (t.regs ≡ s.regs)
        × (t.ops ≡ s.ops)
  silent_reads [] history s c small i f silent = (s, refl, refl, refl, refl)
  silent_reads (b ∷ bs) history s c small i f silent =
      let (t, done, g, inv, same, coils, regs, ops) =
        silent_read b history (stream bs) s c.0 small.0 i f silent in
      let silent' : IsSilent t.modbus_scanner.address ((history ++ contents b) ++ stream bs) =
        subst (λ a. IsSilent a ((history ++ contents b) ++ stream bs)) (sym same)
          (subst (IsSilent s.modbus_scanner.address)
            (sym (append_assoc history (contents b) (stream bs))) silent) in
      let (u, rest, coils', regs', ops') =
        silent_reads bs (history ++ contents b) t c.1 small.1 inv g silent' in
      (
        u,
        ap (λ o. elim o [ none ↦ none | some (a, v) ↦ handle_reads order bs v ]) done ∙ rest,
        coils' ∙ coils,
        regs' ∙ regs,
        ops' ∙ ops,
      )

  -- Any chunks, none of them empty, for a server whose scanner is new, with no frame for the device
  -- anywhere in their bytes: every `handle_read` returns, no coil and no register is changed, and no
  -- asynchronous operation is started.
  pub silence_changes_nothing :
      (address : ℕ) (pdu : Pdu) (chunks : List Buffer) (s : Server)
      → s.modbus_scanner ≡ Rtu.new address pdu
      → All IsChunk chunks
      → All (λ b. IsBytes (contents b)) chunks
      → IsSilent (address % 256) (stream chunks)
      → (t : Server) × (handle_reads order chunks s ≡ some t)
        × (t.coils ≡ s.coils)
        × (t.regs ≡ s.regs)
        × (t.ops ≡ s.ops)
  unfolding Rtu.new
  silence_changes_nothing address pdu chunks s new c small silent =
      let start : Follows order Rtu.pre_address_state [] (Rtu.new address pdu) = record {
        before = [];
        behind = refl;
        partial = refl;
        bytes = tt;
        heard = nothing_told [];
      } in
      silent_reads chunks [] s c small (subst Inv (sym new) (λ e. refl))
        (subst (λ u. Follows order u.point [] (record u { calls = [] })) (sym new) start)
        (subst (λ u. IsSilent u.address (stream chunks)) (sym new) silent)
