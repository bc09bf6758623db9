-- ===== src/RtuServer/Framed.antt =====
-- rtu_server_data_handler.cpp starts nothing without a frame for it in the stream.
use mathlib.Core.Path.{subst}
use modbus_scanner.Base.{
  ℕ, ◌+◌, ◌%◌, ◌≡◌, refl, sym, ap, ◌∙◌, ◌⊎◌, inl, inr, false, List, [], ◌∷◌, ◌++◌, Option, none,
  some, All, IsBytes, arith, length, append_assoc, append-nil,
}
use modbus_scanner.Coroutine.Chunks.{IsChunk, run, state, scan-run, run-Inv, stream}
use modbus_scanner.Defs.{Buffer, Pdu, Event, on_pdu, on_nonse, contents, set_actual_size}
use modbus_scanner.InOrder.{InOrder, nothing_told}
use modbus_scanner.Rtu
use modbus_scanner.Rtu.Decode.{Inv}
use modbus_scanner.Rtu.Heard.{IsFrame, Follows, heard_so_far}
use modbus_scanner.Rtu.Logged.{logged, run-logged}
use modbus_scanner.Rtu.Soundness.{run-Follows}
use modbus_scanner.Rtu.Stream.{machine-IsMachine}
use modbus_scanner.RtuServer.EachMethod.{pdu_count}
use modbus_scanner.RtuServer.Monad.{Server}
use modbus_scanner.RtuServer.Reading.{fresh, handle_read_starts}
use modbus_scanner.RtuServer.Replies.{handle_read}
use modbus_scanner.RtuServer.Silence.{handle_reads}
use modbus_scanner.Scanner.{Order}

pdu_count-append : (xs ys : List Event) → pdu_count (xs ++ ys) ≡ pdu_count xs + pdu_count ys
pdu_count-append [] ys = omega arith
pdu_count-append (on_pdu p ∷ xs) ys = omega (arith, pdu_count-append xs ys)
pdu_count-append (on_nonse ∷ xs) ys = pdu_count-append xs ys

outcome_cases : (o : Option (Unit {0} × Server)) → (o ≡ none) ⊎ ((t : Server) × (o ≡ some (tt, t)))
outcome_cases none = inl refl
outcome_cases (some (a, t)) = inr (t, refl)

module _ (order : Order) where
  -- The server's scanner with all the calls that it has made so far, against what has been read.
  record Framed (address : ℕ) (history : List ℕ) (log : List Event) (s : Server) : Type 0 where
    follows : Follows order s.modbus_scanner.point history (logged log (fresh s))
    answers : s.modbus_scanner.address ≡ address
    inv : Inv s.modbus_scanner

  abbrev filled : Buffer → Server → Server
  filled b s = record s { input_buffer = record (s.input_buffer) { bytes = b.bytes } }

  one_read :
      (address : ℕ) (b : Buffer) (history : List ℕ) (log : List Event) (s t : Server)
      → IsChunk b
      → IsBytes (contents b)
      → Framed address history log s
      → handle_read order false b.actual_size (filled b s) ≡ some (tt, t)
      → (calls : List Event) × Framed address (history ++ contents b) (log ++ calls) t
        × (length t.ops ≡ length s.ops + pdu_count calls)
  unfolding set_actual_size Rtu.scan
  one_read address b history log s t c small f done =
      let m = Rtu.machine order in
      let u = state (run m (contents b) (fresh s)) in
      let now = history ++ contents b in
      let (g, same) =
        run-Follows order (contents b) history (logged log (fresh s)) small f.follows in
      let scanned = scan-run m Inv (machine-IsMachine order) b (fresh s) c f.inv in
      let (many, left) =
        handle_read_starts order b.actual_size (filled b s) t u c.not_empty scanned done in
      let at_end = run-logged order log (contents b) (fresh s) in
      let g' : Follows order u.point now (logged log u) =
        subst (λ v. Follows order v.point now v) at_end g in
      let g'' : Follows order u.point now (logged (log ++ u.calls) (record u { calls = [] })) =
        subst (λ calls. Follows order u.point now (record u { calls = calls }))
          (sym (append-nil (log ++ u.calls))) g' in
      (
        u.calls,
        record {
          follows =
              subst
                (λ v. Follows order v.point now (logged (log ++ u.calls) (record v { calls = [] })))
                (sym left) g'';
          answers = ap (λ v. v.address) left ∙ sym (ap (λ v. v.address) at_end) ∙ same ∙ f.answers;
          inv =
              subst Inv (sym left)
                (run-Inv m Inv (machine-IsMachine order) (contents b) (fresh s) f.inv);
        },
        many,
      )

  all_reads :
      (address : ℕ) (bs : List Buffer) (history : List ℕ) (log : List Event) (s t : Server)
      → All IsChunk bs
      → All (λ b. IsBytes (contents b)) bs
      → Framed address history log s
      → handle_reads order bs s ≡ some t
      → (calls : List Event) × InOrder (IsFrame address) (history ++ stream bs) (log ++ calls)
        × (length t.ops ≡ length s.ops + pdu_count calls)
  all_reads address [] history log s t c small f done =
      let same : s ≡ t = cc done in
      let told : InOrder (IsFrame address) history (log ++ []) =
        subst (λ a. InOrder (IsFrame a) history (log ++ [])) f.answers
          (heard_so_far order s.modbus_scanner.point history (logged log (fresh s)) f.follows) in
      (
        [],
        subst (λ h. InOrder (IsFrame address) h (log ++ [])) (sym (append-nil history)) told,
        omega (arith, ap (λ v. length v.ops) same),
      )
  all_reads address (b ∷ bs) history log s t c small f done =
      let go_on =
        λ (o : Option (Unit {0} × Server))
            (e : handle_read order false b.actual_size (filled b s) ≡ o).
          ap (λ o. elim o [ none ↦ none | some (x, v) ↦ handle_reads order bs v ]) (sym e) ∙ done in
      elim (outcome_cases (handle_read order false b.actual_size (filled b s))) [
        | inl e ↦ cc (let q : none ≡ some t = go_on none e in q)
        | inr (u, e) ↦
            let (calls, g, many) = one_read address b history log s u c.0 small.0 f e in
            let (later, told, more) =
              all_reads address bs (history ++ contents b) (log ++ calls) u t c.1 small.1 g
                (go_on (some (tt, u)) e) in
            (
              calls ++ later,
              subst (λ h. InOrder (IsFrame address) h (log ++ (calls ++ later)))
                  (append_assoc history (contents b) (stream bs))
                  (subst (InOrder (IsFrame address) ((history ++ contents b) ++ stream bs))
                    (append_assoc log calls later) told),
              omega (arith, many, more, pdu_count-append calls later),
            )
      ]

  -- Any chunks, none of them empty, for a server whose scanner is new, where every `handle_read`
  -- returns: as many asynchronous operations have been started as there are requests in a log of
  -- calls whose requests stand in the bytes of the chunks as whole frames with the device's
  -- address and the right checksum, each told once, in their order, one behind the other.
  pub operations_have_frames :
      (address : ℕ) (pdu : Pdu) (chunks : List Buffer) (s t : Server)
      → s.modbus_scanner ≡ Rtu.new address pdu
      → All IsChunk chunks
      → All (λ b. IsBytes (contents b)) chunks
      → handle_reads order chunks s ≡ some t
      → (calls : List Event) × InOrder (IsFrame (address % 256)) (stream chunks) calls
        × (length t.ops ≡ length s.ops + pdu_count calls)
  unfolding Rtu.new
  operations_have_frames address pdu chunks s t new c small done =
      let start : Follows order Rtu.pre_address_state [] (Rtu.new address pdu) = record {
        before = [];
        behind = refl;
        partial = refl;
        bytes = tt;
        heard = nothing_told [];
      } in
      all_reads (address % 256) chunks [] [] s t c small
        (record {
          follows = subst (λ u. Follows order u.point [] (record u { calls = [] })) (sym new) start;
          answers = ap (λ u. u.address) new;
          inv = subst Inv (sym new) (λ e. refl);
        })
        done
