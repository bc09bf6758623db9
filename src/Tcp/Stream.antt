-- ===== src/Tcp/Stream.antt =====
-- Whole streams through slave_tcp_scanner.cpp, cut into chunks in any way.
use mathlib.Core.Path.{ap₂}
use modbus_scanner.Base.{
  ℕ, ◌≡◌, ◌≢◌, ◌⊎◌, inl, inr, refl, sym, ap, ◌∙◌, false, List, [], ◌∷◌, ◌++◌, some, append-nil,
  append_assoc, arith, All,
}
use modbus_scanner.Coroutine.{scan_all}
use modbus_scanner.Coroutine.Chunks.{
  paused, dropped, run, IsMachine, After, IsChunk, stream, scan_all-run, scan-run, state,
}
use modbus_scanner.Defs.{Buffer, Pdu, Event, on_pdu, on_nonse, contents}
use modbus_scanner.Request.{Request, IsRequest, HasPayload, decoded}
use modbus_scanner.Scanner.{Order, combine, valid_fc}
use modbus_scanner.Tcp.Decode.{
  IsReady, Header, header_bytes, message, stamped, run-message, run_header, opened,
}
use modbus_scanner.Tcp.{Scanner, pre_transact_state, function_state, step_at, machine, scan}

-- No invariant is needed: the scanner never looks for the end of a chunk before it reads.
abbrev pub Inv : Scanner → Type 0
Inv s = Unit {0}

step_at-After :
    (order : Order) (s : Scanner) (c : ℕ) → After (machine order) Inv (step_at order s.point s c)
unfolding step_at
step_at-After order s c = ground arith

pub machine-IsMachine : (order : Order) → IsMachine (machine order) Inv
machine-IsMachine order = record { step_law = λ s c _. step_at-After order s c }

pub record Item : Type 0 where
  pub header : Header
  pub request : Request

abbrev pub IsItem : Item → Type 0
IsItem i = IsRequest i.request × HasPayload i.request

abbrev pub messages : ℕ → List Item → List ℕ
messages address [] = []
messages address (i ∷ is) = message address i.header i.request ++ messages address is

-- The calls of `m_pdu_cb` for the requests, in order; `p` is what `m_pdu` holds before.
abbrev pub pdus : List Item → Pdu → List Event
pdus [] p = []
pdus (i ∷ is) p = let q = decoded i.request (stamped i.header p) in on_pdu q ∷ pdus is q

module _ (order : Order) where
  run-line :
      (address : ℕ) (items : List Item) (s : Scanner)
      → IsReady s
      → s.address ≡ address
      → All IsItem items
      → (t : Scanner) × (run (machine order) (messages address items) s ≡ paused t)
        × IsReady t
        × (t.calls ≡ s.calls ++ pdus items s.pdu)
  unfolding run
  run-line address [] s h e a = (s, refl, h, sym (append-nil s.calls))
  run-line address (i ∷ items) s h e a =
      let q = decoded i.request (stamped i.header s.pdu) in
      let (u, first, took) =
        run-message order i.header i.request s (messages address items) h a.0.0 a.0.1 in
      let (t, later, ready, called) =
        run-line address items u (inr took.behind) (took.same_address ∙ e) a.1 in
      (
        t,
        ap (λ x. run (machine order) (message x i.header i.request ++ messages address items) s)
              (sym e)
            ∙ first
            ∙ later,
        ready,
        called
            ∙ ap₂ (λ c p. c ++ pdus items p) took.called took.pdu_lem
            ∙ append_assoc s.calls (on_pdu q ∷ []) (pdus items q),
      )

  run_other_unit :
      (s : Scanner) (h : Header) (unit : ℕ) (rest : List ℕ)
      → IsReady s
      → unit ≢ s.address
      → (t : Scanner) × (run (machine order) (header_bytes h unit ++ rest) s ≡ dropped t)
        × IsReady t
        × (t.calls ≡ s.calls)
  unfolding run step_at
  run_other_unit s h unit rest r n = (
    record s {
      point = pre_transact_state;
      length_1 = h.length_1;
      length = combine order h.length_1 h.length_2;
      pdu = stamped h s.pdu;
    },
    ground arith,
    inl refl,
    refl,
  )

  run_bad_function :
      (s : Scanner) (h : Header) (fc : ℕ) (rest : List ℕ)
      → IsReady s
      → valid_fc fc ≡ false
      → (t : Scanner) × (run (machine order) (header_bytes h s.address ++ fc ∷ rest) s ≡ dropped t)
        × IsReady t
        × (t.calls ≡ s.calls ++ on_nonse ∷ [])
  run_bad_function s h fc rest r n = (
    record (opened order s h) { calls = s.calls ++ on_nonse ∷ []; point = pre_transact_state },
    run_header order s h (fc ∷ rest) r ∙ function_bad (opened order s h) refl,
    inl refl,
    refl,
  )
    where
      function_bad :
          (u : Scanner)
          → u.point ≡ function_state
          → run (machine order) (fc ∷ rest) u
            ≡ dropped (record u { calls = u.calls ++ on_nonse ∷ []; point = pre_transact_state })
      function_bad u p = unfold run step_at in ground (arith, n)

-- Messages to this device, with non-empty payloads where they have one, come in chunks that are
-- cut in any way, none of them empty: the calls of `scan` read nothing outside the chunks' arrays,
-- `m_pdu_cb` is called exactly once for each message, in order, with its transaction id, its
-- numbers and its payload, `m_nonse_cb` is never called, and the scanner is before a message
-- again.
pub scan_all-messages :
    (order : Order) (items : List Item) (chunks : List Buffer) (s : Scanner)
    → IsReady s
    → All IsItem items
    → All IsChunk chunks
    → stream chunks ≡ messages s.address items
    → (t : Scanner) × (scan_all (machine order) chunks s ≡ some t)
      × IsReady t
      × (t.calls ≡ s.calls ++ pdus items s.pdu)
scan_all-messages order items chunks s h a c e =
    let (t, whole, ready, called) = run-line order s.address items s h refl a in
    (
      t,
      scan_all-run (machine order) Inv (machine-IsMachine order) chunks s t c tt
          (ap (λ xs. run (machine order) xs s) e ∙ whole),
      ready,
      called,
    )

-- A chunk that begins with a message for another unit, or with one for this unit whose function
-- code is not valid: the scanner drops the chunk whatever else it holds and is before a message
-- again; it calls `m_nonse_cb` once in the second case, and calls nothing in the first.
pub scan_refused :
    (order : Order) (b : Buffer) (s : Scanner) (h : Header) (unit fc : ℕ) (rest : List ℕ)
    (called : List Event)
    → IsReady s
    → IsChunk b
    → contents b ≡ header_bytes h unit ++ fc ∷ rest
    → ((unit ≢ s.address) × (called ≡ []))
      ⊎ ((unit ≡ s.address) × (valid_fc fc ≡ false) × (called ≡ on_nonse ∷ []))
    → (t : Scanner) × (scan order b s ≡ some t) × IsReady t × (t.calls ≡ s.calls ++ called)
unfolding scan
scan_refused order b s h unit fc rest called r c e cases =
    let m = machine order in
    let from_run =
      λ (xs : List ℕ) (t : Scanner) (e' : contents b ≡ xs) (d : run m xs s ≡ dropped t).
        scan-run m Inv (machine-IsMachine order) b s c tt
        ∙ ap (λ f. some (state f)) (ap (λ xs. run m xs s) e' ∙ d) in
    elim cases [
      | inl (other, silent) ↦
          let (t, d, ready, calls) = run_other_unit order s h unit (fc ∷ rest) r other in
          (
            t,
            from_run _ t e d,
            ready,
            calls ∙ sym (append-nil s.calls) ∙ ap (λ x. s.calls ++ x) (sym silent),
          )
      | inr (here, bad, one) ↦
          let (t, d, ready, calls) = run_bad_function order s h fc rest r bad in
          let e' = e ∙ ap (λ x. header_bytes h x ++ fc ∷ rest) here in
          (t, from_run _ t e' d, ready, calls ∙ ap (λ x. s.calls ++ x) (sym one))
    ]
