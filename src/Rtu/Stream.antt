-- ===== src/Rtu/Stream.antt =====
-- Whole streams through slave_rtu_scanner.cpp, cut into chunks in any way.
use mathlib.Core.Path.{ap₂}
use modbus_scanner.Base.{
  ℕ, ◌≡◌, ◌≢◌, ◌⊎◌, inl, inr, refl, sym, ap, ◌∙◌, false, List, [], ◌∷◌, ◌++◌, some, append-nil,
  append_assoc, arith, All,
}
use modbus_scanner.Coroutine.{scan_all}
use modbus_scanner.Crc.{check_crc_rtu}
use modbus_scanner.Coroutine.Chunks.{
  paused, dropped, run, Fed-state, IsMachine, IsChunk, stream, scan_all-run, scan-run, state,
  run-Inv,
}
use modbus_scanner.Defs.{Buffer, Pdu, Event, on_pdu, on_nonse, contents}
use modbus_scanner.Rtu.Decode.{IsReady, Inv, step_at-After, run-frame, run_frame_bad, Took}
use modbus_scanner.Request.{Request, IsRequest, print, decoded}
use modbus_scanner.Rtu.Frame.{frame}
use modbus_scanner.Rtu.{Scanner, pre_address_state, step_at, machine, scan}
use modbus_scanner.Scanner.{Order, valid_fc}

pub machine-IsMachine : (order : Order) → IsMachine (machine order) Inv
machine-IsMachine order = record { step_law = step_at-After order }

-- A request on the line, with bytes in front of it that are for other devices or none.
pub record Item : Type 0 where
  pub noise : List ℕ
  pub request : Request

-- Other bytes than this device's address, and a request that fits its frame.
pub record IsItem (address : ℕ) (i : Item) : Type 0 where
  pub other : All (λ b. b ≢ address) i.noise
  pub fits : IsRequest i.request

abbrev pub line : ℕ → List Item → List ℕ
line address [] = []
line address (i ∷ is) = i.noise ++ (frame address i.request ++ line address is)

-- The calls of `m_pdu_cb` for the requests, in order; `p` is what `m_pdu` holds before.
abbrev pub pdus : List Item → Pdu → List Event
pdus [] p = []
pdus (i ∷ is) p = on_pdu (decoded i.request p) ∷ pdus is (decoded i.request p)

IsReady-Inv : (s : Scanner) → IsReady s → Inv s
IsReady-Inv s h = ground arith

-- `t` is before a frame, as `s` was, and nothing was called between.
record Quiet (s t : Scanner) : Type 0 where
  ready : IsReady t
  same_address : t.address ≡ s.address
  same_pdu : t.pdu ≡ s.pdu
  same_calls : t.calls ≡ s.calls

module _ (order : Order) (address : ℕ) where
  step_noise :
      (s : Scanner) (b : ℕ) (rest : List ℕ)
      → IsReady s
      → b ≢ s.address
      → run (machine order) (b ∷ rest) s
        ≡ run (machine order) rest (record s { crc_buf = []; point = pre_address_state })
  unfolding run step_at
  step_noise s b rest h n = ground arith

  run_noise :
      (noise : List ℕ) (s : Scanner) (rest : List ℕ)
      → IsReady s
      → s.address ≡ address
      → All (λ b. b ≢ address) noise
      → (t : Scanner) × (run (machine order) (noise ++ rest) s ≡ run (machine order) rest t)
        × Quiet s t
  run_noise [] s rest h e a =
      (s, refl, record { ready = h; same_address = refl; same_pdu = refl; same_calls = refl })
  run_noise (b ∷ noise) s rest h e a =
      let s1 = record s { crc_buf = []; point = pre_address_state } in
      let (t, r, q) = run_noise noise s1 rest (inr (refl, refl)) e a.1 in
      (
        t,
        step_noise s b (noise ++ rest) h (rw e a.0) ∙ r,
        record {
          ready = q.ready;
          same_address = q.same_address;
          same_pdu = q.same_pdu;
          same_calls = q.same_calls;
        },
      )

  run_item :
      (i : Item) (s : Scanner) (rest : List ℕ)
      → IsReady s
      → s.address ≡ address
      → IsItem address i
      → (t : Scanner) × (run (machine order) (i.noise ++ (frame address i.request ++ rest)) s
          ≡ run (machine order) rest t)
        × Took order i.request s t
  run_item i s rest h e a =
      let (u, quiet, q) = run_noise i.noise s (frame address i.request ++ rest) h e a.other in
      let (t, framed, took) = run-frame order i.request u rest q.ready a.fits in
      let here : address ≡ u.address = sym (q.same_address ∙ e) in
      (
        t,
        quiet ∙ ap (λ x. run (machine order) (frame x i.request ++ rest) u) here ∙ framed,
        record {
          behind = took.behind;
          same_address = took.same_address ∙ q.same_address;
          pdu_lem = took.pdu_lem ∙ ap (decoded i.request) q.same_pdu;
          called =
              took.called
              ∙ ap₂ (λ c p. c ++ on_pdu (decoded i.request p) ∷ []) q.same_calls q.same_pdu;
        },
      )

  run-line :
      (items : List Item) (s : Scanner)
      → IsReady s
      → s.address ≡ address
      → All (IsItem address) items
      → (t : Scanner) × (run (machine order) (line address items) s ≡ paused t)
        × IsReady t
        × (t.calls ≡ s.calls ++ pdus items s.pdu)
        × (t.address ≡ s.address)
  unfolding run
  run-line [] s h e a = (s, refl, h, sym (append-nil s.calls), refl)
  run-line (i ∷ items) s h e a =
      let (u, first, took) = run_item i s (line address items) h e a.0 in
      let (t, later, ready, called, same_address) =
        run-line items u (inl took.behind) (took.same_address ∙ e) a.1 in
      (
        t,
        first ∙ later,
        ready,
        called
            ∙ ap₂ (λ c p. c ++ pdus items p) took.called took.pdu_lem
            ∙ append_assoc s.calls (on_pdu (decoded i.request s.pdu) ∷ [])
                (pdus items (decoded i.request s.pdu)),
        same_address ∙ took.same_address,
      )

-- Requests to this device, each with any bytes but the device's address in front of it, come in
-- chunks that are cut in any way, none of them empty: the calls of `scan` read nothing outside
-- the chunks' arrays, `m_pdu_cb` is called exactly once for each request, in order, with its numbers and
-- its payload, `m_nonse_cb` is never called, and the scanner is before a frame again, for
-- the same address.
pub scan_all-line :
    (order : Order) (items : List Item) (chunks : List Buffer) (s : Scanner)
    → IsReady s
    → All (IsItem s.address) items
    → All IsChunk chunks
    → stream chunks ≡ line s.address items
    → (t : Scanner) × (scan_all (machine order) chunks s ≡ some t)
      × IsReady t
      × (t.calls ≡ s.calls ++ pdus items s.pdu)
      × (t.address ≡ s.address)
scan_all-line order items chunks s h a c e =
    let (t, whole, ready, called, same_address) = run-line order s.address items s h refl a in
    (
      t,
      scan_all-run (machine order) Inv (machine-IsMachine order) chunks s t c (IsReady-Inv s h)
          (ap (λ xs. run (machine order) xs s) e ∙ whole),
      ready,
      called,
      same_address,
    )

-- A call of `scan` with a chunk that is not empty returns, wherever the coroutine stood before,
-- and leaves what a run over exactly the bytes in use leaves, which ends behind the last of them or
-- at a jump to the initial state; what the array holds behind those bytes plays no part.
pub scan_total :
    (order : Order) (b : Buffer) (s : Scanner)
    → IsChunk b
    → Inv s
    → (t : Scanner) × (scan order b s ≡ some t)
      × ((run (machine order) (contents b) s ≡ paused t)
          ⊎ (run (machine order) (contents b) s ≡ dropped t))
      × Inv t
unfolding scan
scan_total order b s c h =
    let end = run (machine order) (contents b) s in
    (
      state end,
      scan-run (machine order) Inv (machine-IsMachine order) b s c h,
      Fed-state end,
      run-Inv (machine order) Inv (machine-IsMachine order) (contents b) s h,
    )

run_bad_function :
    (order : Order) (s : Scanner) (fc : ℕ) (rest : List ℕ)
    → IsReady s
    → valid_fc fc ≡ false
    → run (machine order) (s.address ∷ fc ∷ rest) s
      ≡ dropped
          (record s { crc_buf = []; point = pre_address_state; calls = s.calls ++ on_nonse ∷ [] })
unfolding run step_at
run_bad_function order s fc rest h v = ground arith

-- A chunk that begins with a frame for this device whose checksum is refused, or with this
-- device's address and a function code that is not valid: the scanner calls `m_nonse_cb` once
-- and nothing else, drops the chunk whatever else it holds, and is before a frame again.
pub scan_nonsense :
    (order : Order) (b : Buffer) (s : Scanner) (r : Request) (hi lo fc : ℕ) (rest : List ℕ)
    → IsReady s
    → IsChunk b
    → ((contents b ≡ (s.address ∷ print r) ++ hi ∷ lo ∷ rest)
        × IsRequest r
        × (check_crc_rtu (s.address ∷ print r) hi lo ≡ false))
      ⊎ ((contents b ≡ s.address ∷ fc ∷ rest) × (valid_fc fc ≡ false))
    → (t : Scanner) × (scan order b s ≡ some t) × IsReady t × (t.calls ≡ s.calls ++ on_nonse ∷ [])
unfolding scan
scan_nonsense order b s r hi lo fc rest h c cases =
    let m = machine order in
    let from_run = λ (xs : List ℕ) (t : Scanner) (e : contents b ≡ xs) (d : run m xs s ≡ dropped t).
      scan-run m Inv (machine-IsMachine order) b s c (IsReady-Inv s h)
      ∙ ap (λ f. some (state f)) (ap (λ xs. run m xs s) e ∙ d) in
    elim cases [
      | inl (e, g, bad) ↦
          let (t, d, ready, calls) = run_frame_bad order r s hi lo rest h g bad in
          (t, from_run _ t e d, ready, calls)
      | inr (e, bad) ↦
          (_, from_run _ _ e (run_bad_function order s fc rest h bad), inr (refl, refl), refl)
    ]
