-- ===== src/RtuOld/Stream.antt =====
-- Whole streams through slave_rtu_old.cpp, and its agreement with slave_rtu_scanner.cpp.
use mathlib.Core.Path.{ap₂}
use modbus_scanner.Base.{
  ℕ, zero, suc, ◌≤◌, ◌≡◌, ◌≢◌, refl, sym, ap, ◌∙◌, List, [], ◌∷◌, ◌++◌, Option, none, some,
  append-nil, append_assoc, arith, All, length, take,
}
use modbus_scanner.Coroutine.{scan_all}
use modbus_scanner.Coroutine.Chunks.{IsChunk, stream}
use modbus_scanner.Defs.{Buffer, Pdu, contents, IsBuffer}
use modbus_scanner.Request.{Request, HasPayload, decoded, request_of-decoded, told, told-append}
use modbus_scanner.Rtu
use modbus_scanner.Rtu.Decode
use modbus_scanner.Rtu.Frame.{frame}
use modbus_scanner.Rtu.Stream.{Item, IsItem, line, pdus, scan_all-line}
use modbus_scanner.RtuOld.Decode.{IsReady, on_chars, on_chars-append, run-frame}
use modbus_scanner.RtuOld.{Scanner, m_init_state, on_char, on_char_at, scan_loop, scan}
use modbus_scanner.Scanner.{Order}

-- Successive calls of `scan`.
unfoldable pub scan_each : Order → List Buffer → Scanner → Option Scanner
scan_each order [] s = some s
scan_each order (b ∷ bs) s = elim (scan order (some b) s) [
  | none ↦ none
  | some t ↦ scan_each order bs t
]

scan_loop-on_chars :
    (order : Order) (n : ℕ) (bytes : List ℕ) (s : Scanner)
    → n ≤ length bytes
    → scan_loop order bytes n s ≡ some (on_chars order (take n bytes) s)
unfolding scan_loop on_chars
scan_loop-on_chars order zero bytes s h = refl
scan_loop-on_chars order (suc n) [] s h = absurd (omega arith)
scan_loop-on_chars order (suc n) (c ∷ cs) s h =
    scan_loop-on_chars order n cs (on_char order s c) (omega arith)

scan-on_chars :
    (order : Order) (b : Buffer) (s : Scanner)
    → IsBuffer b
    → scan order (some b) s ≡ some (on_chars order (contents b) s)
unfolding scan
scan-on_chars order b s h =
    scan_loop-on_chars order b.actual_size b.bytes s (omega (arith, h.whole, h.fits))

pub scan_each-on_chars :
    (order : Order) (bs : List Buffer) (s : Scanner)
    → All IsChunk bs
    → scan_each order bs s ≡ some (on_chars order (stream bs) s)
unfolding scan_each on_chars
scan_each-on_chars order [] s h = refl
scan_each-on_chars order (b ∷ bs) s h =
    rw (scan-on_chars order b s h.0.buffer, scan_each)
      (scan_each-on_chars order bs (on_chars order (contents b) s) h.1
        ∙ ap some (sym (on_chars-append order (contents b) (stream bs) s)))

-- What the items ask for, in order.
abbrev pub asked : List Item → List (Option Request)
asked [] = []
asked (i ∷ is) = some i.request ∷ asked is

abbrev pub HasPayloads : List Item → Type 0
HasPayloads = All (λ i. HasPayload i.request)

told-pdus :
    (address : ℕ) (items : List Item) (p : Pdu)
    → All (IsItem address) items
    → told (pdus items p) ≡ asked items
told-pdus address [] p h = refl
told-pdus address (i ∷ items) p h =
    ap₂ (λ r rs. some r ∷ rs) (request_of-decoded i.request p h.0.fits)
      (told-pdus address items (decoded i.request p) h.1)

module _ (order : Order) (address : ℕ) where
  run_noise :
      (noise : List ℕ) (s : Scanner) (rest : List ℕ)
      → s.current_state ≡ m_init_state
      → s.address ≡ address
      → All (λ b. b ≢ address) noise
      → on_chars order (noise ++ rest) s ≡ on_chars order rest s
  unfolding on_chars
  run_noise [] s rest p e a = refl
  run_noise (b ∷ noise) s rest p e a =
      ap (on_chars order (noise ++ rest)) (stays b s p (rw e a.0)) ∙ run_noise noise s rest p e a.1
    where
      stays :
          (b : ℕ) (s : Scanner)
          → s.current_state ≡ m_init_state
          → b ≢ s.address
          → on_char order s b ≡ s
      stays b s p n = unfold on_char_at in ground arith

  run-line :
      (items : List Item) (s : Scanner)
      → IsReady s
      → s.address ≡ address
      → All (IsItem address) items
      → HasPayloads items
      → IsReady (on_chars order (line address items) s)
        × (told (on_chars order (line address items) s).calls ≡ told s.calls ++ asked items)
  unfolding on_chars
  run-line [] s h e a g = (h, sym (append-nil (told s.calls)))
  run-line (i ∷ items) s h e a g =
      let behind = line address items in
      let (t, done, took) = run-frame order i.request s behind h a.0.fits g.0 in
      let (ready, called) = run-line items t took.ready (took.same_address ∙ e) a.1 g.1 in
      let whole =
        run_noise i.noise s (frame address i.request ++ behind) h.at_init e a.0.other
        ∙ ap (λ x. on_chars order (frame x i.request ++ behind) s) (sym e)
        ∙ done in
      rw whole (
        ready,
        called
            ∙ ap (λ c. c ++ asked items) took.called
            ∙ append_assoc (told s.calls) (some i.request ∷ []) (asked items),
      )

-- The two RTU scanners agree on requests to their device that have a payload where their
-- function carries one, with any bytes but the device's address in front of each, cut into
-- non-empty chunks in any way: both read nothing outside the chunks' arrays, both tell their users
-- exactly the requests that were sent, in order, and nothing else, and both are before a frame
-- again.
pub scanners_agree :
    (order : Order) (items : List Item) (chunks : List Buffer) (s : Rtu.Scanner) (old : Scanner)
    → s.address ≡ old.address
    → Decode.IsReady s
    → IsReady old
    → All (IsItem old.address) items
    → HasPayloads items
    → All IsChunk chunks
    → stream chunks ≡ line old.address items
    → (t : Rtu.Scanner) × (t' : Scanner) × (scan_all (Rtu.machine order) chunks s ≡ some t)
      × (scan_each order chunks old ≡ some t')
      × Decode.IsReady t
      × IsReady t'
      × (told t.calls ≡ told s.calls ++ asked items)
      × (told t'.calls ≡ told old.calls ++ asked items)
scanners_agree order items chunks s old same h h' a g c e =
    let a' = rw (sym same) at a in
    let e' = e ∙ ap (λ x. line x items) (sym same) in
    let (t, scanned, ready, called, same_address) = scan_all-line order items chunks s h a' c e' in
    let (ready', called') = run-line order old.address items old h' refl a g in
    (
      t,
      on_chars order (stream chunks) old,
      scanned,
      scan_each-on_chars order chunks old c,
      ready,
      rw e ready',
      ap told called
          ∙ told-append s.calls (pdus items s.pdu)
          ∙ ap (λ x. told s.calls ++ x) (told-pdus old.address items s.pdu a),
      rw e called',
    )
