-- ===== src/Coroutine/Chunks.antt =====
-- A scanner's work does not depend on how the stream is cut into chunks, as long as nothing is
-- dropped: the array, the index and the size fall away.
use modbus_scanner.Base.{
  ℕ, zero, suc, ◌+◌, ◌≤◌, ◌<◌, ◌≡◌, ◌⊎◌, inl, inr, refl, sym, ap, ◌∙◌, Bool, true, false, ◌&&◌,
  List, [], ◌∷◌, ◌++◌, some, ◌==◌, arith, length, take, All,
}
use modbus_scanner.Coroutine.{Next, more, skip, drop, Machine, resume, scan, scan_all}
use modbus_scanner.Defs.{Buffer, contents, IsBuffer}

-- Where the body stands at the end of a run of bytes: suspended in mid-stream, or back in its
-- initial state with the rest of the bytes dropped.
pub data Fed (S : Type 0) : Type 0 where
  paused : S → Fed S
  dropped : S → Fed S

abbrev pub state : {S : Type 0} → Fed S → S
state (paused s) = s
state (dropped s) = s

pub Fed-state : {S : Type 0} (f : Fed S) → (f ≡ paused (state f)) ⊎ (f ≡ dropped (state f))
Fed-state (paused s) = inl refl
Fed-state (dropped s) = inr refl

-- What a step leaves behind. Where it goes on in a loop that tests for the end itself, leaving
-- that loop changes nothing.
abbrev pub After : {S : Type 0} → Machine S → (S → Type 0) → Next S → Type 0
After m Inv (more t) = Inv t
After m Inv (skip t) = Inv t × (m.waits t ≡ true) × (m.rewind t ≡ t)
After m Inv (drop t) = Inv t

-- The laws that a scanner's body keeps, with the invariant of its local variables.
pub record IsMachine {S : Type 0} (m : Machine S) (Inv : S → Type 0) : Type 0 where
  pub step_law : (s : S) (c : ℕ) → Inv s → After m Inv (m.step s c)

-- A chunk as `handle_read` passes it on: it is not empty.
pub record IsChunk (b : Buffer) : Type 0 where
  pub buffer : IsBuffer b
  pub not_empty : 0 < b.actual_size

abbrev pub stream : List Buffer → List ℕ
stream [] = []
stream (b ∷ bs) = contents b ++ stream bs

-- The three outcomes of a step, each with its equation.
pub data Split {S : Type 0} (n : Next S) : Type 0 where
  is_more : (t : S) → n ≡ more t → Split n
  is_skip : (t : S) → n ≡ skip t → Split n
  is_drop : (t : S) → n ≡ drop t → Split n

pub Next-cases : {S : Type 0} (n : Next S) → Split n
Next-cases (more t) = is_more t refl
Next-cases (skip t) = is_skip t refl
Next-cases (drop t) = is_drop t refl

data FedSplit {S : Type 0} (f : Fed S) : Type 0 where
  is_paused : (t : S) → f ≡ paused t → FedSplit f
  is_dropped : (t : S) → f ≡ dropped t → FedSplit f

Fed-cases : {S : Type 0} (f : Fed S) → FedSplit f
Fed-cases (paused t) = is_paused t refl
Fed-cases (dropped t) = is_dropped t refl

module _ {S : Type 0} (m : Machine S) where
  -- The body over a list of bytes.
  unfoldable pub run : List ℕ → S → Fed S
  run [] s = paused s
  run (c ∷ cs) s = elim (m.step s c) [ drop t ↦ dropped t | skip t ↦ run cs t | more t ↦ run cs t ]

  abbrev pub then_run : Fed S → List ℕ → Fed S
  then_run (paused s) ys = run ys s
  then_run (dropped s) ys = dropped s

  pub run-append : (xs ys : List ℕ) (s : S) → run (xs ++ ys) s ≡ then_run (run xs s) ys
  unfolding run
  run-append [] ys s = refl
  run-append (x ∷ xs) ys s = elim (Next-cases (m.step s x)) [
    | is_more t e ↦ rw (e, run) (run-append xs ys t)
    | is_skip t e ↦ rw (e, run) (run-append xs ys t)
    | is_drop t e ↦ rw (e, run)
  ]

before_end : (waits : Bool) (ix size : ℕ) → ix < size → (waits && ix == size) ≡ false
before_end waits ix size h = ground arith

at_end : (ix size : ℕ) → ix ≡ size → (ix == size) ≡ true
at_end ix size h = ground arith

not_end : (ix size : ℕ) → ix < size → (ix == size) ≡ false
not_end ix size h = ground arith

module _ {S : Type 0} (m : Machine S) (Inv : S → Type 0) (laws : IsMachine m Inv) where
  pub run-Inv : (xs : List ℕ) (s : S) → Inv s → Inv (state (run m xs s))
  unfolding run
  run-Inv [] s h = h
  run-Inv (x ∷ xs) s h = elim (Next-cases (m.step s x)) [
    | is_more t e ↦ rw (e, run) (run-Inv xs t (rw e at (laws.step_law s x h)))
    | is_skip t e ↦ rw (e, run) (run-Inv xs t (rw e at (laws.step_law s x h)).0)
    | is_drop t e ↦ rw (e, run) (rw e at (laws.step_law s x h))
  ]

  resume_rewind :
      (bytes : List ℕ) (ix size : ℕ) (s : S)
      → m.waits s ≡ true
      → ix ≡ size
      → resume m bytes ix size s ≡ some (m.rewind s)
  unfolding resume
  resume_rewind [] ix size s w e = ground (arith, w, at_end ix size e)
  resume_rewind (c ∷ cs) ix size s w e = ground (arith, w, at_end ix size e)

  -- From the byte at `ix` on, with `suc n` bytes of the chunk left.
  resume-run :
      (n : ℕ) (bytes : List ℕ) (ix size : ℕ) (s : S)
      → Inv s
      → ix + suc n ≡ size
      → suc n ≤ length bytes
      → resume m bytes ix size s ≡ some (state (run m (take (suc n) bytes) s))
  unfolding resume run
  resume-run n [] ix size s h e fits = absurd (omega arith)
  resume-run zero (c ∷ cs) ix size s h e fits =
      rw (before_end (m.waits s) ix size (omega arith), resume)
        (elim (Next-cases (m.step s c)) [
          | is_more t p ↦ rw (p, run) (rw (at_end (ix + 1) size (omega arith)))
          | is_skip t p ↦
              let l = rw p at (laws.step_law s c h) in
              rw (p, run) (resume_rewind cs (ix + 1) size t l.1 (omega arith) ∙ ap some l.2)
          | is_drop t p ↦ rw (p, run)
        ])
  resume-run (suc n) (c ∷ cs) ix size s h e fits =
      rw (before_end (m.waits s) ix size (omega arith), resume)
        (elim (Next-cases (m.step s c)) [
          | is_more t p ↦
              rw (p, run)
                (rw (not_end (ix + 1) size (omega arith)) (
                  resume-run n cs (ix + 1) size t (rw p at (laws.step_law s c h)) (omega arith)
                    (omega arith)))
          | is_skip t p ↦
              rw (p, run)
                (resume-run n cs (ix + 1) size t (rw p at (laws.step_law s c h)).0 (omega arith)
                  (omega arith))
          | is_drop t p ↦ rw (p, run)
        ])

  -- A call of `scan` with a chunk that is not empty returns, and leaves the scanner as a run over
  -- the bytes in use does, whatever the array holds behind them.
  pub scan-run :
      (b : Buffer) (s : S) → IsChunk b → Inv s → scan m b s ≡ some (state (run m (contents b) s))
  unfolding scan
  scan-run b s h i = on_size b.actual_size refl
    where
      on_size :
          (n : ℕ)
          → b.actual_size ≡ n
          → resume m b.bytes 0 b.actual_size s ≡ some (state (run m (contents b) s))
      on_size zero e = absurd (omega (arith, h.not_empty))
      on_size (suc n) e = rw e (
          resume-run n b.bytes 0 (suc n) s i (omega arith)
            (omega (arith, h.buffer.whole, h.buffer.fits)))

  -- Wherever a stream is cut into chunks, the calls of `scan` together do what one run over the
  -- whole stream does, if that run drops nothing.
  pub scan_all-run :
      (bs : List Buffer) (s t : S)
      → All IsChunk bs
      → Inv s
      → run m (stream bs) s ≡ paused t
      → scan_all m bs s ≡ some t
  unfolding scan_all run
  scan_all-run [] s t h i e = cc e
  scan_all-run (b ∷ bs) s t h i e =
      let whole = sym (run-append m (contents b) (stream bs) s) ∙ e in
      let inv = run-Inv (contents b) s i in
      rw (scan-run b s h.0 i, scan_all)
        (elim (Fed-cases (run m (contents b) s)) [
          | is_paused u p ↦ rw p (scan_all-run bs u t h.1 (rw p at inv) (rw p at whole))
          | is_dropped u p ↦ cc (let q : dropped u ≡ paused t = rw p at whole in q)
        ])
