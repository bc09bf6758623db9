-- ===== src/Coroutine/Following.antt =====
-- What is kept along with the bytes that a scanner has read, over whole chunks and streams.
use mathlib.Core.Path.{subst}
use modbus_scanner.Base.{
  ℕ, ◌<◌, ◌≡◌, refl, sym, List, [], ◌∷◌, ◌++◌, append_assoc, append-nil, some, All, IsBytes,
}
use modbus_scanner.Coroutine.{Next, more, skip, drop, Machine, scan_all}
use modbus_scanner.Coroutine.Chunks.{
  Next-cases, is_more, is_skip, is_drop, run, state, IsMachine, IsChunk, stream, scan-run, run-Inv,
}
use modbus_scanner.Defs.{Buffer, contents}

-- After a step; where the rest of a chunk is dropped, any bytes may be.
abbrev pub Goes : {S : Type 0} → (List ℕ → S → Type 0) → List ℕ → Next S → Type 0
Goes Kept history (more t) = Kept history t
Goes Kept history (skip t) = Kept history t
Goes Kept history (drop t) = (rest : List ℕ) → Kept (history ++ rest) t

module _ {S : Type 0} (m : Machine S) (Kept : List ℕ → S → Type 0)
    (step_law : (history : List ℕ) (s : S) (c : ℕ)
      → c < 256
      → Kept history s
      → Goes Kept (history ++ c ∷ []) (m.step s c)) where
  pub run-Kept :
      (xs history : List ℕ) (s : S)
      → IsBytes xs
      → Kept history s
      → Kept (history ++ xs) (state (run m xs s))
  unfolding run
  run-Kept [] history s h k = subst (λ hs. Kept hs s) (sym (append-nil history)) k
  run-Kept (c ∷ xs) history s h k =
      let g = step_law history s c h.0 k in
      let assoc = append_assoc history (c ∷ []) xs in
      let go_on = λ (u : S) (l : Kept (history ++ c ∷ []) u).
        subst (λ hs. Kept hs (state (run m xs u))) assoc
          (run-Kept xs (history ++ c ∷ []) u h.1 l) in
      elim (Next-cases (m.step s c)) [
        | is_more u e ↦ rw (e, run) (go_on u (rw e at g))
        | is_skip u e ↦ rw (e, run) (go_on u (rw e at g))
        | is_drop u e ↦ rw (e, run) (subst (λ hs. Kept hs u) assoc ((rw e at g) xs))
      ]

  pub scan_all-Kept :
      (Inv : S → Type 0)
      → IsMachine m Inv
      → (bs : List Buffer) (history : List ℕ) (s : S) → All IsChunk bs
      → All (λ b. IsBytes (contents b)) bs
      → Inv s
      → Kept history s
      → (t : S) × (scan_all m bs s ≡ some t) × Kept (history ++ stream bs) t
  unfolding scan_all
  scan_all-Kept Inv laws [] history s c h i k =
      (s, refl, subst (λ hs. Kept hs s) (sym (append-nil history)) k)
  scan_all-Kept Inv laws (b ∷ bs) history s c h i k =
      let u = state (run m (contents b) s) in
      let (t, done, later) =
        scan_all-Kept Inv laws bs (history ++ contents b) u c.1 h.1
          (run-Inv m Inv laws (contents b) s i) (run-Kept (contents b) history s h.0 k) in
      (
        t,
        rw (scan-run m Inv laws b s c.0 i, scan_all) done,
        subst (λ hs. Kept hs t) (append_assoc history (contents b) (stream bs)) later,
      )
