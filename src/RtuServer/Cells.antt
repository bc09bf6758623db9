-- ===== src/RtuServer/Cells.antt =====
-- Memories of 2 ^ 16 cells, as `m_coils` and `m_regs` of rtu_server_data_handler.cpp are read:
-- a run of cells is written and read one by one, and addresses wrap at 2 ^ 16.
use modbus_scanner.Base.{
  ℕ, zero, suc, ◌+◌, ◌≤◌, ◌<◌, ◌≡◌, refl, ap, ◌∙◌, List, [], ◌∷◌, ◌++◌, arith, ◌==◌, if◌then◌else◌,
  length,
}
use modbus_scanner.RtuServer.Replies.{u16}

-- The address `n` cells behind.
abbrev pub after : ℕ → ℕ → ℕ
after zero a = a
after (suc n) a = after n (u16 (a + 1))

module _ {V : Type 0} where
  abbrev pub stored : List V → ℕ → (ℕ → V) → ℕ → V
  stored [] a memory j = memory j
  stored (v ∷ vs) a memory j = stored vs (u16 (a + 1)) (λ i. if a == i then v else memory i) j

  pub stored-ext :
      (vs : List V) (a : ℕ) (memory memory' : ℕ → V) (j : ℕ)
      → ((i : ℕ) → memory i ≡ memory' i)
      → stored vs a memory j ≡ stored vs a memory' j
  stored-ext [] a memory memory' j e = e j
  stored-ext (v ∷ vs) a memory memory' j e =
      stored-ext vs (u16 (a + 1)) (λ i. if a == i then v else memory i)
        (λ i. if a == i then v else memory' i) j (λ i. rw (e i))

  pub stored-append :
      (xs ys : List V) (a : ℕ) (memory : ℕ → V) (j : ℕ)
      → stored (xs ++ ys) a memory j ≡ stored ys (after (length xs) a) (stored xs a memory) j
  stored-append [] ys a memory j = refl
  stored-append (x ∷ xs) ys a memory j =
      stored-append xs ys (u16 (a + 1)) (λ i. if a == i then x else memory i) j

  -- An address behind the written ones, or before them, counted modulo 2 ^ 16, keeps its value.
  pub stored_far :
      (vs : List V) (d j : ℕ) (memory : ℕ → V)
      → 1 ≤ d
      → d + length vs ≤ 65536
      → j < 65536
      → stored vs (u16 (j + d)) memory j ≡ memory j
  stored_far [] d j memory one room small = refl
  stored_far (v ∷ vs) d j memory one room small =
      let next : u16 (u16 (j + d) + 1) ≡ u16 (j + (d + 1)) = omega arith in
      let written = λ (i : ℕ). if u16 (j + d) == i then v else memory i in
      ap (λ b. stored vs b written j) next
      ∙ stored_far vs (d + 1) j written (omega arith) (omega arith) small
      ∙ kept_elsewhere
    where
      kept_elsewhere : (if u16 (j + d) == j then v else memory j) ≡ memory j
      kept_elsewhere = ground arith

  -- The `n` cells from an address on.
  abbrev pub window : (ℕ → V) → ℕ → ℕ → List V
  window memory zero a = []
  window memory (suc n) a = memory a ∷ window memory n (u16 (a + 1))

  pub length-window : (memory : ℕ → V) (n a : ℕ) → length (window memory n a) ≡ n
  length-window memory zero a = refl
  length-window memory (suc n) a = omega (arith, length-window memory n (u16 (a + 1)))

  pub window-ext :
      (memory memory' : ℕ → V) (n a : ℕ)
      → ((i : ℕ) → memory' i ≡ memory i)
      → window memory' n a ≡ window memory n a
  window-ext memory memory' zero a e = refl
  window-ext memory memory' (suc n) a e = rw (e a, window-ext memory memory' n (u16 (a + 1)) e)

  -- What was written is read back, if it does not run into itself.
  pub window-stored :
      (vs : List V) (a : ℕ) (memory : ℕ → V)
      → a < 65536
      → length vs ≤ 65536
      → window (stored vs a memory) (length vs) a ≡ vs
  window-stored [] a memory h room = refl
  window-stored (v ∷ vs) a memory h room =
      let written = λ (i : ℕ). if a == i then v else memory i in
      let first : stored vs (u16 (a + 1)) written a ≡ v =
        stored_far vs 1 a written (omega arith) (omega arith) h ∙ ground arith in
      let rest = window-stored vs (u16 (a + 1)) written (omega arith) (omega arith) in
      ap (λ w. w ∷ window (stored vs (u16 (a + 1)) written) (length vs) (u16 (a + 1))) first
      ∙ ap (λ ys. v ∷ ys) rest
