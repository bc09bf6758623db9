-- ===== src/Crc/Detection.antt =====
-- What the checksum of crc_check.cpp detects.
use mathlib.Core.Path.{ap₂}
use modbus_scanner.Base.{
  ℕ, suc, ◌<◌, ◌≡◌, ◌≢◌, ◌⊎◌, inl, inr, refl, sym, ap, ◌∙◌, Bool, true, false, List, [], ◌∷◌, ◌++◌,
  arith, ◌==◌, ==_iff, Bool-cases, if◌then◌else◌, bit_xor, IsBytes, holds_below, holds_below_sound,
}
use modbus_scanner.Base.Xor.{xor_cancel_left, xor_cancel_right, xor-lt, xor_self, xor-zero}
use modbus_scanner.Crc.{
  crclo, crclo_bytes, crchi, Crc, crc_step, crc_loop, crc_start, check_crc_rtu,
}
use modbus_scanner.Crc.Reference.{IsCrc, crc_step-IsCrc, crc_loop-IsCrc}

index_of : ℕ → List ℕ → ℕ
index_of v [] = 0
index_of v (x ∷ xs) = if x == v then 0 else suc (index_of v xs)

inverse_test : ℕ → Bool
unfolding index_of crclo
inverse_test i = index_of (crclo i) crclo_bytes == i

inverse_all : holds_below inverse_test 256 ≡ true
unfolding holds_below inverse_test
inverse_all = refl

-- The low table has no entry twice.
crclo_inj : (i j : ℕ) → i < 256 → j < 256 → crclo i ≡ crclo j → i ≡ j
unfolding inverse_test
crclo_inj i j hi hj e =
    let p : inverse_test i ≡ true = holds_below_sound inverse_test 256 i hi inverse_all in
    let q : inverse_test j ≡ true = holds_below_sound inverse_test 256 j hj inverse_all in
    sym ((==_iff _ _).0 p) ∙ ap (λ v. index_of v crclo_bytes) e ∙ (==_iff _ _).0 q

-- A round loses nothing: its index and the old low byte can be read off.
crc_step_inj :
    (k k' : Crc) (b b' : ℕ)
    → IsCrc k
    → IsCrc k'
    → b < 256
    → b' < 256
    → crc_step k b ≡ crc_step k' b'
    → (bit_xor k.hi b ≡ bit_xor k'.hi b') × (k.lo ≡ k'.lo)
unfolding crc_step
crc_step_inj k k' b b' h h' hb hb' e =
    let same =
      crclo_inj (bit_xor k.hi b) (bit_xor k'.hi b') (xor-lt 8 k.hi b h.0 hb)
        (xor-lt 8 k'.hi b' h'.0 hb') (ap (λ (c : Crc). c.lo) e) in
    (
      same,
      xor_cancel_right k.lo k'.lo (crchi (bit_xor k.hi b))
          (ap (λ (c : Crc). c.hi) e ∙ ap (λ i. bit_xor k'.lo (crchi i)) (sym same)),
    )

crc_loop_inj :
    (k k' : Crc) (buf : List ℕ)
    → IsCrc k
    → IsCrc k'
    → IsBytes buf
    → crc_loop k buf ≡ crc_loop k' buf
    → k ≡ k'
unfolding crc_loop
crc_loop_inj k k' [] h h' hb e = e
crc_loop_inj k k' (b ∷ buf) h h' hb e =
    let later =
      crc_loop_inj (crc_step k b) (crc_step k' b) buf (crc_step-IsCrc k b h hb.0)
        (crc_step-IsCrc k' b h' hb.0) hb.1 e in
    let (i, l) = crc_step_inj k k' b b h h' hb.0 hb.0 later in
    ap₂ (λ x y. record { hi = x; lo = y }) (xor_cancel_right k.hi k'.hi b i) l

crc_loop-append : (k : Crc) (xs ys : List ℕ) → crc_loop k (xs ++ ys) ≡ crc_loop (crc_loop k xs) ys
unfolding crc_loop
crc_loop-append k [] ys = refl
crc_loop-append k (x ∷ xs) ys = crc_loop-append (crc_step k x) xs ys

crc_step_twice_inj :
    (k : Crc) (a b a' b' : ℕ)
    → IsCrc k
    → IsBytes (a ∷ b ∷ a' ∷ b' ∷ [])
    → crc_step (crc_step k a) b ≡ crc_step (crc_step k a') b'
    → (a ≡ a') × (b ≡ b')
crc_step_twice_inj k a b a' b' h (ha, (hb, (ha', (hb', _)))) e =
    let (i, l) =
      crc_step_inj (crc_step k a) (crc_step k a') b b' (crc_step-IsCrc k a h ha)
        (crc_step-IsCrc k a' h ha') hb hb' e in
    let same_a : a ≡ a' = xor_cancel_left k.hi a a' (
      crclo_inj (bit_xor k.hi a) (bit_xor k.hi a') (xor-lt 8 k.hi a h.0 ha)
        (xor-lt 8 k.hi a' h.0 ha') (unfold crc_step in l)) in
    (
      same_a,
      xor_cancel_left (crc_step k a).hi b b'
          (i ∙ ap (λ x. bit_xor (crc_step k x).hi b') (sym same_a)),
    )

pair_detected :
    (k : Crc) (before after : List ℕ) (a b a' b' : ℕ)
    → IsCrc k
    → IsBytes before
    → IsBytes after
    → IsBytes (a ∷ b ∷ a' ∷ b' ∷ [])
    → crc_loop k (before ++ a ∷ b ∷ after) ≡ crc_loop k (before ++ a' ∷ b' ∷ after)
    → (a ≡ a') × (b ≡ b')
unfolding crc_loop
pair_detected k before after a b a' b' h hx hy ht e =
    let m = crc_loop k before in
    let hm = crc_loop-IsCrc k before h hx in
    let e' : crc_loop m (a ∷ b ∷ after) ≡ crc_loop m (a' ∷ b' ∷ after) =
      sym (crc_loop-append k before (a ∷ b ∷ after))
      ∙ e
      ∙ crc_loop-append k before (a' ∷ b' ∷ after) in
    let step2 = λ (x y : ℕ) (p : x < 256) (q : y < 256).
      crc_step-IsCrc (crc_step m x) y (crc_step-IsCrc m x hm p) q in
    crc_step_twice_inj m a b a' b' hm ht (
      crc_loop_inj (crc_step (crc_step m a) b) (crc_step (crc_step m a') b') after
        (step2 a b ht.0 ht.1.0) (step2 a' b' ht.1.1.0 ht.1.1.1.0) hy e')

crchi_zero : crchi 0 ≡ 0
unfolding crchi
crchi_zero = refl

crclo_zero : crclo 0 ≡ 0
unfolding crclo
crclo_zero = refl

-- A round whose byte is the high byte of the checksum so far moves the low byte up.
crc_step_own : (k : Crc) → crc_step k k.hi ≡ record { hi = k.lo; lo = 0 }
unfolding crc_step
crc_step_own k =
    ap (λ i. record { hi = bit_xor k.lo (crchi i); lo = crclo i }) (xor_self k.hi)
    ∙ ap₂ (λ x y. record { hi = bit_xor k.lo x; lo = y }) crchi_zero crclo_zero
    ∙ ap (λ x. record { hi = x; lo = 0 }) (xor-zero k.lo)

crc_loop_own : (k : Crc) → crc_loop k (k.hi ∷ k.lo ∷ []) ≡ record { hi = 0; lo = 0 }
unfolding crc_loop
crc_loop_own k =
    ap (λ c. crc_step c k.lo) (crc_step_own k) ∙ crc_step_own (record { hi = k.lo; lo = 0 })

-- The checksum of a whole frame, its own two bytes included, is zero if the frame is accepted.
frame_residue :
    (body : List ℕ) (hi lo : ℕ)
    → check_crc_rtu body hi lo ≡ true
    → crc_loop crc_start (body ++ hi ∷ lo ∷ []) ≡ record { hi = 0; lo = 0 }
unfolding check_crc_rtu
frame_residue body hi lo e =
    let k = crc_loop crc_start body in
    let high : hi ≡ k.hi = ground (arith, e) in
    let low : lo ≡ k.lo = ground (arith, e) in
    crc_loop-append crc_start body (hi ∷ lo ∷ [])
    ∙ ap₂ (λ x y. crc_loop k (x ∷ y ∷ [])) high low
    ∙ crc_loop_own k

-- A frame is a body with the two bytes of its checksum behind it. If the checksum is right, the
-- frame is refused after any change of one byte or of two adjacent bytes anywhere in it: in the
-- body, in the checksum, or in the last byte of the one and the first of the other.
pub check_crc_rtu_detects :
    (before after body body' : List ℕ) (a b a' b' hi lo hi' lo' : ℕ)
    → IsBytes before
    → IsBytes after
    → IsBytes (a ∷ b ∷ a' ∷ b' ∷ [])
    → body ++ hi ∷ lo ∷ [] ≡ before ++ a ∷ b ∷ after
    → body' ++ hi' ∷ lo' ∷ [] ≡ before ++ a' ∷ b' ∷ after
    → check_crc_rtu body hi lo ≡ true
    → (a ≢ a') ⊎ (b ≢ b')
    → check_crc_rtu body' hi' lo' ≡ false
check_crc_rtu_detects before after body body' a b a' b' hi lo hi' lo' hx hy ht sent got good
      differ =
    elim (Bool-cases (check_crc_rtu body' hi' lo')) [
      | inl accepted ↦
          let same =
            pair_detected crc_start before after a b a' b' (omega arith, omega arith) hx hy ht
              (ap (crc_loop crc_start) (sym sent)
                ∙ frame_residue body hi lo good
                ∙ sym (frame_residue body' hi' lo' accepted)
                ∙ ap (crc_loop crc_start) got) in
          absurd (elim differ [ inl p ↦ p same.0 | inr p ↦ p same.1 ])
      | inr refused ↦ refused
    ]
