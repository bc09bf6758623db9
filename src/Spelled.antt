-- ===== src/Spelled.antt =====
-- The bytes of a request as the scanners keep them: one byte for each local variable.
use modbus_scanner.Base.{
  ℕ, ◌/◌, ◌%◌, ◌<◌, IsBytes, ◌≡◌, refl, sym, ap, ◌∙◌, ◌⊎◌, inl, inr, Bool, true, false, ◌||◌, List,
  [], ◌∷◌, ◌++◌, arith, ◌==◌, if◌then◌else◌, length,
}
use modbus_scanner.Defs.{Pdu}
use modbus_scanner.Request.{print, two_bytes, request_of}
use modbus_scanner.Scanner.{Order, combine, combine_lem}

pub record Locals : Type 0 where
  pub i16_1_hi : ℕ
  pub i16_1_lo : ℕ
  pub i16_2_hi : ℕ
  pub i16_2_lo : ℕ
  pub i16_3_hi : ℕ
  pub i16_3_lo : ℕ
  pub i16_4_hi : ℕ
  pub i16_4_lo : ℕ

abbrev pub six : ℕ → Locals → List ℕ
six fc l = fc ∷ l.i16_1_hi ∷ l.i16_1_lo ∷ l.i16_2_hi ∷ l.i16_2_lo ∷ []

abbrev pub ten : ℕ → Locals → List ℕ
ten fc l = six fc l ++ l.i16_3_hi ∷ l.i16_3_lo ∷ l.i16_4_hi ∷ l.i16_4_lo ∷ []

-- In front of the byte count.
abbrev pub spelled : ℕ → Locals → List ℕ
spelled fc l = if fc == 23 then ten fc l else six fc l

-- The function has a payload.
abbrev pub takes_payload : ℕ → Bool
takes_payload fc = fc == 23 || (fc == 15 || fc == 16)

pub Bool-cases : (b : Bool) → (b ≡ true) ⊎ (b ≡ false)
Bool-cases true = inl refl
Bool-cases false = inr refl

module _ (order : Order) where
  -- The numbers that every request has.
  pub record HasTwo (l : Locals) (p : Pdu) : Type 0 where
    pub first : p.i16_1 ≡ combine order l.i16_1_hi l.i16_1_lo
    pub second : p.i16_2 ≡ combine order l.i16_2_hi l.i16_2_lo

  -- The numbers that only function 23 has.
  pub record HasFour (l : Locals) (p : Pdu) : Type 0 where
    pub third : (p.fc == 23) ≡ true → p.i16_3 ≡ combine order l.i16_3_hi l.i16_3_lo
    pub fourth : (p.fc == 23) ≡ true → p.i16_4 ≡ combine order l.i16_4_hi l.i16_4_lo

  two :
      (hi lo n : ℕ) (rest : List ℕ)
      → hi < 256
      → lo < 256
      → n ≡ combine order hi lo
      → two_bytes n rest ≡ hi ∷ lo ∷ rest
  two hi lo n rest h l e =
      let high : n / 256 ≡ hi = omega (arith, e, combine_lem order hi lo) in
      let low : n % 256 ≡ lo = omega (arith, e, combine_lem order hi lo) in
      ap (λ x. x ∷ n % 256 ∷ rest) high ∙ ap (λ x. hi ∷ x ∷ rest) low

  module _ (l : Locals) (p : Pdu) (h : HasTwo l p) where
    -- The four bytes of the two numbers that every request has.
    four :
        (rest : List ℕ)
        → IsBytes (six p.fc l)
        → two_bytes p.i16_1 (two_bytes p.i16_2 rest)
          ≡ l.i16_1_hi ∷ l.i16_1_lo ∷ l.i16_2_hi ∷ l.i16_2_lo ∷ rest
    four rest small =
        two l.i16_1_hi l.i16_1_lo p.i16_1 (two_bytes p.i16_2 rest) small.1.0 small.1.1.0 h.first
        ∙ ap (λ xs. l.i16_1_hi ∷ l.i16_1_lo ∷ xs)
            (two l.i16_2_hi l.i16_2_lo p.i16_2 rest small.1.1.1.0 small.1.1.1.1.0 h.second)

    pub short_request :
        IsBytes (six p.fc l) → takes_payload p.fc ≡ false → six p.fc l ≡ print (request_of p)
    unfolding request_of
    short_request small none_taken =
        let n : (p.fc == 23) ≡ false = ground (arith, none_taken) in
        let m : (p.fc == 15 || p.fc == 16) ≡ false = ground (arith, none_taken) in
        rw (n, m) (sym (ap (λ xs. p.fc ∷ xs) (four [] small)))

    pub long_request :
        IsBytes (spelled p.fc l)
        → takes_payload p.fc ≡ true
        → HasFour l p
        → spelled p.fc l ++ length p.payload ∷ p.payload ≡ print (request_of p)
    unfolding request_of
    long_request small taken g = elim (Bool-cases (p.fc == 23)) [
      | inl e ↦
          let b : IsBytes (ten p.fc l) = rw e at small in
          rw e (
            sym (
              ap (λ xs. 23 ∷ xs)
                (four (two_bytes p.i16_3 (two_bytes p.i16_4 counted)) (first_six b)
                  ∙ ap (λ xs. l.i16_1_hi ∷ l.i16_1_lo ∷ l.i16_2_hi ∷ l.i16_2_lo ∷ xs)
                      (two l.i16_3_hi l.i16_3_lo p.i16_3 (two_bytes p.i16_4 counted) b.1.1.1.1.1.0
                          b.1.1.1.1.1.1.0 (g.third e)
                        ∙ ap (λ xs. l.i16_3_hi ∷ l.i16_3_lo ∷ xs)
                            (two l.i16_4_hi l.i16_4_lo p.i16_4 counted b.1.1.1.1.1.1.1.0
                              b.1.1.1.1.1.1.1.1.0 (g.fourth e))))
              ∙ ap (λ f. f ∷ ten_tail) (sym (to_eq e))))
      | inr e ↦
          let takes : (p.fc == 15 || p.fc == 16) ≡ true = rw e at taken in
          let b : IsBytes (six p.fc l) = rw e at small in
          rw (e, takes) (sym (ap (λ xs. p.fc ∷ xs) (four counted b)))
    ]
      where
        first_six : IsBytes (ten p.fc l) → IsBytes (six p.fc l)
        first_six b = (b.0, (b.1.0, (b.1.1.0, (b.1.1.1.0, (b.1.1.1.1.0, tt)))))

        counted : List ℕ
        counted = length p.payload ∷ p.payload

        ten_tail : List ℕ
        ten_tail =
            l.i16_1_hi ∷ l.i16_1_lo ∷ l.i16_2_hi ∷ l.i16_2_lo ∷ l.i16_3_hi ∷ l.i16_3_lo ∷ l.i16_4_hi
            ∷ l.i16_4_lo ∷ counted

        to_eq : (p.fc == 23) ≡ true → p.fc ≡ 23
        to_eq e = ground (arith, e)
