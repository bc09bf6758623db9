-- ===== src/RtuServer/Bits.antt =====
-- Bits of bytes, the lowest first, as rtu_server_data_handler.cpp packs and unpacks coils.
use modbus_scanner.Base.{
  ℕ, zero, suc, ◌+◌, ◌*◌, ◌/◌, ◌%◌, ◌^◌, ◌<◌, ◌≡◌, refl, sym, ap, ◌∙◌, Bool, true, false, ◌&&◌,
  List, [], ◌∷◌, ◌++◌, append_assoc, append-nil, arith, ltb, ◌==◌, ==_iff, ltb→lt, ◌-◌,
  if◌then◌else◌, bit_and, bit_or, length, replicate, IsBytes, holds_below, holds_below_sound,
}
use modbus_scanner.RtuServer.Replies.{u8}
use native.Mathlib.Nat.{pow-suc}
use native.Mathlib.Decide.{dec_lt}
use mathlib.Core.Path.{subst}

-- The lowest `n` bits of a number.
abbrev pub bits_of : ℕ → ℕ → List Bool
bits_of zero v = []
bits_of (suc n) v = (v % 2 == 1) ∷ bits_of n (v / 2)

-- The bits of bytes in a row.
abbrev pub unpack : List ℕ → List Bool
unpack [] = []
unpack (v ∷ vs) = bits_of 8 v ++ unpack vs

-- The facts about bit `k` of a byte, checked for every byte and every bit.
bit_test : ℕ → ℕ → Bool
bit_test k v =
    (if bit_and v (2 ^ k) == 0 then 0 else 1) == v / 2 ^ k % 2
    && v / 2 ^ k / 2 == v / 2 ^ suc k
    && (if ltb v (2 ^ k) then bit_or v (2 ^ k) else v + 2 ^ k) == v + 2 ^ k

bits_all : holds_below (λ k. holds_below (bit_test k) 256) 8 ≡ true
unfolding holds_below bit_test
bits_all = refl

bit_test_lem : (k v : ℕ) → k < 8 → v < 256 → bit_test k v ≡ true
bit_test_lem k v h l =
    holds_below_sound (bit_test k) 256 v l
      (holds_below_sound (λ k. holds_below (bit_test k) 256) 8 k h bits_all)

module _ (k v : ℕ) (h : k < 8) (l : v < 256) where
  pub bit_and-two_pow : (if bit_and v (2 ^ k) == 0 then 0 else 1) ≡ v / 2 ^ k % 2
  unfolding bit_test
  bit_and-two_pow = ground (arith, bit_test_lem k v h l)

  pub div-two_pow : v / 2 ^ k / 2 ≡ v / 2 ^ suc k
  unfolding bit_test
  div-two_pow = ground (arith, bit_test_lem k v h l)

  pub bit_or-two_pow : v < 2 ^ k → bit_or v (2 ^ k) ≡ v + 2 ^ k
  unfolding bit_test
  bit_or-two_pow small = ground (arith, bit_test_lem k v h l)

two_pow_test : ℕ → Bool
two_pow_test k = u8 (2 ^ k) == 2 ^ k && u8 (2 ^ k * 2) == u8 (2 ^ suc k)

two_pow_all : holds_below two_pow_test 8 ≡ true
unfolding holds_below two_pow_test
two_pow_all = refl

pub u8-two_pow : (k : ℕ) → k < 8 → (u8 (2 ^ k) ≡ 2 ^ k) × (u8 (2 ^ k * 2) ≡ u8 (2 ^ suc k))
unfolding two_pow_test
u8-two_pow k h = ground (arith, holds_below_sound two_pow_test 8 k h two_pow_all)

halves :
    (k v : ℕ) (b : Bool)
    → let w = v + (if b then 2 ^ suc k else 0) in
      (w % 2 ≡ v % 2) × (w / 2 ≡ v / 2 + (if b then 2 ^ k else 0))
halves k v true = omega (arith, pow-suc 2 k)
halves k v false = omega arith

-- Setting bit `k` above a number appends that bit.
pub bits_of-set :
    (k v : ℕ) (b : Bool)
    → v < 2 ^ k
    → bits_of (suc k) (v + (if b then 2 ^ k else 0)) ≡ bits_of k v ++ b ∷ []
bits_of-set zero v true h = ground arith
bits_of-set zero v false h = ground arith
bits_of-set (suc k) v b h =
    let w = v + (if b then 2 ^ suc k else 0) in
    let e = halves k v b in
    ap (λ x. (x == 1) ∷ bits_of (suc k) (w / 2)) e.0
    ∙ ap (λ x. (v % 2 == 1) ∷ bits_of (suc k) x) e.1
    ∙ ap (λ bs. (v % 2 == 1) ∷ bs) (bits_of-set k (v / 2) b (omega (arith, pow-suc 2 k)))

pub bits_of-zero : (n : ℕ) → bits_of n 0 ≡ replicate n false
bits_of-zero zero = refl
bits_of-zero (suc n) = ap (λ bs. false ∷ bs) (bits_of-zero n)

-- Above the bits that are set there are zeros.
pub bits_of-pad : (k n v : ℕ) → v < 2 ^ k → bits_of (k + n) v ≡ bits_of k v ++ replicate n false
bits_of-pad zero n v h =
    let nothing : v ≡ 0 = omega arith in
    ap (λ m. bits_of m v) (let e : 0 + n ≡ n = omega arith in e)
    ∙ ap (bits_of n) nothing
    ∙ bits_of-zero n
bits_of-pad (suc k) n v h =
    ap (λ m. bits_of m v) (let e : suc k + n ≡ suc (k + n) = omega arith in e)
    ∙ ap (λ bs. (v % 2 == 1) ∷ bs) (bits_of-pad k n (v / 2) (omega (arith, pow-suc 2 k)))

-- The bits in groups of eight, as bytes: `byte` has `k` bits so far, and the last byte is filled
-- up with zeros.
abbrev last_byte : ℕ → ℕ → List ℕ
last_byte byte zero = []
last_byte byte (suc k) = byte ∷ []

unfoldable pub pack : ℕ → ℕ → List Bool → List ℕ
pack byte k [] = last_byte byte k
pack byte k (b ∷ bs) =
    let byte' = byte + (if b then 2 ^ k else 0) in
    elim (k + 1 == 8) [ true ↦ byte' ∷ pack 0 0 bs | false ↦ pack byte' (k + 1) bs ]

module _ (byte k : ℕ) (b : Bool) (bs : List Bool) where
  pub pack-full : k + 1 ≡ 8 → pack byte k (b ∷ bs) ≡ (byte + (if b then 2 ^ k else 0)) ∷ pack 0 0 bs
  unfolding pack
  pack-full e = rw ((==_iff (k + 1) 8).1 e, pack)

  pub pack-more :
      k + 1 < 8 → pack byte k (b ∷ bs) ≡ pack (byte + (if b then 2 ^ k else 0)) (k + 1) bs
  unfolding pack
  pack-more h = ground arith

  pub set_bound : byte < 2 ^ k → byte + (if b then 2 ^ k else 0) < 2 ^ (k + 1)
  set_bound h = ground (arith, double)
    where
      double : 2 ^ (k + 1) ≡ 2 * 2 ^ k
      double =
          ap (λ (n : ℕ). 2 ^ n) (let e : k + 1 ≡ suc k = omega arith in e)
          ∙ omega (arith, pow-suc 2 k)

power_all : holds_below (λ k. ltb (2 ^ k) 256) 8 ≡ true
unfolding holds_below
power_all = refl

pub small_power : (k : ℕ) → k < 8 → 2 ^ k < 256
small_power k h = ltb→lt (2 ^ k) 256 (holds_below_sound (λ k. ltb (2 ^ k) 256) 8 k h power_all)

pub length-pack :
    (byte k : ℕ) (bs : List Bool) → k < 8 → length (pack byte k bs) ≡ (k + length bs + 7) / 8
length-pack byte zero [] h = unfold pack in refl
length-pack byte (suc k) [] h = unfold pack in omega arith
length-pack byte k (b ∷ bs) h = elim (dec_lt (k + 1) 8) [
  | no full ↦
      ap length (pack-full byte k b bs (omega arith))
      ∙ omega (arith, length-pack 0 0 bs (omega arith))
  | yes more ↦
      ap length (pack-more byte k b bs more)
      ∙ length-pack (byte + (if b then 2 ^ k else 0)) (k + 1) bs more
      ∙ omega arith
]

-- How many zeros fill up the last byte behind `n` bits.
abbrev pub padding : ℕ → ℕ
padding n = (n + 7) / 8 * 8 - n

-- The bytes `out` hold the lowest `k` bits of `byte`, then `bs`, then zeros.
pub record IsPacked (byte k : ℕ) (bs : List Bool) (out : List ℕ) : Type 0 where
  pub bytes : IsBytes out
  pub bits : unpack out ≡ bits_of k byte ++ (bs ++ replicate (padding (k + length bs)) false)

pack-nil : (byte k : ℕ) → k < 8 → byte < 2 ^ k → IsPacked byte k [] (pack byte k [])
unfolding pack
pack-nil byte zero h l = record { bytes = tt; bits = refl }
pack-nil byte (suc k) h l =
    let whole : suc k + (7 - k) ≡ 8 = omega arith in
    let rest : 7 - k ≡ padding (suc k + 0) = omega arith in
    record {
      bytes = (omega (arith, small_power (suc k) h), tt);
      bits =
          append-nil (bits_of 8 byte)
          ∙ ap (λ n. bits_of n byte) (sym whole)
          ∙ bits_of-pad (suc k) (7 - k) byte l
          ∙ ap (λ n. bits_of (suc k) byte ++ replicate n false) rest;
    }

pub pack-IsPacked :
    (byte k : ℕ) (bs : List Bool) → k < 8 → byte < 2 ^ k → IsPacked byte k bs (pack byte k bs)
pack-IsPacked byte k [] h l = pack-nil byte k h l
pack-IsPacked byte k (b ∷ bs) h l =
    let byte' = byte + (if b then 2 ^ k else 0) in
    let bound = set_bound byte k b bs l in
    elim (dec_lt (k + 1) 8) [
      | no full ↦
          let end : k + 1 ≡ 8 = omega arith in
          let end' : suc k ≡ 8 = omega arith in
          let ih = pack-IsPacked 0 0 bs (omega arith) (omega arith) in
          let fill : padding (0 + length bs) ≡ padding (k + suc (length bs)) = omega arith in
          subst (IsPacked byte k (b ∷ bs)) (sym (pack-full byte k b bs end)) (record {
            bytes = (omega (arith, ap (λ (n : ℕ). 2 ^ n) end, bound), ih.bytes);
            bits =
                ap (λ xs. xs ++ unpack (pack 0 0 bs))
                  (ap (λ n. bits_of n byte') (sym end') ∙ bits_of-set k byte b l)
                ∙ append_assoc (bits_of k byte) (b ∷ []) (unpack (pack 0 0 bs))
                ∙ ap (λ xs. bits_of k byte ++ (b ∷ xs))
                    (ih.bits ∙ ap (λ n. bs ++ replicate n false) fill);
          })
      | yes more ↦
          let ih = pack-IsPacked byte' (k + 1) bs more bound in
          subst (IsPacked byte k (b ∷ bs)) (sym (pack-more byte k b bs more)) (record {
            bytes = ih.bytes;
            bits =
                let tail = bs ++ replicate (padding (k + 1 + length bs)) false in
                let grow : k + 1 ≡ suc k = omega arith in
                let fill : padding (k + 1 + length bs) ≡ padding (k + suc (length bs)) =
                  omega arith in
                ih.bits
                ∙ ap (λ xs. xs ++ tail) (ap (λ n. bits_of n byte') grow ∙ bits_of-set k byte b l)
                ∙ append_assoc (bits_of k byte) (b ∷ []) tail
                ∙ ap (λ n. bits_of k byte ++ (b ∷ (bs ++ replicate n false))) fill;
          })
    ]
