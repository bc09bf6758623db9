-- ===== src/RtuServer/Output.antt =====
-- The output buffer of rtu_server_data_handler.cpp: what `add` appends, and when it writes past
-- the array.
use native.Mathlib.Decide.{dec_lt}
use modbus_scanner.Base.{
  ℕ, zero, suc, ◌+◌, ◌≤◌, ◌<◌, ◌≡◌, refl, ap, ◌∙◌, List, [], ◌∷◌, ◌++◌, none, some, arith, length,
  take, set, length-set, length-append, append-nil, append_assoc,
}
use modbus_scanner.Defs.{Buffer, contents, buf_size}
use modbus_scanner.Defs
use modbus_scanner.RtuServer.Memory.{
  get_reg_lem, get_reg-Same, get_reg-output, reg_read, Same, Same-refl, Same-trans, coil, reg,
}
use modbus_scanner.RtuServer.Monad.{Server, M, pure, ◌>>=◌, ◌>>◌, add, get_reg}

-- The bytes in use of the output buffer are `xs`.
pub record Holds (s : Server) (xs : List ℕ) : Type 0 where
  pub whole : length s.output_buffer.bytes ≡ buf_size
  pub used : s.output_buffer.actual_size ≡ length xs
  pub shown : contents s.output_buffer ≡ xs

take-set :
    (n : ℕ) (xs : List ℕ) (v : ℕ) → n < length xs → take (suc n) (set xs n v) ≡ take n xs ++ v ∷ []
take-set n [] v h = absurd (omega arith)
take-set zero (x ∷ xs) v h = refl
take-set (suc n) (x ∷ xs) v h = ap (◌∷◌ x) (take-set n xs v (omega arith))

abbrev pub added : Server → ℕ → Server
added s c = record s {
  output_buffer = record {
    bytes = set s.output_buffer.bytes s.output_buffer.actual_size c;
    actual_size = s.output_buffer.actual_size + 1;
  };
}

pub add_lem :
    (s : Server) (xs : List ℕ) (c : ℕ)
    → Holds s xs
    → length xs < buf_size
    → add c s ≡ some (tt, added s c)
unfolding add Defs.add
add_lem s xs c h room = ground (arith, h.whole, h.used)

pub add_full :
    (s : Server) (xs : List ℕ) (c : ℕ) → Holds s xs → buf_size ≤ length xs → add c s ≡ none
unfolding add Defs.add
add_full s xs c h full = ground (arith, h.whole, h.used)

pub added-Holds :
    (s : Server) (xs : List ℕ) (c : ℕ)
    → Holds s xs
    → length xs < buf_size
    → Holds (added s c) (xs ++ c ∷ [])
added-Holds s xs c h room = record {
  whole = length-set s.output_buffer.bytes s.output_buffer.actual_size c ∙ h.whole;
  used = omega (arith, h.used, length-append xs (c ∷ []));
  shown =
      ap (λ (n : ℕ). take n (set s.output_buffer.bytes s.output_buffer.actual_size c))
        (let e : s.output_buffer.actual_size + 1 ≡ suc s.output_buffer.actual_size = omega arith in
          e)
      ∙ take-set s.output_buffer.actual_size s.output_buffer.bytes c
          (omega (arith, h.whole, h.used))
      ∙ ap (λ ys. ys ++ c ∷ []) h.shown;
}

pub added-Same : (s : Server) (c : ℕ) → Same s (added s c)
unfolding coil reg
added-Same s c = record {
  coils = λ i. refl;
  regs = λ i. refl;
  scanner = refl;
  input = refl;
  address = refl;
  ops = refl;
}

pub Holds-output :
    (s t : Server) (xs : List ℕ) → t.output_buffer ≡ s.output_buffer → Holds s xs → Holds t xs
Holds-output s t xs e h = record { whole = rw e h.whole; used = rw e h.used; shown = rw e h.shown }

-- `m`, started in `s`, appends `ys` to the output buffer and changes nothing else that can be
-- read; where the buffer has no room for `ys` it writes past the array.
pub record Emits (m : M (Unit {0})) (s : Server) (ys : List ℕ) : Type 0 where
  pub fits :
      (xs : List ℕ)
      → Holds s xs
      → length xs + length ys ≤ buf_size
      → (t : Server) × (m s ≡ some (tt, t)) × Holds t (xs ++ ys) × Same s t
  pub overflows :
      (xs : List ℕ)
      → Holds s xs
      → length xs ≤ buf_size
      → buf_size < length xs + length ys
      → m s ≡ none

pub Emits-nil : (s : Server) → Emits (pure tt) s []
Emits-nil s = record {
  fits = λ xs h room. (s, refl, rw append-nil h, Same-refl s);
  overflows = λ xs h room full. absurd (omega arith);
}

pub Emits-add : (s : Server) (c : ℕ) → Emits (add c) s (c ∷ [])
Emits-add s c = record {
  fits = λ xs h room. (
    added s c,
    add_lem s xs c h (omega arith),
    added-Holds s xs c h (omega arith),
    added-Same s c,
  );
  overflows = λ xs h room full. add_full s xs c h (omega arith);
}

pub then_some :
    {A B : Type 0} (m : M A) (k : A → M B) {a : A} {s t : Server}
    → m s ≡ some (a, t)
    → (m >>= k) s ≡ k a t
then_some m k e = rw (e, ◌>>=◌)

pub then_none :
    {A B : Type 0} (m : M A) (k : A → M B) {s : Server} → m s ≡ none → (m >>= k) s ≡ none
then_none m k e = rw (e, ◌>>=◌)

pub Emits-then :
    (m k : M (Unit {0})) (s : Server) (ys zs : List ℕ)
    → Emits m s ys
    → ((t : Server) → Same s t → Emits k t zs)
    → Emits (m >> k) s (ys ++ zs)
Emits-then m k s ys zs first next = record {
  fits = λ xs h room.
      let (t, e, ht, same) = first.fits xs h (omega (arith, length-append ys zs)) in
      let (u, e', hu, same') =
        (next t same).fits (xs ++ ys) ht
          (omega (arith, length-append ys zs, length-append xs ys)) in
      (u, then_some m (λ _. k) e ∙ e', rw (append_assoc xs ys zs) at hu, Same-trans same same');
  overflows = λ xs h room full. elim (dec_lt buf_size (length xs + length ys)) [
    | yes over ↦ then_none m (λ _. k) (first.overflows xs h room over)
    | no fits ↦
        let (t, e, ht, same) = first.fits xs h (omega arith) in
        then_some m (λ _. k) e
        ∙ (next t same).overflows (xs ++ ys) ht (omega (arith, length-append xs ys))
            (omega (arith, length-append ys zs, length-append xs ys))
  ];
}

-- A read of the memory in front.
pub Emits-get_reg :
    (i : ℕ) (k : ℕ → M (Unit {0})) (s : Server) (ys : List ℕ)
    → ((t : Server) → Same s t → Emits (k (reg s i)) t ys)
    → Emits (get_reg i >>= k) s ys
Emits-get_reg i k s ys next =
    let t = reg_read s i in
    let same = get_reg-Same s i in
    let after = next t same in
    let e = then_some (get_reg i) k (get_reg_lem s i) in
    let moved = λ (xs : List ℕ) (h : Holds s xs). Holds-output s t xs (get_reg-output s i) h in
    record {
      fits = λ xs h room.
          let (u, e', hu, same') = after.fits xs (moved xs h) room in
          (u, e ∙ e', hu, Same-trans same same');
      overflows = λ xs h room full. e ∙ after.overflows xs (moved xs h) room full;
    }
