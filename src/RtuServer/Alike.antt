-- ===== src/RtuServer/Alike.antt =====
-- rtu_server_data_handler.cpp does not see how its two maps came about: what its methods do depends
-- on what is read in the maps, not on their entries.
use mathlib.Core.Path.{subst}
use modbus_scanner.Base.{
  ℕ, zero, suc, ◌≡◌, refl, sym, ◌∙◌, Bool, true, false, not, List, [], ◌∷◌, ◌++◌, Option, none,
  some, arith, ◌==◌, if◌then◌else◌,
}
use modbus_scanner.Defs
use modbus_scanner.Defs.{Buffer}
use modbus_scanner.RtuServer.Memory.{value, find-assign}
use modbus_scanner.RtuServer.Monad.{
  Server, M, Op, pure, ◌>>=◌, ◌>>◌, find, assign, add, get_coil, set_coil, get_reg, set_reg, start,
  start_read, send_pdu, mirror_pdu,
}
use modbus_scanner.RtuServer.Monad
use modbus_scanner.RtuServer.Replies.{at}

-- The same is read in two maps; a missing entry reads as the default.
abbrev pub SameRead : {V : Type 0} → V → List (ℕ × V) → List (ℕ × V) → Type 0
SameRead default m m' = (i : ℕ) → value default (find i m') ≡ value default (find i m)

-- Two servers that differ in the entries of their maps at most, and in these the same is read.
pub data Alike : Server → Server → Type 0 where
  alike :
      (s : Server) (c : List (ℕ × Bool)) (r : List (ℕ × ℕ))
      → SameRead false s.coils c
      → SameRead 0 s.regs r
      → Alike s (record s { coils = c; regs = r })

-- Two outcomes are both undefined, or have the same result and servers that are alike.
abbrev pub BothAlike : {A : Type 0} → Option (A × Server) → Option (A × Server) → Type 0
BothAlike none none = Unit
BothAlike none (some q) = ⊥
BothAlike (some p) none = ⊥
BothAlike (some (a, s)) (some (b, t)) = (a ≡ b) × Alike s t

-- From servers that are alike, the method has outcomes that are.
abbrev pub Blind : {A : Type 0} → M A → Type 0
Blind m = (s t : Server) → Alike s t → BothAlike (m s) (m t)

module _ {A B : Type 0} (f : A → M B) (next : (a : A) → Blind (f a)) where
  bind_case :
      (o p : Option (A × Server))
      → BothAlike o p
      → BothAlike
          (elim o [ none ↦ none | some (a, s) ↦ f a s ])
          (elim p [ none ↦ none | some (b, t) ↦ f b t ])
  bind_case none none h = tt
  bind_case none (some q) h = absurd h
  bind_case (some p) none h = absurd h
  bind_case (some (a, s)) (some (b, t)) h =
      subst (λ x. BothAlike (f a s) (f x t)) h.0 (next a s t h.1)

pub Blind-bind :
    {A B : Type 0} (m : M A) (f : A → M B) → Blind m → ((a : A) → Blind (f a)) → Blind (m >>= f)
Blind-bind m f first next s t h = bind_case f next (m s) (m t) (first s t h)

pub Blind-then : {B : Type 0} (m : M (Unit {0})) (k : M B) → Blind m → Blind k → Blind (m >> k)
Blind-then m k first next = Blind-bind m (λ _. k) first (λ _. next)

pub Blind-branch :
    {A : Type 0} (b : Bool) (m n : M A) → Blind m → Blind n → Blind (if b then m else n)
Blind-branch true m n p q = p
Blind-branch false m n p q = q

pub Blind-pure : {A : Type 0} (a : A) → Blind (pure a)
Blind-pure a s t h = (refl, h)

pub Blind-add : (c : ℕ) → Blind (add c)
unfolding add
Blind-add c s t (alike _ cs rs hc hr) = by_room (Defs.add s.output_buffer c)
  where
    by_room :
        (o : Option Buffer)
        → BothAlike
            (elim o [ none ↦ none | some b ↦ some (tt {0}, record s { output_buffer = b }) ])
            (elim o [
              | none ↦ none
              | some b ↦ some (tt {0}, record s { coils = cs; regs = rs; output_buffer = b })
            ])
    by_room none = tt
    by_room (some b) = (refl, alike (record s { output_buffer = b }) cs rs hc hr)

pub Blind-at : (xs : List ℕ) (i : ℕ) → Blind (at xs i)
unfolding at
Blind-at [] i s t h = tt
Blind-at (x ∷ xs) zero s t h = (refl, h)
Blind-at (x ∷ xs) (suc i) s t h = Blind-at xs i s t h

pub Blind-start : (op : Op) → Blind (start op)
Blind-start op s t (alike _ cs rs hc hr) =
    (refl, alike (record s { ops = s.ops ++ op ∷ [] }) cs rs hc hr)

module _ {V : Type 0} (default : V) where
  -- The map after an entry has been read.
  abbrev pub read_in : ℕ → List (ℕ × V) → List (ℕ × V)
  read_in i m = elim (find i m) [ none ↦ assign i default m | some v ↦ m ]

  pub read_in-SameRead : (i : ℕ) (m : List (ℕ × V)) → SameRead default m (read_in i m)
  read_in-SameRead i m j = ground (arith, find-assign i j default m)

  pub assign-SameRead :
      (i : ℕ) (v : V) (m m' : List (ℕ × V))
      → SameRead default m m'
      → SameRead default (assign i v m) (assign i v m')
  assign-SameRead i v m m' h j = ground (arith, find-assign i j v m, find-assign i j v m', h j)

  both_read :
      (i : ℕ) (m m' : List (ℕ × V))
      → SameRead default m m'
      → SameRead default (read_in i m) (read_in i m')
  both_read i m m' h j = read_in-SameRead i m' j ∙ h j ∙ sym (read_in-SameRead i m j)

-- A read gives what is read, and puts a missing entry into the map.
pub get_coil-read_in :
    (i : ℕ) (s : Server)
    → get_coil i s
      ≡ some (value false (find i s.coils), record s { coils = read_in false i s.coils })
unfolding get_coil
get_coil-read_in i s = ground arith

pub get_reg-read_in :
    (i : ℕ) (s : Server)
    → get_reg i s ≡ some (value 0 (find i s.regs), record s { regs = read_in 0 i s.regs })
unfolding get_reg
get_reg-read_in i s = ground arith

pub Blind-get_coil : (i : ℕ) → Blind (get_coil i)
Blind-get_coil i s t (alike _ cs rs hc hr) =
    rw (get_coil-read_in i s, get_coil-read_in i (record s { coils = cs; regs = rs }))
      (
        sym (hc i),
        alike (record s { coils = read_in false i s.coils }) (read_in false i cs) rs
            (both_read false i s.coils cs hc) hr,
      )

pub Blind-get_reg : (i : ℕ) → Blind (get_reg i)
Blind-get_reg i s t (alike _ cs rs hc hr) =
    rw (get_reg-read_in i s, get_reg-read_in i (record s { coils = cs; regs = rs }))
      (
        sym (hr i),
        alike (record s { regs = read_in 0 i s.regs }) cs (read_in 0 i rs) hc
            (both_read 0 i s.regs rs hr),
      )

pub Blind-set_coil : (i v : ℕ) → Blind (set_coil i v)
unfolding set_coil
Blind-set_coil i v s t (alike _ cs rs hc hr) =
    let b = not (v == 0) in
    (
      refl,
      alike (record s { coils = assign i b s.coils }) (assign i b cs) rs
          (assign-SameRead false i b s.coils cs hc) hr,
    )

pub Blind-set_reg : (i v : ℕ) → Blind (set_reg i v)
unfolding set_reg
Blind-set_reg i v s t (alike _ cs rs hc hr) = (
  refl,
  alike (record s { regs = assign i v s.regs }) cs (assign i v rs) hc
      (assign-SameRead 0 i v s.regs rs hr),
)

pub Blind-start_read : Blind start_read
unfolding start_read
Blind-start_read = Blind-start Monad.async_read_some

pub Blind-send_pdu : Blind send_pdu
unfolding send_pdu
Blind-send_pdu s t (alike _ cs rs hc hr) =
    Blind-start (Monad.async_write Monad.m_output_buffer s.output_buffer.actual_size) s _
      (alike s cs rs hc hr)

pub Blind-mirror_pdu : Blind mirror_pdu
unfolding mirror_pdu
Blind-mirror_pdu s t (alike _ cs rs hc hr) =
    Blind-start (Monad.async_write Monad.m_input_buffer s.input_buffer.actual_size) s _
      (alike s cs rs hc hr)
