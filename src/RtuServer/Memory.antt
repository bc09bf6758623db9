-- ===== src/RtuServer/Memory.antt =====
-- Coils and registers of rtu_server_data_handler.cpp as memories: a missing entry of a map reads
-- as false or 0, and reading it adds it without changing what is read.
use modbus_scanner.Base.{
  ℕ, ◌≡◌, refl, ◌∙◌, Bool, false, List, [], ◌∷◌, Option, none, some, arith, ◌==◌, if◌then◌else◌,
}
use modbus_scanner.RtuServer.Monad.{Server, find, assign, get_coil, get_reg}

module _ {V : Type 0} where
  abbrev pub value : V → Option V → V
  value d none = d
  value d (some v) = v

  pub find-assign :
      (k j : ℕ) (v : V) (m : List (ℕ × V))
      → find j (assign k v m) ≡ (if k == j then some v else find j m)
  unfolding find assign
  find-assign k j v [] = refl
  find-assign k j v ((i, w) ∷ m) = ground (arith, find-assign k j v m)

-- What a client can read.
unfoldable pub coil : Server → ℕ → Bool
coil s i = value false (find i s.coils)

unfoldable pub reg : Server → ℕ → ℕ
reg s i = value 0 (find i s.regs)

-- `t` reads as `s` does, and differs from it in the output buffer at most.
pub record Same (s t : Server) : Type 0 where
  pub coils : (i : ℕ) → coil t i ≡ coil s i
  pub regs : (i : ℕ) → reg t i ≡ reg s i
  pub scanner : t.modbus_scanner ≡ s.modbus_scanner
  pub input : t.input_buffer ≡ s.input_buffer
  pub address : t.dev_address ≡ s.dev_address
  pub ops : t.ops ≡ s.ops

pub Same-refl : (s : Server) → Same s s
Same-refl s = record {
  coils = λ i. refl;
  regs = λ i. refl;
  scanner = refl;
  input = refl;
  address = refl;
  ops = refl;
}

pub Same-trans : {s t u : Server} → Same s t → Same t u → Same s u
Same-trans p q = record {
  coils = λ i. q.coils i ∙ p.coils i;
  regs = λ i. q.regs i ∙ p.regs i;
  scanner = q.scanner ∙ p.scanner;
  input = q.input ∙ p.input;
  address = q.address ∙ p.address;
  ops = q.ops ∙ p.ops;
}

-- After `get_reg`.
abbrev pub reg_read : Server → ℕ → Server
reg_read s i = elim (find i s.regs) [ none ↦ record s { regs = assign i 0 s.regs } | some v ↦ s ]

pub get_reg_lem : (s : Server) (i : ℕ) → get_reg i s ≡ some (reg s i, reg_read s i)
unfolding get_reg reg
get_reg_lem s i = ground arith

pub get_reg-Same : (s : Server) (i : ℕ) → Same s (reg_read s i)
unfolding reg coil
get_reg-Same s i = record {
  coils = λ j. ground arith;
  regs = λ j. ground (arith, find-assign i j 0 s.regs);
  scanner = ground arith;
  input = ground arith;
  address = ground arith;
  ops = ground arith;
}

pub get_reg-output : (s : Server) (i : ℕ) → (reg_read s i).output_buffer ≡ s.output_buffer
get_reg-output s i = ground arith

abbrev pub coil_read : Server → ℕ → Server
coil_read s i = elim (find i s.coils) [
  | none ↦ record s { coils = assign i false s.coils }
  | some v ↦ s
]

pub get_coil_lem : (s : Server) (i : ℕ) → get_coil i s ≡ some (coil s i, coil_read s i)
unfolding get_coil coil
get_coil_lem s i = ground arith

pub get_coil-Same : (s : Server) (i : ℕ) → Same s (coil_read s i)
unfolding reg coil
get_coil-Same s i = record {
  coils = λ j. ground (arith, find-assign i j false s.coils);
  regs = λ j. ground arith;
  scanner = ground arith;
  input = ground arith;
  address = ground arith;
  ops = ground arith;
}

pub get_coil-output : (s : Server) (i : ℕ) → (coil_read s i).output_buffer ≡ s.output_buffer
get_coil-output s i = ground arith

-- A write changes one coil or one register, and nothing else that can be read.
pub reg-assign :
    (s : Server) (i j v : ℕ)
    → reg (record s { regs = assign i v s.regs }) j ≡ (if i == j then v else reg s j)
unfolding reg
reg-assign s i j v = ground (arith, find-assign i j v s.regs)

pub coil-assign :
    (s : Server) (i j : ℕ) (v : Bool)
    → coil (record s { coils = assign i v s.coils }) j ≡ (if i == j then v else coil s j)
unfolding coil
coil-assign s i j v = ground (arith, find-assign i j v s.coils)
