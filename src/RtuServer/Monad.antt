-- ===== src/RtuServer/Monad.antt =====
-- The members of `rtu_server_data_handler_c`, its methods as state passing, and its two maps.
use modbus_scanner.Base.{
  ℕ, Bool, false, not, List, [], ◌∷◌, ◌++◌, Option, none, some, ◌==◌, if◌then◌else◌,
}
use modbus_scanner.Defs.{Buffer}
use modbus_scanner.Defs
use modbus_scanner.Rtu.{Scanner}

-- Which buffer an asynchronous write sends, by reference: its bytes are read when it runs.
pub data Which : Type 0 where
  m_input_buffer m_output_buffer : Which

-- An asynchronous operation that has been started.
pub data Op : Type 0 where
  async_read_some : Op
  async_write : Which → ℕ → Op

pub record Server : Type 0 where
  pub coils : List (ℕ × Bool)
  pub regs : List (ℕ × ℕ)
  pub modbus_scanner : Scanner
  pub input_buffer : Buffer
  pub output_buffer : Buffer
  pub dev_address : ℕ
  pub ops : List Op  -- started so far

-- `none` is undefined behaviour: a write past an array, or a read past a vector.
abbrev pub M : Type 0 → Type 0
M A = Server → Option (A × Server)

abbrev pub pure : {A : Type 0} → A → M A
pure a s = some (a, s)

infixl 5 ◌>>=◌ ◌>>◌
abbrev pub ◌>>=◌ : {A B : Type 0} → M A → (A → M B) → M B
◌>>=◌ m f s = elim (m s) [ none ↦ none | some (a, s') ↦ f a s' ]

abbrev pub ◌>>◌ : {B : Type 0} → M (Unit {0}) → M B → M B
m >> k = m >>= λ _. k

-- `std::map`: the first entry for a key is its value.
module _ {V : Type 0} where
  unfoldable pub find : ℕ → List (ℕ × V) → Option V
  find k [] = none
  find k ((j, v) ∷ m) = if j == k then some v else find k m

  -- `m[k] = v`
  unfoldable pub assign : ℕ → V → List (ℕ × V) → List (ℕ × V)
  assign k v [] = (k, v) ∷ []
  assign k v ((j, w) ∷ m) = if j == k then (k, v) ∷ m else (j, w) ∷ assign k v m

-- `m_output_buffer.add`
unfoldable pub add : ℕ → M (Unit {0})
add uc s = elim (Defs.add s.output_buffer uc) [
  | none ↦ none
  | some b ↦ some (tt, record s { output_buffer = b })
]

unfoldable pub get_coil : ℕ → M Bool
unfolding find assign
get_coil index s = elim (find index s.coils) [
  | none ↦ some (false, record s { coils = assign index false s.coils })
  | some v ↦ some (v, s)
]

unfoldable pub set_coil : ℕ → ℕ → M (Unit {0})
unfolding assign
set_coil index val s = some (tt, record s { coils = assign index (not (val == 0)) s.coils })

unfoldable pub get_reg : ℕ → M ℕ
unfolding find assign
get_reg index s = elim (find index s.regs) [
  | none ↦ some (0, record s { regs = assign index 0 s.regs })
  | some v ↦ some (v, s)
]

unfoldable pub set_reg : ℕ → ℕ → M (Unit {0})
unfolding assign
set_reg index val s = some (tt, record s { regs = assign index val s.regs })

abbrev pub start : Op → M (Unit {0})
start op s = some (tt, record s { ops = s.ops ++ op ∷ [] })

-- `start_read`, `send_pdu` and `mirror_pdu`.
unfoldable pub start_read : M (Unit {0})
start_read = start async_read_some

unfoldable pub send_pdu : M (Unit {0})
send_pdu s = start (async_write m_output_buffer s.output_buffer.actual_size) s

unfoldable pub mirror_pdu : M (Unit {0})
mirror_pdu s = start (async_write m_input_buffer s.input_buffer.actual_size) s
