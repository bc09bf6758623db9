-- ===== src/RtuServer/Device.antt =====
-- What rtu_server_data_handler.cpp promises its clients, with no buffers and no byte streams: a
-- device of coils and registers that carries out one request after the other.
use modbus_scanner.Base.{
  ℕ, zero, suc, ◌+◌, ◌*◌, ◌/◌, ◌%◌, ◌≤◌, ◌<◌, ◌≡◌, refl, ap, ◌∙◌, Bool, false, not, List, [], ◌∷◌,
  ◌++◌, arith, ◌==◌, ltb, if◌then◌else◌, length, take, replicate, All, IsBytes,
}
use modbus_scanner.Request.{Request, short, write, read_write}
use modbus_scanner.RtuServer.Bits.{unpack, padding}
use modbus_scanner.RtuServer.Cells.{stored, window}
use modbus_scanner.RtuServer.Replies.{u8, u16}
use modbus_scanner.RtuServer.Writing.{payload_of}

pub record Device : Type 0 where
  pub coils : ℕ → Bool
  pub regs : ℕ → ℕ

pub data Answer : Type 0 where
  coil_values : List Bool → Answer
  reg_values : List ℕ → Answer
  confirmed : ℕ → ℕ → Answer  -- the starting address and the quantity
  echo : Answer

-- The registers in a payload, two bytes for each.
abbrev pub regs_of : List ℕ → List ℕ
regs_of [] = []
regs_of (hi ∷ []) = []
regs_of (hi ∷ lo ∷ rest) = (hi * 256 + lo) ∷ regs_of rest

-- What a request changes.
abbrev pub updated : Request → Device → Device
updated (short fc a v) d =
    if fc == 5
    then record d { coils = stored (not (v == 0) ∷ []) a d.coils }
    else if fc == 6
    then record d { regs = stored (v ∷ []) a d.regs }
    else d
updated (write fc a q bytes) d =
    if fc == 15
    then record d { coils = stored (take q (unpack bytes)) a d.coils }
    else record d { regs = stored (regs_of bytes) a d.regs }
updated (read_write ra q wa n bytes) d = record d { regs = stored (regs_of bytes) wa d.regs }

-- What a request is answered with; function 23 writes before it reads.
abbrev pub answer_to : Request → Device → Answer
answer_to (short fc a q) d =
    if ltb fc 3
    then coil_values (window d.coils q a)
    else if ltb fc 5
    then reg_values (window d.regs q a)
    else echo
answer_to (write fc a q bytes) d = confirmed a q
answer_to (read_write ra q wa n bytes) d =
    reg_values (window (stored (regs_of bytes) wa d.regs) q ra)

abbrev pub function_of : Request → ℕ
function_of (short fc a b) = fc
function_of (write fc a b bytes) = fc
function_of (read_write a b c d bytes) = 23

-- The requests that the server has room for, with byte counts that go with their quantities.
abbrev pub IsServed : Request → Type 0
IsServed (short fc a q) = if ltb fc 3 then q ≤ 8152 else if ltb fc 5 then q ≤ 509 else Unit {0}
IsServed (write fc a q bytes) =
    IsBytes bytes × (if fc == 15 then Unit {0} else length bytes ≡ 2 * q)
IsServed (read_write ra q wa n bytes) = IsBytes bytes × (length bytes ≡ 2 * n) × (q ≤ 509)

-- How an answer looks on the line, in front of the checksum.
abbrev pub Shows : ℕ → ℕ → Answer → List ℕ → Type 0
Shows address fc (coil_values bits) body =
    (bytes : List ℕ) × (body ≡ address ∷ fc ∷ u8 (length bytes) ∷ bytes)
    × IsBytes bytes
    × (unpack bytes ≡ bits ++ replicate (padding (length bits)) false)
Shows address fc (reg_values vs) body = body ≡ address ∷ fc ∷ u8 (2 * length vs) ∷ payload_of vs
Shows address fc (confirmed a q) body =
    body ≡ address ∷ fc ∷ a / 256 ∷ a % 256 ∷ q / 256 ∷ q % 256 ∷ []
Shows address fc echo body = ⊥

pub payload_of-regs_of :
    (n : ℕ) (bytes : List ℕ)
    → length bytes ≡ 2 * n
    → IsBytes bytes
    → (length (regs_of bytes) ≡ n)
      × (payload_of (regs_of bytes) ≡ bytes)
      × All (λ v. v < 65536) (regs_of bytes)
payload_of-regs_of n [] e h = (omega arith, refl, tt)
payload_of-regs_of n (x ∷ []) e h = absurd (omega arith)
payload_of-regs_of zero (x ∷ y ∷ bytes) e h = absurd (omega arith)
payload_of-regs_of (suc n) (x ∷ y ∷ bytes) e h =
    let (many, same, small) = payload_of-regs_of n bytes (omega arith) h.1.1 in
    let hi : (x * 256 + y) / 256 ≡ x = omega (arith, h.1.0) in
    let lo : (x * 256 + y) % 256 ≡ y = omega (arith, h.1.0) in
    (
      omega (arith, many),
      ap (λ (v : ℕ). v ∷ (x * 256 + y) % 256 ∷ payload_of (regs_of bytes)) hi
          ∙ ap (λ (v : ℕ). x ∷ v ∷ payload_of (regs_of bytes)) lo
          ∙ ap (λ ys. x ∷ y ∷ ys) same,
      (omega (arith, h.0, h.1.0), small),
    )

-- A memory of 16-bit numbers stays one.
pub stored-small :
    (vs : List ℕ) (a : ℕ) (memory : ℕ → ℕ)
    → All (λ v. v < 65536) vs
    → ((i : ℕ) → memory i < 65536)
    → (j : ℕ) → stored vs a memory j < 65536
stored-small [] a memory h m j = m j
stored-small (v ∷ vs) a memory h m j =
    stored-small vs (u16 (a + 1)) (λ i. if a == i then v else memory i) h.1
      (λ i. ground (arith, h.0, m i)) j

pub window-small :
    (memory : ℕ → ℕ) (n a : ℕ)
    → ((i : ℕ) → memory i < 65536)
    → All (λ v. v < 65536) (window memory n a)
window-small memory zero a m = tt
window-small memory (suc n) a m = (m a, window-small memory n (u16 (a + 1)) m)
