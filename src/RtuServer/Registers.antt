-- ===== src/RtuServer/Registers.antt =====
-- The register replies of rtu_server_data_handler.cpp.
use mathlib.Core.Path.{subst}
use modbus_scanner.Base.{
  ◌⊎◌, inl, inr, ltb, ℕ, zero, suc, ◌+◌, ◌*◌, ◌≤◌, ◌<◌, ◌≡◌, refl, ◌∙◌, List, [], ◌∷◌, ◌++◌, none,
  some, arith, length, append-nil,
}
use modbus_scanner.Spelled.{Bool-cases}
use modbus_scanner.Defs.{buf_size}
use modbus_scanner.RtuServer.Memory.{Same, reg}
use modbus_scanner.RtuServer.Monad.{Server, M, ◌>>◌, add, send_pdu}
use modbus_scanner.RtuServer.Output.{Emits, Emits-nil, Emits-add, Emits-then, Emits-get_reg}
use modbus_scanner.RtuServer.Sending.{
  Sent, Replies, Replies-then, Replies-end, reply_fits, reply_overflows,
}
use modbus_scanner.RtuServer.Replies.{u8, u16, add_crc, add_hi_lo, f3_loop, reply_f3}
use modbus_scanner.Scanner.{Order, get_hi_lo}

-- The bytes of `n` registers of a memory from address `ix` on, addresses wrapping at 2 ^ 16.
abbrev pub reg_bytes : Order → (ℕ → ℕ) → ℕ → ℕ → List ℕ
reg_bytes order memory zero ix = []
reg_bytes order memory (suc n) ix =
    let r = get_hi_lo order (memory ix) in r.hi ∷ r.lo ∷ reg_bytes order memory n (u16 (ix + 1))

pub length-reg_bytes :
    (order : Order) (memory : ℕ → ℕ) (n ix : ℕ) → length (reg_bytes order memory n ix) ≡ 2 * n
length-reg_bytes order memory zero ix = refl
length-reg_bytes order memory (suc n) ix =
    omega (arith, length-reg_bytes order memory n (u16 (ix + 1)))

pub reg_bytes-ext :
    (order : Order) (memory memory' : ℕ → ℕ) (n ix : ℕ)
    → ((i : ℕ) → memory' i ≡ memory i)
    → reg_bytes order memory' n ix ≡ reg_bytes order memory n ix
reg_bytes-ext order memory memory' zero ix e = refl
reg_bytes-ext order memory memory' (suc n) ix e =
    rw (e ix, reg_bytes-ext order memory memory' n (u16 (ix + 1)) e)

module _ (order : Order) where
  pub Emits-hi_lo :
      (n : ℕ) (s : Server)
      → Emits (add_hi_lo order n) s ((get_hi_lo order n).hi ∷ (get_hi_lo order n).lo ∷ [])
  unfolding add_hi_lo
  Emits-hi_lo n s =
      let r = get_hi_lo order n in
      Emits-then (add r.hi) (add r.lo) s (r.hi ∷ []) (r.lo ∷ []) (Emits-add s r.hi)
        (λ t _. Emits-add t r.lo)

  Emits-f3_loop :
      (n ix : ℕ) (s : Server) → Emits (f3_loop order n ix) s (reg_bytes order (reg s) n ix)
  unfolding f3_loop
  Emits-f3_loop zero ix s = Emits-nil s
  Emits-f3_loop (suc n) ix s =
      let r = get_hi_lo order (reg s ix) in
      let more = f3_loop order n (u16 (ix + 1)) in
      let later = reg_bytes order (reg s) n (u16 (ix + 1)) in
      Emits-get_reg ix _ s (r.hi ∷ r.lo ∷ later) (λ t same.
        Emits-then (add_hi_lo order (reg s ix)) more t (r.hi ∷ r.lo ∷ []) later
          (Emits-hi_lo (reg s ix) t)
          (λ u same'.
            subst (Emits more u)
              (reg_bytes-ext order (reg s) (reg u) n (u16 (ix + 1))
                (λ i. same'.regs i ∙ same.regs i))
              (Emits-f3_loop n (u16 (ix + 1)) u)))

  abbrev f3_rest : ℕ → ℕ → M (Unit {0})
  f3_rest a q = add (u8 (q * 2)) >> (f3_loop order q a >> (add_crc >> send_pdu))

  Replies-f3_rest :
      (a q : ℕ) (s t : Server)
      → Same s t
      → Replies (f3_rest a q) t (u8 (q * 2) ∷ reg_bytes order (reg s) q a)
  Replies-f3_rest a q s t same =
      let values = reg_bytes order (reg s) q a in
      rw (append-nil values) at (
        Replies-then (add (u8 (q * 2))) _ t (u8 (q * 2) ∷ []) (values ++ [])
          (Emits-add t (u8 (q * 2)))
          (λ u p.
            Replies-then (f3_loop order q a) (add_crc >> send_pdu) u values []
              (subst (Emits (f3_loop order q a) u)
                (reg_bytes-ext order (reg s) (reg u) q a (λ i. p.regs i ∙ same.regs i))
                (Emits-f3_loop q a u))
              (λ v _. Replies-end v)))

-- Reading at most 509 holding registers: the reply is the device address, the function code, the
-- byte count modulo 256, the registers from the starting address on, each as the two bytes that
-- `get_hi_lo` calls `hi` and `lo`, and the checksum of all that; a write of just these bytes is started, and no coil, no register, nor
-- the scanner nor the input is changed.
pub reply_f3_fits :
    (order : Order) (fc starting_address quantity : ℕ) (s : Server)
    → length s.output_buffer.bytes ≡ buf_size
    → quantity ≤ 509
    → (t : Server) × (reply_f3 order fc starting_address quantity s ≡ some (tt, t))
      × Sent s t (
          s.dev_address
          ∷ fc
          ∷ u8 (quantity * 2)
          ∷ reg_bytes order (reg s) quantity starting_address)
unfolding reply_f3
reply_f3_fits order fc a q s whole room =
    reply_fits fc (f3_rest order a q) s _ whole (Replies-f3_rest order a q s)
      (omega (arith, length-reg_bytes order (reg s) q a))

-- Reading more than 509 holding registers, the reply is written past the end of the output
-- buffer.
reply_f3_overflows :
    (order : Order) (fc starting_address quantity : ℕ) (s : Server)
    → length s.output_buffer.bytes ≡ buf_size
    → 509 < quantity
    → reply_f3 order fc starting_address quantity s ≡ none
unfolding reply_f3
reply_f3_overflows order fc a q s whole over =
    reply_overflows fc (f3_rest order a q) s _ whole (Replies-f3_rest order a q s)
      (omega (arith, length-reg_bytes order (reg s) q a))

abbrev pub F3Outcome : Order → ℕ → ℕ → ℕ → Server → Type 0
F3Outcome order fc starting_address quantity s =
    let body =
      s.dev_address ∷ fc ∷ u8 (quantity * 2) ∷ reg_bytes order (reg s) quantity starting_address in
    ((quantity ≤ 509)
      × ((t : Server) × (reply_f3 order fc starting_address quantity s ≡ some (tt, t))
          × Sent s t body))
    ⊎ ((509 < quantity) × (reply_f3 order fc starting_address quantity s ≡ none))

-- Reading registers, for every quantity: up to 509, the reply has the device address, the function
-- code, the byte count modulo 256, the registers from the starting address on, each as the two bytes
-- that `get_hi_lo` calls `hi` and `lo`, with their addresses wrapping at 2^16, and the checksum of all that; a write of just these bytes
-- is started, and no coil, no register, nor the scanner nor the input is changed. Above 509, the
-- reply is written past the end of the output buffer.
pub reply_f3_lem :
    (order : Order) (fc starting_address quantity : ℕ) (s : Server)
    → length s.output_buffer.bytes ≡ buf_size
    → F3Outcome order fc starting_address quantity s
reply_f3_lem order fc a q s whole = elim (Bool-cases (ltb 509 q)) [
  | inl over ↦
      let many : 509 < q = ground (arith, over) in
      inr (many, reply_f3_overflows order fc a q s whole many)
  | inr room ↦
      let few : q ≤ 509 = ground (arith, room) in inl (few, reply_f3_fits order fc a q s whole few)
]
