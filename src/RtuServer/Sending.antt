-- ===== src/RtuServer/Sending.antt =====
-- How the replies of rtu_server_data_handler.cpp begin and end: the header, the checksum, and the
-- start of the write.
use mathlib.Core.Path.{ap₂}
use native.Mathlib.Decide.{dec_lt}
use modbus_scanner.Base.{
  ℕ, ◌+◌, ◌≤◌, ◌<◌, ◌≡◌, refl, ap, ◌∙◌, List, [], ◌∷◌, ◌++◌, none, some, arith, length,
  length-append, append_assoc, append-nil,
}
use modbus_scanner.Crc.{calc_crc_rtu, crc_loop, crc_start}
use modbus_scanner.Defs.{contents, buf_size, set_actual_size}
use modbus_scanner.Rtu.Frame.{crc_bytes}
use modbus_scanner.RtuServer.Memory.{Same, coil, reg}
use modbus_scanner.RtuServer.Monad.{Server, M, async_write, m_output_buffer, ◌>>◌, add, send_pdu}
use modbus_scanner.RtuServer.Output.{Holds, Emits, Emits-add, Emits-then, then_some, then_none}
use modbus_scanner.RtuServer.Replies.{reply_header, add_crc}

-- From `s` to `t`: `body` with its checksum stands in the output buffer, a write of just that has
-- been started, the memory, the scanner, the input and the address are as before, and the output
-- buffer has its size.
pub record Sent (s t : Server) (body : List ℕ) : Type 0 where
  pub shown : contents t.output_buffer ≡ body ++ crc_bytes body
  pub started : t.ops ≡ s.ops ++ async_write m_output_buffer (length body + 2) ∷ []
  pub coils : (i : ℕ) → coil t i ≡ coil s i
  pub regs : (i : ℕ) → reg t i ≡ reg s i
  pub scanner : t.modbus_scanner ≡ s.modbus_scanner
  pub input : t.input_buffer ≡ s.input_buffer
  pub address : t.dev_address ≡ s.dev_address
  pub whole : length t.output_buffer.bytes ≡ buf_size

Sent-after : {s t u : Server} (body : List ℕ) → Same s t → Sent t u body → Sent s u body
Sent-after body p q = record {
  shown = q.shown;
  started = q.started ∙ ap (λ ops. ops ++ async_write m_output_buffer (length body + 2) ∷ []) p.ops;
  coils = λ i. q.coils i ∙ p.coils i;
  regs = λ i. q.regs i ∙ p.regs i;
  scanner = q.scanner ∙ p.scanner;
  input = q.input ∙ p.input;
  address = q.address ∙ p.address;
  whole = q.whole;
}

-- `m`, started in `s`, appends `ys` to the output buffer, then the checksum of all, and sends;
-- where the buffer has no room for that it writes past the array.
pub record Replies (m : M (Unit {0})) (s : Server) (ys : List ℕ) : Type 0 where
  pub fits :
      (xs : List ℕ)
      → Holds s xs
      → length xs + length ys + 2 ≤ buf_size
      → (t : Server) × (m s ≡ some (tt, t)) × Sent s t (xs ++ ys)
  pub overflows :
      (xs : List ℕ)
      → Holds s xs
      → length xs ≤ buf_size
      → buf_size < length xs + length ys + 2
      → m s ≡ none

Emits-crc : (s : Server) (body : List ℕ) → Holds s body → Emits add_crc s (crc_bytes body)
unfolding add_crc calc_crc_rtu
Emits-crc s body h =
    let k = crc_loop crc_start (contents s.output_buffer) in
    let two =
      Emits-then (add k.hi) (add k.lo) s (k.hi ∷ []) (k.lo ∷ []) (Emits-add s k.hi)
        (λ t _. Emits-add t k.lo) in
    let e : Emits add_crc s (crc_bytes (contents s.output_buffer)) = record {
      fits = two.fits;
      overflows = two.overflows;
    } in
    rw h.shown at e

pub Replies-end : (s : Server) → Replies (add_crc >> send_pdu) s []
unfolding send_pdu coil reg
Replies-end s = record {
  fits = λ xs h room.
      let crc = Emits-crc s xs h in
      let (t, e, ht, same) = crc.fits xs h (omega arith) in
      let size : t.output_buffer.actual_size ≡ length xs + 2 =
        omega (arith, ht.used, length-append xs (crc_bytes xs)) in
      (
        record t { ops = t.ops ++ async_write m_output_buffer t.output_buffer.actual_size ∷ [] },
        then_some add_crc (λ _. send_pdu) e,
        rw append-nil (record {
          shown = ht.shown;
          started = ap₂ (λ ops n. ops ++ async_write m_output_buffer n ∷ []) same.ops size;
          coils = same.coils;
          regs = same.regs;
          scanner = same.scanner;
          input = same.input;
          address = same.address;
          whole = ht.whole;
        }),
      );
  overflows = λ xs h room full.
      then_none add_crc (λ _. send_pdu) ((Emits-crc s xs h).overflows xs h room (omega arith));
}

pub Replies-then :
    (m k : M (Unit {0})) (s : Server) (ys zs : List ℕ)
    → Emits m s ys
    → ((t : Server) → Same s t → Replies k t zs)
    → Replies (m >> k) s (ys ++ zs)
Replies-then m k s ys zs first next = record {
  fits = λ xs h room.
      let (t, e, ht, same) = first.fits xs h (omega (arith, length-append ys zs)) in
      let (u, e', sent) =
        (next t same).fits (xs ++ ys) ht
          (omega (arith, length-append ys zs, length-append xs ys)) in
      let sent' : Sent t u (xs ++ (ys ++ zs)) = rw (append_assoc xs ys zs) at sent in
      (u, then_some m (λ _. k) e ∙ e', Sent-after (xs ++ (ys ++ zs)) same sent');
  overflows = λ xs h room full. elim (dec_lt buf_size (length xs + length ys)) [
    | yes over ↦ then_none m (λ _. k) (first.overflows xs h room over)
    | no fits ↦
        let (t, e, ht, same) = first.fits xs h (omega arith) in
        then_some m (λ _. k) e
        ∙ (next t same).overflows (xs ++ ys) ht (omega (arith, length-append xs ys))
            (omega (arith, length-append ys zs, length-append xs ys))
  ];
}

pub header_lem :
    (fc : ℕ) (s : Server)
    → length s.output_buffer.bytes ≡ buf_size
    → (t : Server) × (reply_header fc s ≡ some (tt, t))
      × Holds t (s.dev_address ∷ fc ∷ [])
      × Same s t
unfolding reply_header set_actual_size coil reg
header_lem fc s whole =
    let empty = record s { output_buffer = set_actual_size s.output_buffer 0 } in
    let two =
      Emits-then (add s.dev_address) (add fc) empty (s.dev_address ∷ []) (fc ∷ [])
        (Emits-add empty s.dev_address) (λ t _. Emits-add t fc) in
    let (t, e, ht, same) =
      two.fits [] (record { whole = whole; used = refl; shown = refl }) (omega arith) in
    (
      t,
      e,
      ht,
      record {
        coils = same.coils;
        regs = same.regs;
        scanner = same.scanner;
        input = same.input;
        address = same.address;
        ops = same.ops;
      },
    )

-- A whole reply, where it fits the output buffer.
pub reply_fits :
    (fc : ℕ) (rest : M (Unit {0})) (s : Server) (ys : List ℕ)
    → length s.output_buffer.bytes ≡ buf_size
    → ((t : Server) → Same s t → Replies rest t ys)
    → length ys + 4 ≤ buf_size
    → (t : Server) × ((reply_header fc >> rest) s ≡ some (tt, t))
      × Sent s t (s.dev_address ∷ fc ∷ ys)
reply_fits fc rest s ys whole next room =
    let (t, e, ht, same) = header_lem fc s whole in
    let (u, e', sent) = (next t same).fits (s.dev_address ∷ fc ∷ []) ht (omega arith) in
    (
      u,
      then_some (reply_header fc) (λ _. rest) e ∙ e',
      Sent-after (s.dev_address ∷ fc ∷ ys) same sent,
    )

-- And where it does not.
pub reply_overflows :
    (fc : ℕ) (rest : M (Unit {0})) (s : Server) (ys : List ℕ)
    → length s.output_buffer.bytes ≡ buf_size
    → ((t : Server) → Same s t → Replies rest t ys)
    → buf_size < length ys + 4
    → (reply_header fc >> rest) s ≡ none
reply_overflows fc rest s ys whole next over =
    let (t, e, ht, same) = header_lem fc s whole in
    then_some (reply_header fc) (λ _. rest) e
    ∙ (next t same).overflows (s.dev_address ∷ fc ∷ []) ht (omega arith) (omega arith)
