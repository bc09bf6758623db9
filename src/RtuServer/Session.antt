-- ===== src/RtuServer/Session.antt =====
-- The sample RTU server, client request after client request, against the abstract device: a
-- chunk arrives, `handle_read` answers it, the write ends and `handle_writing` starts to read.
use mathlib.Core.Path.{subst}
use modbus_scanner.Base.{
  ℕ, zero, suc, ◌+◌, ◌≡◌, ◌≢◌, refl, sym, ap, ◌∙◌, false, List, [], ◌∷◌, ◌++◌, some, arith, length,
  length-append, append_assoc, take, All,
}
use modbus_scanner.Coroutine.Chunks.{IsChunk}
use modbus_scanner.Defs.{contents, buf_size, set_actual_size}
use modbus_scanner.Request.{Request, IsRequest}
use modbus_scanner.Rtu
use modbus_scanner.Rtu.Frame.{frame, crc_bytes}
use modbus_scanner.RtuServer.Answers.{answer}
use modbus_scanner.RtuServer.Device.{
  Device, Answer, coil_values, reg_values, confirmed, echo, updated, answer_to, function_of,
  IsServed, Shows,
}
use modbus_scanner.RtuServer.Memory.{coil, reg}
use modbus_scanner.RtuServer.Monad.{
  Server, Op, async_read_some, async_write, m_input_buffer, m_output_buffer, start_read,
}
use modbus_scanner.RtuServer.Reading.{scanned_to}
use modbus_scanner.RtuServer.Replies.{handle_read, handle_writing}
use modbus_scanner.RtuServer.Serving.{Holds, Delivers}
use modbus_scanner.RtuServer.ServingAll.{handled}
use modbus_scanner.Scanner.{little_endian}

-- A request that arrives in one read of the port, with bytes in front that are not for the server,
-- and what the array holds behind it.
pub record Arrival : Type 0 where
  pub noise : List ℕ
  pub request : Request
  pub rest : List ℕ

abbrev pub received : ℕ → Arrival → List ℕ
received address i = i.noise ++ frame address i.request

-- The bytes of a chunk to a server with the address `address`.
pub record Arrives (address : ℕ) (i : Arrival) : Type 0 where
  pub other : All (λ c. c ≢ address) i.noise
  pub fits : IsRequest i.request
  pub served : IsServed i.request
  pub whole : length (received address i ++ i.rest) ≡ buf_size

-- The server when the read has filled its input array.
abbrev pub filled : ℕ → Arrival → Server → Server
filled address i s = record s {
  input_buffer = record (s.input_buffer) { bytes = received address i ++ i.rest };
}

-- The server stands for the device: it is between two requests, and answers to `address`.
pub record Represents (address : ℕ) (s : Server) (d : Device) : Type 0 where
  pub holds : Holds s d
  pub ready : Rtu.Decode.IsReady s.modbus_scanner
  pub scans : s.modbus_scanner.address ≡ address
  pub answers : s.dev_address ≡ address
  pub whole : length s.output_buffer.bytes ≡ buf_size

-- The bytes that an operation writes to the port, if the server is as given while it writes. Below,
-- each chunk makes `handle_read` start one write and nothing is changed behind its start, so that
-- the buffer is the same from the start of the write to its end.
abbrev pub written : Op → Server → List ℕ
written async_read_some t = []
written (async_write m_input_buffer n) t = take n t.input_buffer.bytes
written (async_write m_output_buffer n) t = take n t.output_buffer.bytes

-- The bytes on the line carry the answer: an echo is the chunk itself, all else has a body of its
-- own and a checksum.
abbrev pub Carries : ℕ → Arrival → Answer → List ℕ → Type 0
Carries address i echo bytes = bytes ≡ received address i
Carries address i a bytes =
    (body : List ℕ) × (bytes ≡ body ++ crc_bytes body)
    × Shows address (function_of i.request) a body

-- From `s`, one arrival after the other: `handle_read` returns and has started one operation, which
-- writes the device's answer, `handle_writing` has then started the next read, and the server goes
-- on to stand for the device.
abbrev pub Refines : ℕ → List Arrival → Server → Device → Type 0
Refines address [] s d = Represents address s d
Refines address (i ∷ is) s d =
    (t : Server) × (u : Server) × (op : Op) × (handle_read little_endian false
        (length (received address i)) (filled address i s)
      ≡ some (tt, t))
    × Carries address i (answer_to i.request d) (written op t)
    × (handle_writing false t ≡ some (tt, u))
    × (u.ops ≡ s.ops ++ op ∷ async_read_some ∷ [])
    × Refines address is u (updated i.request d)

take-length : (n : ℕ) (xs ys : List ℕ) → take n xs ≡ ys → take (length ys) xs ≡ ys
take-length n xs ys e = ap (λ zs. take (length zs) xs) (sym e) ∙ same n xs ∙ e
  where
    same : (n : ℕ) (xs : List ℕ) → take (length (take n xs)) xs ≡ take n xs
    same zero xs = refl
    same (suc n) [] = refl
    same (suc n) (x ∷ xs) = ap (λ zs. x ∷ zs) (same n xs)

take-all : (xs ys : List ℕ) → take (length xs) (xs ++ ys) ≡ xs
take-all [] ys = refl
take-all (x ∷ xs) ys = ap (λ zs. x ∷ zs) (take-all xs ys)

-- The whole output buffer goes out.
pub all_out :
    (t : Server) (body : List ℕ)
    → contents t.output_buffer ≡ body ++ crc_bytes body
    → take (length body + 2) t.output_buffer.bytes ≡ body ++ crc_bytes body
all_out t body shown =
    ap (λ n. take n t.output_buffer.bytes) (sym (length-append body (crc_bytes body)))
    ∙ take-length t.output_buffer.actual_size t.output_buffer.bytes (body ++ crc_bytes body) shown

module _ (address : ℕ) (i : Arrival) (arrives : Arrives address i) where
  arrived :
      (s : Server)
      → contents (set_actual_size (filled address i s).input_buffer (length (received address i)))
        ≡ received address i
  unfolding set_actual_size
  arrived s = take-all (received address i) i.rest

  chunk :
      (s : Server)
      → IsChunk (set_actual_size (filled address i s).input_buffer (length (received address i)))
  unfolding set_actual_size
  chunk s = record {
    buffer = record {
      whole = arrives.whole;
      fits = omega (arith, arrives.whole, length-append (received address i) i.rest);
    };
    not_empty = omega (arith, length-append i.noise (frame address i.request));
  }

  -- The bytes of an answer on the line, from the operation that delivers it.
  carried :
      (s t : Server) (a : Answer) (op : Op)
      → t.input_buffer
        ≡ set_actual_size (filled address i s).input_buffer (length (received address i))
      → t.dev_address ≡ address
      → Delivers t (function_of i.request) a op
      → Carries address i a (written op t)
  unfolding set_actual_size
  carried s t echo op input same e =
      ap (λ o. written o t) e ∙ ap contents input ∙ take-all (received address i) i.rest
  carried s t (coil_values bits) op input same (body, e, shown, shows) = (
    body,
    ap (λ o. written o t) e ∙ all_out t body shown,
    subst (λ x. Shows x (function_of i.request) (coil_values bits) body) same shows,
  )
  carried s t (reg_values vs) op input same (body, e, shown, shows) = (
    body,
    ap (λ o. written o t) e ∙ all_out t body shown,
    subst (λ x. Shows x (function_of i.request) (reg_values vs) body) same shows,
  )
  carried s t (confirmed a q) op input same (body, e, shown, shows) = (
    body,
    ap (λ o. written o t) e ∙ all_out t body shown,
    subst (λ x. Shows x (function_of i.request) (confirmed a q) body) same shows,
  )

  -- One request, from the chunk to the next read.
  one_answered :
      (is : List Arrival) (s : Server) (d : Device)
      → Represents address s d
      → ((u : Server)
          → Represents address u (updated i.request d)
          → Refines address is u (updated i.request d))
      → Refines address (i ∷ is) s d
  unfolding handle_writing start_read coil reg
  one_answered is s d p next =
      let size = length (received address i) in
      let s' = filled address i s in
      let noise : All (λ c. c ≢ s.modbus_scanner.address) i.noise =
        subst (λ x. All (λ c. c ≢ x) i.noise) (sym p.scans) arrives.other in
      let bytes : contents (set_actual_size s'.input_buffer size)
          ≡ i.noise ++ frame s.modbus_scanner.address i.request =
        arrived s ∙ ap (λ x. i.noise ++ frame x i.request) (sym p.scans) in
      let (v, read, ready, same) =
        answer little_endian size i.noise i.request s' p.ready (chunk s) noise arrives.fits bytes in
      let held : Holds (scanned_to s' size v) d = record {
        coils = p.holds.coils;
        regs = p.holds.regs;
        words = p.holds.words;
      } in
      let (t, done, r) =
        handled (scanned_to s' size v) d held i.request s.modbus_scanner.pdu p.whole arrives.fits
          arrives.served in
      let u = record t { ops = t.ops ++ async_read_some ∷ [] } in
      let after : Represents address u (updated i.request d) = record {
        holds = record { coils = r.holds.coils; regs = r.holds.regs; words = r.holds.words };
        ready = subst Rtu.Decode.IsReady (sym r.scanner) ready;
        scans = ap (λ x. x.address) r.scanner ∙ same ∙ p.scans;
        answers = r.address ∙ p.answers;
        whole = r.whole;
      } in
      (
        t,
        u,
        r.op,
        read ∙ done,
        carried s t (answer_to i.request d) r.op r.input (r.address ∙ p.answers) r.delivers,
        refl,
        ap (λ ops. ops ++ async_read_some ∷ []) r.started
            ∙ append_assoc s.ops (r.op ∷ []) (async_read_some ∷ []),
        next u after,
      )

-- A little-endian server that stands for a device, between two requests, and any number of
-- arrivals, each one request that the server has room for (with two payload bytes for each register
-- where it is of function 16 or 23) behind bytes that are not its address, in an input array of
-- 1024 bytes: for each, `handle_read` returns and has started one operation,
-- which writes the answer that the abstract device gives in the state that the earlier requests
-- have left, `handle_writing` then starts the next read, and the server goes on to stand for the
-- device.
pub server-Refines :
    (address : ℕ) (arrivals : List Arrival) (s : Server) (d : Device)
    → All (Arrives address) arrivals
    → Represents address s d
    → Refines address arrivals s d
server-Refines address [] s d h p = p
server-Refines address (i ∷ is) s d h p =
    one_answered address i h.0 is s d p
      (λ u q. server-Refines address is u (updated i.request d) h.1 q)
