-- ===== src/TcpServer/Accepting.antt =====
-- tcp_server/tcp_server.cpp under `io_service.run`: accepts and reads end in any order.
use mathlib.Core.Path.{subst}
use modbus_scanner.Base.{
  ℕ, suc, ◌+◌, ◌≤◌, ◌≡◌, refl, ap, Bool, true, false, ◌||◌, List, [], ◌∷◌, ◌++◌, Option, none, some,
  ◌%◌, inl, inr, arith, length, length-append, All, ◌==◌, if◌then◌else◌,
}
use modbus_scanner.Defs.{Pdu, set_actual_size}
use modbus_scanner.Getopt.{Getopt}
use Prim.Native.String.{String}
use modbus_scanner.Scanner.{Order}
use modbus_scanner.Spelled.{Bool-cases}
use modbus_scanner.Tcp
use modbus_scanner.TcpServer.Program.{Program, chosen_port, main}
use modbus_scanner.TcpServer.{
  Connection, TcpServer, new_connection, start_read, handle_read, start_accept, handle_accept,
}

-- One end of an operation. The number is how many connections it has added.
pub data Step (order : Order) : TcpServer → ℕ → TcpServer → Type 0 where
  accept_ends :
      (s : TcpServer) (error : Bool) (pdu : Pdu) (bytes : List ℕ) (accepts : ℕ)
      → s.accepts ≡ suc accepts
      → Step order s 1 (handle_accept error pdu bytes (record s { accepts = accepts }))
  read_ends :
      (s : TcpServer) (before after : List Connection) (c d : Connection) (bytes : List ℕ)
      (error : Bool) (size reads : ℕ)
      → s.connections ≡ before ++ c ∷ after
      → c.reads ≡ suc reads
      → handle_read order error size
          (record c { buffer = record (c.buffer) { bytes = bytes }; reads = reads })
        ≡ some d
      → Step order s 0 (record s { connections = before ++ d ∷ after })

pub data Steps (order : Order) : TcpServer → ℕ → TcpServer → Type 0 where
  stop : (s : TcpServer) → Steps order s 0 s
  then_step :
      {s t u : TcpServer} {m n : ℕ} → Steps order s m t → Step order t n u → Steps order s (m + n) u

-- One accept is pending, and one read of each connection at most.
pub record IsServing (s : TcpServer) : Type 0 where
  pub accepting : s.accepts ≡ 1
  pub reading : All (λ c. c.reads ≤ 1) s.connections

All-middle :
    (P : Connection → Type 0) (before : List Connection) (c d : Connection)
    (after : List Connection)
    → All P (before ++ c ∷ after)
    → P d
    → All P (before ++ d ∷ after)
All-middle P [] c d after h p = (p, h.1)
All-middle P (b ∷ before) c d after h p = (h.0, All-middle P before c d after h.1 p)

All-end :
    (P : Connection → Type 0) (cs : List Connection) (d : Connection)
    → All P cs
    → P d
    → All P (cs ++ d ∷ [])
All-end P [] d h p = (p, tt)
All-end P (c ∷ cs) d h p = (h.0, All-end P cs d h.1 p)

-- The pending reads behind `handle_read`, where it returns.
abbrev AtMost : ℕ → Option Connection → Type 0
AtMost n none = Unit
AtMost n (some d) = d.reads ≤ n

module _ (order : Order) where
  handle_read_reads :
      (error : Bool) (size : ℕ) (c : Connection)
      → AtMost (c.reads + 1) (handle_read order error size c)
  unfolding handle_read start_read
  handle_read_reads error size c =
      by_case (error || size == 0) (Tcp.scan order (set_actual_size c.buffer size) c.modbus_scanner)
    where
      by_case :
          (stopped : Bool) (o : Option Tcp.Scanner)
          → AtMost (c.reads + 1) (
              if stopped then some c else (elim o [
                | none ↦ none
                | some t ↦ some (record c {
                  buffer = set_actual_size c.buffer size;
                  modbus_scanner = t;
                  reads = c.reads + 1;
                })
              ]))
      by_case true o = omega arith
      by_case false none = tt
      by_case false (some t) = omega arith

  Step-IsServing :
      {s t : TcpServer} {n : ℕ}
      → Step order s n t
      → IsServing s
      → IsServing t × (length t.connections ≡ length s.connections + n)
  unfolding handle_accept start_accept start_read new_connection
  Step-IsServing (accept_ends s error pdu bytes accepts e) h = (
    record {
      accepting = omega (arith, h.accepting);
      reading =
          All-end (λ c. c.reads ≤ 1) s.connections (start_read (new_connection pdu bytes)) h.reading
            (omega arith);
    },
    omega (arith, length-append s.connections (start_read (new_connection pdu bytes) ∷ [])),
  )
  Step-IsServing (read_ends s before after c d bytes error size reads e pending done) h =
      let c' = record c { buffer = record (c.buffer) { bytes = bytes }; reads = reads } in
      let all : All (λ x. x.reads ≤ 1) (before ++ c ∷ after) =
        subst (All (λ x. x.reads ≤ 1)) e h.reading in
      let most : d.reads ≤ reads + 1 =
        subst (AtMost (reads + 1)) done (handle_read_reads error size c') in
      let one : c.reads ≤ 1 = middle before after c all in
      (
        record {
          accepting = h.accepting;
          reading = All-middle (λ c. c.reads ≤ 1) before c d after all (omega arith);
        },
        omega (
          arith,
          ap length e,
          length-append before (c ∷ after),
          length-append before (d ∷ after),
        ),
      )
    where
      middle :
          (before after : List Connection) (c : Connection)
          → All (λ x. x.reads ≤ 1) (before ++ c ∷ after)
          → c.reads ≤ 1
      middle [] after c h = h.0
      middle (b ∷ before) after c h = middle before after c h.1

  Steps-IsServing :
      {s t : TcpServer} {n : ℕ}
      → Steps order s n t
      → IsServing s
      → IsServing t × (length t.connections ≡ length s.connections + n)
  Steps-IsServing (stop s) h = (h, omega arith)
  Steps-IsServing (then_step first step) h =
      let (serving, many) = Steps-IsServing first h in
      let (serving', more) = Step-IsServing step serving in (serving', omega (arith, many, more))

  abbrev program : ℕ → Program
  program port = record { port = port % 65536; server = record { accepts = 1; connections = [] } }

  some-injective : (x y : Program) → some x ≡ some y → x ≡ y
  some-injective x y e = cc e

  -- What `main` has made where it gets as far as `io_service.run`.
  main-IsServing :
      (stoi : String → Option ℕ) (listens : ℕ → Bool) (g : Getopt) (p : Program)
      → main stoi listens g ≡ some p
      → IsServing p.server
        × (p.server.connections ≡ [])
        × (listens p.port ≡ true)
        × ((n : ℕ) × (chosen_port stoi g ≡ some n) × (p.port ≡ n % 65536))
  unfolding main start_accept
  main-IsServing stoi listens g p e = on_port (chosen_port stoi g) refl
    where
      on_port :
          (o : Option ℕ)
          → chosen_port stoi g ≡ o
          → IsServing p.server
            × (p.server.connections ≡ [])
            × (listens p.port ≡ true)
            × ((n : ℕ) × (o ≡ some n) × (p.port ≡ n % 65536))
      on_port none c = cc (let q : none ≡ some p = rw (c, main) at e in q)
      on_port (some port) c = elim (Bool-cases (listens (port % 65536))) [
        | inl l ↦
            let made : some (program port) ≡ some p = rw l at (rw (c, main) at e) in
            let same = some-injective (program port) p made in
            subst
              (λ q.
                IsServing q.server
                × (q.server.connections ≡ [])
                × (listens q.port ≡ true)
                × ((n : ℕ) × (some port ≡ some n) × (q.port ≡ n % 65536)))
              same (record { accepting = refl; reading = tt }, refl, l, (port, refl, refl))
        | inr l ↦ cc (let q : none ≡ some p = rw l at (rw (c, main) at e) in q)
      ]

  -- Where the program gets as far as `io_service.run`, it listens on the port of its arguments, 502
  -- if they have none, modulo 2^16; and from then on, in whatever order accepts and reads end, with
  -- errors or without, one accept is always pending, one read of each connection at most, so that no
  -- two reads fill its buffer, and each accept that has ended has added a connection.
  pub always_accepting :
      (stoi : String → Option ℕ) (listens : ℕ → Bool) (g : Getopt) (p : Program) {s : TcpServer}
      {n : ℕ}
      → main stoi listens g ≡ some p
      → Steps order p.server n s
      → IsServing s
        × (length s.connections ≡ n)
        × (listens p.port ≡ true)
        × ((port : ℕ) × (chosen_port stoi g ≡ some port) × (p.port ≡ port % 65536))
  always_accepting stoi listens g p made steps =
      let (first, none_yet, heard, port) = main-IsServing stoi listens g p made in
      let (serving, many) = Steps-IsServing steps first in
      (serving, omega (arith, many, ap length none_yet), heard, port)
