-- ===== src/TcpServer/Session.antt =====
-- A connection of tcp_server/server_connection.cpp, chunk after chunk.
use modbus_scanner.Base.{
  ℕ, ◌+◌, ◌-◌, ◌<◌, ◌≡◌, refl, sym, ap, ◌∙◌, IsBytes, false, List, [], ◌∷◌, ◌++◌, Option, none,
  some, arith, inl, All,
}
use mathlib.Core.Path.{ap₂, subst}
use modbus_scanner.Coroutine
use modbus_scanner.Coroutine.Chunks.{IsChunk, stream}
use modbus_scanner.Defs.{contents, Buffer, Pdu, set_actual_size}
use modbus_scanner.InOrder.{InOrder}
use modbus_scanner.Request.{decoded, told}
use modbus_scanner.Scanner.{Order}
use modbus_scanner.Tcp
use modbus_scanner.Tcp.Heard.{IsMessage}
use modbus_scanner.Tcp.Soundness.{only_messages_are_told}
use modbus_scanner.Tcp.Stream.{Item, IsItem, messages, pdus, scan_all-messages}
use modbus_scanner.TcpServer.{
  Connection, new_connection, start_read, handle_read, printed, print_pdu,
}
use modbus_scanner.TcpServer.Printing.{Seen, seen, shown, seen-append, print_pdu-decoded}
use modbus_scanner.TcpServer.Shown.{told_shown, IsPrinted, scan_all-IsPrinted}

-- A read of the socket ends without error: it has filled the array, and is no longer pending.
abbrev pub read_ended : List ℕ → Connection → Connection
read_ended bytes c = record c { buffer = record (c.buffer) { bytes = bytes }; reads = c.reads - 1 }

-- One chunk after the other, each as its array and its length.
abbrev pub handle_reads : Order → List Buffer → Connection → Option Connection
handle_reads order [] c = some c
handle_reads order (b ∷ bs) c =
    elim (handle_read order false b.actual_size (read_ended b.bytes c)) [
      | none ↦ none
      | some d ↦ handle_reads order bs d
    ]

-- What is to be seen of requests.
abbrev pub all_shown : List Item → List Seen
all_shown [] = []
all_shown (i ∷ is) = shown i.request ++ all_shown is

module _ (order : Order) where
  -- A chunk that the scanner takes.
  one_read :
      (b : Buffer) (c : Connection) (t : Tcp.Scanner)
      → IsChunk b
      → c.reads ≡ 1
      → Tcp.scan order b c.modbus_scanner ≡ some t
      → handle_read order false b.actual_size (read_ended b.bytes c)
        ≡ some (record { modbus_scanner = t; buffer = b; reads = 1 })
  unfolding handle_read start_read set_actual_size
  one_read b c t h one scanned =
      let again : c.reads - 1 + 1 ≡ 1 = omega arith in
      taken b.actual_size h.not_empty scanned
      ∙ ap (λ n. some (record { modbus_scanner = t; buffer = b; reads = n })) again
    where
      taken :
          (size : ℕ)
          → 0 < size
          → Tcp.scan order (record { bytes = b.bytes; actual_size = size }) c.modbus_scanner
            ≡ some t
          → handle_read order false size (read_ended b.bytes c)
            ≡ some (record {
              modbus_scanner = t;
              buffer = record { bytes = b.bytes; actual_size = size };
              reads = c.reads - 1 + 1;
            })
      taken size p e = unfold handle_read start_read set_actual_size in ground (arith, p, e)

  -- The first of several scans that return.
  first_scan :
      (b : Buffer) (bs : List Buffer) (s t : Tcp.Scanner)
      → Coroutine.scan_all (Tcp.machine order) (b ∷ bs) s ≡ some t
      → (u : Tcp.Scanner) × (Coroutine.scan (Tcp.machine order) b s ≡ some u)
        × (Coroutine.scan_all (Tcp.machine order) bs u ≡ some t)
  unfolding Coroutine.scan_all
  first_scan b bs s t e = by_case (Coroutine.scan (Tcp.machine order) b s) e
    where
      by_case :
          (o : Option Tcp.Scanner)
          → (elim o [ none ↦ none | some u ↦ Coroutine.scan_all (Tcp.machine order) bs u ]) ≡ some t
          → (u : Tcp.Scanner) × (o ≡ some u)
            × (Coroutine.scan_all (Tcp.machine order) bs u ≡ some t)
      by_case none q = absurd (ground (arith, q))
      by_case (some u) q = (u, refl, q)

  -- The reads of a connection are the calls of `scan` that its scanner sees.
  reads_are_scans :
      (bs : List Buffer) (c : Connection) (t : Tcp.Scanner)
      → All IsChunk bs
      → c.reads ≡ 1
      → Coroutine.scan_all (Tcp.machine order) bs c.modbus_scanner ≡ some t
      → (d : Connection) × (handle_reads order bs c ≡ some d)
        × (d.modbus_scanner ≡ t)
        × (d.reads ≡ 1)
  unfolding Coroutine.scan_all Tcp.scan
  reads_are_scans [] c t h one e =
      (c, refl, ap (λ o. elim o [ none ↦ c.modbus_scanner | some u ↦ u ]) e, one)
  reads_are_scans (b ∷ bs) c t h one e =
      let (u, p, q) = first_scan b bs c.modbus_scanner t e in
      let d : Connection = record { modbus_scanner = u; buffer = b; reads = 1 } in
      let (d', done, scanned, pending) = reads_are_scans bs d t h.1 refl q in
      (
        d',
        ap (λ o. elim o [ none ↦ none | some c' ↦ handle_reads order bs c' ])
              (one_read b c u h.0 one p)
            ∙ done,
        scanned,
        pending,
      )

seen-pdus :
    (items : List Item) (p : Pdu)
    → All IsItem items
    → seen (printed (pdus items p)) ≡ all_shown items
unfolding printed
seen-pdus [] p h = refl
seen-pdus (i ∷ is) p h =
    let q = decoded i.request (Tcp.Decode.stamped i.header p) in
    seen-append (print_pdu q) (printed (pdus is q))
    ∙ ap₂ (λ xs ys. xs ++ ys) (print_pdu-decoded i.request (Tcp.Decode.stamped i.header p) h.0.0)
        (seen-pdus is q h.1)

-- A new connection that has started to read, and any number of messages to unit 255, with
-- non-empty payloads where they have one, in chunks that are cut in any way, none of them empty:
-- every `handle_read` returns, what has been printed at the end is each request's function code,
-- numbers and payload, in order, and one read of the socket is pending.
pub connection_prints :
    (order : Order) (items : List Item) (chunks : List Buffer) (pdu : Pdu) (bytes : List ℕ)
    → All IsItem items
    → All IsChunk chunks
    → stream chunks ≡ messages 255 items
    → (c : Connection) × (handle_reads order chunks (start_read (new_connection pdu bytes))
        ≡ some c)
      × (seen (printed c.modbus_scanner.calls) ≡ all_shown items)
      × (c.reads ≡ 1)
unfolding new_connection start_read Tcp.new
connection_prints order items chunks pdu bytes h chunked e =
    let c = start_read (new_connection pdu bytes) in
    let (t, scanned, ready, called) =
      scan_all-messages order items chunks c.modbus_scanner (inl refl) h chunked e in
    let (d, done, same, pending) = reads_are_scans order chunks c t chunked refl scanned in
    (
      d,
      done,
      ap (λ u. seen (printed u.calls)) same
          ∙ ap (λ calls. seen (printed calls)) called
          ∙ seen-pdus items pdu h,
      pending,
    )

-- A new connection that has started to read, and any bytes at all, in chunks none of which is
-- empty: every `handle_read` returns, one read of the socket is pending at the end, the requests
-- that have been told stand in the stream as whole messages to unit 255, in their order, one behind
-- the other, and what has been printed is the function code, the numbers and the payload of each of
-- those requests, in the same order and each once, and no value for nonsense.
pub connection_keeps_reading :
    (order : Order) (chunks : List Buffer) (pdu : Pdu) (bytes : List ℕ)
    → All IsChunk chunks
    → All (λ b. IsBytes (contents b)) chunks
    → (c : Connection) × (handle_reads order chunks (start_read (new_connection pdu bytes))
        ≡ some c)
      × InOrder (IsMessage 255) (stream chunks) c.modbus_scanner.calls
      × (seen (printed c.modbus_scanner.calls) ≡ told_shown (told c.modbus_scanner.calls))
      × (c.reads ≡ 1)
unfolding new_connection start_read
connection_keeps_reading order chunks pdu bytes chunked small =
    let c = start_read (new_connection pdu bytes) in
    let (t, scanned, heard) = only_messages_are_told order 255 pdu chunks chunked small in
    let (d, done, same, pending) = reads_are_scans order chunks c t chunked refl scanned in
    (
      d,
      done,
      subst (λ u. InOrder (IsMessage 255) (stream chunks) u.calls) (sym same) heard,
      subst (λ u. IsPrinted u.calls) (sym same)
          (scan_all-IsPrinted order 255 pdu chunks t chunked small scanned),
      pending,
    )
