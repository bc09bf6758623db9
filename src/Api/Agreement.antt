-- ===== src/Api/Agreement.antt =====
-- Sessions through modbus_scanner.cpp.
use modbus_scanner.Base.{ℕ, ◌%◌, ◌≡◌, inr, refl, ap, List, [], ◌∷◌, Option, none, some, All}
use modbus_scanner.Api.{
  rtu_scanner, rtu_old_scanner, scan_chunks, session, wrap, scan, create_scanner,
}
use modbus_scanner.Coroutine
use modbus_scanner.Coroutine.Chunks.{IsChunk, stream}
use modbus_scanner.Defs.{Buffer, Pdu, slave_rtu, slave_rtu_old}
use modbus_scanner.Request.{told}
use modbus_scanner.Rtu
use modbus_scanner.Rtu.Stream.{Item, IsItem, line}
use modbus_scanner.RtuOld
use modbus_scanner.RtuOld.Stream.{scan_each, asked, HasPayloads, scanners_agree}
use modbus_scanner.Scanner.{Order}

module _ (order : Order) where
  scan_chunks-rtu :
      (bs : List Buffer) (s t : Rtu.Scanner)
      → Coroutine.scan_all (Rtu.machine order) bs s ≡ some t
      → scan_chunks order bs (rtu_scanner s) ≡ some (rtu_scanner t)
  unfolding scan_chunks scan Coroutine.scan_all Rtu.scan
  scan_chunks-rtu [] s t e = ap (wrap rtu_scanner) e
  scan_chunks-rtu (b ∷ bs) s t e =
      by_case (Coroutine.scan (Rtu.machine order) b s) e (λ u. scan_chunks-rtu bs u t)
    where
      by_case :
          (o : Option Rtu.Scanner)
          → elim o [ none ↦ none | some u ↦ Coroutine.scan_all (Rtu.machine order) bs u ] ≡ some t
          → ((u : Rtu.Scanner)
              → Coroutine.scan_all (Rtu.machine order) bs u ≡ some t
              → scan_chunks order bs (rtu_scanner u) ≡ some (rtu_scanner t))
          → elim (wrap rtu_scanner o) [ none ↦ none | some next ↦ scan_chunks order bs next ]
            ≡ some (rtu_scanner t)
      by_case none p rest = ap (wrap rtu_scanner) p
      by_case (some u) p rest = rest u p

  scan_chunks-rtu_old :
      (bs : List Buffer) (s t : RtuOld.Scanner)
      → scan_each order bs s ≡ some t
      → scan_chunks order bs (rtu_old_scanner s) ≡ some (rtu_old_scanner t)
  unfolding scan_chunks scan scan_each RtuOld.scan
  scan_chunks-rtu_old [] s t e = ap (wrap rtu_old_scanner) e
  scan_chunks-rtu_old (b ∷ bs) s t e =
      by_case (RtuOld.scan order (some b) s) e (λ u. scan_chunks-rtu_old bs u t)
    where
      by_case :
          (o : Option RtuOld.Scanner)
          → elim o [ none ↦ none | some u ↦ scan_each order bs u ] ≡ some t
          → ((u : RtuOld.Scanner)
              → scan_each order bs u ≡ some t
              → scan_chunks order bs (rtu_old_scanner u) ≡ some (rtu_old_scanner t))
          → elim (wrap rtu_old_scanner o) [ none ↦ none | some next ↦ scan_chunks order bs next ]
            ≡ some (rtu_old_scanner t)
      by_case none p rest = ap (wrap rtu_old_scanner) p
      by_case (some u) p rest = rest u p

-- Sessions for slave_rtu and for slave_rtu_old, for the same address and with the same non-empty
-- chunks, which hold requests to that address with a payload where their function has one: the
-- first is the coroutine scanner's scan of the chunks, the second the scan of the same chunks by
-- the scanner that is written as a state machine, both come to their end, and both tell their users
-- just those requests, in order.
pub sessions_agree :
    (order : Order) (address : ℕ) (pdu pdu' : Pdu) (items : List Item) (chunks : List Buffer)
    → All (IsItem (address % 256)) items
    → HasPayloads items
    → All IsChunk chunks
    → stream chunks ≡ line (address % 256) items
    → (t : Rtu.Scanner) × (t' : RtuOld.Scanner) × (session order slave_rtu address pdu chunks
        ≡ some (rtu_scanner t))
      × (session order slave_rtu_old address pdu' chunks ≡ some (rtu_old_scanner t'))
      × (Coroutine.scan_all (Rtu.machine order) chunks (Rtu.new address pdu) ≡ some t)
      × (scan_each order chunks (RtuOld.new address pdu') ≡ some t')
      × (told t.calls ≡ asked items)
      × (told t'.calls ≡ asked items)
unfolding session create_scanner Rtu.new RtuOld.new
sessions_agree order address pdu pdu' items chunks a g c e =
    let s = Rtu.new address pdu in
    let old = RtuOld.new address pdu' in
    let (t, t', scanned, scanned', ready, ready', called, called') =
      scanners_agree order items chunks s old refl (inr (refl, refl))
        (record { at_init = refl; no_crc = refl; no_index = refl }) a g c e in
    (
      t,
      t',
      scan_chunks-rtu order chunks s t scanned,
      scan_chunks-rtu_old order chunks old t' scanned',
      scanned,
      scanned',
      called,
      called',
    )
