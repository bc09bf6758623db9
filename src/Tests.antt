-- ===== src/Tests.antt =====
-- Runs of the models at concrete inputs, and the theorems at inputs that meet their hypotheses.
pub mod Library
pub mod Soundness
pub mod Server
pub mod Coils
pub mod Session
pub mod Silence
pub mod Loop
pub mod TcpServer
pub mod Contents
use modbus_scanner.Base.{
  ℕ, ◌+◌, ◌-◌, ◌*◌, ◌/◌, ◌%◌, All, ◌<◌, ◌≡◌, ◌≢◌, ◌⊎◌, ◌↔◌, inl, inr, refl, Bool, true, false, List,
  [], ◌∷◌, ◌++◌, Option, some, arith, replicate, length,
}
use modbus_scanner.Coroutine.Chunks.{IsChunk, paused, dropped, run}
use modbus_scanner.Coroutine.{scan_all}
use modbus_scanner.Crc.Detection.{check_crc_rtu_detects}
use modbus_scanner.Crc.Reference.{register, reference, shifts, check_crc_rtu-reference}
use modbus_scanner.Crc.{crchi, crclo, crc_step, crc_loop, crc_start, check_crc_rtu, calc_crc_rtu}
use modbus_scanner.Defs.{Buffer, contents, Pdu, Event, on_pdu, on_nonse}
use modbus_scanner.Request.{Request, print, short, write, read_write, told, request_of}
use modbus_scanner.Rtu
use modbus_scanner.InOrder.{InOrder}
use modbus_scanner.Rtu.Heard.{IsFrame}
use modbus_scanner.Rtu.Soundness.{only_frames_are_told}
use modbus_scanner.Rtu.Stream.{Item, scan_all-line, scan_total, scan_nonsense}
use modbus_scanner.RtuOld
use modbus_scanner.RtuOld.Stream.{scan_each, asked, scanners_agree}
use modbus_scanner.RtuOld.EmptyWrites.{empty_write_lost}
use modbus_scanner.RtuOld.Soundness.{IsDiagnostic, told_have_checksums}
use modbus_scanner.RtuOld.Heard
use modbus_scanner.Scanner.{
  little_endian, big_endian, combine, get_hi_lo, valid_fc, combine-get_hi_lo,
}
use modbus_scanner.Tcp
use modbus_scanner.Tcp.Decode.{empty_write_swallows}
use modbus_scanner.Tcp.Heard.{IsMessage}
use modbus_scanner.Tcp.Soundness.{only_messages_are_told}
use modbus_scanner.Tcp.Stream.{scan_all-messages, scan_refused}

abbrev pub chunk : List ℕ → Buffer
chunk xs = record { bytes = xs ++ replicate (1024 - length xs) 0; actual_size = length xs }

abbrev pub blank : Pdu
blank = record {
  transact_id_1 = 0;
  transact_id_2 = 0;
  fc = 0;
  i16_1 = 0;
  i16_2 = 0;
  i16_3 = 0;
  i16_4 = 0;
  i8_1 = 0;
  payload = [];
}

-- The first request of mb_functions.txt, behind a byte for somebody else.
abbrev pub items : List Item
items = record { noise = 0x55 ∷ []; request = short 1 0x13 0x25 } ∷ []

abbrev pub chunks : List Buffer
chunks = chunk (0x55 ∷ 0x11 ∷ 0x01 ∷ []) ∷ chunk (0x00 ∷ 0x13 ∷ 0x00 ∷ 0x25 ∷ 0x0e ∷ 0x84 ∷ []) ∷ []

pub chunk-IsChunk : IsChunk (chunk (0x55 ∷ 0x11 ∷ 0x01 ∷ []))
chunk-IsChunk = record {
  buffer = record { whole = refl; fits = omega arith };
  not_empty = omega arith;
}

pub chunk'-IsChunk : IsChunk (chunk (0x00 ∷ 0x13 ∷ 0x00 ∷ 0x25 ∷ 0x0e ∷ 0x84 ∷ []))
chunk'-IsChunk = record {
  buffer = record { whole = refl; fits = omega arith };
  not_empty = omega arith;
}

scan_all-line_example :
    (t : Rtu.Scanner) × (scan_all (Rtu.machine little_endian) chunks (Rtu.new 17 blank) ≡ some t)
    × Rtu.Decode.IsReady t
    × (t.calls ≡ on_pdu (record blank { fc = 1; i16_1 = 0x13; i16_2 = 0x25 }) ∷ [])
    × (t.address ≡ 17)
unfolding Rtu.new crc_loop crc_step crchi crclo
scan_all-line_example =
    scan_all-line little_endian items chunks (Rtu.new 17 blank) (inr (refl, refl))
      (record { other = omega arith; fits = omega arith }, tt) (chunk-IsChunk, (chunk'-IsChunk, tt))
      refl

abbrev frame_1 : List ℕ
frame_1 = 0x11 ∷ 0x01 ∷ 0x00 ∷ 0x13 ∷ 0x00 ∷ 0x25 ∷ []

calc_crc_rtu-frame_1 : calc_crc_rtu (chunk frame_1) ≡ record { hi = 0x0e; lo = 0x84 }
unfolding calc_crc_rtu crc_loop crc_step crchi crclo
calc_crc_rtu-frame_1 = refl

check_crc_rtu-reference_example :
    (check_crc_rtu frame_1 0x0e 0x84 ≡ true)
    ↔ ((0x0e ≡ reference 0xffff frame_1 % 256) × (0x84 ≡ reference 0xffff frame_1 / 256))
check_crc_rtu-reference_example = check_crc_rtu-reference frame_1 0x0e 0x84 (omega arith)

-- The quantity and the first byte of the checksum damaged.
check_crc_rtu_detects_example :
    check_crc_rtu (0x11 ∷ 0x01 ∷ 0x00 ∷ 0x13 ∷ 0x00 ∷ 0x24 ∷ []) 0x0f 0x84 ≡ false
unfolding check_crc_rtu crc_loop crc_step crchi crclo
check_crc_rtu_detects_example =
    check_crc_rtu_detects (0x11 ∷ 0x01 ∷ 0x00 ∷ 0x13 ∷ 0x00 ∷ []) (0x84 ∷ []) frame_1
      (0x11 ∷ 0x01 ∷ 0x00 ∷ 0x13 ∷ 0x00 ∷ 0x24 ∷ []) 0x25 0x0e 0x24 0x0f 0x0e 0x84 0x0f 0x84
      (omega arith) (omega arith) (omega arith) refl refl refl (inl (omega arith))

combine-get_hi_lo_example :
    (let r = get_hi_lo little_endian 0x1234 in combine little_endian r.hi r.lo ≡ 0x1234)
    × (get_hi_lo little_endian (combine little_endian 0x12 0x34) ≡ record { hi = 0x12; lo = 0x34 })
    × (get_hi_lo big_endian (combine big_endian 0x12 0x34) ≡ record { hi = 0x34; lo = 0x12 })
combine-get_hi_lo_example =
    combine-get_hi_lo 0x1234 0x12 0x34 (omega arith) (omega arith) (omega arith)

-- The frame breaks off in front of its checksum.
scan_total_example :
    (t : Rtu.Scanner) × (Rtu.scan little_endian (chunk frame_1) (Rtu.new 17 blank) ≡ some t)
    × ((run (Rtu.machine little_endian) frame_1 (Rtu.new 17 blank) ≡ paused t)
        ⊎ (run (Rtu.machine little_endian) frame_1 (Rtu.new 17 blank) ≡ dropped t))
    × Rtu.Decode.Inv t
unfolding Rtu.new
scan_total_example =
    scan_total little_endian (chunk frame_1) (Rtu.new 17 blank)
      (record { buffer = record { whole = refl; fits = omega arith }; not_empty = omega arith })
      (λ e. refl)

scan_nonsense_example :
    (t : Rtu.Scanner) × (Rtu.scan little_endian
        (chunk (frame_1 ++ 0x0e ∷ 0x85 ∷ 0x11 ∷ []))
        (Rtu.new 17 blank)
      ≡ some t)
    × Rtu.Decode.IsReady t
    × (t.calls ≡ on_nonse ∷ [])
unfolding Rtu.new check_crc_rtu crc_loop crc_step crchi crclo
scan_nonsense_example =
    scan_nonsense little_endian (chunk (frame_1 ++ 0x0e ∷ 0x85 ∷ 0x11 ∷ [])) (Rtu.new 17 blank)
      (short 1 0x13 0x25) 0x0e 0x85 0 (0x11 ∷ []) (inr (refl, refl))
      (record { buffer = record { whole = refl; fits = omega arith }; not_empty = omega arith })
      (inl (refl, omega arith, refl))

scanners_agree_example :
    (t : Rtu.Scanner) × (t' : RtuOld.Scanner) × (scan_all
        (Rtu.machine little_endian)
        chunks
        (Rtu.new 17 blank)
      ≡ some t)
    × (scan_each little_endian chunks (RtuOld.new 17 blank) ≡ some t')
    × Rtu.Decode.IsReady t
    × RtuOld.Decode.IsReady t'
    × (told t.calls ≡ some (short 1 0x13 0x25) ∷ [])
    × (told t'.calls ≡ some (short 1 0x13 0x25) ∷ [])
unfolding Rtu.new RtuOld.new crc_loop crc_step crchi crclo
scanners_agree_example =
    scanners_agree little_endian items chunks (Rtu.new 17 blank) (RtuOld.new 17 blank) refl
      (inr (refl, refl)) (record { at_init = refl; no_crc = refl; no_index = refl })
      (record { other = omega arith; fits = omega arith }, tt) (tt, tt)
      (chunk-IsChunk, (chunk'-IsChunk, tt)) refl

empty_write_lost_example :
    let body = 17 ∷ print (write 15 0x13 0 []) in
    let sum = Rtu.Frame.crc_bytes body in
    let t' = RtuOld.Decode.on_chars little_endian (body ++ sum) (RtuOld.new 17 blank) in
    (t'.current_state ≡ RtuOld.m_cs_2_state)
    × (t'.calls ≡ [])
    × ((t : Rtu.Scanner) × (run (Rtu.machine little_endian) (body ++ sum) (Rtu.new 17 blank)
          ≡ paused t)
        × (told t.calls ≡ some (write 15 0x13 0 []) ∷ []))
    × (told (RtuOld.Decode.on_chars little_endian (body ++ 0x55 ∷ sum) (RtuOld.new 17 blank)).calls
        ≡ some (write 15 0x13 0 []) ∷ [])
unfolding Rtu.new RtuOld.new
empty_write_lost_example =
    empty_write_lost little_endian 15 0x13 0 0x55 (Rtu.new 17 blank) (RtuOld.new 17 blank) refl
      (inr (refl, refl)) (record { at_init = refl; no_crc = refl; no_index = refl })
      (inl refl, omega arith, omega arith, omega arith)

-- The message of mb_scanner_test.cpp.
abbrev pub header : Tcp.Decode.Header
header = record {
  transact_id_1 = 0;
  transact_id_2 = 1;
  protocol_1 = 0;
  protocol_2 = 0;
  length_1 = 0;
  length_2 = 6;
}

abbrev pub message_3 : List ℕ
message_3 = 0 ∷ 1 ∷ 0 ∷ 0 ∷ 0 ∷ 6 ∷ 1 ∷ 3 ∷ 0 ∷ 6 ∷ 0 ∷ 2 ∷ []

pub message_3-IsChunk : IsChunk (chunk message_3)
message_3-IsChunk = record {
  buffer = record { whole = refl; fits = omega arith };
  not_empty = omega arith;
}

scan_all-messages_example :
    (t : Tcp.Scanner) × (scan_all
        (Tcp.machine little_endian)
        (chunk message_3 ∷ [])
        (Tcp.new 1 blank)
      ≡ some t)
    × Tcp.Decode.IsReady t
    × (t.calls ≡ on_pdu (record blank { transact_id_2 = 1; fc = 3; i16_1 = 6; i16_2 = 2 }) ∷ [])
unfolding Tcp.new
scan_all-messages_example =
    scan_all-messages little_endian (record { header = header; request = short 3 6 2 } ∷ [])
      (chunk message_3 ∷ []) (Tcp.new 1 blank) (inl refl) ((omega arith, tt), tt)
      (message_3-IsChunk, tt) refl

scan_refused_example :
    (t : Tcp.Scanner) × (Tcp.scan little_endian
        (chunk (0 ∷ 1 ∷ 0 ∷ 0 ∷ 0 ∷ 6 ∷ 1 ∷ 9 ∷ []))
        (Tcp.new 1 blank)
      ≡ some t)
    × Tcp.Decode.IsReady t
    × (t.calls ≡ on_nonse ∷ [])
unfolding Tcp.new valid_fc
scan_refused_example =
    scan_refused little_endian (chunk (0 ∷ 1 ∷ 0 ∷ 0 ∷ 0 ∷ 6 ∷ 1 ∷ 9 ∷ [])) (Tcp.new 1 blank) header
      1 9 [] (on_nonse ∷ []) (inl refl)
      (record { buffer = record { whole = refl; fits = omega arith }; not_empty = omega arith })
      refl (inr (refl, refl, refl))

empty_write_swallows_example :
    let m = Tcp.machine little_endian in
    let body = Tcp.Decode.message 1 header (write 16 6 0 []) in
    ((t : Tcp.Scanner) × (run m body (Tcp.new 1 blank) ≡ paused t) × (t.calls ≡ []))
    × ((t : Tcp.Scanner) × (run m (body ++ 0x55 ∷ []) (Tcp.new 1 blank) ≡ run m [] t)
        × (t.point ≡ Tcp.transact_id_state)
        × (t.calls ≡ on_pdu t.pdu ∷ [])
        × (request_of t.pdu ≡ write 16 6 0 [])
        × (t.pdu.transact_id_1 ≡ 0)
        × (t.pdu.transact_id_2 ≡ 1))
unfolding Tcp.new
empty_write_swallows_example =
    empty_write_swallows little_endian header 16 6 0 0x55 (Tcp.new 1 blank) [] (inl refl) (inr refl)
