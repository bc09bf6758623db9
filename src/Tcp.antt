-- ===== src/Tcp.antt =====
-- slave_tcp_scanner.cpp: the coroutine `scan_co` as a machine over bytes. A point is a place
-- where the coroutine may be suspended, named after what it reads next.
pub mod Decode
pub mod Stream
pub mod Heard
pub mod HeardSteps
pub mod Soundness
use modbus_scanner.Base.{
  ℕ, ◌+◌, ◌%◌, false, ◌||◌, List, [], ◌∷◌, ◌++◌, Option, ◌==◌, ltb, if◌then◌else◌,
}
use modbus_scanner.Coroutine
use modbus_scanner.Coroutine.{Next, more, drop, Machine}
use modbus_scanner.Defs.{Buffer, Pdu, Event, on_pdu, on_nonse}
use modbus_scanner.Scanner.{Order, scanner_c, combine, valid_fc}

pub data Point : Type 0 where
  pre_transact_state : Point  -- in `sink` there
  transact_id_state transact_id_2_state protocol_id_state protocol_id_2_state : Point
  length_state length_2_state unit_id_state function_state : Point
  i16_1_hi_state i16_1_lo_state i16_2_hi_state i16_2_lo_state : Point
  i16_3_hi_state i16_3_lo_state i16_4_hi_state i16_4_lo_state i8_1_state data_state : Point

-- The members of `scanner_c`, the local variables of `scan_co`, and the calls made so far.
pub record Scanner : Type 0 where
  pub address : ℕ  -- m_address
  pub pdu : Pdu  -- m_pdu
  pub point : Point
  pub length_1 : ℕ
  pub length : ℕ
  pub fc : ℕ
  pub i16_1_hi : ℕ
  pub i16_1_lo : ℕ
  pub i16_2_hi : ℕ
  pub i16_2_lo : ℕ
  pub i16_3_hi : ℕ
  pub i16_3_lo : ℕ
  pub i16_4_hi : ℕ
  pub i16_4_lo : ℕ
  pub ix : ℕ
  pub calls : List Event

-- The constructor: the base class leaves `m_pdu` as the memory is, and the coroutine runs up to
-- its first `sink`. Locals that the source leaves unset are written before they are read.
unfoldable pub new : ℕ → Pdu → Scanner
new address uninitialised = record {
  address = (scanner_c address uninitialised).address;
  pdu = (scanner_c address uninitialised).pdu;
  point = pre_transact_state;
  length_1 = 0;
  length = 0;
  fc = 0;
  i16_1_hi = 0;
  i16_1_lo = 0;
  i16_2_hi = 0;
  i16_2_lo = 0;
  i16_3_hi = 0;
  i16_3_lo = 0;
  i16_4_hi = 0;
  i16_4_lo = 0;
  ix = 0;
  calls = [];
}

-- Up to the next `check_buf_end`.
abbrev to : Point → Scanner → Next Scanner
to p s = more (record s { point = p })

transact_id : Scanner → ℕ → Next Scanner
transact_id s c = to transact_id_2_state (record s { pdu = record (s.pdu) { transact_id_1 = c } })

-- `m_pdu` as it is handed to `m_pdu_cb`.
abbrev pub finished : Order → Scanner → Pdu
finished order s = record (s.pdu) {
  fc = s.fc;
  i16_1 = combine order s.i16_1_hi s.i16_1_lo;
  i16_2 = combine order s.i16_2_hi s.i16_2_lo;
}

-- whole_pdu, up to its `check_buf_end`.
unfoldable pub whole_pdu : Order → Scanner → Next Scanner
whole_pdu order s =
    to transact_id_state
      (record s { pdu = finished order s; calls = s.calls ++ on_pdu (finished order s) ∷ [] })

unit_id : Scanner → ℕ → Next Scanner
unit_id s c =
    if c == s.address then to function_state s else drop (record s { point = pre_transact_state })

function : Scanner → ℕ → Next Scanner
function s c =
    if valid_fc c
    then to i16_1_hi_state (record s { fc = c })
    else drop (record s { calls = s.calls ++ on_nonse ∷ []; point = pre_transact_state })

-- `switch( fc )` behind the second number.
i16_2_lo : Order → Scanner → ℕ → Next Scanner
i16_2_lo order s c =
    let t = record s { i16_2_lo = c } in
    if t.fc == 23
    then to i16_3_hi_state t
    else if t.fc == 15 || t.fc == 16
    then to i8_1_state t
    else whole_pdu order t

i16_4_lo : Order → Scanner → ℕ → Next Scanner
i16_4_lo order s c = to i8_1_state (record s {
  i16_4_lo = c;
  pdu = record (s.pdu) {
    i16_3 = combine order s.i16_3_hi s.i16_3_lo;
    i16_4 = combine order s.i16_4_hi c;
  };
})

-- The loop over the payload, from its test on. With nothing to read, the byte is left unread.
data_byte : Order → Scanner → ℕ → Next Scanner
data_byte order s c =
    let t = record s {
      ix = s.ix + 1;
      pdu = record (s.pdu) { payload = s.pdu.payload ++ c ∷ [] };
    } in
    if ltb s.ix s.pdu.i8_1
    then if ltb t.ix t.pdu.i8_1 then to data_state t else whole_pdu order t
    else whole_pdu order s

unfoldable pub step_at : Order → Point → Scanner → ℕ → Next Scanner
unfolding transact_id whole_pdu unit_id function i16_2_lo i16_4_lo data_byte
step_at order pre_transact_state s c = transact_id s c
step_at order transact_id_state s c = transact_id s c
step_at order transact_id_2_state s c =
    to protocol_id_state (record s { pdu = record (s.pdu) { transact_id_2 = c } })
step_at order protocol_id_state s c = to protocol_id_2_state s
step_at order protocol_id_2_state s c = to length_state s
step_at order length_state s c = to length_2_state (record s { length_1 = c })
step_at order length_2_state s c =
    to unit_id_state (record s { length = combine order s.length_1 c })
step_at order unit_id_state s c = unit_id s c
step_at order function_state s c = function s c
step_at order i16_1_hi_state s c = to i16_1_lo_state (record s { i16_1_hi = c })
step_at order i16_1_lo_state s c = to i16_2_hi_state (record s { i16_1_lo = c })
step_at order i16_2_hi_state s c = to i16_2_lo_state (record s { i16_2_hi = c })
step_at order i16_2_lo_state s c = i16_2_lo order s c
step_at order i16_3_hi_state s c = to i16_3_lo_state (record s { i16_3_hi = c })
step_at order i16_3_lo_state s c = to i16_4_hi_state (record s { i16_3_lo = c })
step_at order i16_4_hi_state s c = to i16_4_lo_state (record s { i16_4_hi = c })
step_at order i16_4_lo_state s c = i16_4_lo order s c
step_at order i8_1_state s c =
    to data_state (record s { ix = 0; pdu = record (s.pdu) { payload = []; i8_1 = c } })
step_at order data_state s c = data_byte order s c

-- No state of this scanner tests for the end of the chunk before it reads.
abbrev pub machine : Order → Machine Scanner
machine order = record {
  step = λ s c. step_at order s.point s c;
  waits = λ s. false;
  rewind = λ s. s;
}

-- `slave_tcp_scanner_c::scan`
unfoldable pub scan : Order → Buffer → Scanner → Option Scanner
scan order = Coroutine.scan (machine order)
