-- ===== src/Rtu.antt =====
-- slave_rtu_scanner.cpp: the coroutine `scan_co` as a machine over bytes. A point is a place
-- where the coroutine may be suspended, named after what it reads next.
pub mod Frame
pub mod Decode
pub mod Stream
pub mod Spelled
pub mod Heard
pub mod HeardNumbers
pub mod Soundness
pub mod Unlogged
pub mod Logged
use modbus_scanner.Base.{
  ℕ, ◌+◌, ◌%◌, Bool, true, false, ◌||◌, List, [], ◌∷◌, ◌++◌, Option, ◌==◌, ltb, if◌then◌else◌,
}
use modbus_scanner.Coroutine.{Next, more, skip, drop, Machine}
use modbus_scanner.Coroutine
use modbus_scanner.Crc.{check_crc_rtu}
use modbus_scanner.Defs.{Buffer, Pdu, Event, on_pdu, on_nonse}
use modbus_scanner.Scanner.{Order, scanner_c, combine, valid_fc}

pub data Point : Type 0 where
  pre_address_state : Point  -- in `sink` there, or in the loop of address_state
  pdu_done : Point  -- in the `check_buf_end` after `m_pdu_cb`
  function_state i16_1_hi_state i16_1_lo_state i16_2_hi_state i16_2_lo_state : Point
  i16_3_hi_state i16_3_lo_state i16_4_hi_state i16_4_lo_state : Point
  i8_1_state data_state crc_hi_state crc_low_state : Point

-- The members of `scanner_c`, the local variables of `scan_co`, and the calls made so far.
pub record Scanner : Type 0 where
  pub address : ℕ  -- m_address
  pub pdu : Pdu  -- m_pdu
  pub point : Point
  pub fc : ℕ
  pub i16_1_hi : ℕ
  pub i16_1_lo : ℕ
  pub i16_2_hi : ℕ
  pub i16_2_lo : ℕ
  pub i16_3_hi : ℕ
  pub i16_3_lo : ℕ
  pub i16_4_hi : ℕ
  pub i16_4_lo : ℕ
  pub crc_buf : List ℕ
  pub crc_hi : ℕ
  pub ix : ℕ
  pub calls : List Event

abbrev pub initial_state : Scanner → Scanner
initial_state s = record s { crc_buf = []; point = pre_address_state }

-- The constructor: the base class leaves `m_pdu` as the memory is, and the coroutine runs up to
-- its first `sink`.
unfoldable pub new : ℕ → Pdu → Scanner
new address uninitialised = record {
  address = (scanner_c address uninitialised).address;
  pdu = (scanner_c address uninitialised).pdu;
  point = pre_address_state;
  fc = 0;
  i16_1_hi = 0;
  i16_1_lo = 0;
  i16_2_hi = 0;
  i16_2_lo = 0;
  i16_3_hi = 0;
  i16_3_lo = 0;
  i16_4_hi = 0;
  i16_4_lo = 0;
  crc_buf = [];
  crc_hi = 0;
  ix = 0;
  calls = [];
}

-- `crc_buf.push_back`, and the point behind the next `check_buf_end`.
abbrev push : ℕ → Point → Scanner → Scanner
push c p s = record s { crc_buf = s.crc_buf ++ c ∷ []; point = p }

-- address_state, at a byte of the chunk.
address_state : Scanner → ℕ → Next Scanner
address_state s c =
    if s.address == c
    then more (push c function_state s)
    else skip (record s { point = pre_address_state })

function : Scanner → ℕ → Next Scanner
function s c =
    if valid_fc c
    then more (push c i16_1_hi_state (record s { fc = c }))
    else drop (initial_state (record s { calls = s.calls ++ on_nonse ∷ [] }))

-- `switch( fc )` behind the second number.
pub after_i16_2 : ℕ → Point
after_i16_2 fc =
    if fc == 23 then i16_3_hi_state else if fc == 15 || fc == 16 then i8_1_state else crc_hi_state

-- The test of the data loop.
abbrev pub data_loop : ℕ → ℕ → Point
data_loop ix count = if ltb ix count then data_state else crc_hi_state

i16_4_lo : Order → Scanner → ℕ → Next Scanner
i16_4_lo order s c = more (
    push c i8_1_state (record s {
      i16_4_lo = c;
      pdu = record (s.pdu) {
        i16_3 = combine order s.i16_3_hi s.i16_3_lo;
        i16_4 = combine order s.i16_4_hi c;
      };
    }))

i8_1 : Scanner → ℕ → Next Scanner
i8_1 s c =
    more (
      push c (data_loop 0 c) (record s { ix = 0; pdu = record (s.pdu) { payload = []; i8_1 = c } }))

data_byte : Scanner → ℕ → Next Scanner
data_byte s c = more (
    push c (data_loop (s.ix + 1) s.pdu.i8_1)
      (record s { ix = s.ix + 1; pdu = record (s.pdu) { payload = s.pdu.payload ++ c ∷ [] } }))

-- `m_pdu` as it is handed to `m_pdu_cb`.
abbrev pub finished : Order → Scanner → Pdu
finished order s = record (s.pdu) {
  fc = s.fc;
  i16_1 = combine order s.i16_1_hi s.i16_1_lo;
  i16_2 = combine order s.i16_2_hi s.i16_2_lo;
}

crc_low : Order → Scanner → ℕ → Next Scanner
crc_low order s c =
    if check_crc_rtu s.crc_buf s.crc_hi c
    then more (record s {
      pdu = finished order s;
      calls = s.calls ++ on_pdu (finished order s) ∷ [];
      point = pdu_done;
    })
    else drop (initial_state (record s { calls = s.calls ++ on_nonse ∷ [] }))

unfoldable pub step_at : Order → Point → Scanner → ℕ → Next Scanner
unfolding address_state function after_i16_2 i16_4_lo i8_1 data_byte crc_low
step_at order pre_address_state s c = address_state s c
step_at order pdu_done s c = address_state (record s { crc_buf = [] }) c
step_at order function_state s c = function s c
step_at order i16_1_hi_state s c = more (push c i16_1_lo_state (record s { i16_1_hi = c }))
step_at order i16_1_lo_state s c = more (push c i16_2_hi_state (record s { i16_1_lo = c }))
step_at order i16_2_hi_state s c = more (push c i16_2_lo_state (record s { i16_2_hi = c }))
step_at order i16_2_lo_state s c = more (push c (after_i16_2 s.fc) (record s { i16_2_lo = c }))
step_at order i16_3_hi_state s c = more (push c i16_3_lo_state (record s { i16_3_hi = c }))
step_at order i16_3_lo_state s c = more (push c i16_4_hi_state (record s { i16_3_lo = c }))
step_at order i16_4_hi_state s c = more (push c i16_4_lo_state (record s { i16_4_hi = c }))
step_at order i16_4_lo_state s c = i16_4_lo order s c
step_at order i8_1_state s c = i8_1 s c
step_at order data_state s c = data_byte s c
step_at order crc_hi_state s c = more (record s { crc_hi = c; point = crc_low_state })
step_at order crc_low_state s c = crc_low order s c

-- Before the test for the end of the chunk in address_state.
abbrev pub waits : Point → Bool
waits pre_address_state = true
waits pdu_done = true
waits _ = false

abbrev pub machine : Order → Machine Scanner
machine order = record {
  step = λ s c. step_at order s.point s c;
  waits = λ s. waits s.point;
  rewind = initial_state;
}

-- `slave_rtu_scanner_c::scan`
unfoldable pub scan : Order → Buffer → Scanner → Option Scanner
scan order = Coroutine.scan (machine order)
