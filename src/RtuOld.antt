-- ===== src/RtuOld.antt =====
-- slave_rtu_old.cpp and slave_rtu_old.h: the scanner with one class for each state. The pointer
-- to the current state object is the member that it points to.
pub mod Decode
pub mod Stream
pub mod EmptyWrites
pub mod Heard
pub mod HeardSteps
pub mod HeardData
pub mod Soundness
use modbus_scanner.Base.{
  ℕ, zero, suc, ◌+◌, ◌%◌, Bool, ◌||◌, List, [], ◌∷◌, ◌++◌, Option, none, some, ◌==◌, ltb,
  if◌then◌else◌,
}
use modbus_scanner.Crc.{check_crc_rtu}
use modbus_scanner.Defs.{Buffer, Pdu, Event, on_pdu, on_nonse}
use modbus_scanner.Scanner.{Order, scanner_c, combine, valid_fc}

pub data StateEnum : Type 0 where
  init_state_e fc_state_e i16_1_hi_state_e i16_1_lo_state_e i16_2_hi_state_e : StateEnum
  i16_2_lo_state_e i16_3_hi_state_e i16_3_lo_state_e i16_4_hi_state_e : StateEnum
  i16_4_lo_state_e i8_1_state_e data_state_e sub_diag_1_state_e sub_diag_2_state_e : StateEnum
  diag_data_1_state_e diag_data_2_state_e checksum_1_state_e checksum_2_state_e : StateEnum

-- The objects of the state classes, which the scanner has one of each as a member. Only that of
-- `data_state` has a member besides its owner, the index.
pub data ScanState : Type 0 where
  m_init_state m_fc_state m_i16_1_hi_state m_i16_1_lo_state m_i16_2_hi_state : ScanState
  m_i16_2_lo_state m_i16_3_hi_state m_i16_3_lo_state m_i16_4_hi_state m_i16_4_lo_state : ScanState
  m_i8_1_state m_data_state m_sub_diag_1_state m_sub_diag_2_state : ScanState
  m_diag_data_1_state m_diag_data_2_state m_cs_1_state m_cs_2_state : ScanState

-- The members of `scanner_c` and `slave_rtu_old_c`, the index of `data_state`, and the calls
-- made so far. `m_calculated_crc_hi` and `m_calculated_crc_lo` are never read.
pub record Scanner : Type 0 where
  pub address : ℕ
  pub pdu : Pdu
  pub current_state : ScanState  -- what m_p_current_state points to
  pub fc : ℕ
  pub i16_1_hi : ℕ
  pub i16_1_lo : ℕ
  pub i16_2_hi : ℕ
  pub i16_2_lo : ℕ
  pub i16_3_hi : ℕ
  pub i16_3_lo : ℕ
  pub i16_4_hi : ℕ
  pub i16_4_lo : ℕ
  pub i8_1 : ℕ
  pub crc1 : ℕ
  pub crc2 : ℕ
  pub crc_buffer : List ℕ
  pub sub_diag1 : ℕ
  pub sub_diag2 : ℕ
  pub diag_data1 : ℕ
  pub diag_data2 : ℕ
  pub index : ℕ  -- m_data_state.m_index
  pub calls : List Event

unfoldable pub new : ℕ → Pdu → Scanner
new address uninitialised = record {
  address = (scanner_c address uninitialised).address;
  pdu = (scanner_c address uninitialised).pdu;
  current_state = m_init_state;
  fc = 0;
  i16_1_hi = 0;
  i16_1_lo = 0;
  i16_2_hi = 0;
  i16_2_lo = 0;
  i16_3_hi = 0;
  i16_3_lo = 0;
  i16_4_hi = 0;
  i16_4_lo = 0;
  i8_1 = 0;
  crc1 = 0;
  crc2 = 0;
  crc_buffer = [];
  sub_diag1 = 0;
  sub_diag2 = 0;
  diag_data1 = 0;
  diag_data2 = 0;
  index = 0;
  calls = [];
}

put_in_buffer : ℕ → Scanner → Scanner
put_in_buffer c s = record s { crc_buffer = s.crc_buffer ++ c ∷ [] }

-- The object that `switch_state` lets the pointer point to.
abbrev pub state_object : StateEnum → ScanState
state_object init_state_e = m_init_state
state_object fc_state_e = m_fc_state
state_object i16_1_hi_state_e = m_i16_1_hi_state
state_object i16_1_lo_state_e = m_i16_1_lo_state
state_object i16_2_hi_state_e = m_i16_2_hi_state
state_object i16_2_lo_state_e = m_i16_2_lo_state
state_object i16_3_hi_state_e = m_i16_3_hi_state
state_object i16_3_lo_state_e = m_i16_3_lo_state
state_object i16_4_hi_state_e = m_i16_4_hi_state
state_object i16_4_lo_state_e = m_i16_4_lo_state
state_object i8_1_state_e = m_i8_1_state
state_object data_state_e = m_data_state
state_object sub_diag_1_state_e = m_sub_diag_1_state
state_object sub_diag_2_state_e = m_sub_diag_2_state
state_object diag_data_1_state_e = m_diag_data_1_state
state_object diag_data_2_state_e = m_diag_data_2_state
state_object checksum_1_state_e = m_cs_1_state
state_object checksum_2_state_e = m_cs_2_state

switch_state : StateEnum → Scanner → Scanner
switch_state init_state_e s = record s { crc_buffer = []; current_state = m_init_state }
switch_state se s = record s { current_state = state_object se }

clear_value : Scanner → Scanner
clear_value s = record s { pdu = record (s.pdu) { payload = [] } }

put_value_char : ℕ → Scanner → Scanner
unfolding put_in_buffer
put_value_char c s =
    put_in_buffer c (record s { pdu = record (s.pdu) { payload = s.pdu.payload ++ c ∷ [] } })

-- `m_pdu` as it is handed to `m_pdu_cb`.
abbrev pub finished : Order → Scanner → Pdu
finished order s = record (s.pdu) {
  fc = s.fc;
  i16_1 = combine order s.i16_1_hi s.i16_1_lo;
  i16_2 = combine order s.i16_2_hi s.i16_2_lo;
  i8_1 = s.i8_1;
  i16_3 = combine order s.i16_3_hi s.i16_3_lo;
  i16_4 = combine order s.i16_4_hi s.i16_4_lo;
}

process_pdu : Order → Scanner → Scanner
unfolding switch_state
process_pdu order s = switch_state init_state_e (
    if check_crc_rtu s.crc_buffer s.crc1 s.crc2
    then record s { pdu = finished order s; calls = s.calls ++ on_pdu (finished order s) ∷ [] }
    else record s { calls = s.calls ++ on_nonse ∷ [] })

-- The `on_char` of each state.
fc_state : Scanner → ℕ → Scanner
unfolding switch_state put_in_buffer
fc_state s c =
    if valid_fc c
    then put_in_buffer c (
        switch_state (if c == 8 then sub_diag_1_state_e else i16_1_hi_state_e)
          (record s { fc = c }))
    else switch_state init_state_e s

pub after_i16_2 : ℕ → StateEnum
after_i16_2 fc =
    if fc == 15 || fc == 16
    then i8_1_state_e
    else if fc == 23
    then i16_3_hi_state_e
    else checksum_1_state_e

-- The last lines of `data_state::on_char`.
data_done : Scanner → Scanner
unfolding switch_state
data_done s =
    if s.index == s.i8_1 then switch_state checksum_1_state_e (record s { index = 0 }) else s

data_state : Scanner → ℕ → Scanner
unfolding put_value_char data_done
data_state s c =
    data_done (
      if ltb s.index s.i8_1 then record (put_value_char c s) { index = (s.index + 1) % 256 } else s)

init_state : Scanner → ℕ → Scanner
unfolding put_in_buffer switch_state
init_state s c = if c == s.address then switch_state fc_state_e (put_in_buffer c s) else s

-- Keep the byte for the checksum and go on.
abbrev keep : ℕ → StateEnum → Scanner → Scanner
keep c se s = switch_state se (put_in_buffer c s)

unfoldable pub on_char_at : Order → ScanState → Scanner → ℕ → Scanner
unfolding init_state fc_state after_i16_2 data_state process_pdu switch_state put_in_buffer
    clear_value
on_char_at order m_init_state s c = init_state s c
on_char_at order m_fc_state s c = fc_state s c
on_char_at order m_i16_1_hi_state s c = keep c i16_1_lo_state_e (record s { i16_1_hi = c })
on_char_at order m_i16_1_lo_state s c = keep c i16_2_hi_state_e (record s { i16_1_lo = c })
on_char_at order m_i16_2_hi_state s c = keep c i16_2_lo_state_e (record s { i16_2_hi = c })
on_char_at order m_i16_2_lo_state s c = keep c (after_i16_2 s.fc) (record s { i16_2_lo = c })
on_char_at order m_i16_3_hi_state s c = keep c i16_3_lo_state_e (record s { i16_3_hi = c })
on_char_at order m_i16_3_lo_state s c = keep c i16_4_hi_state_e (record s { i16_3_lo = c })
on_char_at order m_i16_4_hi_state s c = keep c i16_4_lo_state_e (record s { i16_4_hi = c })
on_char_at order m_i16_4_lo_state s c = keep c i8_1_state_e (record s { i16_4_lo = c })
on_char_at order m_i8_1_state s c =
    switch_state data_state_e (clear_value (put_in_buffer c (record s { i8_1 = c })))
on_char_at order m_data_state s c = data_state s c
on_char_at order m_sub_diag_1_state s c = keep c sub_diag_2_state_e (record s { sub_diag1 = c })
on_char_at order m_sub_diag_2_state s c = keep c diag_data_1_state_e (record s { sub_diag2 = c })
on_char_at order m_diag_data_1_state s c = keep c diag_data_2_state_e (record s { diag_data1 = c })
on_char_at order m_diag_data_2_state s c = keep c checksum_1_state_e (record s { diag_data2 = c })
on_char_at order m_cs_1_state s c = switch_state checksum_2_state_e (record s { crc1 = c })
on_char_at order m_cs_2_state s c = process_pdu order (record s { crc2 = c })

abbrev pub on_char : Order → Scanner → ℕ → Scanner
on_char order s c = on_char_at order s.current_state s c

-- The loop of `scan`: the array from `ix` on, and `actual_size - ix`. A read past the end of the
-- array is `none`. `ix` is a uint16_t, which is enough for `BUF_SIZE`.
unfoldable pub scan_loop : Order → List ℕ → ℕ → Scanner → Option Scanner
scan_loop order bytes zero s = some s
scan_loop order [] (suc n) s = none
scan_loop order (c ∷ cs) (suc n) s = scan_loop order cs n (on_char order s c)

-- A null pointer is `none`.
unfoldable pub scan : Order → Option Buffer → Scanner → Option Scanner
unfolding scan_loop
scan order none s = some s
scan order (some b) s = scan_loop order b.bytes b.actual_size s
