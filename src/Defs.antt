-- ===== src/Defs.antt =====
-- defs.h: the chunk of input `buffer_c`, the decoded request `pdu_c`, and the calls that a
-- scanner makes of its user.
use modbus_scanner.Base.{
  ℕ, ◌+◌, ◌≤◌, List, Option, some, none, ◌≡◌, if◌then◌else◌, ltb, length, take, set,
}

pub data Protocol : Type 0 where
  master_rtu master_ascii master_tcp slave_rtu slave_ascii slave_tcp slave_rtu_old : Protocol

abbrev pub buf_size : ℕ
buf_size = 1024

-- `std::array<uint8_t, BUF_SIZE>` with `m_actual_size`.
pub record Buffer : Type 0 where
  pub bytes : List ℕ
  pub actual_size : ℕ

unfoldable pub set_actual_size : Buffer → ℕ → Buffer
set_actual_size b sz = record b { actual_size = sz }

-- `none` is the write past the array, which has no bounds check.
unfoldable pub add : Buffer → ℕ → Option Buffer
add b uc =
    if ltb b.actual_size (length b.bytes)
    then some (record { bytes = set b.bytes b.actual_size uc; actual_size = b.actual_size + 1 })
    else none

-- The bytes in use.
abbrev pub contents : Buffer → List ℕ
contents b = take b.actual_size b.bytes

-- The array has its size, and the bytes in use lie in it.
pub record IsBuffer (b : Buffer) : Type 0 where
  pub whole : length b.bytes ≡ buf_size
  pub fits : b.actual_size ≤ buf_size

pub record Pdu : Type 0 where
  pub transact_id_1 : ℕ
  pub transact_id_2 : ℕ
  pub fc : ℕ
  pub i16_1 : ℕ
  pub i16_2 : ℕ
  pub i16_3 : ℕ
  pub i16_4 : ℕ
  pub i8_1 : ℕ
  pub payload : List ℕ  -- m_data

-- A call of `m_pdu_cb` or of `m_nonse_cb`.
pub data Event : Type 0 where
  on_pdu : Pdu → Event
  on_nonse : Event
