-- ===== src/Scanner.antt =====
-- scanner.h, scanner.cpp and endians.h: the base class of the scanners, the order of bytes in
-- memory, 16-bit numbers and their two bytes, and the function codes that the scanners take.
use modbus_scanner.Base.{ℕ, ◌+◌, ◌*◌, ◌/◌, ◌%◌, ◌<◌, Bool, ◌||◌, ◌≡◌, arith, ◌==◌, if◌then◌else◌}
use modbus_scanner.Defs.{Pdu}

-- The members of the base class of the scanners that carry state between two requests. The user's
-- functions and pointer are only handed back, as the calls that a scanner makes.
pub record ScannerC : Type 0 where
  pub address : ℕ  -- m_address
  pub pdu : Pdu  -- m_pdu

-- Its constructor: an int is narrowed to uint8_t, and `m_pdu` is left as the memory is.
abbrev pub scanner_c : ℕ → Pdu → ScannerC
scanner_c address uninitialised = record { address = address % 256; pdu = uninitialised }

-- The order in which the machine stores the bytes of a number.
pub data Order : Type 0 where
  little_endian big_endian : Order

-- `endian_c::magic_`, the first byte in memory of 0x01020304.
pub magic : Order → ℕ
magic little_endian = 0x04
magic big_endian = 0x01

-- `endian_c::little`
pub little : Order → Bool
unfolding magic
little order = magic order == 0x04

-- `aux_two_bytes_u`: the number that two bytes in memory are.
pub m_ui16 : Order → ℕ → ℕ → ℕ
m_ui16 little_endian byte0 byte1 = byte1 * 256 + byte0
m_ui16 big_endian byte0 byte1 = byte0 * 256 + byte1

unfoldable pub combine : Order → ℕ → ℕ → ℕ
unfolding m_ui16 little
combine order hi lo = if little order then m_ui16 order lo hi else m_ui16 order hi lo

pub record HiLo : Type 0 where
  pub hi : ℕ
  pub lo : ℕ

unfoldable pub get_hi_lo : Order → ℕ → HiLo
unfolding little
get_hi_lo order reg =
    if little order
    then record { hi = reg / 256 % 256; lo = reg % 256 }
    else record { hi = reg % 256; lo = reg / 256 % 256 }

unfoldable pub valid_fc : ℕ → Bool
valid_fc f =
    f == 1 || f == 2 || f == 3 || f == 4 || f == 5 || f == 6 || f == 15 || f == 16 || f == 23

-- `combine` gives the number with these two bytes on either kind of machine.
pub combine_lem : (order : Order) (hi lo : ℕ) → combine order hi lo ≡ hi * 256 + lo
unfolding combine
combine_lem little_endian hi lo = ground arith
combine_lem big_endian hi lo = ground arith

-- On a little-endian machine `get_hi_lo` and `combine` undo one another: a 16-bit number is put
-- together again from its two bytes, and two bytes are read off again from their number. On a
-- big-endian machine `get_hi_lo` swaps the two bytes of every number that `combine` makes.
pub combine-get_hi_lo :
    (reg hi lo : ℕ)
    → reg < 65536
    → hi < 256
    → lo < 256
    → (let r = get_hi_lo little_endian reg in combine little_endian r.hi r.lo ≡ reg)
      × (get_hi_lo little_endian (combine little_endian hi lo) ≡ record { hi = hi; lo = lo })
      × (get_hi_lo big_endian (combine big_endian hi lo) ≡ record { hi = lo; lo = hi })
unfolding combine get_hi_lo
combine-get_hi_lo reg hi lo r h l = (ground arith, ground arith, ground arith)
