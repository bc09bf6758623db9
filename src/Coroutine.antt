-- ===== src/Coroutine.antt =====
-- The coroutine discipline that slave_rtu_scanner.cpp and slave_tcp_scanner.cpp share: the
-- body runs over one chunk of input from byte `m_ix` on, suspends in `check_buf_end` when the
-- chunk is used up, and suspends at once where it goes back to its initial state.
pub mod Chunks
pub mod Following
use modbus_scanner.Base.{ℕ, ◌+◌, Bool, true, false, ◌&&◌, List, [], ◌∷◌, Option, none, some, ◌==◌}
use modbus_scanner.Defs.{Buffer}

-- What the body does from one read of the input to the next place where it may suspend:
-- `more` is `check_buf_end`; `skip` is `m_ix++` in a loop that tests for the end itself;
-- `drop` is a jump to the initial state, which suspends whatever is left of the chunk.
pub data Next (S : Type 0) : Type 0 where
  more : S → Next S
  skip : S → Next S
  drop : S → Next S

-- A scanner's body: its reaction to a byte, whether it stands before a test for the end of the
-- chunk, and what it does where that test succeeds.
pub record Machine (S : Type 0) : Type 0 where
  pub step : S → ℕ → Next S
  pub waits : S → Bool
  pub rewind : S → S

module _ {S : Type 0} (m : Machine S) where
  -- The list is the array from `m_ix` on, and `size` is `m_p_input->actual_size()`. A read past
  -- the end of the array is `none`. A read of an array byte behind `size` is not told from others
  -- here: that there is none is seen from outcomes that do not depend on those bytes.
  unfoldable pub resume : List ℕ → ℕ → ℕ → S → Option S
  resume [] ix size s = elim (m.waits s && ix == size) [ true ↦ some (m.rewind s) | false ↦ none ]
  resume (c ∷ cs) ix size s = elim (m.waits s && ix == size) [
    | true ↦ some (m.rewind s)
    | false ↦ elim (m.step s c) [
      | drop t ↦ some t
      | skip t ↦ resume cs (ix + 1) size t
      | more t ↦ elim (ix + 1 == size) [ true ↦ some t | false ↦ resume cs (ix + 1) size t ]
    ]
  ]

  -- `scan`: the new chunk, `m_ix = 0`, and a switch to the coroutine.
  unfoldable pub scan : Buffer → S → Option S
  unfolding resume
  scan p_input s = resume p_input.bytes 0 p_input.actual_size s

  -- Successive calls of `scan`.
  unfoldable pub scan_all : List Buffer → S → Option S
  unfolding scan
  scan_all [] s = some s
  scan_all (b ∷ bs) s = elim (scan b s) [ none ↦ none | some t ↦ scan_all bs t ]
