-- ===== src/RtuOld/Heard.antt =====
-- slave_rtu_old.cpp, byte by byte: what has been read of a frame, and what its user was told.
use mathlib.Core.Path.{subst}
use modbus_scanner.Base.{
  ℕ, ◌<◌, ◌≡◌, sym, ap, ◌∙◌, ◌⊎◌, true, List, [], ◌∷◌, ◌++◌, ◌==◌, length, All-append, IsBytes,
  append_assoc, append-nil,
}
use modbus_scanner.Defs.{Pdu}
use modbus_scanner.Request.{print, request_of}
use modbus_scanner.Rtu.Frame.{crc_bytes}
use modbus_scanner.RtuOld.{
  Scanner, ScanState, m_init_state, m_fc_state, m_i16_1_hi_state, m_i16_1_lo_state,
  m_i16_2_hi_state, m_i16_2_lo_state, m_i16_3_hi_state, m_i16_3_lo_state, m_i16_4_hi_state,
  m_i16_4_lo_state, m_i8_1_state, m_data_state, m_cs_1_state, m_cs_2_state, finished,
}
use modbus_scanner.InOrder.{InOrder, read_on}
use modbus_scanner.Scanner.{Order}
use modbus_scanner.Spelled
use modbus_scanner.Spelled.{
  Locals, Bool-cases, takes_payload, HasTwo, HasFour, short_request, long_request,
}

-- Between a request and its checksum there is nothing, or one byte where a request that has a
-- payload has an empty one.
abbrev pub Gap : Pdu → List ℕ → Type 0
Gap p between =
    (between ≡ []) ⊎ ((length between ≡ 1) × (length p.payload ≡ 0) × (takes_payload p.fc ≡ true))

-- The bytes of a request that the user is told of, with its right checksum.
abbrev pub IsFrame : ℕ → Pdu → List ℕ → Type 0
IsFrame address p bytes =
    let body = address ∷ print (request_of p) in
    (between : List ℕ) × (bytes ≡ body ++ (between ++ crc_bytes body)) × Gap p between

abbrev pub locals : Scanner → Locals
locals s = record {
  i16_1_hi = s.i16_1_hi;
  i16_1_lo = s.i16_1_lo;
  i16_2_hi = s.i16_2_hi;
  i16_2_lo = s.i16_2_lo;
  i16_3_hi = s.i16_3_hi;
  i16_3_lo = s.i16_3_lo;
  i16_4_hi = s.i16_4_hi;
  i16_4_lo = s.i16_4_lo;
}

abbrev pub six : Scanner → List ℕ
six s = s.address ∷ Spelled.six s.fc (locals s)

abbrev pub spelled : Scanner → List ℕ
spelled s = s.address ∷ Spelled.spelled s.fc (locals s)

-- What has been read of the frame that is under way.
abbrev pub under_way : ScanState → Scanner → List ℕ → List ℕ
under_way m_init_state s between = []
under_way m_cs_1_state s between = s.crc_buffer ++ between
under_way m_cs_2_state s between = s.crc_buffer ++ (between ++ s.crc1 ∷ [])
under_way _ s between = s.crc_buffer

module _ (order : Order) where
  abbrev pub Partial : ScanState → Scanner → List ℕ → Type 0
  Partial m_init_state s between = (s.crc_buffer ≡ []) × (s.index ≡ 0)
  Partial m_fc_state s between = (s.crc_buffer ≡ s.address ∷ []) × (s.index ≡ 0)
  Partial m_i16_1_hi_state s between = (s.crc_buffer ≡ s.address ∷ s.fc ∷ []) × (s.index ≡ 0)
  Partial m_i16_1_lo_state s between =
      (s.crc_buffer ≡ s.address ∷ s.fc ∷ s.i16_1_hi ∷ []) × (s.index ≡ 0)
  Partial m_i16_2_hi_state s between =
      (s.crc_buffer ≡ s.address ∷ s.fc ∷ s.i16_1_hi ∷ s.i16_1_lo ∷ []) × (s.index ≡ 0)
  Partial m_i16_2_lo_state s between =
      (s.crc_buffer ≡ s.address ∷ s.fc ∷ s.i16_1_hi ∷ s.i16_1_lo ∷ s.i16_2_hi ∷ []) × (s.index ≡ 0)
  Partial m_i16_3_hi_state s between =
      (s.crc_buffer ≡ six s) × (s.index ≡ 0) × ((s.fc == 23) ≡ true)
  Partial m_i16_3_lo_state s between =
      (s.crc_buffer ≡ six s ++ s.i16_3_hi ∷ []) × (s.index ≡ 0) × ((s.fc == 23) ≡ true)
  Partial m_i16_4_hi_state s between =
      (s.crc_buffer ≡ six s ++ s.i16_3_hi ∷ s.i16_3_lo ∷ []) × (s.index ≡ 0) × ((s.fc == 23) ≡ true)
  Partial m_i16_4_lo_state s between =
      (s.crc_buffer ≡ six s ++ s.i16_3_hi ∷ s.i16_3_lo ∷ s.i16_4_hi ∷ [])
      × (s.index ≡ 0)
      × ((s.fc == 23) ≡ true)
  Partial m_i8_1_state s between =
      (s.crc_buffer ≡ spelled s) × (s.index ≡ 0) × (takes_payload s.fc ≡ true)
  Partial m_data_state s between =
      (s.crc_buffer ≡ spelled s ++ s.i8_1 ∷ s.pdu.payload)
      × (takes_payload s.fc ≡ true)
      × IsBytes (spelled s)
      × (length s.pdu.payload ≡ s.index)
      × (s.i8_1 < 256)
      × ((s.index < s.i8_1) ⊎ ((s.index ≡ 0) × (s.i8_1 ≡ 0)))
  Partial m_cs_1_state s between =
      (s.crc_buffer ≡ s.address ∷ print (request_of (finished order s)))
      × (s.index ≡ 0)
      × Gap (finished order s) between
  Partial m_cs_2_state s between =
      (s.crc_buffer ≡ s.address ∷ print (request_of (finished order s)))
      × (s.index ≡ 0)
      × Gap (finished order s) between
  Partial _ s between = ⊥  -- the diagnostic states

  pub record Follows (st : ScanState) (history : List ℕ) (s : Scanner) : Type 0 where
    pub before : List ℕ
    pub between : List ℕ
    pub behind : history ≡ before ++ under_way st s between
    pub partial : Partial st s between
    pub bytes : IsBytes s.crc_buffer
    pub heard : InOrder (IsFrame s.address) before s.calls

  -- After a byte.
  abbrev pub Goes : ℕ → List ℕ → Scanner → Type 0
  Goes a history t = Follows t.current_state history t × (t.address ≡ a)

  pub heard_so_far :
      (st : ScanState) (history : List ℕ) (s : Scanner)
      → Follows st history s
      → InOrder (IsFrame s.address) history s.calls
  heard_so_far st history s f =
      read_on f.before (under_way st s f.between) history s.calls f.heard f.behind

  module _ (history : List ℕ) (s : Scanner) (c : ℕ) (small : c < 256) where
    abbrev now : List ℕ
    now = history ++ c ∷ []

    pub longer :
        (st : ScanState)
        → (f : Follows st history s) → now ≡ f.before ++ (under_way st s f.between ++ c ∷ [])
    longer st f =
        ap (λ xs. xs ++ c ∷ []) f.behind ∙ append_assoc f.before (under_way st s f.between) (c ∷ [])

    pub kept : (st : ScanState) → Follows st history s → InOrder (IsFrame s.address) now s.calls
    kept st f =
        read_on f.before (under_way st s f.between ++ c ∷ []) now s.calls f.heard (longer st f)

    -- One byte more goes into the checksum buffer.
    pub pushed :
        (st st' : ScanState) (t : Scanner)
        → (f : Follows st history s) → under_way st s f.between ≡ s.crc_buffer
        → under_way st' t [] ≡ t.crc_buffer
        → t.crc_buffer ≡ s.crc_buffer ++ c ∷ []
        → t.address ≡ s.address
        → t.calls ≡ s.calls
        → Partial st' t []
        → Follows st' now t
    pushed st st' t f here there buf same called partial = record {
      before = f.before;
      between = [];
      behind =
          longer st f
          ∙ ap (λ xs. f.before ++ (xs ++ c ∷ [])) here
          ∙ ap (λ xs. f.before ++ xs) (sym (there ∙ buf));
      partial = partial;
      bytes =
          subst IsBytes (sym buf)
            (All-append (λ x. x < 256) s.crc_buffer (c ∷ []) f.bytes (small, tt));
      heard =
          subst (λ a. InOrder (IsFrame a) f.before t.calls) (sym same)
            (subst (InOrder (IsFrame s.address) f.before) (sym called) f.heard);
    }

    -- Back before a frame.
    pub fresh :
        (t : Scanner)
        → InOrder (IsFrame s.address) now t.calls
        → t.address ≡ s.address
        → t.crc_buffer ≡ []
        → t.index ≡ 0
        → Follows m_init_state now t
    fresh t h same empty no_index = record {
      before = now;
      between = [];
      behind = sym (append-nil now);
      partial = (empty, no_index);
      bytes = subst IsBytes (sym empty) tt;
      heard = subst (λ a. InOrder (IsFrame a) now t.calls) (sym same) h;
    }
