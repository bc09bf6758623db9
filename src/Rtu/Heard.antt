-- ===== src/Rtu/Heard.antt =====
-- slave_rtu_scanner.cpp, step by step: what has been read of a frame, and what its user was told; the
-- steps at the start and the end of a frame.
use mathlib.Core.Path.{subst}
use modbus_scanner.Base.{
  ℕ, ◌<◌, ◌≡◌, refl, sym, ap, ◌∙◌, inl, inr, true, List, [], ◌∷◌, ◌++◌, arith, ◌==◌, length,
  All-append, IsBytes, append_assoc, append-nil,
}
use modbus_scanner.Coroutine.{Next, more, skip, drop}
use modbus_scanner.Crc.{check_crc_rtu}
use modbus_scanner.Defs.{Pdu, Event, on_nonse}
use modbus_scanner.Request.{print, request_of}
use modbus_scanner.Rtu.Frame.{frame, crc_bytes}
use modbus_scanner.Rtu.Spelled.{six, spelled, HasCount}
use modbus_scanner.Spelled.{Bool-cases}
use modbus_scanner.Rtu.{
  Scanner, Point, pre_address_state, pdu_done, function_state, i16_1_hi_state, i16_1_lo_state,
  i16_2_hi_state, i16_2_lo_state, i16_3_hi_state, i16_3_lo_state, i16_4_hi_state, i16_4_lo_state,
  i8_1_state, data_state, crc_hi_state, crc_low_state, step_at, finished,
}
use modbus_scanner.InOrder.{InOrder, then_pdu, then_nonse, read_on}
use modbus_scanner.Scanner.{Order, valid_fc}

-- The bytes of a request that the user is told of: a whole frame.
abbrev pub IsFrame : ℕ → Pdu → List ℕ → Type 0
IsFrame address p bytes = bytes ≡ frame address (request_of p)

-- What has been read of the frame that is under way, at a point of the coroutine.
abbrev pub under_way : Point → Scanner → List ℕ
under_way pre_address_state s = []
under_way pdu_done s = []
under_way crc_low_state s = s.crc_buf ++ s.crc_hi ∷ []
under_way _ s = s.crc_buf

pub check_crc_rtu_lem :
    (buf : List ℕ) (hi lo : ℕ) → check_crc_rtu buf hi lo ≡ true → crc_bytes buf ≡ hi ∷ lo ∷ []
unfolding check_crc_rtu
check_crc_rtu_lem buf hi lo e = ground (arith, e)

module _ (order : Order) where
  abbrev pub Partial : Point → Scanner → Type 0
  Partial pre_address_state s = s.crc_buf ≡ []
  Partial pdu_done s = Unit
  Partial function_state s = s.crc_buf ≡ s.address ∷ []
  Partial i16_1_hi_state s = s.crc_buf ≡ s.address ∷ s.fc ∷ []
  Partial i16_1_lo_state s = s.crc_buf ≡ s.address ∷ s.fc ∷ s.i16_1_hi ∷ []
  Partial i16_2_hi_state s = s.crc_buf ≡ s.address ∷ s.fc ∷ s.i16_1_hi ∷ s.i16_1_lo ∷ []
  Partial i16_2_lo_state s =
      s.crc_buf ≡ s.address ∷ s.fc ∷ s.i16_1_hi ∷ s.i16_1_lo ∷ s.i16_2_hi ∷ []
  Partial i16_3_hi_state s = (s.crc_buf ≡ six s) × ((s.fc == 23) ≡ true)
  Partial i16_3_lo_state s = (s.crc_buf ≡ six s ++ s.i16_3_hi ∷ []) × ((s.fc == 23) ≡ true)
  Partial i16_4_hi_state s =
      (s.crc_buf ≡ six s ++ s.i16_3_hi ∷ s.i16_3_lo ∷ []) × ((s.fc == 23) ≡ true)
  Partial i16_4_lo_state s =
      (s.crc_buf ≡ six s ++ s.i16_3_hi ∷ s.i16_3_lo ∷ s.i16_4_hi ∷ []) × ((s.fc == 23) ≡ true)
  Partial i8_1_state s = (s.crc_buf ≡ spelled s) × HasCount order s
  Partial data_state s =
      (s.crc_buf ≡ spelled s ++ s.pdu.i8_1 ∷ s.pdu.payload)
      × HasCount order s
      × IsBytes (spelled s)
      × (length s.pdu.payload ≡ s.ix)
      × (s.ix < s.pdu.i8_1)
  Partial crc_hi_state s = s.crc_buf ≡ s.address ∷ print (request_of (finished order s))
  Partial crc_low_state s = s.crc_buf ≡ s.address ∷ print (request_of (finished order s))

  pub record Follows (p : Point) (history : List ℕ) (s : Scanner) : Type 0 where
    pub before : List ℕ
    pub behind : history ≡ before ++ under_way p s
    pub partial : Partial p s
    pub bytes : IsBytes s.crc_buf
    pub heard : InOrder (IsFrame s.address) before s.calls

  pub heard_so_far :
      (p : Point) (history : List ℕ) (s : Scanner)
      → Follows p history s
      → InOrder (IsFrame s.address) history s.calls
  heard_so_far p history s f = read_on f.before (under_way p s) history s.calls f.heard f.behind

  -- After a step.
  abbrev pub Goes : ℕ → List ℕ → Next Scanner → Type 0
  Goes a history (more t) = Follows t.point history t × (t.address ≡ a)
  Goes a history (skip t) = Follows t.point history t × (t.address ≡ a)
  Goes a history (drop t) =
      Follows t.point history t × (t.address ≡ a) × (t.point ≡ pre_address_state)

  module _ (history : List ℕ) (s : Scanner) (c : ℕ) (small : c < 256) where
    abbrev pub now : List ℕ
    now = history ++ c ∷ []

    longer : (p : Point) → (f : Follows p history s) → now ≡ f.before ++ (under_way p s ++ c ∷ [])
    longer p f = ap (λ xs. xs ++ c ∷ []) f.behind ∙ append_assoc f.before (under_way p s) (c ∷ [])

    -- Nothing of a frame is under way.
    fresh :
        (calls : List Event) (t : Scanner)
        → InOrder (IsFrame s.address) now (s.calls ++ calls)
        → t.address ≡ s.address
        → t.calls ≡ s.calls ++ calls
        → t.crc_buf ≡ []
        → Follows pre_address_state now t
    fresh calls t h same called empty = record {
      before = now;
      behind = sym (append-nil now);
      partial = empty;
      bytes = subst IsBytes (sym empty) tt;
      heard =
          subst (λ a. InOrder (IsFrame a) now t.calls) (sym same)
            (subst (InOrder (IsFrame s.address) now) (sym called) h);
    }

    -- One byte more goes into the checksum buffer.
    pub pushed :
        (p q : Point) (t : Scanner)
        → (f : Follows p history s) → under_way p s ≡ s.crc_buf
        → under_way q t ≡ t.crc_buf
        → t.crc_buf ≡ s.crc_buf ++ c ∷ []
        → t.address ≡ s.address
        → t.calls ≡ s.calls
        → Partial q t
        → Follows q now t
    pushed p q t f here there buf same called partial = record {
      before = f.before;
      behind =
          longer p f
          ∙ ap (λ xs. f.before ++ (xs ++ c ∷ [])) here
          ∙ ap (λ xs. f.before ++ xs) (sym (there ∙ buf));
      partial = partial;
      bytes =
          subst IsBytes (sym buf)
            (All-append (λ x. x < 256) s.crc_buf (c ∷ []) f.bytes (small, tt));
      heard =
          subst (λ a. InOrder (IsFrame a) f.before t.calls) (sym same)
            (subst (InOrder (IsFrame s.address) f.before) (sym called) f.heard);
    }

    refused :
        (p : Point)
        → Follows p history s
        → InOrder (IsFrame s.address) now (s.calls ++ on_nonse ∷ [])
    refused p f =
        then_nonse now s.calls
          (read_on f.before (under_way p s ++ c ∷ []) now s.calls f.heard (longer p f))

    -- Where an address is looked for.
    pub address_step :
        s.crc_buf ≡ []
        → InOrder (IsFrame s.address) history s.calls
        → Goes s.address now (step_at order pre_address_state s c)
    unfolding step_at
    address_step empty h = elim (Bool-cases (s.address == c)) [
      | inl e ↦ rw e (
          let same : c ≡ s.address = ground (arith, e) in
          (
            record {
              before = history;
              behind = ap (λ xs. history ++ (xs ++ c ∷ [])) (sym empty);
              partial = ap (λ xs. xs ++ c ∷ []) empty ∙ ap (λ x. x ∷ []) same;
              bytes = subst (λ xs. IsBytes (xs ++ c ∷ [])) (sym empty) (small, tt);
              heard = h;
            },
            refl,
          ))
      | inr e ↦ rw e (
          (
            record {
              before = now;
              behind = sym (append-nil now);
              partial = empty;
              bytes = subst IsBytes (sym empty) tt;
              heard = read_on history (c ∷ []) now s.calls h refl;
            },
            refl,
          ))
    ]

    pub function_step :
        Follows function_state history s → Goes s.address now (step_at order function_state s c)
    unfolding step_at
    function_step f = elim (Bool-cases (valid_fc c)) [
      | inl e ↦ rw e (
        pushed function_state i16_1_hi_state _ f refl refl refl refl refl
            (ap (λ xs. xs ++ c ∷ []) f.partial),
        refl,
      )
      | inr e ↦
          rw e ((fresh (on_nonse ∷ []) _ (refused function_state f) refl refl refl, refl, refl))
    ]

    pub crc_step :
        Follows crc_low_state history s → Goes s.address now (step_at order crc_low_state s c)
    unfolding step_at
    crc_step f = elim (Bool-cases (check_crc_rtu s.crc_buf s.crc_hi c)) [
      | inl e ↦ rw e (
          let r = request_of (finished order s) in
          let sum : crc_bytes s.crc_buf ≡ s.crc_hi ∷ c ∷ [] =
            check_crc_rtu_lem s.crc_buf s.crc_hi c e in
          let whole : now ≡ f.before ++ (frame s.address r ++ []) =
            longer crc_low_state f
            ∙ ap (λ xs. f.before ++ xs)
                (append_assoc s.crc_buf (s.crc_hi ∷ []) (c ∷ [])
                  ∙ ap (λ xs. s.crc_buf ++ xs) (sym sum)
                  ∙ ap (λ xs. xs ++ crc_bytes xs) f.partial
                  ∙ sym (append-nil (frame s.address r))) in
          (
            record {
              before = now;
              behind = sym (append-nil now);
              partial = tt;
              bytes = f.bytes;
              heard =
                  then_pdu f.before (frame s.address r) [] s.calls (finished order s) now f.heard
                    refl whole;
            },
            refl,
          ))
      | inr e ↦
          rw e ((fresh (on_nonse ∷ []) _ (refused crc_low_state f) refl refl refl, refl, refl))
    ]
