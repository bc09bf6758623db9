-- ===== src/Tcp/Heard.antt =====
-- slave_tcp_scanner.cpp, step by step: what has been read of a message, and what its user was told.
use mathlib.Core.Path.{subst}
use modbus_scanner.Base.{
  ℕ, ◌<◌, ◌≡◌, refl, sym, ap, ◌∙◌, ◌⊎◌, true, List, [], ◌∷◌, ◌++◌, ◌==◌, length, All-append,
  IsBytes, append_assoc, append-nil,
}
use modbus_scanner.Coroutine.{Next}
use modbus_scanner.Coroutine.Following
use modbus_scanner.Defs.{Pdu}
use modbus_scanner.Request.{request_of}
use modbus_scanner.InOrder.{InOrder, then_pdu, read_on}
use modbus_scanner.Scanner.{Order}
use modbus_scanner.Spelled
use modbus_scanner.Spelled.{Locals, takes_payload, HasFour}
use modbus_scanner.Tcp.Decode.{Header, header_bytes, message}
use modbus_scanner.Tcp.{
  Scanner, Point, pre_transact_state, transact_id_state, transact_id_2_state, protocol_id_state,
  protocol_id_2_state, length_state, length_2_state, unit_id_state, function_state, i16_1_hi_state,
  i16_1_lo_state, i16_2_hi_state, i16_2_lo_state, i16_3_hi_state, i16_3_lo_state, i16_4_hi_state,
  i16_4_lo_state, i8_1_state, data_state, finished, whole_pdu,
}

-- The transaction id of a message in `m_pdu`.
abbrev pub HasId : Header → Pdu → Type 0
HasId h p = (h.transact_id_1 ≡ p.transact_id_1) × (h.transact_id_2 ≡ p.transact_id_2)

-- The bytes of a request that the user is told of: a whole message.
abbrev pub IsMessage : ℕ → Pdu → List ℕ → Type 0
IsMessage address p bytes = (h : Header) × (bytes ≡ message address h (request_of p)) × HasId h p

abbrev pub locals : Scanner → Locals
locals s = record {
  i16_1_hi = s.i16_1_hi;
  i16_1_lo = s.i16_1_lo;
  i16_2_hi = s.i16_2_hi;
  i16_2_lo = s.i16_2_lo;
  i16_3_hi = s.i16_3_hi;
  i16_3_lo = s.i16_3_lo;
  i16_4_hi = s.i16_4_hi;
  i16_4_lo = s.i16_4_lo;
}

abbrev pub six : Scanner → List ℕ
six s = Spelled.six s.fc (locals s)

abbrev pub spelled : Scanner → List ℕ
spelled s = Spelled.spelled s.fc (locals s)

-- The bytes are those of a header, with the device's address and the transaction id of `m_pdu`,
-- and some more.
abbrev pub Headed : Scanner → List ℕ → List ℕ → Type 0
Headed s got more = (h : Header) × HasId h s.pdu × (got ≡ header_bytes h s.address ++ more)

module _ (order : Order) where
  -- What the bytes that have been read of a message are, at a point of the coroutine.
  abbrev pub Partial : Point → Scanner → List ℕ → Type 0
  Partial pre_transact_state s got = got ≡ []
  Partial transact_id_state s got = got ≡ []
  Partial transact_id_2_state s got = got ≡ s.pdu.transact_id_1 ∷ []
  Partial protocol_id_state s got = got ≡ s.pdu.transact_id_1 ∷ s.pdu.transact_id_2 ∷ []
  Partial protocol_id_2_state s got =
      (a : ℕ) × (got ≡ s.pdu.transact_id_1 ∷ s.pdu.transact_id_2 ∷ a ∷ [])
  Partial length_state s got =
      (a b : ℕ) × (got ≡ s.pdu.transact_id_1 ∷ s.pdu.transact_id_2 ∷ a ∷ b ∷ [])
  Partial length_2_state s got =
      (a b : ℕ) × (got ≡ s.pdu.transact_id_1 ∷ s.pdu.transact_id_2 ∷ a ∷ b ∷ s.length_1 ∷ [])
  Partial unit_id_state s got =
      (a b l : ℕ) × (got ≡ s.pdu.transact_id_1 ∷ s.pdu.transact_id_2 ∷ a ∷ b ∷ s.length_1 ∷ l ∷ [])
  Partial function_state s got = Headed s got []
  Partial i16_1_hi_state s got = Headed s got (s.fc ∷ [])
  Partial i16_1_lo_state s got = Headed s got (s.fc ∷ s.i16_1_hi ∷ [])
  Partial i16_2_hi_state s got = Headed s got (s.fc ∷ s.i16_1_hi ∷ s.i16_1_lo ∷ [])
  Partial i16_2_lo_state s got = Headed s got (s.fc ∷ s.i16_1_hi ∷ s.i16_1_lo ∷ s.i16_2_hi ∷ [])
  Partial i16_3_hi_state s got = Headed s got (six s) × ((s.fc == 23) ≡ true)
  Partial i16_3_lo_state s got = Headed s got (six s ++ s.i16_3_hi ∷ []) × ((s.fc == 23) ≡ true)
  Partial i16_4_hi_state s got =
      Headed s got (six s ++ s.i16_3_hi ∷ s.i16_3_lo ∷ []) × ((s.fc == 23) ≡ true)
  Partial i16_4_lo_state s got =
      Headed s got (six s ++ s.i16_3_hi ∷ s.i16_3_lo ∷ s.i16_4_hi ∷ []) × ((s.fc == 23) ≡ true)
  Partial i8_1_state s got =
      Headed s got (spelled s)
      × (takes_payload s.fc ≡ true)
      × HasFour order (locals s) (finished order s)
  Partial data_state s got =
      Headed s got (spelled s ++ s.pdu.i8_1 ∷ s.pdu.payload)
      × (takes_payload s.fc ≡ true)
      × HasFour order (locals s) (finished order s)
      × IsBytes (spelled s)
      × (length s.pdu.payload ≡ s.ix)
      × ((s.ix < s.pdu.i8_1) ⊎ ((s.ix ≡ 0) × (s.pdu.i8_1 ≡ 0)))

  pub record Follows (p : Point) (history : List ℕ) (s : Scanner) : Type 0 where
    pub before : List ℕ
    pub got : List ℕ
    pub behind : history ≡ before ++ got
    pub partial : Partial p s got
    pub bytes : IsBytes got
    pub heard : InOrder (IsMessage s.address) before s.calls

  -- The scanner has the address, and has kept what it has read and told in step.
  abbrev pub Kept : ℕ → List ℕ → Scanner → Type 0
  Kept address history s = Follows s.point history s × (s.address ≡ address)

  abbrev pub Goes : ℕ → List ℕ → Next Scanner → Type 0
  Goes address = Following.Goes (Kept address)

  -- Nothing of a message is under way.
  pub fresh :
      (p : Point) (history : List ℕ) (s : Scanner)
      → InOrder (IsMessage s.address) history s.calls
      → Partial p s []
      → Follows p history s
  fresh p history s h none_read = record {
    before = history;
    got = [];
    behind = sym (append-nil history);
    partial = none_read;
    bytes = tt;
    heard = h;
  }

  module _ (history : List ℕ) (s : Scanner) (c : ℕ) (small : c < 256) where
    abbrev pub now : List ℕ
    now = history ++ c ∷ []

    longer : (p : Point) → (f : Follows p history s) → now ≡ f.before ++ (f.got ++ c ∷ [])
    longer p f = ap (λ xs. xs ++ c ∷ []) f.behind ∙ append_assoc f.before f.got (c ∷ [])

    pub kept : (p : Point) → Follows p history s → InOrder (IsMessage s.address) now s.calls
    kept p f = read_on f.before (f.got ++ c ∷ []) now s.calls f.heard (longer p f)

    -- One byte more of a message.
    pub pushed :
        (p q : Point) (t : Scanner)
        → (f : Follows p history s) → t.address ≡ s.address
        → t.calls ≡ s.calls
        → Partial q t (f.got ++ c ∷ [])
        → Follows q now t
    pushed p q t f same called partial = record {
      before = f.before;
      got = f.got ++ c ∷ [];
      behind = longer p f;
      partial = partial;
      bytes = All-append (λ x. x < 256) f.got (c ∷ []) f.bytes (small, tt);
      heard =
          subst (λ a. InOrder (IsMessage a) f.before t.calls) (sym same)
            (subst (InOrder (IsMessage s.address) f.before) (sym called) f.heard);
    }

    -- Where `m_pdu_cb` is called, the message has been read, and perhaps one byte more.
    pub told :
        (p : Point) (t : Scanner) (h : Header) (after : List ℕ)
        → (f : Follows p history s) → t.address ≡ s.address
        → t.calls ≡ s.calls
        → HasId h t.pdu
        → f.got ++ c ∷ [] ≡ message t.address h (request_of (finished order t)) ++ after
        → Goes s.address now (whole_pdu order t)
    unfolding whole_pdu
    told p t h after f same called id e =
        let earlier : InOrder (IsMessage t.address) f.before t.calls =
          subst (λ a. InOrder (IsMessage a) f.before t.calls) (sym same)
            (subst (InOrder (IsMessage s.address) f.before) (sym called) f.heard) in
        let q = finished order t in
        (
          fresh transact_id_state now _
              (then_pdu f.before (message t.address h (request_of q)) after t.calls q now earlier
                (h, refl, id) (longer p f ∙ ap (λ xs. f.before ++ xs) e))
              refl,
          same,
        )
