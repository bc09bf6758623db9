-- ===== src/RtuOld/HeardData.antt =====
-- slave_rtu_old.cpp, byte by byte: the payload and the checksum keep what has been read and what has been told.
use mathlib.Core.Path.{subst}
use modbus_scanner.Base.{
  snoc, ℕ, ◌+◌, ◌%◌, ◌<◌, ◌≡◌, refl, sym, ap, ◌∙◌, inl, inr, true, false, List, [], ◌∷◌, ◌++◌,
  arith, ◌==◌, ltb, length, length-append, IsBytes, append_assoc, append-nil,
}
use modbus_scanner.Crc.{check_crc_rtu}
use modbus_scanner.Request.{print, request_of}
use modbus_scanner.Rtu.Frame.{crc_bytes}
use modbus_scanner.Rtu.Heard.{check_crc_rtu_lem}
use modbus_scanner.RtuOld.{Scanner, m_data_state, m_cs_1_state, m_cs_2_state, finished, on_char_at}
use modbus_scanner.InOrder.{then_pdu, then_nonse}
use modbus_scanner.Scanner.{Order}
use modbus_scanner.Spelled.{Bool-cases, takes_payload, long_request}
use modbus_scanner.RtuOld.Heard.{Follows, longer, Goes, spelled, locals, kept, pushed, fresh}

whole_frame :
    (order : Order) (s : Scanner)
    → IsBytes (spelled s)
    → takes_payload s.fc ≡ true
    → length s.pdu.payload ≡ s.i8_1
    → spelled s ++ s.i8_1 ∷ s.pdu.payload ≡ s.address ∷ print (request_of (finished order s))
whole_frame order s small takes n =
    ap (λ m. spelled s ++ m ∷ s.pdu.payload) (sym n)
    ∙ ap (λ xs. s.address ∷ xs)
        (long_request order (locals s) (finished order s) (record { first = refl; second = refl })
          small.1 takes (record { third = λ e. refl; fourth = λ e. refl }))

module _ (order : Order) (history : List ℕ) (s : Scanner) (c : ℕ) (small : c < 256) where
  -- A byte of a payload that wants more.
  data_more :
      s.current_state ≡ m_data_state
      → (f : Follows order m_data_state history s) → s.index < s.i8_1
      → Goes order s.address (history ++ c ∷ []) (on_char_at order m_data_state s c)
  unfolding on_char_at
  data_more here f room =
      let (read, takes, front, count, few, rooms) = f.partial in
      let wrap : (s.index + 1) % 256 ≡ s.index + 1 = omega arith in
      let payload = s.pdu.payload ++ c ∷ [] in
      let buf : s.crc_buffer ++ c ∷ [] ≡ spelled s ++ s.i8_1 ∷ payload =
        snoc c read ∙ append_assoc (spelled s) (s.i8_1 ∷ s.pdu.payload) (c ∷ []) in
      let size : length payload ≡ s.index + 1 =
        omega (arith, count, length-append s.pdu.payload (c ∷ [])) in
      let read_all : ltb s.index s.i8_1 ≡ true = ground (arith, room) in
      elim (Bool-cases (s.index + 1 == s.i8_1)) [
        | inl e ↦
            rw (read_all, wrap, e)
              (
                pushed order history s c small m_data_state m_cs_1_state _ f refl (append-nil _)
                    refl refl refl
                    (
                      buf
                          ∙ whole_frame order
                              (record s { pdu = record (s.pdu) { payload = payload } }) front takes
                              (size ∙ ground (arith, e)),
                      refl,
                      inl refl,
                    ),
                refl,
              )
        | inr e ↦
            rw (read_all, wrap, e)
              (
                subst (λ st. Follows order st (history ++ c ∷ []) (grown (s.index + 1))) (sym here)
                    (pushed order history s c small m_data_state m_data_state (grown (s.index + 1))
                      f refl refl refl refl refl
                      (buf, takes, front, size, few, inl (ground (arith, room, e)))),
                refl,
              )
      ]
    where
      grown : ℕ → Scanner
      grown index = record s {
        pdu = record (s.pdu) { payload = s.pdu.payload ++ c ∷ [] };
        crc_buffer = s.crc_buffer ++ c ∷ [];
        index = index;
      }

  -- The byte behind the count 0 is read, and is kept for nothing.
  data_none :
      (f : Follows order m_data_state history s)
      → s.index ≡ 0
      → s.i8_1 ≡ 0
      → Goes order s.address (history ++ c ∷ []) (on_char_at order m_data_state s c)
  unfolding on_char_at
  data_none f no_index empty =
      let (read, takes, front, count, few, rooms) = f.partial in
      let none_left : ltb s.index s.i8_1 ≡ false = ground (arith, no_index, empty) in
      let done : (s.index == s.i8_1) ≡ true = ground (arith, no_index, empty) in
      rw (none_left, done)
        (
          record {
            before = f.before;
            between = c ∷ [];
            behind = ap (λ xs. xs ++ c ∷ []) f.behind ∙ append_assoc f.before s.crc_buffer (c ∷ []);
            partial = (
              read ∙ whole_frame order s front takes (omega (arith, count, no_index, empty)),
              refl,
              inr (refl, omega (arith, count, no_index), takes),
            );
            bytes = f.bytes;
            heard = f.heard;
          },
          refl,
        )

  pub data_step :
      s.current_state ≡ m_data_state
      → Follows order m_data_state history s
      → Goes order s.address (history ++ c ∷ []) (on_char_at order m_data_state s c)
  data_step here f = elim f.partial.5 [
    | inl room ↦ data_more here f room
    | inr (no_index, empty) ↦ data_none f no_index empty
  ]

  pub crc1_step :
      Follows order m_cs_1_state history s
      → Goes order s.address (history ++ c ∷ []) (on_char_at order m_cs_1_state s c)
  unfolding on_char_at
  crc1_step f = (
    record {
      before = f.before;
      between = f.between;
      behind =
          ap (λ xs. xs ++ c ∷ []) f.behind
          ∙ append_assoc f.before (s.crc_buffer ++ f.between) (c ∷ [])
          ∙ ap (λ xs. f.before ++ xs) (append_assoc s.crc_buffer f.between (c ∷ []));
      partial = f.partial;
      bytes = f.bytes;
      heard = f.heard;
    },
    refl,
  )

  pub crc2_step :
      Follows order m_cs_2_state history s
      → Goes order s.address (history ++ c ∷ []) (on_char_at order m_cs_2_state s c)
  unfolding on_char_at
  crc2_step f =
      let now = history ++ c ∷ [] in
      elim (Bool-cases (check_crc_rtu s.crc_buffer s.crc1 c)) [
        | inl e ↦ rw e (
            let body = s.address ∷ print (request_of (finished order s)) in
            let bytes = body ++ (f.between ++ crc_bytes body) in
            let sum : crc_bytes s.crc_buffer ≡ s.crc1 ∷ c ∷ [] =
              check_crc_rtu_lem s.crc_buffer s.crc1 c e in
            let whole : now ≡ f.before ++ (bytes ++ []) =
              longer order history s c small m_cs_2_state f
              ∙ ap (λ xs. f.before ++ xs)
                  (append_assoc s.crc_buffer (f.between ++ s.crc1 ∷ []) (c ∷ [])
                    ∙ ap (λ xs. s.crc_buffer ++ xs) (append_assoc f.between (s.crc1 ∷ []) (c ∷ []))
                    ∙ ap (λ xs. s.crc_buffer ++ (f.between ++ xs)) (sym sum)
                    ∙ ap (λ xs. xs ++ (f.between ++ crc_bytes xs)) f.partial.0
                    ∙ sym (append-nil bytes)) in
            (
              fresh order history s c small _
                  (then_pdu f.before bytes [] s.calls (finished order s) now f.heard
                    (f.between, refl, f.partial.2) whole)
                  refl refl f.partial.1,
              refl,
            ))
        | inr e ↦ rw e (
            (
              fresh order history s c small _
                  (then_nonse now s.calls (kept order history s c small m_cs_2_state f)) refl refl
                  f.partial.1,
              refl,
            ))
      ]
