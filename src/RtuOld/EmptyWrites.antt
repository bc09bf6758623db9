-- ===== src/RtuOld/EmptyWrites.antt =====
-- Write requests with the byte count 0 in slave_rtu_old.cpp.
use modbus_scanner.Base.{ℕ, ◌≡◌, ◌⊎◌, refl, sym, ap, ◌∙◌, List, [], ◌∷◌, ◌++◌, arith, some}
use modbus_scanner.Coroutine.Chunks.{paused, run}
use modbus_scanner.Crc.{crc_loop, crc_start, check_crc_rtu_own}
use modbus_scanner.Defs.{on_pdu}
use modbus_scanner.Request.{
  write, IsRequest, print, decoded, request_of, request_of-decoded, told, told-append,
}
use modbus_scanner.Rtu
use modbus_scanner.Rtu.Decode
use modbus_scanner.Rtu.Frame.{crc_bytes, frame}
use modbus_scanner.RtuOld.Decode.{
  IsReady, on_chars, headed, run_head, run_count, run_good_crc, codes_write, combine_bytes,
}
use modbus_scanner.RtuOld.{Scanner, m_data_state, m_cs_1_state, m_cs_2_state, finished, on_char_at}
use modbus_scanner.Scanner.{Order}

module _ (order : Order) where
  -- The byte behind the count 0 is taken and forgotten.
  run_none :
      (s : Scanner) (x : ℕ) (rest : List ℕ)
      → s.current_state ≡ m_data_state
      → s.index ≡ 0
      → s.i8_1 ≡ 0
      → on_chars order (x ∷ rest) s
        ≡ on_chars order rest (record s { current_state = m_cs_1_state; index = 0 })
  unfolding on_chars on_char_at
  run_none s x rest p e z = ground arith

  run_crc1 :
      (s : Scanner) (x : ℕ)
      → s.current_state ≡ m_cs_1_state
      → on_chars order (x ∷ []) s ≡ record s { current_state = m_cs_2_state; crc1 = x }
  unfolding on_chars on_char_at
  run_crc1 s x p = ground arith

  -- Behind the byte count of the write request with no payload.
  abbrev counted : Scanner → ℕ → ℕ → ℕ → Scanner
  counted s fc a b = record (headed order s fc a b) {
    current_state = m_data_state;
    i8_1 = 0;
    crc_buffer = s.address ∷ print (write fc a b []);
    pdu = record (s.pdu) { payload = [] };
  }

  -- The request up to its byte count, and one byte more.
  run_empty_write :
      (fc a b x : ℕ) (s : Scanner) (rest : List ℕ)
      → IsReady s
      → (fc ≡ 15) ⊎ (fc ≡ 16)
      → on_chars order ((s.address ∷ print (write fc a b [])) ++ x ∷ rest) s
        ≡ on_chars order rest
            (record (counted s fc a b) { current_state = m_cs_1_state; index = 0 })
  run_empty_write fc a b x s rest h f =
      let (v, n, w) = codes_write order fc f in
      run_head order s fc a b (0 ∷ x ∷ rest) h v n
      ∙ run_count order (headed order s fc a b) 0 (x ∷ rest) w
      ∙ run_none (counted s fc a b) x rest refl h.no_index refl

  run_delayed :
      (fc a b x : ℕ) (s : Scanner)
      → IsReady s
      → IsRequest (write fc a b [])
      → let body = s.address ∷ print (write fc a b []) in
        told (on_chars order (body ++ x ∷ crc_bytes body) s).calls
        ≡ told s.calls ++ some (write fc a b []) ∷ []
  unfolding on_chars
  run_delayed fc a b x s h g =
      let r = write fc a b [] in
      let k = crc_loop crc_start (s.address ∷ print r) in
      let u = record (counted s fc a b) { current_state = m_cs_1_state; index = 0 } in
      let q = finished order u in
      let fields : q ≡ decoded r q = rw (combine_bytes order a, combine_bytes order b) in
      ap (λ t. told t.calls)
        (run_empty_write fc a b x s (k.hi ∷ k.lo ∷ []) h g.0
          ∙ run_good_crc order u k.hi k.lo [] refl (check_crc_rtu_own (s.address ∷ print r)))
      ∙ told-append s.calls (on_pdu q ∷ [])
      ∙ ap (λ x. told s.calls ++ some x ∷ []) (ap request_of fields ∙ request_of-decoded r q g)

-- A write request with the byte count 0 (functions 15 and 16) and a right checksum: behind its
-- last byte the old scanner has told its user nothing and still waits for a checksum byte, while
-- the coroutine scanner has handed the request out; with any byte more in front of the checksum
-- the old scanner tells its user the request.
pub empty_write_lost :
    (order : Order) (fc a b x : ℕ) (s : Rtu.Scanner) (old : Scanner)
    → s.address ≡ old.address
    → Decode.IsReady s
    → IsReady old
    → IsRequest (write fc a b [])
    → let body = old.address ∷ print (write fc a b []) in
      let t' = on_chars order (body ++ crc_bytes body) old in
      (t'.current_state ≡ m_cs_2_state)
      × (t'.calls ≡ old.calls)
      × ((t : Rtu.Scanner) × (run (Rtu.machine order) (body ++ crc_bytes body) s ≡ paused t)
          × (told t.calls ≡ told s.calls ++ some (write fc a b []) ∷ []))
      × (told (on_chars order (body ++ x ∷ crc_bytes body) old).calls
          ≡ told old.calls ++ some (write fc a b []) ∷ [])
empty_write_lost order fc a b x s old same h h' g =
    let r = write fc a b [] in
    let k = crc_loop crc_start (old.address ∷ print r) in
    let whole =
      run_empty_write order fc a b k.hi old (k.lo ∷ []) h' g.0
      ∙ run_crc1 order
          (record (counted order old fc a b) { current_state = m_cs_1_state; index = 0 }) k.lo
          refl in
    let (t, done, took) = Decode.run-frame order r s [] h g in
    let here = ap (λ x. run (Rtu.machine order) (frame x r) s) (sym same) in
    (
      ap (λ t. t.current_state) whole,
      ap (λ t. t.calls) whole,
      (
        t,
        here ∙ done ∙ run_nil order t,
        ap told took.called
            ∙ told-append s.calls (on_pdu (decoded r s.pdu) ∷ [])
            ∙ ap (λ x. told s.calls ++ some x ∷ []) (request_of-decoded r s.pdu g),
      ),
      run_delayed order fc a b x old h' g,
    )
  where
    run_nil : (order : Order) (t : Rtu.Scanner) → run (Rtu.machine order) [] t ≡ paused t
    run_nil order t = unfold run in refl
