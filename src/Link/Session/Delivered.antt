-- ===== src/Link/Session/Delivered.antt =====
-- `transact` when the board answers in the end.
use nano_ql.Base.{
  ℕ, zero, suc, ◌+◌, ◌%◌, ◌≤◌, ◌<◌, ◌≡◌, refl, true, false, ◌||◌, some, arith, ltb, leb, length,
  Bytes,
}
use nano_ql.Base.Exec.{os_error, ok, err, is_os_error}
use nano_ql.Link.Frame.{request_frame}
use nano_ql.Link.Frame.Laws.{response_header, response_rest, accepted_iff}
use nano_ql.Link.Serial.{Serial}
use nano_ql.Link.Session.{
  Session, is_error_reply, reconnect, exchange, read_reply, attempt, transact_loop, transact,
}

module _ (d : Serial) where
  open d use {Port, reset_input_buffer, write, flush, read, monotonic}

  -- The calls of one exchange that succeed, and the frame of the answer that is read.
  pub record IsDelivered (frame : Bytes) (sequence : ℕ) (answer : Bytes) (p : Port) : Type 0 where
    pub cleared : (reset_input_buffer p).0 ≡ some tt
    pub written : (write frame (reset_input_buffer p).1).0 ≡ some tt
    pub flushed : (flush (write frame (reset_input_buffer p).1).1).0 ≡ some tt
    pub header_read :
        let p3 = (flush (write frame (reset_input_buffer p).1).1).1 in
        (read 5 p3).0 ≡ some (response_header sequence answer)
    pub rest_read :
        let p4 = (read 5 (flush (write frame (reset_input_buffer p).1).1).1).1 in
        (read (length answer + 1) p4).0 ≡ some (response_rest sequence answer)

  exchange-IsDelivered :
      (frame answer : Bytes) (s : Session Port)
      → IsDelivered frame s.sequence answer s.port
      → (exchange d frame s).0 ≡ ok answer
  unfolding exchange
  exchange-IsDelivered frame answer s g =
      let accepted =
        (accepted_iff s.sequence (response_header s.sequence answer)
            (response_rest s.sequence answer) answer).1
          (refl, refl) in
      rw (g.cleared, g.written, g.flushed, g.header_read, accepted.0, g.rest_read, accepted.1) refl

  module _ (frame : Bytes) (sent deadline : ℕ) (answer : Bytes) where
    -- The board answers now, or the port is lost, comes back in time and the board answers later;
    -- at most three losses.
    pub data Delivers : ℕ → Session Port → Type 0 where
      now :
          (attempts : ℕ) (s : Session Port)
          → IsDelivered frame s.sequence answer s.port
          → Delivers attempts s
      later :
          (attempts : ℕ) (s : Session Port)
          → (exchange d frame s).0 ≡ err os_error
          → attempts < 3
          → monotonic (exchange d frame s).1.port < deadline
          → (reconnect d deadline (exchange d frame s).1).0 ≡ ok tt
          → Delivers (attempts + 1) (reconnect d deadline (exchange d frame s).1).1
          → Delivers attempts s

    transact_loop-Delivers :
        (n attempts : ℕ) (s : Session Port)
        → is_error_reply answer ≡ false
        → attempts < 4
        → 4 ≤ n + attempts
        → Delivers attempts s
        → (transact_loop d n frame sent deadline attempts s).0 ≡ ok answer
    unfolding transact_loop attempt read_reply is_os_error
    transact_loop-Delivers zero attempts s good few enough g = absurd (omega arith)
    transact_loop-Delivers (suc n) attempts s good few enough (now _ _ g) =
        ground (arith, exchange-IsDelivered frame answer s g)
    transact_loop-Delivers (suc n) attempts s good few enough (later _ _ lost more early back g) =
        let in_time : (ltb 3 (attempts + 1) || leb deadline (monotonic (exchange d frame s).1.port))
            ≡ false =
          ground arith in
        ground (
          arith,
          transact_loop-Delivers n (attempts + 1) (reconnect d deadline (exchange d frame s).1).1
              good (omega arith) (omega arith) g,
        )

  -- A request of 1 to 245 bytes that the board answers, at once or after up to three losses of the
  -- port that the reconnections mend before the deadline, is answered: `transact` returns the
  -- payload of the board's answer, unless that is an error report.
  pub transact-Delivers :
      (payload answer : Bytes) (s : Session Port)
      → 1 ≤ length payload
      → length payload ≤ 245
      → is_error_reply answer ≡ false
      → let s' = record s { sequence = (s.sequence + 1) % 256 } in
        Delivers
          (request_frame s'.sequence payload)
          (length payload)
          (monotonic s.port + 15000)
          answer
          0
          s'
        → (transact d payload s).0 ≡ ok answer
  unfolding transact
  transact-Delivers payload answer s some_bytes fits good g =
      let s' = record s { sequence = (s.sequence + 1) % 256 } in
      let answered =
        transact_loop-Delivers (request_frame s'.sequence payload) (length payload)
          (monotonic s.port + 15000) answer 4 0 s' good (omega arith) (omega arith) g in
      let a : leb 1 (length payload) ≡ true = ground arith in
      let b : leb (length payload) 245 ≡ true = ground arith in rw (a, b) answered
