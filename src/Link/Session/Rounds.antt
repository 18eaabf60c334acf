-- ===== src/Link/Session/Rounds.antt =====
-- The loops of `_reconnect` and `transact` end by their own tests.
-- The length that a header announces.
use nano_ql.Base.{
  ℕ, zero, suc, ◌+◌, ◌*◌, ◌%◌, ◌≤◌, ◌<◌, ◌≡◌, ◌≢◌, Option, none, some, arith, length, Bytes,
}
use nano_ql.Base.Exec.{out_of_rounds, ok, err}
use nano_ql.Link.Frame.{request_frame, check_header, check_body}
use nano_ql.Link.Serial.{Serial, ClockLaws}
use nano_ql.Link.Session.{
  Session, raised, again, with_port, pause, reopen, reconnect_loop, reconnect, exchange, attempt,
  transact_loop, transact,
}

abbrev header_len : Option Bytes → ℕ
header_len none = 0
header_len (some header) = elim (check_header header) [ ok n ↦ n | err e ↦ 0 ]

module _ (d : Serial) (laws : ClockLaws d) where
  open d use {Port, monotonic, sleep, reset_input_buffer, open_port, close_port, write, flush, read}
  open laws use {
    sleep_later, open_later, close_later, reset_later, write_later, flush_later, read_later,
  }

  reopen-later : (s : Session Port) → monotonic s.port ≤ monotonic (reopen d s).1.port
  unfolding reopen
  reopen-later s = ground (
    arith,
    open_later s.timeout s.port,
    sleep_later 150 (open_port s.timeout s.port).1,
    reset_later (sleep 150 (open_port s.timeout s.port).1),
  )

  reconnect_loop_ends :
      (n deadline : ℕ) (s : Session Port)
      → deadline ≤ monotonic s.port + 250 * n
      → (reconnect_loop d (suc n) deadline s).0 ≢ err out_of_rounds
  unfolding reconnect_loop
  reconnect_loop_ends zero deadline s h = ground arith
  reconnect_loop_ends (suc n) deadline s h = ground (
    arith,
    reopen-later s,
    sleep_later 250 (reopen d s).1.port,
    reconnect_loop_ends n deadline (pause d 250 (reopen d s).1),
  )

  reconnect_loop-later :
      (n deadline : ℕ) (s : Session Port)
      → monotonic s.port ≤ monotonic (reconnect_loop d n deadline s).1.port
  unfolding reconnect_loop
  reconnect_loop-later zero deadline s = omega arith
  reconnect_loop-later (suc n) deadline s = ground (
    arith,
    reopen-later s,
    sleep_later 250 (reopen d s).1.port,
    reconnect_loop-later n deadline (pause d 250 (reopen d s).1),
  )

  reconnect-later :
      (deadline : ℕ) (s : Session Port)
      → monotonic s.port ≤ monotonic (reconnect d deadline s).1.port
  unfolding reconnect
  reconnect-later deadline s = omega (
    arith,
    close_later s.port,
    reconnect_loop-later 61 deadline (with_port d s (close_port s.port).1),
  )

  -- Waiting for the port to come back ends within its rounds, if the deadline is at most fifteen
  -- seconds ahead.
  pub reconnect_ends :
      (deadline : ℕ) (s : Session Port)
      → deadline ≤ monotonic s.port + 15000
      → (reconnect d deadline s).0 ≢ err out_of_rounds
  unfolding reconnect
  reconnect_ends deadline s h =
      reconnect_loop_ends 60 deadline (with_port d s (close_port s.port).1)
        (omega (arith, close_later s.port))

  exchange-later :
      (frame : Bytes) (s : Session Port) → monotonic s.port ≤ monotonic (exchange d frame s).1.port
  unfolding exchange
  exchange-later frame s =
      let p1 = (reset_input_buffer s.port).1 in
      let p2 = (write frame p1).1 in
      let p3 = (flush p2).1 in
      let p4 = (read 5 p3).1 in
      ground (
        arith,
        reset_later s.port,
        write_later frame p1,
        flush_later p2,
        read_later 5 p3,
        read_later (header_len (read 5 p3).0 + 1) p4,
      )

  exchange-quiet : (frame : Bytes) (s : Session Port) → (exchange d frame s).0 ≢ err out_of_rounds
  unfolding exchange check_header check_body
  exchange-quiet frame s = ground arith

  attempt-later :
      (frame : Bytes) (sent attempts : ℕ) (s : Session Port)
      → monotonic s.port ≤ monotonic (attempt d frame sent attempts s).2.port
  unfolding attempt
  attempt-later frame sent attempts s =
      let s' = (exchange d frame s).1 in
      ground (arith, exchange-later frame s, sleep_later 50 s'.port, reset_later (sleep 50 s'.port))

  attempt_counts :
      (frame : Bytes) (sent attempts : ℕ) (s : Session Port)
      → attempts ≤ (attempt d frame sent attempts s).1
  unfolding attempt
  attempt_counts frame sent attempts s = ground arith

  attempt_again :
      (frame : Bytes) (sent attempts : ℕ) (s : Session Port)
      → (attempt d frame sent attempts s).0 ≡ again
      → ((attempt d frame sent attempts s).1 ≡ attempts + 1) × (attempts < 3)
  unfolding attempt
  attempt_again frame sent attempts s h = ground arith

  attempt_quiet :
      (frame : Bytes) (sent attempts : ℕ) (s : Session Port)
      → (attempt d frame sent attempts s).0 ≢ raised out_of_rounds
  unfolding attempt
  attempt_quiet frame sent attempts s = ground (arith, exchange-quiet frame s)

  transact_loop_ends :
      (n : ℕ) (frame : Bytes) (sent deadline attempts : ℕ) (s : Session Port)
      → attempts ≤ 3
      → 4 ≤ n + attempts
      → deadline ≤ monotonic s.port + 15000
      → (transact_loop d n frame sent deadline attempts s).0 ≢ err out_of_rounds
  unfolding transact_loop
  transact_loop_ends zero frame sent deadline attempts s low room near = absurd (omega arith)
  transact_loop_ends (suc n) frame sent deadline attempts s low room near =
      let (o, attempts', s') = attempt d frame sent attempts s in
      let s'' = (reconnect d deadline s').1 in
      ground (
        arith,
        attempt-later frame sent attempts s,
        attempt_counts frame sent attempts s,
        attempt_again frame sent attempts s,
        attempt_quiet frame sent attempts s,
        reconnect_ends deadline s',
        reconnect-later deadline s',
        transact_loop_ends n frame sent deadline attempts' s',
        transact_loop_ends n frame sent deadline (attempts' + 1) s'',
      )

  -- `transact` ends within its four passes and the passes of `_reconnect`, whatever the port does.
  pub transact_ends :
      (payload : Bytes) (s : Session Port) → (transact d payload s).0 ≢ err out_of_rounds
  unfolding transact
  transact_ends payload s = ground (
    arith,
    transact_loop_ends 4 (request_frame ((s.sequence + 1) % 256) payload) (length payload)
        (monotonic s.port + 15000) 0 (record s { sequence = (s.sequence + 1) % 256 }),
  )
