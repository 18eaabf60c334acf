-- ===== src/Link/Session/Tests.antt =====
-- A session over a serial port behind which a board answers.
-- The clock, what the board has sent, and whether the cable is in.
use nano_ql.Base.{
  ℕ, ◌+◌, ◌%◌, ◌≤◌, ◌≡◌, refl, ◌≢◌, false, some, [], ◌∷◌, ◌++◌, arith, get_or, take, drop, bytes_eq,
  Bytes,
}
use nano_ql.Base.Exec.{out_of_rounds, ok, err}
use nano_ql.Link.Crc.{crc8}
use nano_ql.Link.Frame.{request_frame, check_header, check_body}
use nano_ql.Link.Frame.Laws.{response_header, response_rest}
use nano_ql.Link.Serial.{Serial, ClockLaws}
use nano_ql.Link.Session.{
  Session, is_error_reply, reconnect, exchange, read_reply, attempt, transact_loop, transact,
}
use nano_ql.Link.Session.Delivered.{IsDelivered, now, transact-Delivers}
use nano_ql.Link.Session.Rounds.{reconnect_ends, transact_ends}
use nano_ql.Link.Session.Sound.{AnsweredBy, transact-AnsweredBy}

record Desk : Type 0 where
  clock : ℕ
  inbox : Bytes
  time_limit : ℕ

-- The board's answer to a frame: one byte, under the sequence number of the frame.
reply : Bytes → Bytes
reply frame =
    let payload = 0x2A ∷ [] in
    let sequence = get_or frame 3 0 in
    response_header sequence payload ++ response_rest sequence payload

desk : Serial
unfolding reply
desk = record {
  Port = Desk;
  open_port = λ t p. (some tt, p);
  close_port = λ p. (some tt, p);
  reset_input_buffer = λ p. (some tt, record p { inbox = [] });
  write = λ b p. (some tt, record p { inbox = reply b });
  flush = λ p. (some tt, p);
  read = λ n p. (some (take n p.inbox), record p { inbox = drop n p.inbox });
  sleep = λ ms p. record p { clock = p.clock + ms };
  monotonic = λ p. p.clock;
  timeout = λ p. p.time_limit;
  set_timeout = λ ms p. (some tt, record p { time_limit = ms });
}

desk-ClockLaws : ClockLaws desk
unfolding desk
desk-ClockLaws = record {
  sleep_later = λ ms p. omega arith;
  open_later = λ t p. omega arith;
  close_later = λ p. omega arith;
  reset_later = λ p. omega arith;
  write_later = λ b p. omega arith;
  flush_later = λ p. omega arith;
  read_later = λ n p. omega arith;
}

session : Session (desk.Port)
unfolding desk
session = record {
  port = record { clock = 0; inbox = []; time_limit = 1000 };
  sequence = 255;
  reconnect_count = 0;
  timeout = 1000;
  abandon_serial_on_close = false;
}

transact_ends_example : (transact desk (5 ∷ []) session).0 ≢ err out_of_rounds
transact_ends_example = transact_ends desk desk-ClockLaws (5 ∷ []) session

near : 900 ≤ desk.monotonic session.port + 15000
unfolding desk session
near = omega arith

reconnect_ends_example : (reconnect desk 900 session).0 ≢ err out_of_rounds
reconnect_ends_example = reconnect_ends desk desk-ClockLaws 900 session near

-- The sequence number begins again at zero.
was_answered : transact desk (5 ∷ []) session ≡ (ok (0x2A ∷ []), (transact desk (5 ∷ []) session).1)
unfolding transact transact_loop attempt exchange read_reply is_error_reply request_frame
    check_header check_body crc8 bytes_eq desk reply session
was_answered = refl

transact-AnsweredBy_example :
    AnsweredBy desk
      (request_frame ((session.sequence + 1) % 256) (5 ∷ []))
      (record session { sequence = (session.sequence + 1) % 256 })
      (0x2A ∷ [])
      (transact desk (5 ∷ []) session).1
transact-AnsweredBy_example =
    transact-AnsweredBy desk (5 ∷ []) (0x2A ∷ []) session (transact desk (5 ∷ []) session).1
      was_answered

abbrev asked : Session (desk.Port)
unfolding session
asked = record session { sequence = 0 }

delivered : IsDelivered desk (request_frame 0 (5 ∷ [])) 0 (0x2A ∷ []) session.port
unfolding desk session reply crc8 request_frame
delivered = record {
  cleared = refl;
  written = refl;
  flushed = refl;
  header_read = refl;
  rest_read = refl;
}

transact-Delivers_example : (transact desk (5 ∷ []) session).0 ≡ ok (0x2A ∷ [])
unfolding session is_error_reply
transact-Delivers_example =
    transact-Delivers desk (5 ∷ []) (0x2A ∷ []) session (omega arith) (omega arith) refl
      (now 0 asked delivered)
