-- ===== src/Link/Session.antt =====
-- tools/nanoql_link.py: `NanoQLLink._reconnect`, `close` and `transact`.
pub mod Delivered
pub mod Rounds
pub mod Sound
pub mod Tests
use nano_ql.Base.{
  ℕ, zero, suc, ◌+◌, ◌%◌, Bool, true, false, ◌&&◌, ◌||◌, Option, none, some, ltb, leb, ◌==◌, not,
  if◌then◌else◌, length, get_or, Bytes,
}
use nano_ql.Base.Exec.{
  Error, rejected, runtime_error, value_error, os_error, out_of_rounds, Result, ok, err,
  is_os_error, Exec, gets, lift, ◌>>=◌, ◌>>◌, modify,
}
use nano_ql.Link.Frame.{max_link_payload, request_frame, check_header, check_body}
use nano_ql.Link.Serial.{Serial}

-- The fields of `NanoQLLink` that these methods use, with the port.
pub record Session (Port : Type 0) : Type 0 where
  pub port : Port
  pub sequence : ℕ
  pub reconnect_count : ℕ
  -- `self.timeout`, with which the port is opened again
  pub timeout : ℕ
  pub abandon_serial_on_close : Bool

-- `0x40 <= error_code <= 0x5F`: the firmware passes a FatFs result on.
unfoldable pub is_fatfs_code : ℕ → Bool
is_fatfs_code code = leb 0x40 code && leb code 0x5F

-- A reply of two bytes that begins with 0xFF is an error report.
unfoldable pub is_error_reply : Bytes → Bool
is_error_reply payload = length payload == 2 && get_or payload 0 0 == 0xFF

-- The way in which one pass through the body of `while True` ends.
pub data Outcome : Type 0 where
  answered : Bytes → Outcome
  raised : Error → Outcome
  -- `continue`
  again : Outcome
  -- an `OSError` of the serial port
  failed : Outcome

abbrev pub reconnect_rounds : ℕ
reconnect_rounds = 61

abbrev pub transact_rounds : ℕ
transact_rounds = 4

module _ (d : Serial) where
  open d use {Port, open_port, close_port, reset_input_buffer, write, flush, read, sleep, monotonic}

  abbrev pub with_port : Session Port → Port → Session Port
  with_port s p = record s { port = p }

  abbrev or_os_error {ℓ} : {A : Type ℓ} → Option A → Result A
  or_os_error none = err os_error
  or_os_error (some a) = ok a

  abbrev io {ℓ} : {A : Type ℓ} → (Port → Option A × Port) → Session Port → Result A × Session Port
  io m s = let (r, p) = m s.port in (or_os_error r, with_port s p)

  abbrev pub pause : ℕ → Session Port → Session Port
  pause ms s = with_port s (sleep ms s.port)

  -- The body of `try` in `_reconnect`.
  pub reopen : Exec (Session Port) (Unit {0})
  reopen = do
    io (open_port (← gets (λ s. s.timeout)))
    modify (pause 150)
    io reset_input_buffer
    modify (λ s. record s { reconnect_count = s.reconnect_count + 1 })

  -- `while time.monotonic() < deadline`
  pub reconnect_loop : ℕ → ℕ → Exec (Session Port) (Unit {0})
  reconnect_loop zero deadline s = (err out_of_rounds, s)
  reconnect_loop (suc n) deadline s = elim (ltb (monotonic s.port) deadline) [
    | true ↦ elim (reopen s).0 [
      | ok _ ↦ (ok tt, (reopen s).1)
      | err e ↦ reconnect_loop n deadline (pause 250 (reopen s).1)
    ]
    | false ↦ (err (runtime_error "NanoQL Link did not return within 15 seconds."), s)
  ]

  pub reconnect : ℕ → Exec (Session Port) (Unit {0})
  unfolding reconnect_loop
  reconnect deadline s =
      reconnect_loop reconnect_rounds deadline (with_port s (close_port s.port).1)

  -- `NanoQLLink.close`
  pub close : Session Port → Session Port
  close s = if s.abandon_serial_on_close then s else with_port s (close_port s.port).1

  -- One exchange: the frame goes out, the reply comes in and is checked.
  pub exchange : Bytes → Exec (Session Port) Bytes
  exchange frame = do
    io reset_input_buffer
    io (write frame)
    io flush
    header ← io (read 5)
    len ← lift (check_header header)
    payload_and_crc ← io (read (len + 1))
    sequence ← gets (λ s. s.sequence)
    lift (check_body sequence header payload_and_crc)

  -- A discarded request is sent again, at most three times, if it is short.
  pub may_retry : ℕ → ℕ → ℕ → Bool
  may_retry code sent attempts = code == 3 && leb sent 17 && ltb attempts 3

  -- What stands behind the checks of the reply.
  pub read_reply : ℕ → ℕ → Bytes → Session Port → Outcome × ℕ × Session Port
  unfolding is_error_reply may_retry
  read_reply sent attempts payload s =
      if is_error_reply payload
      then if may_retry (get_or payload 1 0) sent attempts
        then (let (r, p) = reset_input_buffer (sleep 50 s.port) in
            (elim r [ none ↦ failed | some _ ↦ again ], attempts + 1, with_port s p))
        else (raised (rejected (get_or payload 1 0)), attempts, s)
      else (answered payload, attempts, s)

  -- The body of `try`, from `attempts` exchanges so far.
  pub attempt : Bytes → ℕ → ℕ → Session Port → Outcome × ℕ × Session Port
  unfolding exchange read_reply
  attempt frame sent attempts s = elim (exchange frame s).0 [
    | ok payload ↦ read_reply sent attempts payload (exchange frame s).1
    | err e ↦ (if is_os_error e then failed else raised e, attempts, (exchange frame s).1)
  ]

  -- `while True`, with the handler of the serial errors.
  pub transact_loop : ℕ → Bytes → ℕ → ℕ → ℕ → Exec (Session Port) Bytes
  transact_loop zero frame sent deadline attempts s = (err out_of_rounds, s)
  transact_loop (suc n) frame sent deadline attempts s =
      let (outcome, attempts', s') = attempt frame sent attempts s in
      elim outcome [
        | answered payload ↦ (ok payload, s')
        | raised e ↦ (err e, s')
        | again ↦ transact_loop n frame sent deadline attempts' s'
        | failed ↦ elim (ltb 3 (attempts' + 1) || leb deadline (monotonic s'.port)) [
          | true ↦ (err os_error, s')
          | false ↦ elim (reconnect deadline s').0 [
            | ok _ ↦ transact_loop n frame sent deadline (attempts' + 1) (reconnect deadline s').1
            | err e ↦ (err e, (reconnect deadline s').1)
          ]
        ]
      ]

  unfoldable pub transact : Bytes → Exec (Session Port) Bytes
  unfolding transact_loop
  transact payload s =
      if not (leb 1 (length payload) && leb (length payload) max_link_payload)
      then (err (value_error "A NanoQL Link transaction must contain between 1 and 245 bytes."), s)
      else (let s' = record s { sequence = (s.sequence + 1) % 256 } in
          transact_loop transact_rounds (request_frame s'.sequence payload) (length payload)
            (monotonic s.port + 15000) 0 s')
