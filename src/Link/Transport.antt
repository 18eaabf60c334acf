-- ===== src/Link/Transport.antt =====
-- What the methods of `NanoQLLink` use of `transact`, of the serial object and of the clock, and
-- the fields of `NanoQLLink` that they keep. `Link/Session` fills the interface.
use nano_ql.Base.{ℕ, ◌+◌, ◌≤◌, String, ◌≢◌, true, Option, none, some, Bytes}
use nano_ql.Base.Exec.{os_error, out_of_rounds, Result, ok, err, Exec, modify}
use nano_ql.Link.Serial.{Serial}
use nano_ql.Link.Session.{Session, transact}

pub record Transport : Type 1 where
  pub Env : Type 0
  pub transact : Bytes → Env → Result Bytes × Env
  -- `time.sleep` and `time.monotonic`, in milliseconds
  pub sleep : ℕ → Env → Env
  pub monotonic : Env → ℕ
  -- `self.serial.timeout`
  pub timeout : Env → ℕ
  pub set_timeout : ℕ → Env → Result (Unit {0}) × Env
  pub reconnect_count : Env → ℕ
  -- `self.abandon_serial_on_close = True`
  pub abandon_serial : Env → Env

-- The clock does not run backwards, and sleeping takes its time.
module _ (t : Transport) where
  open t use {
    Env, transact, sleep, monotonic, timeout, set_timeout, reconnect_count, abandon_serial,
  }

  pub record TimeLaws : Type 0 where
    pub sleep_later : (ms : ℕ) (e : Env) → monotonic e + ms ≤ monotonic (sleep ms e)
    pub transact_later : (b : Bytes) (e : Env) → monotonic e ≤ monotonic (transact b e).1
    pub transact_quiet : (b : Bytes) (e : Env) → (transact b e).0 ≢ err out_of_rounds

  pub record Link : Type 0 where
    pub env : Env
    pub drive_firmware_build : Option Bytes
    pub keyboard_layout : String
    pub ql_layout : String

  abbrev pub with_env : Link → Env → Link
  with_env l e = record l { env = e }

  abbrev pub on_env {ℓ} : {A : Type ℓ} → (Env → Result A × Env) → Link → Result A × Link
  on_env m l = let (r, e) = m l.env in (r, with_env l e)

  -- `self.transact(request)`
  abbrev pub send : Bytes → Exec Link Bytes
  send request = on_env (transact request)

  -- `time.sleep(ms / 1000)`
  abbrev pub nap : ℕ → Exec Link (Unit {0})
  nap ms = modify (λ l. with_env l (sleep ms l.env))

  abbrev pub now : Exec Link ℕ
  now l = (ok (monotonic l.env), l)

-- The transport that a serial port gives.
session_transact : (d : Serial) → Bytes → Session (d.Port) → Result Bytes × Session (d.Port)
session_transact d b s = transact d b s

abbrev session_set_timeout :
    (d : Serial) → ℕ → Session (d.Port) → Result (Unit {0}) × Session (d.Port)
session_set_timeout d ms s =
    let (r, p) = d.set_timeout ms s.port in
    (elim r [ none ↦ err os_error | some u ↦ ok u ], record s { port = p })

unfoldable pub session_transport : Serial → Transport
unfolding session_transact
session_transport d = record {
  Env = Session (d.Port);
  transact = session_transact d;
  sleep = λ ms s. record s { port = d.sleep ms s.port };
  monotonic = λ s. d.monotonic s.port;
  timeout = λ s. d.timeout s.port;
  set_timeout = session_set_timeout d;
  reconnect_count = λ s. s.reconnect_count;
  abandon_serial = λ s. record s { abandon_serial_on_close = true };
}
