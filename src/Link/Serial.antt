-- ===== src/Link/Serial.antt =====
-- What `NanoQLLink` uses of pyserial and of the clock: a parameter of the model.
-- `none` stands for a raised `SerialException`, `PermissionError` or other `OSError`.
-- Times are milliseconds.
use nano_ql.Base.{ℕ, ◌+◌, ◌≤◌, Option, Bytes}

pub record Serial : Type 1 where
  -- the serial object, the board behind it and the clock
  pub Port : Type 0
  -- `serial.Serial(port, 115200, timeout=…)`
  pub open_port : ℕ → Port → Option (Unit {0}) × Port
  pub close_port : Port → Option (Unit {0}) × Port
  pub reset_input_buffer : Port → Option (Unit {0}) × Port
  pub write : Bytes → Port → Option (Unit {0}) × Port
  pub flush : Port → Option (Unit {0}) × Port
  -- at most this many bytes; fewer after the timeout
  pub read : ℕ → Port → Option Bytes × Port
  pub sleep : ℕ → Port → Port
  pub monotonic : Port → ℕ
  pub timeout : Port → ℕ
  pub set_timeout : ℕ → Port → Option (Unit {0}) × Port

module _ (d : Serial) where
  open d use {Port, open_port, close_port, reset_input_buffer, write, flush, read, sleep, monotonic}

  -- What the loops rely on: a clock does not run backwards, and sleeping takes its time.
  pub record ClockLaws : Type 0 where
    pub sleep_later : (ms : ℕ) (p : Port) → monotonic p + ms ≤ monotonic (sleep ms p)
    pub open_later : (t : ℕ) (p : Port) → monotonic p ≤ monotonic (open_port t p).1
    pub close_later : (p : Port) → monotonic p ≤ monotonic (close_port p).1
    pub reset_later : (p : Port) → monotonic p ≤ monotonic (reset_input_buffer p).1
    pub write_later : (b : Bytes) (p : Port) → monotonic p ≤ monotonic (write b p).1
    pub flush_later : (p : Port) → monotonic p ≤ monotonic (flush p).1
    pub read_later : (n : ℕ) (p : Port) → monotonic p ≤ monotonic (read n p).1
