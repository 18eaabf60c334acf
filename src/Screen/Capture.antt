-- ===== src/Screen/Capture.antt =====
-- tools/nanoql_link.py: `NanoQLLink.screenshot`.
pub mod Size
pub mod Quiet
pub mod Tests
use nano_ql.Base.{
  ℕ, zero, suc, ◌+◌, ◌-◌, Bool, true, false, ◌||◌, [], ◌∷◌, ◌++◌, ltb, leb, ◌==◌, not, length, drop,
  Bytes,
}
use nano_ql.Base.Exec.{
  Error, runtime_error, timeout_error, out_of_rounds, ok, err, is_runtime_error, is_os_error, Exec,
  pure, gets, ◌>>=◌, ◌>>◌, skip, raise_if, try_except, try_finally,
}
use nano_ql.Link.Memory.{read_request, read_result_request, wait_idle}
use nano_ql.Link.Status.{has_bits, status, screenshot_info}
use nano_ql.Link.Transport.{Transport, Link, send, nap, now}

abbrev pub cmd_screen_start : ℕ
cmd_screen_start = 0x11

abbrev pub cmd_screen_end : ℕ
cmd_screen_end = 0x13

abbrev pub screenshot_address : ℕ
screenshot_address = 0x7D8000

-- Five seconds of naps of ten milliseconds, and the last look at the clock.
abbrev pub ready_rounds : ℕ
ready_rounds = 501

-- `except (RuntimeError, OSError)`
abbrev pub is_passed : Error → Bool
is_passed e = is_runtime_error e || is_os_error e

module _ (t : Transport) where
  -- `while True`, until a frame is ready; its flags.
  unfoldable pub ready_loop : ℕ → ℕ → Exec (Link t) ℕ
  ready_loop zero deadline l = (err out_of_rounds, l)
  ready_loop (suc n) deadline l = elim (screenshot_info t l).0 [
    | err e ↦ (err e, (screenshot_info t l).1)
    | ok info ↦ elim info.0 [
      | true ↦ (ok info.1, (screenshot_info t l).1)
      | false ↦ elim (leb deadline (t.monotonic (screenshot_info t l).1.env)) [
        | true ↦ (
          err (timeout_error "No complete QL video frame became available within 5 seconds."),
          (screenshot_info t l).1,
        )
        | false ↦ ready_loop n deadline (nap t 10 (screenshot_info t l).1).1
      ]
    ]
  ]

  -- `for offset in range(0, SCREENSHOT_SIZE, 8)`, on the blocks that are left.
  unfoldable pub capture_blocks : ℕ → Bool → ℕ → ℕ → ℕ → Exec (Link t) Bytes
  capture_blocks zero held deadline reconnects address = pure []
  capture_blocks (suc n) held deadline reconnects address = do
    time ← now t
    raise_if (leb deadline time) (timeout_error "Screenshot transfer exceeded 120 seconds.")
    send t (read_request address 8)
    wait_idle t held
    response ← send t read_result_request
    raise_if (ltb (length response) 8) (runtime_error "Incomplete screenshot read response.")
    count ← gets (λ l. t.reconnect_count l.env)
    raise_if (not (count == reconnects))
        (runtime_error "USB reconnected during capture; please take a new screenshot.")
    rest ← capture_blocks n held deadline reconnects (address + 8)
    pure (drop (length response - 8) response ++ rest)

  -- The body of the `try`.
  unfoldable pub capture : Exec (Link t) (Bytes × ℕ)
  capture = do
    time ← now t
    flags ← ready_loop ready_rounds (time + 5000)
    value ← status t
    start ← now t
    reconnects ← gets (λ l. t.reconnect_count l.env)
    frame ← capture_blocks 4096 (has_bits value 0x08) (start + 120000) reconnects screenshot_address
    info ← screenshot_info t
    raise_if (not info.0)
        (runtime_error "The screenshot was invalidated during transfer; please retry.")
    pure (frame, flags)

  -- The body of the `finally`.
  unfoldable pub release_screen : Exec (Link t) (Unit {0})
  release_screen = try_except (send t (cmd_screen_end ∷ []) >>= λ _. skip) is_passed (λ _. skip)

  unfoldable pub screenshot : Exec (Link t) (Bytes × ℕ)
  screenshot = do
    screenshot_info t
    send t (cmd_screen_end ∷ [])
    send t (cmd_screen_start ∷ [])
    try_finally capture release_screen
