-- ===== src/Fpga.antt =====
-- tools/nanoql_link.py: `program_fpga`, `probe_fpga_flash`, `fpga_flash_diagnostic` and
-- `program_fpga_flash`. The progress that these methods print is left out.
pub mod Staged
pub mod Tests
use nano_ql.Base.{
  ℕ, zero, suc, ◌+◌, ◌/◌, String, Bool, ◌&&◌, ◌||◌, Option, some, [], ◌∷◌, ◌++◌, ltb, ◌==◌, not,
  if◌then◌else◌, length, get_or, take, drop, slice, Bytes, to_be, from_be,
}
use nano_ql.Base.Exec.{
  Error, runtime_error, diagnosed, value_error, Result, ok, err, is_runtime_error, is_os_error,
  Exec, pure, gets, lift, ◌>>=◌, ◌>>◌, skip, raise_if, try_except, try_finally,
}
use nano_ql.Link.Errors.{fpga_flash_stages, text_of}
use nano_ql.Link.Status.{status}
use nano_ql.Link.Transport.{Transport, Link, on_env, send}

abbrev pub cmd_fpga_begin : ℕ
cmd_fpga_begin = 0xF0

abbrev pub cmd_fpga_data : ℕ
cmd_fpga_data = 0xF1

abbrev pub cmd_fpga_program : ℕ
cmd_fpga_program = 0xF2

abbrev pub cmd_fpga_flash_begin : ℕ
cmd_fpga_flash_begin = 0xF3

abbrev pub cmd_fpga_flash_program : ℕ
cmd_fpga_flash_program = 0xF4

abbrev pub cmd_fpga_flash_probe : ℕ
cmd_fpga_flash_probe = 0xF5

abbrev pub cmd_fpga_flash_diagnostic : ℕ
cmd_fpga_flash_diagnostic = 0xF6

abbrev pub cmd_fpga_jtag_diagnostic : ℕ
cmd_fpga_jtag_diagnostic = 0xF7

-- `MAX_LINK_PAYLOAD - 1`
abbrev pub block_size : ℕ
block_size = 244

-- The blocks of `range(0, len(bitstream), MAX_LINK_PAYLOAD - 1)`.
abbrev pub block_count : Bytes → ℕ
block_count bitstream = (length bitstream + 243) / 244

-- `not bitstream or len(bitstream) > 2 * 1024 * 1024`
unfoldable pub is_bad_size : Bytes → Bool
is_bad_size bitstream = length bitstream == 0 || ltb 2097152 (length bitstream)

-- The fields of the text that `fpga_flash_diagnostic` returns.
pub data FlashDiagnostic : Type 0 where
  incomplete_diagnostic : FlashDiagnostic
  flash_diagnostic :
      (stage : ℕ) (address : ℕ) (status : ℕ) (expected : ℕ) (actual : ℕ) → FlashDiagnostic

-- `response[1:4]` and `response[4]` of a reply that is not refused: the JEDEC id and the status.
unfoldable pub jedec_reply : String → Bytes → Result (ℕ × ℕ)
jedec_reply incomplete response =
    if not (length response == 5) || not (get_or response 0 0 == 0)
    then err (runtime_error incomplete)
    else ok (from_be (slice 1 4 response), get_or response 4 0)

unfoldable pub flash_diagnostic_reply : Bytes → FlashDiagnostic
flash_diagnostic_reply response =
    if not (length response == 9) || not (get_or response 0 0 == 0)
    then incomplete_diagnostic
    else flash_diagnostic (get_or response 1 0) (from_be (slice 5 9 response)) (get_or response 2 0)
        (get_or response 3 0) (get_or response 4 0)

-- The name of the stage in the text; `none` for an unknown stage.
unfoldable pub stage_text : FlashDiagnostic → Option String
unfolding fpga_flash_stages
stage_text incomplete_diagnostic = some "diagnostic response is incomplete"
stage_text (flash_diagnostic stage _ _ _ _) = text_of stage fpga_flash_stages

-- `except (RuntimeError, serial.SerialException, OSError)`
abbrev pub is_link_error : Error → Bool
is_link_error e = is_runtime_error e || is_os_error e

module _ (t : Transport) where
  unfoldable pub fpga_flash_diagnostic : Exec (Link t) FlashDiagnostic
  unfolding flash_diagnostic_reply
  fpga_flash_diagnostic = do
    response ← send t (cmd_fpga_flash_diagnostic ∷ [])
    pure (flash_diagnostic_reply response)

  -- What every handler of a Flash command does: the error with the diagnostic appended.
  unfoldable pub raise_diagnosed : {A : Type 0} → Error → Exec (Link t) A
  unfolding fpga_flash_diagnostic stage_text
  raise_diagnosed e l = elim (fpga_flash_diagnostic l).0 [
    | ok diagnostic ↦ (err (diagnosed e (stage_text diagnostic)), (fpga_flash_diagnostic l).1)
    | err e' ↦ (
      err (if is_link_error e' then diagnosed e (some "unavailable") else e'),
      (fpga_flash_diagnostic l).1,
    )
  ]

  unfoldable pub send_flash : Bytes → Exec (Link t) Bytes
  unfolding raise_diagnosed
  send_flash request = try_except (send t request) is_runtime_error raise_diagnosed

  -- The handler of `CMD_FPGA_PROGRAM`: the status register is appended where it can be read.
  unfoldable pub raise_gowin : {A : Type 0} → Error → Exec (Link t) A
  raise_gowin e l = elim (send t (cmd_fpga_jtag_diagnostic ∷ []) l).0 [
    | ok response ↦ (
      err (
          if length response == 5 && get_or response 0 0 == 0
          then diagnosed e (some "Gowin status register")
          else e),
      (send t (cmd_fpga_jtag_diagnostic ∷ []) l).1,
    )
    | err e' ↦
        (err (if is_runtime_error e' then e else e'), (send t (cmd_fpga_jtag_diagnostic ∷ []) l).1)
  ]

  -- `self.serial.timeout = previous_timeout` on a port that may be gone.
  unfoldable pub restore_timeout : ℕ → Exec (Link t) (Unit {0})
  restore_timeout previous = try_except (on_env t (t.set_timeout previous)) is_os_error (λ e. skip)

  -- The loop on the blocks, with the way in which a block is sent.
  pub send_blocks : (Bytes → Exec (Link t) Bytes) → ℕ → Bytes → Exec (Link t) (Unit {0})
  send_blocks send_block zero bytes = skip
  send_blocks send_block (suc n) bytes = do
    send_block ((cmd_fpga_data ∷ []) ++ take block_size bytes)
    send_blocks send_block n (drop block_size bytes)

  unfoldable pub probe_fpga_flash : Exec (Link t) (ℕ × ℕ)
  unfolding send_flash restore_timeout jedec_reply
  probe_fpga_flash = do
    previous ← gets (λ l. t.timeout l.env)
    response ←
        try_finally (do on_env t (t.set_timeout 15000); send_flash (cmd_fpga_flash_probe ∷ []))
          (restore_timeout previous)
    lift (jedec_reply "Incomplete FPGA configuration-Flash probe response." response)

  -- `zlib.crc32` of the whole bitstream is a parameter.
  module _ (crc32 : Bytes → ℕ) where
    -- `struct.pack(">III", len(bitstream), checksum, gowin_checksum)`
    unfoldable pub fpga_begin_request : Bytes → ℕ → Bytes
    fpga_begin_request bitstream gowin_checksum =
        (cmd_fpga_begin ∷ [])
        ++ (to_be 4 (length bitstream) ++ (to_be 4 (crc32 bitstream) ++ to_be 4 gowin_checksum))

    unfoldable pub flash_begin_request : Bytes → Bytes
    flash_begin_request bitstream =
        (cmd_fpga_flash_begin ∷ []) ++ (to_be 4 (length bitstream) ++ to_be 4 (crc32 bitstream))

    unfoldable pub program_steps : Bytes → ℕ → Exec (Link t) (Unit {0})
    unfolding fpga_begin_request raise_gowin
    program_steps bitstream gowin_checksum = do
      send t (fpga_begin_request bitstream gowin_checksum)
      send_blocks (send t) (block_count bitstream) bitstream
      on_env t (t.set_timeout 120000)
      try_except (do send t (cmd_fpga_program ∷ []); skip) is_runtime_error raise_gowin

    unfoldable pub program_fpga : Bytes → ℕ → Exec (Link t) (Unit {0})
    unfolding program_steps restore_timeout
    program_fpga bitstream gowin_checksum = do
      raise_if (is_bad_size bitstream)
          (value_error "The FPGA bitstream must be between 1 byte and 2 MiB.")
      previous ← gets (λ l. t.timeout l.env)
      try_finally (program_steps bitstream gowin_checksum) (restore_timeout previous)

    unfoldable pub flash_steps : Bytes → Exec (Link t) (ℕ × ℕ)
    unfolding flash_begin_request jedec_reply send_flash
    flash_steps bitstream = do
      on_env t (t.set_timeout 15000)
      response ← send t (flash_begin_request bitstream)
      identity ←
          lift (jedec_reply "Incomplete FPGA configuration-Flash initialization response." response)
      send_blocks send_flash (block_count bitstream) bitstream
      on_env t (t.set_timeout 30000)
      send_flash (cmd_fpga_flash_program ∷ [])
      pure identity

    unfoldable pub program_fpga_flash : Bytes → Exec (Link t) (ℕ × ℕ)
    unfolding flash_steps restore_timeout
    program_fpga_flash bitstream = do
      raise_if (is_bad_size bitstream)
          (value_error "The FPGA bitstream must be between 1 byte and 2 MiB.")
      previous ← gets (λ l. t.timeout l.env)
      try_finally (flash_steps bitstream) (restore_timeout previous)
