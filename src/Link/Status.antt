-- ===== src/Link/Status.antt =====
-- tools/nanoql_link.py: the status and diagnostic replies of the FPGA, from `status_payload` to
-- `measure_cpu_rate`, and `debugger_info`, `screenshot_info`.
use nano_ql.Base.{
  ℕ, ◌+◌, ◌-◌, ◌*◌, ◌%◌, ◌^◌, min, bit_and, bit_or, String, Bool, none, some, [], ◌∷◌, ltb, ◌==◌,
  not, if◌then◌else◌, length, get_or, take, drop, replicate, slice, find, Bytes, from_be,
}
use nano_ql.Base.Exec.{runtime_error, Result, ok, err, Exec, pure, lift, ◌>>=◌, ◌>>◌, raise_if}
use nano_ql.Link.Transport.{Transport, Link, send, nap, now}

abbrev pub cmd_status : ℕ
cmd_status = 0x00

abbrev pub cmd_qlsd_diag : ℕ
cmd_qlsd_diag = 0x08

abbrev pub cmd_cpu_diag : ℕ
cmd_cpu_diag = 0x09

abbrev pub cmd_mdv_diag : ℕ
cmd_mdv_diag = 0x0A

abbrev pub cmd_mdv_trace : ℕ
cmd_mdv_trace = 0x0B

abbrev pub cmd_mdv_data_trace : ℕ
cmd_mdv_data_trace = 0x0C

abbrev pub cmd_debug_info : ℕ
cmd_debug_info = 0x10

abbrev pub cmd_screen_info : ℕ
cmd_screen_info = 0x12

-- `at = rx.find(signature)`, refused when it is missing or fewer than `needed` bytes follow;
-- `rx[at:]`.
unfoldable pub locate : Bytes → ℕ → String → Bytes → Result Bytes
locate signature needed message rx = elim (find rx signature) [
  | none ↦ err (runtime_error message)
  | some at' ↦
      if ltb (length rx) (at' + needed) then err (runtime_error message) else ok (drop at' rx)
]

-- `value & mask != 0`
abbrev pub has_bits : ℕ → ℕ → Bool
has_bits value mask = not (bit_and value mask == 0)

pub record QlsdStatus : Type 0 where
  pub flags : ℕ
  pub lba : ℕ
  pub header : Bytes
  pub byte_count : ℕ
  pub crc32 : ℕ
  pub sample : Bytes

pub record MdvDiagnostic : Type 0 where
  pub flags : ℕ
  pub byte_position : ℕ
  pub rx_count : ℕ
  pub read_count : ℕ
  pub missed_count : ℕ
  pub last_sector : ℕ
  pub last_block : ℕ

pub record DebuggerInfo : Type 0 where
  pub version : ℕ
  pub capabilities : ℕ
  pub max_read : ℕ

module _ (t : Transport) where
  unfoldable pub status_payload : Exec (Link t) Bytes
  status_payload = do
    rx ← send t (cmd_status ∷ replicate 16 0)
    lift (
        locate (b'N' ∷ b'Q' ∷ b'L' ∷ b'1' ∷ []) 5 "The bitstream did not respond as NanoQL Link v1."
          rx)

  unfoldable pub status : Exec (Link t) ℕ
  unfolding status_payload
  status = do payload ← status_payload; pure (get_or payload 4 0)

  unfoldable pub keyboard_report_count : Exec (Link t) ℕ
  unfolding status_payload
  keyboard_report_count = do
    payload ← status_payload
    raise_if (ltb (length payload) 6)
        (runtime_error "This bitstream does not expose the keyboard-consumption counter.")
    pure (get_or payload 5 0)

  pub qlsd_status : Exec (Link t) QlsdStatus
  unfolding status_payload
  qlsd_status = do
    payload ← status_payload
    raise_if (ltb (length payload) 16)
        (runtime_error "This bitstream does not expose QL-SD diagnostics.")
    detail_rx ← send t (cmd_qlsd_diag ∷ replicate 16 0)
    detail ← lift (
        locate (b'Q' ∷ b'S' ∷ b'D' ∷ b'1' ∷ []) 16
          "This bitstream does not expose complete QL-SD diagnostics." detail_rx)
    pure (record {
      flags = get_or payload 6 0;
      lba = from_be (slice 7 10 payload);
      header = slice 10 14 payload;
      byte_count = from_be (slice 14 16 payload);
      crc32 = from_be (slice 4 8 detail);
      sample = slice 8 16 detail;
    })

  unfoldable pub cpu_diagnostic : Exec (Link t) (ℕ × ℕ)
  cpu_diagnostic = do
    rx ← send t (cmd_cpu_diag ∷ replicate 16 0)
    detail ← lift (
        locate (b'C' ∷ b'P' ∷ b'U' ∷ b'1' ∷ []) 9 "This bitstream does not expose CPU diagnostics."
          rx)
    pure (bit_and (get_or detail 4 0) 0x03, from_be (slice 5 9 detail))

  pub configured_ql_layout : Exec (Link t) String
  configured_ql_layout = do
    rx ← send t (cmd_cpu_diag ∷ replicate 16 0)
    detail ← lift (
        locate (b'C' ∷ b'P' ∷ b'U' ∷ b'1' ∷ []) 10
          "This bitstream does not expose the ROM keyboard layout." rx)
    pure (if has_bits (get_or detail 9 0) 0x01 then "fr" else "uk")

  pub mdv_diagnostic : Exec (Link t) MdvDiagnostic
  mdv_diagnostic = do
    rx ← send t (cmd_mdv_diag ∷ replicate 16 0)
    detail ← lift (
        locate (b'M' ∷ b'D' ∷ b'V' ∷ b'3' ∷ []) 16
          "This bitstream does not expose Microdrive diagnostics." rx)
    pure (record {
      flags = get_or detail 4 0;
      byte_position = from_be (slice 5 8 detail);
      rx_count = from_be (slice 8 10 detail);
      read_count = from_be (slice 10 12 detail);
      missed_count = from_be (slice 12 14 detail);
      last_sector = get_or detail 14 0;
      last_block = get_or detail 15 0;
    })

  unfoldable pub mdv_header_trace : Exec (Link t) (ℕ × Bytes)
  mdv_header_trace = do
    rx ← send t (cmd_mdv_trace ∷ replicate 16 0)
    detail ←
        lift (
          locate (b'M' ∷ b'T' ∷ []) 16 "This bitstream does not expose the Microdrive CPU trace."
            rx)
    let count = min (get_or detail 2 0) 16
    pure (count, slice 3 (3 + min count 13) (take 16 detail))

  pub mdv_data_trace : Exec (Link t) (ℕ × Bytes)
  mdv_data_trace = do
    rx ← send t (cmd_mdv_data_trace ∷ replicate 16 0)
    detail ← lift (
        locate (b'M' ∷ b'B' ∷ []) 16 "This bitstream does not expose the Microdrive data trace." rx)
    let count = bit_or (bit_and (get_or detail 2 0) 0x03 * 2 ^ 8) (get_or detail 3 0)
    pure (count, slice 4 16 detail)

  -- The rate itself is a float: the result is the mode, the pulses and the elapsed milliseconds,
  -- which the source divides.
  unfoldable pub measure_cpu_rate : ℕ → Exec (Link t) (ℕ × ℕ × ℕ)
  unfolding cpu_diagnostic
  measure_cpu_rate interval = do
    (speed, first_count) ← cpu_diagnostic
    started ← now t
    nap t interval
    (current_speed, second_count) ← cpu_diagnostic
    finished ← now t
    raise_if (not (current_speed == speed))
        (runtime_error "The FPGA CPU mode changed while it was being measured.")
    pure (speed, (second_count + 2 ^ 32 - first_count) % 2 ^ 32, finished - started)

  unfoldable pub debugger_info : Exec (Link t) DebuggerInfo
  debugger_info = do
    response ← send t (cmd_debug_info ∷ replicate 8 0)
    detail ← lift (
        locate (b'D' ∷ b'B' ∷ b'2' ∷ []) 5
          "This FPGA bitstream predates the current NanoQL debugger." response)
    pure (record { version = 2; capabilities = get_or detail 3 0; max_read = get_or detail 4 0 })

  unfoldable pub screenshot_info : Exec (Link t) (Bool × ℕ)
  screenshot_info = do
    response ← send t (cmd_screen_info ∷ replicate 8 0)
    detail ← lift (
        locate (b'S' ∷ b'C' ∷ b'1' ∷ []) 5 "This FPGA bitstream does not support screenshots."
          response)
    pure (has_bits (get_or detail 3 0) 1, get_or detail 4 0)
