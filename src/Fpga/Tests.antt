-- ===== src/Fpga/Tests.antt =====
-- Programming a concrete board.
use nano_ql.Base.{ℕ, ◌≡◌, refl, true, [], ◌∷◌, Bytes, to_be}
use nano_ql.Base.Exec.{is_ok}
use nano_ql.Fpga.{
  is_bad_size, raise_gowin, restore_timeout, send_blocks, fpga_begin_request, program_steps,
  program_fpga,
}
use nano_ql.Fpga.Staged.{FpgaLaws, program_fpga-configured}
use nano_ql.Link.Bench.{act, say, answer, bench, link}

abbrev bitstream : Bytes
bitstream = 0xA5 ∷ 0xC3 ∷ 0 ∷ []

abbrev no_crc : Bytes → ℕ
no_crc _ = 0

bench-FpgaLaws : FpgaLaws bench no_crc
unfolding bench answer act fpga_begin_request to_be
bench-FpgaLaws = record {
  loaded = λ e. e.loaded;
  configured = λ e. e.configured;
  begin_empties = λ bits checksum e h. refl;
  data_appends = λ block e h. refl;
  program_configures = λ e h. refl;
  timeout_loaded = λ ms e. refl;
  timeout_configured = λ ms e. refl;
}

programmed : is_ok (program_fpga bench no_crc bitstream 7 link).0 ≡ true
unfolding program_fpga program_steps restore_timeout send_blocks is_bad_size fpga_begin_request
    raise_gowin to_be bench answer act say link
programmed = refl

program_fpga-configured_example :
    bench-FpgaLaws.configured (program_fpga bench no_crc bitstream 7 link).1.env ≡ bitstream
program_fpga-configured_example =
    program_fpga-configured bench no_crc bench-FpgaLaws bitstream 7 link programmed
