-- ===== src/Fpga/Staged.antt =====
-- Direct programming loads the bitstream in order and whole, and the FPGA runs what was loaded.
use mathlib.Core.List.{append-nil, append_assoc}
use nano_ql.Base.{
  ℕ, zero, suc, ◌*◌, ◌≤◌, ◌≡◌, sym, ap, ◌∙◌, true, [], ◌∷◌, ◌++◌, arith, length, take, drop,
  length-drop, take-append-drop, Bytes, to_be,
}
use nano_ql.Base.Exec.{is_ok}
use nano_ql.Fpga.{
  cmd_fpga_data, cmd_fpga_program, block_size, block_count, raise_gowin, restore_timeout,
  send_blocks, fpga_begin_request, program_steps, program_fpga,
}
use nano_ql.Link.Transport.{Transport, Link, on_env, send}
use nano_ql.Qlay.Sector.{checksum}

module _ (t : Transport) where
  -- What the firmware does with the requests of `program_fpga` that it accepts.
  pub record FpgaLaws (crc32 : Bytes → ℕ) : Type 0 where
    pub loaded : t.Env → Bytes
    pub configured : t.Env → Bytes
    -- The command, and four bytes each of the length, its CRC-32 and the Gowin checksum.
    pub begin_empties :
        (bitstream : Bytes) (checksum : ℕ) (e : t.Env)
        → let request =
            0xF0
            ∷ (to_be 4 (length bitstream) ++ (to_be 4 (crc32 bitstream) ++ to_be 4 checksum)) in
          is_ok (t.transact request e).0 ≡ true → loaded (t.transact request e).1 ≡ []
    pub data_appends :
        (block : Bytes) (e : t.Env)
        → is_ok (t.transact (0xF1 ∷ block) e).0 ≡ true
        → loaded (t.transact (0xF1 ∷ block) e).1 ≡ loaded e ++ block
    pub program_configures :
        (e : t.Env)
        → is_ok (t.transact (0xF2 ∷ []) e).0 ≡ true
        → configured (t.transact (0xF2 ∷ []) e).1 ≡ loaded e
    pub timeout_loaded : (ms : ℕ) (e : t.Env) → loaded (t.set_timeout ms e).1 ≡ loaded e
    pub timeout_configured : (ms : ℕ) (e : t.Env) → configured (t.set_timeout ms e).1 ≡ configured e

  module _ (crc32 : Bytes → ℕ) (board : FpgaLaws crc32) where
    open board use {loaded, configured}

    blocks_cases :
        (n : ℕ) (bytes : Bytes) (l : Link t)
        → is_ok (send_blocks t (send t) (suc n) bytes l).0 ≡ true
        → let (r, l1) = send t ((cmd_fpga_data ∷ []) ++ take block_size bytes) l in
          (is_ok r ≡ true)
          × (send_blocks t (send t) (suc n) bytes l
              ≡ send_blocks t (send t) n (drop block_size bytes) l1)
    unfolding send_blocks
    blocks_cases n bytes l h = ground arith

    send_blocks-loaded :
        (n : ℕ) (bytes : Bytes) (l : Link t)
        → length bytes ≤ block_size * n
        → is_ok (send_blocks t (send t) n bytes l).0 ≡ true
        → loaded (send_blocks t (send t) n bytes l).1.env ≡ loaded l.env ++ bytes
    unfolding send_blocks
    send_blocks-loaded zero [] l fits h = sym (append-nil (loaded l.env))
    send_blocks-loaded zero (b ∷ bs) l fits h = absurd (omega arith)
    send_blocks-loaded (suc n) bytes l fits h =
        let block = take block_size bytes in
        let l1 = (send t ((cmd_fpga_data ∷ []) ++ block) l).1 in
        let (sent_ok, same) = blocks_cases n bytes l h in
        let rest =
          send_blocks-loaded n (drop block_size bytes) l1
            (omega (arith, length-drop block_size bytes)) (rw same at h) in
        rw same (
          rest
          ∙ (ap (λ x. x ++ drop block_size bytes) (board.data_appends block l.env sent_ok)
              ∙ (append_assoc (loaded l.env) block (drop block_size bytes)
                  ∙ ap (λ x. loaded l.env ++ x) (take-append-drop block_size bytes))))

    steps_cases :
        (bitstream : Bytes) (checksum : ℕ) (l : Link t)
        → is_ok (program_steps t crc32 bitstream checksum l).0 ≡ true
        → let (r, l1) = send t (fpga_begin_request t crc32 bitstream checksum) l in
          let (r1, l2) = send_blocks t (send t) (block_count bitstream) bitstream l1 in
          let l3 = (on_env t (t.set_timeout 120000) l2).1 in
          let (r2, l4) = send t (cmd_fpga_program ∷ []) l3 in
          (is_ok r ≡ true)
          × (is_ok r1 ≡ true)
          × (is_ok r2 ≡ true)
          × ((program_steps t crc32 bitstream checksum l).1 ≡ l4)
    unfolding program_steps raise_gowin
    steps_cases bitstream checksum l h = ground arith

    begun_empty :
        (bitstream : Bytes) (checksum : ℕ) (e : t.Env)
        → is_ok (t.transact (fpga_begin_request t crc32 bitstream checksum) e).0 ≡ true
        → loaded (t.transact (fpga_begin_request t crc32 bitstream checksum) e).1 ≡ []
    unfolding fpga_begin_request
    begun_empty bitstream checksum e h = board.begin_empties bitstream checksum e h

    program_steps-configured :
        (bitstream : Bytes) (checksum : ℕ) (l : Link t)
        → is_ok (program_steps t crc32 bitstream checksum l).0 ≡ true
        → configured (program_steps t crc32 bitstream checksum l).1.env ≡ bitstream
    program_steps-configured bitstream checksum l h =
        let l1 = (send t (fpga_begin_request t crc32 bitstream checksum) l).1 in
        let l2 = (send_blocks t (send t) (block_count bitstream) bitstream l1).1 in
        let l3 = (on_env t (t.set_timeout 120000) l2).1 in
        let (begun, sent, done, same) = steps_cases bitstream checksum l h in
        ap (λ x. configured x.env) same
        ∙ (board.program_configures l3.env done
            ∙ (board.timeout_loaded 120000 l2.env
                ∙ (send_blocks-loaded (block_count bitstream) bitstream l1 (omega arith) sent
                    ∙ ap (λ x. x ++ bitstream) (begun_empty bitstream checksum l.env begun))))

    program_cases :
        (bitstream : Bytes) (checksum : ℕ) (l : Link t)
        → is_ok (program_fpga t crc32 bitstream checksum l).0 ≡ true
        → let (r, l1) = program_steps t crc32 bitstream checksum l in
          (is_ok r ≡ true)
          × ((program_fpga t crc32 bitstream checksum l).1.env
              ≡ (t.set_timeout (t.timeout l.env) l1.env).1)
    unfolding program_fpga restore_timeout
    program_cases bitstream checksum l h = ground arith

    -- When `program_fpga` returns, the FPGA is configured with the whole bitstream, on a board that
    -- empties its buffer at a request with the bitstream's length, its CRC-32 and the Gowin checksum,
    -- appends each block and configures the FPGA from it.
    pub program_fpga-configured :
        (bitstream : Bytes) (checksum : ℕ) (l : Link t)
        → is_ok (program_fpga t crc32 bitstream checksum l).0 ≡ true
        → configured (program_fpga t crc32 bitstream checksum l).1.env ≡ bitstream
    program_fpga-configured bitstream checksum l h =
        let l1 = (program_steps t crc32 bitstream checksum l).1 in
        let (done, same) = program_cases bitstream checksum l h in
        ap configured same
        ∙ (board.timeout_configured (t.timeout l.env) l1.env
            ∙ program_steps-configured bitstream checksum l done)
