-- ===== src/Link/Memory.antt =====
-- tools/nanoql_link.py: `wait_idle`, `hold`, `resume`, `write`, `read`, `execute` and `qdos` of
-- `NanoQLLink`, and `load_binary`.
-- Addresses are naturals: the range tests of the source refuse negative ones.
pub mod Waiting
pub mod Board
pub mod Desk
pub mod Stores
pub mod Reads
pub mod Tests
use nano_ql.Base.{
  ℕ, zero, suc, ◌+◌, ◌-◌, ◌/◌, min, Bool, true, false, ◌&&◌, ◌||◌, [], ◌∷◌, ◌++◌, ltb, leb, not,
  bool_eq, length, take, drop, replicate, bytes_eq, Bytes, to_be,
}
use nano_ql.Base.Exec.{
  runtime_error, value_error, timeout_error, out_of_rounds, ok, err, Exec, pure, ◌>>=◌, ◌>>◌, skip,
  raise_if,
}
use nano_ql.Link.Status.{has_bits, status}
use nano_ql.Link.Transport.{Transport, Link, send, nap}

abbrev pub cmd_hold : ℕ
cmd_hold = 0x01

abbrev pub cmd_write : ℕ
cmd_write = 0x02

abbrev pub cmd_exec : ℕ
cmd_exec = 0x03

abbrev pub cmd_qdos : ℕ
cmd_qdos = 0x04

abbrev pub cmd_read : ℕ
cmd_read = 0x06

abbrev pub cmd_read_result : ℕ
cmd_read_result = 0x07

abbrev pub cmd_resume : ℕ
cmd_resume = 0x0D

-- Two seconds of naps of five milliseconds, and the last look at the clock.
abbrev pub wait_rounds : ℕ
wait_rounds = 401

unfoldable pub write_request : ℕ → Bytes → Bytes
write_request address block = (cmd_write ∷ []) ++ (to_be 3 address ++ (length block ∷ [] ++ block))

unfoldable pub read_request : ℕ → ℕ → Bytes
read_request address len = (cmd_read ∷ []) ++ (to_be 3 address ++ (len ∷ []))

abbrev pub read_result_request : Bytes
read_result_request = cmd_read_result ∷ replicate 8 0

-- `response[-8:][:block_length]`
abbrev pub result_block : ℕ → Bytes → Bytes
result_block block_length response = take block_length (drop (length response - 8) response)

-- `range(0, length, 8)` has this many members.
abbrev pub blocks_of_eight : ℕ → ℕ
blocks_of_eight len = (len + 7) / 8

-- `ready and not busy and held == expect_hold`, the tests of one status byte.
unfoldable pub is_settled : Bool → ℕ → Bool
is_settled expect_hold value =
    has_bits value 0x01 && not (has_bits value 0x02) && bool_eq (has_bits value 0x08) expect_hold

module _ (t : Transport) where
  unfoldable pub wait_loop : ℕ → ℕ → Bool → Exec (Link t) ℕ
  unfolding is_settled
  wait_loop zero deadline expect_hold l = (err out_of_rounds, l)
  wait_loop (suc n) deadline expect_hold l = elim (ltb (t.monotonic l.env) deadline) [
    | true ↦ elim (status t l).0 [
      | ok value ↦ elim (has_bits value 0x04) [
        | true ↦ (err (runtime_error "The FPGA rejected the command."), (status t l).1)
        | false ↦ elim (is_settled expect_hold value) [
          | true ↦ (ok value, (status t l).1)
          | false ↦ wait_loop n deadline expect_hold (nap t 5 (status t l).1).1
        ]
      ]
      | err e ↦ (err e, (status t l).1)
    ]
    | false ↦ (err (timeout_error "The FPGA did not become available before the timeout."), l)
  ]

  unfoldable pub wait_idle : Bool → Exec (Link t) ℕ
  unfolding wait_loop
  wait_idle expect_hold l = wait_loop wait_rounds (t.monotonic l.env + 2000) expect_hold l

  unfoldable pub hold : Exec (Link t) (Unit {0})
  hold = do send t (cmd_hold ∷ []); wait_idle true; skip

  unfoldable pub resume : Exec (Link t) (Unit {0})
  resume = do send t (cmd_resume ∷ []); wait_idle false; skip

  pub write_blocks : ℕ → ℕ → Bytes → Exec (Link t) (Unit {0})
  write_blocks zero address bytes = skip
  write_blocks (suc n) address bytes = do
    send t (write_request address (take 8 bytes))
    wait_idle true
    write_blocks n (address + 8) (drop 8 bytes)

  unfoldable pub write : ℕ → Bytes → Exec (Link t) (Unit {0})
  unfolding write_blocks
  write address bytes = do
    raise_if (ltb address 0x020000 || ltb 0x040000 (address + length bytes))
        (value_error "The block must remain within QL RAM 0x020000-0x03ffff.")
    write_blocks (blocks_of_eight (length bytes)) address bytes

  unfoldable pub read_blocks : ℕ → Bool → ℕ → ℕ → Exec (Link t) Bytes
  read_blocks zero expected_hold address len = pure []
  read_blocks (suc n) expected_hold address len = do
    send t (read_request address (min 8 len))
    wait_idle expected_hold
    response ← send t read_result_request
    raise_if (ltb (length response) (min 8 len)) (runtime_error "Incomplete RAM read response.")
    rest ← read_blocks n expected_hold (address + 8) (len - 8)
    pure (result_block (min 8 len) response ++ rest)

  unfoldable pub is_readable : ℕ → ℕ → Bool
  is_readable address len =
      leb (address + len) 0x010000 || (leb 0x020000 address && leb (address + len) 0x040000)

  -- `bool(self.status() & 0x08) if live else True`
  unfoldable pub expected_hold_of : Bool → Exec (Link t) Bool
  expected_hold_of true = do value ← status t; pure (has_bits value 0x08)
  expected_hold_of false = pure true

  unfoldable pub read : ℕ → ℕ → Bool → Exec (Link t) Bytes
  unfolding read_blocks expected_hold_of is_readable
  read address len live = do
    raise_if (not (is_readable address len))
        (value_error "The block must remain within system ROM or QL RAM.")
    expected_hold ← expected_hold_of live
    read_blocks (blocks_of_eight len) expected_hold address len

  unfoldable pub execute : ℕ → ℕ → Exec (Link t) ℕ
  execute stack_pointer program_counter = do
    send t ((cmd_exec ∷ []) ++ (to_be 4 stack_pointer ++ to_be 4 program_counter))
    wait_idle false
    nap t 250
    status t

  unfoldable pub qdos : Exec (Link t) (Unit {0})
  qdos = do send t (cmd_qdos ∷ []); skip

  -- `load_binary`; the result is the status byte that the source prints.
  unfoldable pub load_binary : Bytes → ℕ → ℕ → ℕ → Exec (Link t) ℕ
  load_binary bytes address pc stack = do
    raise_if (has_bits pc 1 || has_bits stack 1)
        (value_error "The 68000 PC and stack pointer must be even.")
    hold
    write address bytes
    readback ← read address (length bytes) false
    raise_if (not (bytes_eq readback bytes)) (runtime_error "RAM verification failed.")
    execute stack pc
