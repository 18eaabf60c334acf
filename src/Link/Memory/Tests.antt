-- ===== src/Link/Memory/Tests.antt =====
-- The memory operations on a concrete board.
use nano_ql.Base.{
  bit_and, ◌≡◌, refl, ◌≢◌, true, false, [], ◌∷◌, ◌==◌, not, starts_with, find_from, find, Bytes,
  to_be,
}
use nano_ql.Base.Exec.{runtime_error, out_of_rounds, ok, err}
use nano_ql.Link.Bench.{act, say, answer, bench, link, bench-TimeLaws}
use nano_ql.Link.Memory.{write_request, is_settled, wait_loop, wait_idle, write_blocks, write}
use nano_ql.Link.Memory.Board.{bytes_at}
use nano_ql.Link.Memory.Desk.{
  is_busy, memory_after, read_from, register_after, rest, start_write, start_read, follow,
  flag_byte, tell, reply, desk, desk_link,
}
use nano_ql.Link.Memory.Waiting.{wait_idle_ends, wait_idle-settled}
use nano_ql.Link.Status.{locate, status_payload, status}
use nano_ql.Link.Transport.{Link}

abbrev program : Bytes
program = 1 ∷ 2 ∷ 3 ∷ 4 ∷ 5 ∷ 6 ∷ 7 ∷ 8 ∷ 9 ∷ 10 ∷ []

wait_idle_ends_example : (wait_idle bench true link).0 ≢ err out_of_rounds
wait_idle_ends_example = wait_idle_ends bench bench-TimeLaws true link

idle_status : wait_idle bench true link ≡ (ok 9, link)
unfolding wait_idle wait_loop status status_payload bench answer act say link locate find find_from
    starts_with is_settled
idle_status = refl

wait_idle-settled_example :
    (before : Link bench) × (status bench before ≡ (ok 9, link))
    × (bit_and 9 0x01 ≢ 0)
    × (bit_and 9 0x02 ≡ 0)
    × (bit_and 9 0x04 ≡ 0)
    × (not (bit_and 9 0x08 == 0) ≡ true)
wait_idle-settled_example = wait_idle-settled bench true link link 9 idle_status

-- The FPGA refuses to write while the CPU runs, and `write` reports it.
running_refused :
    (write desk 0x20000 program (desk_link false)).0
    ≡ err (runtime_error "The FPGA rejected the command.")
unfolding write write_blocks write_request to_be desk reply follow tell rest start_write start_read
    is_busy flag_byte memory_after register_after read_from desk_link wait_idle wait_loop status
    status_payload locate find find_from starts_with is_settled bytes_at
running_refused = refl

abbrev after_write : Link desk
after_write = (write desk 0x20000 program (desk_link true)).1
