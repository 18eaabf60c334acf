-- ===== src/Debug/Tests.antt =====
-- The system variables of a board that stands still.
use nano_ql.Base.{
  ◌≡◌, refl, ◌∷◌, leb, ◌==◌, if◌then◌else◌, replicate, bytes_eq, starts_with, find_from, find,
  to_be, from_be,
}
use nano_ql.Base.Exec.{ok}
use nano_ql.Debug.{decode_qdos_memory_map, compare_loop, qdos_memory_map}
use nano_ql.Debug.Snapshot.{ReadTwice, qdos_memory_map-ReadTwice}
use nano_ql.Link.Bench.{peek, act, say, answer, bench, link}
use nano_ql.Link.Memory.{
  read_request, is_settled, wait_loop, wait_idle, read_blocks, is_readable, expected_hold_of, read,
}
use nano_ql.Link.Memory.Board.{bytes_at}
use nano_ql.Link.Status.{locate, status_payload, status}
use nano_ql.Link.Transport.{Link}

unfoldable ident_link : Link bench
unfolding bench link
ident_link = record link {
  env = record link.env {
    memory = λ a.
        if leb 0x28004 a
        then 7
        else if a == 0x28000
        then 0xD2
        else if a == 0x28001
        then 0x54
        else 0;
  };
}

snapshot :
    qdos_memory_map bench ident_link
    ≡ (ok (0xD2540000 ∷ replicate 8 0x07070707), (qdos_memory_map bench ident_link).1)
unfolding qdos_memory_map compare_loop decode_qdos_memory_map read is_readable read_blocks
    read_request expected_hold_of to_be from_be bytes_eq wait_idle wait_loop is_settled status
    status_payload locate find find_from starts_with bench answer act say peek link ident_link
    bytes_at
snapshot = refl

qdos_memory_map-ReadTwice_example :
    ReadTwice bench (0xD2540000 ∷ replicate 8 0x07070707) (qdos_memory_map bench ident_link).1
qdos_memory_map-ReadTwice_example =
    qdos_memory_map-ReadTwice bench ident_link (qdos_memory_map bench ident_link).1
      (0xD2540000 ∷ replicate 8 0x07070707) snapshot
