-- ===== src/Link/Memory/Reads.antt =====
-- `read` returns what the QL's memory holds, and `load_binary` finds its bytes in place.
use nano_ql.Link.Transport.{Transport, Link}
