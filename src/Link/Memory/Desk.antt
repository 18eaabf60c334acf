-- ===== src/Link/Memory/Desk.antt =====
-- A concrete board for the tests of the memory operations, with the guards of CMD_WRITE and CMD_READ
-- of src/companion/ql_host_link.sv. A transfer is done at the next nap.
use nano_ql.Base.{
  ℕ, ◌+◌, ◌*◌, Bool, true, false, ◌&&◌, ◌||◌, none, [], ◌∷◌, ltb, leb, ◌==◌, not, if◌then◌else◌,
  length, Bytes,
}
use nano_ql.Base.Exec.{os_error, Result, ok, err}
use nano_ql.Link.Memory.Board.{stored, bytes_at}
use nano_ql.Link.Transport.{Transport, Link}
pub mod Laws

pub data Transfer : Type 0 where
  at_rest : Transfer
  storing : ℕ → Bytes → Transfer
  filling : ℕ → Transfer

pub record Desk : Type 0 where
  pub held : Bool
  pub refused : Bool
  pub memory : ℕ → ℕ
  pub register : ℕ → ℕ
  pub transfer : Transfer
  pub clock : ℕ

unfoldable pub is_busy : Transfer → Bool
is_busy at_rest = false
is_busy (storing a block) = true
is_busy (filling a) = true

unfoldable pub memory_after : Transfer → (ℕ → ℕ) → ℕ → ℕ
memory_after at_rest m = m
memory_after (storing a block) m = stored a block m
memory_after (filling a) m = m

unfoldable pub read_from : (ℕ → ℕ) → ℕ → ℕ → ℕ
read_from m a i = m (a + i)

unfoldable pub register_after : Transfer → (ℕ → ℕ) → (ℕ → ℕ) → ℕ → ℕ
register_after at_rest m r = r
register_after (storing a block) m r = r
register_after (filling a) m r = read_from m a

-- A nap, at the end of which the transfer is done.
unfoldable pub rest : ℕ → Desk → Desk
unfolding memory_after register_after
rest ms e = record e {
  memory = memory_after e.transfer e.memory;
  register = register_after e.transfer e.memory e.register;
  transfer = at_rest;
  clock = e.clock + ms;
}

unfoldable pub start_write : ℕ → Bytes → Desk → Desk
unfolding is_busy
start_write a block e =
    if e.held
      && not (is_busy e.transfer)
      && ltb 0 (length block)
      && leb (length block) 8
      && leb 0x020000 a
      && leb (a + length block) 0x040000
    then record e { transfer = storing a block }
    else record e { refused = true }

unfoldable pub start_read : ℕ → ℕ → Desk → Desk
unfolding is_busy
start_read a n e =
    if not (is_busy e.transfer)
      && ltb 0 n
      && leb n 8
      && (leb (a + n) 0x010000 || (leb 0x020000 a && leb (a + n) 0x040000))
    then record e { refused = false; transfer = filling a }
    else record e { refused = true }

abbrev pub be3 : ℕ → ℕ → ℕ → ℕ
be3 a b c = (a * 256 + b) * 256 + c

unfoldable pub follow : ℕ → Bytes → Desk → Desk
unfolding start_write start_read
follow command (a ∷ b ∷ c ∷ n ∷ block) e =
    if command == 0x02
    then start_write (be3 a b c) block e
    else if command == 0x06
    then start_read (be3 a b c) n e
    else e
follow command request e = e

-- `cpu_hold`, `protocol_error`, `busy` and `sdram_ready`
unfoldable pub flag_byte : Bool → Bool → Bool → ℕ
flag_byte held refused busy =
    (if held then 8 else 0) + ((if refused then 4 else 0) + ((if busy then 2 else 0) + 1))

unfoldable pub tell : ℕ → Desk → Bytes
unfolding flag_byte is_busy bytes_at
tell command e =
    if command == 0x07
    then 0 ∷ bytes_at e.register 0 8
    else 0 ∷ b'N' ∷ b'Q' ∷ b'L' ∷ b'1' ∷ flag_byte e.held e.refused (is_busy e.transfer) ∷ []

unfoldable pub reply : Bytes → Desk → Result Bytes × Desk
unfolding follow tell
reply [] e = (err os_error, e)
reply (command ∷ request) e = (ok (tell command e), follow command request e)

unfoldable pub desk : Transport
unfolding reply rest
desk = record {
  Env = Desk;
  transact = reply;
  sleep = rest;
  monotonic = λ e. e.clock;
  timeout = λ e. 1000;
  set_timeout = λ ms e. (ok tt, e);
  reconnect_count = λ e. 0;
  abandon_serial = λ e. e;
}

-- A link to a board with an empty memory, whose CPU is held or runs.
unfoldable pub desk_link : Bool → Link desk
unfolding desk
desk_link held = record {
  env = record {
    held = held;
    refused = false;
    memory = λ _. 0;
    register = λ _. 0;
    transfer = at_rest;
    clock = 0;
  };
  drive_firmware_build = none;
  keyboard_layout = "us";
  ql_layout = "en";
}
