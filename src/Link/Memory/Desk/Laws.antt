-- ===== src/Link/Memory/Desk/Laws.antt =====
-- The laws of the memory operations hold of the board of the tests.
use nano_ql.Base.{
  ℕ, zero, suc, ◌+◌, ◌/◌, ◌%◌, ◌≤◌, ◌<◌, bit_and, ◌≡◌, refl, ap, ◌∙◌, ◌⊎◌, inl, inr, Bool, true,
  false, [], ◌∷◌, ◌++◌, arith, length, take, Bytes, to_be,
}
use nano_ql.Base.Exec.{ok, is_ok}
use nano_ql.Link.Memory.{write_request, read_request}
use nano_ql.Link.Memory.Board.{stored, bytes_at, status_request, MemoryBoard}
use nano_ql.Link.Memory.Desk.{
  Desk, is_busy, memory_after, read_from, register_after, rest, start_write, start_read, be3,
  follow, flag_byte, tell, reply, desk,
}

start_write_lem :
    (a : ℕ) (block : Bytes) (e : Desk)
    → let e' = start_write a block e in
      (e'.held ≡ e.held)
      × ((e'.refused ≡ true)
          ⊎ (memory_after e'.transfer e'.memory
              ≡ stored a block (memory_after e.transfer e.memory)))
unfolding start_write is_busy memory_after
start_write_lem a block e = ground arith

start_read_lem :
    (a n : ℕ) (e : Desk)
    → let e' = start_read a n e in
      (e'.held ≡ e.held)
      × (memory_after e'.transfer e'.memory ≡ memory_after e.transfer e.memory)
      × ((e'.refused ≡ true)
          ⊎ (register_after e'.transfer e'.memory e'.register
              ≡ read_from (memory_after e.transfer e.memory) a))
unfolding start_read is_busy memory_after register_after
start_read_lem a n e = ground arith

-- The three bytes of an address are the address.
be3-digits : (a : ℕ) → a < 0x1000000 → be3 (a / 256 / 256 % 256) (a / 256 % 256) (a % 256) ≡ a
be3-digits a h = omega arith

take-bytes_at : (m : ℕ → ℕ) (a n k : ℕ) → n ≤ k → take n (bytes_at m a k) ≡ bytes_at m a n
unfolding bytes_at
take-bytes_at m a zero k h = refl
take-bytes_at m a (suc n) zero h = absurd (omega arith)
take-bytes_at m a (suc n) (suc k) h = ap (λ t. m a ∷ t) (take-bytes_at m (a + 1) n k (omega arith))

bytes_at-read_from : (m : ℕ → ℕ) (a j n : ℕ) → bytes_at (read_from m a) j n ≡ bytes_at m (a + j) n
unfolding bytes_at read_from
bytes_at-read_from m a j zero = refl
bytes_at-read_from m a j (suc n) =
    ap (λ t. m (a + j) ∷ t)
      (bytes_at-read_from m a (j + 1) n ∙ ap (λ x. bytes_at m x n) (omega arith))

-- The first bytes of a filled register.
filled : (m : ℕ → ℕ) (a n : ℕ) → n ≤ 8 → take n (bytes_at (read_from m a) 0 8) ≡ bytes_at m a n
filled m a n h =
    take-bytes_at (read_from m a) 0 n 8 h
    ∙ (bytes_at-read_from m a 0 n ∙ ap (λ x. bytes_at m x n) (omega arith))

reply-write :
    (a : ℕ) (block : Bytes) (e : Desk)
    → a < 0x1000000
    → (reply (write_request a block) e).1 ≡ start_write a block e
unfolding reply follow write_request to_be
reply-write a block e h = ap (λ x. start_write x block e) (be3-digits a h)

reply-read :
    (a n : ℕ) (e : Desk) → a < 0x1000000 → (reply (read_request a n) e).1 ≡ start_read a n e
unfolding reply follow read_request to_be
reply-read a n e h = ap (λ x. start_read x n e) (be3-digits a h)

pub flag_byte_error :
    (held refused busy : Bool) → bit_and (flag_byte held refused busy) 0x04 ≡ 0 → refused ≡ false
unfolding flag_byte
flag_byte_error held false busy h = refl
flag_byte_error true true true h = absurd (omega (arith, h))
flag_byte_error true true false h = absurd (omega (arith, h))
flag_byte_error false true true h = absurd (omega (arith, h))
flag_byte_error false true false h = absurd (omega (arith, h))

pub flag_byte_busy :
    (held refused busy : Bool) → bit_and (flag_byte held refused busy) 0x02 ≡ 0 → busy ≡ false
unfolding flag_byte
flag_byte_busy held refused false h = refl
flag_byte_busy true true true h = absurd (omega (arith, h))
flag_byte_busy true false true h = absurd (omega (arith, h))
flag_byte_busy false true true h = absurd (omega (arith, h))
flag_byte_busy false false true h = absurd (omega (arith, h))

pub desk_idle :
    (e : Desk)
    → is_busy e.transfer ≡ false
    → (memory_after e.transfer e.memory ≡ e.memory)
      × (register_after e.transfer e.memory e.register ≡ e.register)
unfolding is_busy memory_after register_after
desk_idle e h = ground arith

pub desk_write :
    (a : ℕ) (block : Bytes) (e : Desk)
    → a < 0x1000000
    → length block ≤ 8
    → e.held ≡ true
    → is_busy e.transfer ≡ false
    → is_ok (reply (write_request a block) e).0 ≡ true
    → let e' = (reply (write_request a block) e).1 in
      (e'.held ≡ true)
      × ((e'.refused ≡ true) ⊎ (memory_after e'.transfer e'.memory ≡ stored a block e.memory))
desk_write a block e low short held still sent =
    let (same, started) = start_write_lem a block e in
    rw (reply-write a block e low) (same ∙ held, rw (desk_idle e still).0 at started)

pub desk_read :
    (a n : ℕ) (e : Desk)
    → a < 0x1000000
    → n ≤ 8
    → e.held ≡ true
    → is_busy e.transfer ≡ false
    → is_ok (reply (read_request a n) e).0 ≡ true
    → let e' = (reply (read_request a n) e).1 in
      (e'.held ≡ true)
      × (memory_after e'.transfer e'.memory ≡ e.memory)
      × ((e'.refused ≡ true)
          ⊎ (take n (bytes_at (register_after e'.transfer e'.memory e'.register) 0 8)
              ≡ bytes_at e.memory a n))
desk_read a n e low short held still sent =
    let (same, kept, started) = start_read_lem a n e in
    let now = (desk_idle e still).0 in
    rw (reply-read a n e low) (
      same ∙ held,
      kept ∙ now,
      elim started [
        | inl refused ↦ inl refused
        | inr r ↦ inr (
            ap (λ x. take n (bytes_at x 0 8)) r
            ∙ (filled (memory_after e.transfer e.memory) a n short ∙ ap (λ m. bytes_at m a n) now))
      ],
    )

pub desk_status :
    (e : Desk) (r : Bytes)
    → (reply status_request e).0 ≡ ok r
    → r
      ≡ (0 ∷ [])
        ++ (b'N' ∷ b'Q' ∷ b'L' ∷ b'1' ∷ flag_byte e.held e.refused (is_busy e.transfer) ∷ [])
unfolding reply tell
desk_status e r h = cc

pub eight_of_nine : 8 ≤ 9
eight_of_nine = omega arith

pub one_byte : 1 ≤ 1
one_byte = omega arith

-- The laws hold of this board.
unfoldable pub desk-MemoryBoard : MemoryBoard desk
unfolding desk reply follow tell rest
desk-MemoryBoard = record {
  held = λ e. e.held;
  busy = λ e. is_busy e.transfer;
  protocol_error = λ e. e.refused;
  memory = λ e. e.memory;
  register = λ e. bytes_at e.register 0 8;
  memory_then = λ e. memory_after e.transfer e.memory;
  register_then = λ e. bytes_at (register_after e.transfer e.memory e.register) 0 8;
  idle_done = λ e h. ((desk_idle e h).0, ap (λ r. bytes_at r 0 8) (desk_idle e h).1);
  write_starts = desk_write;
  read_starts = desk_read;
  result_sends = λ e held sent. (held, refl, eight_of_nine, refl);
  result_idle = λ e h. h;
  status_keeps = λ e held. (held, refl, refl, refl);
  status_says = λ e r h. (
    0 ∷ [],
    flag_byte e.held e.refused (is_busy e.transfer),
    [],
    one_byte,
    desk_status e r h,
    flag_byte_error e.held e.refused (is_busy e.transfer),
    flag_byte_busy e.held e.refused (is_busy e.transfer),
  );
  sleep_keeps = λ ms e held. (held, refl, refl, refl);
}
