-- ===== src/Link/Memory/Stores.antt =====
-- `write` puts its bytes into the QL's memory: each block is sent, and `wait_idle` sees whether the
-- FPGA refused it and when it is stored.
-- The status byte is found behind a byte of an earlier exchange.
use nano_ql.Base.{
  ℕ, zero, suc, ◌+◌, ◌*◌, ◌≤◌, ◌<◌, bit_and, String, ◌≡◌, refl, sym, ap, ◌∙◌, inl, inr, Bool, true,
  false, [], ◌∷◌, ◌++◌, arith, length, take, drop, length-take, length-drop, take-append-drop,
  take_all, starts_with, find_from, find, drop_all, Bytes,
}
use nano_ql.Base.Exec.{ok, is_ok, Result-cases}
use nano_ql.Link.Memory.{write_request, blocks_of_eight, wait_idle, write_blocks, write}
use nano_ql.Link.Memory.Board.{stored, status_request, MemoryBoard, stored-append, stored-nil}
use nano_ql.Link.Memory.Waiting.{wait_idle-keeps}
use nano_ql.Link.Status.{locate, status_payload, status}
use nano_ql.Link.Transport.{Transport, Link, send}
use native.Mathlib.Decide.{dec_le}

locate_flags :
    (before : Bytes) (flags : ℕ) (after : Bytes) (message : String)
    → length before ≤ 1
    → locate
        (b'N' ∷ b'Q' ∷ b'L' ∷ b'1' ∷ [])
        5
        message
        (before ++ (b'N' ∷ b'Q' ∷ b'L' ∷ b'1' ∷ flags ∷ after))
      ≡ ok (b'N' ∷ b'Q' ∷ b'L' ∷ b'1' ∷ flags ∷ after)
unfolding locate find find_from starts_with
locate_flags [] flags after message h = ground arith
locate_flags (x ∷ []) flags after message h = ground arith
locate_flags (x ∷ y ∷ _) flags after message h = absurd (omega arith)

stored_blocks :
    (a : ℕ) (bytes : Bytes) (m : ℕ → ℕ)
    → stored (a + 8) (drop 8 bytes) (stored a (take 8 bytes) m) ≡ stored a bytes m
stored_blocks a bytes m = elim (dec_le 8 (length bytes)) [
  | yes long ↦
      let e : a + length (take 8 bytes) ≡ a + 8 = omega (arith, length-take 8 bytes) in
      rw (← e) (
        sym (stored-append a (take 8 bytes) (drop 8 bytes) m)
        ∙ ap (λ t. stored a t m) (take-append-drop 8 bytes))
  | no short ↦
      rw (take_all 8 bytes (omega arith), drop_all 8 bytes (omega arith)) (stored-nil (a + 8) _)
]

module _ (t : Transport) (board : MemoryBoard t) where
  open board use {
    held, busy, protocol_error, memory, register, memory_then, register_then, idle_done,
    write_starts, status_keeps, status_says, sleep_keeps,
  }

  -- A status that is read tells the flags of the board.
  status-flags :
      (l l' : Link t) (value : ℕ)
      → status t l ≡ (ok value, l')
      → (bit_and value 0x04 ≡ 0 → protocol_error l'.env ≡ false)
        × (bit_and value 0x02 ≡ 0 → busy l'.env ≡ false)
  unfolding status status_payload
  status-flags l l' value h = elim (Result-cases (t.transact status_request l.env).0) [
    | inl (r, e) ↦
        let (before, flags, after, short, same, error_says, busy_says) = status_says l.env r e in
        let found =
          locate_flags before flags after "The bitstream did not respond as NanoQL Link v1."
            short in
        (λ c. ground arith, λ c. ground arith)
    | inr (x, e) ↦ absurd (ground arith)
  ]

  -- A held CPU, and what a transfer that is under way will leave.
  abbrev pub IsUnderWay : (ℕ → ℕ) → Bytes → Bool → Link t → Type 0
  IsUnderWay m r refused l =
      (held l.env ≡ true)
      × (memory_then l.env ≡ m)
      × (register_then l.env ≡ r)
      × (protocol_error l.env ≡ refused)

  -- A held CPU, and no transfer.
  abbrev pub IsIdle : (ℕ → ℕ) → Link t → Type 0
  IsIdle m l = (held l.env ≡ true) × (busy l.env ≡ false) × (memory l.env ≡ m)

  status-IsUnderWay :
      (m : ℕ → ℕ) (r : Bytes) (refused : Bool) (l : Link t)
      → IsUnderWay m r refused l
      → IsUnderWay m r refused (status t l).1
  unfolding status status_payload
  status-IsUnderWay m r refused l h = ground (arith, status_keeps l.env)

  -- A `wait_idle` that returns has seen the transfer done, and that it was not refused.
  pub wait_idle-IsIdle :
      (m : ℕ → ℕ) (r : Bytes) (refused : Bool) (l : Link t)
      → IsUnderWay m r refused l
      → is_ok (wait_idle t true l).0 ≡ true
      → (refused ≡ false)
        × IsIdle m (wait_idle t true l).1
        × (register (wait_idle t true l).1.env ≡ r)
  wait_idle-IsIdle m r refused l under_way h = elim (Result-cases (wait_idle t true l).0) [
    | inr (x, e) ↦ absurd (ground arith)
    | inl (value, e) ↦
        let l' = (wait_idle t true l).1 in
        let (before, kept, seen, ready, idle, clear, _) =
          wait_idle-keeps t (IsUnderWay m r refused) (status-IsUnderWay m r refused)
            (λ x k. ground (arith, sleep_keeps 5 x.env)) true l l' value under_way (ground arith) in
        let flags = status-flags before l' value seen in
        let after = status-IsUnderWay m r refused before kept in
        ground (arith, flags.0 clear, flags.1 idle, idle_done l'.env)
  ]

  -- One round of `write` that is not refused stores its block.
  write_block :
      (a : ℕ) (block : Bytes) (m : ℕ → ℕ) (l : Link t)
      → a < 0x1000000
      → length block ≤ 8
      → IsIdle m l
      → let l1 = (send t (write_request a block) l).1 in
        is_ok (send t (write_request a block) l).0 ≡ true
        → is_ok (wait_idle t true l1).0 ≡ true
        → IsIdle (stored a block m) (wait_idle t true l1).1
  write_block a block m l inside short (held, idle, same) sent waited =
      let e' = (t.transact (write_request a block) l.env).1 in
      let (held', started) = write_starts a block l.env inside short held idle sent in
      let (accepted, done, _) =
        wait_idle-IsIdle (memory_then e') (register_then e') (protocol_error e')
          (send t (write_request a block) l).1 (held', refl, refl, refl) waited in
      elim started [
        | inl refused ↦ absurd (cc)
        | inr e ↦
            let stored_now : memory_then e' ≡ stored a block m = e ∙ ap (stored a block) same in
            (done.0, done.1, done.2 ∙ stored_now)
      ]

  write_blocks-IsIdle :
      (n a : ℕ) (bytes : Bytes) (m : ℕ → ℕ) (l : Link t)
      → length bytes ≤ 8 * n
      → a + 8 * n < 0x1000000
      → IsIdle m l
      → is_ok (write_blocks t n a bytes l).0 ≡ true
      → IsIdle (stored a bytes m) (write_blocks t n a bytes l).1
  unfolding write_blocks
  write_blocks-IsIdle zero a [] m l fits inside idle h = rw (stored-nil a m) idle
  write_blocks-IsIdle zero a (b ∷ bs) m l fits inside idle h = absurd (omega arith)
  write_blocks-IsIdle (suc n) a bytes m l fits inside idle h =
      let l1 = (send t (write_request a (take 8 bytes)) l).1 in
      let l2 = (wait_idle t true l1).1 in
      ground (
        arith,
        length-drop 8 bytes,
        length-take 8 bytes,
        write_block a (take 8 bytes) m l,
        stored_blocks a bytes m,
        write_blocks-IsIdle n (a + 8) (drop 8 bytes) (stored a (take 8 bytes) m) l2,
      )

  pub write-IsIdle :
      (a : ℕ) (bytes : Bytes) (m : ℕ → ℕ) (l : Link t)
      → IsIdle m l
      → is_ok (write t a bytes l).0 ≡ true
      → IsIdle (stored a bytes m) (write t a bytes l).1
  unfolding write
  write-IsIdle a bytes m l idle h =
      ground (arith, write_blocks-IsIdle (blocks_of_eight (length bytes)) a bytes m l)
