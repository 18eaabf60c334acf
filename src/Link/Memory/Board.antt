-- ===== src/Link/Memory/Board.antt =====
-- What the memory operations rely on the FPGA for, as src/companion/ql_host_link.sv answers the
-- commands CMD_STATUS, CMD_WRITE, CMD_READ and CMD_RESULT.
use mathlib.Core.List.{append-nil}
use nano_ql.Base.{
  ℕ, zero, suc, ◌+◌, ◌-◌, ◌≤◌, ◌<◌, min, bit_and, ◌≡◌, refl, sym, ap, ◌∙◌, ◌⊎◌, Bool, true, false,
  [], ◌∷◌, ◌++◌, arith, ◌==◌, if◌then◌else◌, length, take, drop, replicate, Bytes,
}
use nano_ql.Base.Exec.{ok, is_ok, ok_or}
use nano_ql.Link.Memory.{write_request, read_request, read_result_request}
use nano_ql.Link.Transport.{Transport}
use native.Mathlib.Decide.{dec_le}

-- Bytes written one after the other, from an address on.
abbrev pub update : (ℕ → ℕ) → ℕ → ℕ → ℕ → ℕ
update m a b x = if x == a then b else m x

unfoldable pub stored : ℕ → Bytes → (ℕ → ℕ) → ℕ → ℕ
stored a [] m = m
stored a (b ∷ bs) m = stored (a + 1) bs (update m a b)

unfoldable pub bytes_at : (ℕ → ℕ) → ℕ → ℕ → Bytes
bytes_at m a zero = []
bytes_at m a (suc n) = m a ∷ bytes_at m (a + 1) n

abbrev pub status_request : Bytes
status_request = 0 ∷ replicate 16 0

-- A request reaches the FPGA's state machine: the flags of its status byte, the memory and the read
-- register as they are, and as the transfer that is under way will leave them. No reset and no
-- button comes in between.
module _ (t : Transport) where
  open t use {Env, transact, sleep}

  pub record MemoryBoard : Type 0 where
    pub held : Env → Bool
    pub busy : Env → Bool
    pub protocol_error : Env → Bool
    pub memory : Env → ℕ → ℕ
    pub register : Env → Bytes
    pub memory_then : Env → ℕ → ℕ
    pub register_then : Env → Bytes
    -- `write_state == WR_IDLE`: no transfer is under way
    pub idle_done :
        (e : Env) → busy e ≡ false → (memory_then e ≡ memory e) × (register_then e ≡ register e)
    -- CMD_WRITE is refused with `protocol_error`, or starts a transfer.
    pub write_starts :
        (a : ℕ) (block : Bytes) (e : Env)
        → a < 0x1000000
        → length block ≤ 8
        → held e ≡ true
        → busy e ≡ false
        → is_ok (transact (write_request a block) e).0 ≡ true
        → let e' = (transact (write_request a block) e).1 in
          (held e' ≡ true)
          × ((protocol_error e' ≡ true) ⊎ (memory_then e' ≡ stored a block (memory e)))
    -- CMD_READ is refused with `protocol_error`, or starts to fill the register.
    pub read_starts :
        (a n : ℕ) (e : Env)
        → a < 0x1000000
        → n ≤ 8
        → held e ≡ true
        → busy e ≡ false
        → is_ok (transact (read_request a n) e).0 ≡ true
        → let e' = (transact (read_request a n) e).1 in
          (held e' ≡ true)
          × (memory_then e' ≡ memory e)
          × ((protocol_error e' ≡ true) ⊎ (take n (register_then e') ≡ bytes_at (memory e) a n))
    -- CMD_RESULT sends what the register holds.
    pub result_sends :
        (e : Env)
        → held e ≡ true
        → is_ok (transact read_result_request e).0 ≡ true
        → let (reply, e') = transact read_result_request e in
          let r = ok_or [] reply in
          (held e' ≡ true)
          × (memory_then e' ≡ memory_then e)
          × (8 ≤ length r)
          × (drop (length r - 8) r ≡ register e)
    pub result_idle : (e : Env) → busy e ≡ false → busy (transact read_result_request e).1 ≡ false
    -- CMD_STATUS changes nothing of these, and its reply has `busy` and `protocol_error` in the
    -- byte after the signature. A byte of an earlier exchange can stand before it.
    pub status_keeps :
        (e : Env)
        → held e ≡ true
        → let e' = (transact status_request e).1 in
          (held e' ≡ true)
          × (memory_then e' ≡ memory_then e)
          × (register_then e' ≡ register_then e)
          × (protocol_error e' ≡ protocol_error e)
    pub status_says :
        (e : Env) (r : Bytes)
        → (transact status_request e).0 ≡ ok r
        → let e' = (transact status_request e).1 in
          (before : Bytes) × (flags : ℕ) × (after : Bytes) × (length before ≤ 1)
          × (r ≡ before ++ (b'N' ∷ b'Q' ∷ b'L' ∷ b'1' ∷ flags ∷ after))
          × (bit_and flags 0x04 ≡ 0 → protocol_error e' ≡ false)
          × (bit_and flags 0x02 ≡ 0 → busy e' ≡ false)
    pub sleep_keeps :
        (ms : ℕ) (e : Env)
        → held e ≡ true
        → let e' = sleep ms e in
          (held e' ≡ true)
          × (memory_then e' ≡ memory_then e)
          × (register_then e' ≡ register_then e)
          × (protocol_error e' ≡ protocol_error e)

-- The laws of `stored`.
pub stored-append :
    (a : ℕ) (xs ys : Bytes) (m : ℕ → ℕ)
    → stored a (xs ++ ys) m ≡ stored (a + length xs) ys (stored a xs m)
unfolding stored
stored-append a [] ys m = ap (λ t. stored t ys m) (omega arith)
stored-append a (x ∷ xs) ys m =
    stored-append (a + 1) xs ys (update m a x)
    ∙ ap (λ t. stored t ys (stored (a + 1) xs (update m a x))) (omega arith)

pub stored_below : (a x : ℕ) (bs : Bytes) (m : ℕ → ℕ) → x < a → stored a bs m x ≡ m x
unfolding stored
stored_below a x [] m h = refl
stored_below a x (b ∷ bs) m h =
    ground (arith, stored_below (a + 1) x bs (update m a b) (omega arith))

pub stored_above : (a x : ℕ) (bs : Bytes) (m : ℕ → ℕ) → a + length bs ≤ x → stored a bs m x ≡ m x
unfolding stored
stored_above a x [] m h = refl
stored_above a x (b ∷ bs) m h =
    ground (arith, stored_above (a + 1) x bs (update m a b) (omega arith))

pub bytes_at-stored : (a : ℕ) (bs : Bytes) (m : ℕ → ℕ) → bytes_at (stored a bs m) a (length bs) ≡ bs
unfolding stored bytes_at
bytes_at-stored a [] m = refl
bytes_at-stored a (b ∷ bs) m = ground (
  arith,
  stored_below (a + 1) a bs (update m a b) (omega arith),
  bytes_at-stored (a + 1) bs (update m a b),
)

pub bytes_at-append :
    (m : ℕ → ℕ) (a j k : ℕ) → bytes_at m a (j + k) ≡ bytes_at m a j ++ bytes_at m (a + j) k
unfolding bytes_at
bytes_at-append m a zero k = ground arith
bytes_at-append m a (suc j) k =
    let e : suc j + k ≡ suc (j + k) = omega arith in
    let e' : a + suc j ≡ a + 1 + j = omega arith in
    rw (e, e') (ap (λ t. m a ∷ t) (bytes_at-append m (a + 1) j k))

pub length-bytes_at : (m : ℕ → ℕ) (a n : ℕ) → length (bytes_at m a n) ≡ n
unfolding bytes_at
length-bytes_at m a zero = refl
length-bytes_at m a (suc n) = ap suc (length-bytes_at m (a + 1) n)

pub stored-nil : (a : ℕ) (m : ℕ → ℕ) → stored a [] m ≡ m
unfolding stored
stored-nil a m = refl

-- The first block of a read, and the others.
pub bytes_at_split :
    (m : ℕ → ℕ) (a len : ℕ)
    → bytes_at m a (min 8 len) ++ bytes_at m (a + 8) (len - 8) ≡ bytes_at m a len
unfolding bytes_at
bytes_at_split m a len = elim (dec_le 8 len) [
  | yes long ↦
      let e : min 8 len ≡ 8 = omega arith in
      rw e (sym (bytes_at-append m a 8 (len - 8)) ∙ ap (bytes_at m a) (omega arith))
  | no short ↦
      let e : min 8 len ≡ len = omega arith in
      let e' : len - 8 ≡ 0 = omega arith in rw (e, e') (append-nil (bytes_at m a len))
]
