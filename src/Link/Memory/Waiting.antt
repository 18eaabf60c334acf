-- ===== src/Link/Memory/Waiting.antt =====
-- `wait_idle` ends, and what it has seen when it returns.
use nano_ql.Base.{
  ℕ, zero, suc, ◌+◌, ◌*◌, ◌≤◌, bit_and, ◌≡◌, refl, ◌≢◌, ◌⊎◌, inl, inr, Bool, true, false, ◌∷◌,
  arith, ◌==◌, not, replicate,
}
use nano_ql.Base.Exec.{out_of_rounds, ok, err}
use nano_ql.Link.Memory.{is_settled, wait_loop, wait_idle}
use nano_ql.Link.Status.{locate, has_bits, status}
use nano_ql.Link.Transport.{Transport, TimeLaws, Link, nap}

module _ (t : Transport) (laws : TimeLaws t) where
  open laws use {sleep_later, transact_later, transact_quiet}

  status-later : (l : Link t) → t.monotonic l.env ≤ t.monotonic (status t l).1.env
  unfolding status
  status-later l = ground (arith, transact_later (0 ∷ replicate 16 0) l.env)

  status-quiet : (l : Link t) → (status t l).0 ≢ err out_of_rounds
  unfolding status locate
  status-quiet l = ground (arith, transact_quiet (0 ∷ replicate 16 0) l.env)

  wait_loop_ends :
      (n deadline : ℕ) (expect_hold : Bool) (l : Link t)
      → deadline ≤ t.monotonic l.env + 5 * n
      → (wait_loop t (suc n) deadline expect_hold l).0 ≢ err out_of_rounds
  unfolding wait_loop
  wait_loop_ends zero deadline expect_hold l h = ground arith
  wait_loop_ends (suc n) deadline expect_hold l h = ground (
    arith,
    status-later l,
    status-quiet l,
    sleep_later 5 (status t l).1.env,
    wait_loop_ends n deadline expect_hold (nap t 5 (status t l).1).1,
  )

  -- With a clock that runs, `wait_idle` comes to an answer within its 401 rounds.
  pub wait_idle_ends :
      (expect_hold : Bool) (l : Link t) → (wait_idle t expect_hold l).0 ≢ err out_of_rounds
  unfolding wait_idle
  wait_idle_ends expect_hold l =
      wait_loop_ends 400 (t.monotonic l.env + 2000) expect_hold l (omega arith)

is_settled_flags :
    (expect_hold : Bool) (value : ℕ)
    → is_settled expect_hold value ≡ true
    → has_bits value 0x04 ≡ false
    → (bit_and value 0x01 ≢ 0)
      × (bit_and value 0x02 ≡ 0)
      × (bit_and value 0x04 ≡ 0)
      × (not (bit_and value 0x08 == 0) ≡ expect_hold)
unfolding is_settled
is_settled_flags expect_hold value h clear =
    (λ e. ground arith, ground arith, ground arith, ground arith)

module _ (t : Transport) where
  wait_loop_cases :
      (n deadline : ℕ) (expect_hold : Bool) (l l' : Link t) (value : ℕ)
      → wait_loop t (suc n) deadline expect_hold l ≡ (ok value, l')
      → ((status t l ≡ (ok value, l'))
          × (is_settled expect_hold value ≡ true)
          × (has_bits value 0x04 ≡ false))
        ⊎ (wait_loop t n deadline expect_hold (nap t 5 (status t l).1).1 ≡ (ok value, l'))
  unfolding wait_loop
  wait_loop_cases n deadline expect_hold l l' value h = ground arith

  -- What status requests and naps leave as it is, `wait_idle` leaves as it is. When it returns, the
  -- last thing it did was to see this status.
  pub wait_loop-keeps :
      (Keeps : Link t → Type 0)
      → ((l : Link t) → Keeps l → Keeps (status t l).1)
      → ((l : Link t) → Keeps l → Keeps (nap t 5 l).1)
      → (n deadline : ℕ) (expect_hold : Bool) (l l' : Link t) (value : ℕ) → Keeps l
      → wait_loop t n deadline expect_hold l ≡ (ok value, l')
      → (before : Link t) × Keeps before
        × (status t before ≡ (ok value, l'))
        × (is_settled expect_hold value ≡ true)
        × (has_bits value 0x04 ≡ false)
  unfolding wait_loop
  wait_loop-keeps Keeps asked napped zero deadline expect_hold l l' value k h = cc
  wait_loop-keeps Keeps asked napped (suc n) deadline expect_hold l l' value k h =
      elim (wait_loop_cases n deadline expect_hold l l' value h) [
        | inl e ↦ (l, k, e.0, e.1, e.2)
        | inr e ↦
            wait_loop-keeps Keeps asked napped n deadline expect_hold (nap t 5 (status t l).1).1 l'
              value (napped (status t l).1 (asked l k)) e
      ]

  -- The same of `wait_idle`, with the flags of the status as numbers.
  pub wait_idle-keeps :
      (Keeps : Link t → Type 0)
      → ((l : Link t) → Keeps l → Keeps (status t l).1)
      → ((l : Link t) → Keeps l → Keeps (nap t 5 l).1)
      → (expect_hold : Bool) (l l' : Link t) (value : ℕ) → Keeps l
      → wait_idle t expect_hold l ≡ (ok value, l')
      → (before : Link t) × Keeps before
        × (status t before ≡ (ok value, l'))
        × (bit_and value 0x01 ≢ 0)
        × (bit_and value 0x02 ≡ 0)
        × (bit_and value 0x04 ≡ 0)
        × (not (bit_and value 0x08 == 0) ≡ expect_hold)
  unfolding wait_idle
  wait_idle-keeps Keeps asked napped expect_hold l l' value k h =
      let (before, kept, seen, settled, accepted) =
        wait_loop-keeps Keeps asked napped 401 (t.monotonic l.env + 2000) expect_hold l l' value k
          h in
      let (ready, idle, clear, held) = is_settled_flags expect_hold value settled accepted in
      (before, kept, seen, ready, idle, clear, held)

  -- A status that `wait_idle` returns is the last one that the board sent, and its bits say: ready
  -- (0x01), not busy (0x02), no error (0x04), and the CPU held or running as expected (0x08).
  pub wait_idle-settled :
      (expect_hold : Bool) (l l' : Link t) (value : ℕ)
      → wait_idle t expect_hold l ≡ (ok value, l')
      → (before : Link t) × (status t before ≡ (ok value, l'))
        × (bit_and value 0x01 ≢ 0)
        × (bit_and value 0x02 ≡ 0)
        × (bit_and value 0x04 ≡ 0)
        × (not (bit_and value 0x08 == 0) ≡ expect_hold)
  wait_idle-settled expect_hold l l' value h =
      let (before, kept, seen, ready, idle, clear, held) =
        wait_idle-keeps (λ l. Unit {0}) (λ l k. tt) (λ l k. tt) expect_hold l l' value tt h in
      (before, seen, ready, idle, clear, held)

  -- What status requests and naps leave alone, `wait_idle` leaves alone, however it ends.
  module _ {A : Type 0} (view : t.Env → A)
      (status_keeps : (e : t.Env) → view (t.transact (0 ∷ replicate 16 0) e).1 ≡ view e)
      (sleep_keeps : (ms : ℕ) (e : t.Env) → view (t.sleep ms e) ≡ view e) where
    status-leaves : (l : Link t) → view (status t l).1.env ≡ view l.env
    unfolding status
    status-leaves l = ground (arith, status_keeps l.env)

    wait_loop-leaves :
        (n deadline : ℕ) (expect_hold : Bool) (l : Link t)
        → view (wait_loop t n deadline expect_hold l).1.env ≡ view l.env
    unfolding wait_loop
    wait_loop-leaves zero deadline expect_hold l = refl
    wait_loop-leaves (suc n) deadline expect_hold l = ground (
      arith,
      status-leaves l,
      sleep_keeps 5 (status t l).1.env,
      wait_loop-leaves n deadline expect_hold (nap t 5 (status t l).1).1,
    )

    pub wait_idle-leaves :
        (expect_hold : Bool) (l : Link t) → view (wait_idle t expect_hold l).1.env ≡ view l.env
    unfolding wait_idle
    wait_idle-leaves expect_hold l = wait_loop-leaves 401 (t.monotonic l.env + 2000) expect_hold l
