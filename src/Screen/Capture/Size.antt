-- ===== src/Screen/Capture/Size.antt =====
-- `screenshot`: the size of the frame.
use mathlib.Core.Path.{subst}
use nano_ql.Base.{
  ℕ, zero, suc, ◌+◌, ◌-◌, ◌*◌, ◌≤◌, ◌≡◌, refl, Bool, true, false, [], ◌∷◌, ◌++◌, arith, ltb, leb,
  ◌==◌, not, length, drop, length-append, length-drop, Bytes,
}
use nano_ql.Base.Exec.{
  Error, runtime_error, timeout_error, Result, ok, err, Exec, bind_result, raise_if, end_finally,
  ok-injective,
}
use nano_ql.Link.Memory.{read_request, read_result_request, wait_idle}
use nano_ql.Link.Status.{has_bits, status, screenshot_info}
use nano_ql.Link.Transport.{Transport, Link, send}
use nano_ql.Screen.Capture.{
  cmd_screen_start, cmd_screen_end, ready_loop, capture_blocks, capture, release_screen, screenshot,
}

-- What a block gives if it returns.
pub record Gives {A S : Type 0} (P : A → Type 0) (p : Result A × S) : Type 0 where
  pub holds : (a : A) → p.0 ≡ ok a → P a

Gives-raised : {A S : Type 0} (P : A → Type 0) (e : Error) (s : S) → Gives {S = S} P (err e, s)
Gives-raised P e s = record { holds = λ a h. cc h }

given : {A S : Type 0} (P : A → Type 0) (a : A) (s : S) → P a → Gives {S = S} P (ok a, s)
given P a s h = record { holds = λ b e. subst P (ok-injective e) h }

module _ {S A B : Type 0} (P : B → Type 0) where
  bind-Gives :
      (Q : A → Type 0) (p : Result A × S) (f : A → Exec S B)
      → Gives Q p
      → ((a : A) (s : S) → Q a → Gives P (f a s))
      → Gives P (bind_result p f)
  bind-Gives Q (ok a, s) f q h = h a s (q.holds a refl)
  bind-Gives Q (err e, s) f q h = Gives-raised P e s

  bind_any :
      (p : Result A × S) (f : A → Exec S B)
      → ((a : A) (s : S) → Gives P (f a s))
      → Gives P (bind_result p f)
  bind_any (ok a, s) f h = h a s
  bind_any (err e, s) f h = Gives-raised P e s

module _ {S B : Type 0} (P : B → Type 0) where
  raise-Gives :
      (b : Bool) (e : Error) (s : S) (f : Unit {0} → Exec S B)
      → (b ≡ false → Gives P (f tt s))
      → Gives P (bind_result (raise_if b e s) f)
  raise-Gives true e s f h = Gives-raised P e s
  raise-Gives false e s f h = h refl

  finally-Gives :
      (p : Result B × S) (after : S → Result (Unit {0}) × S)
      → Gives P p
      → Gives P (end_finally p.0 (after p.1))
  finally-Gives p after g = ended (after p.1)
    where
      ended : (q : Result (Unit {0}) × S) → Gives P (end_finally p.0 q)
      ended (ok u, s') = record { holds = g.holds }
      ended (err e, s') = Gives-raised P e s'

module _ (t : Transport) where
  capture_blocks_size :
      (n : ℕ) (held : Bool) (deadline reconnects address : ℕ) (l : Link t)
      → Gives
          (λ (bs : Bytes). length bs ≡ 8 * n)
          (capture_blocks t n held deadline reconnects address l)
  unfolding capture_blocks
  capture_blocks_size zero held deadline reconnects address l = given _ [] l refl
  capture_blocks_size (suc n) held deadline reconnects address l =
      let P = λ (bs : Bytes). length bs ≡ 8 * suc n in
      raise-Gives P (leb deadline (t.monotonic l.env))
        (timeout_error "Screenshot transfer exceeded 120 seconds.") l _
        λ _. bind_any P (send t (read_request address 8) l) _ λ _ l1.
          bind_any P (wait_idle t held l1) _ λ _ l2.
            bind_any P (send t read_result_request l2) _ λ response l3.
              raise-Gives P (ltb (length response) 8)
                (runtime_error "Incomplete screenshot read response.") l3 _
                λ long.
                  raise-Gives P (not (t.reconnect_count l3.env == reconnects))
                    (runtime_error "USB reconnected during capture; please take a new screenshot.")
                    l3 _
                    λ _.
                      bind-Gives P (λ (bs : Bytes). length bs ≡ 8 * n)
                        (capture_blocks t n held deadline reconnects (address + 8) l3) _
                        (capture_blocks_size n held deadline reconnects (address + 8) l3)
                        λ rest l4 size. given P _ l4 (joined_size response rest (ground arith) size)
    where
      joined_size :
          (response rest : Bytes)
          → 8 ≤ length response
          → length rest ≡ 8 * n
          → length (drop (length response - 8) response ++ rest) ≡ 8 * suc n
      joined_size response rest long size = omega (
        arith,
        length-append (drop (length response - 8) response) rest,
        length-drop (length response - 8) response,
      )

  pub screenshot_size_lem :
      (l : Link t) → Gives (λ (frame : Bytes × ℕ). length frame.0 ≡ 32768) (screenshot t l)
  unfolding screenshot capture
  screenshot_size_lem l =
      let P = λ (frame : Bytes × ℕ). length frame.0 ≡ 32768 in
      bind_any P (screenshot_info t l) _ λ _ l1.
        bind_any P (send t (cmd_screen_end ∷ []) l1) _ λ _ l2.
          bind_any P (send t (cmd_screen_start ∷ []) l2) _ λ _ l3.
            finally-Gives P (capture t l3) (release_screen t) (
              bind_any P (ready_loop t 501 (t.monotonic l3.env + 5000) l3) _ λ flags l4.
                bind_any P (status t l4) _ λ value l5.
                  let deadline = t.monotonic l5.env + 120000 in
                  let reconnects = t.reconnect_count l5.env in
                  let held = has_bits value 0x08 in
                  bind-Gives P (λ (bs : Bytes). length bs ≡ 8 * 4096)
                    (capture_blocks t 4096 held deadline reconnects 0x7D8000 l5) _
                    (capture_blocks_size 4096 held deadline reconnects 0x7D8000 l5)
                    λ frame l6 size. bind_any P (screenshot_info t l6) _ λ info l7.
                      raise-Gives P (not info.0)
                        (runtime_error
                          "The screenshot was invalidated during transfer; please retry.")
                        l7 _ λ _. given P _ l7 size)
