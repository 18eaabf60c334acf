-- ===== src/Screen/Capture/Quiet.antt =====
-- `screenshot`: what its requests leave alone.
use nano_ql.Base.{
  ℕ, zero, suc, ◌+◌, ◌≡◌, refl, ◌∙◌, Bool, true, false, ◌&&◌, [], ◌∷◌, arith, ltb, leb, ◌==◌, not,
  length, replicate, Bytes,
}
use nano_ql.Base.Exec.{
  Error, runtime_error, timeout_error, Result, ok, err, is_runtime_error, is_os_error, Exec,
  bind_result, raise_if, end_finally, is_ok, ok_or,
}
use nano_ql.Link.Memory.{read_request, read_result_request, wait_idle}
use nano_ql.Link.Memory.Waiting.{wait_idle-leaves}
use nano_ql.Link.Status.{has_bits, status, screenshot_info}
use nano_ql.Link.Transport.{Transport, Link, send, nap}
use nano_ql.Screen.Capture.{
  cmd_screen_start, cmd_screen_end, ready_loop, capture_blocks, capture, release_screen, screenshot,
}
use nano_ql.Screen.Capture.Size.{screenshot_size_lem}

-- What the requests of a screenshot leave alone, such as the memory and the registers of the QL.
pub record ScreenLaws (t : Transport) {A : Type 0} (view : t.Env → A) : Type 0 where
  pub status_keeps : (e : t.Env) → view (t.transact (0 ∷ replicate 16 0) e).1 ≡ view e
  pub info_keeps : (e : t.Env) → view (t.transact (0x12 ∷ replicate 8 0) e).1 ≡ view e
  pub start_keeps : (e : t.Env) → view (t.transact (0x11 ∷ []) e).1 ≡ view e
  pub end_keeps : (e : t.Env) → view (t.transact (0x13 ∷ []) e).1 ≡ view e
  pub read_keeps : (a : ℕ) (e : t.Env) → view (t.transact (read_request a 8) e).1 ≡ view e
  pub result_keeps : (e : t.Env) → view (t.transact read_result_request e).1 ≡ view e
  pub sleep_keeps : (ms : ℕ) (e : t.Env) → view (t.sleep ms e) ≡ view e

module _ (t : Transport) {A : Type 0} (view : t.Env → A) (laws : ScreenLaws t view) where
  record Keeps {B : Type 0} (v : A) (p : Result B × Link t) : Type 0 where
    kept : view p.1.env ≡ v

  bind-Keeps :
      {B C : Type 0} (v : A) (p : Result B × Link t) (f : B → Exec (Link t) C)
      → view p.1.env ≡ v
      → ((b : B) (l : Link t) → view l.env ≡ v → Keeps v (f b l))
      → Keeps v (bind_result p f)
  bind-Keeps v (ok b, l) f g h = h b l g
  bind-Keeps v (err e, l) f g h = record { kept = g }

  raise-Keeps :
      {C : Type 0} (v : A) (b : Bool) (e : Error) (l : Link t) (f : Unit {0} → Exec (Link t) C)
      → view l.env ≡ v
      → Keeps v (f tt l)
      → Keeps v (bind_result (raise_if b e l) f)
  raise-Keeps v true e l f g h = record { kept = g }
  raise-Keeps v false e l f g h = h

  info-keeps : (l : Link t) → view (screenshot_info t l).1.env ≡ view l.env
  unfolding screenshot_info
  info-keeps l = ground (arith, laws.info_keeps l.env)

  status-keeps' : (l : Link t) → view (status t l).1.env ≡ view l.env
  unfolding status
  status-keeps' l = ground (arith, laws.status_keeps l.env)

  ready_loop-keeps :
      (n deadline : ℕ) (l : Link t) → view (ready_loop t n deadline l).1.env ≡ view l.env
  unfolding ready_loop
  ready_loop-keeps zero deadline l = refl
  ready_loop-keeps (suc n) deadline l = ground (
    arith,
    info-keeps l,
    laws.sleep_keeps 10 (screenshot_info t l).1.env,
    ready_loop-keeps n deadline (nap t 10 (screenshot_info t l).1).1,
  )

  capture_blocks-Keeps :
      (n : ℕ) (held : Bool) (deadline reconnects address : ℕ) (l : Link t) (v : A)
      → view l.env ≡ v
      → Keeps v (capture_blocks t n held deadline reconnects address l)
  unfolding capture_blocks
  capture_blocks-Keeps zero held deadline reconnects address l v g = record { kept = g }
  capture_blocks-Keeps (suc n) held deadline reconnects address l v g =
      raise-Keeps v (leb deadline (t.monotonic l.env))
        (timeout_error "Screenshot transfer exceeded 120 seconds.") l _ g
        (bind-Keeps v (send t (read_request address 8) l) _ (laws.read_keeps address l.env ∙ g)
          λ _ l1 g1.
            bind-Keeps v (wait_idle t held l1) _
              (wait_idle-leaves t view laws.status_keeps laws.sleep_keeps held l1 ∙ g1)
              λ _ l2 g2.
                bind-Keeps v (send t read_result_request l2) _ (laws.result_keeps l2.env ∙ g2)
                  λ response l3 g3.
                    raise-Keeps v (ltb (length response) 8)
                      (runtime_error "Incomplete screenshot read response.") l3 _ g3
                      (raise-Keeps v (not (t.reconnect_count l3.env == reconnects))
                        (runtime_error
                          "USB reconnected during capture; please take a new screenshot.")
                        l3 _ g3
                        (bind-Keeps v (capture_blocks t n held deadline reconnects (address + 8) l3)
                          _
                          (capture_blocks-Keeps n held deadline reconnects (address + 8) l3 v
                            g3).kept
                          λ rest l4 g4. record { kept = g4 })))

  capture-Keeps : (l : Link t) (v : A) → view l.env ≡ v → Keeps v (capture t l)
  unfolding capture
  capture-Keeps l v g =
      bind-Keeps v (ready_loop t 501 (t.monotonic l.env + 5000) l) _
        (ready_loop-keeps 501 (t.monotonic l.env + 5000) l ∙ g)
        λ flags l1 g1. bind-Keeps v (status t l1) _ (status-keeps' l1 ∙ g1) λ value l2 g2.
          let deadline = t.monotonic l2.env + 120000 in
          let reconnects = t.reconnect_count l2.env in
          let held = has_bits value 0x08 in
          bind-Keeps v (capture_blocks t 4096 held deadline reconnects 0x7D8000 l2) _
            (capture_blocks-Keeps 4096 held deadline reconnects 0x7D8000 l2 v g2).kept
            λ frame l3 g3. bind-Keeps v (screenshot_info t l3) _ (info-keeps l3 ∙ g3) λ info l4 g4.
              raise-Keeps v (not info.0)
                (runtime_error "The screenshot was invalidated during transfer; please retry.") l4 _
                g4 (record { kept = g4 })

  release_screen-keeps : (l : Link t) → view (release_screen t l).1.env ≡ view l.env
  unfolding release_screen is_runtime_error is_os_error
  release_screen-keeps l = ground (arith, laws.end_keeps l.env)

  finally-Keeps :
      {C : Type 0} (v : A) (p : Result C × Link t)
      → view p.1.env ≡ v
      → Keeps v (end_finally p.0 (release_screen t p.1))
  finally-Keeps v p g = ended (release_screen t p.1) (release_screen-keeps p.1 ∙ g)
    where
      ended : (q : Result (Unit {0}) × Link t) → view q.1.env ≡ v → Keeps v (end_finally p.0 q)
      ended (ok u, l) h = record { kept = h }
      ended (err e, l) h = record { kept = h }

  screenshot-Keeps : (l : Link t) → Keeps (view l.env) (screenshot t l)
  unfolding screenshot
  screenshot-Keeps l =
      let v = view l.env in
      bind-Keeps v (screenshot_info t l) _ (info-keeps l) λ _ l1 g1.
        bind-Keeps v (send t (cmd_screen_end ∷ []) l1) _ (laws.end_keeps l1.env ∙ g1) λ _ l2 g2.
          bind-Keeps v (send t (cmd_screen_start ∷ []) l2) _ (laws.start_keeps l2.env ∙ g2)
            λ _ l3 g3. finally-Keeps v (capture t l3) (capture-Keeps l3 v g3).kept

  -- However `screenshot` ends, whatever the requests for the status, for the screen and for reading
  -- leave alone is as it was; and a frame that it returns has the 32768 bytes of a screen.
  pub screenshot_quiet :
      (l : Link t)
      → let r = (screenshot t l).0 in
        (view (screenshot t l).1.env ≡ view l.env)
        × ((is_ok r && not (length (ok_or ([], 0) r).0 == 32768)) ≡ false)
  screenshot_quiet l =
      ((screenshot-Keeps l).kept, whole (screenshot t l).0 (screenshot_size_lem t l).holds)
    where
      whole :
          (r : Result (Bytes × ℕ))
          → ((frame : Bytes × ℕ) → r ≡ ok frame → length frame.0 ≡ 32768)
          → (is_ok r && not (length (ok_or ([], 0) r).0 == 32768)) ≡ false
      whole (err e) h = refl
      whole (ok frame) h = rw (h frame refl) refl
