-- ===== src/Drive/Upload/Laws.antt =====
-- An upload sends the file in order and whole, and puts the serial timeout back.
use mathlib.Core.List.{append-nil, append_assoc}
use nano_ql.Base.{
  ℕ, zero, suc, ◌+◌, ◌-◌, ◌*◌, ◌/◌, ◌^◌, ◌≤◌, max, ◌≡◌, sym, ap, ◌∙◌, true, false, Option, none,
  some, List, [], ◌∷◌, ◌++◌, arith, length, take, drop, length-append, length-drop,
  take-append-drop, Bytes,
}
use nano_ql.Base.Exec.{ok, Exec, try_finally, is_ok, ok_or}
use nano_ql.Drive.Files.{filesystem_info}
use nano_ql.Drive.RemotePath.{remote_path_bytes}
use nano_ql.Drive.Upload.{
  put_data_request, max_file_size, check_ack, put_blocks, file_crc32, put_body, filesystem_put,
}
use nano_ql.Link.Transport.{Transport, Link, on_env, send}

module _ (t : Transport) where
  -- What the upload relies on: the board appends a block at the end of the staged file.
  pub record StagedFile : Type 0 where
    pub staged : t.Env → Bytes
    pub appends :
        (sent : ℕ) (block : Bytes) (e : t.Env)
        → length (staged e) ≡ sent
        → is_ok (t.transact (put_data_request sent block) e).0 ≡ true
        → staged (t.transact (put_data_request sent block) e).1 ≡ staged e ++ block

  module _ (board : StagedFile) where
    open board use {staged, appends}

    put_cases :
        (n sent : ℕ) (verification : Option Bytes) (bytes : Bytes) (l : Link t)
        → is_ok (put_blocks t (suc n) sent verification bytes l).0 ≡ true
        → let block = take 240 bytes in
          let (r, l1) = send t (put_data_request sent block) l in
          let v = check_ack t (sent + length block) verification (ok_or [] r) in
          (is_ok r ≡ true)
          × (put_blocks t (suc n) sent verification bytes l
              ≡ put_blocks t n (sent + length block) (ok_or none v) (drop 240 bytes) l1)
    unfolding put_blocks
    put_cases n sent verification bytes l h = ground arith

    -- From an upload that stands at `sent` bytes, `put_blocks` that returns has staged all the
    -- bytes that it was given behind them.
    pub put_blocks-staged :
        (n sent : ℕ) (verification : Option Bytes) (bytes : Bytes) (l : Link t)
        → length bytes ≤ 240 * n
        → length (staged l.env) ≡ sent
        → is_ok (put_blocks t n sent verification bytes l).0 ≡ true
        → staged (put_blocks t n sent verification bytes l).1.env ≡ staged l.env ++ bytes
    unfolding put_blocks
    put_blocks-staged zero sent verification [] l fits at' h = sym (append-nil (staged l.env))
    put_blocks-staged zero sent verification (b ∷ bs) l fits at' h = absurd (omega arith)
    put_blocks-staged (suc n) sent verification bytes l fits at' h =
        let block = take 240 bytes in
        let (r, l1) = send t (put_data_request sent block) l in
        let v = check_ack t (sent + length block) verification (ok_or [] r) in
        let (sent_ok, same) = put_cases n sent verification bytes l h in
        let now_staged = appends sent block l.env at' sent_ok in
        let grown : length (staged l1.env) ≡ sent + length block =
          ap length now_staged ∙ omega (arith, length-append (staged l.env) block) in
        let rest =
          put_blocks-staged n (sent + length block) (ok_or none v) (drop 240 bytes) l1
            (omega (arith, length-drop 240 bytes)) grown (rw same at h) in
        rw same (
          rest
          ∙ (ap (λ x. x ++ drop 240 bytes) now_staged
              ∙ (append_assoc (staged l.env) block (drop 240 bytes)
                  ∙ ap (λ x. staged l.env ++ x) (take-append-drop 240 bytes))))

  -- What the timeout field of the serial object does.
  pub record TimeoutLaws : Type 0 where
    pub set_succeeds : (ms : ℕ) (e : t.Env) → (t.set_timeout ms e).0 ≡ ok tt
    pub set_holds : (ms : ℕ) (e : t.Env) → t.timeout (t.set_timeout ms e).1 ≡ ms

  finally-timeout :
      (laws : TimeoutLaws) (m : Exec (Link t) (Unit {0})) (ms : ℕ) (l : Link t)
      → t.timeout (try_finally m (on_env t (t.set_timeout ms)) l).1.env ≡ ms
  finally-timeout laws m ms l =
      ground (arith, laws.set_succeeds ms (m l).1.env, laws.set_holds ms (m l).1.env)

  -- Once the board has answered `filesystem_info`, `filesystem_put` leaves the serial timeout as it
  -- then was, however the upload ends.
  pub filesystem_put-timeout :
      (laws : TimeoutLaws) (crc32 : Bytes → ℕ → ℕ) (rounds : ℕ) (bytes : Bytes)
      (remote_path : List ℕ) (l : Link t)
      → is_ok (remote_path_bytes remote_path false) ≡ true
      → length bytes ≤ max_file_size
      → is_ok (filesystem_info t l).0 ≡ true
      → t.timeout (filesystem_put t crc32 rounds (some bytes) remote_path l).1.env
        ≡ t.timeout (filesystem_info t l).1.env
  unfolding filesystem_put
  filesystem_put-timeout laws crc32 rounds bytes remote_path l path fits info =
      let l1 = (filesystem_info t l).1 in
      let normal = t.timeout l1.env in
      let l2 = (on_env t (t.set_timeout (max normal 15000)) l1).1 in
      let checksum = file_crc32 t crc32 ((length bytes + (2 ^ 20 - 1)) / 2 ^ 20) bytes 0 in
      ground (
        arith,
        laws.set_succeeds (max normal 15000) l1.env,
        finally-timeout laws
            (put_body t crc32 rounds remote_path bytes checksum
              (ok_or [] (remote_path_bytes remote_path false)))
            normal l2,
      )
