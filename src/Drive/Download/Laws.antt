-- ===== src/Drive/Download/Laws.antt =====
-- A download ends, has the announced size, and is the remote file.
use nano_ql.Base.{
  ℕ, zero, suc, ◌+◌, ◌-◌, ◌^◌, ◌≤◌, ◌<◌, min, String, ◌≡◌, ◌≢◌, true, [], arith, length, take, drop,
  take_all, take-add, Bytes,
}
use nano_ql.Base.Exec.{out_of_rounds, ok, err, is_ok, ok_or}
use nano_ql.Drive.Download.{
  data_block, get_data_request, append_block, get_loop, download_loop, receive_file,
}
use nano_ql.Link.Transport.{Transport, Link, send}

data_block_bounds :
    (invalid oversize : String) (requested : ℕ) (r : Bytes)
    → is_ok (data_block invalid oversize requested r) ≡ true
    → let block = ok_or [] (data_block invalid oversize requested r) in
      (0 < length block) × (length block ≤ requested)
unfolding data_block
data_block_bounds invalid oversize requested r h = ground arith

data_block_quiet :
    (invalid oversize : String) (requested : ℕ) (r : Bytes)
    → data_block invalid oversize requested r ≢ err out_of_rounds
unfolding data_block
data_block_quiet invalid oversize requested r = ground arith

module _ (t : Transport) where
  module _ {A : Type 0} (invalid oversize : String) (step : Bytes → A → A) where
    get_loop_ends :
        (quiet : (b : Bytes) (e : t.Env) → (t.transact b e).0 ≢ err out_of_rounds)
        (n size received : ℕ) (acc : A) (l : Link t)
        → size ≤ received + n
        → (get_loop t invalid oversize step n size received acc l).0 ≢ err out_of_rounds
    unfolding get_loop
    get_loop_ends quiet zero size received acc l h = ground arith
    get_loop_ends quiet (suc n) size received acc l h =
        let requested = min 240 (size - received) in
        let (r, l1) = send t (get_data_request received requested) l in
        let b = data_block invalid oversize requested (ok_or [] r) in
        ground (
          arith,
          quiet (get_data_request received requested) l.env,
          data_block_bounds invalid oversize requested (ok_or [] r),
          data_block_quiet invalid oversize requested (ok_or [] r),
          get_loop_ends quiet n size (received + length (ok_or [] b)) (step (ok_or [] b) acc) l1,
        )

  -- What the download relies on: the board serves pieces of one open file.
  pub record ServedFile : Type 0 where
    pub file : t.Env → Bytes
    pub serves :
        (received requested : ℕ) (e : t.Env) (invalid oversize : String)
        → received < 2 ^ 32
        → let r = (t.transact (get_data_request received requested) e).0 in
          let block = data_block invalid oversize requested (ok_or [] r) in
          is_ok r ≡ true
          → is_ok block ≡ true
          → ok_or [] block ≡ take (length (ok_or [] block)) (drop received (file e))
    pub keeps :
        (received requested : ℕ) (e : t.Env)
        → file (t.transact (get_data_request received requested) e).1 ≡ file e

  -- `download_loop` ends within as many rounds as there are bytes to come.
  pub download_loop_ends :
      (quiet : (b : Bytes) (e : t.Env) → (t.transact b e).0 ≢ err out_of_rounds) (size : ℕ)
      (written : Bytes) (l : Link t)
      → (download_loop t size size 0 written l).0 ≢ err out_of_rounds
  unfolding download_loop
  download_loop_ends quiet size written l =
      get_loop_ends "Invalid NanoQL Drive1 data block."
        "NanoQL Drive1 returned an invalid data length." append_block quiet size size 0 written l
        (omega arith)

  module _ (served : ServedFile) where
    open served use {file, serves, keeps}

    get_loop-file :
        (invalid oversize : String) (n size received : ℕ) (l : Link t)
        → length (file l.env) ≡ size
        → size < 2 ^ 32
        → received ≤ size
        → is_ok
            (get_loop t invalid oversize append_block n size received
              (take received (file l.env))
              l).0
          ≡ true
        → (get_loop t invalid oversize append_block n size received
            (take received (file l.env))
            l).0
          ≡ ok (file l.env)
    unfolding get_loop
    get_loop-file invalid oversize zero size received l whole small low h =
        ground (arith, take_all received (file l.env))
    get_loop-file invalid oversize (suc n) size received l whole small low h =
        let requested = min 240 (size - received) in
        let (r, l1) = send t (get_data_request received requested) l in
        let b = ok_or [] (data_block invalid oversize requested (ok_or [] r)) in
        ground (
          arith,
          take_all received (file l.env),
          serves received requested l.env invalid oversize,
          keeps received requested l.env,
          data_block_bounds invalid oversize requested (ok_or [] r),
          take-add received (length b) (file l.env),
          get_loop-file invalid oversize n size (received + length b) l1,
        )

    -- If the remote file has the announced size, which is below 4 GiB, what `receive_file` returns
    -- is the remote file, byte for byte.
    pub receive_file-file :
        (size : ℕ) (l : Link t)
        → length (file l.env) ≡ size
        → size < 2 ^ 32
        → is_ok (receive_file t size l).0 ≡ true
        → (receive_file t size l).0 ≡ ok (file l.env)
    unfolding receive_file
    receive_file-file size l whole small h = ground (
      arith,
      get_loop-file "Invalid NanoQL Drive1 data block."
          "NanoQL Drive1 returned an invalid data length." size size 0 l whole small (omega arith),
    )
