-- ===== src/Drive/Upload.antt =====
-- tools/nanoql_link.py: `filesystem_put`.
-- The source file is its content, or `none` where the path is no file.
pub mod Laws
use nano_ql.Base.{
  ℕ, zero, suc, ◌+◌, ◌-◌, ◌/◌, ◌%◌, ◌^◌, max, Bool, true, false, ◌&&◌, ◌||◌, Option, none, some,
  List, [], ◌∷◌, ◌++◌, ltb, leb, ◌==◌, not, if◌then◌else◌, length, get_or, take, drop, slice, Bytes,
  to_be, from_be,
}
use nano_ql.Base.Exec.{
  Error, runtime_error, value_error, timeout_error, file_not_found, out_of_rounds, Result, ok, err,
  is_runtime_error, is_exception, Exec, pure, raise, gets, lift, ◌>>=◌, ◌>>◌, raise_if, try_except,
  try_finally,
}
use nano_ql.Drive.Download.{filesystem_crc32}
use nano_ql.Drive.Files.{
  cmd_fs_put_begin, cmd_fs_put_data, cmd_fs_put_commit, is_link_response_error, filesystem_info,
  cancel_after,
}
use nano_ql.Drive.RemotePath.{remote_path_bytes}
use nano_ql.Link.Transport.{Transport, Link, on_env, send, nap, now}
use nano_ql.Qlay.Sector.{checksum}

unfoldable pub put_data_request : ℕ → Bytes → Bytes
put_data_request sent block = (cmd_fs_put_data ∷ []) ++ (to_be 4 sent ++ block)

-- The blocks of 240 bytes that `stream.read(240)` returns before the empty one.
abbrev pub put_rounds : ℕ → ℕ
put_rounds size = (size + 239) / 240

-- The largest size of a file, and the deadline of a phase in milliseconds.
abbrev pub max_file_size : ℕ
max_file_size = 2 ^ 32 - 1

abbrev pub commit_stall_timeout : ℕ
commit_stall_timeout = 120000

-- `len(response) == 2 and response[0] == 0xFE`
unfoldable pub is_progress : Bytes → Bool
is_progress response = length response == 2 && get_or response 0 0 == 0xFE

-- `phase != previous_phase`
abbrev pub is_phase : Option ℕ → ℕ → Bool
is_phase none phase = false
is_phase (some previous) phase = previous == phase

module _ (t : Transport) where
  -- The tests of one data acknowledgement; the result is `inline_verification`.
  unfoldable pub check_ack : ℕ → Option Bytes → Bytes → Result (Option Bytes)
  check_ack sent' verification response =
      if not (length response == 4 || length response == 12)
      then err (runtime_error "NanoQL Drive1 returned an invalid data acknowledgement.")
      else if not (from_be (take 4 response) == sent')
      then err (runtime_error "NanoQL Drive1 acknowledged an invalid offset.")
      else ok (if length response == 12 then some (drop 4 response) else verification)

  unfoldable pub put_blocks : ℕ → ℕ → Option Bytes → Bytes → Exec (Link t) (Option Bytes)
  put_blocks zero sent verification bytes = pure verification
  put_blocks (suc n) sent verification bytes = do
    let block = take 240 bytes
    response ← send t (put_data_request sent block)
    verification' ← lift (check_ack (sent + length block) verification response)
    put_blocks n (sent + length block) verification' (drop 240 bytes)

  -- The wait for the microSD. A phase that changes starts its two minutes again, so that the board
  -- decides how many rounds there are.
  pub commit_loop : ℕ → ℕ → Option ℕ → Bytes → Exec (Link t) Bytes
  commit_loop zero deadline previous response l =
      (if is_progress response then err out_of_rounds else ok response, l)
  commit_loop (suc n) deadline previous response l = elim (is_progress response) [
    | false ↦ (ok response, l)
    | true ↦
        let phase = get_or response 1 0 in
        let repeated = is_phase previous phase in
        let deadline' = if repeated then deadline else t.monotonic l.env + commit_stall_timeout in
        let (r, l1) = send t (cmd_fs_put_commit ∷ []) l in
        elim (repeated && leb deadline (t.monotonic l.env)) [
          | true ↦ (
            err (timeout_error "The microSD did not complete the file update within 120 seconds."),
            l,
          )
          | false ↦ elim r [
            | err e ↦ (err e, l1)
            | ok response' ↦ commit_loop n deadline' (some phase) response' l1
          ]
        ]
  ]

  -- `remote_size != size or remote_crc != checksum` of the eight bytes at the end.
  unfoldable pub check_verification : ℕ → ℕ → Bytes → Result (Unit {0})
  check_verification size checksum response =
      if not (length response == 8)
      then err (runtime_error "Invalid NanoQL Drive1 upload verification response.")
      else if not (from_be (take 4 response) == size)
          || not (from_be (slice 4 8 response) == checksum)
      then err (runtime_error "NanoQL Drive1 returned a different size or CRC32.")
      else ok tt

  module _ (crc32 : Bytes → ℕ → ℕ) where
    -- `file_crc32`: the file in blocks of 1 MiB.
    pub file_crc32 : ℕ → Bytes → ℕ → ℕ
    file_crc32 zero bytes checksum = checksum % 2 ^ 32
    file_crc32 (suc n) bytes checksum =
        file_crc32 n (drop (2 ^ 20) bytes) (crc32 (take (2 ^ 20) bytes) checksum)

    -- The second COMMIT failed too: the installed file decides.
    pub check_installed : List ℕ → ℕ → ℕ → Error → Exec (Link t) Bytes
    check_installed remote_path size checksum first_error = do
      (remote_size, remote_crc) ← filesystem_crc32 t crc32 remote_path
      raise_if (not (remote_size == size) || not (remote_crc == checksum)) first_error
      pure (to_be 4 remote_size ++ to_be 4 remote_crc)

    pub recommit : List ℕ → ℕ → ℕ → Error → Exec (Link t) Bytes
    unfolding check_installed
    recommit remote_path size checksum first_error = do
      raise_if (not (is_link_response_error first_error)) first_error
      nap t 250
      try_except (send t (cmd_fs_put_commit ∷ [])) is_runtime_error
          (λ _. check_installed remote_path size checksum first_error)

    pub commit : List ℕ → ℕ → ℕ → Option Bytes → Exec (Link t) Bytes
    unfolding recommit
    commit remote_path size checksum (some verification) = pure verification
    commit remote_path size checksum none =
        try_except (send t (cmd_fs_put_commit ∷ [])) is_runtime_error
          (recommit remote_path size checksum)

    -- The body of the inner `try`.
    pub send_file : ℕ → List ℕ → Bytes → ℕ → Exec (Link t) (Unit {0})
    unfolding put_blocks commit commit_loop check_verification
    send_file rounds remote_path bytes checksum = do
      verification ← put_blocks (put_rounds (length bytes)) 0 none bytes
      timeout ← gets (λ l. t.timeout l.env)
      on_env t (t.set_timeout (max timeout 30000))
      response ← commit remote_path (length bytes) checksum verification
      started ← now t
      final ← commit_loop rounds (started + commit_stall_timeout) none response
      lift (check_verification (length bytes) checksum final)

    unfoldable pub put_begin_request : Bytes → ℕ → Bytes → Bytes
    put_begin_request bytes checksum path =
        (cmd_fs_put_begin ∷ []) ++ (to_be 4 (length bytes) ++ (to_be 4 checksum ++ path))

    -- The body of the outer `try`.
    pub put_body : ℕ → List ℕ → Bytes → ℕ → Bytes → Exec (Link t) (Unit {0})
    unfolding send_file put_begin_request
    put_body rounds remote_path bytes checksum path = do
      send t (put_begin_request bytes checksum path)
      try_except (send_file rounds remote_path bytes checksum) is_exception (cancel_after t)

    -- `rounds` bounds the replies of the wait for the microSD.
    unfoldable pub filesystem_put : ℕ → Option Bytes → List ℕ → Exec (Link t) (Unit {0})
    filesystem_put rounds none remote_path = raise file_not_found
    filesystem_put rounds (some bytes) remote_path = do
      path ← lift (remote_path_bytes remote_path false)
      raise_if (ltb max_file_size (length bytes))
          (value_error "NanoQL Drive1 currently supports files up to 4 GiB.")
      let checksum = file_crc32 ((length bytes + (2 ^ 20 - 1)) / 2 ^ 20) bytes 0
      filesystem_info t
      normal_timeout ← gets (λ l. t.timeout l.env)
      on_env t (t.set_timeout (max normal_timeout 15000))
      try_finally (put_body rounds remote_path bytes checksum path)
          (on_env t (t.set_timeout normal_timeout))
