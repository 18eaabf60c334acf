-- ===== src/Drive/Download.antt =====
-- tools/nanoql_link.py: `filesystem_get` and `filesystem_crc32`.
-- The temporary file of `filesystem_get` is the list of the bytes written to it so far; that the
-- local disk refuses a write is not modelled.
pub mod Laws
use nano_ql.Base.{
  ℕ, zero, suc, ◌+◌, ◌-◌, ◌%◌, ◌^◌, min, String, true, false, ◌||◌, List, [], ◌∷◌, ◌++◌, ltb, ◌==◌,
  not, if◌then◌else◌, length, Bytes, to_be, from_be,
}
use nano_ql.Base.Exec.{
  runtime_error, out_of_rounds, Result, ok, err, is_exception, Exec, pure, lift, ◌>>=◌, ◌>>◌,
  raise_if, try_except,
}
use nano_ql.Drive.Files.{
  cmd_fs_get_begin, cmd_fs_get_data, cmd_fs_get_end, filesystem_info, cancel_after,
}
use nano_ql.Drive.RemotePath.{remote_path_bytes}
use nano_ql.Link.Transport.{Transport, Link, send}
use nano_ql.Qlay.Sector.{checksum}

-- The tests of one data reply, with the two messages of the method; the result is its block.
unfoldable pub data_block : String → String → ℕ → Bytes → Result Bytes
data_block invalid oversize requested response = elim response [
  | [] ↦ err (runtime_error invalid)
  | count ∷ block ↦
      if not (count == length block)
      then err (runtime_error invalid)
      else if length block == 0 || ltb requested (length block)
      then err (runtime_error oversize)
      else ok block
]

unfoldable pub get_data_request : ℕ → ℕ → Bytes
get_data_request received requested =
    (cmd_fs_get_data ∷ []) ++ (to_be 4 received ++ (requested ∷ []))

-- `stream.write(block)`
abbrev pub append_block : Bytes → Bytes → Bytes
append_block block written = written ++ block

module _ (t : Transport) where
  -- `while received < size`, with what is done with a block; every round receives at least one
  -- byte, so `size` rounds are enough.
  module _ {A : Type 0} (invalid oversize : String) (step : Bytes → A → A) where
    unfoldable pub get_loop : ℕ → ℕ → ℕ → A → Exec (Link t) A
    get_loop zero size received acc l = (if ltb received size then err out_of_rounds else ok acc, l)
    get_loop (suc n) size received acc l = elim (ltb received size) [
      | false ↦ (ok acc, l)
      | true ↦
          let requested = min 240 (size - received) in
          let (r, l1) = send t (get_data_request received requested) l in
          elim r [
            | err e ↦ (err e, l1)
            | ok response ↦ elim (data_block invalid oversize requested response) [
              | err e ↦ (err e, l1)
              | ok block ↦ get_loop n size (received + length block) (step block acc) l1
            ]
          ]
    ]

  unfoldable pub download_loop : ℕ → ℕ → ℕ → Bytes → Exec (Link t) Bytes
  unfolding get_loop
  download_loop =
      get_loop "Invalid NanoQL Drive1 data block." "NanoQL Drive1 returned an invalid data length."
        append_block

  -- The body of `try` up to `os.replace`: the bytes of the temporary file.
  unfoldable pub receive_file : ℕ → Exec (Link t) Bytes
  unfolding download_loop
  receive_file size = do
    received ← download_loop size size 0 []
    send t (cmd_fs_get_end ∷ [])
    raise_if (not (length received == size))
        (runtime_error "Downloaded NanoQL Drive1 file has the wrong size.")
    pure received

  -- The content that the destination has afterwards.
  unfoldable pub filesystem_get : List ℕ → Exec (Link t) Bytes
  unfolding receive_file
  filesystem_get remote_path = do
    path ← lift (remote_path_bytes remote_path false)
    filesystem_info t
    response ← send t ((cmd_fs_get_begin ∷ []) ++ path)
    raise_if (not (length response == 4)) (runtime_error "Invalid NanoQL Drive1 download response.")
    try_except (receive_file (from_be response)) is_exception (cancel_after t)

  -- `zlib.crc32` is a parameter: the running checksum of a block after an earlier checksum.
  module _ (crc32 : Bytes → ℕ → ℕ) where
    unfoldable pub verify_loop : ℕ → ℕ → ℕ → ℕ → Exec (Link t) ℕ
    unfolding get_loop
    verify_loop =
        get_loop "Invalid NanoQL Drive1 verification data."
          "Invalid NanoQL Drive1 verification block." crc32

    -- The result is the size and the checksum of the remote file.
    unfoldable pub filesystem_crc32 : List ℕ → Exec (Link t) (ℕ × ℕ)
    unfolding verify_loop
    filesystem_crc32 remote_path = do
      path ← lift (remote_path_bytes remote_path false)
      response ← send t ((cmd_fs_get_begin ∷ []) ++ path)
      raise_if (not (length response == 4))
          (runtime_error "Invalid NanoQL Drive1 file verification response.")
      let size = from_be response
      checksum ←
          try_except
            (do checksum ← verify_loop size size 0 0; send t (cmd_fs_get_end ∷ []); pure checksum)
            is_exception (cancel_after t)
      pure (size, checksum % 2 ^ 32)
