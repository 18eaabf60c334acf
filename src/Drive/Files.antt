-- ===== src/Drive/Files.antt =====
-- tools/nanoql_link.py: `filesystem_info`, `filesystem_cancel`, `filesystem_list`,
-- `filesystem_mkdir`, `filesystem_delete`, and `is_link_response_error`.
use nano_ql.Base.{
  ℕ, zero, suc, ◌+◌, Bool, true, false, ◌||◌, some, List, [], ◌∷◌, ◌++◌, ltb, leb, ◌==◌, not,
  if◌then◌else◌, codes, length, get_or, take, drop, slice, any, bytes_eq, Bytes, from_be,
}
use nano_ql.Base.Exec.{
  Error, link_response, runtime_error, diagnosed, unicode_error, out_of_rounds, Result, ok, err,
  is_exception, Exec, pure, lift, bind_result, ◌>>=◌, ◌>>◌, skip, modify, raise_if, try_except,
}
use nano_ql.Drive.RemotePath.{remote_path_bytes}
use nano_ql.Link.Transport.{Transport, Link, send}

abbrev pub cmd_fs_info : ℕ
cmd_fs_info = 0xE0

abbrev pub cmd_fs_list_begin : ℕ
cmd_fs_list_begin = 0xE1

abbrev pub cmd_fs_list_next : ℕ
cmd_fs_list_next = 0xE2

abbrev pub cmd_fs_put_begin : ℕ
cmd_fs_put_begin = 0xE3

abbrev pub cmd_fs_put_data : ℕ
cmd_fs_put_data = 0xE4

abbrev pub cmd_fs_put_commit : ℕ
cmd_fs_put_commit = 0xE5

abbrev pub cmd_fs_get_begin : ℕ
cmd_fs_get_begin = 0xE6

abbrev pub cmd_fs_get_data : ℕ
cmd_fs_get_data = 0xE7

abbrev pub cmd_fs_get_end : ℕ
cmd_fs_get_end = 0xE8

abbrev pub cmd_fs_delete : ℕ
cmd_fs_delete = 0xE9

abbrev pub cmd_fs_mkdir : ℕ
cmd_fs_mkdir = 0xEA

abbrev pub cmd_fs_cancel : ℕ
cmd_fs_cancel = 0xEB

abbrev pub cmd_fs_mdv_control : ℕ
cmd_fs_mdv_control = 0xEC

-- The four messages of `transact` about the reply frame, also inside a longer message.
unfoldable pub is_link_response_error : Error → Bool
is_link_response_error (link_response fault) = true
is_link_response_error (diagnosed e detail) = is_link_response_error e
is_link_response_error _ = false

pub record Entry : Type 0 where
  pub name : Bytes
  pub size : ℕ
  pub is_directory : Bool

-- `response == b"\x00"`
abbrev is_end : Bytes → Bool
is_end response = bytes_eq response (0 ∷ [])

-- The tests of one directory reply.
unfoldable pub decode_entry : Bytes → Result Entry
decode_entry response =
    let kind = get_or response 0 0 in
    if ltb (length response) 6 || not (kind == 1 || kind == 2)
    then err (runtime_error "Invalid NanoQL Drive1 directory response.")
    else if not (length response == 6 + get_or response 5 0)
    then err (runtime_error "Truncated NanoQL Drive1 directory entry.")
    else if any (λ c. leb 128 c) (drop 6 response)
    then err unicode_error
    else ok (record {
      name = drop 6 response;
      size = from_be (slice 1 5 response);
      is_directory = kind == 2;
    })

module _ (t : Transport) where
  -- The result is the capabilities and the longest path. The build text is kept as its bytes.
  unfoldable pub filesystem_info : Exec (Link t) (ℕ × ℕ)
  filesystem_info = do
    response ← send t (cmd_fs_info ∷ [])
    raise_if
        (ltb (length response) 7
          || not (bytes_eq (take 4 response) (b'N' ∷ b'F' ∷ b'S' ∷ b'1' ∷ [])))
        (runtime_error "The installed BL616 firmware does not support NanoQL Drive1.")
    raise_if (not (get_or response 4 0 == 1)) (runtime_error "Unsupported NanoQL Drive1 protocol.")
    modify (λ l. record l {
      drive_firmware_build =
          some (if ltb 7 (length response) then drop 7 response else codes "legacy");
    })
    pure (get_or response 5 0, get_or response 6 0)

  unfoldable pub filesystem_cancel : Exec (Link t) (Unit {0})
  filesystem_cancel = do send t (cmd_fs_cancel ∷ []); skip

  -- `except Exception`: cancel, drop what cancelling raises, and raise again.
  unfoldable pub cancel_after : {A : Type 0} → Error → Exec (Link t) A
  unfolding filesystem_cancel
  cancel_after e l = (err e, (filesystem_cancel l).1)

  -- `while True`, in at most this many rounds: the board decides how long a directory is.
  pub list_loop : ℕ → Exec (Link t) (List Entry)
  list_loop zero l = (err out_of_rounds, l)
  list_loop (suc n) l = elim (send t (cmd_fs_list_next ∷ []) l).0 [
    | err e ↦ (err e, (send t (cmd_fs_list_next ∷ []) l).1)
    | ok response ↦ elim (is_end response) [
      | true ↦ (ok [], (send t (cmd_fs_list_next ∷ []) l).1)
      | false ↦ elim (decode_entry response) [
        | err e ↦ (err e, (send t (cmd_fs_list_next ∷ []) l).1)
        | ok entry ↦
            bind_result (list_loop n (send t (cmd_fs_list_next ∷ []) l).1)
              (λ rest l'. (ok (entry ∷ rest), l'))
      ]
    ]
  ]

  unfoldable pub filesystem_list : ℕ → List ℕ → Exec (Link t) (List Entry)
  unfolding list_loop
  filesystem_list rounds remote_path = do
    path ← lift (remote_path_bytes remote_path true)
    filesystem_info
    send t ((cmd_fs_list_begin ∷ []) ++ path)
    try_except (list_loop rounds) is_exception cancel_after

  unfoldable pub filesystem_mkdir : List ℕ → Exec (Link t) (Unit {0})
  filesystem_mkdir remote_path = do
    path ← lift (remote_path_bytes remote_path false)
    filesystem_info
    send t ((cmd_fs_mkdir ∷ []) ++ path)
    skip

  unfoldable pub filesystem_delete : List ℕ → Exec (Link t) (Unit {0})
  filesystem_delete remote_path = do
    path ← lift (remote_path_bytes remote_path false)
    filesystem_info
    send t ((cmd_fs_delete ∷ []) ++ path)
    skip
