-- ===== src/Drive/Microdrive.antt =====
-- tools/nanoql_link.py: `microdrive_sync_control`, `synchronize_microdrive` and
-- `upload_microdrive_image`. Building the image is Qlay's; here the image is an argument.
use nano_ql.Base.{
  ℕ, bit_and, String, Bool, true, false, ◌&&◌, ◌||◌, Option, none, some, List, [], ◌∷◌, ◌++◌, ◌==◌,
  not, if◌then◌else◌, codes, is_empty, bytes_eq, Bytes,
}
use nano_ql.Base.Exec.{
  Error, rejected, runtime_error, value_error, file_not_found, err, is_runtime_error, is_exception,
  Exec, pure, raise, gets, ◌>>=◌, ◌>>◌, skip, modify, raise_if, when, try_except, try_finally,
}
use nano_ql.Drive.Files.{cmd_fs_mdv_control, filesystem_info, filesystem_mkdir}
use nano_ql.Drive.Upload.{filesystem_put}
use nano_ql.Link.Memory.{qdos}
use nano_ql.Link.Session.{is_fatfs_code}
use nano_ql.Link.Status.{has_bits}
use nano_ql.Link.Transport.{Transport, Link, with_env, on_env, send, nap}

abbrev mdv_request : ℕ → Bytes
mdv_request action = cmd_fs_mdv_control ∷ action ∷ []

-- `firmware_build in (…)`
unfoldable pub is_build : List String → Bytes → Bool
is_build [] build = false
is_build (name ∷ names) build = bytes_eq (codes name) build || is_build names build

-- The mount protocol that a firmware build speaks.
pub data MountProtocol : Type 0 where
  -- MDV7, MDV8, MDV9, MD10; whether the port is abandoned on close
  two_steps : Bool → MountProtocol
  -- MDV5, MDV6
  five_steps : MountProtocol
  legacy : MountProtocol

unfoldable pub mount_protocol : Bytes → MountProtocol
unfolding is_build
mount_protocol build =
    if is_build ("MDV7" ∷ "MDV8" ∷ "MDV9" ∷ "MD10" ∷ []) build
    then two_steps (not (is_build ("MDV9" ∷ "MD10" ∷ []) build))
    else if is_build ("MDV5" ∷ "MDV6" ∷ []) build
    then five_steps
    else legacy

module _ (t : Transport) where
  -- The body of `try` for a mount.
  pub mount_steps : MountProtocol → Exec (Link t) (Unit {0})
  mount_steps (two_steps abandons) = do
    send t (mdv_request 3)
    send t (mdv_request 4)
    when abandons (modify (λ l. with_env t l (t.abandon_serial l.env)))
    nap t 250
  mount_steps five_steps = do
    send t (mdv_request 3)
    send t (mdv_request 4)
    nap t 100
    send t (mdv_request 5)
    send t (mdv_request 2)
    qdos t
  mount_steps legacy = do send t (mdv_request 1); send t (mdv_request 2); qdos t

  pub control_steps : Bool → Bytes → Exec (Link t) (Unit {0})
  unfolding mount_steps mount_protocol
  control_steps false build = do send t (mdv_request 0); skip
  control_steps true build = mount_steps (mount_protocol build)

  unfoldable pub microdrive_sync_control : Bool → Exec (Link t) (Unit {0})
  unfolding control_steps
  microdrive_sync_control mount = do
    (capabilities, max_path) ← filesystem_info t
    -- `filesystem_info` has just stored the build, so `or "legacy"` applies to an empty one only
    firmware_build ← gets (λ l. elim l.drive_firmware_build [
      | none ↦ codes "legacy"
      | some build ↦ if is_empty build then codes "legacy" else build
    ])
    raise_if (not (has_bits capabilities 0x20))
        (runtime_error "The installed BL616 firmware does not support automatic MDV1 mounting.")
    previous_timeout ← gets (λ l. t.timeout l.env)
    on_env t (t.set_timeout 30000)
    try_finally (control_steps mount firmware_build) (on_env t (t.set_timeout previous_timeout))

  module _ (crc32 : Bytes → ℕ → ℕ) where
    -- `except Exception`: mount the old image again, drop what that raises, and raise again.
    pub remount_after : Error → Exec (Link t) (Unit {0})
    unfolding microdrive_sync_control
    remount_after e l = (err e, (microdrive_sync_control true l).1)

    -- `synchronize_microdrive`, from the built image on.
    unfoldable pub synchronize_microdrive : ℕ → Bytes → Exec (Link t) (Unit {0})
    unfolding remount_after
    synchronize_microdrive rounds image = do
      microdrive_sync_control false
      try_except (filesystem_put t crc32 rounds (some image) (codes "MDV1.mdv")) is_exception
          remount_after
      microdrive_sync_control true

    -- `"FR_EXIST" not in str(error)`: the firmware passes the FatFs code 8 on as 0x48.
    abbrev pub is_exists_error : Error → Bool
    is_exists_error (rejected code) = is_fatfs_code code && bit_and code 0x1F == 8
    is_exists_error _ = false

    pub upload_existing : Error → Exec (Link t) (Unit {0})
    upload_existing e = raise_if (not (is_exists_error e)) e

    -- The source file's name and content, and whether its suffix is `.mdv`.
    unfoldable pub upload_microdrive_image :
        ℕ → List ℕ → Bool → Option Bytes → Exec (Link t) (List ℕ)
    unfolding upload_existing
    upload_microdrive_image rounds name is_mdv none = raise file_not_found
    upload_microdrive_image rounds name is_mdv (some image) = do
      raise_if (not is_mdv) (value_error "Select a Microdrive image with the .mdv extension.")
      raise_if (is_empty image) (value_error "The Microdrive image is empty.")
      try_except (filesystem_mkdir t (codes "Images")) is_runtime_error upload_existing
      let destination = codes "Images/" ++ name
      filesystem_put t crc32 rounds (some image) destination
      pure destination
