-- ===== src/Bl616/Download.antt =====
-- tools/prepare_bl616_firmware.py: `verified_download`. The digest is a parameter, and so is what the
-- server sends: the bytes that are copied, and an error that ends the copy.
pub mod Tests
use nano_ql.Base.{
  ◌≡◌, refl, inl, inr, Bool, true, false, ◌&&◌, Option, none, some, arith, not, if◌then◌else◌,
  Bool-cases, bytes_eq, Bytes,
}
use nano_ql.Base.Exec.{Error, runtime_error, ok, err, Exec, is_ok}

-- The destination and the temporary file beside it.
pub record Download : Type 0 where
  pub destination : Option Bytes
  pub temporary : Option Bytes

module _ (sha256 : Bytes → Bytes) where
  -- `destination.exists() and not force and sha256(destination) == expected`
  abbrev pub is_cached : Bytes → Bool → Option Bytes → Bool
  is_cached expected force none = false
  is_cached expected force (some content) = not force && bytes_eq (sha256 content) expected

  -- What follows the copy.
  unfoldable pub accept_download : Bytes → Bytes → Exec Download (Unit {0})
  accept_download expected content files =
      if not (bytes_eq (sha256 content) expected)
      then (
        err (runtime_error "SHA-256 mismatch"),
        record { destination = files.destination; temporary = none },
      )
      else (ok tt, record { destination = some content; temporary = none })

  abbrev pub copy_download : Bytes → Bytes × Option Error → Exec Download (Unit {0})
  copy_download expected (content, none) files = accept_download expected content files
  copy_download expected (content, some e) files =
      (err e, record files { temporary = some content })

  unfoldable pub verified_download : Bytes → Bool → Bytes × Option Error → Exec Download (Unit {0})
  verified_download expected force sent files =
      if is_cached expected force files.destination
      then (ok tt, files)
      else copy_download expected sent (record files { temporary = none })

  -- The digest of the file is the expected one.
  abbrev pub has_digest : Bytes → Option Bytes → Bool
  has_digest expected none = false
  has_digest expected (some content) = bytes_eq (sha256 content) expected

  cached-has_digest :
      (expected : Bytes) (force : Bool) (file : Option Bytes)
      → is_cached expected force file ≡ true
      → has_digest expected file ≡ true
  cached-has_digest expected force none h = cc h
  cached-has_digest expected force (some content) h = ground arith

  -- Whatever the server sends: when `verified_download` returns, the destination has the expected
  -- digest, and when it raises, the destination is as it was.
  pub verified_download-has_digest :
      (expected : Bytes) (force : Bool) (sent : Bytes × Option Error) (files : Download)
      → let (r, files') = verified_download expected force sent files in
        ((is_ok r && not (has_digest expected files'.destination)) ≡ false)
        × (files'.destination ≡ (if is_ok r then files'.destination else files.destination))
  unfolding verified_download accept_download
  verified_download-has_digest expected force (content, failure) files =
      elim (Bool-cases (is_cached expected force files.destination)) [
        | inl cached ↦
            rw (cached, cached-has_digest expected force files.destination cached) (refl, refl)
        | inr absent ↦ rw absent (copied failure)
      ]
    where
      copied :
          (failure : Option Error)
          → let (r, files') =
              copy_download expected (content, failure) (record files { temporary = none }) in
            ((is_ok r && not (has_digest expected files'.destination)) ≡ false)
            × (files'.destination ≡ (if is_ok r then files'.destination else files.destination))
      copied none = elim (Bool-cases (bytes_eq (sha256 content) expected)) [
        | inl same ↦ rw (same, same) (refl, refl)
        | inr other ↦ rw other (refl, refl)
      ]
      copied (some e) = (refl, refl)
