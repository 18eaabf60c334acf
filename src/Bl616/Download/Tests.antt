-- ===== src/Bl616/Download/Tests.antt =====
-- A download whose bytes are not the expected ones.
use nano_ql.Base.{◌≡◌, false, ◌&&◌, none, some, [], ◌∷◌, not, if◌then◌else◌, length, Bytes}
use nano_ql.Base.Exec.{is_ok}
use nano_ql.Bl616.Download.{verified_download, has_digest, verified_download-has_digest}

abbrev length_digest : Bytes → Bytes
length_digest bytes = length bytes ∷ []

verified_download-has_digest_example :
    let (r, files') =
      verified_download length_digest
        (3 ∷ [])
        false
        (1 ∷ 2 ∷ [], none)
        (record { destination = some (9 ∷ []); temporary = none }) in
    ((is_ok r && not (has_digest length_digest (3 ∷ []) files'.destination)) ≡ false)
    × (files'.destination ≡ (if is_ok r then files'.destination else some (9 ∷ [])))
verified_download-has_digest_example =
    verified_download-has_digest length_digest (3 ∷ []) false (1 ∷ 2 ∷ [], none)
      (record { destination = some (9 ∷ []); temporary = none })
