-- ===== src/Bl616/Tests.antt =====
-- A boot program at 0 and an application at 4, in the wrong order.
use nano_ql.Base.{◌≡◌, refl, [], ◌∷◌, codes, length, All, Bytes}
use nano_ql.Base.Exec.{ok}
use nano_ql.Bl616.{
  Segment, image_end, splice, fill, insert_segment, sort_segments, build_full_flash_image,
}
use nano_ql.Bl616.Placed.{IsStored, build_full_flash_image-IsStored}
use nano_ql.Qlay.Folder.{text_lt}

abbrev application : Segment
application = record { address = 4; path = codes "app.bin"; content = 7 ∷ 8 ∷ [] }

abbrev boot : Segment
boot = record { address = 0; path = codes "boot.bin"; content = 1 ∷ 2 ∷ [] }

abbrev flash_image : Bytes
flash_image = 1 ∷ 2 ∷ 0xFF ∷ 0xFF ∷ 7 ∷ 8 ∷ []

built_image : build_full_flash_image text_lt (application ∷ boot ∷ []) ≡ ok flash_image
unfolding build_full_flash_image sort_segments insert_segment fill splice
built_image = refl

build_full_flash_image-IsStored_example :
    (length flash_image ≡ image_end (application ∷ boot ∷ []))
    × All (IsStored flash_image) (application ∷ boot ∷ [])
build_full_flash_image-IsStored_example =
    build_full_flash_image-IsStored text_lt (application ∷ boot ∷ []) flash_image built_image
