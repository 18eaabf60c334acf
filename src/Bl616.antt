-- ===== src/Bl616.antt =====
-- tools/prepare_bl616_firmware.py: `build_full_flash_image`. A segment is an address and a file with
-- its content; the order of paths is a parameter.
pub mod Placed
pub mod Download
pub mod Tests
use nano_ql.Base.{
  ℕ, ◌+◌, max, Bool, ◌&&◌, ◌||◌, List, [], ◌∷◌, ◌++◌, ltb, ◌==◌, if◌then◌else◌, length, take, drop,
  replicate, is_empty, any, Bytes,
}
use nano_ql.Base.Exec.{runtime_error, value_error, Result, ok, err}

pub record Segment : Type 0 where
  pub address : ℕ
  pub path : Bytes
  pub content : Bytes

abbrev pub segment_end : Segment → ℕ
segment_end s = s.address + length s.content

-- `max(...)` over the segments.
abbrev pub image_end : List Segment → ℕ
image_end [] = 0
image_end (s ∷ ss) = max (segment_end s) (image_end ss)

-- `image[address:segment_end] = data`
unfoldable pub splice : ℕ → Bytes → Bytes → Bytes
splice address binary image = take address image ++ (binary ++ drop (address + length binary) image)

-- The ranges that are taken, the last one first.
abbrev pub overlaps : ℕ → ℕ → List (ℕ × ℕ) → Bool
overlaps address end occupied = any (λ prior. ltb address prior.1 && ltb prior.0 end) occupied

-- The loop over the sorted segments.
unfoldable pub fill : List Segment → List (ℕ × ℕ) → Bytes → Result Bytes
fill [] occupied image = ok image
fill (s ∷ ss) occupied image =
    let rest = fill ss ((s.address, segment_end s) ∷ occupied) (splice s.address s.content image) in
    if overlaps s.address (segment_end s) occupied
    then err (runtime_error "Overlapping BL616 Flash segment")
    else rest

module _ (path_lt : Bytes → Bytes → Bool) where
  -- `<` on pairs
  abbrev pub segment_lt : Segment → Segment → Bool
  segment_lt s t = ltb s.address t.address || (s.address == t.address && path_lt s.path t.path)

  unfoldable pub insert_segment : Segment → List Segment → List Segment
  insert_segment s [] = s ∷ []
  insert_segment s (t ∷ ts) =
      let later = insert_segment s ts in if segment_lt t s then t ∷ later else s ∷ (t ∷ ts)

  unfoldable pub sort_segments : List Segment → List Segment
  sort_segments [] = []
  sort_segments (s ∷ ss) = insert_segment s (sort_segments ss)

  -- The image, before it is written.
  unfoldable pub build_full_flash_image : List Segment → Result Bytes
  build_full_flash_image segments =
      if is_empty segments
      then err (value_error "max() arg is an empty sequence")
      else fill (sort_segments segments) [] (replicate (image_end segments) 0xFF)
