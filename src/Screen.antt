-- ===== src/Screen.antt =====
-- tools/nanoql_link.py: `ql_screen_png`. `zlib.compress` and `zlib.crc32` are parameters.
pub mod Size
pub mod Pixels
pub mod Capture
pub mod Tests
use nano_ql.Base.{
  ℕ, zero, suc, ◌+◌, ◌*◌, ◌/◌, ◌%◌, ◌^◌, bit_and, Bool, false, ◌&&◌, List, [], ◌∷◌, ◌++◌, ◌==◌, not,
  if◌then◌else◌, codes, length, get_or, take, drop, replicate, slice, Bytes, to_be,
}
use nano_ql.Base.Exec.{value_error, Result, ok, err}

abbrev pub screenshot_size : ℕ
screenshot_size = 32768

abbrev pub palette : List Bytes
palette =
    (0x00 ∷ 0x00 ∷ 0x00 ∷ [])
    ∷ (0x20 ∷ 0x40 ∷ 0xD0 ∷ [])
    ∷ (0xD0 ∷ 0x20 ∷ 0x20 ∷ [])
    ∷ (0xD0 ∷ 0x30 ∷ 0xD0 ∷ [])
    ∷ (0x20 ∷ 0xB0 ∷ 0x40 ∷ [])
    ∷ (0x20 ∷ 0xC0 ∷ 0xC0 ∷ [])
    ∷ (0xE0 ∷ 0xD0 ∷ 0x40 ∷ [])
    ∷ (0xFF ∷ 0xFF ∷ 0xFF ∷ [])
    ∷ []

-- `palette[i]`; every index of the source is below 8.
abbrev pub colour : ℕ → Bytes
colour i = get_or palette i (0 ∷ 0 ∷ 0 ∷ [])

-- `mode4[i]`
abbrev pub colour4 : ℕ → Bytes
colour4 i = get_or (colour 0 ∷ colour 2 ∷ colour 4 ∷ colour 7 ∷ []) i (0 ∷ 0 ∷ 0 ∷ [])

-- `(byte >> shift) & 1`
abbrev pub bit : ℕ → ℕ → ℕ
bit byte shift = byte / 2 ^ shift % 2

-- `flags & (1 << i)`
abbrev pub flag : ℕ → ℕ → Bool
flag flags i = bit flags i == 1

-- `flash_latch` and `flash_color`
pub record Flash : Type 0 where
  pub latch : Bool
  pub colour_held : ℕ

-- The pixels of two bytes with eight colours, and the flash behind them.
unfoldable pub pixels8 : ℕ → ℕ → ℕ → List ℕ → Flash → Bytes × Flash
pixels8 flags high low [] flash = ([], flash)
pixels8 flags high low (shift ∷ shifts) flash =
    let c = bit high (shift + 1) * 4 + bit low (shift + 1) * 2 + bit low shift in
    let displayed = if flash.latch && flag flags 2 then flash.colour_held else c in
    let next : Flash =
      if bit high shift == 1 then record { latch = not flash.latch; colour_held = c } else flash in
    let rest = pixels8 flags high low shifts next in
    (colour displayed ++ (colour displayed ++ rest.0), rest.1)

-- The pixels of two bytes with four colours.
unfoldable pub pixels4 : ℕ → ℕ → List ℕ → Bytes
pixels4 high low [] = []
pixels4 high low (shift ∷ shifts) =
    colour4 (bit high shift * 2 + bit low shift) ++ pixels4 high low shifts

-- The body of the loop over the pairs of a line.
abbrev pub pair_pixels : ℕ → ℕ → ℕ → Flash → Bytes × Flash
pair_pixels flags high low flash =
    if flag flags 1
    then (replicate 24 0, flash)
    else if flag flags 0
    then pixels8 flags high low (6 ∷ 4 ∷ 2 ∷ 0 ∷ []) flash
    else (pixels4 high low (7 ∷ 6 ∷ 5 ∷ 4 ∷ 3 ∷ 2 ∷ 1 ∷ 0 ∷ []), flash)

unfoldable pub line_pixels : ℕ → Bytes → Flash → Bytes
line_pixels flags (high ∷ low ∷ rest) flash =
    let (pixels, next) = pair_pixels flags high low flash in pixels ++ line_pixels flags rest next
line_pixels flags _ flash = []

-- `for y in range(256)`, on the lines that are left.
unfoldable pub native_rows : ℕ → ℕ → Bytes → Bytes
native_rows flags zero frame = []
native_rows flags (suc n) frame =
    (0 ∷ line_pixels flags (take 128 frame) (record { latch = false; colour_held = 0 }))
    ++ native_rows flags n (drop 128 frame)

-- Every pixel of a line twice.
unfoldable pub double_pixels : Bytes → Bytes
double_pixels (r ∷ g ∷ b ∷ rest) = r ∷ g ∷ b ∷ r ∷ g ∷ b ∷ double_pixels rest
double_pixels _ = []

-- `for y in range(height)`
unfoldable pub scaled_rows : ℕ → ℕ → ℕ → Bytes → Bytes
scaled_rows zero y height rows = []
scaled_rows (suc n) y height rows =
    let source_start = y * 256 / height * 1537 + 1 in
    (0 ∷ double_pixels (slice source_start (source_start + 1536) rows))
    ++ scaled_rows n (y + 1) height rows

module _ (compress : Bytes → Bytes) (crc32 : Bytes → ℕ) where
  unfoldable pub chunk : Bytes → Bytes → Bytes
  chunk kind content =
      to_be 4 (length content)
      ++ (kind ++ (content ++ to_be 4 (bit_and (crc32 (kind ++ content)) 0xFFFFFFFF)))

  unfoldable pub png : ℕ → ℕ → Bytes → Bytes
  png width height rows =
      (0x89 ∷ codes "PNG" ++ (0x0D ∷ 0x0A ∷ 0x1A ∷ 0x0A ∷ []))
      ++ (chunk (codes "IHDR") (to_be 4 width ++ (to_be 4 height ++ (8 ∷ 2 ∷ 0 ∷ 0 ∷ 0 ∷ [])))
          ++ (chunk (codes "IDAT") (compress rows) ++ chunk (codes "IEND") []))

  unfoldable pub ql_screen_png : Bytes → ℕ → Bool → Result Bytes
  ql_screen_png frame flags native =
      let rows = native_rows flags 256 frame in
      if not (length frame == screenshot_size)
      then err (value_error "A QL screen must contain exactly 32768 bytes.")
      else ok (if native then png 512 256 rows else png 1024 698 (scaled_rows 698 0 698 rows))
