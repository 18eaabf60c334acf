-- ===== src/Screen/Size.antt =====
-- `ql_screen_png`: the sizes of its rows.
use nano_ql.Base.{
  ℕ, zero, suc, ◌+◌, ◌-◌, ◌*◌, ◌/◌, ◌≤◌, ◌≡◌, refl, inl, inr, Bool, true, false, ◌&&◌, List, [],
  ◌∷◌, ◌++◌, arith, ◌==◌, not, if◌then◌else◌, Bool-cases, length, get_or, take, drop, slice, all,
  length-append, length-take, length-drop, Bytes,
}
use nano_ql.Base.Exec.{ok}
use nano_ql.Screen.{
  screenshot_size, palette, colour, colour4, bit, flag, Flash, pixels8, pixels4, pair_pixels,
  line_pixels, native_rows, double_pixels, scaled_rows, png, ql_screen_png,
}

colour_size : (c : ℕ) → length (colour c) ≡ 3
colour_size c = entry palette c refl
  where
    entry :
        (colours : List Bytes) (i : ℕ)
        → all (λ k. length k == 3) colours ≡ true
        → length (get_or colours i (0 ∷ 0 ∷ 0 ∷ [])) ≡ 3
    entry [] i g = refl
    entry (k ∷ ks) zero g = ground arith
    entry (k ∷ ks) (suc i) g = entry ks i (ground arith)

pub colour4_size : (c : ℕ) → length (colour4 c) ≡ 3
colour4_size zero = refl
colour4_size (suc zero) = refl
colour4_size (suc (suc zero)) = refl
colour4_size (suc (suc (suc zero))) = refl
colour4_size (suc (suc (suc (suc c)))) = refl

length-pixels8 :
    (flags high low : ℕ) (shifts : List ℕ) (flash : Flash)
    → length (pixels8 flags high low shifts flash).0 ≡ 6 * length shifts
unfolding pixels8
length-pixels8 flags high low [] flash = refl
length-pixels8 flags high low (shift ∷ shifts) flash =
    let c = bit high (shift + 1) * 4 + bit low (shift + 1) * 2 + bit low shift in
    let shown = if flash.latch && flag flags 2 then flash.colour_held else c in
    let next : Flash =
      if bit high shift == 1 then record { latch = not flash.latch; colour_held = c } else flash in
    let rest = (pixels8 flags high low shifts next).0 in
    omega (
      arith,
      length-append (colour shown) (colour shown ++ rest),
      length-append (colour shown) rest,
      colour_size shown,
      length-pixels8 flags high low shifts next,
    )

pub length-pixels4 :
    (high low : ℕ) (shifts : List ℕ) → length (pixels4 high low shifts) ≡ 3 * length shifts
unfolding pixels4
length-pixels4 high low [] = refl
length-pixels4 high low (shift ∷ shifts) =
    let c = bit high shift * 2 + bit low shift in
    omega (
      arith,
      length-append (colour4 c) (pixels4 high low shifts),
      colour4_size c,
      length-pixels4 high low shifts,
    )

length-pair_pixels :
    (flags high low : ℕ) (flash : Flash) → length (pair_pixels flags high low flash).0 ≡ 24
length-pair_pixels flags high low flash = elim (Bool-cases (flag flags 1)) [
  | inl blank ↦ rw blank refl
  | inr shown ↦ elim (Bool-cases (flag flags 0)) [
    | inl eight ↦ rw (shown, eight) (length-pixels8 flags high low (6 ∷ 4 ∷ 2 ∷ 0 ∷ []) flash)
    | inr four ↦ rw (shown, four) (length-pixels4 high low (7 ∷ 6 ∷ 5 ∷ 4 ∷ 3 ∷ 2 ∷ 1 ∷ 0 ∷ []))
  ]
]

pub length-line_pixels :
    (m flags : ℕ) (line : Bytes) (flash : Flash)
    → length line ≡ 2 * m
    → length (line_pixels flags line flash) ≡ 24 * m
unfolding line_pixels
length-line_pixels zero flags [] flash h = refl
length-line_pixels zero flags (a ∷ line) flash h = absurd (omega arith)
length-line_pixels (suc m) flags [] flash h = absurd (omega arith)
length-line_pixels (suc m) flags (a ∷ []) flash h = absurd (omega arith)
length-line_pixels (suc m) flags (high ∷ low ∷ rest) flash h =
    let pair = pair_pixels flags high low flash in
    omega (
      arith,
      length-append pair.0 (line_pixels flags rest pair.1),
      length-pair_pixels flags high low flash,
      length-line_pixels m flags rest pair.1 (omega arith),
    )

pub length-native_rows :
    (flags n : ℕ) (frame : Bytes)
    → length frame ≡ 128 * n
    → length (native_rows flags n frame) ≡ 1537 * n
unfolding native_rows
length-native_rows flags zero frame h = refl
length-native_rows flags (suc n) frame h =
    let flash : Flash = record { latch = false; colour_held = 0 } in
    let line = line_pixels flags (take 128 frame) flash in
    omega (
      arith,
      length-append (0 ∷ line) (native_rows flags n (drop 128 frame)),
      length-line_pixels 64 flags (take 128 frame) flash (omega (arith, length-take 128 frame)),
      length-native_rows flags n (drop 128 frame) (omega (arith, length-drop 128 frame)),
    )

length-double_pixels :
    (k : ℕ) (line : Bytes) → length line ≡ 3 * k → length (double_pixels line) ≡ 6 * k
unfolding double_pixels
length-double_pixels zero [] h = refl
length-double_pixels zero (a ∷ line) h = absurd (omega arith)
length-double_pixels (suc k) [] h = absurd (omega arith)
length-double_pixels (suc k) (a ∷ []) h = absurd (omega arith)
length-double_pixels (suc k) (a ∷ b ∷ []) h = absurd (omega arith)
length-double_pixels (suc k) (r ∷ g ∷ b ∷ rest) h =
    omega (arith, length-double_pixels k rest (omega arith))

length-scaled_rows :
    (n y : ℕ) (rows : Bytes)
    → length rows ≡ 393472
    → y + n ≤ 698
    → length (scaled_rows n y 698 rows) ≡ 3073 * n
unfolding scaled_rows
length-scaled_rows zero y rows size h = refl
length-scaled_rows (suc n) y rows size h =
    let source_start = y * 256 / 698 * 1537 + 1 in
    let line = slice source_start (source_start + 1536) rows in
    let inside : y * 256 / 698 ≤ 255 = omega arith in
    let long : length line ≡ 1536 = omega (
      arith,
      length-take (source_start + 1536 - source_start) (drop source_start rows),
      length-drop source_start rows,
    ) in
    omega (
      arith,
      length-append (0 ∷ double_pixels line) (scaled_rows n (y + 1) 698 rows),
      length-double_pixels 512 line long,
      length-scaled_rows n (y + 1) rows size (omega arith),
    )

-- For a frame of 32768 bytes, whatever the flags, `ql_screen_png` makes a picture of 512 × 256
-- native or 1024 × 698 scaled pixels, and the rows that it compresses have a filter byte and three
-- bytes for each pixel of the width, for each line of the height that its header gives.
pub ql_screen_png-size :
    (compress : Bytes → Bytes) (crc32 : Bytes → ℕ) (frame : Bytes) (flags : ℕ) (native : Bool)
    → length frame ≡ screenshot_size
    → (width : ℕ) × (height : ℕ) × (rows : Bytes) × (ql_screen_png compress crc32 frame flags native
        ≡ ok (png compress crc32 width height rows))
      × (length rows ≡ height * (1 + 3 * width))
      × (width ≡ (if native then 512 else 1024))
      × (height ≡ (if native then 256 else 698))
unfolding ql_screen_png
ql_screen_png-size compress crc32 frame flags true size =
    let rows = native_rows flags 256 frame in
    (512, 256, rows, rw size refl, length-native_rows flags 256 frame size, refl, refl)
ql_screen_png-size compress crc32 frame flags false size =
    let rows = native_rows flags 256 frame in
    let long = length-native_rows flags 256 frame size in
    (
      1024,
      698,
      scaled_rows 698 0 698 rows,
      rw size refl,
      length-scaled_rows 698 0 rows long (omega arith),
      refl,
      refl,
    )
