-- ===== src/Screen/Tests.antt =====
-- A screen with stripes.
use nano_ql.Base.{
  ℕ, ◌+◌, ◌*◌, ◌≡◌, refl, false, arith, if◌then◌else◌, length, replicate, slice, length-replicate,
  Bytes,
}
use nano_ql.Base.Exec.{ok}
use nano_ql.Screen.{native_rows, png, ql_screen_png}
use nano_ql.Screen.Pixels.{pixel_at, native_rows-pixel_at}
use nano_ql.Screen.Size.{ql_screen_png-size}

unfoldable stripes : ℕ → Bytes
stripes n = replicate n 0xAA

length-stripes : (n : ℕ) → length (stripes n) ≡ n
unfolding stripes
length-stripes n = length-replicate {A = ℕ} n 0xAA

abbrev no_compression : Bytes → Bytes
no_compression bytes = bytes

abbrev no_sum : Bytes → ℕ
no_sum _ = 0

ql_screen_png-size_example :
    (width : ℕ) × (height : ℕ) × (rows : Bytes) × (ql_screen_png no_compression no_sum
        (stripes 32768)
        0
        false
      ≡ ok (png no_compression no_sum width height rows))
    × (length rows ≡ height * (1 + 3 * width))
    × (width ≡ (if false then 512 else 1024))
    × (height ≡ (if false then 256 else 698))
ql_screen_png-size_example =
    ql_screen_png-size no_compression no_sum (stripes 32768) 0 false (length-stripes 32768)

native_rows-pixel_at_example :
    slice (100 * 1537 + 1 + 3 * 9) (100 * 1537 + 1 + 3 * 9 + 3) (native_rows 0 256 (stripes 32768))
    ≡ pixel_at (stripes 32768) 9 100
native_rows-pixel_at_example =
    native_rows-pixel_at 0 9 100 (stripes 32768) refl refl (length-stripes 32768) (omega arith)
      (omega arith)
