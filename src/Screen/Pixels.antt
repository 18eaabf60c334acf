-- ===== src/Screen/Pixels.antt =====
-- `ql_screen_png`: the pixels in the mode with four colours.
use mathlib.Core.List.{append_assoc}
use nano_ql.Base.{
  ℕ, zero, suc, ◌+◌, ◌-◌, ◌*◌, ◌/◌, ◌%◌, ◌≤◌, ◌<◌, ◌≡◌, refl, sym, ap, ◌∙◌, false, List, [], ◌∷◌,
  ◌++◌, arith, length, get_or, take, drop, slice, length-take, length-drop, take-append,
  drop-append, drop-add, get_or-drop, Bytes,
}
use nano_ql.Screen.{screenshot_size, colour4, bit, flag, Flash, pixels4, line_pixels, native_rows}
use nano_ql.Screen.Size.{colour4_size, length-pixels4, length-line_pixels}

-- The colour of the pixel at x and y, from the two bytes of its group of eight.
unfoldable pub pixel_at : Bytes → ℕ → ℕ → Bytes
pixel_at frame x y =
    let at = y * 128 + x / 8 * 2 in
    let shift = 7 - x % 8 in
    colour4 (bit (get_or frame at 0) shift * 2 + bit (get_or frame (at + 1) 0) shift)

drop-colour4 : (c : ℕ) (rest : Bytes) → drop 3 (colour4 c ++ rest) ≡ rest
drop-colour4 c rest = drop-append 3 (colour4 c) rest (sym (colour4_size c))

take-colour4 : (c : ℕ) (rest : Bytes) → take 3 (colour4 c ++ rest) ≡ colour4 c
take-colour4 c rest = take-append 3 (colour4 c) rest (sym (colour4_size c))

get_or-take : (n k : ℕ) (xs : Bytes) → k < n → get_or (take n xs) k 0 ≡ get_or xs k 0
get_or-take zero k xs h = absurd (omega arith)
get_or-take (suc n) k [] h = refl
get_or-take (suc n) zero (x ∷ xs) h = refl
get_or-take (suc n) (suc k) (x ∷ xs) h = get_or-take n k xs (omega arith)

-- The pixel behind some others of a group.
pixels4_at :
    (high low : ℕ) (before : List ℕ) (shift : ℕ) (after : List ℕ) (rest : Bytes)
    → take 3 (drop (3 * length before) (pixels4 high low (before ++ shift ∷ after) ++ rest))
      ≡ colour4 (bit high shift * 2 + bit low shift)
unfolding pixels4
pixels4_at high low [] shift after rest =
    let c = bit high shift * 2 + bit low shift in
    ap (take 3) (append_assoc (colour4 c) (pixels4 high low after) rest)
    ∙ take-colour4 c (pixels4 high low after ++ rest)
pixels4_at high low (s ∷ before) shift after rest =
    let c = bit high s * 2 + bit low s in
    let others = pixels4 high low (before ++ shift ∷ after) in
    let e : 3 * length (s ∷ before) ≡ 3 + 3 * length before = omega arith in
    rw (e, append_assoc (colour4 c) others rest)
      (ap (take 3) (drop-add 3 (3 * length before) (colour4 c ++ (others ++ rest)))
        ∙ (ap (λ t. take 3 (drop (3 * length before) t)) (drop-colour4 c (others ++ rest))
            ∙ pixels4_at high low before shift after rest))

abbrev all_shifts : List ℕ
all_shifts = 7 ∷ 6 ∷ 5 ∷ 4 ∷ 3 ∷ 2 ∷ 1 ∷ 0 ∷ []

group_at :
    (high low j : ℕ) (rest : Bytes)
    → j < 8
    → take 3 (drop (3 * j) (pixels4 high low all_shifts ++ rest))
      ≡ colour4 (bit high (7 - j) * 2 + bit low (7 - j))
group_at high low zero rest h = pixels4_at high low [] 7 (6 ∷ 5 ∷ 4 ∷ 3 ∷ 2 ∷ 1 ∷ 0 ∷ []) rest
group_at high low (suc zero) rest h =
    pixels4_at high low (7 ∷ []) 6 (5 ∷ 4 ∷ 3 ∷ 2 ∷ 1 ∷ 0 ∷ []) rest
group_at high low (suc (suc zero)) rest h =
    pixels4_at high low (7 ∷ 6 ∷ []) 5 (4 ∷ 3 ∷ 2 ∷ 1 ∷ 0 ∷ []) rest
group_at high low (suc (suc (suc zero))) rest h =
    pixels4_at high low (7 ∷ 6 ∷ 5 ∷ []) 4 (3 ∷ 2 ∷ 1 ∷ 0 ∷ []) rest
group_at high low (suc (suc (suc (suc zero)))) rest h =
    pixels4_at high low (7 ∷ 6 ∷ 5 ∷ 4 ∷ []) 3 (2 ∷ 1 ∷ 0 ∷ []) rest
group_at high low (suc (suc (suc (suc (suc zero))))) rest h =
    pixels4_at high low (7 ∷ 6 ∷ 5 ∷ 4 ∷ 3 ∷ []) 2 (1 ∷ 0 ∷ []) rest
group_at high low (suc (suc (suc (suc (suc (suc zero)))))) rest h =
    pixels4_at high low (7 ∷ 6 ∷ 5 ∷ 4 ∷ 3 ∷ 2 ∷ []) 1 (0 ∷ []) rest
group_at high low (suc (suc (suc (suc (suc (suc (suc zero))))))) rest h =
    pixels4_at high low (7 ∷ 6 ∷ 5 ∷ 4 ∷ 3 ∷ 2 ∷ 1 ∷ []) 0 [] rest
group_at high low (suc (suc (suc (suc (suc (suc (suc (suc j)))))))) rest h = absurd (omega arith)

module _ (flags : ℕ) (shown : flag flags 1 ≡ false) (four : flag flags 0 ≡ false) where
  line_step :
      (high low : ℕ) (rest : Bytes) (flash : Flash)
      → line_pixels flags (high ∷ low ∷ rest) flash
        ≡ pixels4 high low all_shifts ++ line_pixels flags rest flash
  unfolding line_pixels
  line_step high low rest flash = rw (shown, four) refl

  -- A pixel of a line.
  line_at :
      (m j : ℕ) (line after : Bytes) (flash : Flash)
      → 2 * m + 2 ≤ length line
      → j < 8
      → take 3 (drop (24 * m + 3 * j) (line_pixels flags line flash ++ after))
        ≡ colour4
            (bit (get_or line (2 * m) 0) (7 - j) * 2 + bit (get_or line (2 * m + 1) 0) (7 - j))
  line_at m j [] after flash h lt = absurd (omega arith)
  line_at m j (a ∷ []) after flash h lt = absurd (omega arith)
  line_at zero j (high ∷ low ∷ rest) after flash h lt =
      let others = line_pixels flags rest flash in
      let e : 24 * 0 + 3 * j ≡ 3 * j = omega arith in
      rw (e, line_step high low rest flash, append_assoc (pixels4 high low all_shifts) others after)
        (group_at high low j (others ++ after) lt)
  line_at (suc m) j (high ∷ low ∷ rest) after flash h lt =
      let group = pixels4 high low all_shifts in
      let others = line_pixels flags rest flash in
      let e : 24 * suc m + 3 * j ≡ 24 + (24 * m + 3 * j) = omega arith in
      let a : 2 * suc m ≡ suc (suc (2 * m)) = omega arith in
      let b : 2 * suc m + 1 ≡ suc (suc (2 * m + 1)) = omega arith in
      let skip : drop 24 (group ++ (others ++ after)) ≡ others ++ after =
        drop-append 24 group (others ++ after)
          (omega (arith, length-pixels4 high low all_shifts)) in
      ap (λ t. take 3 (drop (24 * suc m + 3 * j) (t ++ after))) (line_step high low rest flash)
      ∙ (ap (λ t. take 3 (drop (24 * suc m + 3 * j) t)) (append_assoc group others after)
          ∙ (ap (λ n. take 3 (drop n (group ++ (others ++ after)))) e
              ∙ (ap (take 3) (drop-add 24 (24 * m + 3 * j) (group ++ (others ++ after)))
                  ∙ (ap (λ t. take 3 (drop (24 * m + 3 * j) t)) skip
                      ∙ (line_at m j rest after flash (omega arith) lt
                          ∙ ap
                              (λ (p : ℕ × ℕ). colour4 (
                                bit (get_or (high ∷ low ∷ rest) p.0 0) (7 - j) * 2
                                + bit (get_or (high ∷ low ∷ rest) p.1 0) (7 - j)))
                              (λ i. (sym a i, sym b i)))))))

  -- A pixel of the rows that are left.
  row_at :
      (n y m j : ℕ) (frame : Bytes)
      → length frame ≡ 128 * n
      → y < n
      → m < 64
      → j < 8
      → take 3 (drop (1537 * y + (1 + (24 * m + 3 * j))) (native_rows flags n frame))
        ≡ colour4 (
            bit (get_or frame (128 * y + 2 * m) 0) (7 - j) * 2
            + bit (get_or frame (128 * y + (2 * m + 1)) 0) (7 - j))
  unfolding native_rows
  row_at zero y m j frame size below group lt = absurd (omega arith)
  row_at (suc n) zero m j frame size below group lt =
      let flash : Flash = record { latch = false; colour_held = 0 } in
      let line = take 128 frame in
      let e : 1537 * 0 + (1 + (24 * m + 3 * j)) ≡ suc (24 * m + 3 * j) = omega arith in
      let a : 128 * 0 + 2 * m ≡ 2 * m = omega arith in
      let b : 128 * 0 + (2 * m + 1) ≡ 2 * m + 1 = omega arith in
      rw
        (
          e,
          a,
          b,
          ← get_or-take 128 (2 * m) frame (omega arith),
          ← get_or-take 128 (2 * m + 1) frame (omega arith),
        )
        (line_at m j line (native_rows flags n (drop 128 frame)) flash
          (omega (arith, length-take 128 frame)) lt)
  row_at (suc n) (suc y) m j frame size below group lt =
      let flash : Flash = record { latch = false; colour_held = 0 } in
      let line = 0 ∷ line_pixels flags (take 128 frame) flash in
      let k = 1 + (24 * m + 3 * j) in
      let rest = native_rows flags n (drop 128 frame) in
      let e : 1537 * suc y + k ≡ 1537 + (1537 * y + k) = omega arith in
      let a : 128 * suc y + 2 * m ≡ 128 + (128 * y + 2 * m) = omega arith in
      let b : 128 * suc y + (2 * m + 1) ≡ 128 + (128 * y + (2 * m + 1)) = omega arith in
      let long : 1537 ≡ length line = omega (
        arith,
        length-line_pixels 64 flags (take 128 frame) flash (omega (arith, length-take 128 frame)),
      ) in
      let skip : drop 1537 (line ++ rest) ≡ rest = drop-append 1537 line rest long in
      ap (λ i. take 3 (drop i (line ++ rest))) e
      ∙ (ap (take 3) (drop-add 1537 (1537 * y + k) (line ++ rest))
          ∙ (ap (λ t. take 3 (drop (1537 * y + k) t)) skip
              ∙ (row_at n y m j (drop 128 frame) (omega (arith, length-drop 128 frame))
                    (omega arith) group lt
                  ∙ rw
                      (
                        a,
                        b,
                        get_or-drop 128 (128 * y + 2 * m) frame 0,
                        get_or-drop 128 (128 * y + (2 * m + 1)) frame 0,
                      )
                      refl)))

-- In the mode with four colours, the pixel at x and y of the native picture is the colour of the
-- two bits that the frame has for it, in the bytes of its group of eight pixels.
pub native_rows-pixel_at :
    (flags x y : ℕ) (frame : Bytes)
    → flag flags 1 ≡ false
    → flag flags 0 ≡ false
    → length frame ≡ screenshot_size
    → x < 512
    → y < 256
    → let at = y * 1537 + 1 + 3 * x in
      slice at (at + 3) (native_rows flags 256 frame) ≡ pixel_at frame x y
unfolding pixel_at
native_rows-pixel_at flags x y frame shown four size left top =
    let at = y * 1537 + 1 + 3 * x in
    let three : at + 3 - at ≡ 3 = omega arith in
    let place : at ≡ 1537 * y + (1 + (24 * (x / 8) + 3 * (x % 8))) = omega arith in
    let a : y * 128 + x / 8 * 2 ≡ 128 * y + 2 * (x / 8) = omega arith in
    let b : y * 128 + x / 8 * 2 + 1 ≡ 128 * y + (2 * (x / 8) + 1) = omega arith in
    let shift = 7 - x % 8 in
    ap (λ n. take n (drop at (native_rows flags 256 frame))) three
    ∙ (ap (λ n. take 3 (drop n (native_rows flags 256 frame))) place
        ∙ (row_at flags shown four 256 y (x / 8) (x % 8) frame size top (omega arith) (omega arith)
            ∙ ap
                (λ (p : ℕ × ℕ).
                  colour4 (bit (get_or frame p.0 0) shift * 2 + bit (get_or frame p.1 0) shift))
                (λ i. (sym a i, sym b i))))
