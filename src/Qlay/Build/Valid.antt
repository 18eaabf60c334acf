-- ===== src/Qlay/Build/Valid.antt =====
-- The image that `build_qlay_image` assembles, for its own validation.
use mathlib.Core.List.{reverse-cons, map-append, reverse}
use mathlib.Core.Path.{subst}
use nano_ql.Base.{
  ℕ, suc, ◌≤◌, ◌≡◌, refl, sym, ap, ◌∙◌, true, false, List, [], ◌∷◌, ◌++◌, map, arith, ltb, length,
  All, All-append, Bytes,
}
use nano_ql.Base.Exec.{ok, ok-injective}
use nano_ql.Qlay.Build.{
  Layout, padded, update_sector, result_bind, place_streams, streams_of, map_data, physical_order,
  finish_image, start_layout, assemble_image, build_qlay_image, result_bind-ok,
}
use nano_ql.Qlay.Build.Keeps.{
  counting, IsLayout, update_sector-IsGood, update_sector-numbers, length-padded,
  place_streams-IsLayout, first_layout-IsLayout, length-map_data,
}
use nano_ql.Qlay.Build.Tape.{
  IsGood, number_of, joined, serialize_all-joined, length-joined, push, check_sectors-joined,
}
use nano_ql.Qlay.Header.{DriveFile}
use nano_ql.Qlay.Sector.{qlay_image_size, Sector}
use nano_ql.Qlay.Validate.{member, check_sectors, validate_qlay_image}

map-reverse : (ss : List Sector) → map number_of (reverse ss) ≡ reverse (map number_of ss)
map-reverse [] = refl
map-reverse (s ∷ ss) =
    ap (map number_of) (reverse-cons s ss)
    ∙ (map-append number_of (reverse ss) (s ∷ [])
        ∙ (ap (λ t. t ++ (s.number ∷ [])) (map-reverse ss)
            ∙ sym (reverse-cons s.number (map number_of ss))))

pub All-reverse {ℓ} : (P : Sector → Type ℓ) (ss : List Sector) → All P ss → All P (reverse ss)
All-reverse P [] g = tt
All-reverse P (s ∷ ss) g =
    rw (reverse-cons s ss) (All-append P (reverse ss) (s ∷ []) (All-reverse P ss g.1) (g.0, tt))

physical_order-IsGood : (ss : List Sector) → All IsGood ss → All IsGood (physical_order ss)
physical_order-IsGood [] g = tt
physical_order-IsGood (s ∷ ss) g = (g.0, All-reverse IsGood ss g.1)

-- 0, then 254 down to 1.
abbrev pub physical_numbers : List ℕ → List ℕ
physical_numbers [] = []
physical_numbers (n ∷ ns) = n ∷ reverse ns

physical_order-numbers :
    (ss : List Sector) → map number_of (physical_order ss) ≡ physical_numbers (map number_of ss)
physical_order-numbers [] = refl
physical_order-numbers (s ∷ ss) = ap (λ t. s.number ∷ t) (map-reverse ss)

pub length-numbers : (ss : List Sector) → length (map number_of ss) ≡ length ss
length-numbers [] = refl
length-numbers (s ∷ ss) = ap suc (length-numbers ss)

accept_numbers :
    (image : Bytes) (numbers : List ℕ)
    → length image ≡ 174930
    → check_sectors 255 0 image [] ≡ ok numbers
    → member 0 numbers ≡ true
    → ltb (length numbers) 200 ≡ false
    → validate_qlay_image image ≡ ok tt
unfolding validate_qlay_image
accept_numbers image numbers size checked zero-in many = ground arith

-- The image of sectors that satisfy the invariant is valid.
valid_image :
    (ss : List Sector)
    → All IsGood ss
    → map number_of ss ≡ physical_numbers (counting 255 0)
    → validate_qlay_image (joined ss) ≡ ok tt
valid_image ss g numbers =
    let count : length ss ≡ 255 = sym (length-numbers ss) ∙ ap length numbers in
    let size : length (joined ss) ≡ 174930 = omega (arith, length-joined ss g, count) in
    let checked =
      check_sectors-joined 255 0 ss [] g count (rw numbers) ∙ ap (λ t. ok (push [] t)) numbers in
    accept_numbers (joined ss) (push [] (physical_numbers (counting 255 0))) size checked refl refl

pub final_sectors :
    (layout : Layout)
    → IsLayout layout
    → let ss = physical_order (update_sector layout.sectors 0 0x80 0 (map_data layout)) in
      All IsGood ss × (map number_of ss ≡ physical_numbers (counting 255 0))
final_sectors layout v =
    let ss = update_sector layout.sectors 0 0x80 0 (map_data layout) in
    (
      physical_order-IsGood ss (
          update_sector-IsGood layout.sectors 0 0x80 0 (map_data layout) (length-map_data layout v)
            v.good),
      physical_order-numbers ss
          ∙ ap physical_numbers
              (update_sector-numbers layout.sectors 0 0x80 0 (map_data layout) ∙ v.numbers),
    )

pub finished :
    (layout : Layout) (image : Bytes)
    → IsLayout layout
    → finish_image layout ≡ ok image
    → (length image ≡ 174930) × (validate_qlay_image image ≡ ok tt)
unfolding finish_image
finished layout image v fin =
    let ss = physical_order (update_sector layout.sectors 0 0x80 0 (map_data layout)) in
    let (good, numbers) = final_sectors layout v in
    let same : joined ss ≡ image = ok-injective (sym (serialize_all-joined ss good) ∙ fin) in
    let count : length ss ≡ 255 = sym (length-numbers ss) ∙ ap length numbers in
    subst (λ x. (length x ≡ 174930) × (validate_qlay_image x ≡ ok tt)) same
      (omega (arith, length-joined ss good, count), valid_image ss good numbers)

module _ (crc32 : Bytes → ℕ → ℕ) (files : List DriveFile) (medium image : Bytes) where
  pub assembled :
      assemble_image crc32 files medium ≡ ok image
      → (length medium ≤ 10)
        × (result_bind
              (place_streams 0 (streams_of files) (start_layout crc32 files medium))
              finish_image
            ≡ ok image)
  unfolding assemble_image
  assembled h = ground arith

  pub start_layout-IsLayout : length medium ≤ 10 → IsLayout (start_layout crc32 files medium)
  unfolding start_layout
  start_layout-IsLayout short =
      first_layout-IsLayout (padded 10 b' ' medium) _ (length-padded 10 b' ' medium short)

  -- Whenever `assemble_image` succeeds, its image has 174930 bytes and `validate_qlay_image`
  -- accepts it, so that `build_qlay_image` returns it.
  pub build-assemble :
      assemble_image crc32 files medium ≡ ok image
      → (length image ≡ qlay_image_size) × (build_qlay_image crc32 files medium ≡ ok image)
  unfolding build_qlay_image
  build-assemble h =
      let (short, parts) = assembled h in
      let (layout, placed, fin) =
        result_bind-ok (place_streams 0 (streams_of files) (start_layout crc32 files medium))
          finish_image parts in
      let v =
        place_streams-IsLayout 0 (streams_of files) (start_layout crc32 files medium) layout
          (start_layout-IsLayout short) placed in
      let (size, valid) = finished layout image v fin in (size, rw (h, valid))
