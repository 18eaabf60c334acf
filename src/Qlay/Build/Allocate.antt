-- ===== src/Qlay/Build/Allocate.antt =====
-- `allocate` returns a free sector whenever there is one, and `place_block` needs one to spare.
use nano_ql.Base.{
  ℕ, zero, suc, ◌+◌, ◌-◌, ◌%◌, ◌<◌, ◌≡◌, refl, ◌≢◌, inl, inr, true, false, List, [], ◌∷◌, arith,
  Bool-cases, set, Bytes,
}
use nano_ql.Base.Exec.{value_error, ok, err, is_ok}
use nano_ql.Card.Unmanaged.{others}
use nano_ql.Qlay.Build.{Layout, is_free, previous_sector, allocate_from, allocate, place_block}
use nano_ql.Qlay.Sector.{free_sector}

allocate_from-is_free :
    (n : ℕ) (mapping : List (ℕ × ℕ)) (candidate r : ℕ)
    → allocate_from n mapping candidate ≡ ok r
    → is_free mapping r ≡ true
unfolding allocate_from
allocate_from-is_free zero mapping candidate r h = cc
allocate_from-is_free (suc n) mapping candidate r h =
    ground (arith, allocate_from-is_free n mapping (previous_sector candidate) r)

allocate_from_finds :
    (n : ℕ) (mapping : List (ℕ × ℕ)) (candidate i : ℕ)
    → candidate < 255
    → i < 255
    → (candidate + 255 - i) % 255 < n
    → is_free mapping i ≡ true
    → is_ok (allocate_from n mapping candidate) ≡ true
unfolding allocate_from
allocate_from_finds zero mapping candidate i c-in i-in near free = absurd (omega arith)
allocate_from_finds (suc n) mapping candidate i c-in i-in near free =
    elim (Bool-cases (is_free mapping candidate)) [
      | inl e ↦ ground arith
      | inr e ↦
          let differ : candidate ≢ i = λ same. cc (e, free, same) in
          ground (
            arith,
            allocate_from_finds n mapping (previous_sector candidate) i (omega arith) i-in
                (omega arith) free,
          )
    ]

pub allocate-is_free :
    (mapping : List (ℕ × ℕ)) (after_sector r : ℕ)
    → allocate mapping after_sector ≡ ok r
    → is_free mapping r ≡ true
unfolding allocate
allocate-is_free mapping after_sector r = allocate_from-is_free 255 mapping after_sector r

-- From a sector number of the image, `allocate` succeeds exactly when some sector of the image is
-- free, and then it returns a free sector.
pub allocate_iff :
    (mapping : List (ℕ × ℕ)) (after_sector : ℕ)
    → after_sector < 255
    → ((i : ℕ) → i < 255 → is_free mapping i ≡ true → is_ok (allocate mapping after_sector) ≡ true)
      × ((r : ℕ) → allocate mapping after_sector ≡ ok r → is_free mapping r ≡ true)
unfolding allocate
allocate_iff mapping after_sector inside = (
  λ i i-in free. allocate_from_finds 255 mapping after_sector i inside i-in (omega arith) free,
  λ r. allocate_from-is_free 255 mapping after_sector r,
)

allocate_from_full :
    (n : ℕ) (mapping : List (ℕ × ℕ)) (candidate : ℕ)
    → ((i : ℕ) → is_free mapping i ≡ false)
    → allocate_from n mapping candidate
      ≡ err (value_error "The files do not fit on a single Microdrive image.")
unfolding allocate_from
allocate_from_full zero mapping candidate full = refl
allocate_from_full (suc n) mapping candidate full =
    ground (arith, full candidate, allocate_from_full n mapping (previous_sector candidate) full)

is_free-set :
    (mapping : List (ℕ × ℕ)) (r i file block : ℕ)
    → file ≢ free_sector
    → (i ≢ r → is_free mapping i ≡ false)
    → is_free (set mapping r (file, block)) i ≡ false
unfolding is_free
is_free-set [] r i file block used others = refl
is_free-set (e ∷ es) zero zero file block used others = ground arith
is_free-set (e ∷ es) zero (suc i) file block used others = others (λ h. absurd (omega arith))
is_free-set (e ∷ es) (suc r) zero file block used others = others (λ h. absurd (omega arith))
is_free-set (e ∷ es) (suc r) (suc i) file block used others =
    is_free-set es r i file block used (λ ne. others (λ h. ne (omega arith)))

-- Placing a block into the last free sector is refused, although the block fits: `place_block`
-- already looks for the position of a next block.
pub place_block_last :
    (file_number block r : ℕ) (chunk : Bytes) (layout : Layout)
    → file_number ≢ free_sector
    → allocate layout.mapping layout.current ≡ ok r
    → ((i : ℕ) → i ≢ r → is_free layout.mapping i ≡ false)
    → place_block file_number block chunk layout
      ≡ err (value_error "The files do not fit on a single Microdrive image.")
unfolding place_block
place_block_last file_number block r chunk layout used found last =
    let full =
      allocate_from_full 255 (set layout.mapping r (file_number, block)) ((r + 242) % 255)
        (λ i. is_free-set layout.mapping r i file_number block used (last i)) in
    rw found (unfold allocate in rw full)
