-- ===== src/Qlay/Tests.antt =====
-- Sectors, allocation and a whole image on concrete data.
use nano_ql.Base.{ℕ, zero, suc, ◌<◌, ◌≡◌, refl, ◌≢◌, true, false, List, [], ◌∷◌, arith, replicate}
use nano_ql.Base.Exec.{value_error, ok, err, is_ok}
use nano_ql.Qlay.Build.{Layout, is_free, allocate_from, allocate, place_block}
use nano_ql.Qlay.Build.Allocate.{allocate_iff, place_block_last}
use nano_ql.Qlay.Sector.{free_sector, Sector}
use nano_ql.Qlay.Sector.Laws.{IsWellFormed, sector_bytes}
use nano_ql.Qlay.Validate.{check_sector}
use nano_ql.Qlay.Validate.Laws.{check_sector-serialize}

abbrev sector : Sector
sector = record {
  number = 5;
  header_flag = 0xFF;
  medium_name = replicate 10 b'A';
  medium_id = 0x1234;
  file = 1;
  block = 0;
  payload = replicate 512 0x2A;
}

sector-IsWellFormed : IsWellFormed sector
sector-IsWellFormed = record { name_size = refl; payload_size = refl }

check_sector-serialize_example : check_sector 0 (sector_bytes sector) (4 ∷ []) ≡ ok (5 ∷ 4 ∷ [])
check_sector-serialize_example = check_sector-serialize 0 sector (4 ∷ []) sector-IsWellFormed refl

-- A cartridge on which only sector 0 is free.
abbrev nearly_full : List (ℕ × ℕ)
nearly_full = (free_sector, 0) ∷ []

allocate_iff_example :
    ((i : ℕ) → i < 255 → is_free nearly_full i ≡ true → is_ok (allocate nearly_full 7) ≡ true)
    × ((r : ℕ) → allocate nearly_full 7 ≡ ok r → is_free nearly_full r ≡ true)
allocate_iff_example = allocate_iff nearly_full 7 (omega arith)

abbrev last_layout : Layout
last_layout = record { sectors = []; mapping = nearly_full; current = 7 }

only_zero : (i : ℕ) → i ≢ 0 → is_free nearly_full i ≡ false
unfolding is_free
only_zero zero h = absurd (h refl)
only_zero (suc i) h = refl

found : allocate nearly_full 7 ≡ ok 0
unfolding allocate allocate_from is_free
found = refl

place_block_last_example :
    place_block 3 0 (1 ∷ []) last_layout
    ≡ err (value_error "The files do not fit on a single Microdrive image.")
place_block_last_example =
    place_block_last 3 0 0 (1 ∷ []) last_layout (λ h. absurd (omega arith)) found only_zero
