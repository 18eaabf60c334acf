-- ===== src/Qlay/Validate.antt =====
-- tools/nanoql_drive.py: `validate_qlay_image`.
pub mod Laws
use nano_ql.Base.{
  ℕ, zero, suc, ◌+◌, Bool, ◌&&◌, ◌||◌, List, [], ◌∷◌, ltb, ◌==◌, not, if◌then◌else◌, length, get_or,
  take, drop, replicate, slice, any, bytes_eq, Bytes,
}
use nano_ql.Base.Exec.{value_error, Result, ok, err}
use nano_ql.Link.Memory.Board.{stored}
use nano_ql.Qlay.Sector.{qlay_sector_count, qlay_sector_size, qlay_image_size, checksum, sync_mark}

abbrev pub member : ℕ → List ℕ → Bool
member n xs = any (λ x. n == x) xs

-- The tests of one sector; the result is `sector_numbers` behind it.
unfoldable pub check_sector : ℕ → Bytes → List ℕ → Result (List ℕ)
check_sector record_number sector sector_numbers =
    let sector_number = get_or sector 13 0 in
    let usable = get_or sector 12 0 == 0xFF in
    let stored = slice 26 28 sector in
    let zero_map_checksum =
      record_number == 0 && sector_number == 0 && bytes_eq stored (0 ∷ 0 ∷ []) in
    if not (bytes_eq (take 10 sector) (replicate 10 0))
      || not (bytes_eq (slice 10 12 sector) sync_mark)
    then err (value_error "Invalid QLAY sector header preamble.")
    else if usable && member sector_number sector_numbers
    then err (value_error "QLAY image repeats usable physical sector.")
    else if not (bytes_eq stored (checksum (slice 12 26 sector))) && not zero_map_checksum
    then err (value_error "Invalid QLAY sector header checksum.")
    else if not (bytes_eq (slice 28 38 sector) (replicate 10 0))
        || not (bytes_eq (slice 38 40 sector) sync_mark)
    then err (value_error "Invalid QLAY block header preamble.")
    else if not (bytes_eq (slice 42 44 sector) (checksum (slice 40 42 sector)))
    then err (value_error "Invalid QLAY block header checksum.")
    else if not (bytes_eq (slice 44 50 sector) (replicate 6 0))
        || not (bytes_eq (slice 50 52 sector) sync_mark)
    then err (value_error "Invalid QLAY data preamble.")
    else if not (bytes_eq (slice 564 566 sector) (checksum (slice 52 564 sector)))
    then err (value_error "Invalid QLAY data checksum.")
    else ok (if usable then sector_number ∷ sector_numbers else sector_numbers)

-- `for offset in range(0, len(image), QLAY_SECTOR_SIZE)`, with the rest of the image.
unfoldable pub check_sectors : ℕ → ℕ → Bytes → List ℕ → Result (List ℕ)
check_sectors zero record_number image sector_numbers = ok sector_numbers
check_sectors (suc n) record_number image sector_numbers =
    elim (check_sector record_number (take qlay_sector_size image) sector_numbers) [
      | err e ↦ err e
      | ok numbers ↦ check_sectors n (record_number + 1) (drop qlay_sector_size image) numbers
    ]

unfoldable pub validate_qlay_image : Bytes → Result (Unit {0})
validate_qlay_image image =
    if not (length image == qlay_image_size)
    then err (value_error "QLAY image has the wrong size instead of 174930 bytes.")
    else elim (check_sectors qlay_sector_count 0 image []) [
      | err e ↦ err e
      | ok numbers ↦
          if not (member 0 numbers) || ltb (length numbers) 200
          then err (value_error "QLAY image does not contain a usable cartridge map.")
          else ok tt
    ]
