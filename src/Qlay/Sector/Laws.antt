-- ===== src/Qlay/Sector/Laws.antt =====
-- The layout of a serialized sector: its parts stand where `validate_qlay_image` and
-- `parse_qlay_image` look for them.
use nano_ql.Base.{
  ◌≡◌, refl, sym, ap, ◌∙◌, [], ◌++◌, arith, length, get_or, take, drop, replicate, slice,
  length-append, take-append, drop-append, drop-add, get_or-drop, Bytes, to_be, length-to_be,
}
use nano_ql.Base.Exec.{ok, ok_or}
use nano_ql.Qlay.Sector.{
  qlay_sector_size, Sector, checksum, calibration, header_data, block_data, record_tail, sync_mark,
  serialize_sector,
}

-- A sector whose parts have the sizes of the format.
pub record IsWellFormed (s : Sector) : Type 0 where
  pub name_size : length s.medium_name ≡ 10
  pub payload_size : length s.payload ≡ 512

-- The serialized bytes of a well-formed sector.
unfoldable pub sector_bytes : Sector → Bytes
unfolding serialize_sector
sector_bytes s = ok_or [] (serialize_sector s)

pub serialize_sector-ok : (s : Sector) → IsWellFormed s → serialize_sector s ≡ ok (sector_bytes s)
unfolding sector_bytes
serialize_sector-ok s w = ground arith

length-header_data : (s : Sector) → IsWellFormed s → length (header_data s) ≡ 14
unfolding header_data
length-header_data s w =
    omega (arith, length-append s.medium_name (to_be 2 s.medium_id), length-to_be 2 s.medium_id)

length-checksum : (bytes : Bytes) → length (checksum bytes) ≡ 2
unfolding checksum
length-checksum bytes = refl

-- The bytes from the block header on.
abbrev from_block : Sector → Bytes
from_block s =
    block_data s
    ++ (checksum (block_data s)
        ++ (replicate 6 0 ++ (sync_mark ++ (s.payload ++ (checksum s.payload ++ record_tail)))))

abbrev from_header : Sector → Bytes
from_header s =
    header_data s ++ (checksum (header_data s) ++ (replicate 10 0 ++ (sync_mark ++ from_block s)))

sector_bytes_parts :
    (s : Sector) → IsWellFormed s → sector_bytes s ≡ replicate 10 0 ++ (sync_mark ++ from_header s)
unfolding sector_bytes
sector_bytes_parts s w = ground arith

-- What stands behind the first bytes of a sector.
module _ (s : Sector) (w : IsWellFormed s) where
  drop_12 : drop 12 (sector_bytes s) ≡ from_header s
  drop_12 = rw (sector_bytes_parts s w)

  drop_26 : drop 26 (sector_bytes s) ≡ drop 14 (from_header s)
  drop_26 = drop-add 12 14 (sector_bytes s) ∙ ap (drop 14) drop_12

  drop_26_parts :
      drop 26 (sector_bytes s)
      ≡ checksum (header_data s) ++ (replicate 10 0 ++ (sync_mark ++ from_block s))
  drop_26_parts =
      drop_26
      ∙ drop-append 14 (header_data s)
          (checksum (header_data s) ++ (replicate 10 0 ++ (sync_mark ++ from_block s)))
          (sym (length-header_data s w))

  drop_28 : drop 28 (sector_bytes s) ≡ replicate 10 0 ++ (sync_mark ++ from_block s)
  unfolding checksum
  drop_28 = drop-add 26 2 (sector_bytes s) ∙ ap (drop 2) drop_26_parts

  drop_40 : drop 40 (sector_bytes s) ≡ from_block s
  drop_40 = drop-add 28 12 (sector_bytes s) ∙ ap (drop 12) drop_28

  drop_44 :
      drop 44 (sector_bytes s)
      ≡ replicate 6 0 ++ (sync_mark ++ (s.payload ++ (checksum s.payload ++ record_tail)))
  unfolding checksum
  drop_44 = drop-add 40 4 (sector_bytes s) ∙ ap (drop 4) drop_40

  drop_52 : drop 52 (sector_bytes s) ≡ s.payload ++ (checksum s.payload ++ record_tail)
  drop_52 = drop-add 44 8 (sector_bytes s) ∙ ap (drop 8) drop_44

  drop_564 : drop 564 (sector_bytes s) ≡ checksum s.payload ++ record_tail
  drop_564 =
      drop-add 52 512 (sector_bytes s)
      ∙ (ap (drop 512) drop_52
          ∙ drop-append 512 s.payload (checksum s.payload ++ record_tail) (sym w.payload_size))

  pub slice-preamble : take 10 (sector_bytes s) ≡ replicate 10 0
  slice-preamble = rw (sector_bytes_parts s w)

  pub slice-mark : slice 10 12 (sector_bytes s) ≡ sync_mark
  slice-mark = rw (sector_bytes_parts s w)

  pub slice-header : slice 12 26 (sector_bytes s) ≡ header_data s
  slice-header =
      ap (take 14) drop_12
      ∙ take-append 14 (header_data s)
          (checksum (header_data s) ++ (replicate 10 0 ++ (sync_mark ++ from_block s)))
          (sym (length-header_data s w))

  pub slice-header_checksum : slice 26 28 (sector_bytes s) ≡ checksum (header_data s)
  unfolding checksum
  slice-header_checksum = ap (take 2) drop_26_parts

  pub slice-block_preamble : slice 28 38 (sector_bytes s) ≡ replicate 10 0
  slice-block_preamble = ap (take 10) drop_28

  pub slice-block_mark : slice 38 40 (sector_bytes s) ≡ sync_mark
  slice-block_mark = ap (take 2) (drop-add 28 10 (sector_bytes s) ∙ ap (drop 10) drop_28)

  pub slice-block : slice 40 42 (sector_bytes s) ≡ block_data s
  slice-block = ap (take 2) drop_40

  pub slice-block_checksum : slice 42 44 (sector_bytes s) ≡ checksum (block_data s)
  unfolding checksum
  slice-block_checksum = ap (take 2) (drop-add 40 2 (sector_bytes s) ∙ ap (drop 2) drop_40)

  pub slice-data_preamble : slice 44 50 (sector_bytes s) ≡ replicate 6 0
  slice-data_preamble = ap (take 6) drop_44

  pub slice-data_mark : slice 50 52 (sector_bytes s) ≡ sync_mark
  slice-data_mark = ap (take 2) (drop-add 44 6 (sector_bytes s) ∙ ap (drop 6) drop_44)

  pub slice-payload : slice 52 564 (sector_bytes s) ≡ s.payload
  slice-payload =
      ap (take 512) drop_52
      ∙ take-append 512 s.payload (checksum s.payload ++ record_tail) (sym w.payload_size)

  pub slice-payload_checksum : slice 564 566 (sector_bytes s) ≡ checksum s.payload
  unfolding checksum
  slice-payload_checksum = ap (take 2) drop_564

  pub get_or-header_flag : get_or (sector_bytes s) 12 0 ≡ s.header_flag
  unfolding header_data
  get_or-header_flag = rw (sector_bytes_parts s w)

  pub get_or-number : get_or (sector_bytes s) 13 0 ≡ s.number
  unfolding header_data
  get_or-number = rw (sector_bytes_parts s w)

  pub get_or-file : get_or (sector_bytes s) 40 0 ≡ s.file
  get_or-file = get_or-drop 40 0 (sector_bytes s) 0 ∙ ap (λ x. get_or x 0 0) drop_40

  pub get_or-block : get_or (sector_bytes s) 41 0 ≡ s.block
  get_or-block = get_or-drop 40 1 (sector_bytes s) 0 ∙ ap (λ x. get_or x 1 0) drop_40

  -- A serialized sector has 686 bytes.
  pub length-sector_bytes : length (sector_bytes s) ≡ qlay_sector_size
  unfolding checksum record_tail
  length-sector_bytes = rw (sector_bytes_parts s w) (
      omega (
        arith,
        length-append (header_data s)
            (checksum (header_data s) ++ (replicate 10 0 ++ (sync_mark ++ from_block s))),
        length-append s.payload (checksum s.payload ++ record_tail),
        length-header_data s w,
        w.payload_size,
      ))

pub length-calibration : length (calibration 256) ≡ 512
unfolding calibration
length-calibration = refl
