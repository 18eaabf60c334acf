-- ===== src/Qlay/Sector.antt =====
-- tools/nanoql_drive.py: `checksum`, `empty_sector` and `serialize_sector`.
pub mod Laws
use nano_ql.Base.{
  ℕ, zero, suc, ◌+◌, ◌*◌, ◌/◌, ◌%◌, ◌^◌, [], ◌∷◌, ◌++◌, ◌==◌, not, if◌then◌else◌, length, replicate,
  Bytes, to_be,
}
use nano_ql.Base.Exec.{value_error, Result, ok, err}

abbrev pub qlay_sector_count : ℕ
qlay_sector_count = 255

abbrev pub qlay_sector_size : ℕ
qlay_sector_size = 686

abbrev pub qlay_image_size : ℕ
qlay_image_size = qlay_sector_count * qlay_sector_size

abbrev pub ql_data_size : ℕ
ql_data_size = 512

abbrev pub ql_header_size : ℕ
ql_header_size = 64

abbrev pub free_sector : ℕ
free_sector = 0xFD

abbrev pub damaged_sector : ℕ
damaged_sector = 0xFF

abbrev pub map_file : ℕ
map_file = 0xF8

-- The dictionary that stands for a sector.
pub record Sector : Type 0 where
  pub number : ℕ
  pub header_flag : ℕ
  pub medium_name : Bytes
  pub medium_id : ℕ
  pub file : ℕ
  pub block : ℕ
  pub payload : Bytes

-- `sum(data)`
unfoldable pub sum : Bytes → ℕ
sum [] = 0
sum (b ∷ bs) = b + sum bs

-- `value.to_bytes(2, "little")`
abbrev pub little_endian : ℕ → Bytes
little_endian value = (value % 256) ∷ (value / 256 % 256) ∷ []

unfoldable pub checksum : Bytes → Bytes
unfolding sum
checksum bytes = little_endian ((0x0F0F + sum bytes) % 2 ^ 16)

-- `bytes((0xAA, 0x55)) * n`
unfoldable pub calibration : ℕ → Bytes
calibration zero = []
calibration (suc n) = 0xAA ∷ 0x55 ∷ calibration n

unfoldable pub empty_sector : Bytes → ℕ → ℕ → Sector
empty_sector medium_name medium_id sector_number = record {
  number = sector_number;
  header_flag = 0xFF;
  medium_name = medium_name;
  medium_id = medium_id;
  file = free_sector;
  block = 0;
  payload = calibration 256;
}

unfoldable pub header_data : Sector → Bytes
header_data s = (s.header_flag ∷ s.number ∷ []) ++ (s.medium_name ++ to_be 2 s.medium_id)

abbrev pub block_data : Sector → Bytes
block_data s = s.file ∷ s.block ∷ []

unfoldable pub record_tail : Bytes
unfolding calibration
record_tail = calibration 42 ++ (little_endian 0x3B19 ++ replicate 34 b'Z')

abbrev pub sync_mark : Bytes
sync_mark = 0xFF ∷ 0xFF ∷ []

unfoldable pub serialize_sector : Sector → Result Bytes
unfolding header_data record_tail
serialize_sector s =
    if not (length s.payload == ql_data_size)
    then err (value_error "A Microdrive data block must contain 512 bytes.")
    else ok (
        replicate 10 0
        ++ (sync_mark
            ++ (header_data s
                ++ (checksum (header_data s)
                    ++ (replicate 10 0
                        ++ (sync_mark
                            ++ (block_data s
                                ++ (checksum (block_data s)
                                    ++ (replicate 6 0
                                        ++ (sync_mark
                                            ++ (s.payload
                                                ++ (checksum s.payload ++ record_tail))))))))))))
