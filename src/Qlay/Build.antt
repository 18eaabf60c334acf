-- ===== src/Qlay/Build.antt =====
-- tools/nanoql_drive.py: `build_qlay_image`.
pub mod Allocate
pub mod Tape
pub mod Keeps
pub mod Valid
pub mod Tests
use mathlib.Core.List.{reverse}
use nano_ql.Base.{
  ℕ, zero, suc, ◌+◌, ◌-◌, ◌*◌, ◌/◌, ◌%◌, bit_and, ◌≡◌, refl, Bool, true, false, ◌||◌, Option, none,
  some, List, [], ◌∷◌, ◌++◌, ltb, leb, ◌==◌, if◌then◌else◌, length, get_elem?, set, take, drop,
  replicate, is_empty, any, Bytes,
}
use nano_ql.Base.Exec.{value_error, Result, ok, err}
use nano_ql.Qlay.Header.{DriveFile, qdos_header, default_length}
use nano_ql.Qlay.Sector.{
  qlay_sector_count, ql_data_size, ql_header_size, free_sector, damaged_sector, map_file, Sector,
  empty_sector, serialize_sector,
}
use nano_ql.Qlay.Validate.{validate_qlay_image}

-- The sectors, the allocation map and the next position.
pub record Layout : Type 0 where
  pub sectors : List Sector
  pub mapping : List (ℕ × ℕ)
  pub current : ℕ

-- `mapping[candidate][0] == FREE_SECTOR`
abbrev pub entry_is_free : Option (ℕ × ℕ) → Bool
entry_is_free none = false
entry_is_free (some (file, block)) = file == free_sector

unfoldable pub is_free : List (ℕ × ℕ) → ℕ → Bool
is_free mapping candidate = entry_is_free (get_elem? mapping candidate)

-- `(candidate - 1) % QLAY_SECTOR_COUNT`
abbrev pub previous_sector : ℕ → ℕ
previous_sector candidate = (candidate + 254) % qlay_sector_count

-- `for _ in range(QLAY_SECTOR_COUNT)`
unfoldable pub allocate_from : ℕ → List (ℕ × ℕ) → ℕ → Result ℕ
allocate_from zero mapping candidate =
    err (value_error "The files do not fit on a single Microdrive image.")
allocate_from (suc n) mapping candidate = elim (is_free mapping candidate) [
  | true ↦ ok candidate
  | false ↦ allocate_from n mapping (previous_sector candidate)
]

unfoldable pub allocate : List (ℕ × ℕ) → ℕ → Result ℕ
allocate mapping after_sector = allocate_from qlay_sector_count mapping after_sector

-- `stream[...].ljust(QL_DATA_SIZE, b"\x00")`
unfoldable pub padded : ℕ → ℕ → Bytes → Bytes
padded n fill bytes = bytes ++ replicate (n - length bytes) fill

abbrev pub write_sector : Sector → ℕ → ℕ → Bytes → Sector
write_sector s file block payload = record s { file = file; block = block; payload = payload }

unfoldable pub update_sector : List Sector → ℕ → ℕ → ℕ → Bytes → List Sector
update_sector [] i file block payload = []
update_sector (s ∷ ss) zero file block payload = write_sector s file block payload ∷ ss
update_sector (s ∷ ss) (suc i) file block payload = s ∷ update_sector ss i file block payload

abbrev pub result_bind {ℓ κ} : {A : Type ℓ} {B : Type κ} → Result A → (A → Result B) → Result B
result_bind (ok a) f = f a
result_bind (err e) f = err e

-- The body of the inner loop.
unfoldable pub place_block : ℕ → ℕ → Bytes → Layout → Result Layout
place_block file_number block chunk layout =
    result_bind (allocate layout.mapping layout.current) λ sector_number.
      let mapping = set layout.mapping sector_number (file_number, block) in
      let sectors =
        update_sector layout.sectors sector_number file_number block
          (padded ql_data_size 0 chunk) in
      result_bind (allocate mapping ((sector_number + 242) % qlay_sector_count))
        λ current. ok (record { sectors = sectors; mapping = mapping; current = current })

abbrev pub block_count : Bytes → ℕ
block_count stream = (length stream + 511) / ql_data_size

-- `for block in range(block_count)`, with the rest of the stream.
unfoldable pub place_blocks : ℕ → ℕ → ℕ → Bytes → Layout → Result Layout
place_blocks zero file_number block stream layout = ok layout
place_blocks (suc n) file_number block stream layout =
    result_bind (place_block file_number block (take ql_data_size stream) layout)
      (place_blocks n file_number (block + 1) (drop ql_data_size stream))

-- `for file_number, stream in enumerate(streams)`
unfoldable pub place_streams : ℕ → List Bytes → Layout → Result Layout
place_streams file_number [] layout = ok layout
place_streams file_number (stream ∷ streams) layout =
    result_bind (place_blocks (block_count stream) file_number 0 stream layout)
      (place_streams (file_number + 1) streams)

abbrev pub first_sectors : Bytes → ℕ → ℕ → ℕ → List Sector
first_sectors medium medium_id zero number = []
first_sectors medium medium_id (suc n) number =
    empty_sector medium medium_id number ∷ first_sectors medium medium_id n (number + 1)

abbrev pub first_mapping : List (ℕ × ℕ)
first_mapping =
    set (set (replicate qlay_sector_count (free_sector, 0)) 0 (map_file, 0)) 254 (damaged_sector, 0)

unfoldable pub first_layout : Bytes → ℕ → Layout
first_layout medium medium_id = record {
  sectors = first_sectors medium medium_id qlay_sector_count 0;
  mapping = first_mapping;
  current = 245;
}

-- The directory stream and a stream for each file.
unfoldable pub file_headers : List DriveFile → List Bytes
file_headers [] = []
file_headers (file ∷ files) = qdos_header file (default_length file) ∷ file_headers files

abbrev pub join : List Bytes → Bytes
join [] = []
join (part ∷ parts) = part ++ join parts

unfoldable pub file_streams : List DriveFile → List Bytes
file_streams [] = []
file_streams (file ∷ files) =
    (qdos_header file (default_length file) ++ file.content) ∷ file_streams files

abbrev pub directory_file : DriveFile
directory_file = record { name = []; content = []; executable = false; data_space = 0 }

unfoldable pub streams_of : List DriveFile → List Bytes
streams_of files =
    (qdos_header directory_file ((length files + 1) * ql_header_size) ++ join (file_headers files))
    ∷ file_streams files

-- `map_data`
unfoldable pub map_entries : List (ℕ × ℕ) → Bytes
map_entries [] = []
map_entries ((file, block) ∷ rest) = file ∷ block ∷ map_entries rest

unfoldable pub map_data : Layout → Bytes
map_data layout = map_entries layout.mapping ++ (1 ∷ layout.current ∷ [])

-- `physical_order`: sector 0, then 254 down to 1.
abbrev pub physical_order : List Sector → List Sector
physical_order [] = []
physical_order (s ∷ ss) = s ∷ reverse ss

unfoldable pub serialize_all : List Sector → Result Bytes
serialize_all [] = ok []
serialize_all (s ∷ ss) =
    result_bind (serialize_sector s)
      λ bytes. result_bind (serialize_all ss) λ rest. ok (bytes ++ rest)

-- The sectors of a layout, in the order of the tape, with the map in sector 0.
unfoldable pub finish_image : Layout → Result Bytes
finish_image layout =
    serialize_all (physical_order (update_sector layout.sectors 0 0x80 0 (map_data layout)))

module _ (crc32 : Bytes → ℕ → ℕ) where
  -- The running checksum over the names and the contents.
  unfoldable pub fingerprint : List DriveFile → ℕ → ℕ
  fingerprint [] value = value
  fingerprint (file ∷ files) value = fingerprint files (crc32 file.content (crc32 file.name value))

  -- `medium_bytes` after `ljust` and `medium_id`.
  unfoldable pub start_layout : List DriveFile → Bytes → Layout
  start_layout files medium =
      let name = padded 10 b' ' medium in
      first_layout name (bit_and (fingerprint files (crc32 name 0)) 0xFFFF)

  -- The image before `validate_qlay_image`.
  unfoldable pub assemble_image : List DriveFile → Bytes → Result Bytes
  assemble_image files medium =
      if is_empty medium || ltb 10 (length medium) || any (λ c. leb 128 c) medium
      then err (value_error "The Microdrive name must contain 1 to 10 ASCII characters.")
      else result_bind (place_streams 0 (streams_of files) (start_layout files medium)) finish_image

  unfoldable pub build_qlay_image : List DriveFile → Bytes → Result Bytes
  build_qlay_image files medium =
      result_bind (assemble_image files medium)
        λ image. result_bind (validate_qlay_image image) λ _. ok image

-- Inversion of a build step that succeeded.
pub result_bind-ok {ℓ κ} :
    {A : Type ℓ} {B : Type κ} (r : Result A) (f : A → Result B) {b : B}
    → result_bind r f ≡ ok b
    → (a : A) × (r ≡ ok a) × (f a ≡ ok b)
result_bind-ok (ok a) f h = (a, refl, h)
result_bind-ok (err e) f h = cc
