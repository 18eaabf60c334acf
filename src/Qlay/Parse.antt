-- ===== src/Qlay/Parse.antt =====
-- tools/nanoql_drive.py: `parse_qlay_image`. Dictionaries are association lists.
pub mod View
pub mod Places
pub mod Streams
pub mod Start
pub mod Collect
pub mod Tape
pub mod Image
pub mod Joined
pub mod Entry
pub mod Round
pub mod Cartridge
use nano_ql.Base.{
  ℕ, zero, suc, ◌+◌, ◌-◌, ◌*◌, ◌/◌, ◌%◌, max, Bool, ◌&&◌, ◌||◌, Option, none, some, List, [], ◌∷◌,
  ◌++◌, ltb, leb, ◌==◌, not, if◌then◌else◌, length, get_or, take, drop, slice, any, Bytes, from_be,
}
use nano_ql.Base.Exec.{value_error, Result, ok, err}
use nano_ql.Qlay.Build.{result_bind}
use nano_ql.Qlay.Header.{DriveFile}
use nano_ql.Qlay.Sector.{
  qlay_sector_count, qlay_sector_size, ql_header_size, free_sector, damaged_sector, map_file,
}
use nano_ql.Qlay.Validate.{validate_qlay_image}

abbrev pub assoc {ℓ} : {A : Type ℓ} → ℕ → List (ℕ × A) → Option A
assoc k [] = none
assoc k ((j, a) ∷ rest) = if j == k then some a else assoc k rest

-- `d[k] = a`
abbrev pub assoc_set {ℓ} : {A : Type ℓ} → ℕ → A → List (ℕ × A) → List (ℕ × A)
assoc_set k a [] = (k, a) ∷ []
assoc_set k a ((j, b) ∷ rest) = if j == k then (k, a) ∷ rest else (j, b) ∷ assoc_set k a rest

abbrev pub Blocks : Type 0
Blocks = List (ℕ × Bytes)

-- `physical_sectors`
unfoldable pub usable_sectors : ℕ → Bytes → List (ℕ × Bytes) → List (ℕ × Bytes)
usable_sectors zero image found = found
usable_sectors (suc n) image found =
    let sector = take qlay_sector_size image in
    let found' =
      if get_or sector 12 0 == 0xFF then assoc_set (get_or sector 13 0) sector found else found in
    usable_sectors n (drop qlay_sector_size image) found'

-- `file_number in (FREE_SECTOR, DAMAGED_SECTOR, MAP_FILE, 0x80)`
unfoldable pub is_no_file : ℕ → Bool
is_no_file file_number =
    file_number == free_sector
    || file_number == damaged_sector
    || file_number == map_file
    || file_number == 0x80

-- The body of the loop that collects `streams`.
unfoldable pub collect_sector : Bytes → ℕ → Bytes → List (ℕ × Blocks) → Result (List (ℕ × Blocks))
unfolding is_no_file
collect_sector allocation_map sector_number sector streams =
    let file_number = get_or allocation_map (sector_number * 2) 0 in
    let block_number = get_or allocation_map (sector_number * 2 + 1) 0 in
    let blocks : Blocks = elim (assoc file_number streams) [ none ↦ [] | some found ↦ found ] in
    if is_no_file file_number
    then ok streams
    else if not (get_or sector 40 0 == file_number) || not (get_or sector 41 0 == block_number)
    then err (value_error "QLAY sector does not match its allocation map.")
    else elim (assoc block_number blocks) [
      | some repeated ↦ err (value_error "QLAY image repeats a block of a file.")
      | none ↦
          ok (assoc_set file_number (assoc_set block_number (slice 52 564 sector) blocks) streams)
    ]

unfoldable pub collect_streams :
    Bytes → List (ℕ × Bytes) → List (ℕ × Blocks) → Result (List (ℕ × Blocks))
unfolding collect_sector
collect_streams allocation_map [] streams = ok streams
collect_streams allocation_map ((number, sector) ∷ rest) streams =
    result_bind (collect_sector allocation_map number sector streams)
      (collect_streams allocation_map rest)

-- `max(blocks)`
abbrev pub last_block : Blocks → ℕ
last_block [] = 0
last_block ((block, bytes) ∷ rest) = max block (last_block rest)

-- The blocks 0 to `last_block`, joined; refused at the first that is missing.
unfoldable pub join_blocks : ℕ → ℕ → Blocks → Result Bytes
join_blocks zero block blocks = ok []
join_blocks (suc n) block blocks = elim (assoc block blocks) [
  | none ↦ err (value_error "QLAY image is missing a block of a file.")
  | some bytes ↦ result_bind (join_blocks n (block + 1) blocks) λ rest. ok (bytes ++ rest)
]

unfoldable pub joined_stream : List (ℕ × Blocks) → ℕ → Result Bytes
unfolding join_blocks
joined_stream streams file_number = elim (assoc file_number streams) [
  | none ↦ err (value_error "QLAY image is missing block zero of a file.")
  | some blocks ↦ elim (assoc 0 blocks) [
    | none ↦ err (value_error "QLAY image is missing block zero of a file.")
    | some bytes ↦ join_blocks (last_block blocks + 1) 0 blocks
  ]
]

-- The tests of one directory entry, on the fields of its header: `none` for an erased one.
unfoldable pub read_entry :
    List (ℕ × Blocks) → ℕ → ℕ → ℕ → Bytes → Bool → ℕ → Result (Option DriveFile)
read_entry streams index total_length name_length name executable data_space =
    if total_length == 0 && name_length == 0
    then ok none
    else if ltb total_length ql_header_size || ltb name_length 1 || ltb 36 name_length
    then err (value_error "QLAY directory entry is invalid.")
    else if any (λ c. leb 128 c) name
    then err (value_error "QLAY directory entry has a non-ASCII name.")
    else result_bind (joined_stream streams (index + 1)) λ stream.
      if ltb (length stream) total_length
      then err (value_error "QLAY file is truncated.")
      else ok (
          some (record {
            name = name;
            content = slice ql_header_size total_length stream;
            executable = executable;
            data_space = data_space;
          }))

unfoldable pub parse_entry : List (ℕ × Blocks) → ℕ → Bytes → Result (Option DriveFile)
unfolding read_entry
parse_entry streams index header =
    let name_length = from_be (slice 14 16 header) in
    read_entry streams index (from_be (slice 0 4 header)) name_length
      (slice 16 (16 + name_length) header) (get_or header 5 0 == 1) (from_be (slice 6 10 header))

abbrev pub keep : Option DriveFile → List DriveFile → List DriveFile
keep none files = files
keep (some file) files = file ∷ files

-- `for index in range(entry_count)`
unfoldable pub parse_entries : ℕ → ℕ → List (ℕ × Blocks) → Bytes → Result (List DriveFile)
unfolding parse_entry
parse_entries zero index streams directory = ok []
parse_entries (suc n) index streams directory =
    let start = (index + 1) * ql_header_size in
    result_bind (parse_entry streams index (slice start (start + ql_header_size) directory))
      λ entry.
        result_bind (parse_entries n (index + 1) streams directory) λ files. ok (keep entry files)

unfoldable pub parse_directory : List (ℕ × Blocks) → Result (List DriveFile)
unfolding joined_stream parse_entries
parse_directory streams = result_bind (joined_stream streams 0) λ directory.
    let directory_length = from_be (slice 0 4 directory) in
    if ltb directory_length ql_header_size || not (directory_length % ql_header_size == 0)
    then err (value_error "QLAY image has an invalid QDOS directory length.")
    else if ltb (length directory) directory_length
    then err (value_error "QLAY image has a truncated QDOS directory.")
    else parse_entries (directory_length / ql_header_size - 1) 0 streams directory

-- What is read from `physical_sectors`.
unfoldable pub parse_sectors : List (ℕ × Bytes) → Result (List DriveFile)
parse_sectors physical_sectors = elim (assoc 0 physical_sectors) [
  | none ↦ err (value_error "QLAY image does not contain a valid sector map.")
  | some map_sector ↦
      if not (get_or map_sector 40 0 == 0x80)
      then err (value_error "QLAY image does not contain a valid sector map.")
      else result_bind (collect_streams (slice 52 564 map_sector) physical_sectors [])
          parse_directory
]

unfoldable pub parse_qlay_image : Bytes → Result (List DriveFile)
unfolding parse_sectors
parse_qlay_image image =
    result_bind (validate_qlay_image image)
      λ _. parse_sectors (usable_sectors qlay_sector_count image [])
