-- ===== src/Gowin.antt =====
-- tools/nanoql_link.py: `_validate_gowin_binary`, `_decode_gowin_fs`, `load_gowin_bitstream` and
-- `resolve_fpga_source` for a selection that is a file. A folder gives the bytes of its files by
-- name; the search of a release folder is not modelled.
pub mod Print
pub mod Round
pub mod Valid
pub mod Tests
use nano_ql.Base.{
  ℕ, zero, suc, ◌+◌, ◌-◌, ◌*◌, ◌/◌, ◌%◌, Bool, true, false, ◌&&◌, ◌||◌, Option, none, some, List,
  [], ◌∷◌, ◌++◌, ltb, leb, ◌==◌, not, if◌then◌else◌, codes, length, take, drop, replicate, slice,
  is_empty, any, bytes_eq, starts_with, find, lower, is_in, Bytes,
}
use nano_ql.Base.Exec.{value_error, unicode_error, file_not_found, Result, ok, err}
use nano_ql.Qlay.Build.{result_bind}
use nano_ql.Rom.{is_space, is_break, split_at, lstrip, rstrip, digit}

abbrev pub min_size : ℕ
min_size = 256 * 1024

abbrev pub max_size : ℕ
max_size = 2 * 1024 * 1024

-- `GOWIN_PREAMBLE`
abbrev pub preamble : Bytes
preamble = replicate 22 0xFF ++ (0xA5 ∷ 0xC3 ∷ [])

-- `GOWIN_GW2AR18_DEVICE_ID`
abbrev pub device_id : Bytes
device_id = 0x08 ∷ 0x1B ∷ []

unfoldable pub validate_gowin_binary : Bytes → Result (Unit {0})
validate_gowin_binary binary =
    if starts_with binary (codes "BFNP")
    then err (value_error "is a BL616 firmware, not an FPGA bitstream")
    else if not (leb min_size (length binary) && leb (length binary) max_size)
    then err (value_error "is not a valid Tang Nano 20K FPGA bitstream")
    else if not (starts_with binary preamble)
    then err (value_error "is not a Gowin FPGA bitstream (missing preamble)")
    else if not (bytes_eq (slice 30 32 binary) device_id)
    then err (value_error "does not target the Tang Nano 20K GW2AR-18 FPGA")
    else ok tt

-- `read_text(encoding="ascii")` with its universal newlines.
unfoldable pub newlines : Bytes → Bytes
newlines [] = []
newlines (c ∷ []) = (if c == 0x0D then 0x0A else c) ∷ []
newlines (c ∷ d ∷ cs) =
    let rest = newlines (d ∷ cs) in
    if not (c == 0x0D) then c ∷ rest else if d == 0x0A then rest else 0x0A ∷ rest

-- The digits at the front, and what follows them: `([0-9a-fA-F]+)`
unfoldable pub hex_digits : Bytes → List ℕ × Bytes
hex_digits [] = ([], [])
hex_digits (c ∷ cs) = elim (digit c) [
  | none ↦ ([], c ∷ cs)
  | some d ↦ let rest = hex_digits cs in (d ∷ rest.0, rest.1)
]

-- `int(..., 16)`
abbrev pub hex_value : ℕ → List ℕ → ℕ
hex_value acc [] = acc
hex_value acc (d ∷ ds) = hex_value (acc * 16 + d) ds

-- `\s*$`
unfoldable pub ends_line : Bytes → Bool
ends_line [] = true
ends_line (c ∷ cs) = let rest = ends_line cs in c == 0x0A || (is_space c && rest)

abbrev pub checksum_digits : List ℕ × Bytes → Option ℕ
checksum_digits ([], rest) = none
checksum_digits (d ∷ ds, rest) = if ends_line rest then some (hex_value 0 (d ∷ ds)) else none

-- The pattern of the checksum line, at one position.
unfoldable pub match_checksum : Bytes → Option ℕ
match_checksum text =
    let value = lstrip is_space (drop 11 text) in
    if starts_with text (codes "//CheckSum:") && starts_with value (codes "0x")
    then checksum_digits (hex_digits (drop 2 value))
    else none

-- `re.search` with `re.MULTILINE`: at the beginning of each line.
unfoldable pub search_checksum : Bool → Bytes → Option ℕ
search_checksum at_start [] = none
search_checksum at_start (c ∷ cs) = elim (if at_start then match_checksum (c ∷ cs) else none) [
  | some value ↦ some value
  | none ↦ search_checksum (c == 0x0A) cs
]

-- A line of the loop, without the white space around it.
abbrev pub read_bits : Bytes → Result Bytes
read_bits stripped =
    if is_empty stripped || starts_with stripped (codes "//")
    then ok []
    else if any (λ c. not (c == b'0' || c == b'1')) stripped
    then err (value_error "Invalid Gowin bitstream data")
    else ok stripped

-- `"".join(chunks)`
unfoldable pub join_bits : List Bytes → Result Bytes
join_bits [] = ok []
join_bits (line ∷ lines) =
    result_bind (read_bits (rstrip is_space (lstrip is_space line)))
      λ bits. result_bind (join_bits lines) λ rest. ok (bits ++ rest)

-- `int(bits[index : index + 8], 2)`
abbrev pub binary_value : ℕ → Bytes → ℕ
binary_value acc [] = acc
binary_value acc (c ∷ cs) = binary_value (acc * 2 + (c - b'0')) cs

-- `range(0, len(bits), 8)`, for as many bytes.
unfoldable pub bytes_of_bits : ℕ → Bytes → Bytes
bytes_of_bits zero bits = []
bytes_of_bits (suc n) bits = binary_value 0 (take 8 bits) ∷ bytes_of_bits n (drop 8 bits)

-- What follows the header of the text.
unfoldable pub decode_bits : ℕ → Bytes → Result (Bytes × ℕ)
decode_bits check_value bits =
    let binary = bytes_of_bits (length bits / 8) bits in
    if is_empty bits || not (length bits % 8 == 0)
    then err (value_error "The Gowin data is incomplete.")
    else result_bind (validate_gowin_binary binary) λ _. ok (binary, check_value)

abbrev pub contains : Bytes → Bytes → Bool
contains text part = elim (find text part) [ none ↦ false | some i ↦ true ]

-- The text, with its newlines as they are read.
unfoldable pub decode_text : Bytes → Result (Bytes × ℕ)
unfolding join_bits decode_bits
decode_text text =
    if not (contains text (codes "//File Title: Bitstream file"))
      || not (contains text (codes "//Device: GW2AR-18"))
    then err (value_error "is not a Tang Nano 20K Gowin .fs file.")
    else elim (search_checksum true text) [
      | none ↦ err (value_error "No Gowin CheckSum was found")
      | some check_value ↦
          result_bind (join_bits (split_at is_break text)) (decode_bits check_value)
    ]

unfoldable pub decode_gowin_fs : Bytes → Result (Bytes × ℕ)
decode_gowin_fs raw =
    if any (λ c. leb 128 c) raw then err unicode_error else decode_text (newlines raw)

-- The files of a folder, by name.
abbrev pub Files : Type 0
Files = Bytes → Option Bytes

abbrev pub last_index : ℕ → Bytes → Option ℕ
last_index c [] = none
last_index c (x ∷ xs) = elim (last_index c xs) [
  | some i ↦ some (i + 1)
  | none ↦ if x == c then some 0 else none
]

-- `path.suffix`
unfoldable pub suffix_of : Bytes → Bytes
suffix_of name = elim (last_index b'.' name) [
  | none ↦ []
  | some i ↦ if ltb 0 i && ltb i (length name - 1) then drop i name else []
]

-- `path.with_suffix(".fs")`
abbrev pub with_fs : Bytes → Bytes
with_fs name = take (length name - length (suffix_of name)) name ++ codes ".fs"

-- `fs_candidates`
unfoldable pub fs_candidates : Bytes → List Bytes
unfolding suffix_of
fs_candidates name =
    with_fs name
    ∷ (if leb 14 (length name) && bytes_eq (drop (length name - 14) name) (codes "-FPGA-SRAM.bin")
        then (take (length name - 14) name ++ codes "-FPGA.fs") ∷ []
        else [])

-- A selection that is a file, or nothing.
unfoldable pub resolve_fpga_source : Files → Bytes → Result Bytes
unfolding suffix_of
resolve_fpga_source files name = elim (files name) [
  | none ↦ err file_not_found
  | some raw ↦
      if contains (lower name) (codes "bl616")
      then err (value_error "is BL616 firmware, not an FPGA bitstream.")
      else if not (is_in (lower (suffix_of name)) (codes ".fs" ∷ codes ".bin" ∷ []))
      then err (value_error "Select a NanoQL release folder or a Gowin .fs/.bin file.")
      else ok raw
]

-- The loop over `fs_candidates`.
unfoldable pub checksum_beside : Files → List Bytes → Result (Option ℕ)
unfolding decode_gowin_fs
checksum_beside files [] = ok none
checksum_beside files (name ∷ names) = elim (files name) [
  | none ↦ checksum_beside files names
  | some raw ↦ result_bind (decode_gowin_fs raw) λ decoded. ok (some decoded.1)
]

abbrev pub require : Bool → Option ℕ → Bytes → Result (Bytes × Option ℕ)
require true none binary = err file_not_found
require require_checksum check_value binary = ok (binary, check_value)

unfoldable pub load_gowin_bitstream : Files → Bool → Bytes → Result (Bytes × Option ℕ)
unfolding resolve_fpga_source checksum_beside decode_gowin_fs
load_gowin_bitstream files require_checksum name =
    result_bind (resolve_fpga_source files name) λ raw.
      if bytes_eq (lower (suffix_of name)) (codes ".fs")
      then (result_bind (decode_gowin_fs raw) λ decoded. ok (decoded.0, some decoded.1))
      else result_bind (validate_gowin_binary raw) λ _.
        result_bind (checksum_beside files (fs_candidates name))
          λ check_value. require require_checksum check_value raw
