-- ===== src/Rom.antt =====
-- tools/prepare_ql_ipc_rom.py: `parse_intel_hex` and `read_ipc_firmware`.
-- A file is its bytes, or `none` where the path is no file.
pub mod Whole
pub mod Tests
use nano_ql.Base.{
  ℕ, ◌+◌, ◌-◌, ◌*◌, ◌%◌, ◌^◌, Bool, true, false, ◌&&◌, ◌||◌, Option, none, some, List, [], ◌∷◌, ltb,
  leb, ◌==◌, not, if◌then◌else◌, length, get_or, set, replicate, slice, is_empty, any, starts_with,
  Bytes, from_be,
}
use nano_ql.Base.Exec.{value_error, unicode_error, index_error, Result, ok, err}

-- The white space of `str`, and of `bytes` and `bytes.fromhex`.
abbrev pub is_blank : ℕ → Bool
is_blank c = (leb 0x09 c && leb c 0x0D) || c == 0x20

abbrev pub is_space : ℕ → Bool
is_space c = is_blank c || (leb 0x1C c && leb c 0x1F)

-- Where `str.splitlines` breaks an ASCII text; the empty line inside "\r\n" is skipped later.
abbrev pub is_break : ℕ → Bool
is_break c = (leb 0x0A c && leb c 0x0D) || (leb 0x1C c && leb c 0x1E)

abbrev cut : Bool → ℕ → List Bytes → List Bytes
cut true c lines = [] ∷ lines
cut false c [] = (c ∷ []) ∷ []
cut false c (line ∷ lines) = (c ∷ line) ∷ lines

-- The parts of a text between the characters of a class: `splitlines`, and `split` with the empty
-- parts dropped.
unfoldable pub split_at : (ℕ → Bool) → Bytes → List Bytes
split_at ends [] = [] ∷ []
split_at ends (c ∷ cs) = cut (ends c) c (split_at ends cs)

unfoldable pub lstrip : (ℕ → Bool) → Bytes → Bytes
lstrip space [] = []
lstrip space (c ∷ cs) = let rest = lstrip space cs in if space c then rest else c ∷ cs

unfoldable pub rstrip : (ℕ → Bool) → Bytes → Bytes
rstrip space [] = []
rstrip space (c ∷ cs) =
    let rest = rstrip space cs in if space c && is_empty rest then [] else c ∷ rest

-- The value of a hexadecimal digit.
unfoldable pub digit : ℕ → Option ℕ
digit c =
    if leb b'0' c && leb c b'9'
    then some (c - b'0')
    else if leb b'A' c && leb c b'F'
    then some (c - b'A' + 10)
    else if leb b'a' c && leb c b'f'
    then some (c - b'a' + 10)
    else none

abbrev pub two_digits : ℕ → ℕ → Option ℕ
two_digits c d = elim (digit c) [
  | none ↦ none
  | some high ↦ elim (digit d) [ none ↦ none | some low ↦ some (high * 16 + low) ]
]

abbrev pub cons_byte : Option ℕ → Option Bytes → Option Bytes
cons_byte (some byte) (some bytes) = some (byte ∷ bytes)
cons_byte _ _ = none

-- `bytes.fromhex`: pairs of digits, with white space between the pairs.
unfoldable pub from_hex : Bytes → Option Bytes
from_hex [] = some []
from_hex (c ∷ []) = if is_blank c then some [] else none
from_hex (c ∷ d ∷ rest) =
    let skipped = from_hex (d ∷ rest) in
    let tail = from_hex rest in if is_blank c then skipped else cons_byte (two_digits c d) tail

-- `rom`, `written`, `upper_address` and `eof_seen`.
pub record Image : Type 0 where
  pub rom : Bytes
  pub written : List Bool
  pub upper_address : ℕ
  pub eof_seen : Bool

abbrev pub rom_size : ℕ
rom_size = 2048

-- The loop on the bytes of a data record.
unfoldable pub store_bytes : ℕ → Bytes → Image → Result Image
store_bytes target [] image = ok image
store_bytes target (value ∷ values) image =
    let rest = store_bytes (target + 1) values (record image {
      rom = set image.rom target value;
      written = set image.written target true;
    }) in
    if not (ltb target (length image.rom))
    then err (value_error "IPC data outside 2 KiB ROM")
    else rest

-- A record whose checksum and length are right.
unfoldable pub apply_record : Bytes → Image → Result Image
unfolding store_bytes
apply_record bytes image =
    let count = get_or bytes 0 0 in
    let address = from_be (slice 1 3 bytes) in
    let record_type = get_or bytes 3 0 in
    if record_type == 0
    then store_bytes (image.upper_address + address) (slice 4 (4 + count) bytes) image
    else if record_type == 1
    then ok (record image { eof_seen = true })
    else if record_type == 4
    then if not (count == 2)
      then err (value_error "Invalid extended linear address record")
      else ok (record image { upper_address = from_be (slice 4 6 bytes) * 2 ^ 16 })
    else ok image

abbrev pub total : Bytes → ℕ
total [] = 0
total (b ∷ bs) = b + total bs

unfoldable pub check_record : Bytes → Result Bytes
check_record bytes =
    if not (total bytes % 256 == 0)
    then err (value_error "Intel HEX checksum failure")
    else if is_empty bytes
    then err index_error
    else if not (length bytes == get_or bytes 0 0 + 5)
    then err (value_error "Invalid Intel HEX record length")
    else ok bytes

-- What a line that begins with a colon does, for the bytes behind the colon.
unfoldable pub read_record : Option Bytes → Image → Result Image
unfolding apply_record check_record
read_record none image = err (value_error "non-hexadecimal number found in fromhex() arg")
read_record (some bytes) image = elim (check_record bytes) [
  | err e ↦ err e
  | ok good ↦ apply_record good image
]

-- The body of the loop, for a line without the white space around it.
unfoldable pub read_line : Bytes → Image → Result Image
unfolding read_record from_hex
read_line [] image = ok image
read_line (c ∷ cs) image =
    if not (c == b':')
    then err (value_error "Invalid Intel HEX line")
    else read_record (from_hex cs) image

unfoldable pub read_lines : List Bytes → Image → Result Image
read_lines [] image = ok image
read_lines (line ∷ lines) image = elim (read_line (rstrip is_space (lstrip is_space line)) image) [
  | err e ↦ err e
  | ok image' ↦ read_lines lines image'
]

abbrev pub all_true : List Bool → Bool
all_true [] = true
all_true (b ∷ bs) = b && all_true bs

unfoldable pub blank_image : Image
blank_image = record {
  rom = replicate rom_size 0xFF;
  written = replicate rom_size false;
  upper_address = 0;
  eof_seen = false;
}

-- The tests behind the loop.
unfoldable pub finish_rom : Image → Result Bytes
finish_rom image =
    if not image.eof_seen
    then err (value_error "Intel HEX EOF record is missing")
    else if not (all_true image.written)
    then err (value_error "IPC firmware does not define all 2048 ROM bytes")
    else ok image.rom

abbrev pub is_ascii : Bytes → Bool
is_ascii bytes = not (any (λ c. leb 128 c) bytes)

unfoldable pub parse_intel_hex : Bytes → Result Bytes
unfolding read_lines finish_rom
parse_intel_hex raw =
    if not (is_ascii raw)
    then err unicode_error
    else elim (read_lines (split_at is_break raw) blank_image) [
      | err e ↦ err e
      | ok image ↦ finish_rom image
    ]

-- `int(token, 16)` for a token of two digits.
unfoldable pub token_byte : Bytes → Option ℕ
token_byte (c ∷ d ∷ []) = two_digits c d
token_byte _ = none

unfoldable pub token_bytes : List Bytes → Option Bytes
token_bytes [] = some []
token_bytes (token ∷ tokens) = cons_byte (token_byte token) (token_bytes tokens)

abbrev pub drop_empty : List Bytes → List Bytes
drop_empty [] = []
drop_empty ([] ∷ parts) = drop_empty parts
drop_empty ((c ∷ cs) ∷ parts) = (c ∷ cs) ∷ drop_empty parts

-- A text of 2048 pairs of digits.
unfoldable pub read_pairs : List Bytes → Result Bytes
unfolding token_bytes token_byte
read_pairs tokens =
    if not (length tokens == rom_size)
    then err (value_error "Text IPC firmware must contain exactly 2,048 hexadecimal byte pairs")
    else elim (token_bytes tokens) [
      | none ↦
          err (value_error "Text IPC firmware must contain exactly 2,048 hexadecimal byte pairs")
      | some bytes ↦ ok bytes
    ]

unfoldable pub read_ipc_firmware : Option Bytes → Result Bytes
unfolding parse_intel_hex read_pairs
read_ipc_firmware none = err (value_error "IPC firmware does not exist")
read_ipc_firmware (some raw) =
    if starts_with (lstrip is_blank raw) (b':' ∷ [])
    then parse_intel_hex raw
    else if length raw == rom_size
    then ok raw
    else if not (is_ascii raw)
    then err (value_error "IPC firmware must be raw binary, Intel HEX, or hexadecimal byte pairs")
    else read_pairs (drop_empty (split_at is_space raw))
