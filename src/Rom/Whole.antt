-- ===== src/Rom/Whole.antt =====
-- The firmware that is read is 2048 bytes, in every format.
use mathlib.Core.Path.{subst}
use nano_ql.Base.{
  ℕ, zero, suc, ◌+◌, ◌-◌, ◌<◌, ◌≡◌, refl, sym, ap, ◌∙◌, ◌⊎◌, inl, inr, Bool, true, false, Option,
  none, some, List, [], ◌∷◌, arith, if◌then◌else◌, Option-cases, length, get_or, set, drop,
  replicate, slice, All, all, length-set, All-take, All-drop, Bytes, IsByte, from_be,
}
use nano_ql.Base.Exec.{ok, ok-injective}
use nano_ql.Link.Memory.{read}
use nano_ql.Rom.{
  is_blank, is_space, is_break, split_at, lstrip, rstrip, digit, two_digits, cons_byte, from_hex,
  Image, store_bytes, apply_record, check_record, read_record, read_line, read_lines, blank_image,
  finish_rom, parse_intel_hex, token_byte, token_bytes, drop_empty, read_pairs, read_ipc_firmware,
}

pub record IsRom (bytes : Bytes) : Type 0 where
  pub size : length bytes ≡ 2048
  pub in_range : All IsByte bytes

digit-lt : (c v : ℕ) → digit c ≡ some v → v < 16
unfolding digit
digit-lt c v h = ground arith

two_digits-IsByte : (c d v : ℕ) → two_digits c d ≡ some v → v < 256
two_digits-IsByte c d v h = elim (Option-cases (digit c)) [
  | inl none_c ↦ absurd (ground arith)
  | inr (x, high) ↦ elim (Option-cases (digit d)) [
    | inl none_d ↦ absurd (ground arith)
    | inr (y, low) ↦ ground (arith, digit-lt c x high, digit-lt d y low)
  ]
]

token_byte-IsByte : (token : Bytes) (v : ℕ) → token_byte token ≡ some v → v < 256
unfolding token_byte
token_byte-IsByte (c ∷ d ∷ []) v h = two_digits-IsByte c d v h
token_byte-IsByte [] v h = cc
token_byte-IsByte (c ∷ []) v h = cc
token_byte-IsByte (c ∷ d ∷ e ∷ rest) v h = cc

-- An image that the records are read into.
pub record IsImage (image : Image) : Type 0 where
  pub rom_size : length image.rom ≡ 2048
  pub rom_range : All IsByte image.rom

All-set : (bytes : Bytes) (i b : ℕ) → All IsByte bytes → b < 256 → All IsByte (set bytes i b)
All-set [] i b g h = g
All-set (x ∷ xs) zero b g h = (h, g.1)
All-set (x ∷ xs) (suc i) b g h = (g.0, All-set xs i b g.1 h)

store_cases :
    (target value : ℕ) (values : Bytes) (image result : Image)
    → store_bytes target (value ∷ values) image ≡ ok result
    → store_bytes
        (target + 1)
        values
        (record image { rom = set image.rom target value; written = set image.written target true })
      ≡ ok result
unfolding store_bytes
store_cases target value values image result h = ground arith

store_bytes-IsImage :
    (target : ℕ) (values : Bytes) (image result : Image)
    → IsImage image
    → All IsByte values
    → store_bytes target values image ≡ ok result
    → IsImage result
unfolding store_bytes
store_bytes-IsImage target [] image result v g h = subst IsImage (ok-injective h) v
store_bytes-IsImage target (value ∷ values) image result v g h =
    store_bytes-IsImage (target + 1) values
      (record image { rom = set image.rom target value; written = set image.written target true })
      result
      (record {
        rom_size = length-set image.rom target value ∙ v.rom_size;
        rom_range = All-set image.rom target value v.rom_range g.0;
      })
      g.1 (store_cases target value values image result h)

-- The bytes of a text that may be none.
abbrev or_empty : Option Bytes → Bytes
or_empty none = []
or_empty (some bytes) = bytes

cons_byte-IsByte :
    (byte : Option ℕ) (tail : Option Bytes)
    → ((v : ℕ) → byte ≡ some v → v < 256)
    → All IsByte (or_empty tail)
    → All IsByte (or_empty (cons_byte byte tail))
cons_byte-IsByte none tail low g = tt
cons_byte-IsByte (some b) none low g = tt
cons_byte-IsByte (some b) (some bytes) low g = (low b refl, g)

if-IsByte :
    (b : Bool) (x y : Option Bytes)
    → All IsByte (or_empty x)
    → All IsByte (or_empty y)
    → All IsByte (or_empty (if b then x else y))
if-IsByte true x y gx gy = gx
if-IsByte false x y gx gy = gy

from_hex-IsByte : (text : Bytes) → All IsByte (or_empty (from_hex text))
unfolding from_hex
from_hex-IsByte [] = tt
from_hex-IsByte (c ∷ []) = if-IsByte (is_blank c) (some []) none tt tt
from_hex-IsByte (c ∷ d ∷ rest) =
    if-IsByte (is_blank c) (from_hex (d ∷ rest)) (cons_byte (two_digits c d) (from_hex rest))
      (from_hex-IsByte (d ∷ rest))
      (cons_byte-IsByte (two_digits c d) (from_hex rest) (two_digits-IsByte c d)
        (from_hex-IsByte rest))

token_bytes-IsByte : (tokens : List Bytes) → All IsByte (or_empty (token_bytes tokens))
unfolding token_bytes
token_bytes-IsByte [] = tt
token_bytes-IsByte (token ∷ tokens) =
    cons_byte-IsByte (token_byte token) (token_bytes tokens) (token_byte-IsByte token)
      (token_bytes-IsByte tokens)

length-token_bytes :
    (tokens : List Bytes) (bytes : Bytes)
    → token_bytes tokens ≡ some bytes
    → length bytes ≡ length tokens
unfolding token_bytes
length-token_bytes [] bytes h = ground arith
length-token_bytes (token ∷ tokens) bytes h =
    ground (arith, length-token_bytes tokens (or_empty (token_bytes tokens)))

apply_cases :
    (bytes : Bytes) (image result : Image)
    → apply_record bytes image ≡ ok result
    → (store_bytes
          (image.upper_address + from_be (slice 1 3 bytes))
          (slice 4 (4 + get_or bytes 0 0) bytes)
          image
        ≡ ok result)
      ⊎ (result.rom ≡ image.rom)
unfolding apply_record
apply_cases bytes image result h = ground arith

apply_record-IsImage :
    (bytes : Bytes) (image result : Image)
    → IsImage image
    → All IsByte bytes
    → apply_record bytes image ≡ ok result
    → IsImage result
apply_record-IsImage bytes image result v g h = elim (apply_cases bytes image result h) [
  | inl wrote ↦
      store_bytes-IsImage (image.upper_address + from_be (slice 1 3 bytes))
        (slice 4 (4 + get_or bytes 0 0) bytes) image result v
        (All-take IsByte (4 + get_or bytes 0 0 - 4) (drop 4 bytes) (All-drop IsByte 4 bytes g))
        wrote
  | inr same ↦ record {
    rom_size = ap length same ∙ v.rom_size;
    rom_range = subst (All IsByte) (sym same) v.rom_range;
  }
]

check_record-ok : (bytes good : Bytes) → check_record bytes ≡ ok good → good ≡ bytes
unfolding check_record
check_record-ok bytes good h = ground arith

record_cases :
    (text : Option Bytes) (image result : Image)
    → read_record text image ≡ ok result
    → apply_record (or_empty text) image ≡ ok result
unfolding read_record
record_cases none image result h = cc
record_cases (some bytes) image result h = ground (arith, check_record-ok bytes)

line_cases :
    (c : ℕ) (cs : Bytes) (image result : Image)
    → read_line (c ∷ cs) image ≡ ok result
    → read_record (from_hex cs) image ≡ ok result
unfolding read_line
line_cases c cs image result h = ground arith

read_line-IsImage :
    (line : Bytes) (image result : Image)
    → IsImage image
    → read_line line image ≡ ok result
    → IsImage result
unfolding read_line
read_line-IsImage [] image result v h = subst IsImage (ok-injective h) v
read_line-IsImage (c ∷ cs) image result v h =
    apply_record-IsImage (or_empty (from_hex cs)) image result v (from_hex-IsByte cs)
      (record_cases (from_hex cs) image result (line_cases c cs image result h))

lines_cases :
    (line : Bytes) (lines : List Bytes) (image result : Image)
    → read_lines (line ∷ lines) image ≡ ok result
    → (next : Image) × (read_line (rstrip is_space (lstrip is_space line)) image ≡ ok next)
      × (read_lines lines next ≡ ok result)
unfolding read_lines
lines_cases line lines image result h = ground arith

read_lines-IsImage :
    (lines : List Bytes) (image result : Image)
    → IsImage image
    → read_lines lines image ≡ ok result
    → IsImage result
unfolding read_lines
read_lines-IsImage [] image result v h = subst IsImage (ok-injective h) v
read_lines-IsImage (line ∷ lines) image result v h =
    let (next, one, rest) = lines_cases line lines image result h in
    read_lines-IsImage lines next result
      (read_line-IsImage (rstrip is_space (lstrip is_space line)) image next v one) rest

All-replicate : (n b : ℕ) → b < 256 → All IsByte (replicate n b)
All-replicate zero b h = tt
All-replicate (suc n) b h = (h, All-replicate n b h)

blank-IsImage : IsImage blank_image
unfolding blank_image
blank-IsImage = record { rom_size = refl; rom_range = All-replicate 2048 0xFF (omega arith) }

hex_cases :
    (raw rom : Bytes)
    → parse_intel_hex raw ≡ ok rom
    → (image : Image) × (read_lines (split_at is_break raw) blank_image ≡ ok image)
      × (image.rom ≡ rom)
unfolding parse_intel_hex finish_rom
hex_cases raw rom h = ground arith

parse_intel_hex-IsRom : (raw rom : Bytes) → parse_intel_hex raw ≡ ok rom → IsRom rom
parse_intel_hex-IsRom raw rom h =
    let (image, read, same) = hex_cases raw rom h in
    let v = read_lines-IsImage (split_at is_break raw) blank_image image blank-IsImage read in
    subst IsRom same (record { size = v.rom_size; in_range = v.rom_range })

pairs_cases :
    (tokens : List Bytes) (rom : Bytes)
    → read_pairs tokens ≡ ok rom
    → (length tokens ≡ 2048) × (token_bytes tokens ≡ some rom)
unfolding read_pairs
pairs_cases tokens rom h = ground arith

read_pairs-IsRom : (tokens : List Bytes) (rom : Bytes) → read_pairs tokens ≡ ok rom → IsRom rom
read_pairs-IsRom tokens rom h =
    let (count, all) = pairs_cases tokens rom h in
    record {
      size = length-token_bytes tokens rom all ∙ count;
      in_range = subst (λ t. All IsByte (or_empty t)) all (token_bytes-IsByte tokens);
    }

firmware_cases :
    (raw rom : Bytes)
    → read_ipc_firmware (some raw) ≡ ok rom
    → (parse_intel_hex raw ≡ ok rom)
      ⊎ ((length raw ≡ 2048) × (raw ≡ rom))
      ⊎ (read_pairs (drop_empty (split_at is_space raw)) ≡ ok rom)
unfolding read_ipc_firmware
firmware_cases raw rom h = ground arith

-- Whatever the format of the file, the firmware that `read_ipc_firmware` returns is 2048 bytes.
pub read_ipc_firmware-IsRom :
    (raw rom : Bytes) → All IsByte raw → read_ipc_firmware (some raw) ≡ ok rom → IsRom rom
read_ipc_firmware-IsRom raw rom g h = elim (firmware_cases raw rom h) [
  | inl hex ↦ parse_intel_hex-IsRom raw rom hex
  | inr (inl (size, same)) ↦ subst IsRom same (record { size = size; in_range = g })
  | inr (inr pairs) ↦ read_pairs-IsRom (drop_empty (split_at is_space raw)) rom pairs
]
