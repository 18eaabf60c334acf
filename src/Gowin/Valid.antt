-- ===== src/Gowin/Valid.antt =====
-- `load_gowin_bitstream`: the form of a bitstream.
use mathlib.Core.Path.{subst}
use nano_ql.Base.{
  ℕ, ◌/◌, ◌≤◌, ◌≡◌, refl, sym, ap, inl, inr, Bool, true, false, ◌&&◌, Option, none, some, [], ◌∷◌,
  ◌++◌, arith, Bool-cases, Option-cases, codes, length, take, drop, replicate, slice, bytes_eq,
  bytes_eq→eq, starts_with, lower, Bytes,
}
use nano_ql.Base.Exec.{ok, ok-injective}
use nano_ql.Gowin.{
  preamble, device_id, validate_gowin_binary, newlines, search_checksum, join_bits, bytes_of_bits,
  decode_bits, decode_text, decode_gowin_fs, Files, suffix_of, fs_candidates, resolve_fpga_source,
  checksum_beside, require, load_gowin_bitstream,
}
use nano_ql.Qlay.Build.{result_bind, result_bind-ok}
use nano_ql.Qlay.Build.Tape.{joined}
use nano_ql.Rom.{is_break, split_at}
use nano_ql.Setup.Update.{required}

-- The size, the preamble, and the device GW2AR-18.
pub record IsBitstream (binary : Bytes) : Type 0 where
  pub large : 262144 ≤ length binary
  pub small : length binary ≤ 2097152
  pub begins : take 24 binary ≡ replicate 22 0xFF ++ (0xA5 ∷ 0xC3 ∷ [])
  pub device : take 2 (drop 30 binary) ≡ 0x08 ∷ 0x1B ∷ []

starts_with-take :
    (start binary : Bytes) → starts_with binary start ≡ true → take (length start) binary ≡ start
unfolding starts_with
starts_with-take [] binary h = refl
starts_with-take (p ∷ ps) [] h = cc
starts_with-take (p ∷ ps) (x ∷ xs) h = ground (arith, starts_with-take ps xs)

pub validate_gowin_binary-IsBitstream :
    (binary : Bytes) → validate_gowin_binary binary ≡ ok tt → IsBitstream binary
unfolding validate_gowin_binary
validate_gowin_binary-IsBitstream binary h = record {
  large = ground arith;
  small = ground arith;
  begins = starts_with-take preamble binary (ground arith);
  device = bytes_eq→eq (slice 30 32 binary) device_id (ground arith);
}

decode_bits-IsBitstream :
    (value : ℕ) (bits binary : Bytes) (check_value : ℕ)
    → decode_bits value bits ≡ ok (binary, check_value)
    → IsBitstream binary
unfolding decode_bits
decode_bits-IsBitstream value bits binary check_value h =
    let made = bytes_of_bits (length bits / 8) bits in
    let checked : result_bind {B = Bytes × ℕ} (validate_gowin_binary made) (λ _. ok (made, value))
        ≡ ok (binary, check_value) =
      ground arith in
    let (t, valid, same) = result_bind-ok (validate_gowin_binary made) _ checked in
    subst IsBitstream (ap (λ p. p.0) (ok-injective same))
      (validate_gowin_binary-IsBitstream made valid)

decode_gowin_fs-IsBitstream :
    (raw binary : Bytes) (check_value : ℕ)
    → decode_gowin_fs raw ≡ ok (binary, check_value)
    → IsBitstream binary
unfolding decode_gowin_fs decode_text
decode_gowin_fs-IsBitstream raw binary check_value h =
    elim (Option-cases (search_checksum true (newlines raw))) [
      | inl none_found ↦ absurd (ground arith)
      | inr (value, found) ↦
          let (bits, joined, decoded) =
            result_bind-ok (join_bits (split_at is_break (newlines raw))) (decode_bits value)
              (ground arith) in
          decode_bits-IsBitstream value bits binary check_value decoded
    ]

abbrev pub is_missing : Option ℕ → Bool
is_missing none = true
is_missing (some value) = false

require-ok :
    (require_checksum : Bool) (found check_value : Option ℕ) (raw binary : Bytes)
    → require require_checksum found raw ≡ ok (binary, check_value)
    → (raw ≡ binary) × ((require_checksum && is_missing check_value) ≡ false)
require-ok true none check_value raw binary h = cc h
require-ok true (some value) check_value raw binary h =
    let same = ok-injective h in (ap (λ p. p.0) same, ap (λ p. is_missing p.1) (sym same))
require-ok false none check_value raw binary h = (ap (λ p. p.0) (ok-injective h), refl)
require-ok false (some value) check_value raw binary h = (ap (λ p. p.0) (ok-injective h), refl)

-- Whatever file is selected and whatever lies beside it, the bytes that `load_gowin_bitstream`
-- returns have the size, the preamble and the device of a bitstream for the GW2AR-18, and a
-- checksum comes with them if one is required.
pub load_gowin_bitstream-IsBitstream :
    (files : Files) (require_checksum : Bool) (name binary : Bytes) (check_value : Option ℕ)
    → load_gowin_bitstream files require_checksum name ≡ ok (binary, check_value)
    → IsBitstream binary × ((require_checksum && is_missing check_value) ≡ false)
unfolding load_gowin_bitstream
load_gowin_bitstream-IsBitstream files require_checksum name binary check_value h =
    let (raw, resolved, h1) = result_bind-ok (resolve_fpga_source files name) _ h in
    elim (Bool-cases (bytes_eq (lower (suffix_of name)) (codes ".fs"))) [
      | inl text ↦
          let ((made, value), decoded, same) =
            result_bind-ok {B = Bytes × Option ℕ} (decode_gowin_fs raw)
              (λ decoded. ok (decoded.0, some decoded.1)) {b = (binary, check_value)}
              (ground arith) in
          let pair = ok-injective same in
          (
            subst IsBitstream (ap (λ p. p.0) pair)
                (decode_gowin_fs-IsBitstream raw made value decoded),
            ground (arith, ap (λ p. p.1) pair),
          )
      | inr plain ↦
          let (t, valid, h2) =
            result_bind-ok (validate_gowin_binary raw)
              (λ _.
                result_bind (checksum_beside files (fs_candidates name))
                  λ check_value. require require_checksum check_value raw)
              (ground arith) in
          let (found, beside, required) =
            result_bind-ok (checksum_beside files (fs_candidates name)) _ h2 in
          let (same, there) = require-ok require_checksum found check_value raw binary required in
          (subst IsBitstream same (validate_gowin_binary-IsBitstream raw valid), there)
    ]
