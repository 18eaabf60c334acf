-- ===== src/Gowin/Tests.antt =====
-- A bitstream of 256 KiB that is blank behind its header.
use mathlib.Core.List.{append-nil}
use nano_ql.Base.{
  ℕ, ◌≤◌, ◌<◌, ◌≡◌, refl, false, ◌&&◌, none, some, [], ◌∷◌, ◌++◌, arith, if◌then◌else◌, codes,
  replicate, All, length-replicate, All-append, All-replicate, bytes_eq, starts_with, find_from,
  find, lower, Bytes, IsByte,
}
use nano_ql.Base.Exec.{ok}
use nano_ql.Gowin.{
  preamble, device_id, validate_gowin_binary, decode_gowin_fs, Files, suffix_of, fs_candidates,
  resolve_fpga_source, checksum_beside, load_gowin_bitstream,
}
use nano_ql.Gowin.Print.{all_rows, print_fs}
use nano_ql.Gowin.Round.{decode_gowin_fs-print_fs}
use nano_ql.Gowin.Valid.{IsBitstream, is_missing, load_gowin_bitstream-IsBitstream}

abbrev front : Bytes
front = preamble ++ (replicate 6 0 ++ device_id)

-- A header and some blank bytes.
blank_front-accepted :
    (n : ℕ) → 262112 ≤ n → n < 2000000 → validate_gowin_binary (front ++ replicate n 0) ≡ ok tt
unfolding validate_gowin_binary starts_with bytes_eq
blank_front-accepted n large small = let size = length-replicate {A = ℕ} n 0 in ground arith

unfoldable blank : ℕ → Bytes
blank n = front ++ replicate n 0

blank-accepted : (n : ℕ) → 262112 ≤ n → n < 2000000 → validate_gowin_binary (blank n) ≡ ok tt
unfolding blank
blank-accepted n large small = blank_front-accepted n large small

blank-All : (n : ℕ) → All IsByte (blank n)
unfolding blank
blank-All n =
    All-append IsByte front (replicate n 0) (omega arith) (All-replicate IsByte n 0 (omega arith))

one_row : (xs : Bytes) → all_rows (xs ∷ []) ≡ xs
one_row xs = append-nil xs

decode_gowin_fs-print_fs_example :
    decode_gowin_fs (print_fs 0x1234 (blank 262112 ∷ []))
    ≡ ok (all_rows (blank 262112 ∷ []), 0x1234)
decode_gowin_fs-print_fs_example =
    decode_gowin_fs-print_fs 0x1234 (blank 262112 ∷ []) (omega arith)
      (rw (one_row (blank 262112)) (blank-All 262112))
      (rw (one_row (blank 262112)) (blank-accepted 262112 (omega arith) (omega arith)))

-- A folder with that file alone.
abbrev files : Files
files name = if bytes_eq name (codes "NanoQL.bin") then some (blank 262112) else none

loaded_blank :
    (b : Bytes)
    → validate_gowin_binary b ≡ ok tt
    → load_gowin_bitstream
        (λ name. if bytes_eq name (codes "NanoQL.bin") then some b else none)
        false
        (codes "NanoQL.bin")
      ≡ ok (b, none)
unfolding load_gowin_bitstream resolve_fpga_source suffix_of lower bytes_eq find find_from
    starts_with checksum_beside fs_candidates
loaded_blank b valid = rw valid refl

load_gowin_bitstream-IsBitstream_example :
    IsBitstream (blank 262112) × ((false && is_missing none) ≡ false)
load_gowin_bitstream-IsBitstream_example =
    load_gowin_bitstream-IsBitstream files false (codes "NanoQL.bin") (blank 262112) none
      (loaded_blank (blank 262112) (blank-accepted 262112 (omega arith) (omega arith)))
