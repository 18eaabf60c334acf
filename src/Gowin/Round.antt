-- ===== src/Gowin/Round.antt =====
-- `_decode_gowin_fs` on the texts of Gowin/Print, the header and the newlines included.
use nano_ql.Base.{
  ℕ, ◌/◌, ◌%◌, ◌^◌, ◌<◌, ◌≡◌, refl, ap, ◌∙◌, Bool, true, false, ◌&&◌, some, List, [], ◌∷◌, ◌++◌,
  arith, ltb, leb, ◌==◌, not, codes, length, All, is_empty, any, all, starts_with, find_from, find,
  all-append, Bytes, IsByte,
}
use nano_ql.Base.Exec.{Result, ok, err}
use nano_ql.Gowin.{
  validate_gowin_binary, newlines, search_checksum, join_bits, bytes_of_bits, decode_bits, contains,
  decode_text, decode_gowin_fs,
}
use nano_ql.Gowin.Print.{
  row_bits, print_rows, all_rows, hex_char, hex4, title, device, checksum_line, print_fs,
  length-row_bits, bytes_of_bits-row_bits, is_bit, row_bits-bits, split_line, join_bits-rows,
  search_checksum-print_fs,
}
use nano_ql.Gowin.Valid.{validate_gowin_binary-IsBitstream}
use nano_ql.Qlay.Build.{result_bind}
use nano_ql.Qlay.Build.Tape.{joined}
use nano_ql.Rom.{is_break, split_at, lstrip, rstrip}

abbrev is_plain : ℕ → Bool
is_plain c = ltb c 128 && not (c == 0x0D)

newlines_plain : (text : Bytes) → all is_plain text ≡ true → newlines text ≡ text
unfolding newlines
newlines_plain [] g = refl
newlines_plain (c ∷ []) g = ground arith
newlines_plain (c ∷ d ∷ cs) g =
    let e : (c == 0x0D) ≡ false = ground arith in
    rw e (ap (λ t. c ∷ t) (newlines_plain (d ∷ cs) (ground arith)))

ascii_plain : (text : Bytes) → all is_plain text ≡ true → any (λ c. leb 128 c) text ≡ false
ascii_plain [] g = refl
ascii_plain (c ∷ cs) g = ground (arith, ascii_plain cs (ground arith))

plain_bits : (bits : Bytes) → all is_bit bits ≡ true → all is_plain bits ≡ true
plain_bits [] g = refl
plain_bits (c ∷ cs) g =
    let e : is_plain c ≡ true = ground arith in rw e (plain_bits cs (ground arith))

plain_rows : (rows : List Bytes) → all is_plain (print_rows rows) ≡ true
unfolding print_rows
plain_rows [] = refl
plain_rows (row ∷ rows) =
    all-append is_plain (row_bits row) (0x0A ∷ print_rows rows)
      (plain_bits (row_bits row) (row_bits-bits row)) (plain_rows rows)

plain_hex : (d : ℕ) → d < 16 → is_plain (hex_char d) ≡ true
plain_hex d h = ground arith

plain_checksum : (v : ℕ) → v < 2 ^ 16 → all is_plain (checksum_line v) ≡ true
plain_checksum v h = all-append is_plain (codes "//CheckSum: 0x") (hex4 v) refl (
    ground (
      arith,
      plain_hex (v / 4096) (omega arith),
      plain_hex (v / 256 % 16) (omega arith),
      plain_hex (v / 16 % 16) (omega arith),
      plain_hex (v % 16) (omega arith),
    ))

plain_text : (v : ℕ) (rows : List Bytes) → v < 2 ^ 16 → all is_plain (print_fs v rows) ≡ true
unfolding print_fs
plain_text v rows h =
    all-append is_plain title
      (0x0A ∷ (device ++ 0x0A ∷ (checksum_line v ++ 0x0A ∷ print_rows rows))) refl
      (all-append is_plain device (0x0A ∷ (checksum_line v ++ 0x0A ∷ print_rows rows)) refl (
        all-append is_plain (checksum_line v) (0x0A ∷ print_rows rows) (plain_checksum v h)
          (plain_rows rows)))

contains-title : (rest : Bytes) → contains (title ++ rest) title ≡ true
unfolding find find_from starts_with
contains-title rest = refl

contains-device : (rest : Bytes) → contains (title ++ 0x0A ∷ (device ++ rest)) device ≡ true
unfolding find find_from starts_with
contains-device rest = refl

-- A line that begins with two slashes is left out.
comment_line :
    (cs : Bytes) (lines : List Bytes) → join_bits ((b'/' ∷ b'/' ∷ cs) ∷ lines) ≡ join_bits lines
unfolding join_bits lstrip rstrip starts_with
comment_line cs lines = cases (join_bits lines)
  where
    cases : (r : Result Bytes) → result_bind r (λ rest. ok ([] ++ rest)) ≡ r
    cases (ok a) = refl
    cases (err e) = refl

no_break_hex : (d : ℕ) → d < 16 → is_break (hex_char d) ≡ false
no_break_hex d h = ground arith

no_break_checksum : (v : ℕ) → v < 2 ^ 16 → any is_break (checksum_line v) ≡ false
no_break_checksum v h = ground (
  arith,
  no_break_hex (v / 4096) (omega arith),
  no_break_hex (v / 256 % 16) (omega arith),
  no_break_hex (v / 16 % 16) (omega arith),
  no_break_hex (v % 16) (omega arith),
)

join_bits-print_fs :
    (v : ℕ) (rows : List Bytes)
    → v < 2 ^ 16
    → join_bits (split_at is_break (print_fs v rows)) ≡ ok (row_bits (all_rows rows))
unfolding print_fs
join_bits-print_fs v rows h =
    let third = checksum_line v ++ 0x0A ∷ print_rows rows in
    ap join_bits (split_line title (device ++ 0x0A ∷ third) refl)
    ∙ (comment_line _ (split_at is_break (device ++ 0x0A ∷ third))
        ∙ (ap join_bits (split_line device third refl)
            ∙ (comment_line _ (split_at is_break third)
                ∙ (ap join_bits
                      (split_line (checksum_line v) (print_rows rows) (no_break_checksum v h))
                    ∙ (comment_line _ (split_at is_break (print_rows rows))
                        ∙ join_bits-rows rows)))))

decode_bits-row_bits :
    (v : ℕ) (binary : Bytes)
    → All IsByte binary
    → validate_gowin_binary binary ≡ ok tt
    → decode_bits v (row_bits binary) ≡ ok (binary, v)
unfolding decode_bits
decode_bits-row_bits v binary g valid =
    let size = length-row_bits binary in
    let large = (validate_gowin_binary-IsBitstream binary valid).large in
    let some_bits : is_empty (row_bits binary) ≡ false =
      not_empty (row_bits binary) (omega arith) in
    let whole : (length (row_bits binary) % 8 == 0) ≡ true = ground arith in
    let count : length (row_bits binary) / 8 ≡ length binary = omega arith in
    rw (some_bits, whole)
      (ap
          (λ n.
            let made = bytes_of_bits n (row_bits binary) in
            result_bind (validate_gowin_binary made) λ _. ok (made, v))
          count
        ∙ rw (bytes_of_bits-row_bits binary g, valid) refl)
  where
    not_empty : (bits : Bytes) → 0 < length bits → is_empty bits ≡ false
    not_empty [] p = absurd (omega arith)
    not_empty (c ∷ cs) p = refl

decode_text-parts :
    (text bits : Bytes) (v : ℕ)
    → contains text title ≡ true
    → contains text device ≡ true
    → search_checksum true text ≡ some v
    → join_bits (split_at is_break text) ≡ ok bits
    → decode_text text ≡ decode_bits v bits
unfolding decode_text
decode_text-parts text bits v titled for_device found joined =
    rw (titled, for_device, found) (ap (λ r. result_bind r (decode_bits v)) joined)

-- A bitstream that is written as a .fs text, in lines of any lengths, with the header and a checksum
-- of sixteen bits, is read back by `_decode_gowin_fs` as the same bytes and the same checksum.
pub decode_gowin_fs-print_fs :
    (v : ℕ) (rows : List Bytes)
    → v < 2 ^ 16
    → All IsByte (all_rows rows)
    → validate_gowin_binary (all_rows rows) ≡ ok tt
    → decode_gowin_fs (print_fs v rows) ≡ ok (all_rows rows, v)
unfolding decode_gowin_fs
decode_gowin_fs-print_fs v rows h g valid =
    let text = print_fs v rows in
    let plain = plain_text v rows h in
    rw (ascii_plain text plain) (
      ap decode_text (newlines_plain text plain)
      ∙ (decode_text-parts text (row_bits (all_rows rows)) v (unfold print_fs in contains-title _)
            (unfold print_fs in contains-device _) (search_checksum-print_fs v rows h)
            (join_bits-print_fs v rows h)
          ∙ decode_bits-row_bits v (all_rows rows) g valid))
