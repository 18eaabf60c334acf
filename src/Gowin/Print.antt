-- ===== src/Gowin/Print.antt =====
-- A writer of .fs texts, and the parts of `_decode_gowin_fs` on what it writes.
use mathlib.Core.List.{append_assoc}
use nano_ql.Base.{
  ℕ, zero, suc, ◌+◌, ◌-◌, ◌*◌, ◌/◌, ◌%◌, ◌^◌, ◌<◌, ◌≡◌, refl, sym, ap, ◌∙◌, Bool, true, false, ◌||◌,
  some, List, [], ◌∷◌, ◌++◌, arith, ltb, ◌==◌, not, if◌then◌else◌, ==_iff, all_below, all_below_at,
  codes, length, All, any, all, starts_with, all-append, Bytes, IsByte,
}
use nano_ql.Base.Exec.{ok}
use nano_ql.Gowin.{
  hex_digits, hex_value, ends_line, checksum_digits, match_checksum, search_checksum, read_bits,
  join_bits, binary_value, bytes_of_bits,
}
use nano_ql.Rom.{is_space, is_break, split_at, lstrip, rstrip, digit}

-- The digits of a byte, the highest bit first.
abbrev pub bits_of : ℕ → ℕ → Bytes
bits_of zero n = []
bits_of (suc k) n = bits_of k (n / 2) ++ (b'0' + n % 2) ∷ []

-- The bits of a row of bytes.
unfoldable pub row_bits : Bytes → Bytes
row_bits [] = []
row_bits (b ∷ bs) = bits_of 8 b ++ row_bits bs

-- The rows, each on a line of its own.
unfoldable pub print_rows : List Bytes → Bytes
unfolding row_bits
print_rows [] = []
print_rows (row ∷ rows) = row_bits row ++ 0x0A ∷ print_rows rows

abbrev pub all_rows : List Bytes → Bytes
all_rows [] = []
all_rows (row ∷ rows) = row ++ all_rows rows

abbrev pub hex_char : ℕ → ℕ
hex_char d = if ltb d 10 then b'0' + d else b'a' + (d - 10)

abbrev pub hex4 : ℕ → Bytes
hex4 v =
    hex_char (v / 4096) ∷ hex_char (v / 256 % 16) ∷ hex_char (v / 16 % 16) ∷ hex_char (v % 16) ∷ []

abbrev pub title : Bytes
title = codes "//File Title: Bitstream file"

abbrev pub device : Bytes
device = codes "//Device: GW2AR-18"

abbrev pub checksum_line : ℕ → Bytes
checksum_line v = codes "//CheckSum: 0x" ++ hex4 v

-- A .fs text with a checksum of sixteen bits.
unfoldable pub print_fs : ℕ → List Bytes → Bytes
unfolding print_rows
print_fs v rows = title ++ 0x0A ∷ (device ++ 0x0A ∷ (checksum_line v ++ 0x0A ∷ print_rows rows))

bit_value : (b : ℕ) → b < 256 → binary_value 0 (bits_of 8 b) ≡ b
unfolding all_below
bit_value b h =
    (==_iff (binary_value 0 (bits_of 8 b)) b).0
      (all_below_at (λ n. binary_value 0 (bits_of 8 n) == n) 256 b h refl)

pub length-row_bits : (bs : Bytes) → length (row_bits bs) ≡ 8 * length bs
unfolding row_bits
length-row_bits [] = refl
length-row_bits (b ∷ bs) = omega (arith, length-row_bits bs)

pub bytes_of_bits-row_bits :
    (bs : Bytes) → All IsByte bs → bytes_of_bits (length bs) (row_bits bs) ≡ bs
unfolding bytes_of_bits row_bits
bytes_of_bits-row_bits [] g = refl
bytes_of_bits-row_bits (b ∷ bs) g = λ i. bit_value b g.0 i ∷ bytes_of_bits-row_bits bs g.1 i

row_bits-append : (xs ys : Bytes) → row_bits (xs ++ ys) ≡ row_bits xs ++ row_bits ys
unfolding row_bits
row_bits-append [] ys = refl
row_bits-append (x ∷ xs) ys =
    ap (λ t. bits_of 8 x ++ t) (row_bits-append xs ys)
    ∙ sym (append_assoc (bits_of 8 x) (row_bits xs) (row_bits ys))

abbrev pub is_bit : ℕ → Bool
is_bit c = c == b'0' || c == b'1'

bits_of-bits : (k n : ℕ) → all is_bit (bits_of k n) ≡ true
bits_of-bits zero n = refl
bits_of-bits (suc k) n =
    all-append is_bit (bits_of k (n / 2)) ((b'0' + n % 2) ∷ []) (bits_of-bits k (n / 2))
      (ground arith)

pub row_bits-bits : (bs : Bytes) → all is_bit (row_bits bs) ≡ true
unfolding row_bits
row_bits-bits [] = refl
row_bits-bits (b ∷ bs) =
    all-append is_bit (bits_of 8 b) (row_bits bs) (bits_of-bits 8 b) (row_bits-bits bs)

-- The parts at the end of the first line.
pub split_line :
    (line rest : Bytes)
    → any is_break line ≡ false
    → split_at is_break (line ++ 0x0A ∷ rest) ≡ line ∷ split_at is_break rest
unfolding split_at
split_line [] rest h = refl
split_line (c ∷ cs) rest h =
    let e : is_break c ≡ false = ground arith in rw (split_line cs rest (ground arith), e) refl

-- A line of bits has no white space to strip and no other character.
lstrip_bits : (bits : Bytes) → all is_bit bits ≡ true → lstrip is_space bits ≡ bits
unfolding lstrip
lstrip_bits [] g = refl
lstrip_bits (c ∷ cs) g = let e : is_space c ≡ false = ground arith in rw e refl

rstrip_bits : (bits : Bytes) → all is_bit bits ≡ true → rstrip is_space bits ≡ bits
unfolding rstrip
rstrip_bits [] g = refl
rstrip_bits (c ∷ cs) g =
    let e : is_space c ≡ false = ground arith in
    rw e (ap (λ t. c ∷ t) (rstrip_bits cs (ground arith)))

no_break : (bits : Bytes) → all is_bit bits ≡ true → any is_break bits ≡ false
no_break [] g = refl
no_break (c ∷ cs) g = let e : is_break c ≡ false = ground arith in rw e (no_break cs (ground arith))

all_bits : (bits : Bytes) → all is_bit bits ≡ true → any (λ c. not (is_bit c)) bits ≡ false
all_bits [] g = refl
all_bits (c ∷ cs) g = let e : is_bit c ≡ true = ground arith in rw e (all_bits cs (ground arith))

read_bits-bits : (bits : Bytes) → all is_bit bits ≡ true → read_bits bits ≡ ok bits
unfolding starts_with
read_bits-bits [] g = refl
read_bits-bits (c ∷ cs) g =
    let e : (c == b'/') ≡ false = ground arith in rw (e, all_bits (c ∷ cs) g) refl

pub join_bits-rows :
    (rows : List Bytes)
    → join_bits (split_at is_break (print_rows rows)) ≡ ok (row_bits (all_rows rows))
unfolding join_bits print_rows
join_bits-rows [] = unfold split_at lstrip rstrip row_bits in refl
join_bits-rows (row ∷ rows) =
    let bits = row_bits row in
    let g = row_bits-bits row in
    rw
      (
        split_line bits (print_rows rows) (no_break bits g),
        lstrip_bits bits g,
        rstrip_bits bits g,
        read_bits-bits bits g,
        join_bits-rows rows,
      )
      (ap ok (sym (row_bits-append row (all_rows rows))))

hex_char_lem : (d : ℕ) → d < 16 → digit (hex_char d) ≡ some d
unfolding digit
hex_char_lem d h = ground arith

hex_digits_step :
    (c d : ℕ) (cs : Bytes) {ds rest : Bytes}
    → digit c ≡ some d
    → hex_digits cs ≡ (ds, rest)
    → hex_digits (c ∷ cs) ≡ (d ∷ ds, rest)
unfolding hex_digits
hex_digits_step c d cs h e = ground arith

-- The four digits of the checksum.
hex_digits-hex4 :
    (v : ℕ) (rest : Bytes)
    → v < 2 ^ 16
    → hex_digits (hex4 v ++ 0x0A ∷ rest)
      ≡ (v / 4096 ∷ v / 256 % 16 ∷ v / 16 % 16 ∷ v % 16 ∷ [], 0x0A ∷ rest)
unfolding hex_digits
hex_digits-hex4 v rest h =
    let last : hex_digits (0x0A ∷ rest) ≡ ([], 0x0A ∷ rest) = unfold digit in refl in
    hex_digits_step (hex_char (v / 4096)) (v / 4096) _ (hex_char_lem (v / 4096) (omega arith)) (
      hex_digits_step (hex_char (v / 256 % 16)) (v / 256 % 16) _
        (hex_char_lem (v / 256 % 16) (omega arith))
        (hex_digits_step (hex_char (v / 16 % 16)) (v / 16 % 16) _
          (hex_char_lem (v / 16 % 16) (omega arith))
          (hex_digits_step (hex_char (v % 16)) (v % 16) (0x0A ∷ rest)
            (hex_char_lem (v % 16) (omega arith)) last)))

hex_value-digits :
    (v : ℕ) → v < 2 ^ 16 → hex_value 0 (v / 4096 ∷ v / 256 % 16 ∷ v / 16 % 16 ∷ v % 16 ∷ []) ≡ v
hex_value-digits v h = omega arith

match_checksum_line :
    (v : ℕ) (rest : Bytes) → v < 2 ^ 16 → match_checksum (checksum_line v ++ 0x0A ∷ rest) ≡ some v
unfolding match_checksum starts_with lstrip
match_checksum_line v rest h =
    ap checksum_digits (hex_digits-hex4 v rest h)
    ∙ unfold ends_line in ap some (hex_value-digits v h)

search_found :
    (c v : ℕ) (cs : Bytes)
    → match_checksum (c ∷ cs) ≡ some v
    → search_checksum true (c ∷ cs) ≡ some v
unfolding search_checksum
search_found c v cs h = ground arith

search_header :
    (rest : Bytes)
    → search_checksum true (title ++ 0x0A ∷ (device ++ 0x0A ∷ rest)) ≡ search_checksum true rest
unfolding search_checksum match_checksum starts_with
search_header rest = refl

pub search_checksum-print_fs :
    (v : ℕ) (rows : List Bytes) → v < 2 ^ 16 → search_checksum true (print_fs v rows) ≡ some v
unfolding print_fs
search_checksum-print_fs v rows h =
    search_header (checksum_line v ++ 0x0A ∷ print_rows rows)
    ∙ search_found b'/' v _ (match_checksum_line v (print_rows rows) h)
