-- ===== src/Link/Crc/Detects.antt =====
-- `crc8` notices every change of a single byte.
-- The register update is undone by running the shifts backwards: each value is reached once.
use nano_ql.Base.{
  ℕ, ◌/◌, ◌<◌, bit_and, bit_or, bit_xor, ◌≡◌, refl, sym, ap, ◌∙◌, ◌≢◌, true, [], ◌∷◌, ◌++◌, arith,
  ltb, ◌==◌, if◌then◌else◌, ltb→lt, ==_iff, all_below, all_below_at, All, Bytes, IsByte,
}
use nano_ql.Link.Crc.{crc8_byte, crc8_from, crc8}

uncrc8_bit : ℕ → ℕ
uncrc8_bit value = if bit_and value 1 == 0 then value / 2 else bit_or 0x80 (bit_xor value 0x07 / 2)

uncrc8_byte : ℕ → ℕ
unfolding uncrc8_bit
uncrc8_byte v0 =
    uncrc8_bit
      (uncrc8_bit (uncrc8_bit (uncrc8_bit (uncrc8_bit (uncrc8_bit (uncrc8_bit (uncrc8_bit v0)))))))

crc8_byte_table :
    all_below 256 (λ v. all_below 256 (λ b. bit_xor v (uncrc8_byte (crc8_byte v b)) == b)) ≡ true
unfolding all_below crc8_byte uncrc8_byte
crc8_byte_table = refl

crc8_byte-lt_table : all_below 256 (λ v. all_below 256 (λ b. ltb (crc8_byte v b) 256)) ≡ true
unfolding all_below crc8_byte
crc8_byte-lt_table = refl

crc8_byte_inv : (v b : ℕ) → v < 256 → b < 256 → bit_xor v (uncrc8_byte (crc8_byte v b)) ≡ b
crc8_byte_inv v b hv hb =
    (==_iff _ b).0 (all_below_at _ 256 b hb (all_below_at _ 256 v hv crc8_byte_table))

crc8_byte-lt : (v b : ℕ) → v < 256 → b < 256 → crc8_byte v b < 256
crc8_byte-lt v b hv hb =
    ltb→lt _ 256 (all_below_at _ 256 b hb (all_below_at _ 256 v hv crc8_byte-lt_table))

-- With equal registers, different bytes leave different registers.
crc8_byte_injective :
    (v a b : ℕ) → v < 256 → a < 256 → b < 256 → crc8_byte v a ≡ crc8_byte v b → a ≡ b
crc8_byte_injective v a b hv ha hb e =
    sym (crc8_byte_inv v a hv ha)
    ∙ (ap (λ t. bit_xor v (uncrc8_byte t)) e ∙ crc8_byte_inv v b hv hb)

register_table :
    all_below 256 (λ v. all_below 256 (λ b. bit_xor b (uncrc8_byte (crc8_byte v b)) == v)) ≡ true
unfolding all_below crc8_byte uncrc8_byte
register_table = refl

register_inv : (v b : ℕ) → v < 256 → b < 256 → bit_xor b (uncrc8_byte (crc8_byte v b)) ≡ v
register_inv v b hv hb =
    (==_iff _ v).0 (all_below_at _ 256 b hb (all_below_at _ 256 v hv register_table))

crc8_from_injective :
    (v w : ℕ) (ys : Bytes)
    → v < 256
    → w < 256
    → All IsByte ys
    → crc8_from v ys ≡ crc8_from w ys
    → v ≡ w
unfolding crc8_from
crc8_from_injective v w [] hv hw h e = e
crc8_from_injective v w (y ∷ ys) hv hw h e =
    let same =
      crc8_from_injective (crc8_byte v y) (crc8_byte w y) ys (crc8_byte-lt v y hv h.0)
        (crc8_byte-lt w y hw h.0) h.1 e in
    sym (register_inv v y hv h.0)
    ∙ (ap (λ t. bit_xor y (uncrc8_byte t)) same ∙ register_inv w y hw h.0)

one_byte_from :
    (v a b : ℕ) (xs ys : Bytes)
    → v < 256
    → a < 256
    → b < 256
    → All IsByte xs
    → All IsByte ys
    → crc8_from v (xs ++ (a ∷ ys)) ≡ crc8_from v (xs ++ (b ∷ ys))
    → a ≡ b
unfolding crc8_from
one_byte_from v a b [] ys hv ha hb hx hy e = crc8_byte_injective v a b hv ha hb (
    crc8_from_injective (crc8_byte v a) (crc8_byte v b) ys (crc8_byte-lt v a hv ha)
      (crc8_byte-lt v b hv hb) hy e)
one_byte_from v a b (x ∷ xs) ys hv ha hb hx hy e =
    one_byte_from (crc8_byte v x) a b xs ys (crc8_byte-lt v x hv hx.0) ha hb hx.1 hy e

-- Two texts of bytes that differ in exactly one byte have different check bytes.
pub crc8_detects :
    (xs : Bytes) (a b : ℕ) (ys : Bytes)
    → All IsByte xs
    → a < 256
    → b < 256
    → All IsByte ys
    → a ≢ b
    → crc8 (xs ++ (a ∷ ys)) ≢ crc8 (xs ++ (b ∷ ys))
unfolding crc8
crc8_detects xs a b ys hx ha hb hy differ e =
    differ (one_byte_from 0 a b xs ys (omega arith) ha hb hx hy e)

crc8_from-lt : (v : ℕ) (xs : Bytes) → v < 256 → All IsByte xs → crc8_from v xs < 256
unfolding crc8_from
crc8_from-lt v [] hv hx = hv
crc8_from-lt v (x ∷ xs) hv hx = crc8_from-lt (crc8_byte v x) xs (crc8_byte-lt v x hv hx.0) hx.1

-- The check byte of a text of bytes is a byte.
pub crc8-lt : (xs : Bytes) → All IsByte xs → crc8 xs < 256
unfolding crc8
crc8-lt xs hx = crc8_from-lt 0 xs (omega arith) hx
