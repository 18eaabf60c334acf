-- ===== src/Rom/Tests.antt =====
-- A firmware as a text of pairs of digits.
use nano_ql.Base.{
  ℕ, zero, suc, ◌≡◌, refl, some, [], ◌∷◌, arith, replicate, All, starts_with, Bytes, IsByte,
}
use nano_ql.Base.Exec.{ok}
use nano_ql.Rom.{split_at, lstrip, digit, token_byte, token_bytes, read_pairs, read_ipc_firmware}
use nano_ql.Rom.Whole.{IsRom, read_ipc_firmware-IsRom}

unfoldable pairs : ℕ → Bytes
pairs zero = []
pairs (suc n) = b'a' ∷ b'5' ∷ 0x0A ∷ pairs n

pairs-IsByte : (n : ℕ) → All IsByte (pairs n)
unfolding pairs
pairs-IsByte zero = tt
pairs-IsByte (suc n) = (omega arith, (omega arith, (omega arith, pairs-IsByte n)))

accepted_pairs : read_ipc_firmware (some (pairs 2048)) ≡ ok (replicate 2048 0xA5)
unfolding read_ipc_firmware lstrip starts_with split_at read_pairs token_bytes token_byte digit
    pairs
accepted_pairs = refl

read_ipc_firmware-IsRom_example : IsRom (replicate 2048 0xA5)
read_ipc_firmware-IsRom_example =
    read_ipc_firmware-IsRom (pairs 2048) (replicate 2048 0xA5) (pairs-IsByte 2048) accepted_pairs
