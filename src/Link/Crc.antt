-- ===== src/Link/Crc.antt =====
-- tools/nanoql_link.py: `crc8`, the check byte of both frame directions.
pub mod Detects
use nano_ql.Base.{ℕ, ◌*◌, bit_and, bit_xor, [], ◌∷◌, ◌==◌, if◌then◌else◌, Bytes}

-- One round of the inner loop.
crc8_bit : ℕ → ℕ
crc8_bit value =
    if bit_and value 0x80 == 0
    then bit_and (value * 2) 0xFF
    else bit_and (bit_xor (value * 2) 0x07) 0xFF

-- `value ^= byte` and the eight rounds.
pub crc8_byte : ℕ → ℕ → ℕ
unfolding crc8_bit
crc8_byte value byte =
    let v0 = bit_xor value byte in
    crc8_bit (crc8_bit (crc8_bit (crc8_bit (crc8_bit (crc8_bit (crc8_bit (crc8_bit v0)))))))

pub crc8_from : ℕ → Bytes → ℕ
crc8_from value [] = value
crc8_from value (byte ∷ rest) = crc8_from (crc8_byte value byte) rest

unfoldable pub crc8 : Bytes → ℕ
unfolding crc8_from crc8_byte
crc8 bytes = crc8_from 0 bytes
