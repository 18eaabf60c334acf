-- ===== src/Keyboard/Tables.antt =====
-- tools/nanoql_link.py: the key tables. A character is its code point.
use nano_ql.Base.{ℕ, Bool, true, false, List, [], ◌∷◌}

abbrev pub mod_left_ctrl : ℕ
mod_left_ctrl = 0x68

abbrev pub mod_left_shift : ℕ
mod_left_shift = 0x69

abbrev pub mod_left_alt : ℕ
mod_left_alt = 0x6A

-- `QL_USAGE_TO_MATRIX`
unfoldable pub ql_usage_to_matrix : List (ℕ × ℕ)
ql_usage_to_matrix =
    (0x04, 36)
    ∷ (0x05, 20)
    ∷ (0x06, 19)
    ∷ (0x07, 38)
    ∷ (0x08, 52)
    ∷ (0x09, 28)
    ∷ (0x0A, 30)
    ∷ (0x0B, 34)
    ∷ (0x0C, 42)
    ∷ (0x0D, 39)
    ∷ (0x0E, 26)
    ∷ (0x0F, 32)
    ∷ (0x10, 22)
    ∷ (0x11, 62)
    ∷ (0x12, 47)
    ∷ (0x13, 37)
    ∷ (0x14, 51)
    ∷ (0x15, 44)
    ∷ (0x16, 27)
    ∷ (0x17, 54)
    ∷ (0x18, 55)
    ∷ (0x19, 60)
    ∷ (0x1A, 41)
    ∷ (0x1B, 59)
    ∷ (0x1C, 46)
    ∷ (0x1D, 17)
    ∷ (0x1E, 35)
    ∷ (0x1F, 49)
    ∷ (0x20, 33)
    ∷ (0x21, 6)
    ∷ (0x22, 2)
    ∷ (0x23, 50)
    ∷ (0x24, 7)
    ∷ (0x25, 48)
    ∷ (0x26, 40)
    ∷ (0x27, 53)
    ∷ (0x28, 8)
    ∷ (0x29, 11)
    ∷ (0x2B, 43)
    ∷ (0x2C, 14)
    ∷ (0x2D, 45)
    ∷ (0x2E, 29)
    ∷ (0x2F, 24)
    ∷ (0x30, 16)
    ∷ (0x31, 13)
    ∷ (0x32, 21)
    ∷ (0x33, 31)
    ∷ (0x34, 23)
    ∷ (0x36, 63)
    ∷ (0x37, 18)
    ∷ (0x38, 61)
    ∷ (0x39, 25)
    ∷ (0x3A, 1)
    ∷ (0x3B, 3)
    ∷ (0x3C, 4)
    ∷ (0x3D, 0)
    ∷ (0x3E, 5)
    ∷ (0x4F, 12)
    ∷ (0x50, 9)
    ∷ (0x51, 15)
    ∷ (0x52, 10)
    ∷ (0x68, 57)
    ∷ (0x69, 56)
    ∷ (0x6A, 58)
    ∷ (0x6C, 57)
    ∷ (0x6D, 56)
    ∷ (0x6E, 58)
    ∷ []

-- `REMOTE_MENU_USAGES`
unfoldable pub remote_menu_usages : List ℕ
remote_menu_usages = 0x28 ∷ 0x29 ∷ 0x2C ∷ 0x42 ∷ 0x4B ∷ 0x4E ∷ 0x4F ∷ 0x50 ∷ 0x51 ∷ 0x52 ∷ []

-- `ASCII_KEYS`: the usage, and whether the shift key is down.
unfoldable pub ascii_keys : List (ℕ × (ℕ × Bool))
ascii_keys =
    (0x61, (0x04, false))
    ∷ (0x62, (0x05, false))
    ∷ (0x63, (0x06, false))
    ∷ (0x64, (0x07, false))
    ∷ (0x65, (0x08, false))
    ∷ (0x66, (0x09, false))
    ∷ (0x67, (0x0A, false))
    ∷ (0x68, (0x0B, false))
    ∷ (0x69, (0x0C, false))
    ∷ (0x6A, (0x0D, false))
    ∷ (0x6B, (0x0E, false))
    ∷ (0x6C, (0x0F, false))
    ∷ (0x6D, (0x10, false))
    ∷ (0x6E, (0x11, false))
    ∷ (0x6F, (0x12, false))
    ∷ (0x70, (0x13, false))
    ∷ (0x71, (0x14, false))
    ∷ (0x72, (0x15, false))
    ∷ (0x73, (0x16, false))
    ∷ (0x74, (0x17, false))
    ∷ (0x75, (0x18, false))
    ∷ (0x76, (0x19, false))
    ∷ (0x77, (0x1A, false))
    ∷ (0x78, (0x1B, false))
    ∷ (0x79, (0x1C, false))
    ∷ (0x7A, (0x1D, false))
    ∷ (0x31, (0x1E, false))
    ∷ (0x32, (0x1F, false))
    ∷ (0x33, (0x20, false))
    ∷ (0x34, (0x21, false))
    ∷ (0x35, (0x22, false))
    ∷ (0x36, (0x23, false))
    ∷ (0x37, (0x24, false))
    ∷ (0x38, (0x25, false))
    ∷ (0x39, (0x26, false))
    ∷ (0x30, (0x27, false))
    ∷ (0x0A, (0x28, false))
    ∷ (0x0D, (0x28, false))
    ∷ (0x1B, (0x29, false))
    ∷ (0x08, (0x2A, false))
    ∷ (0x09, (0x2B, false))
    ∷ (0x20, (0x2C, false))
    ∷ (0x2D, (0x2D, false))
    ∷ (0x5F, (0x2D, true))
    ∷ (0x3D, (0x2E, false))
    ∷ (0x2B, (0x2E, true))
    ∷ (0x5B, (0x2F, false))
    ∷ (0x7B, (0x2F, true))
    ∷ (0x5D, (0x30, false))
    ∷ (0x7D, (0x30, true))
    ∷ (0x5C, (0x31, false))
    ∷ (0x7C, (0x31, true))
    ∷ (0x3B, (0x33, false))
    ∷ (0x3A, (0x33, true))
    ∷ (0x27, (0x34, false))
    ∷ (0x22, (0x34, true))
    ∷ (0x60, (0x35, false))
    ∷ (0x7E, (0x35, true))
    ∷ (0x2C, (0x36, false))
    ∷ (0x3C, (0x36, true))
    ∷ (0x2E, (0x37, false))
    ∷ (0x3E, (0x37, true))
    ∷ (0x2F, (0x38, false))
    ∷ (0x3F, (0x38, true))
    ∷ (0x21, (0x1E, true))
    ∷ (0x40, (0x1F, true))
    ∷ (0x23, (0x20, true))
    ∷ (0x24, (0x21, true))
    ∷ (0x25, (0x22, true))
    ∷ (0x5E, (0x23, true))
    ∷ (0x26, (0x24, true))
    ∷ (0x2A, (0x25, true))
    ∷ (0x28, (0x26, true))
    ∷ (0x29, (0x27, true))
    ∷ []
