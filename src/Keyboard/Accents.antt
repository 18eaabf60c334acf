-- ===== src/Keyboard/Accents.antt =====
-- tools/nanoql_link.py: the characters of the French and English QDOS keyboard tables.
use nano_ql.Base.{ℕ, List, [], ◌∷◌}
use nano_ql.Keyboard.Tables.{mod_left_ctrl, mod_left_shift}

abbrev shift : List ℕ
shift = mod_left_shift ∷ []

abbrev ctrl : List ℕ
ctrl = mod_left_ctrl ∷ []

abbrev shift_ctrl : List ℕ
shift_ctrl = mod_left_shift ∷ mod_left_ctrl ∷ []

-- `QL_FRENCH_KEYS`
unfoldable pub ql_french_keys : List (ℕ × (ℕ × List ℕ))
ql_french_keys =
    (0x61, (0x14, []))
    ∷ (0x41, (0x14, shift))
    ∷ (0x71, (0x04, []))
    ∷ (0x51, (0x04, shift))
    ∷ (0x7A, (0x1A, []))
    ∷ (0x5A, (0x1A, shift))
    ∷ (0x77, (0x1D, []))
    ∷ (0x57, (0x1D, shift))
    ∷ (0x6D, (0x33, []))
    ∷ (0x4D, (0x33, shift))
    ∷ (0x2C, (0x10, []))
    ∷ (0x2E, (0x36, []))
    ∷ (0x3B, (0x37, []))
    ∷ (0x3A, (0x37, shift))
    ∷ (0x3C, (0x10, shift))
    ∷ (0x3E, (0x36, shift))
    ∷ (0x27, (0x23, shift))
    ∷ (0x22, (0x1F, shift))
    ∷ (0x40, (0x23, ctrl))
    ∷ (0x5B, (0x26, ctrl))
    ∷ (0x5D, (0x27, ctrl))
    ∷ (0x7B, (0x2D, ctrl))
    ∷ (0x7D, (0x2E, ctrl))
    ∷ (0x5E, (0x35, ctrl))
    ∷ (0x60, (0x38, shift_ctrl))
    ∷ (0x5C, (0x2F, shift))
    ∷ (0x7C, (0x25, ctrl))
    ∷ (0x7E, (0x31, ctrl))
    ∷ (0x5F, (0x2D, shift))
    ∷ (0xE4, (0x29, ctrl))
    ∷ (0xE3, (0x1E, shift_ctrl))
    ∷ (0xE5, (0x34, shift_ctrl))
    ∷ (0xE9, (0x2F, []))
    ∷ (0xF6, (0x21, shift_ctrl))
    ∷ (0xF5, (0x22, shift_ctrl))
    ∷ (0xF8, (0x24, shift_ctrl))
    ∷ (0xFC, (0x34, ctrl))
    ∷ (0xE7, (0x38, []))
    ∷ (0xF1, (0x27, shift_ctrl))
    ∷ (0xE6, (0x25, shift_ctrl))
    ∷ (0x153, (0x2E, shift_ctrl))
    ∷ (0xE1, (0x10, ctrl))
    ∷ (0xE0, (0x34, []))
    ∷ (0xE2, (0x36, ctrl))
    ∷ (0xEB, (0x38, ctrl))
    ∷ (0xE8, (0x30, []))
    ∷ (0xEA, (0x1E, ctrl))
    ∷ (0xEF, (0x26, shift_ctrl))
    ∷ (0xED, (0x20, ctrl))
    ∷ (0xEC, (0x21, ctrl))
    ∷ (0xEE, (0x37, shift_ctrl))
    ∷ (0xF3, (0x2F, shift_ctrl))
    ∷ (0xF2, (0x22, ctrl))
    ∷ (0xF4, (0x1A, shift_ctrl))
    ∷ (0xFA, (0x19, shift_ctrl))
    ∷ (0xF9, (0x31, []))
    ∷ (0xFB, (0x37, ctrl))
    ∷ (0xDF, (0x10, shift_ctrl))
    ∷ (0xC4, (0x1F, shift_ctrl))
    ∷ (0xC3, (0x14, shift_ctrl))
    ∷ (0xC5, (0x05, shift_ctrl))
    ∷ (0xC9, (0x06, shift_ctrl))
    ∷ (0xD6, (0x07, shift_ctrl))
    ∷ (0xD5, (0x08, shift_ctrl))
    ∷ (0xD8, (0x09, shift_ctrl))
    ∷ (0xDC, (0x0A, shift_ctrl))
    ∷ (0xC7, (0x0B, shift_ctrl))
    ∷ (0xD1, (0x0C, shift_ctrl))
    ∷ (0xC6, (0x0D, shift_ctrl))
    ∷ (0x152, (0x0E, shift_ctrl))
    ∷ (0xA7, (0x30, shift))
    ∷ (0xA3, (0x31, shift))
    ∷ (0xB0, (0x24, ctrl))
    ∷ (0x2F, (0x34, shift))
    ∷ (0x3F, (0x38, shift))
    ∷ []

-- `QL_ENGLISH_EXTENDED_KEYS`
unfoldable pub ql_english_extended_keys : List (ℕ × (ℕ × List ℕ))
ql_english_extended_keys =
    (0xA3, (0x32, []))
    ∷ (0xE4, (0x29, ctrl))
    ∷ (0xE3, (0x1E, shift_ctrl))
    ∷ (0xE5, (0x34, shift_ctrl))
    ∷ (0xE9, (0x20, shift_ctrl))
    ∷ (0xF6, (0x21, shift_ctrl))
    ∷ (0xF5, (0x22, shift_ctrl))
    ∷ (0xF8, (0x24, shift_ctrl))
    ∷ (0xFC, (0x34, ctrl))
    ∷ (0xE7, (0x26, shift_ctrl))
    ∷ (0xF1, (0x27, shift_ctrl))
    ∷ (0xE6, (0x25, shift_ctrl))
    ∷ (0x153, (0x2E, shift_ctrl))
    ∷ (0xE1, (0x36, ctrl))
    ∷ (0xE0, (0x2D, ctrl))
    ∷ (0xE2, (0x37, ctrl))
    ∷ (0xEB, (0x38, ctrl))
    ∷ (0xE8, (0x27, ctrl))
    ∷ (0xEA, (0x1E, ctrl))
    ∷ (0xEF, (0x1F, ctrl))
    ∷ (0xED, (0x20, ctrl))
    ∷ (0xEC, (0x21, ctrl))
    ∷ (0xEE, (0x22, ctrl))
    ∷ (0xF3, (0x23, ctrl))
    ∷ (0xF2, (0x24, ctrl))
    ∷ (0xF4, (0x25, ctrl))
    ∷ (0xFA, (0x26, ctrl))
    ∷ (0xF9, (0x33, shift_ctrl))
    ∷ (0xFB, (0x33, ctrl))
    ∷ (0xDF, (0x36, shift_ctrl))
    ∷ (0xC4, (0x1F, shift_ctrl))
    ∷ (0xC3, (0x04, shift_ctrl))
    ∷ (0xC5, (0x05, shift_ctrl))
    ∷ (0xC9, (0x06, shift_ctrl))
    ∷ (0xD6, (0x07, shift_ctrl))
    ∷ (0xD5, (0x08, shift_ctrl))
    ∷ (0xD8, (0x09, shift_ctrl))
    ∷ (0xDC, (0x0A, shift_ctrl))
    ∷ (0xC7, (0x0B, shift_ctrl))
    ∷ (0xD1, (0x0C, shift_ctrl))
    ∷ (0xC6, (0x0D, shift_ctrl))
    ∷ (0x152, (0x0E, shift_ctrl))
    ∷ []
