-- ===== src/Keyboard/Codes.antt =====
-- The codes that a key request carries.
use nano_ql.Base.{
  ℕ, ◌+◌, ◌<◌, ◌≡◌, refl, Bool, true, false, ◌&&◌, [], ◌∷◌, ◌++◌, ltb, ltb→lt, all_below,
  all_below_at, bytes_eq, bytes_eq→eq,
}
use nano_ql.Keyboard.{matrix_contact, key_request}
use nano_ql.Keyboard.Tables.{ql_usage_to_matrix, remote_menu_usages}
use nano_ql.Link.Frame.{but_last, last_or}

abbrev is_paired : ℕ → Bool
is_paired usage =
    let pressed = key_request usage true in
    let released = key_request usage false in
    ltb (last_or pressed 0) 0x80
    && bytes_eq released (but_last pressed ++ ((last_or pressed 0 + 0x80) ∷ []))

paired_table : all_below 0x80 is_paired ≡ true
unfolding all_below key_request matrix_contact ql_usage_to_matrix remote_menu_usages bytes_eq
paired_table = refl

paired_cases : (a b : Bool) → (a && b) ≡ true → (a ≡ true) × (b ≡ true)
paired_cases true b h = (refl, h)
paired_cases false b h = cc

-- For every usage that `key_event` accepts, the code of a press is below 0x80, and the request of
-- the release is the request of the press with 0x80 added to that code.
pub key_request_codes :
    (usage : ℕ)
    → usage < 0x80
    → (last_or (key_request usage true) 0 < 0x80)
      × (key_request usage false
          ≡ but_last (key_request usage true) ++ ((last_or (key_request usage true) 0 + 0x80) ∷ []))
key_request_codes usage low =
    let pressed = key_request usage true in
    let both =
      paired_cases (ltb (last_or pressed 0) 0x80)
        (bytes_eq (key_request usage false) (but_last pressed ++ ((last_or pressed 0 + 0x80) ∷ [])))
        (all_below_at is_paired 0x80 usage low paired_table) in
    (ltb→lt _ 0x80 both.0, bytes_eq→eq _ _ both.1)
