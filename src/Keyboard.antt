-- ===== src/Keyboard.antt =====
-- tools/nanoql_link.py: `key_event`, `tap_key`, `character_key`, `type_character` and `type_text`.
-- Times are milliseconds.
pub mod Tables
pub mod Accents
pub mod Codes
pub mod Tests
use mathlib.Core.List.{reverse}
use nano_ql.Base.{
  ℕ, zero, suc, ◌+◌, max, bit_or, Bool, true, false, ◌&&◌, ◌||◌, Option, none, some, List, [], ◌∷◌,
  str_eq, ltb, leb, ◌==◌, not, if◌then◌else◌, is_empty, any, Bytes,
}
use nano_ql.Base.Exec.{
  Error, value_error, timeout_error, index_error, out_of_rounds, Result, ok, err, is_runtime_error,
  Exec, pure, raise, gets, lift, ◌>>=◌, ◌>>◌, skip, raise_if, when, try_except, try_finally,
}
use nano_ql.Drive.Files.{is_link_response_error}
use nano_ql.Keyboard.Accents.{ql_french_keys, ql_english_extended_keys}
use nano_ql.Keyboard.Tables.{
  mod_left_ctrl, mod_left_shift, ql_usage_to_matrix, remote_menu_usages, ascii_keys,
}
use nano_ql.Link.Status.{keyboard_report_count}
use nano_ql.Link.Transport.{Transport, Link, send, nap}

abbrev pub cmd_key : ℕ
cmd_key = 0x05

abbrev pub key_direct_matrix : ℕ
key_direct_matrix = 0x01

abbrev pub find_key {ℓ} : {A : Type ℓ} → ℕ → List (ℕ × A) → Option A
find_key k [] = none
find_key k ((j, a) ∷ rest) = if j == k then some a else find_key k rest

-- `matrix_contact`
unfoldable pub matrix_contact : ℕ → Option ℕ
unfolding remote_menu_usages ql_usage_to_matrix
matrix_contact usage =
    if any (λ u. usage == u) remote_menu_usages then none else find_key usage ql_usage_to_matrix

-- `event_code if pressed else event_code | 0x80`
abbrev pub event_byte : ℕ → Bool → ℕ
event_byte code pressed = if pressed then code else bit_or code 0x80

unfoldable pub key_request : ℕ → Bool → Bytes
key_request usage pressed = elim (matrix_contact usage) [
  | some contact ↦ cmd_key ∷ key_direct_matrix ∷ event_byte contact pressed ∷ []
  | none ↦ cmd_key ∷ event_byte usage pressed ∷ []
]

-- What the operating system gives: `unicodedata.normalize` with the combining marks removed, and
-- `windows_character_key`.
pub record HostText : Type 0 where
  pub decompose : ℕ → List ℕ
  pub character_key : ℕ → Option (ℕ × List ℕ)

-- The letters that do not decompose.
abbrev pub unaccented : List (ℕ × ℕ)
unaccented =
    (0xF8, b'o')
    ∷ (0xD8, b'O')
    ∷ (0x142, b'l')
    ∷ (0x141, b'L')
    ∷ (0x111, b'd')
    ∷ (0x110, b'D')
    ∷ (0xF0, b'd')
    ∷ (0xD0, b'D')
    ∷ (0xFE, b't')
    ∷ (0xDE, b'T')
    ∷ []

abbrev pub is_upper : ℕ → Bool
is_upper c = leb b'A' c && leb c b'Z'

abbrev pub is_letter : ℕ → Bool
is_letter c = is_upper c || (leb b'a' c && leb c b'z')

-- The readable fallback: one ASCII letter, or the character itself.
unfoldable pub folded : HostText → ℕ → ℕ
folded host character = elim (host.decompose character) [
  | [] ↦ character
  | c ∷ rest ↦
      let plain : ℕ = elim (find_key c unaccented) [ none ↦ c | some letter ↦ letter ] in
      if is_empty rest && is_letter plain then plain else character
]

abbrev pub shift_keys : Bool → List ℕ
shift_keys shifted = if shifted then mod_left_shift ∷ [] else []

-- The part behind the QL tables.
unfoldable pub plain_key : HostText → Bool → ℕ → Result (ℕ × List ℕ)
unfolding ascii_keys
plain_key host uses_host character =
    if is_upper character
    then (elim (find_key (character + 32) ascii_keys) [
      | none ↦ err index_error
      | some (usage, shifted) ↦ ok (usage, mod_left_shift ∷ [])
    ])
    else elim (find_key character ascii_keys) [
      | some (usage, shifted) ↦ ok (usage, shift_keys shifted)
      | none ↦ elim (if uses_host then host.character_key character else none) [
        | some key ↦ ok key
        | none ↦ err (value_error "Unsupported character")
      ]
    ]

unfoldable pub character_key : HostText → Bool → Bool → ℕ → Result (ℕ × List ℕ)
unfolding folded plain_key
character_key host french uses_host character =
    let table = if french then ql_french_keys else ql_english_extended_keys in
    elim (find_key character table) [
      | some key ↦ ok key
      | none ↦ plain_key host uses_host (if french then character else folded host character)
    ]

module _ (t : Transport) where
  -- `except RuntimeError` of `key_event`: one more try after a lost reply.
  pub resend : Bytes → Error → Exec (Link t) (Unit {0})
  resend request e =
      if is_link_response_error e then (do nap t 20; send t request; skip) else raise e

  unfoldable pub key_event : ℕ → Bool → Exec (Link t) (Unit {0})
  unfolding resend
  key_event usage pressed = do
    raise_if (ltb 0x7F usage) (value_error "HID key code is out of range.")
    try_except (do send t (key_request usage pressed); skip) is_runtime_error
        (resend (key_request usage pressed))

  -- `while self.keyboard_report_count() == report_before`
  pub consume_loop : ℕ → ℕ → ℕ → Exec (Link t) (Unit {0})
  consume_loop zero deadline before l = (err out_of_rounds, l)
  consume_loop (suc n) deadline before l = elim (keyboard_report_count t l).0 [
    | err e ↦ (err e, (keyboard_report_count t l).1)
    | ok count ↦ elim (count == before) [
      | false ↦ (ok tt, (keyboard_report_count t l).1)
      | true ↦ elim (leb deadline (t.monotonic (keyboard_report_count t l).1.env)) [
        | true ↦
            (err (timeout_error "QL IPC did not consume a HID key."), (keyboard_report_count t l).1)
        | false ↦ consume_loop n deadline before (nap t 20 (keyboard_report_count t l).1).1
      ]
    ]
  ]

  -- Five seconds of naps of twenty milliseconds, and the last look.
  abbrev pub consume_rounds : ℕ
  consume_rounds = 251

  pub wait_consumed : Bool → ℕ → Exec (Link t) (Unit {0})
  unfolding consume_loop
  wait_consumed false before l = (ok tt, l)
  wait_consumed true before l = consume_loop consume_rounds (t.monotonic l.env + 5000) before l

  pub report_before : Bool → Exec (Link t) ℕ
  report_before false = pure 0
  report_before true = keyboard_report_count t

  unfoldable pub tap_key : ℕ → ℕ → ℕ → Bool → Exec (Link t) (Unit {0})
  unfolding wait_consumed report_before
  tap_key usage hold_time release_time waits = do
    before ← report_before waits
    key_event usage true
    try_finally (do nap t hold_time; wait_consumed waits before) (key_event usage false)
    nap t release_time

  -- `for modifier in modifiers: self.key_event(modifier, pressed)`
  unfoldable pub key_events : List ℕ → Bool → Exec (Link t) (Unit {0})
  key_events [] pressed = skip
  key_events (usage ∷ usages) pressed = do key_event usage pressed; key_events usages pressed

  -- `control_usage`
  abbrev pub control_keys : List (ℕ × ℕ)
  control_keys = (0x0A, 0x28) ∷ (0x0D, 0x28) ∷ (0x1B, 0x29) ∷ (0x09, 0x2B) ∷ []

  unfoldable pub press_character : ℕ → List ℕ → ℕ → ℕ → Bool → ℕ → Exec (Link t) (Unit {0})
  unfolding tap_key key_events
  press_character usage modifiers hold_time release_time waits modifier_release_time = do
    key_events modifiers true
    when (not (is_empty modifiers)) (nap t 8)
    tap_key usage hold_time release_time waits
    when (not (is_empty modifiers)) (nap t 5)
    key_events (reverse modifiers) false
    when (not (is_empty modifiers)) (nap t modifier_release_time)

  -- CTRL+LEFT, which the QL has for Backspace.
  unfoldable pub press_backspace : Exec (Link t) (Unit {0})
  unfolding tap_key
  press_backspace = do
    key_event mod_left_ctrl true
    nap t 80
    tap_key 0x50 150 30 false
    nap t 50
    key_event mod_left_ctrl false
    nap t 30

  module _ (host : HostText) where
    unfoldable pub type_character : ℕ → ℕ → ℕ → Bool → ℕ → Exec (Link t) (Unit {0})
    unfolding press_character press_backspace character_key
    type_character character hold_time release_time waits modifier_release_time =
        elim (find_key character control_keys) [
          | some usage ↦ tap_key usage (max 150 hold_time) (max 120 release_time) waits
          | none ↦ if character == 0x08 then press_backspace else (do
            french ← gets (λ l. str_eq l.ql_layout "fr")
            uses_host ← gets (λ l. str_eq l.keyboard_layout "host")
            (usage, modifiers) ← lift (character_key host french uses_host character)
            press_character usage modifiers hold_time release_time waits modifier_release_time)
        ]

    unfoldable pub type_text : List ℕ → ℕ → ℕ → Bool → ℕ → Exec (Link t) (Unit {0})
    unfolding type_character
    type_text [] hold_time release_time waits modifier_release_time = skip
    type_text (character ∷ value) hold_time release_time waits modifier_release_time = do
      type_character character hold_time release_time waits modifier_release_time
      type_text value hold_time release_time waits modifier_release_time
