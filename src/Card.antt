-- ===== src/Card.antt =====
-- tools/prepare_sd_card.py: `update_defaults`, on the lines of nanoql.ini.
pub mod Unmanaged
pub mod Tests
use mathlib.Core.List.{reverse}
use nano_ql.Base.{
  Bool, true, false, Option, none, some, List, [], ◌∷◌, ◌==◌, not, if◌then◌else◌, codes, bytes_eq,
  lower, is_in, Bytes,
}
use nano_ql.Rom.{is_space, lstrip, rstrip}

abbrev pub Line : Type 0
Line = Bytes

-- `line.partition("=")[0]`
unfoldable pub before_equals : Line → Line
before_equals [] = []
before_equals (c ∷ cs) = let rest = before_equals cs in if c == b'=' then [] else c ∷ rest

unfoldable pub key_of : Line → Line
unfolding before_equals lower
key_of line = lower (rstrip is_space (lstrip is_space (before_equals (lstrip is_space line))))

-- `managed_keys`
abbrev pub managed_keys : List Line
managed_keys = codes "drive0" ∷ codes "drive2" ∷ codes "drive3" ∷ codes "drive4" ∷ []

unfoldable pub is_managed : Line → Bool
is_managed line = is_in (key_of line) managed_keys

abbrev entry_if : Bool → Line × Line → List (Line × Line) → List (Line × Line)
entry_if true entry entries = entry ∷ entries
entry_if false entry entries = entries

-- `replacements`, in the order of insertion.
unfoldable pub replacements : Bool → Bool → Bool → List (Line × Line)
replacements mount_mdv1 mount_qsound mount_ipc =
    (codes "drive0", codes "drive0 = /sd/QL.rom")
    ∷ entry_if mount_mdv1 (codes "drive2", codes "drive2 = /sd/NanoQL/Drive1/MDV1.mdv")
        (entry_if mount_qsound (codes "drive3", codes "drive3 = /sd/QSound.rom")
          (entry_if mount_ipc (codes "drive4", codes "drive4 = /sd/IPC.rom") []))

-- `replacements[key]`
unfoldable pub replacement_of : Line → List (Line × Line) → Option Line
replacement_of key [] = none
replacement_of key ((k, line) ∷ rest) =
    let later = replacement_of key rest in if bytes_eq key k then some line else later

-- The loop on the lines; the result is `updated` and `replaced`.
unfoldable pub update_loop : List (Line × Line) → List Line → List Line → List Line × List Line
update_loop entries replaced [] = ([], replaced)
update_loop entries replaced (line ∷ lines) =
    let kept = update_loop entries replaced lines in
    let swapped = update_loop entries (key_of line ∷ replaced) lines in
    if not (is_managed line)
    then (line ∷ kept.0, kept.1)
    else elim (if is_in (key_of line) replaced
        then none
        else replacement_of (key_of line) entries) [
          | none ↦ kept
          | some new ↦ (new ∷ swapped.0, swapped.1)
        ]

-- The loop on the reversed replacements: `updated.insert(0, replacement)`.
unfoldable pub insert_missing : List (Line × Line) → List Line → List Line → List Line
insert_missing [] replaced updated = updated
insert_missing ((key, line) ∷ entries) replaced updated =
    let with_line = insert_missing entries replaced (line ∷ updated) in
    let without = insert_missing entries replaced updated in
    if is_in key replaced then without else with_line

unfoldable pub update_defaults : Bool → Bool → Bool → List Line → List Line
unfolding update_loop insert_missing replacements
update_defaults mount_mdv1 mount_qsound mount_ipc lines =
    let entries = replacements mount_mdv1 mount_qsound mount_ipc in
    let (updated, replaced) = update_loop entries [] lines in
    insert_missing (reverse entries) replaced updated
