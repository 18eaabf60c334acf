-- ===== src/Card/Unmanaged.antt =====
-- The lines of nanoql.ini that `update_defaults` has nothing to do with.
use mathlib.Core.List.{reverse}
use nano_ql.Base.{
  ◌≡◌, refl, ◌∙◌, Bool, true, false, Option, none, some, List, [], ◌∷◌, arith, if◌then◌else◌, All,
  bytes_eq, lower,
}
use nano_ql.Card.{
  Line, before_equals, key_of, is_managed, replacements, replacement_of, update_loop,
  insert_missing, update_defaults,
}
use nano_ql.Rom.{lstrip, rstrip}

abbrev pub others : List Line → List Line
others [] = []
others (line ∷ lines) = if is_managed line then others lines else line ∷ others lines

-- Every replacement is itself a managed line.
abbrev AreManaged : List (Line × Line) → Type 0
AreManaged = All (λ entry. is_managed entry.1 ≡ true)

-- A replacement, where there is one, is a managed line.
abbrev is_managed_or : Option Line → Bool
is_managed_or none = true
is_managed_or (some line) = is_managed line

replacement_managed :
    (key : Line) (entries : List (Line × Line))
    → AreManaged entries
    → is_managed_or (replacement_of key entries) ≡ true
unfolding replacement_of
replacement_managed key [] g = refl
replacement_managed key ((k, l) ∷ entries) g =
    ground (arith, g.0, replacement_managed key entries g.1)

others-update_loop :
    (entries : List (Line × Line)) (replaced lines : List Line)
    → AreManaged entries
    → others (update_loop entries replaced lines).0 ≡ others lines
unfolding update_loop
others-update_loop entries replaced [] g = refl
others-update_loop entries replaced (line ∷ lines) g = ground (
  arith,
  others-update_loop entries replaced lines g,
  others-update_loop entries (key_of line ∷ replaced) lines g,
  replacement_managed (key_of line) entries g,
)

others-insert_missing :
    (entries : List (Line × Line)) (replaced updated : List Line)
    → AreManaged entries
    → others (insert_missing entries replaced updated) ≡ others updated
unfolding insert_missing
others-insert_missing [] replaced updated g = refl
others-insert_missing ((key, line) ∷ entries) replaced updated g = ground (
  arith,
  g.0,
  others-insert_missing entries replaced (line ∷ updated) g.1,
  others-insert_missing entries replaced updated g.1,
)

forward : (m q i : Bool) → AreManaged (replacements m q i)
unfolding replacements is_managed key_of before_equals lower lstrip rstrip bytes_eq
forward true true true = (refl, (refl, (refl, (refl, tt))))
forward true true false = (refl, (refl, (refl, tt)))
forward true false true = (refl, (refl, (refl, tt)))
forward true false false = (refl, (refl, tt))
forward false true true = (refl, (refl, (refl, tt)))
forward false true false = (refl, (refl, tt))
forward false false true = (refl, (refl, tt))
forward false false false = (refl, tt)

backward : (m q i : Bool) → AreManaged (reverse (replacements m q i))
unfolding replacements is_managed key_of before_equals lower lstrip rstrip bytes_eq
backward true true true = (refl, (refl, (refl, (refl, tt))))
backward true true false = (refl, (refl, (refl, tt)))
backward true false true = (refl, (refl, (refl, tt)))
backward true false false = (refl, (refl, tt))
backward false true true = (refl, (refl, (refl, tt)))
backward false true false = (refl, (refl, tt))
backward false false true = (refl, (refl, tt))
backward false false false = (refl, tt)

-- `update_defaults` keeps the lines of other keys, all of them and in their order, whatever is
-- mounted.
pub others-update_defaults :
    (mount_mdv1 mount_qsound mount_ipc : Bool) (lines : List Line)
    → others (update_defaults mount_mdv1 mount_qsound mount_ipc lines) ≡ others lines
unfolding update_defaults
others-update_defaults mount_mdv1 mount_qsound mount_ipc lines =
    let entries = replacements mount_mdv1 mount_qsound mount_ipc in
    let (updated, replaced) = update_loop entries [] lines in
    others-insert_missing (reverse entries) replaced updated
      (backward mount_mdv1 mount_qsound mount_ipc)
    ∙ others-update_loop entries [] lines (forward mount_mdv1 mount_qsound mount_ipc)
