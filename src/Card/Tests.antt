-- ===== src/Card/Tests.antt =====
-- A configuration with a comment and an old setting.
use nano_ql.Base.{◌≡◌, refl, true, false, List, [], ◌∷◌, codes, bytes_eq, lower}
use nano_ql.Card.{
  Line, before_equals, key_of, is_managed, replacements, replacement_of, update_loop,
  insert_missing, update_defaults,
}
use nano_ql.Card.Unmanaged.{others, others-update_defaults}
use nano_ql.Rom.{lstrip, rstrip}

abbrev config : List Line
config = codes "; board" ∷ codes " DRIVE0=old" ∷ codes "sound = on" ∷ []

others-update_defaults_example : others (update_defaults true false true config) ≡ others config
others-update_defaults_example = others-update_defaults true false true config

updated_config :
    update_defaults true false false config
    ≡ codes "drive2 = /sd/NanoQL/Drive1/MDV1.mdv"
      ∷ codes "; board"
      ∷ codes "drive0 = /sd/QL.rom"
      ∷ codes "sound = on"
      ∷ []
unfolding update_defaults update_loop insert_missing replacements replacement_of is_managed key_of
    before_equals lower lstrip rstrip bytes_eq
updated_config = refl
