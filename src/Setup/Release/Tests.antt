-- ===== src/Setup/Release/Tests.antt =====
-- An archive with a script and a path that leads out.
use nano_ql.Base.{◌≡◌, refl, false, none, [], ◌∷◌, if◌then◌else◌, codes, bytes_eq, starts_with}
use nano_ql.Base.Exec.{err, is_ok}
use nano_ql.Rom.{split_at}
use nano_ql.Setup.Release.{
  Member, Tree, content_at, parts_of, resolve, is_inside, unsafe_path, extract_member,
  extract_members, remove_tree, safe_extract_release,
}
use nano_ql.Setup.Release.Inside.{safe_extract_release-outside}

abbrev script : Member
script = record {
  filename = codes "tools/a.py";
  external_attr = 0;
  is_dir = false;
  content = 1 ∷ [];
  failure = none;
}

abbrev escape : Member
escape = record {
  filename = codes "../b";
  external_attr = 0;
  is_dir = false;
  content = 2 ∷ [];
  failure = none;
}

abbrev before : Tree
before = (codes "home" ∷ codes "b" ∷ [], 3 ∷ []) ∷ []

refused_archive :
    safe_extract_release (codes "home" ∷ codes "new" ∷ []) false (script ∷ escape ∷ []) before
    ≡ (err unsafe_path, before)
unfolding safe_extract_release extract_members extract_member remove_tree resolve parts_of split_at
    bytes_eq starts_with
refused_archive = refl

safe_extract_release-outside_example :
    let (r, tree') =
      safe_extract_release (codes "home" ∷ codes "new" ∷ []) false (script ∷ escape ∷ []) before in
    content_at tree' (codes "home" ∷ codes "b" ∷ []) ≡ (
      if is_inside (codes "home" ∷ codes "new" ∷ []) (codes "home" ∷ codes "b" ∷ [])
      then if is_ok r then content_at tree' (codes "home" ∷ codes "b" ∷ []) else none
      else content_at before (codes "home" ∷ codes "b" ∷ []))
safe_extract_release-outside_example =
    safe_extract_release-outside (codes "home" ∷ codes "new" ∷ []) (script ∷ escape ∷ []) before
      (codes "home" ∷ codes "b" ∷ [])
