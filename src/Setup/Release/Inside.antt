-- ===== src/Setup/Release/Inside.antt =====
-- `_safe_extract_release`: the paths inside and outside its destination.
use nano_ql.Base.{
  ◌≡◌, refl, ◌∙◌, inl, inr, Bool, true, false, ◌||◌, Option, none, some, List, [], ◌∷◌, arith, not,
  if◌then◌else◌, Bool-cases, bytes_eq→eq, Bytes,
}
use nano_ql.Base.Exec.{Error, Result, ok, err, bind_result, handle_result, is_ok}
use nano_ql.Qlay.Validate.{member}
use nano_ql.Setup.Release.{
  PathParts, Member, Tree, path_eq, content_at, slashes, parts_of, is_unsafe, resolve, is_inside,
  end_copy, extract_member, extract_members, remove_tree, safe_extract_release,
}

-- A path that is equal to one inside is inside.
inside_same : (d p q : PathParts) → path_eq p q ≡ true → is_inside d p ≡ is_inside d q
inside_same [] p q h = refl
inside_same (a ∷ d) [] [] h = refl
inside_same (a ∷ d) [] (y ∷ q) h = cc h
inside_same (a ∷ d) (x ∷ p) [] h = cc h
inside_same (a ∷ d) (x ∷ p) (y ∷ q) h =
    let same = bytes_eq→eq x y (ground arith) in rw (same, inside_same d p q (ground arith)) refl

module _ (d : PathParts) where
  -- What the loop leaves at a path: an outside path is as it was.
  abbrev IsOutsideKept : Tree → Tree → PathParts → Type 0
  IsOutsideKept tree tree' path =
      (if is_inside d path then none else content_at tree' path)
      ≡ (if is_inside d path then none else content_at tree path)

  extract_member-kept :
      (member : Member) (tree : Tree) (path : PathParts)
      → IsOutsideKept tree (extract_member d member tree).1 path
  unfolding extract_member
  extract_member-kept member tree path =
      let target = resolve d (parts_of (slashes member.filename)) in
      elim (Bool-cases (is_unsafe member || not (is_inside d target))) [
        | inl e ↦ rw e refl
        | inr e ↦ rw e (elim (Bool-cases member.is_dir) [
          | inl folder ↦ rw folder refl
          | inr plain ↦ rw plain (copied target (ground arith) member.failure)
        ])
      ]
    where
      new :
          (target : PathParts) (content : Bytes)
          → is_inside d target ≡ true
          → IsOutsideKept tree ((target, content) ∷ tree) path
      new target content inside = elim (Bool-cases (path_eq path target)) [
        | inl same ↦ rw (inside_same d path target same ∙ inside) refl
        | inr other ↦ rw other refl
      ]

      copied :
          (target : PathParts)
          → is_inside d target ≡ true
          → (failure : Option Error)
          → IsOutsideKept tree (end_copy failure ((target, member.content) ∷ tree)).1 path
      copied target inside none = new target member.content inside
      copied target inside (some e) = new target member.content inside

  extract_members-kept :
      (members : List Member) (tree : Tree) (path : PathParts)
      → IsOutsideKept tree (extract_members d members tree).1 path
  unfolding extract_members
  extract_members-kept [] tree path = refl
  extract_members-kept (member ∷ members) tree path =
      then_kept (extract_member d member tree) (extract_member-kept member tree path)
        (λ t. extract_members-kept members t path)
    where
      then_kept :
          (p : Result (Unit {0}) × Tree)
          → IsOutsideKept tree p.1 path
          → ((t : Tree) → IsOutsideKept t (extract_members d members t).1 path)
          → IsOutsideKept tree (bind_result p (λ _. extract_members d members)).1 path
      then_kept (ok u, t) g ih = ih t ∙ g
      then_kept (err e, t) g ih = g

  content_at-remove_tree :
      (tree : Tree) (path : PathParts)
      → content_at (remove_tree d tree) path
        ≡ (if is_inside d path then none else content_at tree path)
  unfolding remove_tree
  content_at-remove_tree [] path = both (is_inside d path)
    where
      both : (b : Bool) → ◌≡◌ {A = Option Bytes} none (if b then none else none)
      both true = refl
      both false = refl
  content_at-remove_tree ((other, content) ∷ tree) path = elim (Bool-cases (path_eq path other)) [
    | inl same ↦ elim (Bool-cases (is_inside d other)) [
      | inl inside ↦
          let e = inside_same d path other same ∙ inside in
          rw inside (content_at-remove_tree tree path ∙ rw e refl)
      | inr outside ↦ let e = inside_same d path other same ∙ outside in rw (outside, same, e) refl
    ]
    | inr differs ↦ elim (Bool-cases (is_inside d other)) [
      | inl inside ↦ rw (inside, differs) (content_at-remove_tree tree path)
      | inr outside ↦ rw (outside, differs) (content_at-remove_tree tree path)
    ]
  ]

  -- Whatever the archive holds, `_safe_extract_release` into a new destination leaves every file
  -- outside the destination as it was, and if it raises, nothing is left at the destination.
  pub safe_extract_release-outside :
      (members : List Member) (tree : Tree) (path : PathParts)
      → let (r, tree') = safe_extract_release d false members tree in
        content_at tree' path ≡ (
          if is_inside d path
          then if is_ok r then content_at tree' path else none
          else content_at tree path)
  unfolding safe_extract_release
  safe_extract_release-outside members tree path =
      ends (extract_members d members tree) (extract_members-kept members tree path)
    where
      ends :
          (p : Result (Unit {0}) × Tree)
          → IsOutsideKept tree p.1 path
          → let q = handle_result (λ _. true) (λ e t. (err e, remove_tree d t)) p in
            content_at q.1 path ≡ (
              if is_inside d path
              then if is_ok q.0 then content_at q.1 path else none
              else content_at tree path)
      ends (ok u, t) g = elim (Bool-cases (is_inside d path)) [
        | inl inside ↦ rw inside refl
        | inr outside ↦ rw outside (rw outside at g)
      ]
      ends (err e, t) g = content_at-remove_tree t path ∙ g
