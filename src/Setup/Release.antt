-- ===== src/Setup/Release.antt =====
-- tools/nanoql_setup.pyw: `_safe_extract_release`, on a system whose paths are POSIX paths.
-- A member of the archive is what `zipfile` says of it; a disk is the log of the files written to
-- it, by the parts of their paths, the last one first. That the disk refuses a write is not modelled.
pub mod Inside
pub mod Tests
use nano_ql.Base.{
  ℕ, ◌/◌, ◌^◌, bit_and, Bool, true, false, ◌&&◌, ◌||◌, Option, none, some, List, [], ◌∷◌, ◌++◌,
  ◌==◌, not, if◌then◌else◌, codes, is_empty, bytes_eq, starts_with, is_in, Bytes,
}
use nano_ql.Base.Exec.{
  Error, runtime_error, os_error, Result, ok, err, Exec, ◌>>◌, skip, raise_if, try_except,
}
use nano_ql.Qlay.Validate.{member}
use nano_ql.Rom.{split_at}

abbrev pub PathParts : Type 0
PathParts = List Bytes

-- The bytes that are copied, and an error that ends the copy.
pub record Member : Type 0 where
  pub filename : Bytes
  pub external_attr : ℕ
  pub is_dir : Bool
  pub content : Bytes
  pub failure : Option Error

abbrev pub Tree : Type 0
Tree = List (PathParts × Bytes)

abbrev pub path_eq : PathParts → PathParts → Bool
path_eq [] [] = true
path_eq [] (q ∷ qs) = false
path_eq (p ∷ ps) [] = false
path_eq (p ∷ ps) (q ∷ qs) = bytes_eq p q && path_eq ps qs

abbrev pub content_at : Tree → PathParts → Option Bytes
content_at [] path = none
content_at ((other, content) ∷ tree) path =
    if path_eq path other then some content else content_at tree path

-- `member.filename.replace("\\", "/")`
abbrev pub slashes : Bytes → Bytes
slashes [] = []
slashes (c ∷ cs) = (if c == 0x5C then b'/' else c) ∷ slashes cs

abbrev pub real_parts : PathParts → PathParts
real_parts [] = []
real_parts (part ∷ parts) =
    if is_empty part || bytes_eq part (codes ".") then real_parts parts else part ∷ real_parts parts

-- `Path(...).parts` of a path that is not absolute.
unfoldable pub parts_of : Bytes → PathParts
parts_of name = real_parts (split_at (λ c. c == b'/') name)

abbrev pub is_unsafe : Member → Bool
is_unsafe member =
    starts_with (slashes member.filename) (b'/' ∷ [])
    || is_in (codes "..") (parts_of (slashes member.filename))
    || bit_and (member.external_attr / 2 ^ 16) 0xF000 == 0xA000

abbrev pub drop_last : PathParts → PathParts
drop_last [] = []
drop_last (p ∷ []) = []
drop_last (p ∷ q ∷ ps) = p ∷ drop_last (q ∷ ps)

-- `(destination / relative).resolve()`, where the destination is new and holds no link.
unfoldable pub resolve : PathParts → PathParts → PathParts
resolve base [] = base
resolve base (part ∷ parts) =
    resolve (if bytes_eq part (codes "..") then drop_last base else base ++ (part ∷ [])) parts

-- `target.relative_to(destination_root)` does not raise.
abbrev pub is_inside : PathParts → PathParts → Bool
is_inside [] target = true
is_inside (p ∷ ps) [] = false
is_inside (p ∷ ps) (q ∷ qs) = bytes_eq p q && is_inside ps qs

abbrev pub unsafe_path : Error
unsafe_path = runtime_error "The downloaded release archive contains an unsafe path."

abbrev pub end_copy : Option Error → Tree → Result (Unit {0}) × Tree
end_copy none tree = (ok tt, tree)
end_copy (some e) tree = (err e, tree)

module _ (destination : PathParts) where
  -- The body of the loop.
  unfoldable pub extract_member : Member → Exec Tree (Unit {0})
  extract_member member tree =
      let target = resolve destination (parts_of (slashes member.filename)) in
      if is_unsafe member || not (is_inside destination target)
      then (err unsafe_path, tree)
      else if member.is_dir
      then (ok tt, tree)
      else end_copy member.failure ((target, member.content) ∷ tree)

  unfoldable pub extract_members : List Member → Exec Tree (Unit {0})
  extract_members [] = skip
  extract_members (member ∷ members) = extract_member member >> extract_members members

  -- `shutil.rmtree(destination)`
  unfoldable pub remove_tree : Tree → Tree
  remove_tree [] = []
  remove_tree ((path, content) ∷ tree) =
      let rest = remove_tree tree in
      if is_inside destination path then rest else (path, content) ∷ rest

  -- `destination.mkdir(exist_ok=False)` refuses a destination that is there.
  unfoldable pub safe_extract_release : Bool → List Member → Exec Tree (Unit {0})
  safe_extract_release exists members =
      raise_if exists os_error
      >> try_except (extract_members members) (λ _. true) (λ e tree. (err e, remove_tree tree))
