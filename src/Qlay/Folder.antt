-- ===== src/Qlay/Folder.antt =====
-- tools/nanoql_drive.py: `qdos_name` and `collect_drive_files`.
-- What `rglob` finds is a list of entries; `str.lower` on any text is a parameter.
pub mod Laws
pub mod Tests
use nano_ql.Base.{
  ℕ, Bool, true, false, ◌&&◌, ◌||◌, Option, none, some, List, [], ◌∷◌, ltb, leb, ◌==◌, not,
  if◌then◌else◌, length, is_empty, any, bytes_eq, lower, is_in, Bytes,
}
use nano_ql.Base.Exec.{value_error, Result, ok, err}
use nano_ql.Card.Unmanaged.{others}
use nano_ql.Qlay.Build.{result_bind}
use nano_ql.Qlay.Header.{DriveFile, drive_file}

-- A path, as its POSIX text, the text relative to the folder, the resolved path, and what
-- `is_file` and `read_bytes` give.
pub record FolderEntry : Type 0 where
  pub posix : Bytes
  pub relative : Bytes
  pub resolved : Bytes
  pub is_file : Bool
  pub content : Result Bytes

-- `.replace("/", "_").replace(".", "_")`
abbrev pub underscores : Bytes → Bytes
underscores [] = []
underscores (c ∷ cs) = (if c == b'/' || c == b'.' then b'_' else c) ∷ underscores cs

abbrev pub is_unprintable : ℕ → Bool
is_unprintable byte = ltb byte 0x20 || ltb 0x7E byte

unfoldable pub qdos_name : Bytes → Result Bytes
qdos_name relative_path =
    let name = underscores relative_path in
    if any (λ c. leb 128 c) name
    then err (value_error "QL filename is not ASCII")
    else if is_empty name || ltb 36 (length name)
    then err (value_error "QL filename must contain 1 to 36 characters")
    else if any is_unprintable name
    then err (value_error "QL filename is not printable")
    else ok name

-- `<` on texts
abbrev pub text_lt : Bytes → Bytes → Bool
text_lt xs [] = false
text_lt [] (y ∷ ys) = true
text_lt (x ∷ xs) (y ∷ ys) = ltb x y || (x == y && text_lt xs ys)

abbrev pub is_excluded : Option Bytes → Bytes → Bool
is_excluded none resolved = false
is_excluded (some excluded) resolved = bytes_eq resolved excluded

-- The loop over the sorted entries.
unfoldable pub collect_entries : Option Bytes → List FolderEntry → Result (List DriveFile)
unfolding qdos_name
collect_entries excluded [] = ok []
collect_entries excluded (entry ∷ entries) =
    let rest = collect_entries excluded entries in
    if not entry.is_file || is_excluded excluded entry.resolved
    then rest
    else result_bind entry.content λ content.
      result_bind (qdos_name entry.relative)
        λ name. result_bind rest λ files. ok (drive_file name content ∷ files)

-- `[file.name.lower() for file in files]`
abbrev pub lower_names : List DriveFile → List Bytes
lower_names [] = []
lower_names (file ∷ files) = lower file.name ∷ lower_names files

-- `len(names) != len(set(names))`
abbrev pub has_repeat : List Bytes → Bool
has_repeat [] = false
has_repeat (name ∷ names) = is_in name names || has_repeat names

-- The tests behind the loop.
unfoldable pub check_files : List DriveFile → Result (List DriveFile)
check_files files =
    if has_repeat (lower_names files)
    then err (value_error "Two desktop paths produce the same QL filename.")
    else if ltb 126 (length files)
    then err (value_error "A Microdrive image supports at most 126 user files.")
    else ok files

module _ (str_lower : Bytes → Bytes) where
  -- `sorted` is stable: an entry stays before the later ones with the same key.
  unfoldable pub insert_entry : FolderEntry → List FolderEntry → List FolderEntry
  insert_entry entry [] = entry ∷ []
  insert_entry entry (other ∷ others) =
      let later = insert_entry entry others in
      if text_lt (str_lower other.posix) (str_lower entry.posix)
      then other ∷ later
      else entry ∷ (other ∷ others)

  unfoldable pub sort_entries : List FolderEntry → List FolderEntry
  unfolding insert_entry
  sort_entries [] = []
  sort_entries (entry ∷ entries) = insert_entry entry (sort_entries entries)

  unfoldable pub collect_drive_files : Option Bytes → List FolderEntry → Result (List DriveFile)
  unfolding sort_entries collect_entries check_files
  collect_drive_files excluded found =
      result_bind (collect_entries excluded (sort_entries found)) check_files
