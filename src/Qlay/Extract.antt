-- ===== src/Qlay/Extract.antt =====
-- tools/nanoql_drive.py: `_safe_desktop_name` and `extract_qlay_image`.
-- The folder is the log of the writes to it, the last one first; that the local disk refuses one
-- is not modelled. `json.dumps` is a parameter.
pub mod Laws
pub mod Tests
use nano_ql.Base.{
  ℕ, Bool, ◌||◌, Option, none, some, List, [], ◌∷◌, ◌++◌, ltb, ◌==◌, if◌then◌else◌, codes, length,
  any, bytes_eq, lower, is_in, Bytes,
}
use nano_ql.Base.Exec.{value_error, Result, ok, err, Exec, pure, lift, ◌>>=◌, ◌>>◌, modify}
use nano_ql.Link.Memory.{write}
use nano_ql.Qlay.Header.{DriveFile}
use nano_ql.Qlay.Parse.{parse_qlay_image}
use nano_ql.Rom.{lstrip, rstrip}

abbrev pub Folder : Type 0
Folder = List (Bytes × Bytes)

-- `path.write_bytes`
abbrev pub write_file : Bytes → Bytes → Folder → Folder
write_file name content folder = (name, content) ∷ folder

-- What a file of the folder holds.
abbrev pub file_in : Folder → Bytes → Option Bytes
file_in [] name = none
file_in ((other, content) ∷ folder) name =
    if bytes_eq name other then some content else file_in folder name

abbrev pub forbidden_characters : Bytes
forbidden_characters = codes "<>:\"/\\|?*"

abbrev pub is_forbidden : ℕ → Bool
is_forbidden character = any (λ c. character == c) forbidden_characters || ltb character 0x20

abbrev pub replace_forbidden : Bytes → Bytes
replace_forbidden [] = []
replace_forbidden (c ∷ cs) = (if is_forbidden c then b'_' else c) ∷ replace_forbidden cs

abbrev pub is_margin : ℕ → Bool
is_margin c = c == b' ' || c == b'.'

unfoldable pub safe_desktop_name : Bytes → Result Bytes
safe_desktop_name name =
    let cleaned = rstrip is_margin (lstrip is_margin (replace_forbidden name)) in
    if is_in cleaned ([] ∷ codes "." ∷ codes ".." ∷ [])
    then err (value_error "Unsafe QDOS filename")
    else ok cleaned

-- An entry of `manifest["files"]`.
pub record ManifestEntry : Type 0 where
  pub original_name : Bytes
  pub desktop_name : Bytes
  pub size : ℕ
  pub executable : Bool
  pub data_space : ℕ

abbrev pub manifest_entry : DriveFile → Bytes → ManifestEntry
manifest_entry file desktop_name = record {
  original_name = file.name;
  desktop_name = desktop_name;
  size = length file.content;
  executable = file.executable;
  data_space = file.data_space;
}

-- The tests on the name of a file, and what is done under the name.
abbrev pub with_name :
    {A : Type 0} → Result Bytes → List Bytes → (Bytes → Exec Folder A) → Exec Folder A
with_name (err e) used_names write folder = (err e, folder)
with_name (ok desktop_name) used_names write folder =
    if is_in (lower desktop_name) used_names
    then (err (value_error "Two QDOS files map to the same desktop name"), folder)
    else write desktop_name folder

-- The loop, with `used_names`; the entries of the manifest, which are also the paths written.
unfoldable pub extract_files : List DriveFile → List Bytes → Exec Folder (List ManifestEntry)
extract_files [] used_names = pure []
extract_files (file ∷ files) used_names =
    with_name (safe_desktop_name file.name) used_names λ desktop_name.
      modify (write_file desktop_name file.content)
      >> extract_files files (lower desktop_name ∷ used_names)
      >>= λ entries. pure (manifest_entry file desktop_name ∷ entries)

abbrev pub desktop_names : List ManifestEntry → List Bytes
desktop_names [] = []
desktop_names (entry ∷ entries) = entry.desktop_name ∷ desktop_names entries

abbrev pub manifest_name : Bytes
manifest_name = codes "nanoql_manifest.json"

module _ (dumps : List ManifestEntry → Bytes) where
  -- The names of the files written.
  unfoldable pub extract_qlay_image : Bytes → Exec Folder (List Bytes)
  unfolding extract_files
  extract_qlay_image image = lift (parse_qlay_image image) >>= λ files.
      extract_files files [] >>= λ entries.
      modify (write_file manifest_name (dumps entries ++ (0x0A ∷ [])))
      >> pure (desktop_names entries)
