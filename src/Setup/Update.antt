-- ===== src/Setup/Update.antt =====
-- tools/nanoql_setup.pyw: `install_assistant_update`.
-- A disk is the files of three folders, and whether each of the next operations of the operating
-- system succeeds: `os.replace` is atomic, and an operation that fails leaves the target as it was.
-- Behind the end of the list all of them succeed. `compile` is a parameter.
pub mod Undo
pub mod Loops
pub mod Atomic
pub mod Tests
use nano_ql.Base.{
  Bool, true, false, Option, none, some, List, [], ◌∷◌, not, if◌then◌else◌, codes, any, bytes_eq,
  lower, is_in, Bytes,
}
use nano_ql.Base.Exec.{
  os_error, file_not_found, Result, ok, err, is_exception, Exec, pure, raise, lift, ◌>>◌, skip,
  modify, raise_if, when, try_except, finally_do,
}
use nano_ql.Gowin.{suffix_of}
use nano_ql.Qlay.Build.{result_bind}

abbrev pub Files : Type 0
Files = Bytes → Option Bytes

-- A script that was replaced, and whether it had an old copy.
abbrev pub Replaced : Type 0
Replaced = Bytes × Bool

pub record Disk : Type 0 where
  pub target : Files
  pub staging : Files
  pub backup : Files
  -- the last one first
  pub replaced : List Replaced
  pub outcomes : List Bool

unfoldable pub put_file : Bytes → Option Bytes → Files → Files
put_file name content files other = if bytes_eq other name then content else files other

-- An operation of the system: it is done, or it raises and nothing is done.
unfoldable pub try_operation : (Disk → Disk) → Exec Disk (Unit {0})
try_operation change disk = elim disk.outcomes [
  | [] ↦ (ok tt, change disk)
  | outcome ∷ later ↦
      if outcome
      then (ok tt, change (record disk { outcomes = later }))
      else (err os_error, record disk { outcomes = later })
]

-- `shutil.copy2(source, staging / source.name)`
unfoldable pub stage : Bytes → Bytes → Disk → Disk
stage name content disk = record disk { staging = put_file name (some content) disk.staging }

-- `shutil.copy2(target, old_copy)`
unfoldable pub back_up : Bytes → Disk → Disk
back_up name disk = record disk { backup = put_file name (disk.target name) disk.backup }

-- `os.replace(staging / source.name, target)`
unfoldable pub move_in : Bytes → Disk → Disk
move_in name disk = record disk {
  target = put_file name (disk.staging name) disk.target;
  staging = put_file name none disk.staging;
}

abbrev pub is_some : Option Bytes → Bool
is_some none = false
is_some (some content) = true

abbrev pub note_replaced : Bytes → Bool → Disk → Disk
note_replaced name had_old disk = record disk { replaced = (name, had_old) ∷ disk.replaced }

unfoldable pub stage_all : List (Bytes × Bytes) → Exec Disk (Unit {0})
stage_all [] = skip
stage_all ((name, content) ∷ sources) = try_operation (stage name content) >> stage_all sources

-- The body of the second loop.
unfoldable pub replace_one : Bytes → Exec Disk (Unit {0})
replace_one name disk =
    let had_old = is_some (disk.target name) in
    (when had_old (try_operation (back_up name))
        >> try_operation (move_in name)
        >> modify (note_replaced name had_old))
      disk

unfoldable pub replace_all : List (Bytes × Bytes) → Exec Disk (Unit {0})
replace_all [] = skip
replace_all ((name, content) ∷ sources) = replace_one name >> replace_all sources

-- `os.replace(old_copy, target)` if there is a copy.
abbrev pub move_back : Option Bytes → Bytes → Disk → Disk
move_back none name disk = disk
move_back (some old) name disk = record disk {
  target = put_file name (some old) disk.target;
  backup = put_file name none disk.backup;
}

-- `target.unlink(missing_ok=True)` for a script without an old copy.
unfoldable pub restore : Replaced → Disk → Disk
restore (name, false) disk = record disk { target = put_file name none disk.target }
restore (name, true) disk = move_back (disk.backup name) name disk

-- `for target, old_copy in reversed(replaced)`
unfoldable pub restore_all : List Replaced → Exec Disk (Unit {0})
restore_all [] = skip
restore_all (entry ∷ entries) = try_operation (restore entry) >> restore_all entries

-- `except Exception`: the scripts are restored and the error is raised again.
unfoldable pub replace_or_restore : List (Bytes × Bytes) → Exec Disk (Unit {0})
replace_or_restore sources =
    try_except (stage_all sources >> replace_all sources) is_exception
      λ e disk. (restore_all disk.replaced >> raise e) disk

abbrev pub no_files : Files
no_files name = none

-- `finally`: both folders are removed.
abbrev pub remove_folders : Disk → Disk
remove_folders disk = record disk { staging = no_files; backup = no_files }

abbrev pub names_of : List (Bytes × Bytes) → List Bytes
names_of [] = []
names_of ((name, content) ∷ sources) = name ∷ names_of sources

-- `required`
abbrev pub required : List Bytes
required = codes "nanoql_setup.pyw" ∷ codes "nanoql_setup.py" ∷ codes "nanoql_link.py" ∷ []

-- `staging.mkdir` and `backup.mkdir`, which refuse a folder that is there, and `replaced = []`.
abbrev pub make_staging : Disk → Disk
make_staging disk = record disk { staging = no_files; replaced = [] }

abbrev pub make_backup : Disk → Disk
make_backup disk = record disk { backup = no_files }

-- `path.suffix.lower() in (".py", ".pyw", ".ps1")`
abbrev pub scripts : List (Bytes × Bytes) → List (Bytes × Bytes)
scripts [] = []
scripts ((name, content) ∷ files) =
    if is_in (lower (suffix_of name)) (codes ".py" ∷ codes ".pyw" ∷ codes ".ps1" ∷ [])
    then (name, content) ∷ scripts files
    else scripts files

module _ (compile : Bytes → Result (Unit {0})) where
  -- Every Python script is compiled before anything is written.
  unfoldable pub compile_all : List (Bytes × Bytes) → Result (Unit {0})
  compile_all [] = ok tt
  compile_all ((name, content) ∷ sources) =
      let rest = compile_all sources in
      if is_in (lower (suffix_of name)) (codes ".py" ∷ codes ".pyw" ∷ [])
      then (result_bind (compile content) λ _. rest)
      else rest

  -- The files of the release's folder, in the order of their names.
  unfoldable pub install_assistant_update : List (Bytes × Bytes) → Exec Disk (List Bytes)
  install_assistant_update files =
      raise_if (any (λ name. not (is_in name (names_of files))) required) file_not_found
      >> lift (compile_all (scripts files))
      >> try_operation make_staging
      >> try_operation make_backup
      >> finally_do (replace_or_restore (scripts files)) remove_folders
      >> pure (names_of (scripts files))
