-- ===== src/Setup/Update/Tests.antt =====
-- An update of three scripts whose second replacement fails.
use nano_ql.Base.{
  ◌≡◌, refl, true, false, none, some, List, [], ◌∷◌, ◌++◌, if◌then◌else◌, codes, replicate,
  bytes_eq, lower, Bytes,
}
use nano_ql.Base.Exec.{os_error, Result, ok, err, is_exception}
use nano_ql.Gowin.{suffix_of}
use nano_ql.Qlay.Folder.{has_repeat}
use nano_ql.Setup.Update.{
  Files, Disk, put_file, try_operation, stage, back_up, move_in, stage_all, replace_one,
  replace_all, restore, restore_all, replace_or_restore, no_files, names_of, scripts, compile_all,
  install_assistant_update,
}
use nano_ql.Setup.Update.Atomic.{IsAtomic, install_assistant_update-IsAtomic}

abbrev accept : Bytes → Result (Unit {0})
accept _ = ok tt

abbrev release : List (Bytes × Bytes)
release =
    (codes "nanoql_link.py", 1 ∷ [])
    ∷ (codes "nanoql_setup.py", 2 ∷ [])
    ∷ (codes "nanoql_setup.pyw", 3 ∷ [])
    ∷ []

abbrev old_files : Files
old_files name = if bytes_eq name (codes "nanoql_link.py") then some (9 ∷ []) else none

-- Two folders, three copies, an old copy, two moves: the second of them fails.
abbrev tools : Disk
tools = record {
  target = old_files;
  staging = no_files;
  backup = no_files;
  replaced = [];
  outcomes = replicate 7 true ++ (false ∷ []);
}

distinct_scripts : has_repeat (names_of (scripts release)) ≡ false
unfolding bytes_eq lower suffix_of
distinct_scripts = refl

update_failed : (install_assistant_update accept release tools).0 ≡ err os_error
unfolding install_assistant_update compile_all replace_or_restore stage_all replace_all restore_all
    replace_one restore try_operation stage back_up move_in put_file bytes_eq lower suffix_of
    is_exception
update_failed = refl

install_assistant_update-IsAtomic_example :
    IsAtomic (scripts release) tools.target (install_assistant_update accept release tools)
install_assistant_update-IsAtomic_example =
    install_assistant_update-IsAtomic accept release tools distinct_scripts refl
