-- ===== src/Qlay/Folder/Tests.antt =====
-- A folder with a small file and the cartridge that is being replaced.
use mathlib.Core.Path.{subst}
use nano_ql.Base.{◌≡◌, refl, true, some, List, [], ◌∷◌, arith, codes, All, bytes_eq, lower, IsByte}
use nano_ql.Base.Exec.{os_error, ok, err, ok-injective}
use nano_ql.Qlay.Build.Tests.{no_crc, boot_medium, boot_files, boot_image, assembled_image}
use nano_ql.Qlay.Build.Valid.{build-assemble}
use nano_ql.Qlay.Folder.{
  FolderEntry, qdos_name, collect_entries, check_files, insert_entry, sort_entries,
  collect_drive_files,
}
use nano_ql.Qlay.Folder.Laws.{IsSound, parse_qlay_image-collect_drive_files}
use nano_ql.Qlay.Header.{is_executable, drive_file}
use nano_ql.Qlay.Parse.{parse_qlay_image}

abbrev boot : FolderEntry
boot = record {
  posix = codes "/d/boot";
  relative = codes "boot";
  resolved = codes "/d/boot";
  is_file = true;
  content = ok (1 ∷ 2 ∷ 3 ∷ []);
}

abbrev cartridge : FolderEntry
cartridge = record {
  posix = codes "/d/MDV1.mdv";
  relative = codes "MDV1.mdv";
  resolved = codes "/d/MDV1.mdv";
  is_file = true;
  content = err os_error;
}

abbrev found : List FolderEntry
found = cartridge ∷ boot ∷ []

collected_files : collect_drive_files lower (some (codes "/d/MDV1.mdv")) found ≡ ok boot_files
unfolding collect_drive_files sort_entries insert_entry collect_entries check_files qdos_name lower
    bytes_eq drive_file is_executable
collected_files = refl

found-IsSound : All IsSound found
found-IsSound =
    (λ content h. cc h, ((λ content h. subst (All IsByte) (ok-injective h) (omega arith)), tt))

parse_qlay_image-collect_drive_files_example : parse_qlay_image boot_image ≡ ok boot_files
unfolding drive_file
parse_qlay_image-collect_drive_files_example =
    parse_qlay_image-collect_drive_files lower (some (codes "/d/MDV1.mdv")) found boot_files no_crc
      boot_medium boot_image found-IsSound collected_files (omega arith, tt)
      (build-assemble no_crc boot_files boot_medium boot_image assembled_image).1
