-- ===== src/Qlay/Extract/Tests.antt =====
-- A small cartridge, extracted into an empty folder.
use nano_ql.Base.{◌≡◌, refl, List, [], ◌∷◌, ◌++◌, arith, codes, All, bytes_eq, lower, Bytes}
use nano_ql.Base.Exec.{ok}
use nano_ql.Qlay.Build.Tests.{
  no_crc, boot_medium, boot_files, boot_image, assembled_image, boot_files-IsStorable,
}
use nano_ql.Qlay.Build.Valid.{build-assemble}
use nano_ql.Qlay.Extract.{
  Folder, safe_desktop_name, ManifestEntry, extract_files, desktop_names, manifest_name,
  extract_qlay_image,
}
use nano_ql.Qlay.Extract.Laws.{IsExtracted, extract_qlay_image-IsExtracted}
use nano_ql.Qlay.Header.{DriveFile, drive_file}
use nano_ql.Qlay.Parse.{parse_qlay_image}
use nano_ql.Qlay.Parse.Cartridge.{parse_qlay_image-build_qlay_image}
use nano_ql.Rom.{lstrip, rstrip}

abbrev no_text : List ManifestEntry → Bytes
no_text _ = []

abbrev extracted_folder : Folder
extracted_folder = (manifest_name, 0x0A ∷ []) ∷ (codes "boot", 1 ∷ 2 ∷ 3 ∷ []) ∷ []

-- The files of the cartridge are as they were collected.
boot_parsed : parse_qlay_image boot_image ≡ ok boot_files
boot_parsed =
    parse_qlay_image-build_qlay_image no_crc boot_files boot_medium boot_image (omega arith)
      boot_files-IsStorable
      (build-assemble no_crc boot_files boot_medium boot_image assembled_image).1

boot_extracted :
    extract_qlay_image no_text boot_image [] ≡ (ok (codes "boot" ∷ []), extracted_folder)
unfolding extract_qlay_image extract_files safe_desktop_name lower lstrip rstrip bytes_eq drive_file
boot_extracted = rw boot_parsed refl

extract_qlay_image-IsExtracted_example :
    (files : List DriveFile) × (entries : List ManifestEntry) × (parse_qlay_image boot_image
      ≡ ok files)
    × ((codes "boot" ∷ []) ≡ desktop_names entries)
    × All (IsExtracted (no_text entries ++ (0x0A ∷ [])) extracted_folder) files
extract_qlay_image-IsExtracted_example =
    extract_qlay_image-IsExtracted no_text boot_image [] extracted_folder (codes "boot" ∷ [])
      boot_extracted
