-- ===== src/Qlay/Build/Tests.antt =====
-- A cartridge with one small file.
use nano_ql.Base.{ℕ, ◌≡◌, refl, List, [], ◌∷◌, arith, length, All, bytes_eq, Bytes, to_be}
use nano_ql.Base.Exec.{ok, ok_or}
use nano_ql.Qlay.Build.{
  is_free, allocate_from, allocate, padded, update_sector, place_block, place_blocks, place_streams,
  first_layout, file_headers, file_streams, streams_of, map_entries, map_data, serialize_all,
  finish_image, fingerprint, start_layout, assemble_image, build_qlay_image,
}
use nano_ql.Qlay.Build.Valid.{build-assemble}
use nano_ql.Qlay.Header.{DriveFile, qdos_header, is_executable, drive_file}
use nano_ql.Qlay.Parse.{parse_qlay_image}
use nano_ql.Qlay.Parse.Cartridge.{parse_qlay_image-build_qlay_image}
use nano_ql.Qlay.Parse.Entry.{IsStorable}
use nano_ql.Qlay.Sector.{qlay_image_size, empty_sector, serialize_sector}

abbrev pub no_crc : Bytes → ℕ → ℕ
no_crc _ _ = 0

abbrev pub boot_medium : Bytes
boot_medium = b'N' ∷ b'Q' ∷ b'L' ∷ []

abbrev pub boot_files : List DriveFile
boot_files = drive_file (b'b' ∷ b'o' ∷ b'o' ∷ b't' ∷ []) (1 ∷ 2 ∷ 3 ∷ []) ∷ []

abbrev pub boot_image : Bytes
boot_image = ok_or [] (assemble_image no_crc boot_files boot_medium)

pub assembled_image : assemble_image no_crc boot_files boot_medium ≡ ok boot_image
unfolding assemble_image finish_image place_streams place_blocks place_block padded update_sector
    allocate allocate_from is_free start_layout first_layout fingerprint streams_of file_streams
    file_headers map_data map_entries serialize_all serialize_sector qdos_header drive_file
    is_executable bytes_eq to_be empty_sector
assembled_image = refl

build-assemble_example :
    (length boot_image ≡ qlay_image_size)
    × (build_qlay_image no_crc boot_files boot_medium ≡ ok boot_image)
build-assemble_example = build-assemble no_crc boot_files boot_medium boot_image assembled_image

pub boot_files-IsStorable : All IsStorable boot_files
unfolding drive_file is_executable bytes_eq
boot_files-IsStorable = (
  record {
    name_some = omega arith;
    name_short = omega arith;
    name_ascii = refl;
    size_fits = omega arith;
    space_fits = omega arith;
    no_space = λ h. refl;
  },
  tt,
)

parse_qlay_image-build_qlay_image_example : parse_qlay_image boot_image ≡ ok boot_files
parse_qlay_image-build_qlay_image_example =
    parse_qlay_image-build_qlay_image no_crc boot_files boot_medium boot_image (omega arith)
      boot_files-IsStorable
      (build-assemble no_crc boot_files boot_medium boot_image assembled_image).1
