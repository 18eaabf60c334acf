-- ===== src/Qlay/Parse/Round.antt =====
-- The directory of a cartridge of `build_qlay_image`, for `parse_qlay_image`.
use mathlib.Core.List.{append_assoc}
use nano_ql.Base.{
  ℕ, zero, suc, ◌+◌, ◌-◌, ◌*◌, ◌/◌, ◌%◌, ◌≤◌, ◌≡◌, refl, sym, ap, ◌∙◌, true, false, some, List, [],
  ◌∷◌, ◌++◌, arith, ltb, ◌==◌, length, get_elem?, slice, All, length-append, slice-append, Bytes,
  from_be,
}
use nano_ql.Base.Exec.{ok}
use nano_ql.Qlay.Build.{result_bind, file_headers, join, file_streams, directory_file}
use nano_ql.Qlay.Header.{DriveFile, qdos_header, default_length}
use nano_ql.Qlay.Parse.{Blocks, joined_stream, parse_entry, keep, parse_entries, parse_directory}
use nano_ql.Qlay.Parse.Entry.{IsStorable, length-qdos_header, header_total, parse_entry-qdos_header}

abbrev pub stream_of : DriveFile → Bytes
stream_of file = qdos_header file (default_length file) ++ file.content

pub file_stream_at :
    (files : List DriveFile) (j : ℕ) (file : DriveFile)
    → get_elem? files j ≡ some file
    → get_elem? (file_streams files) j ≡ some (stream_of file)
unfolding file_streams
file_stream_at [] j file h = cc
file_stream_at (f ∷ files) zero file h = ground arith
file_stream_at (f ∷ files) (suc j) file h = file_stream_at files j file h

length-headers :
    (files : List DriveFile)
    → All IsStorable files
    → length (join (file_headers files)) ≡ 64 * length files
unfolding file_headers
length-headers [] g = refl
length-headers (file ∷ files) g = omega (
  arith,
  length-append (qdos_header file (default_length file)) (join (file_headers files)),
  length-qdos_header file (default_length file) (omega (arith, g.0.name_short)),
  length-headers files g.1,
)

pub length-file_streams : (files : List DriveFile) → length (file_streams files) ≡ length files
unfolding file_streams
length-file_streams [] = refl
length-file_streams (file ∷ files) = ap suc (length-file_streams files)

module _ (streams : List (ℕ × Blocks)) where
  -- The directory from an entry on.
  parse_entries-files :
      (files : List DriveFile) (index : ℕ) (before after : Bytes)
      → All IsStorable files
      → length before ≡ (index + 1) * 64
      → ((j : ℕ) (file : DriveFile)
          → get_elem? files j ≡ some file
          → (pad : Bytes) × (joined_stream streams (index + j + 1) ≡ ok (stream_of file ++ pad)))
      → parse_entries (length files) index streams (before ++ (join (file_headers files) ++ after))
        ≡ ok files
  unfolding parse_entries file_headers
  parse_entries-files [] index before after g size there = refl
  parse_entries-files (file ∷ files) index before after g size there =
      let header = qdos_header file (default_length file) in
      let rest = join (file_headers files) ++ after in
      let sized = length-qdos_header file (default_length file) (omega (arith, g.0.name_short)) in
      let directory = before ++ ((header ++ join (file_headers files)) ++ after) in
      let shape : directory ≡ before ++ (header ++ rest) =
        ap (λ t. before ++ t) (append_assoc header (join (file_headers files)) after) in
      let start = (index + 1) * 64 in
      let entry : slice start (start + 64) directory ≡ header =
        ap (slice start (start + 64)) shape
        ∙ slice-append start (start + 64) before header rest (omega arith) (omega arith) in
      let (pad, whole) = there 0 file refl in
      let z : index + 0 + 1 ≡ index + 1 = omega arith in
      let whole' = ap (joined_stream streams) (sym z) ∙ whole in
      let one = parse_entry-qdos_header streams index file pad g.0 whole' in
      let later : (j : ℕ) (f : DriveFile)
          → get_elem? files j ≡ some f
          → (pad : Bytes) × (joined_stream streams (index + 1 + j + 1) ≡ ok (stream_of f ++ pad)) =
        λ j f h.
          let (p, e) = there (suc j) f h in
          let k : index + 1 + j + 1 ≡ index + suc j + 1 = omega arith in
          (p, ap (joined_stream streams) k ∙ e) in
      let ih =
        parse_entries-files files (index + 1) (before ++ header) after g.1
          (omega (arith, length-append before header)) later in
      let shape' : directory ≡ (before ++ header) ++ rest =
        shape ∙ sym (append_assoc before header rest) in
      ap
        (λ r. result_bind r λ e.
          result_bind (parse_entries (length files) (index + 1) streams directory)
            λ fs. ok (keep e fs))
        (ap (parse_entry streams index) entry ∙ one)
      ∙ ap (λ r. result_bind r λ fs. ok (file ∷ fs))
          (ap (parse_entries (length files) (index + 1) streams) shape' ∙ ih)

  directory_lem :
      (files : List DriveFile) (directory : Bytes)
      → length files ≤ 126
      → joined_stream streams 0 ≡ ok directory
      → from_be (slice 0 4 directory) ≡ (length files + 1) * 64
      → (length files + 1) * 64 ≤ length directory
      → parse_entries (length files) 0 streams directory ≡ ok files
      → parse_directory streams ≡ ok files
  unfolding parse_directory
  directory_lem files directory few whole size long entries =
      let n = length files in
      let t1 : ltb ((n + 1) * 64) 64 ≡ false = ground arith in
      let t2 : ((n + 1) * 64 % 64 == 0) ≡ true = ground arith in
      let t3 : ltb (length directory) ((n + 1) * 64) ≡ false = ground arith in
      let t4 : (n + 1) * 64 / 64 - 1 ≡ n = omega arith in
      simp (whole, size, t1, t2, t3, t4, entries)

  pub parse_directory-files :
      (files : List DriveFile) (pad : Bytes)
      → length files ≤ 126
      → All IsStorable files
      → joined_stream streams 0
        ≡ ok (
            (qdos_header directory_file ((length files + 1) * 64) ++ join (file_headers files))
            ++ pad)
      → ((j : ℕ) (file : DriveFile)
          → get_elem? files j ≡ some file
          → (pad : Bytes) × (joined_stream streams (0 + j + 1) ≡ ok (stream_of file ++ pad)))
      → parse_directory streams ≡ ok files
  parse_directory-files files pad few g whole there =
      let header = qdos_header directory_file ((length files + 1) * 64) in
      let headers = join (file_headers files) in
      let shape = append_assoc header headers pad in
      let sized = length-qdos_header directory_file ((length files + 1) * 64) (omega arith) in
      directory_lem files (header ++ (headers ++ pad)) few (whole ∙ ap ok shape)
        (header_total directory_file ((length files + 1) * 64) (headers ++ pad) (omega arith))
        (omega (
          arith,
          length-append header (headers ++ pad),
          length-append headers pad,
          length-headers files g,
        ))
        (parse_entries-files files 0 header pad g (omega arith) there)
