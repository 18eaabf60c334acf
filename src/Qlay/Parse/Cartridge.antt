-- ===== src/Qlay/Parse/Cartridge.antt =====
-- `build_qlay_image` and `parse_qlay_image` together.
use mathlib.Core.Path.{subst}
use nano_ql.Base.{
  ℕ, zero, suc, ◌+◌, ◌*◌, ◌≤◌, ◌<◌, ◌≡◌, refl, ap, ◌∙◌, some, List, [], ◌∷◌, ◌++◌, arith, length,
  get_elem?, All, length-append, Bytes,
}
use nano_ql.Base.Exec.{ok}
use nano_ql.Qlay.Build.{
  padded, place_streams, file_headers, join, directory_file, streams_of, finish_image, start_layout,
  assemble_image, build_qlay_image, result_bind-ok,
}
use nano_ql.Qlay.Build.Keeps.{place_streams-IsLayout}
use nano_ql.Qlay.Build.Valid.{assembled, start_layout-IsLayout}
use nano_ql.Qlay.Header.{DriveFile, qdos_header, default_length}
use nano_ql.Qlay.Parse.{Blocks, parse_directory, parse_qlay_image}
use nano_ql.Qlay.Parse.Collect.{find_block}
use nano_ql.Qlay.Parse.Entry.{IsStorable, length-qdos_header}
use nano_ql.Qlay.Parse.Image.{parse_finished}
use nano_ql.Qlay.Parse.Joined.{joined_stream_lem}
use nano_ql.Qlay.Parse.Places.{IsPlaced}
use nano_ql.Qlay.Parse.Round.{stream_of, file_stream_at, length-file_streams, parse_directory-files}
use nano_ql.Qlay.Parse.Start.{first_layout-IsPlaced}
use nano_ql.Qlay.Parse.Streams.{content_of, place_streams-IsPlaced, placed_all}
use nano_ql.Qlay.Validate.{validate_qlay_image}

streams_at_file :
    (files : List DriveFile) (j : ℕ) (file : DriveFile)
    → get_elem? files j ≡ some file
    → get_elem? (streams_of files) (0 + j + 1) ≡ some (stream_of file)
unfolding streams_of
streams_at_file files j file h =
    let e : 0 + j + 1 ≡ suc j = omega arith in rw e (file_stream_at files j file h)

length-streams_of : (files : List DriveFile) → length (streams_of files) ≡ length files + 1
unfolding streams_of
length-streams_of files = omega (arith, length-file_streams files)

abbrev directory_stream : List DriveFile → Bytes
directory_stream files =
    qdos_header directory_file ((length files + 1) * 64) ++ join (file_headers files)

streams_at_directory :
    (files : List DriveFile) → get_elem? (streams_of files) 0 ≡ some (directory_stream files)
unfolding streams_of
streams_at_directory files = refl

stream_some : (file : DriveFile) → IsStorable file → 0 < length (stream_of file)
stream_some file g = omega (
  arith,
  length-append (qdos_header file (default_length file)) file.content,
  length-qdos_header file (default_length file) (omega (arith, g.name_short)),
)

directory_some : (files : List DriveFile) → 0 < length (directory_stream files)
directory_some files = omega (
  arith,
  length-append (qdos_header directory_file ((length files + 1) * 64)) (join (file_headers files)),
  length-qdos_header directory_file ((length files + 1) * 64) (omega arith),
)

IsStorable-at :
    (files : List DriveFile) (j : ℕ) (file : DriveFile)
    → All IsStorable files
    → get_elem? files j ≡ some file
    → IsStorable file
IsStorable-at [] j file g h = cc
IsStorable-at (f ∷ files) zero file g h = subst IsStorable (cc h) g.0
IsStorable-at (f ∷ files) (suc j) file g h = IsStorable-at files j file g.1 h

-- Streams that hold the blocks of the files' streams.
parse_directory-placed :
    (files : List DriveFile) (streams : List (ℕ × Blocks))
    → length files ≤ 126
    → All IsStorable files
    → ((f b : ℕ) → find_block streams f b ≡ content_of (streams_of files) f b)
    → parse_directory streams ≡ ok files
parse_directory-placed files streams few g view =
    let contents = streams_of files in
    let (pad, whole) =
      joined_stream_lem streams contents view 0 (directory_stream files)
        (streams_at_directory files) (directory_some files) in
    parse_directory-files streams files pad few g whole λ j file h.
      joined_stream_lem streams contents view (0 + j + 1) (stream_of file)
        (streams_at_file files j file h) (stream_some file (IsStorable-at files j file g h))

module _ (crc32 : Bytes → ℕ → ℕ) (files : List DriveFile) (medium image : Bytes) where
  start_layout-IsPlaced :
      IsPlaced (content_of (streams_of files)) 0 0 (start_layout crc32 files medium)
  unfolding start_layout
  start_layout-IsPlaced =
      first_layout-IsPlaced (content_of (streams_of files)) (padded 10 b' ' medium) _

  parse-assemble :
      length files ≤ 126
      → All IsStorable files
      → assemble_image crc32 files medium ≡ ok image
      → parse_qlay_image image ≡ ok files
  parse-assemble few g h =
      let streams = streams_of files in
      let start = start_layout crc32 files medium in
      let (short, parts) = assembled crc32 files medium image h in
      let (l, placed, fin) = result_bind-ok (place_streams 0 streams start) finish_image parts in
      let v =
        place_streams-IsLayout 0 streams start l
          (start_layout-IsLayout crc32 files medium image short) placed in
      let n = length streams in
      let w : IsPlaced (content_of streams) n 0 l =
        subst (λ k. IsPlaced (content_of streams) k 0 l) (omega arith)
          (place_streams-IsPlaced (content_of streams) 0 streams start l
            (omega (arith, length-streams_of files))
            (λ j b. let e : 0 + j ≡ j = omega arith in ap (λ k. content_of streams k b) e)
            start_layout-IsPlaced placed) in
      let (found, parsed, view) =
        parse_finished (content_of streams) (length streams) l image v w fin in
      parsed
      ∙ parse_directory-placed files found few g (λ f b. view f b ∙ placed_all streams l w f b)

  -- Every cartridge of at most 126 files that `build_qlay_image` returns is read back by
  -- `parse_qlay_image` as the same files in the same order, with their names, contents,
  -- executable flags and data spaces, if each file fits the fields of its header and an ordinary
  -- file has no data space.
  pub parse_qlay_image-build_qlay_image :
      length files ≤ 126
      → All IsStorable files
      → build_qlay_image crc32 files medium ≡ ok image
      → parse_qlay_image image ≡ ok files
  unfolding build_qlay_image
  parse_qlay_image-build_qlay_image few g h =
      let (made, assembled_made, checked) =
        result_bind-ok (assemble_image crc32 files medium) _ h in
      let (valid, accepted, same) = result_bind-ok (validate_qlay_image made) _ checked in
      parse-assemble few g (assembled_made ∙ same)
