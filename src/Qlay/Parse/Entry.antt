-- ===== src/Qlay/Parse/Entry.antt =====
-- One entry of the directory: the fields of a file's header.
use mathlib.Core.List.{append-nil, append_assoc}
use nano_ql.Base.{
  ℕ, ◌+◌, ◌-◌, ◌^◌, ◌≤◌, ◌<◌, ◌≡◌, sym, ap, ◌∙◌, inl, inr, Bool, false, some, List, [], ◌++◌, arith,
  ltb, leb, ◌==◌, if◌then◌else◌, Bool-cases, length, get_or, replicate, slice, any, length-append,
  length-replicate, take-append, slice-append, Bytes, to_be, from_be, from_be-to_be,
}
use nano_ql.Base.Exec.{ok}
use nano_ql.Qlay.Header.{DriveFile, qdos_header, default_length}
use nano_ql.Qlay.Parse.{Blocks, joined_stream, read_entry, parse_entry}
use nano_ql.Rom.{total}

-- What a file needs to be stored: the limits of the fields of its header.
pub record IsStorable (file : DriveFile) : Type 0 where
  pub name_some : 1 ≤ length file.name
  pub name_short : length file.name ≤ 36
  pub name_ascii : any (λ c. leb 128 c) file.name ≡ false
  pub size_fits : length file.content + 64 < 2 ^ 32
  pub space_fits : file.data_space < 2 ^ 32
  pub no_space : file.executable ≡ false → file.data_space ≡ 0

pub length-qdos_header :
    (file : DriveFile) (total : ℕ) → length file.name ≤ 48 → length (qdos_header file total) ≡ 64
unfolding qdos_header to_be
length-qdos_header file size short = omega (
  arith,
  length-append file.name (replicate (48 - length file.name) 0),
  length-replicate {A = ℕ} (48 - length file.name) 0,
)

pub header_total :
    (file : DriveFile) (total : ℕ) (after : Bytes)
    → total < 2 ^ 32
    → from_be (slice 0 4 (qdos_header file total ++ after)) ≡ total
unfolding qdos_header to_be
header_total file total after h = unfold to_be in from_be-to_be 4 total h

header_name_length :
    (file : DriveFile) (total : ℕ)
    → length file.name < 2 ^ 16
    → from_be (slice 14 16 (qdos_header file total)) ≡ length file.name
unfolding qdos_header to_be
header_name_length file total h = unfold to_be in from_be-to_be 2 (length file.name) h

header_name :
    (file : DriveFile) (total : ℕ)
    → slice 16 (16 + length file.name) (qdos_header file total) ≡ file.name
unfolding qdos_header to_be
header_name file total =
    take-append (16 + length file.name - 16) file.name (replicate (48 - length file.name) 0)
      (omega arith)

header_executable :
    (file : DriveFile) (total : ℕ) → (get_or (qdos_header file total) 5 0 == 1) ≡ file.executable
unfolding qdos_header to_be
header_executable file total = ground arith

header_data_space :
    (file : DriveFile) (total : ℕ)
    → IsStorable file
    → from_be (slice 6 10 (qdos_header file total)) ≡ file.data_space
unfolding qdos_header to_be
header_data_space file total v = elim (Bool-cases file.executable) [
  | inl yes_it_is ↦
      let e : (if file.executable then file.data_space else 0) ≡ file.data_space = ground arith in
      unfold to_be in
      (from_be-to_be 4 (if file.executable then file.data_space else 0) (rw e v.space_fits) ∙ e)
  | inr no_it_is_not ↦
      let e : (if file.executable then file.data_space else 0) ≡ file.data_space =
        ground (arith, v.no_space no_it_is_not) in
      unfold to_be in
      (from_be-to_be 4 (if file.executable then file.data_space else 0) (rw e v.space_fits) ∙ e)
]

-- An entry with these fields, whose stream is long enough.
read_entry_lem :
    (streams : List (ℕ × Blocks)) (index size name_length : ℕ) (name : Bytes) (executable : Bool)
    (space : ℕ) (stream : Bytes)
    → 64 ≤ size
    → 1 ≤ name_length
    → name_length ≤ 36
    → any (λ c. leb 128 c) name ≡ false
    → joined_stream streams (index + 1) ≡ ok stream
    → size ≤ length stream
    → read_entry streams index size name_length name executable space
      ≡ ok (
          some (record {
            name = name;
            content = slice 64 size stream;
            executable = executable;
            data_space = space;
          }))
unfolding read_entry
read_entry_lem streams index size name_length name executable space stream h1 h2 h3 ascii whole
      long =
    let t1 : (size == 0) ≡ false = ground arith in
    let t2 : ltb size 64 ≡ false = ground arith in
    let t3 : ltb name_length 1 ≡ false = ground arith in
    let t4 : ltb 36 name_length ≡ false = ground arith in
    let t5 : ltb (length stream) size ≡ false = ground arith in
    simp (t1, t2, t3, t4, ascii, whole, t5)

pub parse_entry-qdos_header :
    (streams : List (ℕ × Blocks)) (index : ℕ) (file : DriveFile) (pad : Bytes)
    → IsStorable file
    → joined_stream streams (index + 1)
      ≡ ok ((qdos_header file (default_length file) ++ file.content) ++ pad)
    → parse_entry streams index (qdos_header file (default_length file)) ≡ ok (some file)
parse_entry-qdos_header streams index file pad v whole =
    let header = qdos_header file (default_length file) in
    let stream = (header ++ file.content) ++ pad in
    let sized = length-qdos_header file (default_length file) (omega (arith, v.name_short)) in
    let content : slice 64 (default_length file) stream ≡ file.content =
      rw (append_assoc header file.content pad) (
        slice-append 64 (default_length file) header file.content pad (omega arith)
          (omega arith)) in
    let size_field =
      ap (λ t. from_be (slice 0 4 t)) (sym (append-nil header))
      ∙ header_total file (default_length file) [] v.size_fits in
    let fields =
      read_entry_lem streams index (default_length file) (length file.name) file.name
        file.executable file.data_space stream (omega arith) v.name_some v.name_short v.name_ascii
        whole
        (omega
          (arith, length-append (header ++ file.content) pad, length-append header file.content)) in
    unfold parse_entry in
    (rw
      (
        size_field,
        header_name_length file (default_length file) (omega (arith, v.name_short)),
        header_name file (default_length file),
        header_executable file (default_length file),
        header_data_space file (default_length file) v,
      )
      (fields
        ∙ ap
            (λ content. ok (
              some (record {
                name = file.name;
                content = content;
                executable = file.executable;
                data_space = file.data_space;
              })))
            content))
