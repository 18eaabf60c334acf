-- ===== src/Qlay/Folder/Laws.antt =====
-- The files of `collect_drive_files`, on the way to the cartridge and back.
use mathlib.Core.Path.{subst}
use nano_ql.Base.{
  ℕ, ◌+◌, ◌-◌, ◌^◌, ◌≤◌, ◌<◌, ◌≡◌, sym, ap, ◌∙◌, inl, inr, false, ◌||◌, Option, List, [], ◌∷◌,
  arith, leb, not, Bool-cases, length, drop, All, any, length-drop, All-drop, Bytes, IsByte,
  from_be, from_be_small,
}
use nano_ql.Base.Exec.{ok, ok-injective}
use nano_ql.Card.Unmanaged.{others}
use nano_ql.Qlay.Build.{build_qlay_image, result_bind-ok}
use nano_ql.Qlay.Folder.{
  FolderEntry, qdos_name, text_lt, is_excluded, collect_entries, check_files, insert_entry,
  sort_entries, collect_drive_files,
}
use nano_ql.Qlay.Header.{DriveFile, drive_file}
use nano_ql.Qlay.Parse.{parse_qlay_image}
use nano_ql.Qlay.Parse.Cartridge.{parse_qlay_image-build_qlay_image}
use nano_ql.Qlay.Parse.Entry.{IsStorable}
use native.Mathlib.Decide.{dec_le}

-- What is read from the file of an entry is bytes.
abbrev pub IsSound : FolderEntry → Type 0
IsSound entry = (content : Bytes) → entry.content ≡ ok content → All IsByte content

qdos_name-IsName :
    (path name : Bytes)
    → qdos_name path ≡ ok name
    → (1 ≤ length name) × (length name ≤ 36) × (any (λ c. leb 128 c) name ≡ false)
unfolding qdos_name
qdos_name-IsName path name h = ground arith

-- A file as the header can hold it, but for its size.
abbrev pub IsSmall : DriveFile → Type 0
IsSmall file = length file.content + 64 < 2 ^ 32

space_fits :
    (content : Bytes) → All IsByte content → from_be (drop (length content - 4) content) < 2 ^ 32
space_fits content g =
    let rest = drop (length content - 4) content in
    elim (dec_le (length rest) 4) [
      | yes few ↦ from_be_small rest few (All-drop IsByte (length content - 4) content g)
      | no many ↦ absurd (omega (arith, length-drop (length content - 4) content))
    ]

drive_file-IsStorable :
    (path name content : Bytes)
    → qdos_name path ≡ ok name
    → All IsByte content
    → IsSmall (drive_file name content)
    → IsStorable (drive_file name content)
unfolding drive_file
drive_file-IsStorable path name content h g small =
    let (long, short, ascii) = qdos_name-IsName path name h in
    record {
      name_some = long;
      name_short = short;
      name_ascii = ascii;
      size_fits = small;
      space_fits = ground (arith, space_fits content g);
      no_space = λ h. ground arith;
    }

collect_entries-IsStorable :
    (excluded : Option Bytes) (entries : List FolderEntry) (files : List DriveFile)
    → collect_entries excluded entries ≡ ok files
    → All IsSound entries
    → All IsSmall files
    → All IsStorable files
unfolding collect_entries
collect_entries-IsStorable excluded [] files h g small = subst (All IsStorable) (ok-injective h) tt
collect_entries-IsStorable excluded (entry ∷ entries) files h g small =
    elim (Bool-cases (not entry.is_file || is_excluded excluded entry.resolved)) [
      | inl skipped ↦ collect_entries-IsStorable excluded entries files (rw skipped at h) g.1 small
      | inr taken ↦
          let (content, readable, h1) = result_bind-ok entry.content _ (rw taken at h) in
          let (name, named, h2) = result_bind-ok (qdos_name entry.relative) _ h1 in
          let (rest, others, h3) = result_bind-ok (collect_entries excluded entries) _ h2 in
          let same = ok-injective h3 in
          let (first, later) = subst (All IsSmall) (sym same) small in
          subst (All IsStorable) same (
            drive_file-IsStorable entry.relative name content named (g.0 content readable) first,
            collect_entries-IsStorable excluded entries rest others g.1 later,
          )
    ]

check_files-ok :
    (files files' : List DriveFile)
    → check_files files ≡ ok files'
    → (files ≡ files') × (length files' ≤ 126)
unfolding check_files
check_files-ok files files' h =
    let same : files ≡ files' = ground arith in (same, ground (arith, ap length same))

module _ (str_lower : Bytes → Bytes) where
  insert_entry-IsSound :
      (entry : FolderEntry) (entries : List FolderEntry)
      → IsSound entry
      → All IsSound entries
      → All IsSound (insert_entry str_lower entry entries)
  unfolding insert_entry
  insert_entry-IsSound entry [] s g = (s, tt)
  insert_entry-IsSound entry (other ∷ others) s g =
      let before = text_lt (str_lower other.posix) (str_lower entry.posix) in
      let later = insert_entry-IsSound entry others s g.1 in
      elim (Bool-cases before) [ inl e ↦ rw e (g.0, later) | inr e ↦ rw e (s, g) ]

  sort_entries-IsSound :
      (entries : List FolderEntry)
      → All IsSound entries
      → All IsSound (sort_entries str_lower entries)
  unfolding sort_entries
  sort_entries-IsSound [] g = tt
  sort_entries-IsSound (entry ∷ entries) g =
      insert_entry-IsSound entry (sort_entries str_lower entries) g.0
        (sort_entries-IsSound entries g.1)

  pub collect_drive_files-IsStorable :
      (excluded : Option Bytes) (found : List FolderEntry) (files : List DriveFile)
      → collect_drive_files str_lower excluded found ≡ ok files
      → All IsSound found
      → All IsSmall files
      → (length files ≤ 126) × All IsStorable files
  unfolding collect_drive_files
  collect_drive_files-IsStorable excluded found files h g small =
      let sorted = sort_entries str_lower found in
      let (collected, made, checked) = result_bind-ok (collect_entries excluded sorted) _ h in
      let (same, few) = check_files-ok collected files checked in
      (
        few,
        collect_entries-IsStorable excluded sorted files (made ∙ ap ok same)
            (sort_entries-IsSound found g) small,
      )

  -- A folder of bytes that `collect_drive_files` accepts survives the cartridge: whenever
  -- `build_qlay_image` returns an image of the files that it collected, each below 4 GiB with its
  -- header, `parse_qlay_image` reads back those files, in their order.
  pub parse_qlay_image-collect_drive_files :
      (excluded : Option Bytes) (found : List FolderEntry) (files : List DriveFile)
      (crc32 : Bytes → ℕ → ℕ) (medium image : Bytes)
      → All IsSound found
      → collect_drive_files str_lower excluded found ≡ ok files
      → All IsSmall files
      → build_qlay_image crc32 files medium ≡ ok image
      → parse_qlay_image image ≡ ok files
  parse_qlay_image-collect_drive_files excluded found files crc32 medium image g h small built =
      let (few, storable) = collect_drive_files-IsStorable excluded found files h g small in
      parse_qlay_image-build_qlay_image crc32 files medium image few storable built
