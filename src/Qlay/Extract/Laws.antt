-- ===== src/Qlay/Extract/Laws.antt =====
-- The names and the files that `extract_qlay_image` writes.
use mathlib.Core.Path.{subst}
use nano_ql.Base.{
  ℕ, ◌<◌, ◌≡◌, refl, sym, ap, ◌∙◌, inl, inr, Bool, true, false, ◌&&◌, some, List, [], ◌∷◌, ◌++◌,
  arith, not, if◌then◌else◌, Bool-cases, length, take, All, is_empty, any, all, bytes_eq,
  bytes_eq→eq, bytes_eq_refl, lower, is_in, Bytes,
}
use nano_ql.Base.Exec.{Result, ok, err, Exec, pure, lift, >>=-ok, ok-injective}
use nano_ql.Card.Unmanaged.{others}
use nano_ql.Link.Memory.{write}
use nano_ql.Qlay.Extract.{
  Folder, write_file, file_in, is_forbidden, replace_forbidden, is_margin, safe_desktop_name,
  ManifestEntry, manifest_entry, with_name, extract_files, desktop_names, manifest_name,
  extract_qlay_image,
}
use nano_ql.Qlay.Header.{DriveFile}
use nano_ql.Qlay.Parse.{parse_qlay_image}
use nano_ql.Rom.{lstrip, rstrip}

module _ (test : ℕ → Bool) where
  any-lstrip :
      (space : ℕ → Bool) (cs : Bytes) → any test cs ≡ false → any test (lstrip space cs) ≡ false
  unfolding lstrip
  any-lstrip space [] h = refl
  any-lstrip space (c ∷ cs) h = elim (Bool-cases (space c)) [
    | inl e ↦ rw e (any-lstrip space cs (ground arith))
    | inr e ↦ rw e h
  ]

  any-rstrip :
      (space : ℕ → Bool) (cs : Bytes) → any test cs ≡ false → any test (rstrip space cs) ≡ false
  unfolding rstrip
  any-rstrip space [] h = refl
  any-rstrip space (c ∷ cs) h = elim (Bool-cases (space c && is_empty (rstrip space cs))) [
    | inl e ↦ rw e refl
    | inr e ↦ rw e (ground (arith, any-rstrip space cs (ground arith)))
  ]

module _ (space : ℕ → Bool) where
  first_of_lstrip : (cs : Bytes) → all (λ c. not (space c)) (take 1 (lstrip space cs)) ≡ true
  unfolding lstrip
  first_of_lstrip [] = refl
  first_of_lstrip (c ∷ cs) = elim (Bool-cases (space c)) [
    | inl e ↦ rw e (first_of_lstrip cs)
    | inr e ↦ rw (e, e) refl
  ]

  first_of_rstrip :
      (cs : Bytes)
      → all (λ c. not (space c)) (take 1 cs) ≡ true
      → all (λ c. not (space c)) (take 1 (rstrip space cs)) ≡ true
  unfolding rstrip
  first_of_rstrip [] h = refl
  first_of_rstrip (c ∷ cs) h = elim (Bool-cases (space c && is_empty (rstrip space cs))) [
    | inl e ↦ rw e refl
    | inr e ↦ rw e h
  ]

any-replace_forbidden : (cs : Bytes) → any is_forbidden (replace_forbidden cs) ≡ false
any-replace_forbidden [] = refl
any-replace_forbidden (c ∷ cs) = elim (Bool-cases (is_forbidden c)) [
  | inl e ↦ rw e (any-replace_forbidden cs)
  | inr e ↦ rw (e, e) (any-replace_forbidden cs)
]

-- A name that stays in its folder on every desktop.
pub record IsSafe (name : Bytes) : Type 0 where
  pub some_characters : 0 < length name
  pub all_allowed : any is_forbidden name ≡ false
  pub first_is_no_margin : all (λ c. not (is_margin c)) (take 1 name) ≡ true

pub safe_desktop_name-IsSafe : (name safe : Bytes) → safe_desktop_name name ≡ ok safe → IsSafe safe
unfolding safe_desktop_name bytes_eq
safe_desktop_name-IsSafe name safe h =
    let cleaned = rstrip is_margin (lstrip is_margin (replace_forbidden name)) in
    let same : cleaned ≡ safe = ground arith in
    subst IsSafe same (record {
      some_characters = some_of cleaned (ground arith);
      all_allowed =
          any-rstrip is_forbidden is_margin (lstrip is_margin (replace_forbidden name)) (
            any-lstrip is_forbidden is_margin (replace_forbidden name)
              (any-replace_forbidden name));
      first_is_no_margin =
          first_of_rstrip is_margin (lstrip is_margin (replace_forbidden name))
            (first_of_lstrip is_margin (replace_forbidden name));
    })
  where
    some_of : (cs : Bytes) → bytes_eq cs [] ≡ false → 0 < length cs
    some_of [] e = cc e
    some_of (c ∷ cs) e = omega arith

with_name-ok :
    {A : Type 0} (r : Result Bytes) (used_names : List Bytes) (write : Bytes → Exec Folder A)
    (folder folder' : Folder) (a : A)
    → with_name r used_names write folder ≡ (ok a, folder')
    → (name : Bytes) × (r ≡ ok name)
      × (is_in (lower name) used_names ≡ false)
      × (write name folder ≡ (ok a, folder'))
with_name-ok (err e) used_names write folder folder' a h = cc h
with_name-ok (ok name) used_names write folder folder' a h =
    let new : is_in (lower name) used_names ≡ false = ground arith in (name, refl, new, rw new at h)

module _ (file : DriveFile) (files : List DriveFile) (used_names : List Bytes) (folder : Folder)
    (entries : List ManifestEntry) (folder' : Folder) where
  -- A pass of the loop that came to its end.
  extract_step :
      extract_files (file ∷ files) used_names folder ≡ (ok entries, folder')
      → (name : Bytes) × (rest : List ManifestEntry) × (safe_desktop_name file.name ≡ ok name)
        × (is_in (lower name) used_names ≡ false)
        × (extract_files files (lower name ∷ used_names) (write_file name file.content folder)
            ≡ (ok rest, folder'))
  unfolding extract_files
  extract_step h =
      let (name, safe, new, h1) =
        with_name-ok (safe_desktop_name file.name) used_names _ folder folder' entries h in
      let (rest, folder1, others, last) =
        >>=-ok (extract_files files (lower name ∷ used_names))
          (λ entries. pure (manifest_entry file name ∷ entries))
          (write_file name file.content folder) h1 in
      (name, rest, safe, new, others ∙ ap (λ f. (ok rest, f)) (ap (λ p. p.1) last))

-- What was written under a used name stays.
extract_files-keeps :
    (files : List DriveFile) (used_names : List Bytes) (folder : Folder)
    (entries : List ManifestEntry) (folder' : Folder) (name : Bytes)
    → is_in (lower name) used_names ≡ true
    → extract_files files used_names folder ≡ (ok entries, folder')
    → file_in folder' name ≡ file_in folder name
unfolding extract_files
extract_files-keeps [] used_names folder entries folder' name used h =
    ap (λ f. file_in f name) (sym (ap (λ p. p.1) h))
extract_files-keeps (file ∷ files) used_names folder entries folder' name used h =
    let (other, rest, safe, new, others) =
      extract_step file files used_names folder entries folder' h in
    let kept =
      extract_files-keeps files (lower other ∷ used_names) (write_file other file.content folder)
        rest folder' name (ground arith) others in
    elim (Bool-cases (bytes_eq name other)) [
      | inl e ↦
          let same = bytes_eq→eq name other e in
          let e' = ap (λ n. is_in (lower n) used_names) same in absurd (cc (e', used, new))
      | inr e ↦ kept ∙ rw e refl
    ]

-- The file is in the folder under its desktop name, unless the manifest took that name.
abbrev pub IsExtracted : Bytes → Folder → DriveFile → Type 0
IsExtracted manifest folder file =
    (name : Bytes) × (safe_desktop_name file.name ≡ ok name)
    × IsSafe name
    × (file_in folder name ≡ some (if bytes_eq name manifest_name then manifest else file.content))

found_in :
    (name content : Bytes) (folder : Folder) (manifest : Bytes)
    → file_in folder name ≡ some content
    → file_in (write_file manifest_name manifest folder) name
      ≡ some (if bytes_eq name manifest_name then manifest else content)
found_in name content folder manifest there = elim (Bool-cases (bytes_eq name manifest_name)) [
  | inl e ↦ rw e refl
  | inr e ↦ rw e there
]

extract_files-kept :
    (files : List DriveFile) (used_names : List Bytes) (folder : Folder)
    (entries : List ManifestEntry) (folder' : Folder) (manifest : Bytes)
    → extract_files files used_names folder ≡ (ok entries, folder')
    → All (IsExtracted manifest (write_file manifest_name manifest folder')) files
extract_files-kept [] used_names folder entries folder' manifest h = tt
extract_files-kept (file ∷ files) used_names folder entries folder' manifest h =
    let (name, rest, safe, new, others) =
      extract_step file files used_names folder entries folder' h in
    let kept =
      extract_files-keeps files (lower name ∷ used_names) (write_file name file.content folder) rest
        folder' name (ground (arith, bytes_eq_refl (lower name))) others in
    let there : file_in folder' name ≡ some file.content = kept ∙ rw (bytes_eq_refl name) refl in
    (
      (
        name,
        safe,
        safe_desktop_name-IsSafe file.name name safe,
        found_in name file.content folder' manifest there,
      ),
      extract_files-kept files (lower name ∷ used_names) (write_file name file.content folder) rest
          folder' manifest others,
    )

module _ (dumps : List ManifestEntry → Bytes) where
  -- Whenever `extract_qlay_image` returns, the image has been parsed, and every one of its files is
  -- in the folder under its safe desktop name with its whole content, but for a file that is named
  -- nanoql_manifest.json: there the folder holds the manifest.
  pub extract_qlay_image-IsExtracted :
      (image : Bytes) (folder folder' : Folder) (names : List Bytes)
      → extract_qlay_image dumps image folder ≡ (ok names, folder')
      → (files : List DriveFile) × (entries : List ManifestEntry) × (parse_qlay_image image
          ≡ ok files)
        × (names ≡ desktop_names entries)
        × All (IsExtracted (dumps entries ++ (0x0A ∷ [])) folder') files
  unfolding extract_qlay_image
  extract_qlay_image-IsExtracted image folder folder' names h =
      let (files, folder1, parsed, h1) = >>=-ok (lift (parse_qlay_image image)) _ folder h in
      let same = ap (λ p. p.1) parsed in
      let (entries, folder2, extracted, h2) = >>=-ok (extract_files files []) _ folder1 h1 in
      let last : write_file manifest_name (dumps entries ++ (0x0A ∷ [])) folder2 ≡ folder' =
        ap (λ p. p.1) h2 in
      (
        files,
        entries,
        ap (λ p. p.0) parsed,
        ok-injective (sym (ap (λ p. p.0) h2)),
        subst (λ f. All (IsExtracted (dumps entries ++ (0x0A ∷ [])) f) files) last
            (extract_files-kept files [] folder1 entries folder2 (dumps entries ++ (0x0A ∷ []))
              extracted),
      )
