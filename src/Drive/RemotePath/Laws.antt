-- ===== src/Drive/RemotePath/Laws.antt =====
-- What an accepted Drive1 path looks like, and that accepting it again changes nothing.
use nano_ql.Base.{
  ℕ, ◌≤◌, ◌≡◌, refl, sym, ap, ◌∙◌, ◌≢◌, inl, inr, false, List, [], ◌∷◌, ◌++◌, arith, leb,
  Bool-cases, length, All, is_empty, any, bytes_eq, Bytes,
}
use nano_ql.Base.Exec.{ok}
use nano_ql.Card.Unmanaged.{others}
use nano_ql.Drive.RemotePath.{
  replace, strip_left, strip_right, strip, split, is_dotted, is_unsupported, check_path,
  remote_path_bytes,
}
use native.Mathlib.Decide.{ℕ_discrete}

-- What the tests of `check_path` let through.
record IsAccepted (p : Bytes) : Type 0 where
  not_empty : is_empty p ≡ false
  short : length p ≤ 200
  no_dots : any is_dotted (split p) ≡ false
  supported : any is_unsupported p ≡ false

-- A printable ASCII character that FAT allows in a path.
abbrev pub IsPathByte : ℕ → Type 0
IsPathByte c =
    (0x20 ≤ c)
    × (c ≤ 0x7E)
    × (c ≢ b'\\')
    × (c ≢ b':')
    × (c ≢ b'*')
    × (c ≢ b'?')
    × (c ≢ 0x22)
    × (c ≢ b'<')
    × (c ≢ b'>')
    × (c ≢ b'|')

-- A name between two slashes.
abbrev pub IsComponent : Bytes → Type 0
IsComponent part =
    (part ≢ []) × (part ≢ b'.' ∷ []) × (part ≢ b'.' ∷ b'.' ∷ []) × All (λ c. c ≢ b'/') part

-- Names with slashes between them.
unfoldable pub joined : Bytes → List Bytes → Bytes
joined part [] = part
joined part (next ∷ parts) = part ++ (b'/' ∷ joined next parts)

-- The paths that the firmware is sent.
-- What the tests of `check_path` say of a character and of a component.
supported_byte : (c : ℕ) → is_unsupported c ≡ false → IsPathByte c
unfolding is_unsupported
supported_byte c h = (
  ground arith,
  ground arith,
  λ e. ground arith,
  λ e. ground arith,
  λ e. ground arith,
  λ e. ground arith,
  λ e. ground arith,
  λ e. ground arith,
  λ e. ground arith,
  λ e. ground arith,
)

supported_bytes : (p : Bytes) → any is_unsupported p ≡ false → All IsPathByte p
supported_bytes [] h = tt
supported_bytes (c ∷ cs) h = (supported_byte c (ground arith), supported_bytes cs (ground arith))

dotted_self :
    (part : Bytes)
    → is_dotted part ≡ false
    → (part ≢ []) × (part ≢ b'.' ∷ []) × (part ≢ b'.' ∷ b'.' ∷ [])
unfolding is_dotted bytes_eq
dotted_self part h = (
  λ e. cc (sym h ∙ ap is_dotted e),
  λ e. cc (sym h ∙ ap is_dotted e),
  λ e. cc (sym h ∙ ap is_dotted e),
)

abbrev HasNoSlash : Bytes → Type 0
HasNoSlash = All (λ c. c ≢ b'/')

every_name :
    (parts : List Bytes)
    → any is_dotted parts ≡ false
    → All HasNoSlash parts
    → All IsComponent parts
every_name [] h plain = tt
every_name (part ∷ parts) h plain =
    let (full, dot, dots) = dotted_self part (ground arith) in
    ((full, dot, dots, plain.0), every_name parts (ground arith) plain.1)

joined-cons :
    (c : ℕ) (part : Bytes) (parts : List Bytes) → joined (c ∷ part) parts ≡ c ∷ joined part parts
unfolding joined
joined-cons c part [] = refl
joined-cons c part (next ∷ parts) = refl

-- `split` takes a path apart at its slashes.
split-joined :
    (cs : Bytes)
    → (part : Bytes) × (parts : List Bytes) × (split cs ≡ part ∷ parts)
      × (cs ≡ joined part parts)
      × HasNoSlash part
      × All HasNoSlash parts
unfolding split joined
split-joined [] = ([], [], refl, refl, tt, tt)
split-joined (c ∷ cs) =
    let (part, parts, apart, together, plain, others) = split-joined cs in
    elim (ℕ_discrete c b'/') [
      | yes slash ↦ ([], part ∷ parts, ground arith, rw (slash, together) refl, tt, (plain, others))
      | no other ↦ (
        c ∷ part,
        parts,
        ground arith,
        ap (λ t. c ∷ t) together ∙ sym (joined-cons c part parts),
        (other, plain),
        others,
      )
    ]

pub record IsDrivePath (p : Bytes) : Type 0 where
  pub not_empty : 1 ≤ length p
  pub short : length p ≤ 200
  pub printable : All IsPathByte p
  pub first : Bytes
  pub others : List Bytes
  pub path : p ≡ joined first others
  pub first_name : IsComponent first
  pub other_names : All IsComponent others

check_path-IsAccepted :
    (x p : Bytes) → is_empty x ≡ false → check_path x ≡ ok p → (p ≡ x) × IsAccepted x
unfolding check_path
check_path-IsAccepted x p full h = ground arith

strip_right-strip_right : (cs : List ℕ) → strip_right (strip_right cs) ≡ strip_right cs
unfolding strip_right
strip_right-strip_right [] = refl
strip_right-strip_right (c ∷ cs) = ground (arith, strip_right-strip_right cs)

-- Stripping the right end keeps a first character that is no slash.
strip_left-strip_right :
    (cs : List ℕ) → strip_left (strip_right (strip_left cs)) ≡ strip_right (strip_left cs)
unfolding strip_left strip_right
strip_left-strip_right [] = refl
strip_left-strip_right (c ∷ cs) = ground (arith, strip_left-strip_right cs)

pub strip-strip : (cs : List ℕ) → strip (strip cs) ≡ strip cs
unfolding strip
strip-strip cs = rw (strip_left-strip_right cs) (strip_right-strip_right (strip_left cs))

replace-supported : (x : Bytes) → any is_unsupported x ≡ false → replace 0x5C b'/' x ≡ x
unfolding replace is_unsupported
replace-supported [] h = refl
replace-supported (c ∷ cs) h = ground (arith, replace-supported cs)

any_non_ascii : (x : Bytes) → any is_unsupported x ≡ false → any (λ c. leb 128 c) x ≡ false
unfolding is_unsupported
any_non_ascii [] h = refl
any_non_ascii (c ∷ cs) h = ground (arith, any_non_ascii cs)

check_path_self : (p : Bytes) → IsAccepted p → check_path p ≡ ok p
unfolding check_path
check_path_self p v = ground (arith, any_non_ascii p v.supported)

let_through :
    (value p : Bytes)
    → remote_path_bytes value false ≡ ok p
    → (p ≡ strip (replace 0x5C b'/' value)) × IsAccepted p
unfolding remote_path_bytes
let_through value p h = elim (Bool-cases (is_empty (strip (replace 0x5C b'/' value)))) [
  | inl e ↦ absurd (ground arith)
  | inr e ↦
      let r = check_path-IsAccepted (strip (replace 0x5C b'/' value)) p e (ground arith) in
      (r.0, rw r.0 r.1)
]

full_length : (p : Bytes) → is_empty p ≡ false → 1 ≤ length p
full_length [] h = cc
full_length (c ∷ cs) h = omega arith

accepted-IsDrivePath : (p : Bytes) → IsAccepted p → IsDrivePath p
accepted-IsDrivePath p v =
    let (part, parts, apart, together, plain, others) = split-joined p in
    let names =
      every_name (part ∷ parts) (ap (any is_dotted) (sym apart) ∙ v.no_dots) (plain, others) in
    record {
      not_empty = full_length p v.not_empty;
      short = v.short;
      printable = supported_bytes p v.supported;
      first = part;
      others = parts;
      path = together;
      first_name = names.0;
      other_names = names.1;
    }

-- A path that `remote_path_bytes` accepts has 1 to 200 characters, each of them printable ASCII and
-- none of \ : * ? " < > |, and it is a list of names joined by slashes, none of them empty, "." or
-- "..".
pub remote_path_bytes-IsDrivePath :
    (value p : Bytes) → remote_path_bytes value false ≡ ok p → IsDrivePath p
remote_path_bytes-IsDrivePath value p h = accepted-IsDrivePath p (let_through value p h).1

-- An accepted path is in normal form: it is accepted again, unchanged.
pub remote_path_bytes_self :
    (value p : Bytes) → remote_path_bytes value false ≡ ok p → remote_path_bytes p false ≡ ok p
unfolding remote_path_bytes
remote_path_bytes_self value p h =
    let (e, valid) = let_through value p h in
    let same : strip p ≡ p = rw e (strip-strip (replace 0x5C b'/' value)) in
    rw (replace-supported p valid.supported, same, valid.not_empty) (check_path_self p valid)
