-- ===== src/Drive/RemotePath.antt =====
-- tools/nanoql_link.py: `remote_path_bytes`. A text is the list of its code points.
pub mod Laws
use nano_ql.Base.{
  ℕ, Bool, ◌&&◌, ◌||◌, List, [], ◌∷◌, ltb, leb, ◌==◌, if◌then◌else◌, length, is_empty, any,
  bytes_eq, Bytes,
}
use nano_ql.Base.Exec.{value_error, Result, ok, err}

-- `value.replace(old, new)` for single characters.
unfoldable pub replace : ℕ → ℕ → List ℕ → List ℕ
replace old new [] = []
replace old new (c ∷ cs) = (if c == old then new else c) ∷ replace old new cs

unfoldable pub strip_left : List ℕ → List ℕ
strip_left [] = []
strip_left (c ∷ cs) = let rest = strip_left cs in if c == b'/' then rest else c ∷ cs

unfoldable pub strip_right : List ℕ → List ℕ
strip_right [] = []
strip_right (c ∷ cs) =
    let rest = strip_right cs in if c == b'/' && is_empty rest then [] else c ∷ rest

-- `value.strip("/")`
unfoldable pub strip : List ℕ → List ℕ
unfolding strip_left strip_right
strip cs = strip_right (strip_left cs)

-- The first component and the others, of `value.split("/")`.
abbrev pub extend : ℕ → List (List ℕ) → List (List ℕ)
extend c [] = (c ∷ []) ∷ []
extend c (part ∷ parts) = (c ∷ part) ∷ parts

unfoldable pub split : List ℕ → List (List ℕ)
split [] = [] ∷ []
split (c ∷ cs) = let rest = split cs in if c == b'/' then [] ∷ rest else extend c rest

-- `component in ("", ".", "..")`
unfoldable pub is_dotted : List ℕ → Bool
is_dotted part = is_empty part || bytes_eq part (b'.' ∷ []) || bytes_eq part (b'.' ∷ b'.' ∷ [])

-- `\\:*?"<>|`
abbrev pub forbidden : Bytes
forbidden = 0x5C ∷ b':' ∷ b'*' ∷ b'?' ∷ 0x22 ∷ b'<' ∷ b'>' ∷ b'|' ∷ []

unfoldable pub is_unsupported : ℕ → Bool
is_unsupported byte = ltb byte 0x20 || ltb 0x7E byte || any (λ f. byte == f) forbidden

unfoldable pub check_path : Bytes → Result Bytes
check_path normalized =
    if any is_dotted (split normalized)
    then err (value_error "Drive1 paths cannot contain empty, '.' or '..' components.")
    else if any (λ c. leb 128 c) normalized
    then err (value_error "Drive1 paths currently support printable ASCII characters only.")
    else if any is_unsupported normalized
    then err (value_error "The Drive1 path contains a character unsupported by FAT.")
    else if ltb 200 (length normalized)
    then err (value_error "The Drive1 path cannot exceed 200 characters.")
    else ok normalized

unfoldable pub remote_path_bytes : List ℕ → Bool → Result Bytes
remote_path_bytes value allow_empty =
    let normalized = strip (replace 0x5C b'/' value) in
    if is_empty normalized
    then (if allow_empty
        then ok []
        else err (value_error "A path inside NanoQL/Drive1 is required."))
    else check_path normalized
