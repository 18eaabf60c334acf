-- ===== src/Qlay/Parse/View.antt =====
-- What a list of sectors holds of a file's block, and that the order of the sectors does not
-- matter when no block is repeated.
use mathlib.Core.List.{reverse-cons, reverse}
use nano_ql.Base.{
  ℕ, ◌≡◌, refl, ap, ◌∙◌, Bool, true, false, ◌&&◌, ◌||◌, Option, none, some, List, [], ◌∷◌, ◌++◌,
  arith, ◌==◌, not, if◌then◌else◌, Bytes,
}
use nano_ql.Qlay.Build.{physical_order}
use nano_ql.Qlay.Parse.{is_no_file}
use nano_ql.Qlay.Sector.{Sector}

-- `none` counts as nothing found.
abbrev pub or_else {ℓ} : {A : Type ℓ} → Option A → Option A → Option A
or_else none o = o
or_else (some a) o = some a

abbrev pub matches : Sector → ℕ → ℕ → Bool
matches s file block = not (is_no_file s.file) && (s.file == file && s.block == block)

-- The payload of the first sector that holds this block of this file.
unfoldable pub look : List Sector → ℕ → ℕ → Option Bytes
look [] file block = none
look (s ∷ ss) file block = if matches s file block then some s.payload else look ss file block

-- No two sectors hold the same block.
unfoldable pub is_single : List Sector → Sector → Bool
unfolding look
is_single ss s = is_no_file s.file || elim (look ss s.file s.block) [ none ↦ true | some p ↦ false ]

abbrev pub NoRepeat : List Sector → Type 0
NoRepeat [] = Unit
NoRepeat (s ∷ ss) = (is_single ss s ≡ true) × NoRepeat ss

pub look-append :
    (xs ys : List Sector) (file block : ℕ)
    → look (xs ++ ys) file block ≡ or_else (look xs file block) (look ys file block)
unfolding look
look-append [] ys file block = refl
look-append (x ∷ xs) ys file block = ground (arith, look-append xs ys file block)

-- A sector beside a list that does not hold its block.
look_swap :
    (x : Sector) (xs : List Sector) (file block : ℕ)
    → is_single xs x ≡ true
    → or_else (look xs file block) (look (x ∷ []) file block) ≡ look (x ∷ xs) file block
unfolding look is_single
look_swap x xs file block h = ground arith

pub look-reverse :
    (xs : List Sector) (file block : ℕ)
    → NoRepeat xs
    → look (reverse xs) file block ≡ look xs file block
unfolding look
look-reverse [] file block g = refl
look-reverse (x ∷ xs) file block g =
    ap (λ t. look t file block) (reverse-cons x xs)
    ∙ (look-append (reverse xs) (x ∷ []) file block
        ∙ (ap (λ t. or_else t (look (x ∷ []) file block)) (look-reverse xs file block g.1)
            ∙ look_swap x xs file block g.0))

single_snoc :
    (x y : Sector) (xs : List Sector)
    → is_single xs x ≡ true
    → is_single (x ∷ xs) y ≡ true
    → is_single (xs ++ (y ∷ [])) x ≡ true
unfolding look is_single
single_snoc x y xs hx hy = ground (arith, look-append xs (y ∷ []) x.file x.block)

single_tail :
    (x y : Sector) (xs : List Sector) → is_single (x ∷ xs) y ≡ true → is_single xs y ≡ true
unfolding look is_single
single_tail x y xs h = ground arith

NoRepeat-snoc :
    (xs : List Sector) (y : Sector)
    → NoRepeat xs
    → is_single xs y ≡ true
    → NoRepeat (xs ++ (y ∷ []))
unfolding look is_single
NoRepeat-snoc [] y g h = (ground arith, tt)
NoRepeat-snoc (x ∷ xs) y g h =
    (single_snoc x y xs g.0 h, NoRepeat-snoc xs y g.1 (single_tail x y xs h))

single-reverse :
    (xs : List Sector) (y : Sector)
    → NoRepeat xs
    → is_single xs y ≡ true
    → is_single (reverse xs) y ≡ true
unfolding is_single
single-reverse xs y g h = rw (look-reverse xs y.file y.block g) h

pub NoRepeat-reverse : (xs : List Sector) → NoRepeat xs → NoRepeat (reverse xs)
NoRepeat-reverse [] g = tt
NoRepeat-reverse (x ∷ xs) g =
    rw (reverse-cons x xs)
      (NoRepeat-snoc (reverse xs) x (NoRepeat-reverse xs g.1) (single-reverse xs x g.1 g.0))

-- The sectors in the order of the tape.
pub look-physical_order :
    (ss : List Sector) (file block : ℕ)
    → NoRepeat ss
    → look (physical_order ss) file block ≡ look ss file block
unfolding look
look-physical_order [] file block g = refl
look-physical_order (s ∷ ss) file block g = rw (look-reverse ss file block g.1)

pub physical_order-NoRepeat : (ss : List Sector) → NoRepeat ss → NoRepeat (physical_order ss)
physical_order-NoRepeat [] g = tt
physical_order-NoRepeat (s ∷ ss) g = (single-reverse ss s g.1 g.0, NoRepeat-reverse ss g.1)
