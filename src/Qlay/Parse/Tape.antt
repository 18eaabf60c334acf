-- ===== src/Qlay/Parse/Tape.antt =====
-- The sectors that `parse_qlay_image` reads from a tape, and their entries of the map.
use mathlib.Core.List.{append-nil, append_assoc}
use mathlib.Core.Path.{subst}
use nano_ql.Base.{
  ℕ, zero, suc, ◌+◌, ◌*◌, ◌≡◌, refl, sym, ap, ◌∙◌, true, false, none, List, [], ◌∷◌, ◌++◌, map,
  arith, length, get_or, All, length-append, take-append, drop-append, Bytes,
}
use nano_ql.Qlay.Build.{map_entries}
use nano_ql.Qlay.Build.Keeps.{counting}
use nano_ql.Qlay.Build.Tape.{IsGood, number_of, joined, fresh}
use nano_ql.Qlay.Parse.{assoc, assoc_set, usable_sectors}
use nano_ql.Qlay.Parse.Collect.{linked_at, numbered}
use nano_ql.Qlay.Parse.Places.{Linked}
use nano_ql.Qlay.Parse.View.{or_else}
use nano_ql.Qlay.Sector.{Sector}
use nano_ql.Qlay.Sector.Laws.{
  IsWellFormed, sector_bytes, get_or-header_flag, get_or-number, length-sector_bytes,
}
use nano_ql.Qlay.Validate.{member}

assoc_set_new {ℓ} :
    {A : Type ℓ} (k : ℕ) (a : A) (xs : List (ℕ × A))
    → assoc k xs ≡ none
    → assoc_set k a xs ≡ xs ++ ((k, a) ∷ [])
assoc_set_new k a [] h = refl
assoc_set_new k a ((j, b) ∷ xs) h = ground (arith, assoc_set_new k a xs)

assoc-append {ℓ} :
    {A : Type ℓ} (k : ℕ) (xs ys : List (ℕ × A))
    → assoc k (xs ++ ys) ≡ or_else (assoc k xs) (assoc k ys)
assoc-append k [] ys = refl
assoc-append k ((j, b) ∷ xs) ys = ground (arith, assoc-append k xs ys)

assoc_after :
    (k n : ℕ) (bytes : Bytes) (seen : List ℕ) (found : List (ℕ × Bytes))
    → (member k seen ≡ false → assoc k found ≡ none)
    → member k (n ∷ seen) ≡ false
    → assoc k (found ++ ((n, bytes) ∷ [])) ≡ none
assoc_after k n bytes seen found apart h =
    let old : assoc k found ≡ none = apart (ground arith) in
    ground (arith, assoc-append k found ((n, bytes) ∷ []))

usable_step :
    (n : ℕ) (s : Sector) (image : Bytes) (found : List (ℕ × Bytes))
    → IsWellFormed s
    → s.header_flag ≡ 0xFF
    → usable_sectors (suc n) (sector_bytes s ++ image) found
      ≡ usable_sectors n image (assoc_set s.number (sector_bytes s) found)
unfolding usable_sectors
usable_step n s image found w usable = ground (
  arith,
  take-append 686 (sector_bytes s) image (sym (length-sector_bytes s w)),
  drop-append 686 (sector_bytes s) image (sym (length-sector_bytes s w)),
  get_or-header_flag s w,
  get_or-number s w,
)

-- The numbers of the sectors in a dictionary stay apart.
pub usable_sectors-numbered :
    (ss : List Sector) (found : List (ℕ × Bytes)) (seen : List ℕ)
    → All IsGood ss
    → fresh seen (map number_of ss) ≡ true
    → ((k : ℕ) → member k seen ≡ false → assoc k found ≡ none)
    → usable_sectors (length ss) (joined ss) found ≡ found ++ numbered ss
unfolding usable_sectors
usable_sectors-numbered [] found seen good new apart = sym (append-nil found)
usable_sectors-numbered (s ∷ ss) found seen good new apart =
    let w = good.0.0 in
    let is_new : member s.number seen ≡ false = ground arith in
    let rest_new : fresh (s.number ∷ seen) (map number_of ss) ≡ true = ground arith in
    let absent = apart s.number is_new in
    let found' = found ++ ((s.number, sector_bytes s) ∷ []) in
    let apart' : (k : ℕ) → member k (s.number ∷ seen) ≡ false → assoc k found' ≡ none =
      λ k h. assoc_after k s.number (sector_bytes s) seen found (apart k) h in
    usable_step (length ss) s (joined ss) found w good.0.1
    ∙ (ap (usable_sectors (length ss) (joined ss))
          (assoc_set_new s.number (sector_bytes s) found absent)
        ∙ (usable_sectors-numbered ss found' (s.number ∷ seen) good.1 rest_new apart'
            ∙ append_assoc found ((s.number, sector_bytes s) ∷ []) (numbered ss)))

-- A list behind another.
get_or_after : (xs ys : Bytes) (j n : ℕ) → n ≡ length xs + j → get_or (xs ++ ys) n 0 ≡ get_or ys j 0
get_or_after [] ys j n e = let e' : n ≡ j = omega arith in rw e' refl
get_or_after (x ∷ xs) ys j zero e = absurd (omega arith)
get_or_after (x ∷ xs) ys j (suc n) e = get_or_after xs ys j n (omega arith)

-- The map as bytes agrees with every numbered sector.
pub Linked-entries :
    (ss : List Sector) (mapping : List (ℕ × ℕ)) (before rest : Bytes) (k : ℕ)
    → length before ≡ 2 * k
    → map number_of ss ≡ counting (length ss) k
    → Linked ss mapping
    → All (λ s. linked_at (before ++ (map_entries mapping ++ rest)) s ≡ true) ss
unfolding map_entries
Linked-entries [] mapping before rest k size numbers g = tt
Linked-entries (s ∷ ss) [] before rest k size numbers g = absurd g
Linked-entries (s ∷ ss) ((file, block) ∷ mapping) before rest k size numbers g =
    let number : s.number ≡ k = cc numbers in
    let others : map number_of ss ≡ counting (length ss) (k + 1) = cc numbers in
    let tail = map_entries mapping ++ rest in
    let at_file = get_or_after before (file ∷ block ∷ tail) 0 (k * 2) (omega arith) in
    let at_block = get_or_after before (file ∷ block ∷ tail) 1 (k * 2 + 1) (omega arith) in
    let later =
      Linked-entries ss mapping (before ++ (file ∷ block ∷ [])) rest (k + 1)
        (omega (arith, length-append before (file ∷ block ∷ []))) others g.1 in
    (
      rw (number, at_file, at_block) g.0,
      subst (λ am. All (λ s. linked_at am s ≡ true) ss)
          (append_assoc before (file ∷ block ∷ []) tail) later,
    )
