-- ===== src/Qlay/Parse/Places.antt =====
-- The blocks that `build_qlay_image` has placed: what the sectors hold, that no block is repeated,
-- and that the map agrees with the sectors.
use mathlib.Core.Path.{subst}
use nano_ql.Base.{
  ℕ, zero, suc, ◌+◌, ◌*◌, ◌%◌, ◌<◌, ◌≡◌, Bool, true, false, ◌&&◌, ◌||◌, Option, none, some, List,
  [], ◌∷◌, arith, ltb, ◌==◌, if◌then◌else◌, get_elem?, set, take, drop, drop-add, Bytes,
}
use nano_ql.Base.Exec.{ok, ok-injective}
use nano_ql.Qlay.Build.{
  Layout, is_free, allocate, padded, update_sector, place_block, place_blocks, result_bind-ok,
}
use nano_ql.Qlay.Build.Allocate.{allocate-is_free}
use nano_ql.Qlay.Parse.{is_no_file}
use nano_ql.Qlay.Parse.View.{look, is_single, NoRepeat}
use nano_ql.Qlay.Sector.{map_file, Sector}

-- The sector at an index holds no block of a file.
abbrev pub spare : List Sector → ℕ → Bool
spare [] i = false
spare (s ∷ ss) zero = is_no_file s.file
spare (s ∷ ss) (suc i) = spare ss i

pub look-update_sector :
    (ss : List Sector) (i file block : ℕ) (payload : Bytes) (f b : ℕ)
    → spare ss i ≡ true
    → is_no_file file ≡ false
    → look ss file block ≡ none
    → look (update_sector ss i file block payload) f b
      ≡ (if file == f && block == b then some payload else look ss f b)
unfolding look update_sector
look-update_sector [] i file block payload f b free real new = cc
look-update_sector (s ∷ ss) zero file block payload f b free real new = ground arith
look-update_sector (s ∷ ss) (suc i) file block payload f b free real new =
    ground (arith, look-update_sector ss i file block payload f b)

NoRepeat-update_sector :
    (ss : List Sector) (i file block : ℕ) (payload : Bytes)
    → spare ss i ≡ true
    → is_no_file file ≡ false
    → look ss file block ≡ none
    → NoRepeat ss
    → NoRepeat (update_sector ss i file block payload)
unfolding look update_sector is_single
NoRepeat-update_sector [] i file block payload free real new g = tt
NoRepeat-update_sector (s ∷ ss) zero file block payload free real new g = (ground arith, g.1)
NoRepeat-update_sector (s ∷ ss) (suc i) file block payload free real new g =
    let rest_new : look ss file block ≡ none = ground arith in
    (
      ground (
        arith,
        g.0,
        look-update_sector ss i file block payload s.file s.block free real rest_new,
      ),
      NoRepeat-update_sector ss i file block payload free real rest_new g.1,
    )

-- A sector and its entry of the map: both free, or the same file and block.
abbrev pub linked : Sector → ℕ → ℕ → Bool
linked s file block = is_no_file s.file && is_no_file file || (s.file == file && s.block == block)

abbrev pub Linked : List Sector → List (ℕ × ℕ) → Type 0
Linked [] [] = Unit
Linked [] (entry ∷ mapping) = ⊥
Linked (s ∷ ss) [] = ⊥
Linked (s ∷ ss) (entry ∷ mapping) = (linked s entry.0 entry.1 ≡ true) × Linked ss mapping

Linked-set :
    (ss : List Sector) (mapping : List (ℕ × ℕ)) (i file block : ℕ) (payload : Bytes)
    → Linked ss mapping
    → Linked (update_sector ss i file block payload) (set mapping i (file, block))
unfolding update_sector
Linked-set [] [] i file block payload g = tt
Linked-set [] (entry ∷ mapping) i file block payload g = absurd g
Linked-set (s ∷ ss) [] i file block payload g = absurd g
Linked-set (s ∷ ss) (entry ∷ mapping) zero file block payload g = (ground arith, g.1)
Linked-set (s ∷ ss) (entry ∷ mapping) (suc i) file block payload g =
    (g.0, Linked-set ss mapping i file block payload g.1)

spare_of_free :
    (ss : List Sector) (mapping : List (ℕ × ℕ)) (i : ℕ)
    → Linked ss mapping
    → is_free mapping i ≡ true
    → spare ss i ≡ true
unfolding is_free is_no_file
spare_of_free [] [] i g h = cc
spare_of_free [] (entry ∷ mapping) i g h = absurd g
spare_of_free (s ∷ ss) [] i g h = absurd g
spare_of_free (s ∷ ss) (entry ∷ mapping) zero g h = ground (arith, g.0)
spare_of_free (s ∷ ss) (entry ∷ mapping) (suc i) g h = spare_of_free ss mapping i g.1 h

abbrev pub upto : (ℕ → ℕ → Option Bytes) → ℕ → ℕ → ℕ → ℕ → Option Bytes
upto content file block f b = if ltb f file || (f == file && ltb b block) then content f b else none

-- All blocks before this block of this file are placed, and no others.
pub record IsPlaced (content : ℕ → ℕ → Option Bytes) (file block : ℕ) (l : Layout) : Type 0 where
  pub held : (f b : ℕ) → look l.sectors f b ≡ upto content file block f b
  pub single : NoRepeat l.sectors
  pub linked_map : Linked l.sectors l.mapping
  pub map_entry : get_elem? l.mapping 0 ≡ some (map_file, 0)

first_kept :
    (mapping : List (ℕ × ℕ)) (i : ℕ) (entry : ℕ × ℕ)
    → get_elem? mapping 0 ≡ some (map_file, 0)
    → is_free mapping i ≡ true
    → get_elem? (set mapping i entry) 0 ≡ some (map_file, 0)
unfolding is_free
first_kept [] i entry h free = cc
first_kept (e ∷ mapping) zero entry h free = ground arith
first_kept (e ∷ mapping) (suc i) entry h free = h

module _ (content : ℕ → ℕ → Option Bytes) where
  held_next :
      (ss : List Sector) (i file block : ℕ) (payload : Bytes) (f b : ℕ)
      → look ss f b ≡ upto content file block f b
      → look ss file block ≡ none
      → spare ss i ≡ true
      → is_no_file file ≡ false
      → content file block ≡ some payload
      → look (update_sector ss i file block payload) f b ≡ upto content file (block + 1) f b
  held_next ss i file block payload f b held new free real some_content =
      ground (arith, look-update_sector ss i file block payload f b free real new)

  place_block-IsPlaced :
      (file block : ℕ) (chunk : Bytes) (l l' : Layout)
      → is_no_file file ≡ false
      → content file block ≡ some (padded 512 0 chunk)
      → IsPlaced content file block l
      → place_block file block chunk l ≡ ok l'
      → IsPlaced content file (block + 1) l'
  unfolding place_block
  place_block-IsPlaced file block chunk l l' real here v h =
      let (i, found, h1) = result_bind-ok (allocate l.mapping l.current) _ h in
      let mapping = set l.mapping i (file, block) in
      let (current, next, h2) = result_bind-ok (allocate mapping ((i + 242) % 255)) _ h1 in
      let free = allocate-is_free l.mapping l.current i found in
      let empty = spare_of_free l.sectors l.mapping i v.linked_map free in
      let new : look l.sectors file block ≡ none = ground (arith, v.held file block) in
      subst (IsPlaced content file (block + 1)) (ok-injective h2) (record {
        held = λ f b.
            held_next l.sectors i file block (padded 512 0 chunk) f b (v.held f b) new empty real
              here;
        single =
            NoRepeat-update_sector l.sectors i file block (padded 512 0 chunk) empty real new
              v.single;
        linked_map = Linked-set l.sectors l.mapping i file block (padded 512 0 chunk) v.linked_map;
        map_entry = first_kept l.mapping i (file, block) v.map_entry free;
      })

  pub place_blocks-IsPlaced :
      (n file block : ℕ) (stream : Bytes) (l l' : Layout)
      → is_no_file file ≡ false
      → ((j : ℕ)
          → j < n
          → content file (block + j) ≡ some (padded 512 0 (take 512 (drop (512 * j) stream))))
      → IsPlaced content file block l
      → place_blocks n file block stream l ≡ ok l'
      → IsPlaced content file (block + n) l'
  unfolding place_blocks
  place_blocks-IsPlaced zero file block stream l l' real here v h =
      subst (λ k. IsPlaced content file k l') (omega arith)
        (subst (IsPlaced content file block) (ok-injective h) v)
  place_blocks-IsPlaced (suc n) file block stream l l' real here v h =
      let (l1, placed, rest) = result_bind-ok (place_block file block (take 512 stream) l) _ h in
      let first : content file block ≡ some (padded 512 0 (take 512 stream)) =
        let e : block + 0 ≡ block = omega arith in rw e at (here 0 (omega arith)) in
      let later = λ (j : ℕ) (lt : j < n).
        let e : block + (j + 1) ≡ block + 1 + j = omega arith in
        let d : 512 * (j + 1) ≡ 512 + 512 * j = omega arith in
        rw (e, d, drop-add 512 (512 * j) stream) at (here (j + 1) (omega arith)) in
      subst (λ k. IsPlaced content file k l') (omega arith)
        (place_blocks-IsPlaced n file (block + 1) (drop 512 stream) l1 l' real later
          (place_block-IsPlaced file block (take 512 stream) l l1 real first v placed) rest)
