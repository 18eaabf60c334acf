-- ===== src/Qlay/Parse/Collect.antt =====
-- What the loops of `parse_qlay_image` collect from the sectors of a cartridge.
use nano_ql.Base.{
  ℕ, ◌+◌, ◌*◌, ◌≡◌, refl, ap, ◌∙◌, inl, inr, Bool, true, false, ◌&&◌, Option, none, some, List, [],
  ◌∷◌, arith, ◌==◌, if◌then◌else◌, Bool-cases, get_or, slice, All, Bytes,
}
use nano_ql.Base.Exec.{value_error, Result, ok, err}
use nano_ql.Qlay.Build.Tape.{IsGood}
use nano_ql.Qlay.Parse.{assoc, assoc_set, Blocks, is_no_file, collect_sector, collect_streams}
use nano_ql.Qlay.Parse.Places.{linked}
use nano_ql.Qlay.Parse.View.{or_else, matches, look, is_single, NoRepeat}
use nano_ql.Qlay.Sector.{Sector}
use nano_ql.Qlay.Sector.Laws.{IsWellFormed, sector_bytes, slice-payload, get_or-file, get_or-block}

-- The block of a file in the dictionary `streams`.
abbrev pub find_block : List (ℕ × Blocks) → ℕ → ℕ → Option Bytes
find_block streams file block = elim (assoc file streams) [
  | none ↦ none
  | some blocks ↦ assoc block blocks
]

pub assoc-assoc_set {ℓ} :
    {A : Type ℓ} (k j : ℕ) (a : A) (xs : List (ℕ × A))
    → assoc j (assoc_set k a xs) ≡ (if k == j then some a else assoc j xs)
assoc-assoc_set k j a [] = refl
assoc-assoc_set k j a ((i, b) ∷ xs) = ground (arith, assoc-assoc_set k j a xs)

abbrev found_blocks : List (ℕ × Blocks) → ℕ → Blocks
found_blocks streams file = elim (assoc file streams) [ none ↦ [] | some found ↦ found ]

-- `streams.setdefault(file, {})[block] = payload`
abbrev pub add_block : ℕ → ℕ → Bytes → List (ℕ × Blocks) → List (ℕ × Blocks)
add_block file block payload streams =
    assoc_set file (assoc_set block payload (found_blocks streams file)) streams

find_block-add_block :
    (file block : ℕ) (payload : Bytes) (streams : List (ℕ × Blocks)) (f b : ℕ)
    → find_block (add_block file block payload streams) f b
      ≡ (if file == f && block == b then some payload else find_block streams f b)
find_block-add_block file block payload streams f b =
    let blocks = found_blocks streams file in
    ground (
      arith,
      assoc-assoc_set file f (assoc_set block payload blocks) streams,
      assoc-assoc_set block b payload blocks,
    )

-- The entry of the map for a sector agrees with the sector.
abbrev pub linked_at : Bytes → Sector → Bool
linked_at allocation_map s =
    linked s (get_or allocation_map (s.number * 2) 0) (get_or allocation_map (s.number * 2 + 1) 0)

-- The last test of `collect_sector`.
collect_new :
    (f b : ℕ) (payload : Bytes) (streams : List (ℕ × Blocks))
    → find_block streams f b ≡ none
    → (elim (assoc b (found_blocks streams f)) as (λ o. Result (List (ℕ × Blocks))) [
      | some repeated ↦ err (value_error "QLAY image repeats a block of a file.")
      | none ↦ ok (add_block f b payload streams)
    ])
      ≡ ok (add_block f b payload streams)
collect_new f b payload streams new = ground arith

abbrev clash : Option Bytes → Option Bytes → Bool
clash (some p) (some q) = true
clash o none = false
clash none (some q) = false

clash_next :
    (o n l : Option Bytes) (m : Bool) (p : Bytes)
    → n ≡ (if m then some p else o)
    → clash o (if m then some p else l) ≡ false
    → (m ≡ true → l ≡ none)
    → (clash n l ≡ false) × (or_else n l ≡ or_else o (if m then some p else l))
clash_next o n none true p e c alone = (ground arith, ground arith)
clash_next o n (some q) true p e c alone = let h = alone refl in cc
clash_next o n l false p e c alone = (ground arith, ground arith)

single_look :
    (s : Sector) (ss : List Sector) (f b : ℕ)
    → is_single ss s ≡ true
    → matches s f b ≡ true
    → look ss f b ≡ none
unfolding is_single
single_look s ss f b h m = ground arith

-- The numbered sectors of a list.
abbrev pub numbered : List Sector → List (ℕ × Bytes)
numbered [] = []
numbered (s ∷ ss) = (s.number, sector_bytes s) ∷ numbered ss

link_real :
    (s : Sector) (f b : ℕ)
    → linked s f b ≡ true
    → is_no_file s.file ≡ false
    → (f ≡ s.file) × (b ≡ s.block)
link_real s f b h real = ground arith

module _ (allocation_map : Bytes) where
  collect_spare :
      (s : Sector) (streams : List (ℕ × Blocks))
      → linked_at allocation_map s ≡ true
      → is_no_file s.file ≡ true
      → collect_sector allocation_map s.number (sector_bytes s) streams ≡ ok streams
  unfolding collect_sector
  collect_spare s streams h free = ground arith

  -- A sector whose map entry names a file, read from its bytes.
  collect_named :
      (number f b : ℕ) (sector : Bytes) (streams : List (ℕ × Blocks))
      → get_or allocation_map (number * 2) 0 ≡ f
      → get_or allocation_map (number * 2 + 1) 0 ≡ b
      → get_or sector 40 0 ≡ f
      → get_or sector 41 0 ≡ b
      → is_no_file f ≡ false
      → find_block streams f b ≡ none
      → collect_sector allocation_map number sector streams
        ≡ ok (add_block f b (slice 52 564 sector) streams)
  unfolding collect_sector
  collect_named number f b sector streams mf mb sf sb real new =
      ground (arith, collect_new f b (slice 52 564 sector) streams new)

  collect_block :
      (s : Sector) (streams : List (ℕ × Blocks))
      → IsWellFormed s
      → linked_at allocation_map s ≡ true
      → is_no_file s.file ≡ false
      → find_block streams s.file s.block ≡ none
      → collect_sector allocation_map s.number (sector_bytes s) streams
        ≡ ok (add_block s.file s.block s.payload streams)
  collect_block s streams w h real new =
      let (mf, mb) =
        link_real s (get_or allocation_map (s.number * 2) 0)
          (get_or allocation_map (s.number * 2 + 1) 0) h real in
      collect_named s.number s.file s.block (sector_bytes s) streams mf mb (get_or-file s w)
        (get_or-block s w) real new
      ∙ ap (λ p. ok (add_block s.file s.block p streams)) (slice-payload s w)

  -- One sector, in either case.
  collect_one :
      (s : Sector) (streams : List (ℕ × Blocks))
      → IsWellFormed s
      → linked_at allocation_map s ≡ true
      → (is_no_file s.file ≡ false → find_block streams s.file s.block ≡ none)
      → (next : List (ℕ × Blocks)) × (collect_sector allocation_map s.number
            (sector_bytes s)
            streams
          ≡ ok next)
        × ((f b : ℕ)
            → find_block next f b
              ≡ (if matches s f b then some s.payload else find_block streams f b))
  collect_one s streams w h new = elim (Bool-cases (is_no_file s.file)) [
    | inl free ↦ (streams, collect_spare s streams h free, λ f b. ground arith)
    | inr real ↦ (
      add_block s.file s.block s.payload streams,
      collect_block s streams w h real (new real),
      λ f b. ground (arith, find_block-add_block s.file s.block s.payload streams f b),
    )
  ]

  pub collect_streams-numbered :
      (ss : List Sector) (streams : List (ℕ × Blocks))
      → All IsGood ss
      → All (λ s. linked_at allocation_map s ≡ true) ss
      → NoRepeat ss
      → ((f b : ℕ) → clash (find_block streams f b) (look ss f b) ≡ false)
      → (result : List (ℕ × Blocks)) × (collect_streams allocation_map (numbered ss) streams
          ≡ ok result)
        × ((f b : ℕ) → find_block result f b ≡ or_else (find_block streams f b) (look ss f b))
  unfolding collect_streams look
  collect_streams-numbered [] streams good links single apart = (streams, refl, λ f b. ground arith)
  collect_streams-numbered (s ∷ ss) streams good links single apart =
      let (next, stepped, view) =
        collect_one s streams good.0.0 links.0 (λ real. ground (arith, apart s.file s.block)) in
      let step = λ (f b : ℕ).
        clash_next (find_block streams f b) (find_block next f b) (look ss f b) (matches s f b)
          s.payload (view f b) (apart f b) (single_look s ss f b single.0) in
      let (result, rest, view') =
        collect_streams-numbered ss next good.1 links.1 single.1 (λ f b. (step f b).0) in
      (result, rw stepped rest, λ f b. view' f b ∙ (step f b).1)
