-- ===== src/Qlay/Parse/Joined.antt =====
-- The blocks of a file, joined to its stream with the padding of the last block.
use mathlib.Core.List.{append-nil, append_assoc}
use nano_ql.Base.{
  ℕ, zero, suc, ◌+◌, ◌-◌, ◌*◌, ◌≤◌, ◌<◌, ◌≡◌, refl, sym, ap, ◌∙◌, ◌⊎◌, inl, inr, Bool, true, false,
  Option, none, some, List, [], ◌∷◌, ◌++◌, arith, ltb, if◌then◌else◌, Option-cases, length,
  get_elem?, take, drop, replicate, length-take, length-drop, take-append-drop, take_all, drop-add,
  Bytes,
}
use nano_ql.Base.Exec.{ok}
use nano_ql.Qlay.Build.{padded, block_count}
use nano_ql.Qlay.Parse.{assoc, Blocks, last_block, join_blocks, joined_stream}
use nano_ql.Qlay.Parse.Collect.{find_block}
use nano_ql.Qlay.Parse.Streams.{stored_block, content_of}
use native.Mathlib.Decide.{dec_le}

content_of_stream :
    (contents : List Bytes) (f b : ℕ) (stream : Bytes)
    → get_elem? contents f ≡ some stream
    → content_of contents f b
      ≡ (if ltb b (block_count stream) then some (stored_block stream b) else none)
unfolding content_of
content_of_stream [] f b stream h = cc
content_of_stream (s ∷ contents) zero b stream h =
    let same : s ≡ stream = cc h in
    ap (λ t. if ltb b (block_count t) then some (stored_block t b) else none) same
content_of_stream (s ∷ contents) (suc f) b stream h = content_of_stream contents f b stream h

-- `max(blocks)` bounds the blocks and is one of them.
le-last_block :
    (blocks : Blocks) (b : ℕ) (p : Bytes) → assoc b blocks ≡ some p → b ≤ last_block blocks
le-last_block [] b p h = cc
le-last_block ((j, bytes) ∷ blocks) b p h = ground (arith, le-last_block blocks b p)

abbrev is_some : Option Bytes → Bool
is_some none = false
is_some (some p) = true

last_block_found :
    (j : ℕ) (bytes : Bytes) (blocks : Blocks)
    → is_some (assoc (last_block ((j, bytes) ∷ blocks)) ((j, bytes) ∷ blocks)) ≡ true
last_block_found j bytes [] = ground arith
last_block_found j bytes ((k, more) ∷ blocks) = ground (arith, last_block_found k more blocks)

-- The stored blocks from a block on.
join_stored : ℕ → ℕ → Bytes → Bytes
join_stored zero block stream = []
join_stored (suc n) block stream = stored_block stream block ++ join_stored n (block + 1) stream

join_blocks-stored :
    (n block : ℕ) (blocks : Blocks) (stream : Bytes)
    → ((j : ℕ) → j < n → assoc (block + j) blocks ≡ some (stored_block stream (block + j)))
    → join_blocks n block blocks ≡ ok (join_stored n block stream)
unfolding join_blocks join_stored
join_blocks-stored zero block blocks stream here = refl
join_blocks-stored (suc n) block blocks stream here =
    let e : block + 0 ≡ block = omega arith in
    let first : assoc block blocks ≡ some (stored_block stream block) =
      rw e at (here 0 (omega arith)) in
    let later : (j : ℕ)
        → j < n
        → assoc (block + 1 + j) blocks ≡ some (stored_block stream (block + 1 + j)) =
      λ j lt.
        let k : block + 1 + j ≡ block + (j + 1) = omega arith in
        rw k (here (j + 1) (omega arith)) in
    ground (arith, first, join_blocks-stored n (block + 1) blocks stream later)

stored_full :
    (stream : Bytes) (block : ℕ)
    → 512 ≤ length (drop (512 * block) stream)
    → stored_block stream block ≡ take 512 (drop (512 * block) stream)
unfolding padded
stored_full stream block long =
    let part = take 512 (drop (512 * block) stream) in
    let none_left : 512 - length part ≡ 0 =
      omega (arith, length-take 512 (drop (512 * block) stream)) in
    rw none_left (append-nil part)

join_stored-pad :
    (n block : ℕ) (stream : Bytes)
    → length (drop (512 * block) stream) ≤ 512 * n
    → (pad : Bytes) × (join_stored n block stream ≡ drop (512 * block) stream ++ pad)
unfolding join_stored padded
join_stored-pad zero block stream fits =
    ([], sym (append-nil _ ∙ empty_lem (drop (512 * block) stream) (omega arith)))
  where
    empty_lem : (xs : Bytes) → length xs ≤ 0 → xs ≡ []
    empty_lem [] h = refl
    empty_lem (x ∷ xs) h = absurd (omega arith)
join_stored-pad (suc n) block stream fits =
    let rest = drop (512 * block) stream in
    let next = drop (512 * (block + 1)) stream in
    let e : 512 * (block + 1) ≡ 512 * block + 512 = omega arith in
    let split : next ≡ drop 512 rest =
      ap (λ k. drop k stream) e ∙ drop-add (512 * block) 512 stream in
    let ih =
      join_stored-pad n (block + 1) stream (omega (arith, ap length split, length-drop 512 rest)) in
    elim (dec_le 512 (length rest)) [
      | yes long ↦ (
        ih.0,
        ap (λ t. t ++ join_stored n (block + 1) stream) (stored_full stream block long)
            ∙ (ap (λ t. take 512 rest ++ t) (ih.1 ∙ ap (λ t. t ++ ih.0) split)
                ∙ (sym (append_assoc (take 512 rest) (drop 512 rest) ih.0)
                    ∙ ap (λ t. t ++ ih.0) (take-append-drop 512 rest))),
      )
      | no short ↦
          let zeros : Bytes = replicate (512 - length (take 512 rest)) 0 in
          (
            zeros ++ join_stored n (block + 1) stream,
            append_assoc (take 512 rest) zeros (join_stored n (block + 1) stream)
                ∙ ap (λ t. t ++ (zeros ++ join_stored n (block + 1) stream))
                    (take_all 512 rest (omega arith)),
          )
    ]

module _ (streams : List (ℕ × Blocks)) (contents : List Bytes)
    (view : (f b : ℕ) → find_block streams f b ≡ content_of contents f b) where
  module _ (f : ℕ) (stream : Bytes) (at_f : get_elem? contents f ≡ some stream) where
    module _ (blocks : Blocks) (found : assoc f streams ≡ some blocks) where
      block_at :
          (b : ℕ)
          → assoc b blocks
            ≡ (if ltb b (block_count stream) then some (stored_block stream b) else none)
      block_at b = ground (arith, view f b, content_of_stream contents f b stream at_f)

      last_is : 0 < block_count stream → last_block blocks + 1 ≡ block_count stream
      last_is some_blocks = elim (blocks_cases blocks) [
        | inl none_there ↦ absurd (ground (arith, block_at 0))
        | inr (j, bytes, rest, e) ↦
            let last = last_block blocks in
            let inside : last < block_count stream =
              ground (arith, block_at last, e, last_block_found j bytes rest) in
            let reached : block_count stream - 1 ≤ last =
              le-last_block blocks (block_count stream - 1)
                (stored_block stream (block_count stream - 1))
                (ground (arith, block_at (block_count stream - 1))) in
            omega arith
      ]
        where
          blocks_cases :
              (bs : Blocks)
              → (bs ≡ []) ⊎ ((j : ℕ) × (bytes : Bytes) × (rest : Blocks) × (bs ≡ (j, bytes) ∷ rest))
          blocks_cases [] = inl refl
          blocks_cases ((j, bytes) ∷ rest) = inr (j, bytes, rest, refl)

      joined_blocks :
          0 < block_count stream
          → (pad : Bytes) × (join_blocks (last_block blocks + 1) 0 blocks ≡ ok (stream ++ pad))
      joined_blocks some_blocks =
          let count = last_is some_blocks in
          let stored : (j : ℕ)
              → j < block_count stream
              → assoc (0 + j) blocks ≡ some (stored_block stream (0 + j)) =
            λ j lt. ground (arith, block_at (0 + j)) in
          let (pad, e) = join_stored-pad (block_count stream) 0 stream (omega arith) in
          (
            pad,
            ap (λ n. join_blocks n 0 blocks) count
                ∙ (join_blocks-stored (block_count stream) 0 blocks stream stored ∙ ap ok e),
          )

    pub joined_stream_lem :
        0 < length stream → (pad : Bytes) × (joined_stream streams f ≡ ok (stream ++ pad))
    unfolding joined_stream
    joined_stream_lem some_bytes =
        let zero_there : find_block streams f 0 ≡ some (stored_block stream 0) =
          ground (arith, view f 0, content_of_stream contents f 0 stream at_f) in
        elim (Option-cases (assoc f streams)) [
          | inl none_there ↦ absurd (ground arith)
          | inr (blocks, found) ↦
              let (pad, e) = joined_blocks blocks found (omega arith) in (pad, ground (arith, e))
        ]
