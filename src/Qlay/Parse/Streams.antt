-- ===== src/Qlay/Parse/Streams.antt =====
-- The streams of a cartridge, as `build_qlay_image` places them.
use mathlib.Core.Path.{subst}
use nano_ql.Base.{
  ℕ, zero, suc, ◌+◌, ◌*◌, ◌≤◌, ◌<◌, ◌≡◌, refl, ◌∙◌, false, Option, none, some, List, [], ◌∷◌, arith,
  ltb, if◌then◌else◌, length, take, drop, Bytes,
}
use nano_ql.Base.Exec.{ok, ok-injective}
use nano_ql.Qlay.Build.{Layout, padded, block_count, place_blocks, place_streams, result_bind-ok}
use nano_ql.Qlay.Parse.{is_no_file}
use nano_ql.Qlay.Parse.Places.{upto, IsPlaced, place_blocks-IsPlaced}
use nano_ql.Qlay.Parse.View.{look}
use native.Mathlib.Decide.{ℕ_discrete, dec_lt, dec_le}

-- The block of a stream as it is stored.
abbrev pub stored_block : Bytes → ℕ → Bytes
stored_block stream block = padded 512 0 (take 512 (drop (512 * block) stream))

-- What the cartridge holds of a block of a file.
unfoldable pub content_of : List Bytes → ℕ → ℕ → Option Bytes
content_of [] file block = none
content_of (stream ∷ streams) zero block =
    if ltb block (block_count stream) then some (stored_block stream block) else none
content_of (stream ∷ streams) (suc file) block = content_of streams file block

number_is_file : (file : ℕ) → file < 0x80 → is_no_file file ≡ false
unfolding is_no_file
number_is_file file h = ground arith

module _ (content : ℕ → ℕ → Option Bytes) where
  upto_next :
      (file count f b : ℕ)
      → ((j : ℕ) → count ≤ j → content file j ≡ none)
      → upto content file count f b ≡ upto content (file + 1) 0 f b
  upto_next file count f b rest = elim (dec_eq_file) [
    | yes same ↦
        rw same (elim (dec_le count b) [
          | yes late ↦ ground (arith, rest b late)
          | no early ↦ ground arith
        ])
    | no other ↦ ground arith
  ]
    where
      dec_eq_file : Dec (f ≡ file)
      dec_eq_file = ℕ_discrete f file

  next_file :
      (file count : ℕ) (l : Layout)
      → ((j : ℕ) → count ≤ j → content file j ≡ none)
      → IsPlaced content file count l
      → IsPlaced content (file + 1) 0 l
  next_file file count l rest v = record {
    held = λ f b. v.held f b ∙ upto_next file count f b rest;
    single = v.single;
    linked_map = v.linked_map;
    map_entry = v.map_entry;
  }

  pub place_streams-IsPlaced :
      (file : ℕ) (streams : List Bytes) (l l' : Layout)
      → file + length streams ≤ 0x80
      → ((j b : ℕ) → content (file + j) b ≡ content_of streams j b)
      → IsPlaced content file 0 l
      → place_streams file streams l ≡ ok l'
      → IsPlaced content (file + length streams) 0 l'
  unfolding place_streams content_of
  place_streams-IsPlaced file [] l l' few here v h =
      subst (λ k. IsPlaced content k 0 l') (omega arith)
        (subst (IsPlaced content file 0) (ok-injective h) v)
  place_streams-IsPlaced file (stream ∷ streams) l l' few here v h =
      let (l1, placed, rest) =
        result_bind-ok (place_blocks (block_count stream) file 0 stream l) _ h in
      let e : file + 0 ≡ file = omega arith in
      let this : (b : ℕ) → content file b ≡ content_of (stream ∷ streams) 0 b =
        λ b. rw e at (here 0 b) in
      let blocks : (j : ℕ)
          → j < block_count stream
          → content file (0 + j) ≡ some (stored_block stream j) =
        λ j lt. let z : 0 + j ≡ j = omega arith in rw z (ground (arith, this j)) in
      let beyond : (j : ℕ) → block_count stream ≤ j → content file j ≡ none =
        λ j le. ground (arith, this j) in
      let z : 0 + block_count stream ≡ block_count stream = omega arith in
      let v1 =
        place_blocks-IsPlaced content (block_count stream) file 0 stream l l1
          (number_is_file file (omega arith)) blocks v placed in
      let v2 : IsPlaced content file (block_count stream) l1 = rw z at v1 in
      let later : (j b : ℕ) → content (file + 1 + j) b ≡ content_of streams j b =
        λ j b. let k : file + 1 + j ≡ file + suc j = omega arith in rw k (here (suc j) b) in
      subst (λ k. IsPlaced content k 0 l') (omega arith)
        (place_streams-IsPlaced (file + 1) streams l1 l' (omega arith) later
          (next_file file (block_count stream) l1 beyond v2) rest)

content_of_beyond :
    (streams : List Bytes) (f b : ℕ) → length streams ≤ f → content_of streams f b ≡ none
unfolding content_of
content_of_beyond [] f b h = refl
content_of_beyond (s ∷ streams) zero b h = absurd (omega arith)
content_of_beyond (s ∷ streams) (suc f) b h = content_of_beyond streams f b (omega arith)

-- All streams: the sectors hold the blocks of the streams and nothing else.
pub placed_all :
    (streams : List Bytes) (l : Layout)
    → IsPlaced (content_of streams) (length streams) 0 l
    → (f b : ℕ) → look l.sectors f b ≡ content_of streams f b
placed_all streams l v f b = elim (dec_lt f (length streams)) [
  | yes inside ↦ ground (arith, v.held f b)
  | no beyond ↦ ground (arith, v.held f b, content_of_beyond streams f b (omega arith))
]
