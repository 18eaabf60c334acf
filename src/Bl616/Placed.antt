-- ===== src/Bl616/Placed.antt =====
-- `build_full_flash_image`: the segments in the image.
use nano_ql.Base.{
  ℕ, zero, suc, ◌+◌, ◌-◌, ◌≤◌, ◌<◌, ◌≡◌, refl, sym, ap, ◌∙◌, inl, inr, Bool, true, false, ◌&&◌,
  List, [], ◌∷◌, ◌++◌, arith, ltb, leb, ◌==◌, if◌then◌else◌, Bool-cases, length, get_elem?, take,
  drop, replicate, slice, All, is_empty, any, length-append, length-take, length-drop,
  length-replicate, Bytes,
}
use nano_ql.Base.Exec.{ok, ok-injective}
use nano_ql.Bl616.{
  Segment, segment_end, image_end, splice, overlaps, fill, segment_lt, insert_segment,
  sort_segments, build_full_flash_image,
}

splice-suc :
    (a x : ℕ) (bytes image : Bytes) → splice (suc a) bytes (x ∷ image) ≡ x ∷ splice a bytes image
unfolding splice
splice-suc a x bytes image =
    let e : suc a + length bytes ≡ suc (a + length bytes) = omega arith in
    ap (λ n. x ∷ (take a image ++ (bytes ++ drop n (x ∷ image)))) e

get_elem?-splice :
    (a : ℕ) (bytes image : Bytes) (k : ℕ)
    → a + length bytes ≤ length image
    → get_elem? (splice a bytes image) k
      ≡ (if leb a k && ltb k (a + length bytes) then get_elem? bytes (k - a) else get_elem? image k)
unfolding splice
get_elem?-splice zero bytes image k fits = front bytes image k fits
  where
    front :
        (bytes image : Bytes) (k : ℕ)
        → 0 + length bytes ≤ length image
        → get_elem? (bytes ++ drop (0 + length bytes) image) k ≡ (
            if leb 0 k && ltb k (0 + length bytes)
            then get_elem? bytes (k - 0)
            else get_elem? image k)
    front [] image k fits = ground arith
    front (b ∷ bytes) [] k fits = absurd (omega arith)
    front (b ∷ bytes) (x ∷ image) zero fits = ground arith
    front (b ∷ bytes) (x ∷ image) (suc k) fits =
        let e : 0 + length (b ∷ bytes) ≡ suc (0 + length bytes) = omega arith in
        rw e (ground (arith, front bytes image k (omega arith)))
get_elem?-splice (suc a) bytes [] k fits = absurd (omega arith)
get_elem?-splice (suc a) bytes (x ∷ image) k fits =
    let e : suc a + length bytes ≡ suc (a + length bytes) = omega arith in
    ap (λ i. get_elem? i k) (splice-suc a x bytes image)
    ∙ rw e (step k (λ j. get_elem?-splice a bytes image j (omega arith)))
  where
    step :
        (k : ℕ)
        → ((j : ℕ)
            → get_elem? (splice a bytes image) j ≡ (
                if leb a j && ltb j (a + length bytes)
                then get_elem? bytes (j - a)
                else get_elem? image j))
        → get_elem? (x ∷ splice a bytes image) k ≡ (
            if leb (suc a) k && ltb k (suc (a + length bytes))
            then get_elem? bytes (k - suc a)
            else get_elem? (x ∷ image) k)
    step zero ih = ground arith
    step (suc k) ih = ground (arith, ih k)

length-splice :
    (a : ℕ) (bytes image : Bytes)
    → a + length bytes ≤ length image
    → length (splice a bytes image) ≡ length image
unfolding splice
length-splice a bytes image fits = omega (
  arith,
  length-append (take a image) (bytes ++ drop (a + length bytes) image),
  length-append bytes (drop (a + length bytes) image),
  length-take a image,
  length-drop (a + length bytes) image,
)

-- The segments end within the image.
abbrev AreWithin : ℕ → List Segment → Type 0
AreWithin size = All (λ s. segment_end s ≤ size)

-- A range that is taken, and none of the segment.
abbrev is_taken : ℕ → ℕ → List (ℕ × ℕ) → Bool
is_taken a e occupied = any (λ r. a == r.0 && e == r.1) occupied

taken_apart :
    (a e address end : ℕ) (occupied : List (ℕ × ℕ))
    → is_taken a e occupied ≡ true
    → overlaps address end occupied ≡ false
    → (ltb address e && ltb a end) ≡ false
taken_apart a e address end [] h o = cc h
taken_apart a e address end ((b, f) ∷ occupied) h o = elim (Bool-cases (a == b && e == f)) [
  | inl same ↦ ground arith
  | inr other ↦ taken_apart a e address end occupied (ground arith) (ground arith)
]

module _ (s : Segment) (ss : List Segment) (occupied : List (ℕ × ℕ)) (image image' : Bytes) where
  fill_step :
      fill (s ∷ ss) occupied image ≡ ok image'
      → (overlaps s.address (segment_end s) occupied ≡ false)
        × (fill ss ((s.address, segment_end s) ∷ occupied) (splice s.address s.content image)
            ≡ ok image')
  unfolding fill
  fill_step h = elim (Bool-cases (overlaps s.address (segment_end s) occupied)) [
    | inl e ↦ absurd (ground arith)
    | inr e ↦ (e, rw e at h)
  ]

-- The bytes of a range that is taken stay, and so does the length.
fill-keeps :
    (ss : List Segment) (occupied : List (ℕ × ℕ)) (image image' : Bytes)
    → AreWithin (length image) ss
    → fill ss occupied image ≡ ok image'
    → (length image' ≡ length image)
      × ((a e k : ℕ)
          → is_taken a e occupied ≡ true
          → a ≤ k
          → k < e
          → get_elem? image' k ≡ get_elem? image k)
unfolding fill
fill-keeps [] occupied image image' g h =
    let same = ok-injective h in
    (ap length (sym same), λ a e k t l r. ap (λ i. get_elem? i k) (sym same))
fill-keeps (s ∷ ss) occupied image image' g h =
    let (apart, later) = fill_step s ss occupied image image' h in
    let size = length-splice s.address s.content image g.0 in
    let (long, kept) =
      fill-keeps ss ((s.address, segment_end s) ∷ occupied) (splice s.address s.content image)
        image' (rw size g.1) later in
    (
      long ∙ size,
      λ a e k t l r.
          let outside = taken_apart a e s.address (segment_end s) occupied t apart in
          let same : get_elem? (splice s.address s.content image) k ≡ get_elem? image k =
            get_elem?-splice s.address s.content image k g.0 ∙ ground arith in
          kept a e k (ground arith) l r ∙ same,
    )

-- The bytes of the segment stand at its address.
abbrev IsPlacedIn : Bytes → Segment → Type 0
IsPlacedIn image s =
    (j : ℕ) → j < length s.content → get_elem? image (s.address + j) ≡ get_elem? s.content j

fill-IsPlacedIn :
    (ss : List Segment) (occupied : List (ℕ × ℕ)) (image image' : Bytes)
    → AreWithin (length image) ss
    → fill ss occupied image ≡ ok image'
    → All (IsPlacedIn image') ss
unfolding fill
fill-IsPlacedIn [] occupied image image' g h = tt
fill-IsPlacedIn (s ∷ ss) occupied image image' g h =
    let (apart, later) = fill_step s ss occupied image image' h in
    let size = length-splice s.address s.content image g.0 in
    let taken = (s.address, segment_end s) ∷ occupied in
    let g' : AreWithin (length (splice s.address s.content image)) ss = rw size g.1 in
    let (long, kept) = fill-keeps ss taken (splice s.address s.content image) image' g' later in
    (
      λ j lt.
          let i : s.address + j - s.address ≡ j = omega arith in
          let there : get_elem? (splice s.address s.content image) (s.address + j)
              ≡ get_elem? s.content j =
            get_elem?-splice s.address s.content image (s.address + j) g.0 ∙ ground (arith, i) in
          kept s.address (segment_end s) (s.address + j) (ground arith) (omega arith) (omega arith)
          ∙ there,
      fill-IsPlacedIn ss taken (splice s.address s.content image) image' g' later,
    )

take_equal :
    (ys xs : Bytes)
    → ((j : ℕ) → j < length ys → get_elem? xs j ≡ get_elem? ys j)
    → take (length ys) xs ≡ ys
take_equal [] xs h = refl
take_equal (y ∷ ys) [] h = cc (h 0 (omega arith))
take_equal (y ∷ ys) (x ∷ xs) h =
    let first : x ≡ y = cc (h 0 (omega arith)) in
    λ i. first i ∷ take_equal ys xs (λ j lt. h (suc j) (omega arith)) i

get_elem?-drop : (a j : ℕ) (xs : Bytes) → get_elem? (drop a xs) j ≡ get_elem? xs (a + j)
get_elem?-drop zero j xs = let e : 0 + j ≡ j = omega arith in rw e refl
get_elem?-drop (suc a) j [] = refl
get_elem?-drop (suc a) j (x ∷ xs) =
    let e : suc a + j ≡ suc (a + j) = omega arith in rw e (get_elem?-drop a j xs)

abbrev pub IsStored : Bytes → Segment → Type 0
IsStored image s = slice s.address (segment_end s) image ≡ s.content

IsPlacedIn-IsStored : (image : Bytes) (s : Segment) → IsPlacedIn image s → IsStored image s
IsPlacedIn-IsStored image s placed =
    let e : segment_end s - s.address ≡ length s.content = omega arith in
    rw e (
      take_equal s.content (drop s.address image)
        λ j lt. get_elem?-drop s.address j image ∙ placed j lt)

All-IsStored :
    (image : Bytes) (ss : List Segment) → All (IsPlacedIn image) ss → All (IsStored image) ss
All-IsStored image [] g = tt
All-IsStored image (s ∷ ss) g = (IsPlacedIn-IsStored image s g.0, All-IsStored image ss g.1)

AreWithin-more : (ss : List Segment) (n m : ℕ) → n ≤ m → AreWithin n ss → AreWithin m ss
AreWithin-more [] n m h g = tt
AreWithin-more (s ∷ ss) n m h g = (omega (arith, g.0), AreWithin-more ss n m h g.1)

AreWithin-image_end : (ss : List Segment) → AreWithin (image_end ss) ss
AreWithin-image_end [] = tt
AreWithin-image_end (s ∷ ss) = (
  omega arith,
  AreWithin-more ss (image_end ss) (image_end (s ∷ ss)) (omega arith) (AreWithin-image_end ss),
)

module _ (path_lt : Bytes → Bytes → Bool) (P : Segment → Type 0) where
  insert-All :
      (s : Segment) (ss : List Segment)
      → (P s × All P ss → All P (insert_segment path_lt s ss))
        × (All P (insert_segment path_lt s ss) → P s × All P ss)
  unfolding insert_segment
  insert-All s [] = (λ g. g, λ g. g)
  insert-All s (t ∷ ts) = elim (Bool-cases (segment_lt path_lt t s)) [
    | inr e ↦ rw e (λ g. g, λ g. g)
    | inl e ↦
        let (into, out) = insert-All s ts in
        rw e (λ g. (g.1.0, into (g.0, g.1.1)), λ g. let (x, y) = out g.1 in (x, (g.0, y)))
  ]

  sort-All :
      (ss : List Segment)
      → (All P ss → All P (sort_segments path_lt ss))
        × (All P (sort_segments path_lt ss) → All P ss)
  unfolding sort_segments
  sort-All [] = (λ g. g, λ g. g)
  sort-All (s ∷ ss) =
      let (into, out) = insert-All s (sort_segments path_lt ss) in
      let (into', out') = sort-All ss in
      (λ g. into (g.0, into' g.1), λ g. let (x, y) = out g in (x, out' y))

-- When `build_full_flash_image` returns, the image ends with the last segment, and every segment
-- stands at its address, whatever the order in which they are given.
pub build_full_flash_image-IsStored :
    (path_lt : Bytes → Bytes → Bool) (segments : List Segment) (image : Bytes)
    → build_full_flash_image path_lt segments ≡ ok image
    → (length image ≡ image_end segments) × All (IsStored image) segments
unfolding build_full_flash_image
build_full_flash_image-IsStored path_lt segments image h = elim (Bool-cases (is_empty segments)) [
  | inl e ↦ absurd (ground arith)
  | inr e ↦
      let blank : Bytes = replicate (image_end segments) 0xFF in
      let size = length-replicate {A = ℕ} (image_end segments) 0xFF in
      let sorted = sort_segments path_lt segments in
      let filled : fill sorted [] blank ≡ ok image = rw e at h in
      let within : AreWithin (length blank) sorted = rw size (
        (sort-All path_lt (λ s. segment_end s ≤ image_end segments) segments).0
          (AreWithin-image_end segments)) in
      (
        (fill-keeps sorted [] blank image within filled).0 ∙ size,
        (sort-All path_lt (IsStored image) segments).1
            (All-IsStored image sorted (fill-IsPlacedIn sorted [] blank image within filled)),
      )
]
