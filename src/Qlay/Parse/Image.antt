-- ===== src/Qlay/Parse/Image.antt =====
-- The image of a layout, for `parse_qlay_image`.
use mathlib.Core.List.{reverse}
use nano_ql.Base.{
  ℕ, ◌≡◌, refl, sym, ap, ◌∙◌, true, Option, some, List, [], ◌∷◌, ◌++◌, map, arith, length,
  get_elem?, get_or, slice, All, Bytes,
}
use nano_ql.Base.Exec.{ok, ok-injective}
use nano_ql.Qlay.Build.{
  Layout, write_sector, update_sector, map_entries, map_data, physical_order, finish_image,
}
use nano_ql.Qlay.Build.Keeps.{counting, IsLayout}
use nano_ql.Qlay.Build.Tape.{IsGood, number_of, joined, serialize_all-joined, fresh}
use nano_ql.Qlay.Build.Valid.{
  All-reverse, physical_numbers, length-numbers, final_sectors, finished,
}
use nano_ql.Qlay.Parse.{
  assoc, Blocks, usable_sectors, is_no_file, collect_streams, parse_directory, parse_sectors,
  parse_qlay_image,
}
use nano_ql.Qlay.Parse.Collect.{find_block, linked_at, numbered, collect_streams-numbered}
use nano_ql.Qlay.Parse.Places.{spare, Linked, IsPlaced}
use nano_ql.Qlay.Parse.Tape.{usable_sectors-numbered, Linked-entries}
use nano_ql.Qlay.Parse.View.{
  look, is_single, NoRepeat, look-physical_order, physical_order-NoRepeat,
}
use nano_ql.Qlay.Sector.{map_file, Sector}
use nano_ql.Qlay.Sector.Laws.{sector_bytes, slice-payload, get_or-file}
use nano_ql.Qlay.Validate.{validate_qlay_image}

parse_map :
    (map_sector : Bytes) (sectors : List (ℕ × Bytes)) (streams : List (ℕ × Blocks))
    → assoc 0 sectors ≡ some map_sector
    → get_or map_sector 40 0 ≡ 0x80
    → collect_streams (slice 52 564 map_sector) sectors [] ≡ ok streams
    → parse_sectors sectors ≡ parse_directory streams
unfolding parse_sectors
parse_map map_sector sectors streams first is_map collected = ground arith

parse_steps :
    (image map_sector : Bytes) (sectors : List (ℕ × Bytes)) (streams : List (ℕ × Blocks))
    → validate_qlay_image image ≡ ok tt
    → usable_sectors 255 image [] ≡ sectors
    → assoc 0 sectors ≡ some map_sector
    → get_or map_sector 40 0 ≡ 0x80
    → collect_streams (slice 52 564 map_sector) sectors [] ≡ ok streams
    → parse_qlay_image image ≡ parse_directory streams
unfolding parse_qlay_image
parse_steps image map_sector sectors streams valid usable first is_map collected =
    rw valid (ap parse_sectors usable ∙ parse_map map_sector sectors streams first is_map collected)

-- A tape whose first sector is the map.
module _ (first : Sector) (rest : List Sector) where
  abbrev tape : List Sector
  tape = first ∷ rest

  first_number : map number_of tape ≡ physical_numbers (counting 255 0) → first.number ≡ 0
  first_number numbers = cc numbers

  usable_tape :
      All IsGood tape
      → map number_of tape ≡ physical_numbers (counting 255 0)
      → usable_sectors 255 (joined tape) [] ≡ numbered tape
  usable_tape good numbers =
      let count : length tape ≡ 255 = sym (length-numbers tape) ∙ ap length numbers in
      let new : fresh [] (map number_of tape) ≡ true = ap (fresh []) numbers in
      sym (ap (λ n. usable_sectors n (joined tape) []) count)
      ∙ usable_sectors-numbered tape [] [] good new (λ k h. refl)

  parse_tape :
      All IsGood tape
      → map number_of tape ≡ physical_numbers (counting 255 0)
      → validate_qlay_image (joined tape) ≡ ok tt
      → first.file ≡ 0x80
      → All (λ s. linked_at first.payload s ≡ true) tape
      → NoRepeat tape
      → (streams : List (ℕ × Blocks)) × (parse_qlay_image (joined tape) ≡ parse_directory streams)
        × ((f b : ℕ) → find_block streams f b ≡ look tape f b)
  parse_tape good numbers valid is_map links single =
      let w = good.0.0 in
      let (streams, collected, view) =
        collect_streams-numbered first.payload tape [] good links single (λ f b. ground arith) in
      (
        streams,
        parse_steps (joined tape) (sector_bytes first) (numbered tape) streams valid
            (usable_tape good numbers) (ground (arith, first_number numbers))
            (get_or-file first w ∙ is_map) (rw (slice-payload first w) collected),
        view,
      )

look_map :
    (ss : List Sector) (payload : Bytes) (f b : ℕ)
    → spare ss 0 ≡ true
    → look (update_sector ss 0 0x80 0 payload) f b ≡ look ss f b
unfolding look update_sector is_no_file
look_map [] payload f b h = refl
look_map (s ∷ ss) payload f b h = ground arith

NoRepeat-map :
    (ss : List Sector) (payload : Bytes)
    → NoRepeat ss
    → NoRepeat (update_sector ss 0 0x80 0 payload)
unfolding update_sector is_single is_no_file
NoRepeat-map [] payload g = g
NoRepeat-map (s ∷ ss) payload g = (refl, g.1)

spare_map :
    (ss : List Sector) (mapping : List (ℕ × ℕ))
    → Linked ss mapping
    → get_elem? mapping 0 ≡ some (map_file, 0)
    → spare ss 0 ≡ true
unfolding is_no_file
spare_map [] [] g h = cc
spare_map [] (entry ∷ mapping) g h = absurd g
spare_map (s ∷ ss) [] g h = cc
spare_map (s ∷ ss) (entry ∷ mapping) g h = ground (arith, g.0)

map_first :
    (mapping : List (ℕ × ℕ)) (rest : Bytes)
    → get_elem? mapping 0 ≡ some (map_file, 0)
    → get_or (map_entries mapping ++ rest) 0 0 ≡ map_file
unfolding map_entries
map_first [] rest h = cc
map_first ((file, block) ∷ mapping) rest h = ground arith

module _ (content : ℕ → ℕ → Option Bytes) (mapping : List (ℕ × ℕ)) (current : ℕ) where
  abbrev map_bytes : Bytes
  map_bytes = map_entries mapping ++ (1 ∷ current ∷ [])

  first_linked :
      (s : Sector)
      → s.number ≡ 0
      → get_elem? mapping 0 ≡ some (map_file, 0)
      → linked_at map_bytes (write_sector s 0x80 0 map_bytes) ≡ true
  unfolding is_no_file
  first_linked s number h = ground (arith, map_first mapping (1 ∷ current ∷ []) h)

  links_of :
      (ss : List Sector)
      → map number_of ss ≡ counting 255 0
      → Linked ss mapping
      → All (λ s. linked_at map_bytes s ≡ true) ss
  links_of ss numbers g =
      let count : length ss ≡ 255 = sym (length-numbers ss) ∙ ap length numbers in
      Linked-entries ss mapping [] (1 ∷ current ∷ []) 0 refl (rw count numbers) g

  -- The sectors and the map of a layout, written as an image and read back.
  parse_layout :
      (ss : List Sector)
      → let tape = physical_order (update_sector ss 0 0x80 0 map_bytes) in
        All IsGood tape
        → map number_of tape ≡ physical_numbers (counting 255 0)
        → validate_qlay_image (joined tape) ≡ ok tt
        → map number_of ss ≡ counting 255 0
        → NoRepeat ss
        → Linked ss mapping
        → get_elem? mapping 0 ≡ some (map_file, 0)
        → (streams : List (ℕ × Blocks)) × (parse_qlay_image (joined tape) ≡ parse_directory streams)
          × ((f b : ℕ) → find_block streams f b ≡ look ss f b)
  unfolding update_sector
  parse_layout [] good order valid numbers single g h = cc
  parse_layout (s ∷ ss) good order valid numbers single g h =
      let first = write_sector s 0x80 0 map_bytes in
      let links = links_of (s ∷ ss) numbers g in
      let new_links : All (λ x. linked_at map_bytes x ≡ true) (first ∷ reverse ss) = (
        first_linked s (cc numbers) h,
        All-reverse (λ (x : Sector). linked_at map_bytes x ≡ true) ss links.1,
      ) in
      let single' = NoRepeat-map (s ∷ ss) map_bytes single in
      let (streams, parsed, view) =
        parse_tape first (reverse ss) good order valid refl new_links
          (physical_order-NoRepeat (first ∷ ss) single') in
      (
        streams,
        parsed,
        λ f b.
            view f b
            ∙ (look-physical_order (first ∷ ss) f b single'
                ∙ look_map (s ∷ ss) map_bytes f b (spare_map (s ∷ ss) mapping g h)),
      )

-- The image of a finished layout.
pub parse_finished :
    (content : ℕ → ℕ → Option Bytes) (file : ℕ) (l : Layout) (image : Bytes)
    → IsLayout l
    → IsPlaced content file 0 l
    → finish_image l ≡ ok image
    → (streams : List (ℕ × Blocks)) × (parse_qlay_image image ≡ parse_directory streams)
      × ((f b : ℕ) → find_block streams f b ≡ look l.sectors f b)
unfolding finish_image map_data
parse_finished content file l image v placed fin =
    let tape = physical_order (update_sector l.sectors 0 0x80 0 (map_data l)) in
    let (good, order) = final_sectors l v in
    let same : joined tape ≡ image = ok-injective (sym (serialize_all-joined tape good) ∙ fin) in
    let (size, valid) = finished l image v fin in
    let valid' = ap validate_qlay_image same ∙ valid in
    let (streams, parsed, view) =
      parse_layout content l.mapping l.current l.sectors good order valid' v.numbers placed.single
        placed.linked_map placed.map_entry in
    (streams, ap parse_qlay_image (sym same) ∙ parsed, view)
