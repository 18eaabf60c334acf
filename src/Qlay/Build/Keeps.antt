-- ===== src/Qlay/Build/Keeps.antt =====
-- What every step of `build_qlay_image` keeps of the sectors and of the map.
use mathlib.Core.Path.{subst}
use nano_ql.Base.{
  ℕ, zero, suc, ◌+◌, ◌-◌, ◌*◌, ◌%◌, ◌≤◌, ◌≡◌, refl, ap, ◌∙◌, List, [], ◌∷◌, map, arith, length, set,
  take, drop, replicate, All, length-append, length-take, length-replicate, length-set, Bytes,
}
use nano_ql.Base.Exec.{ok, ok-injective}
use nano_ql.Qlay.Build.{
  Layout, allocate, padded, update_sector, place_block, block_count, place_blocks, place_streams,
  first_sectors, first_layout, map_entries, map_data, result_bind-ok,
}
use nano_ql.Qlay.Build.Tape.{IsGood, number_of}
use nano_ql.Qlay.Sector.{Sector, empty_sector}
use nano_ql.Qlay.Sector.Laws.{length-calibration}

abbrev pub counting : ℕ → ℕ → List ℕ
counting zero from = []
counting (suc n) from = from ∷ counting n (from + 1)

-- The invariant of the loops of `build_qlay_image`.
pub record IsLayout (l : Layout) : Type 0 where
  pub good : All IsGood l.sectors
  pub numbers : map number_of l.sectors ≡ counting 255 0
  pub mapped : length l.mapping ≡ 255

pub update_sector-IsGood :
    (ss : List Sector) (i file block : ℕ) (payload : Bytes)
    → length payload ≡ 512
    → All IsGood ss
    → All IsGood (update_sector ss i file block payload)
unfolding update_sector
update_sector-IsGood [] i file block payload full g = tt
update_sector-IsGood (s ∷ ss) zero file block payload full g =
    ((record { name_size = g.0.0.name_size; payload_size = full }, g.0.1), g.1)
update_sector-IsGood (s ∷ ss) (suc i) file block payload full g =
    (g.0, update_sector-IsGood ss i file block payload full g.1)

pub update_sector-numbers :
    (ss : List Sector) (i file block : ℕ) (payload : Bytes)
    → map number_of (update_sector ss i file block payload) ≡ map number_of ss
unfolding update_sector
update_sector-numbers [] i file block payload = refl
update_sector-numbers (s ∷ ss) zero file block payload = refl
update_sector-numbers (s ∷ ss) (suc i) file block payload =
    ap (λ t. s.number ∷ t) (update_sector-numbers ss i file block payload)

pub length-padded :
    (n fill : ℕ) (bytes : Bytes) → length bytes ≤ n → length (padded n fill bytes) ≡ n
unfolding padded
length-padded n fill bytes fits = omega (
  arith,
  length-append bytes (replicate (n - length bytes) fill),
  length-replicate (n - length bytes) fill,
)

place_block-IsLayout :
    (file_number block : ℕ) (chunk : Bytes) (l l' : Layout)
    → length chunk ≤ 512
    → IsLayout l
    → place_block file_number block chunk l ≡ ok l'
    → IsLayout l'
unfolding place_block
place_block-IsLayout file_number block chunk l l' fits v h =
    let (sector_number, found, h1) = result_bind-ok (allocate l.mapping l.current) _ h in
    let mapping = set l.mapping sector_number (file_number, block) in
    let (current, next, h2) =
      result_bind-ok (allocate mapping ((sector_number + 242) % 255)) _ h1 in
    subst IsLayout (ok-injective h2) (record {
      good =
          update_sector-IsGood l.sectors sector_number file_number block (padded 512 0 chunk)
            (length-padded 512 0 chunk fits) v.good;
      numbers =
          update_sector-numbers l.sectors sector_number file_number block (padded 512 0 chunk)
          ∙ v.numbers;
      mapped = length-set l.mapping sector_number (file_number, block) ∙ v.mapped;
    })

place_blocks-IsLayout :
    (n file_number block : ℕ) (stream : Bytes) (l l' : Layout)
    → IsLayout l
    → place_blocks n file_number block stream l ≡ ok l'
    → IsLayout l'
unfolding place_blocks
place_blocks-IsLayout zero file_number block stream l l' v h = subst IsLayout (ok-injective h) v
place_blocks-IsLayout (suc n) file_number block stream l l' v h =
    let (l1, placed, rest) =
      result_bind-ok (place_block file_number block (take 512 stream) l) _ h in
    place_blocks-IsLayout n file_number (block + 1) (drop 512 stream) l1 l'
      (place_block-IsLayout file_number block (take 512 stream) l l1
        (omega (arith, length-take 512 stream)) v placed)
      rest

pub place_streams-IsLayout :
    (file_number : ℕ) (streams : List Bytes) (l l' : Layout)
    → IsLayout l
    → place_streams file_number streams l ≡ ok l'
    → IsLayout l'
unfolding place_streams
place_streams-IsLayout file_number [] l l' v h = subst IsLayout (ok-injective h) v
place_streams-IsLayout file_number (stream ∷ streams) l l' v h =
    let (l1, placed, rest) =
      result_bind-ok (place_blocks (block_count stream) file_number 0 stream l) _ h in
    place_streams-IsLayout (file_number + 1) streams l1 l'
      (place_blocks-IsLayout (block_count stream) file_number 0 stream l l1 v placed) rest

first_sectors-IsGood :
    (medium : Bytes) (medium_id n number : ℕ)
    → length medium ≡ 10
    → All IsGood (first_sectors medium medium_id n number)
unfolding empty_sector
first_sectors-IsGood medium medium_id zero number size = tt
first_sectors-IsGood medium medium_id (suc n) number size = (
  (record { name_size = size; payload_size = length-calibration }, refl),
  first_sectors-IsGood medium medium_id n (number + 1) size,
)

first_sectors-numbers :
    (medium : Bytes) (medium_id n number : ℕ)
    → map number_of (first_sectors medium medium_id n number) ≡ counting n number
unfolding empty_sector
first_sectors-numbers medium medium_id zero number = refl
first_sectors-numbers medium medium_id (suc n) number =
    ap (λ t. number ∷ t) (first_sectors-numbers medium medium_id n (number + 1))

pub first_layout-IsLayout :
    (medium : Bytes) (medium_id : ℕ) → length medium ≡ 10 → IsLayout (first_layout medium medium_id)
unfolding first_layout
first_layout-IsLayout medium medium_id size = record {
  good = first_sectors-IsGood medium medium_id 255 0 size;
  numbers = first_sectors-numbers medium medium_id 255 0;
  mapped = refl;
}

length-map_entries : (mapping : List (ℕ × ℕ)) → length (map_entries mapping) ≡ 2 * length mapping
unfolding map_entries
length-map_entries [] = refl
length-map_entries ((file, block) ∷ rest) = omega (arith, length-map_entries rest)

pub length-map_data : (l : Layout) → IsLayout l → length (map_data l) ≡ 512
unfolding map_data
length-map_data l v = omega (
  arith,
  length-append (map_entries l.mapping) (1 ∷ l.current ∷ []),
  length-map_entries l.mapping,
  v.mapped,
)
