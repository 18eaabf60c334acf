-- ===== src/Qlay/Parse/Start.antt =====
-- The layout that `build_qlay_image` starts from: no block is placed.
use nano_ql.Base.{
  ℕ, zero, suc, ◌+◌, ◌≡◌, refl, ap, ◌∙◌, true, Option, none, List, [], ◌∷◌, arith, length, set,
  replicate, All, All-replicate, Bytes,
}
use nano_ql.Qlay.Build.{first_sectors, first_mapping, first_layout}
use nano_ql.Qlay.Parse.{is_no_file}
use nano_ql.Qlay.Parse.Places.{Linked, IsPlaced}
use nano_ql.Qlay.Parse.View.{look, is_single, NoRepeat}
use nano_ql.Qlay.Sector.{free_sector, damaged_sector, map_file, Sector, empty_sector}

abbrev pub AreSpare : List Sector → Type 0
AreSpare = All (λ s. is_no_file s.file ≡ true)

look_spare : (ss : List Sector) (f b : ℕ) → AreSpare ss → look ss f b ≡ none
unfolding look
look_spare [] f b g = refl
look_spare (s ∷ ss) f b g = ground (arith, g.0, look_spare ss f b g.1)

NoRepeat-spare : (ss : List Sector) → AreSpare ss → NoRepeat ss
unfolding is_single
NoRepeat-spare [] g = tt
NoRepeat-spare (s ∷ ss) g = (ground (arith, g.0), NoRepeat-spare ss g.1)

abbrev AreSpecial : List (ℕ × ℕ) → Type 0
AreSpecial = All (λ entry. is_no_file entry.0 ≡ true)

Linked-spare :
    (ss : List Sector) (mapping : List (ℕ × ℕ))
    → length ss ≡ length mapping
    → AreSpare ss
    → AreSpecial mapping
    → Linked ss mapping
Linked-spare [] [] e g h = tt
Linked-spare [] (entry ∷ mapping) e g h = absurd (omega arith)
Linked-spare (s ∷ ss) [] e g h = absurd (omega arith)
Linked-spare (s ∷ ss) (entry ∷ mapping) e g h =
    (ground (arith, g.0, h.0), Linked-spare ss mapping (omega arith) g.1 h.1)

first_sectors-AreSpare :
    (medium : Bytes) (medium_id n number : ℕ) → AreSpare (first_sectors medium medium_id n number)
unfolding empty_sector is_no_file
first_sectors-AreSpare medium medium_id zero number = tt
first_sectors-AreSpare medium medium_id (suc n) number =
    (refl, first_sectors-AreSpare medium medium_id n (number + 1))

length-first_sectors :
    (medium : Bytes) (medium_id n number : ℕ) → length (first_sectors medium medium_id n number) ≡ n
length-first_sectors medium medium_id zero number = refl
length-first_sectors medium medium_id (suc n) number =
    ap suc (length-first_sectors medium medium_id n (number + 1))

AreSpecial-set :
    (mapping : List (ℕ × ℕ)) (i : ℕ) (entry : ℕ × ℕ)
    → AreSpecial mapping
    → is_no_file entry.0 ≡ true
    → AreSpecial (set mapping i entry)
AreSpecial-set [] i entry g h = g
AreSpecial-set (e ∷ mapping) zero entry g h = (h, g.1)
AreSpecial-set (e ∷ mapping) (suc i) entry g h = (g.0, AreSpecial-set mapping i entry g.1 h)

first_mapping-AreSpecial : AreSpecial first_mapping
unfolding is_no_file
first_mapping-AreSpecial =
    AreSpecial-set (set (replicate 255 (free_sector, 0)) 0 (map_file, 0)) 254 (damaged_sector, 0)
      (AreSpecial-set (replicate 255 (free_sector, 0)) 0 (map_file, 0)
        (All-replicate (λ (entry : ℕ × ℕ). is_no_file entry.0 ≡ true) 255 (free_sector, 0) refl)
        refl)
      refl

pub first_layout-IsPlaced :
    (content : ℕ → ℕ → Option Bytes) (medium : Bytes) (medium_id : ℕ)
    → IsPlaced content 0 0 (first_layout medium medium_id)
unfolding first_layout
first_layout-IsPlaced content medium medium_id =
    let spare_sectors = first_sectors-AreSpare medium medium_id 255 0 in
    record {
      held =
          λ f b. look_spare (first_sectors medium medium_id 255 0) f b spare_sectors ∙ ground arith;
      single = NoRepeat-spare (first_sectors medium medium_id 255 0) spare_sectors;
      linked_map =
          Linked-spare (first_sectors medium medium_id 255 0) first_mapping
            (length-first_sectors medium medium_id 255 0) spare_sectors first_mapping-AreSpecial;
      map_entry = refl;
    }
