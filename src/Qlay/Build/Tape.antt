-- ===== src/Qlay/Build/Tape.antt =====
-- The sectors of a cartridge one after the other, as `validate_qlay_image` reads them.
-- The sectors of a layout are well formed, marked usable and numbered in order.
use nano_ql.Base.{
  ℕ, zero, suc, ◌+◌, ◌*◌, ◌≡◌, refl, sym, Bool, true, false, ◌&&◌, List, [], ◌∷◌, ◌++◌, map, arith,
  not, length, All, length-append, take-append, drop-append, Bytes,
}
use nano_ql.Base.Exec.{ok}
use nano_ql.Qlay.Build.{serialize_all}
use nano_ql.Qlay.Sector.{Sector}
use nano_ql.Qlay.Sector.Laws.{IsWellFormed, sector_bytes, serialize_sector-ok, length-sector_bytes}
use nano_ql.Qlay.Validate.{member, check_sectors}
use nano_ql.Qlay.Validate.Laws.{check_sector-serialize}

abbrev pub IsGood : Sector → Type 0
IsGood s = IsWellFormed s × (s.header_flag ≡ 0xFF)

abbrev pub number_of : Sector → ℕ
number_of s = s.number

abbrev pub joined : List Sector → Bytes
joined [] = []
joined (s ∷ ss) = sector_bytes s ++ joined ss

pub serialize_all-joined : (ss : List Sector) → All IsGood ss → serialize_all ss ≡ ok (joined ss)
unfolding serialize_all
serialize_all-joined [] g = refl
serialize_all-joined (s ∷ ss) g =
    ground (arith, serialize_sector-ok s g.0.0, serialize_all-joined ss g.1)

pub length-joined : (ss : List Sector) → All IsGood ss → length (joined ss) ≡ 686 * length ss
length-joined [] g = refl
length-joined (s ∷ ss) g = omega (
  arith,
  length-append (sector_bytes s) (joined ss),
  length-sector_bytes s g.0.0,
  length-joined ss g.1,
)

-- No number of the list is met twice.
abbrev pub fresh : List ℕ → List ℕ → Bool
fresh seen [] = true
fresh seen (n ∷ ns) = not (member n seen) && fresh (n ∷ seen) ns

abbrev pub push : List ℕ → List ℕ → List ℕ
push seen [] = seen
push seen (n ∷ ns) = push (n ∷ seen) ns

pub check_sectors-joined :
    (n record_number : ℕ) (ss : List Sector) (seen : List ℕ)
    → All IsGood ss
    → length ss ≡ n
    → fresh seen (map number_of ss) ≡ true
    → check_sectors n record_number (joined ss) seen ≡ ok (push seen (map number_of ss))
unfolding check_sectors
check_sectors-joined zero record_number [] seen g size new = refl
check_sectors-joined zero record_number (s ∷ ss) seen g size new = absurd (omega arith)
check_sectors-joined (suc n) record_number [] seen g size new = absurd (omega arith)
check_sectors-joined (suc n) record_number (s ∷ ss) seen g size new =
    let w = g.0.0 in
    let is_new : member s.number seen ≡ false = ground arith in
    let rest_new : fresh (s.number ∷ seen) (map number_of ss) ≡ true = ground arith in
    ground (
      arith,
      take-append 686 (sector_bytes s) (joined ss) (sym (length-sector_bytes s w)),
      drop-append 686 (sector_bytes s) (joined ss) (sym (length-sector_bytes s w)),
      check_sector-serialize record_number s seen w is_new,
      check_sectors-joined n (record_number + 1) ss (s.number ∷ seen) g.1 (omega arith) rest_new,
    )
