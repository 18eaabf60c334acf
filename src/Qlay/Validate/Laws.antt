-- ===== src/Qlay/Validate/Laws.antt =====
-- What `serialize_sector` writes, `validate_qlay_image` accepts.
use nano_ql.Base.{ℕ, ◌≡◌, false, List, ◌∷◌, arith, ◌==◌, if◌then◌else◌, bytes_eq_refl}
use nano_ql.Base.Exec.{ok}
use nano_ql.Qlay.Sector.{Sector}
use nano_ql.Qlay.Sector.Laws.{
  IsWellFormed, sector_bytes, slice-preamble, slice-mark, slice-header, slice-header_checksum,
  slice-block_preamble, slice-block_mark, slice-block, slice-block_checksum, slice-data_preamble,
  slice-data_mark, slice-payload, slice-payload_checksum, get_or-header_flag, get_or-number,
}
use nano_ql.Qlay.Validate.{member, check_sector}

-- `check_sector` accepts a well-formed serialized sector that is not repeated, and notes its number
-- if its header flag marks it usable.
pub check_sector-serialize :
    (record_number : ℕ) (s : Sector) (numbers : List ℕ)
    → IsWellFormed s
    → member s.number numbers ≡ false
    → check_sector record_number (sector_bytes s) numbers
      ≡ ok (if s.header_flag == 0xFF then s.number ∷ numbers else numbers)
unfolding check_sector
check_sector-serialize record_number s numbers w new =
    simp
      (
        slice-preamble s w,
        slice-mark s w,
        slice-header s w,
        slice-header_checksum s w,
        slice-block_preamble s w,
        slice-block_mark s w,
        slice-block s w,
        slice-block_checksum s w,
        slice-data_preamble s w,
        slice-data_mark s w,
        slice-payload s w,
        slice-payload_checksum s w,
        get_or-header_flag s w,
        get_or-number s w,
        bytes_eq_refl,
      )
      (ground arith)
