-- ===== src/Link/Tests.antt =====
-- Check bytes and frames on concrete bytes.
use nano_ql.Base.{◌≡◌, ◌≢◌, ◌↔◌, [], ◌∷◌, arith}
use nano_ql.Base.Exec.{ok}
use nano_ql.Link.Crc.{crc8}
use nano_ql.Link.Crc.Detects.{crc8_detects}
use nano_ql.Link.Frame.{check_header, check_body}
use nano_ql.Link.Frame.Laws.{response_header, response_rest, accepted_iff}

crc8_detects_example : crc8 (1 ∷ 0x42 ∷ 3 ∷ []) ≢ crc8 (1 ∷ 0x43 ∷ 3 ∷ [])
crc8_detects_example =
    crc8_detects (1 ∷ []) 0x42 0x43 (3 ∷ []) (omega arith, tt) (omega arith) (omega arith)
      (omega arith, tt) (λ h. absurd (omega arith))

accepted_iff_example :
    ((check_header (response_header 7 (9 ∷ [])) ≡ ok 1)
      × (check_body 7 (response_header 7 (9 ∷ [])) (response_rest 7 (9 ∷ [])) ≡ ok (9 ∷ [])))
    ↔ ((response_header 7 (9 ∷ []) ≡ response_header 7 (9 ∷ []))
        × (response_rest 7 (9 ∷ []) ≡ response_rest 7 (9 ∷ [])))
accepted_iff_example =
    accepted_iff 7 (response_header 7 (9 ∷ [])) (response_rest 7 (9 ∷ [])) (9 ∷ [])
