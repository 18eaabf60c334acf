-- ===== src/Link/Frame/Laws.antt =====
-- A reply is accepted exactly when it is the frame of its payload under the request's number.
use nano_ql.Base.{
  ℕ, suc, ◌≡◌, refl, ap, ◌↔◌, [], ◌∷◌, ◌++◌, arith, length, length-append, bytes_eq, Bytes,
}
use nano_ql.Base.Exec.{ok}
use nano_ql.Link.Crc.{crc8}
use nano_ql.Link.Frame.{protocol_version, body, check_header, but_last, last_or, check_body}

-- The frame that the firmware sends for a payload: what `receive` reads, in one piece.
abbrev pub response_header : ℕ → Bytes → Bytes
response_header sequence payload = b'Q' ∷ b'N' ∷ protocol_version ∷ sequence ∷ length payload ∷ []

abbrev pub response_rest : ℕ → Bytes → Bytes
response_rest sequence payload =
    payload ++ (crc8 (body protocol_version sequence (length payload) payload) ∷ [])

but_last-append : (xs : Bytes) (c : ℕ) → but_last (xs ++ (c ∷ [])) ≡ xs
but_last-append [] c = refl
but_last-append (x ∷ []) c = refl
but_last-append (x ∷ y ∷ ys) c = ap (λ t. x ∷ t) (but_last-append (y ∷ ys) c)

last_or-append : (xs : Bytes) (c d : ℕ) → last_or (xs ++ (c ∷ [])) d ≡ c
last_or-append [] c d = refl
last_or-append (x ∷ []) c d = refl
last_or-append (x ∷ y ∷ ys) c d = last_or-append (y ∷ ys) c d

but_last-last : (xs : Bytes) (n : ℕ) → length xs ≡ suc n → xs ≡ but_last xs ++ (last_or xs 0 ∷ [])
but_last-last [] n h = absurd (omega arith)
but_last-last (x ∷ []) n h = refl
but_last-last (x ∷ y ∷ ys) n h = ap (λ t. x ∷ t) (but_last-last (y ∷ ys) (length ys) refl)

length-but_last : (xs : Bytes) (n : ℕ) → length xs ≡ suc n → length (but_last xs) ≡ n
length-but_last [] n h = absurd (omega arith)
length-but_last (x ∷ []) n h = omega arith
length-but_last (x ∷ y ∷ ys) n h = omega (arith, length-but_last (y ∷ ys) (length ys) refl)

accept_header :
    (sequence : ℕ) (p : Bytes) → check_header (response_header sequence p) ≡ ok (length p)
unfolding check_header bytes_eq
accept_header sequence p = refl

accept_body :
    (sequence : ℕ) (p : Bytes)
    → check_body sequence (response_header sequence p) (response_rest sequence p) ≡ ok p
unfolding check_body
accept_body sequence p =
    rw
      (
        length-append p (crc8 (body protocol_version sequence (length p) p) ∷ []),
        but_last-append p (crc8 (body protocol_version sequence (length p) p)),
        last_or-append p (crc8 (body protocol_version sequence (length p) p)) 0,
      )
      (ground arith)

header_inv :
    (header : Bytes) (n : ℕ)
    → check_header header ≡ ok n
    → (a : ℕ) × (b : ℕ) × (header ≡ b'Q' ∷ b'N' ∷ a ∷ b ∷ n ∷ [])
unfolding check_header bytes_eq
header_inv (q ∷ m ∷ a ∷ b ∷ k ∷ []) n h = (a, b, ground arith)
header_inv [] n h = cc
header_inv (q ∷ []) n h = cc
header_inv (q ∷ m ∷ []) n h = cc
header_inv (q ∷ m ∷ a ∷ []) n h = cc
header_inv (q ∷ m ∷ a ∷ b ∷ []) n h = cc
header_inv (q ∷ m ∷ a ∷ b ∷ k ∷ l ∷ r) n h = absurd (ground arith)

body_inv :
    (sequence a b n : ℕ) (rest p : Bytes)
    → check_body sequence (b'Q' ∷ b'N' ∷ a ∷ b ∷ n ∷ []) rest ≡ ok p
    → (a ≡ protocol_version)
      × (b ≡ sequence)
      × (length rest ≡ suc n)
      × (but_last rest ≡ p)
      × (crc8 (body a b n (but_last rest)) ≡ last_or rest 0)
unfolding check_body
body_inv sequence a b n rest p h = ground arith

rest_inv :
    (sequence a b : ℕ) (rest p : Bytes)
    → check_body sequence (b'Q' ∷ b'N' ∷ a ∷ b ∷ length p ∷ []) rest ≡ ok p
    → (a ≡ protocol_version) × (b ≡ sequence) × (rest ≡ response_rest sequence p)
rest_inv sequence a b rest p h =
    let i = body_inv sequence a b (length p) rest p h in
    (i.0, i.1, cc (i.0, i.1, i.3, i.4, but_last-last rest (length p) i.2))

-- `check_header` and `check_body` accept the two parts of a reply, as `receive` reads them, with
-- the payload p exactly when the parts are the header and the rest of the frame of p.
pub accepted_iff :
    (sequence : ℕ) (header rest p : Bytes)
    → ((check_header header ≡ ok (length p)) × (check_body sequence header rest ≡ ok p))
      ↔ ((header ≡ response_header sequence p) × (rest ≡ response_rest sequence p))
accepted_iff sequence header rest p = (sound, complete)
  where
    sound :
        (check_header header ≡ ok (length p)) × (check_body sequence header rest ≡ ok p)
        → (header ≡ response_header sequence p) × (rest ≡ response_rest sequence p)
    sound h =
        let (a, b, e) = header_inv header (length p) h.0 in
        let r = rest_inv sequence a b rest p (rw e at h.1) in (cc (e, r.0, r.1), r.2)

    complete :
        (header ≡ response_header sequence p) × (rest ≡ response_rest sequence p)
        → (check_header header ≡ ok (length p)) × (check_body sequence header rest ≡ ok p)
    complete h = rw (h.0, h.1) (accept_header sequence p, accept_body sequence p)
