-- ===== src/Link/Frame.antt =====
-- tools/nanoql_link.py: the request frame of `transact`, and its checks of the reply frame.
pub mod Laws
use nano_ql.Base.{
  ℕ, ◌+◌, ◌||◌, [], ◌∷◌, ◌++◌, ◌==◌, not, if◌then◌else◌, length, get_or, take, bytes_eq, Bytes,
}
use nano_ql.Base.Exec.{
  missing_response, incomplete_response, invalid_version_or_sequence, invalid_crc, link_response,
  Result, ok, err,
}
use nano_ql.Link.Crc.{crc8}

abbrev pub request_magic : Bytes
request_magic = b'N' ∷ b'Q' ∷ []

abbrev pub response_magic : Bytes
response_magic = b'Q' ∷ b'N' ∷ []

abbrev pub protocol_version : ℕ
protocol_version = 1

abbrev pub max_link_payload : ℕ
max_link_payload = 245

-- `body` and `response_body`
abbrev pub body : ℕ → ℕ → ℕ → Bytes → Bytes
body version sequence len payload = version ∷ sequence ∷ len ∷ payload

unfoldable pub request_frame : ℕ → Bytes → Bytes
request_frame sequence payload =
    let b = body protocol_version sequence (length payload) payload in
    request_magic ++ (b ++ (crc8 b ∷ []))

-- The test of the five header bytes; the result is the payload's length.
unfoldable pub check_header : Bytes → Result ℕ
check_header header =
    if not (length header == 5) || not (bytes_eq (take 2 header) response_magic)
    then err (link_response missing_response)
    else ok (get_or header 4 0)

-- `data[:-1]` and `data[-1]`
abbrev pub but_last : Bytes → Bytes
but_last [] = []
but_last (x ∷ []) = []
but_last (x ∷ y ∷ ys) = x ∷ but_last (y ∷ ys)

abbrev pub last_or : Bytes → ℕ → ℕ
last_or [] d = d
last_or (x ∷ []) d = x
last_or (x ∷ y ∷ ys) d = last_or (y ∷ ys) d

-- The tests of the bytes behind the header, against the sequence number of the request.
unfoldable pub check_body : ℕ → Bytes → Bytes → Result Bytes
check_body expected header payload_and_crc =
    let version = get_or header 2 0 in
    let sequence = get_or header 3 0 in
    let len = get_or header 4 0 in
    if not (length payload_and_crc == len + 1)
    then err (link_response incomplete_response)
    else if not (version == protocol_version) || not (sequence == expected)
    then err (link_response invalid_version_or_sequence)
    else if not
        (crc8 (body version sequence len (but_last payload_and_crc)) == last_or payload_and_crc 0)
    then err (link_response invalid_crc)
    else ok (but_last payload_and_crc)
