-- ===== src/Keyboard/Tests.antt =====
-- Key requests of concrete keys.
use nano_ql.Base.{◌+◌, ◌<◌, ◌≡◌, true, false, [], ◌∷◌, ◌++◌, arith}
use nano_ql.Keyboard.{key_request}
use nano_ql.Keyboard.Codes.{key_request_codes}
use nano_ql.Link.Frame.{but_last, last_or}

key_request_codes_example :
    (last_or (key_request 0x28 true) 0 < 0x80)
    × (key_request 0x28 false
        ≡ but_last (key_request 0x28 true) ++ ((last_or (key_request 0x28 true) 0 + 0x80) ∷ []))
key_request_codes_example = key_request_codes 0x28 (omega arith)
