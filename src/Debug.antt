-- ===== src/Debug.antt =====
-- tools/nanoql_link.py: `cpu_debug_register`, `cpu_debug_state`, `decode_qdos_memory_map`,
-- `qdos_memory_map` and `find_ir_address`.
pub mod Snapshot
pub mod Tests
use nano_ql.Base.{
  ℕ, zero, suc, ◌+◌, ◌-◌, ◌*◌, ◌/◌, max, true, false, ◌&&◌, Option, none, some, List, [], ◌∷◌, ◌++◌,
  map, ltb, leb, ◌==◌, not, if◌then◌else◌, length, replicate, slice, bytes_eq, find, Bytes, to_be,
  from_be,
}
use nano_ql.Base.Exec.{
  runtime_error, value_error, Result, ok, err, Exec, pure, lift, ◌>>=◌, ◌>>◌, raise_if,
}
use nano_ql.Link.Memory.{read}
use nano_ql.Link.Transport.{Transport, Link, send}

abbrev pub cmd_debug : ℕ
cmd_debug = 0x0E

abbrev pub cmd_debug_result : ℕ
cmd_debug_result = 0x0F

-- The tuple of `cpu_debug_register`.
pub record DebugRegister : Type 0 where
  pub value : ℕ
  pub pc : ℕ
  pub sr : ℕ
  pub ir : ℕ

-- `registers` and the last `pc`, `sr` and `ir`.
pub record CpuState : Type 0 where
  pub registers : List ℕ
  pub pc : ℕ
  pub sr : ℕ
  pub ir : ℕ

unfoldable pub debug_register_reply : Bytes → Result DebugRegister
debug_register_reply response = elim (find response (b'D' ∷ b'R' ∷ [])) [
  | none ↦ err (runtime_error "The FPGA debugger response is missing or truncated.")
  | some at' ↦
      let state = slice (at' + 2) (at' + 14) response in
      if ltb (length response) (at' + 14)
      then err (runtime_error "The FPGA debugger response is missing or truncated.")
      else ok (record {
        value = from_be (slice 0 4 state);
        pc = from_be (slice 4 8 state);
        sr = from_be (slice 8 10 state);
        ir = from_be (slice 10 12 state);
      })
]

-- `QDOS_SYSVARS_BASE`, and the length of the snapshot.
abbrev pub qdos_sysvars_base : ℕ
qdos_sysvars_base = 0x028000

abbrev pub snapshot_size : ℕ
snapshot_size = 0x24

-- The offsets of `QDOS_SYSVARS`.
abbrev pub qdos_sysvars : List ℕ
qdos_sysvars = 0x04 ∷ 0x08 ∷ 0x0C ∷ 0x10 ∷ 0x14 ∷ 0x18 ∷ 0x1C ∷ 0x20 ∷ []

-- The identifier and the values of `QDOS_SYSVARS`, in their order.
unfoldable pub decode_qdos_memory_map : Bytes → Result (List ℕ)
decode_qdos_memory_map bytes =
    if ltb (length bytes) snapshot_size
    then err (value_error "The QDOS system-variable snapshot is incomplete.")
    else if not (from_be (slice 0 4 bytes) == 0xD2540000)
    then err (runtime_error "No standard QDOS system variables were found.")
    else ok (
        from_be (slice 0 4 bytes)
        ∷ map (λ offset. from_be (slice offset (offset + 4) bytes)) qdos_sysvars)

-- `max(candidates)` of the aligned copies of the word at or before `pc`; `none` for no candidate.
unfoldable pub last_copy : ℕ → ℕ → ℕ → Bytes → Option ℕ
last_copy address pc ir [] = none
last_copy address pc ir (high ∷ []) = none
last_copy address pc ir (high ∷ low ∷ rest) =
    let later = last_copy (address + 2) pc ir rest in
    elim later [
      | some found ↦ some found
      | none ↦
          if bytes_eq (high ∷ low ∷ []) (to_be 2 ir) && leb address pc then some address else none
    ]

-- `max(base, (pc - 2) & ~1)`, where a negative number is below every base.
unfoldable pub find_ir_address : Bytes → ℕ → ℕ → ℕ → ℕ
find_ir_address bytes base pc ir = elim (last_copy base pc ir bytes) [
  | some found ↦ found
  | none ↦ max base ((pc - 2) / 2 * 2)
]

module _ (t : Transport) where
  unfoldable pub cpu_debug_register : ℕ → Exec (Link t) DebugRegister
  unfolding debug_register_reply
  cpu_debug_register index = do
    raise_if (ltb 16 index) (value_error "The fx68k register index must be between 0 and 16.")
    send t (cmd_debug ∷ index ∷ [])
    response ← send t (cmd_debug_result ∷ replicate 14 0)
    lift (debug_register_reply response)

  -- `for index in range(17)`, from an index on.
  unfoldable pub registers_from : ℕ → ℕ → CpuState → Exec (Link t) CpuState
  unfolding cpu_debug_register
  registers_from zero index state = pure state
  registers_from (suc n) index state = do
    r ← cpu_debug_register index
    registers_from n (index + 1)
        (record { registers = state.registers ++ (r.value ∷ []); pc = r.pc; sr = r.sr; ir = r.ir })

  unfoldable pub cpu_debug_state : Exec (Link t) CpuState
  unfolding registers_from
  cpu_debug_state = registers_from 17 0 (record { registers = []; pc = 0; sr = 0; ir = 0 })

  -- `self.read(QDOS_SYSVARS_BASE, 0x24, live=True)`
  abbrev pub read_sysvars : Exec (Link t) Bytes
  read_sysvars = read t qdos_sysvars_base snapshot_size true

  -- `for _attempt in range(4)`
  unfoldable pub compare_loop : ℕ → Bytes → Exec (Link t) (List ℕ)
  compare_loop zero previous l =
      (err (runtime_error "QDOS memory boundaries changed throughout the snapshot."), l)
  compare_loop (suc n) previous l = elim (read_sysvars l).0 [
    | err e ↦ (err e, (read_sysvars l).1)
    | ok current ↦ elim (bytes_eq current previous) [
      | true ↦ (decode_qdos_memory_map current, (read_sysvars l).1)
      | false ↦ compare_loop n current (read_sysvars l).1
    ]
  ]

  unfoldable pub qdos_memory_map : Exec (Link t) (List ℕ)
  unfolding compare_loop decode_qdos_memory_map
  qdos_memory_map = do previous ← read_sysvars; compare_loop 4 previous
