-- ===== src/Debug/Snapshot.antt =====
-- The snapshot of the QDOS system variables is not torn.
use nano_ql.Base.{ℕ, zero, suc, ◌≡◌, ◌⊎◌, inl, inr, true, List, arith, bytes_eq, bytes_eq→eq, Bytes}
use nano_ql.Base.Exec.{ok, >>=-ok}
use nano_ql.Debug.{decode_qdos_memory_map, read_sysvars, compare_loop, qdos_memory_map}
use nano_ql.Link.Transport.{Transport, Link}

module _ (t : Transport) where
  -- Two reads in a row that gave the same bytes, which decode to the map.
  abbrev pub ReadTwice : List ℕ → Link t → Type 0
  ReadTwice m l' =
      (bytes : Bytes) × (before : Link t) × ((read_sysvars t before).0 ≡ ok bytes)
      × (read_sysvars t (read_sysvars t before).1 ≡ (ok bytes, l'))
      × (decode_qdos_memory_map bytes ≡ ok m)

  compare_cases :
      (n : ℕ) (previous : Bytes) (l l' : Link t) (m : List ℕ)
      → compare_loop t (suc n) previous l ≡ (ok m, l')
      → (current : Bytes) × ((read_sysvars t l).0 ≡ ok current)
        × (((bytes_eq current previous ≡ true)
              × (decode_qdos_memory_map current ≡ ok m)
              × ((read_sysvars t l).1 ≡ l'))
            ⊎ (compare_loop t n current (read_sysvars t l).1 ≡ (ok m, l')))
  unfolding compare_loop
  compare_cases n previous l l' m h = ground arith

  compare_loop-ReadTwice :
      (n : ℕ) (previous : Bytes) (before l l' : Link t) (m : List ℕ)
      → read_sysvars t before ≡ (ok previous, l)
      → compare_loop t n previous l ≡ (ok m, l')
      → ReadTwice m l'
  unfolding compare_loop
  compare_loop-ReadTwice zero previous before l l' m first h = cc
  compare_loop-ReadTwice (suc n) previous before l l' m first h =
      let (current, got, next) = compare_cases n previous l l' m h in
      elim next [
        | inl (same, decoded, left) ↦
            let equal = bytes_eq→eq current previous same in
            (current, before, cc (first, equal), cc (first, got, left), decoded)
        | inr rest ↦ compare_loop-ReadTwice n current l (read_sysvars t l).1 l' m (cc got) rest
      ]

  -- A map that `qdos_memory_map` returns decodes a snapshot that two reads in a row gave alike, and
  -- nothing was sent behind them.
  pub qdos_memory_map-ReadTwice :
      (l l' : Link t) (m : List ℕ) → qdos_memory_map t l ≡ (ok m, l') → ReadTwice m l'
  unfolding qdos_memory_map
  qdos_memory_map-ReadTwice l l' m h =
      let (previous, l1, first, rest) = >>=-ok (read_sysvars t) (compare_loop t 4) l h in
      compare_loop-ReadTwice 4 previous l l1 l' m first rest
