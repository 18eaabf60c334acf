-- ===== src/Setup/Update/Loops.antt =====
-- `install_assistant_update`: its loops over the scripts.
use nano_ql.Base.{
  ◌≡◌, refl, sym, ap, ◌∙◌, inl, inr, Bool, true, false, Option, none, some, List, [], ◌∷◌, arith,
  if◌then◌else◌, Bool-cases, bytes_eq, bytes_eq→eq, bytes_eq_refl, is_in, Bytes,
}
use nano_ql.Base.Exec.{Result, ok, err, is_exception, bind_result}
use nano_ql.Qlay.Folder.{has_repeat}
use nano_ql.Setup.Update.{
  Replaced, Disk, put_file, try_operation, stage, stage_all, replace_one, replace_all, move_back,
  restore, restore_all, names_of,
}
use nano_ql.Setup.Update.Undo.{
  single_failure, try_operation-cases, IsDone, IsReplaced, replace_one-IsReplaced, restored,
  old_names, done_restored, stopped_restored,
}

-- What the loop over the scripts leaves.
abbrev pub IsLooped : List (Bytes × Bytes) → Disk → Result (Unit {0}) × Disk → Type 0
IsLooped sources d (ok t, d') =
    (n : Bytes) → d'.target n ≡ (if is_in n (names_of sources) then d.staging n else d.target n)
IsLooped sources d (err e, d') =
    (is_exception e ≡ true)
    × (d'.outcomes ≡ [])
    × ((n : Bytes) → restored d'.replaced d' n ≡ restored d.replaced d n)

-- The names of the scripts are not among those that were replaced.
abbrev pub AreNew : List (Bytes × Bytes) → List Replaced → Type 0
AreNew sources entries =
    (n : Bytes) → is_in n (names_of sources) ≡ true → is_in n (old_names entries) ≡ false

module _ (name content : Bytes) (sources : List (Bytes × Bytes)) (d : Disk) where
  loop_step :
      (p : Result (Unit {0}) × Disk)
      → is_in name (old_names d.replaced) ≡ false
      → is_in name (names_of sources) ≡ false
      → IsReplaced name d p
      → ((d' : Disk) → IsDone name d d' → IsLooped sources d' (replace_all sources d'))
      → IsLooped ((name, content) ∷ sources) d (bind_result p (λ _. replace_all sources))
  loop_step (err e, d') new once g ih = (g.0, g.1.spent, stopped_restored name d d' new g.1)
  loop_step (ok t, d') new once g ih = next (replace_all sources d') (ih d' g)
    where
      next :
          (q : Result (Unit {0}) × Disk)
          → IsLooped sources d' q
          → IsLooped ((name, content) ∷ sources) d q
      next (err e, d2) h =
          let (caught, spent, kept) = h in
          (caught, spent, λ n. kept n ∙ done_restored name d d' new g n)
      next (ok u, d2) h = λ n. h n ∙ elim (Bool-cases (bytes_eq n name)) [
        | inl same ↦
            let e = bytes_eq→eq n name same in
            let absent : is_in n (names_of sources) ≡ false =
              ap (λ k. is_in k (names_of sources)) e ∙ once in
            rw (absent, same) (g.target_now n ∙ rw same (ap d.staging (sym e)))
        | inr other ↦ rw (g.staging_now n, g.target_now n, other) refl
      ]

pub loop_lem :
    (sources : List (Bytes × Bytes)) (d : Disk)
    → single_failure d.outcomes ≡ true
    → has_repeat (names_of sources) ≡ false
    → AreNew sources d.replaced
    → IsLooped sources d (replace_all sources d)
unfolding replace_all
loop_lem [] d single distinct new = λ n. refl
loop_lem ((name, content) ∷ sources) d single distinct new =
    let once : is_in name (names_of sources) ≡ false = ground arith in
    let fresh = new name (rw (bytes_eq_refl name) refl) in
    loop_step name content sources d (replace_one name d) fresh once
      (replace_one-IsReplaced name d single)
      λ d' g. loop_lem sources d' g.single (ground arith) λ n h.
        let other : bytes_eq n name ≡ false = differ n h once in
        let old = new n (ground arith) in
        ap (λ r. is_in n (old_names r)) g.replaced_now ∙ rw other old
  where
    differ :
        (n : Bytes)
        → is_in n (names_of sources) ≡ true
        → is_in name (names_of sources) ≡ false
        → bytes_eq n name ≡ false
    differ n h once = elim (Bool-cases (bytes_eq n name)) [
      | inl e ↦
          let same = ap (λ k. is_in k (names_of sources)) (bytes_eq→eq n name e) in
          absurd (cc (same, h, once))
      | inr e ↦ e
    ]

-- The scripts laid over what was there; of two with one name the later one counts.
abbrev pub overlay : List (Bytes × Bytes) → Option Bytes → Bytes → Option Bytes
overlay [] base n = base
overlay ((name, content) ∷ sources) base n =
    overlay sources (if bytes_eq n name then some content else base) n

pub overlay_old :
    (sources : List (Bytes × Bytes)) (a b : Option Bytes) (n : Bytes)
    → (if is_in n (names_of sources) then overlay sources a n else b) ≡ overlay sources b n
overlay_old [] a b n = refl
overlay_old ((name, content) ∷ sources) a b n = elim (Bool-cases (bytes_eq n name)) [
  | inl e ↦ rw e refl
  | inr e ↦ rw e (overlay_old sources a b n)
]

-- What staging leaves.
abbrev pub IsStaged : List (Bytes × Bytes) → Disk → Result (Unit {0}) × Disk → Type 0
IsStaged sources d (ok t, d') =
    (single_failure d'.outcomes ≡ true)
    × (d'.replaced ≡ d.replaced)
    × (d'.target ≡ d.target)
    × ((n : Bytes) → d'.staging n ≡ overlay sources (d.staging n) n)
IsStaged sources d (err e, d') =
    (is_exception e ≡ true)
    × (d'.outcomes ≡ [])
    × (d'.replaced ≡ d.replaced)
    × (d'.target ≡ d.target)

pub stage_lem :
    (sources : List (Bytes × Bytes)) (d : Disk)
    → single_failure d.outcomes ≡ true
    → IsStaged sources d (stage_all sources d)
unfolding stage_all is_exception
stage_lem [] d single = (single, refl, refl, λ n. refl)
stage_lem ((name, content) ∷ sources) d single =
    elim (try_operation-cases (stage name content) d d.outcomes refl single) [
      | inr broke ↦ rw broke (refl, refl, refl, refl)
      | inl (later, left, done) ↦ rw done (
          carry later (stage_all sources (stage name content (record d { outcomes = later }))) (
            stage_lem sources (stage name content (record d { outcomes = later }))
              (unfold stage in left)))
    ]
  where
    carry :
        (later : List Bool) (q : Result (Unit {0}) × Disk)
        → IsStaged sources (stage name content (record d { outcomes = later })) q
        → IsStaged ((name, content) ∷ sources) d q
    carry later (err e, d2) h = unfold stage put_file in h
    carry later (ok u, d2) h = unfold stage put_file in h

pub restore_all_lem :
    (entries : List Replaced) (d : Disk)
    → d.outcomes ≡ []
    → (end : Disk) × (restore_all entries d ≡ (ok tt, end))
      × ((n : Bytes) → end.target n ≡ restored entries d n)
unfolding restore_all restored
restore_all_lem [] d spent = (d, refl, λ n. refl)
restore_all_lem (entry ∷ entries) d spent =
    let (end, run, same) =
      restore_all_lem entries (restore entry d) (restore-outcomes entry d ∙ spent) in
    (
      end,
      ap (λ p. bind_result p (λ _. restore_all entries)) (all_succeed (restore entry) d spent)
          ∙ run,
      same,
    )
  where
    all_succeed :
        (change : Disk → Disk) (x : Disk)
        → x.outcomes ≡ []
        → try_operation change x ≡ (ok tt, change x)
    all_succeed change x e = unfold try_operation in rw e refl

    restore-outcomes : (e : Replaced) (x : Disk) → (restore e x).outcomes ≡ x.outcomes
    restore-outcomes (name, false) x = unfold restore in refl
    restore-outcomes (name, true) x = unfold restore in moved (x.backup name) name x
      where
        moved :
            (old : Option Bytes) (name : Bytes) (x : Disk)
            → (move_back old name x).outcomes ≡ x.outcomes
        moved none name x = refl
        moved (some old) name x = refl
