-- ===== src/Setup/Update/Undo.antt =====
-- `install_assistant_update`: a replacement and its undoing.
use nano_ql.Base.{
  ◌≡◌, refl, sym, ap, ◌∙◌, ◌⊎◌, inl, inr, Bool, true, false, ◌&&◌, Option, none, some, List, [],
  ◌∷◌, arith, if◌then◌else◌, Bool-cases, Option-cases, is_empty, bytes_eq, bytes_eq→eq,
  bytes_eq_refl, is_in, Bytes,
}
use nano_ql.Base.Exec.{os_error, Result, ok, err, is_exception, ◌>>◌, modify}
use nano_ql.Setup.Update.{
  Files, Replaced, Disk, put_file, try_operation, back_up, move_in, is_some, note_replaced,
  replace_one, restore,
}

-- At most one operation fails.
abbrev pub single_failure : List Bool → Bool
single_failure [] = true
single_failure (outcome ∷ later) = if outcome then single_failure later else is_empty later

pub try_operation-cases :
    (change : Disk → Disk) (d : Disk) (outcomes : List Bool)
    → d.outcomes ≡ outcomes
    → single_failure outcomes ≡ true
    → ((later : List Bool) × (single_failure later ≡ true)
        × (try_operation change d ≡ (ok tt, change (record d { outcomes = later }))))
      ⊎ (try_operation change d ≡ (err os_error, record d { outcomes = [] }))
unfolding try_operation
try_operation-cases change d [] h g = inl ([], refl, rw h refl)
try_operation-cases change d (true ∷ later) h g = inl (later, g, rw h refl)
try_operation-cases change d (false ∷ []) h g = inr (rw h refl)
try_operation-cases change d (false ∷ o ∷ later) h g = cc g

-- The state behind a replacement that was done.
pub record IsDone (name : Bytes) (d d' : Disk) : Type 0 where
  pub target_now :
      (n : Bytes) → d'.target n ≡ (if bytes_eq n name then d.staging name else d.target n)
  pub staging_now : (n : Bytes) → d'.staging n ≡ (if bytes_eq n name then none else d.staging n)
  pub backup_now :
      (n : Bytes)
      → d'.backup n
        ≡ (if bytes_eq n name && is_some (d.target name) then d.target name else d.backup n)
  pub replaced_now : d'.replaced ≡ (name, is_some (d.target name)) ∷ d.replaced
  pub single : single_failure d'.outcomes ≡ true

-- The state behind an operation that failed.
pub record IsStopped (name : Bytes) (d d' : Disk) : Type 0 where
  pub target_kept : (n : Bytes) → d'.target n ≡ d.target n
  pub backup_kept : (n : Bytes) → bytes_eq n name ≡ false → d'.backup n ≡ d.backup n
  pub replaced_kept : d'.replaced ≡ d.replaced
  pub spent : d'.outcomes ≡ []

abbrev pub IsReplaced : Bytes → Disk → Result (Unit {0}) × Disk → Type 0
IsReplaced name d (ok t, d') = IsDone name d d'
IsReplaced name d (err e, d') = (is_exception e ≡ true) × IsStopped name d d'

if_and_true : (b : Bool) (x y : Option Bytes) → (if b then x else y) ≡ (if b && true then x else y)
if_and_true true x y = refl
if_and_true false x y = refl

if_and_false : (b : Bool) (x y : Option Bytes) → y ≡ (if b && false then x else y)
if_and_false true x y = refl
if_and_false false x y = refl

replace_moved :
    (name : Bytes) (d d1 : Disk) (had : Bool)
    → is_some (d.target name) ≡ had
    → d1.target ≡ d.target
    → d1.staging ≡ d.staging
    → d1.replaced ≡ d.replaced
    → single_failure d1.outcomes ≡ true
    → ((n : Bytes) → d1.backup n ≡ (if bytes_eq n name && had then d.target name else d.backup n))
    → IsReplaced name d ((try_operation (move_in name) >> modify (note_replaced name had)) d1)
unfolding is_exception
replace_moved name d d1 had e t s r g b =
    elim (try_operation-cases (move_in name) d1 d1.outcomes refl g) [
      | inl (later, single, done) ↦ rw done (
          unfold move_in put_file in
          record {
            target_now = λ n. rw (t, s) refl;
            staging_now = λ n. rw s refl;
            backup_now = λ n. rw e (b n);
            replaced_now = rw (e, r) refl;
            single = single;
          })
      | inr broke ↦ rw broke (
        refl,
        record {
          target_kept = λ n. rw t refl;
          backup_kept = λ n other. b n ∙ rw other refl;
          replaced_kept = r;
          spent = refl;
        },
      )
    ]

pub replace_one-IsReplaced :
    (name : Bytes) (d : Disk)
    → single_failure d.outcomes ≡ true
    → IsReplaced name d (replace_one name d)
unfolding replace_one is_exception
replace_one-IsReplaced name d g = elim (Bool-cases (is_some (d.target name))) [
  | inl old ↦ elim (try_operation-cases (back_up name) d d.outcomes refl g) [
    | inl (later, single, done) ↦
        rw (old, done)
          (unfold back_up put_file in
            replace_moved name d (back_up name (record d { outcomes = later })) true old refl refl
              refl single (λ n. if_and_true (bytes_eq n name) (d.target name) (d.backup n)))
    | inr broke ↦
        rw (old, broke)
          (
            refl,
            record {
              target_kept = λ n. refl;
              backup_kept = λ n other. refl;
              replaced_kept = refl;
              spent = refl;
            },
          )
  ]
  | inr new ↦ rw new (
      replace_moved name d d false new refl refl refl g
        (λ n. if_and_false (bytes_eq n name) (d.target name) (d.backup n)))
]

-- Restoring without a failure.
abbrev or_else : Option Bytes → Option Bytes → Option Bytes
or_else none other = other
or_else (some content) other = some content

restore_target :
    (name : Bytes) (had : Bool) (d : Disk) (n : Bytes)
    → (restore (name, had) d).target n ≡ (
        if bytes_eq n name
        then if had then or_else (d.backup name) (d.target n) else none
        else d.target n)
unfolding restore put_file
restore_target name false d n = refl
restore_target name true d n = elim (Option-cases (d.backup name)) [
  | inl e ↦ rw e (same (bytes_eq n name) (d.target n))
  | inr (old, e) ↦ rw e refl
]
  where
    same : (b : Bool) (x : Option Bytes) → x ≡ (if b then x else x)
    same true x = refl
    same false x = refl

restore_backup :
    (name : Bytes) (had : Bool) (d : Disk) (n : Bytes)
    → (restore (name, had) d).backup n ≡ (if had && bytes_eq n name then none else d.backup n)
unfolding restore put_file
restore_backup name false d n = refl
restore_backup name true d n = elim (Option-cases (d.backup name)) [
  | inl e ↦ rw e (elim (Bool-cases (bytes_eq n name)) [
    | inl same ↦ rw same (ap d.backup (bytes_eq→eq n name same) ∙ e)
    | inr other ↦ rw other refl
  ])
  | inr (old, e) ↦ rw e refl
]

unfoldable pub restored : List Replaced → Disk → Files
restored [] d = d.target
restored (entry ∷ entries) d = restored entries (restore entry d)

abbrev pub old_names : List Replaced → List Bytes
old_names [] = []
old_names ((name, had) ∷ entries) = name ∷ old_names entries

-- The files that are restored depend on the target and the copies of the names replaced.
restored_same :
    (entries : List Replaced) (d1 d2 : Disk)
    → ((n : Bytes) → d1.target n ≡ d2.target n)
    → ((n : Bytes) → is_in n (old_names entries) ≡ true → d1.backup n ≡ d2.backup n)
    → (n : Bytes) → restored entries d1 n ≡ restored entries d2 n
unfolding restored
restored_same [] d1 d2 t b n = t n
restored_same ((name, had) ∷ entries) d1 d2 t b n =
    restored_same entries (restore (name, had) d1) (restore (name, had) d2)
      (λ m.
        rw
          (
            restore_target name had d1 m,
            restore_target name had d2 m,
            b name (rw (bytes_eq_refl name) refl),
            t m,
          )
          refl)
      (λ m h.
        rw (restore_backup name had d1 m, restore_backup name had d2 m, b m (ground arith)) refl)
      n

-- A name among the old ones is not the new name.
pub other_name :
    (entries : List Replaced) (name m : Bytes)
    → is_in name (old_names entries) ≡ false
    → is_in m (old_names entries) ≡ true
    → bytes_eq m name ≡ false
other_name entries name m new h = elim (Bool-cases (bytes_eq m name)) [
  | inl e ↦
      let same = ap (λ k. is_in k (old_names entries)) (bytes_eq→eq m name e) in
      absurd (cc (same, h, new))
  | inr e ↦ e
]

-- A replacement that was done is undone.
pub done_restored :
    (name : Bytes) (d d' : Disk)
    → is_in name (old_names d.replaced) ≡ false
    → IsDone name d d'
    → (n : Bytes) → restored d'.replaced d' n ≡ restored d.replaced d n
unfolding restored
done_restored name d d' new g n =
    let had = is_some (d.target name) in
    ap (λ r. restored r d' n) g.replaced_now
    ∙ restored_same d.replaced (restore (name, had) d') d
        (λ m. restore_target name had d' m ∙ target_back m (bytes_eq m name) refl)
        (λ m h.
          restore_backup name had d' m
          ∙ (let e : bytes_eq m name ≡ false = other_name d.replaced name m new h in
              ground (arith, g.backup_now m)))
        n
  where
    old_back :
        (old : Option Bytes)
        → d.target name ≡ old
        → (t : Option Bytes)
        → (if is_some old then or_else (if is_some old then old else d.backup name) t else none)
          ≡ old
    old_back none e t = refl
    old_back (some c) e t = refl

    target_back :
        (m : Bytes) (b : Bool)
        → bytes_eq m name ≡ b
        → (if bytes_eq m name
            then if is_some (d.target name) then or_else (d'.backup name) (d'.target m) else none
            else d'.target m)
          ≡ d.target m
    target_back m true e =
        rw (e, g.backup_now name, bytes_eq_refl name)
          (old_back (d.target name) refl (d'.target m) ∙ ap d.target (sym (bytes_eq→eq m name e)))
    target_back m false e = rw e (g.target_now m ∙ rw e refl)

pub stopped_restored :
    (name : Bytes) (d d' : Disk)
    → is_in name (old_names d.replaced) ≡ false
    → IsStopped name d d'
    → (n : Bytes) → restored d'.replaced d' n ≡ restored d.replaced d n
stopped_restored name d d' new g n =
    ap (λ r. restored r d' n) g.replaced_kept
    ∙ restored_same d.replaced d' d g.target_kept
        (λ m h. g.backup_kept m (other_name d.replaced name m new h)) n
