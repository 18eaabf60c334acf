-- ===== src/Setup/Update/Atomic.antt =====
-- `install_assistant_update` as a whole, against the update in one step.
use nano_ql.Base.{
  ◌≡◌, refl, ap, ◌∙◌, inl, inr, true, false, none, List, [], not, if◌then◌else◌, Bool-cases, any,
  is_in, Bytes,
}
use nano_ql.Base.Exec.{
  Error, Result, ok, err, is_exception, pure, raise, bind_result, ◌>>◌, handle_result, finally_do,
  is_ok, Result-cases,
}
use nano_ql.Qlay.Folder.{has_repeat}
use nano_ql.Setup.Update.{
  Files, Disk, try_operation, stage_all, replace_all, restore_all, replace_or_restore,
  remove_folders, names_of, required, make_staging, make_backup, scripts, compile_all,
  install_assistant_update,
}
use nano_ql.Setup.Update.Loops.{
  IsLooped, loop_lem, overlay, overlay_old, IsStaged, stage_lem, restore_all_lem,
}
use nano_ql.Setup.Update.Undo.{single_failure, try_operation-cases, restored, old_names}

-- Every file is the new one if there is one, or every file is as it was.
abbrev pub IsAtomic : {A : Type 0} → List (Bytes × Bytes) → Files → Result A × Disk → Type 0
IsAtomic sources before (r, d) =
    (n : Bytes) → d.target n ≡ (if is_ok r then overlay sources (before n) n else before n)

module _ (sources : List (Bytes × Bytes)) (before : Files)
    (distinct : has_repeat (names_of sources) ≡ false) where
  -- The handler restores what the loop has replaced.
  restore_step :
      (d : Disk) (e : Error)
      → d.outcomes ≡ []
      → ((n : Bytes) → restored d.replaced d n ≡ before n)
      → IsAtomic sources before ((restore_all d.replaced >> raise {A = Unit {0}} e) d)
  restore_step d e spent back =
      let (end, run, same) = restore_all_lem d.replaced d spent in rw run (λ n. same n ∙ back n)

  after_loop :
      (d : Disk) (q : Result (Unit {0}) × Disk)
      → d.target ≡ before
      → d.replaced ≡ []
      → ((n : Bytes) → d.staging n ≡ overlay sources none n)
      → IsLooped sources d q
      → IsAtomic sources before (
          handle_result is_exception
            (λ e disk. (restore_all disk.replaced >> raise {A = Unit {0}} e) disk)
            q)
  after_loop d (ok t, d') old empty staged h =
      λ n. h n ∙ (rw (staged n, old) (overlay_old sources none (before n) n))
  after_loop d (err e, d') old empty staged h =
      let (caught, spent, kept) = h in
      rw caught (
        restore_step d' e spent
          λ n. kept n ∙ (ap (λ r. restored r d n) empty ∙ unfold restored in ap (λ f. f n) old))

  after_stage :
      (d : Disk) (p : Result (Unit {0}) × Disk)
      → d.target ≡ before
      → d.replaced ≡ []
      → ((n : Bytes) → d.staging n ≡ none)
      → IsStaged sources d p
      → IsAtomic sources before (
          handle_result is_exception
            (λ e disk. (restore_all disk.replaced >> raise {A = Unit {0}} e) disk)
            (bind_result p (λ _. replace_all sources)))
  after_stage d (err e, d') old empty none_staged h =
      let (caught, spent, kept, target) = h in
      let none_replaced : d'.replaced ≡ [] = kept ∙ empty in
      rw caught (
        restore_step d' e spent λ n.
          ap (λ r. restored r d' n) none_replaced ∙ unfold restored in ap (λ f. f n) (target ∙ old))
  after_stage d (ok t, d') old empty none_staged h =
      let (single, kept, target, staged) = h in
      let none_replaced : d'.replaced ≡ [] = kept ∙ empty in
      after_loop d' (replace_all sources d') (target ∙ old) none_replaced
        (λ n. staged n ∙ ap (λ o. overlay sources o n) (none_staged n))
        (loop_lem sources d' single distinct λ n h. ap (λ r. is_in n (old_names r)) none_replaced)

  replace_or_restore-IsAtomic :
      (d : Disk)
      → single_failure d.outcomes ≡ true
      → d.target ≡ before
      → d.replaced ≡ []
      → ((n : Bytes) → d.staging n ≡ none)
      → IsAtomic sources before (replace_or_restore sources d)
  unfolding replace_or_restore
  replace_or_restore-IsAtomic d single old empty none_staged =
      after_stage d (stage_all sources d) old empty none_staged (stage_lem sources d single)

module _ (compile : Bytes → Result (Unit {0})) (files : List (Bytes × Bytes)) where
  abbrev sources : List (Bytes × Bytes)
  sources = scripts files

  install_loops :
      (d : Disk) (before : Files)
      → has_repeat (names_of sources) ≡ false
      → single_failure d.outcomes ≡ true
      → d.target ≡ before
      → IsAtomic {A = List Bytes} sources before (
          (try_operation make_staging
              >> try_operation make_backup
              >> finally_do (replace_or_restore sources) remove_folders
              >> pure (names_of sources))
            d)
  install_loops d before distinct single old =
      elim (try_operation-cases make_staging d d.outcomes refl single) [
        | inr broke ↦ rw broke (λ n. ap (λ f. f n) old)
        | inl (later, single', done) ↦
            let d1 = make_staging (record d { outcomes = later }) in
            rw done (elim (try_operation-cases make_backup d1 later refl single') [
              | inr broke ↦ rw broke (λ n. ap (λ f. f n) old)
              | inl (later', single2, done') ↦
                  let d2 = make_backup (record d1 { outcomes = later' }) in
                  rw done' (
                    last (replace_or_restore sources d2) (
                      replace_or_restore-IsAtomic sources before distinct d2 single2 old refl
                        λ n. refl))
            ])
      ]
    where
      last :
          (q : Result (Unit {0}) × Disk)
          → IsAtomic sources before q
          → IsAtomic {A = List Bytes} sources before
              (bind_result (q.0, remove_folders q.1) λ _. pure (names_of sources))
      last (ok t, e) h = h
      last (err x, e) h = h

  -- An update is installed as a whole or not at all: when at most one of the operations of the
  -- system fails, wherever that is, `install_assistant_update` either returns, and every script of
  -- the release is in the target and all else there is as it was, or it raises, and every file of
  -- the target is as it was. The scripts of the release have different names.
  pub install_assistant_update-IsAtomic :
      (d : Disk)
      → has_repeat (names_of sources) ≡ false
      → single_failure d.outcomes ≡ true
      → IsAtomic sources d.target (install_assistant_update compile files d)
  unfolding install_assistant_update
  install_assistant_update-IsAtomic d distinct single =
      elim (Bool-cases (any (λ name. not (is_in name (names_of files))) required)) [
        | inl missing ↦ rw missing (λ n. refl)
        | inr there ↦ elim (Result-cases (compile_all compile sources)) [
          | inr (e, refused) ↦ rw (there, refused) (λ n. refl)
          | inl (t, compiled) ↦ rw (there, compiled) (install_loops d d.target distinct single refl)
        ]
      ]
