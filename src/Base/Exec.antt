-- ===== src/Base/Exec.antt =====
-- Exceptions as values, and methods that change an object and may raise. What was written before a
-- raise stays written, so the state comes back beside the error too.
use nano_ql.Base.{ℕ, String, ◌≡◌, refl, ◌⊎◌, inl, inr, Bool, true, false, Option, if◌then◌else◌}

-- The four ways in which a reply frame is refused.
pub data LinkFault : Type 0 where
  missing_response incomplete_response invalid_version_or_sequence invalid_crc : LinkFault

-- The exceptions that the tools raise, by class. A text is the fixed part of the message.
pub data Error : Type 0 where
  -- `RuntimeError` of `transact`
  link_response : LinkFault → Error
  -- `RuntimeError` of `transact` for the error code of a firmware reply
  rejected : ℕ → Error
  runtime_error : String → Error
  -- a `RuntimeError` that appends a diagnostic to the message of another error
  diagnosed : Error → Option String → Error
  value_error : String → Error
  -- `UnicodeDecodeError`, a subclass of `ValueError`
  unicode_error : Error
  -- `TimeoutError`, a subclass of `OSError`
  timeout_error : String → Error
  -- `serial.SerialException`, `PermissionError` and the other cases of `OSError`
  os_error : Error
  file_not_found : Error
  index_error : Error
  -- not of the source: a bounded loop of the model has used up its rounds
  out_of_rounds : Error

pub data Result {ℓ} (A : Type ℓ) : Type ℓ where
  ok : A → Result A
  err : Error → Result A

-- `except RuntimeError`
unfoldable pub is_runtime_error : Error → Bool
is_runtime_error (link_response f) = true
is_runtime_error (rejected c) = true
is_runtime_error (runtime_error m) = true
is_runtime_error (diagnosed e d) = true
is_runtime_error _ = false

-- `except OSError`
unfoldable pub is_os_error : Error → Bool
is_os_error (timeout_error m) = true
is_os_error os_error = true
is_os_error file_not_found = true
is_os_error _ = false

-- `except Exception`: every exception of the source.
unfoldable pub is_exception : Error → Bool
is_exception out_of_rounds = false
is_exception _ = true

abbrev pub Exec {ℓ} : Type ℓ → Type ℓ → Type ℓ
Exec S A = S → Result A × S

module _ {ℓ} {S A : Type ℓ} where
  abbrev pub pure : A → Exec S A
  pure a s = (ok a, s)

  abbrev pub raise : Error → Exec S A
  raise e s = (err e, s)

  abbrev pub gets : (S → A) → Exec S A
  gets f s = (ok (f s), s)

  abbrev pub lift : Result A → Exec S A
  lift r s = (r, s)

module _ {ℓ} {S A B : Type ℓ} where
  abbrev pub bind_result : Result A × S → (A → Exec S B) → Result B × S
  bind_result (ok a, s) f = f a s
  bind_result (err e, s) f = (err e, s)

  infixl 5 ◌>>=◌ ◌>>◌
  abbrev pub ◌>>=◌ : Exec S A → (A → Exec S B) → Exec S B
  ◌>>=◌ m f s = bind_result (m s) f

  abbrev pub ◌>>◌ : Exec S A → Exec S B → Exec S B
  m >> n = m >>= λ _. n

module _ {S : Type 0} where
  abbrev pub skip : Exec S (Unit {0})
  skip s = (ok tt, s)

  abbrev pub modify : (S → S) → Exec S (Unit {0})
  modify f s = (ok tt, f s)

  abbrev pub raise_if : Bool → Error → Exec S (Unit {0})
  raise_if true e s = (err e, s)
  raise_if false e s = (ok tt, s)

  abbrev pub when : Bool → Exec S (Unit {0}) → Exec S (Unit {0})
  when true m s = m s
  when false m s = (ok tt, s)

module _ {ℓ} {S A : Type ℓ} where
  -- `try: m` with `except` clauses that take the errors of `caught`.
  abbrev pub handle_result : (Error → Bool) → (Error → Exec S A) → Result A × S → Result A × S
  handle_result caught h (ok a, s) = (ok a, s)
  handle_result caught h (err e, s) = if caught e then h e s else (err e, s)

  abbrev pub try_except : Exec S A → (Error → Bool) → (Error → Exec S A) → Exec S A
  try_except m caught h s = handle_result caught h (m s)

  -- `finally: after`, where `after` itself does not raise.
  abbrev pub finally_do : Exec S A → (S → S) → Exec S A
  finally_do m after s = let (r, s') = m s in (r, after s')

  -- `finally: after`: an error of `after` takes the place of the result.
  abbrev pub end_finally : Result A → Result (Unit {0}) × S → Result A × S
  end_finally r (ok _, s) = (r, s)
  end_finally r (err e, s) = (err e, s)

  abbrev pub try_finally : Exec S A → (S → Result (Unit {0}) × S) → Exec S A
  try_finally m after s = let (r, s') = m s in end_finally r (after s')

-- Inversion of a block that returned.
module _ {ℓ} {S A B : Type ℓ} where
  bind_result-ok :
      (r : Result A × S) (f : A → Exec S B) {b : B} {t : S}
      → bind_result r f ≡ (ok b, t)
      → (a : A) × (u : S) × (r ≡ (ok a, u)) × (f a u ≡ (ok b, t))
  bind_result-ok (ok a, u) f h = (a, u, refl, h)
  bind_result-ok (err e, u) f h = cc

  pub >>=-ok :
      (m : Exec S A) (f : A → Exec S B) (s : S) {b : B} {t : S}
      → (m >>= f) s ≡ (ok b, t)
      → (a : A) × (u : S) × (m s ≡ (ok a, u)) × (f a u ≡ (ok b, t))
  >>=-ok m f s h = bind_result-ok (m s) f h

abbrev pub is_ok {ℓ} : {A : Type ℓ} → Result A → Bool
is_ok (ok a) = true
is_ok (err e) = false

-- The value of a result that is `ok`.
abbrev pub ok_or {ℓ} : {A : Type ℓ} → A → Result A → A
ok_or d (ok a) = a
ok_or d (err e) = d

pub ok-injective {ℓ} : {A : Type ℓ} {a b : A} → ok a ≡ ok b → a ≡ b
ok-injective h = cc h

pub Result-cases {ℓ} :
    {A : Type ℓ} (r : Result A) → ((a : A) × (r ≡ ok a)) ⊎ ((e : Error) × (r ≡ err e))
Result-cases (ok a) = inl (a, refl)
Result-cases (err e) = inr (e, refl)
