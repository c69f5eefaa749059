-- ===== src/Exec.antt =====
-- Exceptions as values, and methods that change an object and may raise. What was written before
-- a raise stays written, so the state comes back beside the failure too.
use makolet.Prelude.{◌≡◌, refl, Bool, true, false, Option, none, some}
use makolet.Domain.Errors.{Failure}

pub data Result {ℓ} (A : Type ℓ) : Type ℓ where
  ok : A → Result A
  err : Failure → Result A

abbrev pub is_ok {ℓ} : {A : Type ℓ} → Result A → Bool
is_ok (ok _) = true
is_ok (err _) = false

-- An action on an object of type `S`.
abbrev pub Exec {ℓ} : Type ℓ → Type ℓ → Type ℓ
Exec S A = S → Result A × S

module _ {ℓ} {S A : Type ℓ} where
  abbrev pub pure : A → Exec S A
  pure a s = (ok a, s)

  abbrev pub raise : Failure → Exec S A
  raise e s = (err e, s)

  -- A call that does not touch the object.
  abbrev pub lift : Result A → Exec S A
  lift r s = (r, s)

module _ {ℓ} {S A B : Type ℓ} where
  abbrev pub continue : Result A → (A → Exec S B) → Exec S B
  continue (ok a) f s = f a s
  continue (err e) f s = (err e, s)

  infixl 10 ◌>>=◌ ◌>>◌
  unfoldable pub ◌>>=◌ : Exec S A → (A → Exec S B) → Exec S B
  ◌>>=◌ m f s = continue (m s).0 f (m s).1

  abbrev pub ◌>>◌ : Exec S A → Exec S B → Exec S B
  m >> n = m >>= λ _. n

-- A call that returns nothing and may raise.
abbrev pub check : Option Failure → Result (Unit {0})
check none = ok tt
check (some e) = err e

-- What holds of a sequence of two actions: after a return of the first, and after a raise.
module _ {ℓ κ} {S A B : Type ℓ} (Q : Result B × S → Type κ) where
  continue-cases :
      (r : Result A) (f : A → Exec S B) (s : S)
      → ((a : A) → r ≡ ok a → Q (f a s))
      → ((e : Failure) → r ≡ err e → Q (err e, s))
      → Q (continue r f s)
  continue-cases (ok a) f s returns raises = returns a refl
  continue-cases (err e) f s returns raises = raises e refl

  pub >>=-cases :
      (m : Exec S A) (f : A → Exec S B) (s : S)
      → ((a : A) → (m s).0 ≡ ok a → Q (f a (m s).1))
      → ((e : Failure) → (m s).0 ≡ err e → Q (err e, (m s).1))
      → Q ((m >>= f) s)
  unfolding ◌>>=◌
  >>=-cases m f s returns raises = continue-cases (m s).0 f (m s).1 returns raises

-- `try: a = m; ... except Exception as e: handler(e)`, where the handler raises again.
module _ {ℓ} {S A B : Type ℓ} where
  abbrev pub rescue : Result A → (Failure → Exec S B) → (A → Exec S B) → Exec S B
  rescue (ok a) handler f s = f a s
  rescue (err e) handler f s = handler e s

  unfoldable pub try_bind : Exec S A → (Failure → Exec S B) → (A → Exec S B) → Exec S B
  try_bind m handler f s = rescue (m s).0 handler f (m s).1

module _ {ℓ κ} {S A B : Type ℓ} (Q : Result B × S → Type κ) where
  rescue-cases :
      (r : Result A) (handler : Failure → Exec S B) (f : A → Exec S B) (s : S)
      → ((a : A) → r ≡ ok a → Q (f a s))
      → ((e : Failure) → r ≡ err e → Q (handler e s))
      → Q (rescue r handler f s)
  rescue-cases (ok a) handler f s returns raises = returns a refl
  rescue-cases (err e) handler f s returns raises = raises e refl

  pub try_bind-cases :
      (m : Exec S A) (handler : Failure → Exec S B) (f : A → Exec S B) (s : S)
      → ((a : A) → (m s).0 ≡ ok a → Q (f a (m s).1))
      → ((e : Failure) → (m s).0 ≡ err e → Q (handler e (m s).1))
      → Q (try_bind m handler f s)
  unfolding try_bind
  try_bind-cases m handler f s returns raises =
      rescue-cases (m s).0 handler f (m s).1 returns raises

-- What every action of a family keeps, whether it returns or raises.
module _ {ℓ κ} {S : Type ℓ} (P : S → Type κ) where
  abbrev pub Keeps : {A : Type ℓ} → Exec S A → Type (ℓ ⊔ κ)
  Keeps m = (s : S) → P s → P (m s).1

  pub >>=-Keeps :
      {A B : Type ℓ} (m : Exec S A) (f : A → Exec S B)
      → Keeps m
      → ((a : A) → Keeps (f a))
      → Keeps (m >>= f)
  >>=-Keeps m f km kf s h =
      >>=-cases (λ p. P p.1) m f s (λ a _. kf a (m s).1 (km s h)) (λ e _. km s h)

  pub try_bind-Keeps :
      {A B : Type ℓ} (m : Exec S A) (handler : Failure → Exec S B) (f : A → Exec S B)
      → Keeps m
      → ((e : Failure) → Keeps (handler e))
      → ((a : A) → Keeps (f a))
      → Keeps (try_bind m handler f)
  try_bind-Keeps m handler f km kh kf s h =
      try_bind-cases (λ p. P p.1) m handler f s (λ a _. kf a (m s).1 (km s h))
        (λ e _. kh e (m s).1 (km s h))
