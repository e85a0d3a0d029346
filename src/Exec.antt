-- ===== src/Exec.antt =====
-- Asynchronous methods that may throw, as actions on a state. What was written before a throw stays
-- written, so the state comes back beside an error too. `SandboxNotFoundError` is the one error that
-- the source tells from the others.
pub mod Hoare
pub mod Outcomes
pub mod Leaves
pub mod Returns
use dsh_yawn.Base.{String, Bool, true, false, Option, none, some, List, [], ◌∷◌}

pub data Error : Type 0 where
  not_found : String → Error
  failure : String → Error

pub data Result {ℓ} (A : Type ℓ) : Type ℓ where
  ok : A → Result A
  err : Error → Result A

abbrev pub Exec {ℓ} : Type ℓ → Type ℓ → Type ℓ
Exec S A = S → Result A × S

module _ {ℓ} {S A : Type ℓ} where
  unfoldable pub pure : A → Exec S A
  pure a s = (ok a, s)

  unfoldable pub raise : Error → Exec S A
  raise e s = (err e, s)

  unfoldable pub gets : (S → A) → Exec S A
  gets f s = (ok (f s), s)

  -- The value of a synchronous call that may throw.
  unfoldable pub lift : Result A → Exec S A
  lift r s = (r, s)

module _ {ℓ} {S A B : Type ℓ} where
  abbrev pub continue : Result A → (A → Exec S B) → Exec S B
  continue (ok a) f s = f a s
  continue (err e) f s = (err e, s)

  infixl 10 ◌>>=◌ ◌>>◌
  unfoldable pub ◌>>=◌ : Exec S A → (A → Exec S B) → Exec S B
  unfolding pure raise gets lift
  ◌>>=◌ m f s = let (r, s') = m s in continue r f s'

  abbrev pub ◌>>◌ : Exec S A → Exec S B → Exec S B
  m >> n = m >>= λ _. n

module _ {ℓ} {S A : Type ℓ} where
  abbrev pub recover : Result A → (Error → Exec S A) → Exec S A
  recover (ok a) h s = (ok a, s)
  recover (err e) h s = h e s

  -- `try { m } catch (error) { h(error) }`
  unfoldable pub catch : Exec S A → (Error → Exec S A) → Exec S A
  catch m h s = let (r, s') = m s in recover r h s'

-- `try { m } catch (error) { if (!(error instanceof SandboxNotFoundError)) throw error; h }`
abbrev pub on_not_found {ℓ} : {S A : Type ℓ} → Exec S A → Exec S A → Exec S A
on_not_found m h = catch m (elim [ not_found x ↦ h | failure x ↦ raise (failure x) ])

abbrev pub modify : {S : Type 0} → (S → S) → Exec S (Unit {0})
modify f s = (ok tt, f s)

unfoldable pub first_error : Result (Unit {0}) → Result (Unit {0}) → Result (Unit {0})
first_error (err e) r = err e
first_error (ok _) r = r

-- `Promise.all([m, n])` of two actions that both run to their end: the first error is thrown.
unfoldable pub both : {S : Type 0} → Exec S (Unit {0}) → Exec S (Unit {0}) → Exec S (Unit {0})
unfolding first_error
both m n s = let (r, s') = m s in let (r', s'') = n s' in (first_error r r', s'')
