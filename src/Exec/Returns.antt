-- ===== src/Exec/Returns.antt =====
-- Actions that return normally, from any state with a condition, and keep it.
use dsh_yawn.Base.{Bool, true, false, if◌then◌else◌}
use dsh_yawn.Exec.{
  not_found, failure, Result, ok, err, Exec, pure, gets, continue, ◌>>=◌, catch, on_not_found,
  first_error, both,
}

abbrev pub IsOk {ℓ} : {A : Type ℓ} → Result A → Type 0
IsOk (ok a) = Unit
IsOk (err e) = ⊥

-- The answer is normal, or says that the sandbox is gone.
abbrev pub IsOkOrGone {ℓ} : {A : Type ℓ} → Result A → Type 0
IsOkOrGone (ok a) = Unit
IsOkOrGone (err (not_found x)) = Unit
IsOkOrGone (err (failure x)) = ⊥

pub record Returns {S A : Type 0} (P : S → Type 0) (m : Exec S A) : Type 0 where
  pub returns : (s : S) → P s → IsOk (m s).0 × P (m s).1

module _ {S : Type 0} {P : S → Type 0} where
  pub Returns-pure : {A : Type 0} (a : A) → Returns P (pure a)
  unfolding pure
  Returns-pure a = record { returns = λ s p. (tt, p) }

  pub Returns-gets : {A : Type 0} (f : S → A) → Returns P (gets f)
  unfolding gets
  Returns-gets f = record { returns = λ s p. (tt, p) }

  continue-Returns :
      {A B : Type 0} {f : A → Exec S B} (r : Result A) (s : S)
      → ((a : A) → Returns P (f a))
      → IsOk r × P s
      → IsOk (continue r f s).0 × P (continue r f s).1
  continue-Returns (ok a) s k p = (k a).returns s p.1
  continue-Returns (err e) s k p = elim p.0 [ ]

  pub Returns-bind :
      {A B : Type 0} {m : Exec S A} {f : A → Exec S B}
      → Returns P m
      → ((a : A) → Returns P (f a))
      → Returns P (m >>= f)
  unfolding ◌>>=◌
  Returns-bind {m = m} km kf = record {
    returns = λ s p. continue-Returns (m s).0 (m s).1 kf (km.returns s p);
  }

  pub Returns-if :
      {A : Type 0} (b : Bool) {m n : Exec S A}
      → Returns P m
      → Returns P n
      → Returns P (if b then m else n)
  Returns-if true km kn = km
  Returns-if false km kn = kn

  both-Returns :
      {n : Exec S (Unit {0})} (r : Result (Unit {0})) (s : S)
      → Returns P n
      → IsOk r × P s
      → IsOk (first_error r (n s).0) × P (n s).1
  unfolding first_error
  both-Returns (ok a) s k p = k.returns s p.1
  both-Returns (err e) s k p = elim p.0 [ ]

  pub Returns-both : {m n : Exec S (Unit {0})} → Returns P m → Returns P n → Returns P (both m n)
  unfolding both
  Returns-both {m = m} km kn = record {
    returns = λ s p. both-Returns (m s).0 (m s).1 kn (km.returns s p);
  }

  handled :
      {A : Type 0} {n : Exec S A} (r : Result A) (s : S)
      → Returns P n
      → IsOkOrGone r
      → P s
      → IsOk (on_not_found (λ s. (r, s)) n s).0 × P (on_not_found (λ s. (r, s)) n s).1
  unfolding catch
  handled (ok a) s k is p = (tt, p)
  handled (err (not_found x)) s k is p = k.returns s p
  handled (err (failure x)) s k is p = elim is [ ]

  -- What the handler is for does not throw on.
  pub Returns-on_not_found :
      {A : Type 0} (m : Exec S A) {n : Exec S A}
      → ((s : S) → P s → IsOkOrGone (m s).0 × P (m s).1)
      → Returns P n
      → Returns P (on_not_found m n)
  unfolding catch
  Returns-on_not_found m km kn = record {
    returns = λ s p. handled (m s).0 (m s).1 kn (km s p).0 (km s p).1;
  }
