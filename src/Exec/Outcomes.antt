-- ===== src/Exec/Outcomes.antt =====
-- Conditions that hold on a normal return alone, from any state or from a known one.
use dsh_yawn.Base.{◌≡◌, refl, subst}
use dsh_yawn.Exec.{
  Error, not_found, failure, Result, ok, err, Exec, continue, ◌>>=◌, recover, catch, on_not_found,
  first_error, both,
}
use dsh_yawn.Exec.Hoare.{Keeps, OnOk, Ensures, Ensures-bind, Ensures-raise}

abbrev pub Anywhere {ℓ} : {S : Type ℓ} → S → Type 0
Anywhere s = Unit

module _ {ℓ} {S : Type ℓ} where
  OnOk-trivial : {A : Type ℓ} (r : Result A) (s : S) → OnOk {ℓ, 0} (λ (_ : A) (_ : S). Unit) r s
  OnOk-trivial (ok a) s = tt
  OnOk-trivial (err e) s = tt

  -- The state after the first action does not matter.
  pub Ensures-then :
      {P : S → Type 0} {A B : Type ℓ} (m : Exec S A) {f : A → Exec S B} {Q : B → S → Type 0}
      → ((a : A) → Ensures Anywhere (f a) Q)
      → Ensures P (m >>= f) Q
  Ensures-then m k =
      Ensures-bind (λ _ _. Unit) (record { ensures = λ s p. OnOk-trivial (m s).0 (m s).1 }) k

  pub Ensures-from :
      {P R : S → Type 0} {A : Type ℓ} {m : Exec S A} {Q : A → S → Type 0}
      → ((s : S) → P s → R s)
      → Ensures R m Q
      → Ensures P m Q
  Ensures-from f k = record { ensures = λ s p. k.ensures s (f s p) }

  OnOk-map :
      {A : Type ℓ} (Q R : A → S → Type 0) (r : Result A) (s : S)
      → ((a : A) → Q a s → R a s)
      → OnOk Q r s
      → OnOk R r s
  OnOk-map Q R (ok a) s f h = f a h
  OnOk-map Q R (err e) s f h = tt

  pub Ensures-to :
      {P : S → Type 0} {A : Type ℓ} {m : Exec S A} {Q R : A → S → Type 0}
      → ((a : A) (s : S) → Q a s → R a s)
      → Ensures P m Q
      → Ensures P m R
  Ensures-to {m = m} {Q = Q} {R = R} f k = record {
    ensures = λ s p. OnOk-map Q R (m s).0 (m s).1 (λ a. f a (m s).1) (k.ensures s p);
  }

  recover-ensures :
      {R : S → Type 0} {A : Type ℓ} {f : Error → Exec S A} {Q : A → S → Type 0} (r : Result A)
      (s : S)
      → ((e : Error) → Ensures R (f e) Q)
      → R s
      → OnOk Q r s
      → OnOk Q (recover r f s).0 (recover r f s).1
  recover-ensures (ok a) s k kept h = h
  recover-ensures (err e) s k kept h = (k e).ensures s kept

  -- The handler starts from what the failed action kept.
  pub Ensures-catch_kept :
      (R : S → Type 0) {P : S → Type 0} {A : Type ℓ} {m : Exec S A} {f : Error → Exec S A}
      {Q : A → S → Type 0}
      → ((s : S) → P s → R s)
      → Keeps R m
      → Ensures P m Q
      → ((e : Error) → Ensures R (f e) Q)
      → Ensures P (catch m f) Q
  unfolding catch
  Ensures-catch_kept R {m = m} weaker kept km kf = record {
    ensures =
        λ s p. recover-ensures (m s).0 (m s).1 kf (kept.keeps s (weaker s p)) (km.ensures s p);
  }

  pub Ensures-catch :
      {P : S → Type 0} {A : Type ℓ} {m : Exec S A} {f : Error → Exec S A} {Q : A → S → Type 0}
      → Ensures P m Q
      → ((e : Error) → Ensures Anywhere (f e) Q)
      → Ensures P (catch m f) Q
  Ensures-catch km kf = Ensures-catch_kept Anywhere (λ s p. tt) (record { keeps = λ s h. tt }) km kf

  pub Ensures-on_not_found :
      {P : S → Type 0} {A : Type ℓ} {m n : Exec S A} {Q : A → S → Type 0}
      → Ensures P m Q
      → Ensures Anywhere n Q
      → Ensures P (on_not_found m n) Q
  Ensures-on_not_found km kn =
      Ensures-catch km (elim [ not_found x ↦ kn | failure x ↦ Ensures-raise (failure x) _ ])

  OnOk-always :
      {A : Type ℓ} (R : S → Type 0) (r : Result A) (s : S) → R s → OnOk {ℓ, 0} (λ (_ : A). R) r s
  OnOk-always R (ok a) s h = h
  OnOk-always R (err e) s h = tt

  -- A condition that holds afterwards on an error too.
  pub Ensures-always :
      {P : S → Type 0} {A : Type ℓ} {m : Exec S A} (R : S → Type 0)
      → ((s : S) → P s → R (m s).1)
      → Ensures P m (λ _. R)
  Ensures-always {m = m} R k = record { ensures = λ s p. OnOk-always R (m s).0 (m s).1 (k s p) }

  -- A condition that is no condition on the state is a hypothesis.
  pub Ensures-given_and :
      {F : Type 0} {P : S → Type 0} {A : Type ℓ} {m : Exec S A} {Q : A → S → Type 0}
      → (F → Ensures P m Q)
      → Ensures (λ s. F × P s) m Q
  Ensures-given_and k = record { ensures = λ s p. (k p.0).ensures s p.1 }

  pub Ensures-given :
      {F : Type 0} {A : Type ℓ} {m : Exec S A} {Q : A → S → Type 0}
      → (F → Ensures Anywhere m Q)
      → Ensures (λ _. F) m Q
  Ensures-given k = record { ensures = λ s p. (k p).ensures s tt }

  pub Ensures-answer :
      {P : S → Type 0} {A : Type ℓ} {m : Exec S A} {Q : A → S → Type 0}
      → Ensures P m Q
      → (s : S) (a : A) → P s
      → (m s).0 ≡ ok a
      → Q a (m s).1
  Ensures-answer {m = m} {Q = Q} k s a p e = subst (λ r. OnOk Q r (m s).1) e (k.ensures s p)

module _ {S : Type 0} where
  first_error-ensures :
      {R Q : S → Type 0} {n : Exec S (Unit {0})} (r : Result (Unit {0})) (s : S)
      → OnOk (λ _. R) r s
      → Ensures R n (λ _. Q)
      → OnOk (λ _. Q) (first_error r (n s).0) (n s).1
  unfolding first_error
  first_error-ensures (ok a) s h k = k.ensures s h
  first_error-ensures (err e) s h k = tt

  -- Both actions run; a normal answer means that neither failed.
  pub Ensures-both :
      {P : S → Type 0} (R : S → Type 0) {Q : S → Type 0} {m n : Exec S (Unit {0})}
      → Ensures P m (λ _. R)
      → Ensures R n (λ _. Q)
      → Ensures P (both m n) (λ _. Q)
  unfolding both
  Ensures-both R {m = m} km kn = record {
    ensures = λ s p. first_error-ensures (m s).0 (m s).1 (km.ensures s p) kn;
  }

  continue-agree :
      {A B : Type 0} {R : A → S → Type 0} {f g : A → Exec S B} (r : Result A) (s : S)
      → OnOk R r s
      → ((a : A) (s : S) → R a s → f a s ≡ g a s)
      → continue r f s ≡ continue r g s
  continue-agree (ok a) s h k = k a s h
  continue-agree (err e) s h k = refl

  -- Two continuations that agree on every state the first action can return in.
  pub bind-agree :
      {A B : Type 0} {P : S → Type 0} {R : A → S → Type 0} {m : Exec S A} {f g : A → Exec S B}
      (s : S)
      → Ensures P m R
      → P s
      → ((a : A) (s : S) → R a s → f a s ≡ g a s)
      → (m >>= f) s ≡ (m >>= g) s
  unfolding ◌>>=◌
  bind-agree {R = R} {m = m} s k p agree =
      continue-agree {R = R} (m s).0 (m s).1 (k.ensures s p) agree
