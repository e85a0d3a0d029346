-- ===== src/Exec/Leaves.antt =====
-- A condition before and another after, whether the action returns or throws: for a condition that is
-- given up between two writes.
use dsh_yawn.Exec.{Result, ok, err, Exec, continue, ◌>>=◌}
use dsh_yawn.Exec.Hoare.{Keeps, OnOk, Ensures}

pub record Leaves {ℓ κ} {S A : Type ℓ} (P : S → Type κ) (m : Exec S A) (Q : S → Type κ)
    : Type (ℓ ⊔ κ) where
  pub leaves : (s : S) → P s → Q (m s).1

module _ {ℓ κ} {S : Type ℓ} where
  pub Leaves-Keeps : {P : S → Type κ} {A : Type ℓ} {m : Exec S A} → Leaves P m P → Keeps P m
  Leaves-Keeps k = record { keeps = k.leaves }

  -- A weaker condition after an action that keeps a stronger one.
  pub Keeps-Leaves :
      {P Q : S → Type κ} {A : Type ℓ} {m : Exec S A}
      → ((s : S) → P s → Q s)
      → Keeps P m
      → Leaves P m Q
  Keeps-Leaves weaker k = record { leaves = λ s p. weaker _ (k.keeps s p) }

  continue-always :
      {Q R : S → Type κ} {A B : Type ℓ} (f : A → Exec S B) (r : Result A) (s : S)
      → ((s : S) → R s → Q s)
      → ((a : A) → Leaves R (f a) Q)
      → R s
      → Q (continue r f s).1
  continue-always f (ok a) s weaker k h = (k a).leaves s h
  continue-always f (err e) s weaker k h = weaker s h

  -- The first action leaves a stronger condition in any case.
  pub Leaves-bind_always :
      (R : S → Type κ) {P Q : S → Type κ} {A B : Type ℓ} {m : Exec S A} {f : A → Exec S B}
      → ((s : S) → R s → Q s)
      → Leaves P m R
      → ((a : A) → Leaves R (f a) Q)
      → Leaves P (m >>= f) Q
  unfolding ◌>>=◌
  Leaves-bind_always R {m = m} {f = f} weaker first k = record {
    leaves = λ s p. continue-always f (m s).0 (m s).1 weaker k (first.leaves s p);
  }

  continue-ensured :
      {Q R : S → Type κ} {A B : Type ℓ} (f : A → Exec S B) (r : Result A) (s : S)
      → ((a : A) → Leaves R (f a) Q)
      → Q s
      → OnOk (λ (_ : A). R) r s
      → Q (continue r f s).1
  continue-ensured f (ok a) s k q h = (k a).leaves s h
  continue-ensured f (err e) s k q h = q

  -- The first action leaves the final condition in any case, and a stronger one if it returns.
  pub Leaves-bind_ensured :
      (R : S → Type κ) {P Q : S → Type κ} {A B : Type ℓ} {m : Exec S A} {f : A → Exec S B}
      → Leaves P m Q
      → Ensures P m (λ _. R)
      → ((a : A) → Leaves R (f a) Q)
      → Leaves P (m >>= f) Q
  unfolding ◌>>=◌
  Leaves-bind_ensured R {m = m} {f = f} first ensured k = record {
    leaves = λ s p.
        continue-ensured {R = R} f (m s).0 (m s).1 k (first.leaves s p) (ensured.ensures s p);
  }

pub Keeps-and {ℓ κ} :
    {S A : Type ℓ} {P Q : S → Type κ} {m : Exec S A}
    → Keeps P m
    → Keeps Q m
    → Keeps (λ s. P s × Q s) m
Keeps-and k l = record { keeps = λ s h. (k.keeps s h.0, l.keeps s h.1) }
