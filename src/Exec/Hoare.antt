-- ===== src/Exec/Hoare.antt =====
-- Conditions on actions: what every outcome keeps, and what a normal outcome ensures.
use dsh_yawn.Base.{Bool, true, false, if◌then◌else◌}
use dsh_yawn.Exec.{
  Error, not_found, failure, Result, ok, err, Exec, pure, raise, gets, lift, continue, ◌>>=◌,
  recover, catch, on_not_found,
}

-- Whether it returns or throws, the action leaves `P` as it found it.
pub record Keeps {ℓ κ} {S A : Type ℓ} (P : S → Type κ) (m : Exec S A) : Type (ℓ ⊔ κ) where
  pub keeps : (s : S) → P s → P (m s).1

abbrev pub OnOk {ℓ κ} : {S A : Type ℓ} → (A → S → Type κ) → Result A → S → Type κ
OnOk Q (ok a) s = Q a s
OnOk Q (err e) s = Unit

-- From a state with `P`, a normal return has `Q`.
pub record Ensures {ℓ κ} {S A : Type ℓ} (P : S → Type κ) (m : Exec S A) (Q : A → S → Type κ)
    : Type (ℓ ⊔ κ) where
  pub ensures : (s : S) → P s → OnOk Q (m s).0 (m s).1

module _ {ℓ κ} {S : Type ℓ} {P : S → Type κ} where
  pub Keeps-pure : {A : Type ℓ} (a : A) → Keeps P (pure {S = S} a)
  unfolding pure
  Keeps-pure a = record { keeps = λ s h. h }

  pub Keeps-raise : {A : Type ℓ} (e : Error) → Keeps P (raise {S = S} {A = A} e)
  unfolding raise
  Keeps-raise e = record { keeps = λ s h. h }

  pub Keeps-gets : {A : Type ℓ} (f : S → A) → Keeps P (gets f)
  unfolding gets
  Keeps-gets f = record { keeps = λ s h. h }

  pub Keeps-lift : {A : Type ℓ} (r : Result A) → Keeps P (lift {S = S} r)
  unfolding lift
  Keeps-lift r = record { keeps = λ s h. h }

  Keeps-continue :
      {A B : Type ℓ} (f : A → Exec S B)
      → ((a : A) → Keeps P (f a))
      → (r : Result A) (s : S) → P s
      → P (continue r f s).1
  Keeps-continue f k (ok a) s h = (k a).keeps s h
  Keeps-continue f k (err e) s h = h

  pub Keeps-bind :
      {A B : Type ℓ} {m : Exec S A} {f : A → Exec S B}
      → Keeps P m
      → ((a : A) → Keeps P (f a))
      → Keeps P (m >>= f)
  unfolding ◌>>=◌
  Keeps-bind {m = m} {f = f} km kf = record {
    keeps = λ s h. Keeps-continue f kf (m s).0 (m s).1 (km.keeps s h);
  }

  Keeps-recover :
      {A : Type ℓ} (f : Error → Exec S A)
      → ((e : Error) → Keeps P (f e))
      → (r : Result A) (s : S) → P s
      → P (recover r f s).1
  Keeps-recover f k (ok a) s h = h
  Keeps-recover f k (err e) s h = (k e).keeps s h

  pub Keeps-catch :
      {A : Type ℓ} {m : Exec S A} {f : Error → Exec S A}
      → Keeps P m
      → ((e : Error) → Keeps P (f e))
      → Keeps P (catch m f)
  unfolding catch
  Keeps-catch {m = m} {f = f} km kf = record {
    keeps = λ s h. Keeps-recover f kf (m s).0 (m s).1 (km.keeps s h);
  }

  pub Keeps-on_not_found :
      {A : Type ℓ} {m n : Exec S A} → Keeps P m → Keeps P n → Keeps P (on_not_found m n)
  Keeps-on_not_found km kn =
      Keeps-catch km (elim [ not_found x ↦ kn | failure x ↦ Keeps-raise (failure x) ])

  pub Keeps-if :
      {A : Type ℓ} (b : Bool) {m n : Exec S A}
      → Keeps P m
      → Keeps P n
      → Keeps P (if b then m else n)
  Keeps-if true km kn = km
  Keeps-if false km kn = kn

-- The rules by which `search` walks through a `do` block.
pub ruleset keeps_rules =
    (Keeps-pure, Keeps-raise, Keeps-gets, Keeps-lift, Keeps-bind, Keeps-on_not_found, Keeps-if)

Ensures-continue {ℓ κ} :
    {S A B : Type ℓ} (f : A → Exec S B) (R : A → S → Type κ) (Q : B → S → Type κ)
    → ((a : A) → Ensures (R a) (f a) Q)
    → (r : Result A) (s : S) → OnOk R r s
    → OnOk Q (continue r f s).0 (continue r f s).1
Ensures-continue f R Q k (ok a) s h = (k a).ensures s h
Ensures-continue f R Q k (err e) s h = tt

OnOk-of {ℓ κ} :
    {S A : Type ℓ} (P : S → Type κ) (r : Result A) (s : S) → P s → OnOk (λ (_ : A). P) r s
OnOk-of P (ok a) s h = h
OnOk-of P (err e) s h = tt

module _ {ℓ κ} {S : Type ℓ} {P : S → Type κ} where
  pub Ensures-raise : {A : Type ℓ} (e : Error) (Q : A → S → Type κ) → Ensures P (raise e) Q
  unfolding raise
  Ensures-raise e Q = record { ensures = λ s h. tt }

  pub Ensures-bind :
      {A B : Type ℓ} {m : Exec S A} {f : A → Exec S B} (R : A → S → Type κ) {Q : B → S → Type κ}
      → Ensures P m R
      → ((a : A) → Ensures (R a) (f a) Q)
      → Ensures P (m >>= f) Q
  unfolding ◌>>=◌
  Ensures-bind {m = m} {f = f} R {Q = Q} km kf = record {
    ensures = λ s h. Ensures-continue f R Q kf (m s).0 (m s).1 (km.ensures s h);
  }

  -- What an action keeps, its normal return ensures.
  pub Keeps→Ensures : {A : Type ℓ} {m : Exec S A} → Keeps P m → Ensures P m (λ _. P)
  Keeps→Ensures {m = m} k = record { ensures = λ s h. OnOk-of P (m s).0 (m s).1 (k.keeps s h) }

  pub Ensures-after :
      {A B : Type ℓ} {m : Exec S A} {f : A → Exec S B} {Q : B → S → Type κ}
      → Keeps P m
      → ((a : A) → Ensures P (f a) Q)
      → Ensures P (m >>= f) Q
  Ensures-after km kf = Ensures-bind (λ _. P) (Keeps→Ensures km) kf

  pub Ensures-if :
      {A : Type ℓ} (b : Bool) {m n : Exec S A} {Q : A → S → Type κ}
      → Ensures P m Q
      → Ensures P n Q
      → Ensures P (if b then m else n) Q
  Ensures-if true km kn = km
  Ensures-if false km kn = kn

  pub Ensures-pure :
      {A : Type ℓ} (a : A) (Q : A → S → Type κ) → ((s : S) → P s → Q a s) → Ensures P (pure a) Q
  unfolding pure
  Ensures-pure a Q q = record { ensures = q }

  pub Ensures-gets :
      {A : Type ℓ} (f : S → A) (Q : A → S → Type κ)
      → ((s : S) → P s → Q (f s) s)
      → Ensures P (gets f) Q
  unfolding gets
  Ensures-gets f Q q = record { ensures = q }

  continue_fact :
      {A B : Type ℓ} (F : A → Type κ) (f : A → Exec S B)
      → ((a : A) → F a → Keeps P (f a))
      → (r : Result A) (s : S) → P s
      → OnOk (λ (a : A) (_ : S). F a) r s
      → P (continue r f s).1
  continue_fact F f k (ok a) s h fact = (k a fact).keeps s h
  continue_fact F f k (err e) s h fact = h

  -- A bind whose continuation needs a fact about the value that it is given.
  pub Keeps-bind_fact :
      {A B : Type ℓ} {m : Exec S A} {f : A → Exec S B} (F : A → Type κ)
      → Keeps P m
      → Ensures P m (λ a _. F a)
      → ((a : A) → F a → Keeps P (f a))
      → Keeps P (m >>= f)
  unfolding ◌>>=◌
  Keeps-bind_fact {m = m} {f = f} F km em kf = record {
    keeps = λ s h. continue_fact F f kf (m s).0 (m s).1 (km.keeps s h) (em.ensures s h);
  }

  continue_ensures :
      {A B : Type ℓ} (F : A → Type κ) (f : A → Exec S B) (Q : B → S → Type κ)
      → ((a : A) → F a → Ensures P (f a) Q)
      → (r : Result A) (s : S) → P s
      → OnOk (λ (a : A) (_ : S). F a) r s
      → OnOk Q (continue r f s).0 (continue r f s).1
  continue_ensures F f Q k (ok a) s h fact = (k a fact).ensures s h
  continue_ensures F f Q k (err e) s h fact = tt

  pub Ensures-bind_fact :
      {A B : Type ℓ} {m : Exec S A} {f : A → Exec S B} (F : A → Type κ) {Q : B → S → Type κ}
      → Keeps P m
      → Ensures P m (λ a _. F a)
      → ((a : A) → F a → Ensures P (f a) Q)
      → Ensures P (m >>= f) Q
  unfolding ◌>>=◌
  Ensures-bind_fact {m = m} {f = f} F {Q = Q} km em kf = record {
    ensures = λ s h. continue_ensures F f Q kf (m s).0 (m s).1 (km.keeps s h) (em.ensures s h);
  }
