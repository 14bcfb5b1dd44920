-- ===== src/Exec/Steps.antt =====
-- What a method does to the object, whether it returns or raises, as a relation between the states
-- before and after: one rule for each way to build a method.
use kafka_python.Common.{Bool, true, false, if◌then◌else◌}
use kafka_python.Errors.{Exc}
use kafka_python.Exec.{Exec, Result, ok, err, continue, pure, raise, gets, raise_if, when, ◌>>=◌}

pub record IsPreorder {ℓ} {S : Type ℓ} (R : S → S → Type ℓ) : Type ℓ where
  pub refl_at : (s : S) → R s s
  pub trans_at : {s t u : S} → R s t → R t u → R s u

pub record Steps {ℓ} {S : Type ℓ} {A : Type 0} (R : S → S → Type ℓ) (m : Exec S A) : Type ℓ where
  pub at : (s : S) → R s (m s).1

module _ {ℓ} {S : Type ℓ} {R : S → S → Type ℓ} (o : IsPreorder R) where
  pub Steps-pure : {A : Type 0} (a : A) → Steps R (pure a)
  unfolding ◌>>=◌
  Steps-pure a = record { at = λ s. o.refl_at s }

  pub Steps-raise : {A : Type 0} (e : Exc) → Steps R (raise {A = A} e)
  unfolding ◌>>=◌
  Steps-raise e = record { at = λ s. o.refl_at s }

  pub Steps-gets : {A : Type 0} (f : S → A) → Steps R (gets f)
  unfolding ◌>>=◌
  Steps-gets f = record { at = λ s. o.refl_at s }

  pub Steps-raise_if : (c : Bool) (e : Exc) → Steps R (raise_if c e)
  unfolding ◌>>=◌
  Steps-raise_if c e = record { at = λ s. o.refl_at s }

  pub Steps-when : (c : Bool) (m : Exec S Unit) → Steps R m → Steps R (when c m)
  unfolding ◌>>=◌
  Steps-when true m h = record { at = h.at }
  Steps-when false m h = record { at = λ s. o.refl_at s }

  pub Steps-if :
      {A : Type 0} (c : Bool) (m n : Exec S A)
      → Steps R m
      → Steps R n
      → Steps R (if c then m else n)
  Steps-if true m n hm hn = hm
  Steps-if false m n hm hn = hn

  Steps-continue :
      {A B : Type 0} (r : Result A) (f : A → Exec S B) (s t : S)
      → R s t
      → ((a : A) → Steps R (f a))
      → R s (continue r f t).1
  Steps-continue (ok a) f s t h hf = o.trans_at h ((hf a).at t)
  Steps-continue (err e) f s t h hf = h

  pub Steps-bind :
      {A B : Type 0} (m : Exec S A) (f : A → Exec S B)
      → Steps R m
      → ((a : A) → Steps R (f a))
      → Steps R (m >>= f)
  unfolding ◌>>=◌
  Steps-bind m f hm hf = record {
    at = λ s. let (r, t) = m s in Steps-continue r f s t (hm.at s) hf;
  }

pub ruleset steps_rules =
    (Steps-pure, Steps-raise, Steps-gets, Steps-raise_if, Steps-when, Steps-if, Steps-bind)
