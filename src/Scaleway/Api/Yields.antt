-- ===== src/Scaleway/Api/Yields.antt =====
-- The calls that a method makes, together with what holds of its result.
use scaleway_cloud_controlle.Base.{
  List, [], ◌++◌, Result, ok, err, ◌≡◌, refl, ap, ◌∙◌, sym, All, All-append,
}
use mathlib.Core.List.{append_assoc}
use scaleway_cloud_controlle.Scaleway.Api.{Call, History, M, lift, ◌>>=◌, continue_with}
use scaleway_cloud_controlle.Scaleway.Api.Trace.{Calls}

abbrev pub IsGiven : {A : Type 0} → (A → Type 0) → Result A → Type 0
IsGiven R (ok a) = R a
IsGiven R (err e) = Unit

-- Whatever was called before and whatever is answered, the calls that are added satisfy P, and a
-- result satisfies R.
pub record Yields (P : Call → Type 0) {A : Type 0} (R : A → Type 0) (m : M A) : Type 0 where
  pub given :
      (h : History) → (calls : List Call) × ((m h).1 ≡ calls ++ h) × All P calls × IsGiven R (m h).0

no_claim : {A : Type 0} (r : Result A) → IsGiven (λ a. Unit) r
no_claim (ok a) = tt
no_claim (err e) = tt

module _ {P : Call → Type 0} where
  pub Yields-lift : {A : Type 0} {R : A → Type 0} (r : Result A) → IsGiven R r → Yields P R (lift r)
  Yields-lift r g = record { given = λ h. ([], refl, tt, g) }

  -- Nothing is said of the result.
  pub Calls-Yields : {A : Type 0} {m : M A} → Calls P m → Yields P (λ a. Unit) m
  Calls-Yields {m = m} s = record {
    given = λ h. let (calls, e, p) = s.added h in (calls, e, p, no_claim (m h).0);
  }

  pub Yields-Calls : {A : Type 0} {R : A → Type 0} {m : M A} → Yields P R m → Calls P m
  Yields-Calls s = record { added = λ h. let (calls, e, p, g) = s.given h in (calls, e, p) }

  then-Yields :
      {A B : Type 0} {R : A → Type 0} {S : B → Type 0} (f : A → M B) (r : Result A)
      → IsGiven R r
      → ((a : A) → R a → Yields P S (f a))
      → Yields P S (λ h. continue_with r h f)
  then-Yields f (ok a) g s = s a g
  then-Yields f (err e) g s = record { given = λ h. ([], refl, tt, tt) }

  pub Yields->>= :
      {A B : Type 0} {R : A → Type 0} {S : B → Type 0} {m : M A} {f : A → M B}
      → Yields P R m
      → ((a : A) → R a → Yields P S (f a))
      → Yields P S (m >>= f)
  unfolding ◌>>=◌
  Yields->>= {m = m} {f = f} s t = record {
    given = λ h.
        let (xs, e, p, g) = s.given h in
        let (ys, d, q, k) = (then-Yields f (m h).0 g t).given (m h).1 in
        (
          ys ++ xs,
          d ∙ ap (λ h'. ys ++ h') e ∙ sym (append_assoc ys xs h),
          All-append P ys xs q p,
          k,
        );
  }
