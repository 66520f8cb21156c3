-- ===== src/Scaleway/Api/Trace.antt =====
-- The calls that a method makes: a predicate of each of them, by the shape of the method.
use scaleway_cloud_controlle.Base.{
  Bool, true, false, List, [], ◌∷◌, ◌++◌, Result, ok, err, Error, ◌≡◌, refl, ap, ◌∙◌, sym, All,
  All-append, All-mono, if◌then◌else◌, Option, none, some,
}
use mathlib.Core.List.{append_assoc}
use scaleway_cloud_controlle.Scaleway.Api.{
  Call, History, M, lift, ◌>>=◌, ◌>>◌, send, map_error, when, continue_with, expect,
}

-- Whatever was called before and whatever is answered, the calls that are added satisfy P.
pub record Calls (P : Call → Type 0) {A : Type 0} (m : M A) : Type 0 where
  pub added : (h : History) → (calls : List Call) × ((m h).1 ≡ calls ++ h) × All P calls

pub Calls-mono :
    {P Q : Call → Type 0} {A : Type 0} {m : M A} → ((c : Call) → P c → Q c) → Calls P m → Calls Q m
Calls-mono f s = record {
  added = λ h. let (calls, e, p) = s.added h in (calls, e, All-mono f calls p);
}

module _ {P : Call → Type 0} where
  pub Calls-none : {A : Type 0} {r : Result A} → Calls P (λ h. (r, h))
  Calls-none = record { added = λ h. ([], refl, tt) }

  pub Calls-send :
      {A : Type 0} (c : Call) (answer : History → Result A) → P c → Calls P (send c answer)
  unfolding send
  Calls-send c answer p = record { added = λ h. (c ∷ [], refl, (p, tt)) }

  pub Calls-map_error :
      {A : Type 0} (f : Error → Error) {m : M A} → Calls P m → Calls P (map_error f m)
  unfolding map_error
  Calls-map_error f s = record { added = λ h. s.added h }

  -- One method after the other, by the result of the first.
  pub Calls-then :
      {A B : Type 0} {m : M A} (k : Result A → M B)
      → Calls P m
      → ((r : Result A) → Calls P (k r))
      → Calls P (λ h. k (m h).0 (m h).1)
  Calls-then {m = m} k s t = record {
    added = λ h.
        let (xs, e, p) = s.added h in
        let (ys, d, q) = (t (m h).0).added (m h).1 in
        (ys ++ xs, d ∙ ap (λ h'. ys ++ h') e ∙ sym (append_assoc ys xs h), All-append P ys xs q p);
  }

  continue_with-Calls :
      {A B : Type 0} (f : A → M B) (r : Result A)
      → ((a : A) → Calls P (f a))
      → Calls P (λ h. continue_with r h f)
  continue_with-Calls f (ok a) s = s a
  continue_with-Calls f (err e) s = Calls-none

  pub Calls->>= :
      {A B : Type 0} {m : M A} {f : A → M B}
      → Calls P m
      → ((a : A) → Calls P (f a))
      → Calls P (m >>= f)
  unfolding ◌>>=◌
  Calls->>= {f = f} s t = Calls-then (λ r h. continue_with r h f) s (λ r. continue_with-Calls f r t)

  pub Calls->> :
      {B : Type 0} {m : M (Unit {0})} {k : M B} → Calls P m → Calls P k → Calls P (m >> k)
  unfolding ◌>>◌
  Calls->> s t = Calls->>= s (λ _. t)

  pub Calls-when : {b : Bool} {m : M (Unit {0})} → (b ≡ true → Calls P m) → Calls P (when b m)
  unfolding when
  Calls-when {b = true} s = s refl
  Calls-when {b = false} s = Calls-none

  pub Calls-if :
      {A : Type 0} {b : Bool} {m n : M A}
      → (b ≡ true → Calls P m)
      → (b ≡ false → Calls P n)
      → Calls P (if b then m else n)
  Calls-if {b = true} s t = s refl
  Calls-if {b = false} s t = t refl

  -- A result that is known leads on in one way.
  pub Calls-lift_ok :
      {A B : Type 0} (r : Result A) (f : A → M B) (a : A)
      → r ≡ ok a
      → Calls P (f a)
      → Calls P (lift r >>= f)
  unfolding ◌>>=◌
  Calls-lift_ok r f a h s = rw h s

  -- A part without calls, whose result is known in what follows.
  pub Calls-lift :
      {A B : Type 0} (r : Result A) (f : A → M B)
      → ((a : A) → r ≡ ok a → Calls P (f a))
      → Calls P (lift r >>= f)
  unfolding ◌>>=◌
  Calls-lift (ok a) f s = s a refl
  Calls-lift (err e) f s = Calls-none

  pub Calls-lift_err : {B : Type 0} (e : Error) (k : M B) → Calls P (lift (err e) >> k)
  unfolding ◌>>=◌ ◌>>◌
  Calls-lift_err e k = Calls-none

  pub Calls-expect : {A : Type 0} (o : Option A) (e : Error) → Calls P (expect o e)
  Calls-expect none e = Calls-none
  Calls-expect (some a) e = Calls-none

pub ruleset calls = (
  Calls-none, Calls-send, Calls-map_error, Calls->>=, Calls->>, Calls-when, Calls-if, Calls-expect,
)
