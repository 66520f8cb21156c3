-- ===== src/LoadBalancers/Effects.antt =====
-- scaleway/loadbalancers.go: what the calls of a method change about the frontends and the backends
-- of a load balancer, where it succeeds.
pub mod Laws
pub mod Update
pub mod Settled
use scaleway_cloud_controlle.Base.{
  String, List, [], ◌∷◌, ◌++◌, Result, ok, err, Error, ◌≡◌, refl, ap, ◌∙◌, sym, none, All,
}
use mathlib.Core.List.{append_assoc, append-nil}
use mathlib.Core.Path.{subst}
use scaleway_cloud_controlle.Scaleway.LoadBalancer.{Frontend, Backend}
use scaleway_cloud_controlle.Scaleway.Api.{
  Call, History, M, lift, send, map_error, map_err, continue_with, ◌>>=◌, ◌>>◌,
}
use scaleway_cloud_controlle.Scaleway.Api.Trace.{Calls}
use scaleway_cloud_controlle.Scaleway.Api.Results.{>>=-eq-ok}

pub data Effect : Type 0 where
  removes_frontend removes_backend : String → Effect
  updates_frontend creates_frontend : Frontend → Effect
  updates_backend creates_backend : Backend → Effect

-- The servers of a backend and its health check have calls of their own, too, which are no effects
-- here.
abbrev pub effect : Call → List Effect
effect (Call.delete_frontend _ id) = removes_frontend id ∷ []
effect (Call.update_frontend _ f _) = updates_frontend f ∷ []
effect (Call.create_frontend _ _ f _) = creates_frontend f ∷ []
effect (Call.delete_backend _ id) = removes_backend id ∷ []
effect (Call.update_backend _ b) = updates_backend b ∷ []
effect (Call.create_backend _ _ b) = creates_backend (record b { pool = none }) ∷ []
effect _ = []

-- The effects in their order; the latest call is the first of the list.
abbrev pub effects : List Call → List Effect
effects [] = []
effects (call ∷ calls) = effects calls ++ effect call

effects-append :
    (later earlier : List Call) → effects (later ++ earlier) ≡ effects earlier ++ effects later
effects-append [] earlier = sym (append-nil (effects earlier))
effects-append (call ∷ later) earlier =
    rw (effects-append later earlier) (append_assoc (effects earlier) (effects later) (effect call))

All-effects : (calls : List Call) → All (λ call. effect call ≡ []) calls → effects calls ≡ []
All-effects [] _ = refl
All-effects (call ∷ calls) (e, q) = rw (All-effects calls q, e) refl

-- Where a method succeeds, its result and its effects satisfy P.
pub record Does {A : Type 0} (m : M A) (P : A → List Effect → Type 0) : Type 0 where
  pub done :
      (h : History) (a : A)
      → (m h).0 ≡ ok a
      → (calls : List Call) × ((m h).1 ≡ calls ++ h) × P a (effects calls)

-- The effects are these, whatever the result.
abbrev pub Makes : List Effect → {A : Type 0} → M A → Type 0
Makes es m = Does m (λ a made. made ≡ es)

pub Does-send :
    {A : Type 0} (call : Call) (answer : History → Result A)
    → Makes (effect call) (send call answer)
unfolding send
Does-send call answer = record { done = λ h a e. (call ∷ [], refl, refl) }

pub Does-lift : {A : Type 0} (r : Result A) → Does (lift r) (λ a made. (r ≡ ok a) × (made ≡ []))
Does-lift r = record { done = λ h a e. ([], refl, (e, refl)) }

pub Makes-lift : {A : Type 0} {r : Result A} → Makes [] (lift r)
Makes-lift = record { done = λ h a e. ([], refl, refl) }

map_err-eq-ok :
    {A : Type 0} (f : Error → Error) (r : Result A) (a : A) → map_err f r ≡ ok a → r ≡ ok a
map_err-eq-ok f (ok b) a e = e
map_err-eq-ok f (err x) a e = cc

pub Does-map_error :
    {A : Type 0} {m : M A} {P : A → List Effect → Type 0} (f : Error → Error)
    → Does m P
    → Does (map_error f m) P
unfolding map_error
Does-map_error {m = m} f s = record { done = λ h a e. s.done h a (map_err-eq-ok f (m h).0 a e) }

pub Does->>= :
    {A B : Type 0} {m : M A} {f : A → M B} {P : A → List Effect → Type 0}
    {R : B → List Effect → Type 0}
    → Does m P
    → ((a : A) (es : List Effect) → P a es → Does (f a) (λ b fs. R b (es ++ fs)))
    → Does (m >>= f) R
unfolding ◌>>=◌
Does->>= {A} {m = m} {f = f} {R = R} s t = record {
  done = λ h b e.
      let (a, e1, e2) = >>=-eq-ok m f h b e in
      let (xs, d, p) = s.done h a e1 in
      let (ys, c, r) = (t a (effects xs) p).done (m h).1 b e2 in
      (
        ys ++ xs,
        ap (λ (x : Result A). (continue_with x (m h).1 f).1) e1
            ∙ c
            ∙ ap (λ h'. ys ++ h') d
            ∙ sym (append_assoc ys xs h),
        subst (R b) (sym (effects-append ys xs)) r,
      );
}

pub Does-mono :
    {A : Type 0} {m : M A} {P R : A → List Effect → Type 0}
    → ((a : A) (made : List Effect) → P a made → R a made)
    → Does m P
    → Does m R
Does-mono f s = record {
  done = λ h a e. let (calls, d, p) = s.done h a e in (calls, d, f a (effects calls) p);
}

pub Makes->>= :
    {A B : Type 0} {m : M A} {f : A → M B} {es fs : List Effect}
    → Makes es m
    → ((a : A) → Makes fs (f a))
    → Makes (es ++ fs) (m >>= f)
Makes->>= {fs = fs} s t = Does->>= s (λ a made e. record {
  done = λ h b r. let (calls, d, x) = (t a).done h b r in (calls, d, rw (e, x) refl);
})

pub Makes->> :
    {B : Type 0} {m : M (Unit {0})} {k : M B} {es fs : List Effect}
    → Makes es m
    → Makes fs k
    → Makes (es ++ fs) (m >> k)
unfolding ◌>>◌
Makes->> s t = Makes->>= s (λ _. t)

-- Behind a part without effects.
pub Does->> :
    {B : Type 0} {m : M (Unit {0})} {k : M B} {P : B → List Effect → Type 0}
    → Makes [] m
    → Does k P
    → Does (m >> k) P
unfolding ◌>>◌
Does->> {k = k} {P = P} s t =
    Does->>= s (λ _ es e. Does-mono (λ b fs p. subst (λ x. P b (x ++ fs)) (sym e) p) t)

-- A method whose calls have no effects.
pub Calls-Makes : {A : Type 0} {m : M A} → Calls (λ call. effect call ≡ []) m → Makes [] m
Calls-Makes s = record {
  done = λ h a e. let (calls, d, q) = s.added h in (calls, d, All-effects calls q);
}
