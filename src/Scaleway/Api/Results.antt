-- ===== src/Scaleway/Api/Results.antt =====
-- What a method's result tells about its parts.
use scaleway_cloud_controlle.Base.{Result, ok, err, Error, ◌≡◌, refl}
use scaleway_cloud_controlle.Scaleway.Api.{History, M, ◌>>=◌, ◌>>◌, continue_with}

-- A sequence succeeds only if both parts do.
continue-eq-ok :
    {A B : Type 0} (r : Result A) (h : History) (f : A → M B) (b : B)
    → (continue_with r h f).0 ≡ ok b
    → (a : A) × (r ≡ ok a) × ((f a h).0 ≡ ok b)
continue-eq-ok (ok a) h f b e = (a, refl, e)
continue-eq-ok (err x) h f b e = cc

pub >>=-eq-ok :
    {A B : Type 0} (m : M A) (f : A → M B) (h : History) (b : B)
    → ((m >>= f) h).0 ≡ ok b
    → (a : A) × ((m h).0 ≡ ok a) × ((f a (m h).1).0 ≡ ok b)
unfolding ◌>>=◌
>>=-eq-ok m f h b e = continue-eq-ok (m h).0 (m h).1 f b e

pub >>-eq-ok :
    {B : Type 0} (m : M (Unit {0})) (k : M B) (h : History) (b : B)
    → ((m >> k) h).0 ≡ ok b
    → ((m h).0 ≡ ok tt) × ((k (m h).1).0 ≡ ok b)
unfolding ◌>>◌
>>-eq-ok m k h b e = let (a, p, q) = >>=-eq-ok m (λ _. k) h b e in (p, q)

-- Behind a part that succeeds, the next one goes on from its history.
pub >>-eq-next :
    {B : Type 0} (m : M (Unit {0})) (k : M B) (h : History)
    → (m h).0 ≡ ok tt
    → (m >> k) h ≡ k (m h).1
unfolding ◌>>◌ ◌>>=◌
>>-eq-next m k h e = rw e refl

-- A part that makes no call and fails ends the method there.
pub lift-err :
    {A B : Type 0} (r : Result A) (f : A → M B) (e : Error) (h : History)
    → r ≡ err e
    → (((λ k. (r, k)) >>= f) h) ≡ (err e, h)
unfolding ◌>>=◌
lift-err r f e h k = rw k refl
