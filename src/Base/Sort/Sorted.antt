-- ===== src/Base/Sort/Sorted.antt =====
-- Sorting sorts, and changes nothing the second time.
use Prim.Native.Nat.{ℕ, Ordering, compare as compare_ℕ}
use Prim.Native.Char.{code}
use Prim.Native.String.compare
use Prim.Native.String.{String, then as and_then, compare}
use mathlib.Core.Path.{◌≡◌, refl}
use mathlib.Core.Bool.{true, false}
use mathlib.Core.Logic.{inl, inr}
use mathlib.Core.List.{List, [], ◌∷◌}
use native.Mathlib.Omega.{arith}
use text.Mathlib.Text.{is_le}
use scaleway_cloud_controlle.Base.Tests.{Bool-cases}
use scaleway_cloud_controlle.Base.Sort.{insert_sorted, sort}

-- What `p` is to be if `o` compares the other way round.
abbrev IsConverse : Ordering → Ordering → Type 0
IsConverse o p = is_le o ≡ false → is_le p ≡ true

then-IsConverse :
    (m n : ℕ) (o p : Ordering)
    → IsConverse o p
    → IsConverse (and_then (compare_ℕ m n) o) (and_then (compare_ℕ n m) p)
then-IsConverse m n o p h k = ground arith

-- The order of texts is total.
compare_total : (s t : String) → IsConverse (compare s t) (compare t s)
compare_total String.[] String.[] h = refl
compare_total String.[] (String.◌∷◌ d t) h =
    let k : true ≡ false = rw (compare.nil-cons d t) at h in cc
compare_total (String.◌∷◌ c s) String.[] h = rw (compare.nil-cons c s) refl
compare_total (String.◌∷◌ c s) (String.◌∷◌ d t) h = rw (compare.cons-cons d c t s) (
    then-IsConverse (code c) (code d) (compare s t) (compare t s) (compare_total s t)
      (rw (compare.cons-cons c d s t) at h))

-- A list whose neighbours are in order.
abbrev pub IsSorted : List String → Type 0
IsSorted [] = Unit {0}
IsSorted (x ∷ []) = Unit {0}
IsSorted (x ∷ y ∷ ys) = (is_le (compare x y) ≡ true) × IsSorted (y ∷ ys)

-- The order of a text in front of a list.
abbrev IsBelow : String → List String → Type 0
IsBelow x [] = Unit {0}
IsBelow x (y ∷ ys) = is_le (compare x y) ≡ true

cons-IsSorted : (x : String) (ys : List String) → IsBelow x ys → IsSorted ys → IsSorted (x ∷ ys)
cons-IsSorted x [] b h = tt
cons-IsSorted x (y ∷ ys) b h = (b, h)

tail-IsSorted : (x : String) (ys : List String) → IsSorted (x ∷ ys) → IsBelow x ys × IsSorted ys
tail-IsSorted x [] h = (tt, tt)
tail-IsSorted x (y ∷ ys) h = h

insert_sorted-IsBelow :
    (x z : String) (ys : List String)
    → is_le (compare z x) ≡ true
    → IsBelow z ys
    → IsBelow z (insert_sorted x ys)
unfolding insert_sorted
insert_sorted-IsBelow x z [] le b = le
insert_sorted-IsBelow x z (y ∷ ys) le b = elim (Bool-cases (is_le (compare x y))) [
  | inl first ↦ rw first le
  | inr later ↦ rw later b
]

insert_sorted-IsSorted :
    (x : String) (ys : List String) → IsSorted ys → IsSorted (insert_sorted x ys)
unfolding insert_sorted
insert_sorted-IsSorted x [] h = tt
insert_sorted-IsSorted x (y ∷ ys) h = elim (Bool-cases (is_le (compare x y))) [
  | inl first ↦ rw first (first, h)
  | inr later ↦
      let (b, hs) = tail-IsSorted y ys h in
      rw later (
        cons-IsSorted y (insert_sorted x ys)
          (insert_sorted-IsBelow x y ys (compare_total x y later) b)
          (insert_sorted-IsSorted x ys hs))
]

pub sort-IsSorted : (xs : List String) → IsSorted (sort xs)
unfolding sort
sort-IsSorted [] = tt
sort-IsSorted (x ∷ xs) = insert_sorted-IsSorted x (sort xs) (sort-IsSorted xs)

insert_sorted-first : (x : String) (ys : List String) → IsBelow x ys → insert_sorted x ys ≡ x ∷ ys
unfolding insert_sorted
insert_sorted-first x [] b = refl
insert_sorted-first x (y ∷ ys) b = rw b refl

sort_sorted : (xs : List String) → IsSorted xs → sort xs ≡ xs
unfolding sort
sort_sorted [] h = refl
sort_sorted (x ∷ xs) h =
    let (b, hs) = tail-IsSorted x xs h in rw (sort_sorted xs hs) (insert_sorted-first x xs b)

-- A second sorting changes nothing.
pub sort-sort : (xs : List String) → sort (sort xs) ≡ sort xs
sort-sort xs = sort_sorted (sort xs) (sort-IsSorted xs)
