-- ===== src/Base/Sort.antt =====
-- slices.Sort on texts, as insertion sort, and the comparison of lists up to their order.
pub mod Sorted
use Prim.Native.String.{String, compare}
use mathlib.Core.Path.{◌≡◌, refl, sym, subst}
use mathlib.Core.Bool.{Bool, true, false, ◌&&◌}
use mathlib.Core.Logic.{inl, inr}
use mathlib.Core.List.{List, [], ◌∷◌, Perm}
use mathlib.Core.List.Perm
use native.Mathlib.Omega.{arith}
use text.Mathlib.Text.{is_le, ◌==◌}
use text.Mathlib.TextEquality.{eq_iff}
use scaleway_cloud_controlle.Base.Tests.{if◌then◌else◌, Bool-cases}

unfoldable pub insert_sorted : String → List String → List String
insert_sorted x [] = x ∷ []
insert_sorted x (y ∷ ys) =
    let rest = insert_sorted x ys in if is_le (compare x y) then x ∷ y ∷ ys else y ∷ rest

unfoldable pub sort : List String → List String
sort [] = []
sort (x ∷ xs) = insert_sorted x (sort xs)

unfoldable pub list_eq : List String → List String → Bool
list_eq [] [] = true
list_eq (x ∷ xs) (y ∷ ys) = x == y && list_eq xs ys
list_eq _ _ = false

pub list_eq_refl : (xs : List String) → list_eq xs xs ≡ true
unfolding list_eq
list_eq_refl [] = refl
list_eq_refl (x ∷ xs) = ground (arith, eq_iff x x, list_eq_refl xs)

pub list_eq_sound : (xs ys : List String) → list_eq xs ys ≡ true → xs ≡ ys
unfolding list_eq
list_eq_sound [] [] h = refl
list_eq_sound (x ∷ xs) (y ∷ ys) h = ground (arith, eq_iff x y, list_eq_sound xs ys)
list_eq_sound [] (y ∷ ys) h = cc
list_eq_sound (x ∷ xs) [] h = cc

insert_sorted-perm : (x : String) (ys : List String) → Perm (insert_sorted x ys) (x ∷ ys)
unfolding insert_sorted
insert_sorted-perm x [] = Perm.refl _
insert_sorted-perm x (y ∷ ys) = elim (Bool-cases (is_le (compare x y))) [
  | inl le ↦ rw le (Perm.refl _)
  | inr gt ↦ rw gt (Perm.trans (Perm.cons y (insert_sorted-perm x ys)) (Perm.swap x y ys))
]

pub sort-perm : (xs : List String) → Perm (sort xs) xs
unfolding sort
sort-perm [] = Perm.refl _
sort-perm (x ∷ xs) = Perm.trans (insert_sorted-perm x (sort xs)) (Perm.cons x (sort-perm xs))

-- Lists that agree once sorted are permutations of one another.
pub perm_of_sort : (xs ys : List String) → list_eq (sort xs) (sort ys) ≡ true → Perm xs ys
perm_of_sort xs ys h =
    Perm.trans (Perm.symm (sort-perm xs))
      (subst (λ s. Perm s ys) (sym (list_eq_sound (sort xs) (sort ys) h)) (sort-perm ys))
