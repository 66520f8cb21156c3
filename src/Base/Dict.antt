-- ===== src/Base/Dict.antt =====
-- Go maps as association lists: the first entry of a key counts.
use Prim.Native.String.{String}
use mathlib.Core.Path.{◌≡◌, refl, subst}
use mathlib.Core.Bool.{Bool, true}
use mathlib.Core.Option.{Option, none, some}
use mathlib.Core.List.{List, [], ◌∷◌}
use native.Mathlib.Omega.{arith}
use text.Mathlib.Text.{◌==◌}
use text.Mathlib.TextEquality.{eq_iff}
use scaleway_cloud_controlle.Base.Int.{ℤ, int_eq, int_eq_iff}
use mathlib.Core.Logic.{◌↔◌, inl, inr}
use scaleway_cloud_controlle.Base.Lists.{All, All-mono}
use scaleway_cloud_controlle.Base.Tests.{if◌then◌else◌, Bool-cases}

-- The key types of the source's maps: texts, and int32 ports.
pub record Key (K : Type 0) : Type 0 where
  pub beq : K → K → Bool
  pub beq_iff : (a b : K) → (beq a b ≡ true) ↔ (a ≡ b)

instance abbrev pub string_key : Key String
string_key = record { beq = ◌==◌; beq_iff = eq_iff }

instance abbrev pub int_key : Key ℤ
int_key = record { beq = int_eq; beq_iff = int_eq_iff }

abbrev pub Dict : Type 0 → Type 0 → Type 0
Dict K V = List (K × V)

-- The values of the entries: a range over a map takes them in this order.
abbrev pub values : {K V : Type 0} → Dict K V → List V
values [] = []
values ((k, v) ∷ m) = v ∷ values m

module _ {K V : Type 0} ⦃e : Key K⦄ where
  -- `v, ok := m[k]`
  unfoldable pub lookup : K → Dict K V → Option V
  lookup k [] = none
  lookup k ((j, v) ∷ m) = if e.beq j k then some v else lookup k m

  -- `m[k] = v`
  unfoldable pub insert : K → V → Dict K V → Dict K V
  insert k v [] = (k, v) ∷ []
  insert k v ((j, w) ∷ m) = if e.beq j k then (k, v) ∷ m else (j, w) ∷ insert k v m

  -- `delete(m, k)`
  unfoldable pub remove : K → Dict K V → Dict K V
  remove k [] = []
  remove k ((j, v) ∷ m) = let rest = remove k m in if e.beq j k then rest else (j, v) ∷ rest

  pub lookup-insert :
      (k j : K) (v : V) (m : Dict K V)
      → lookup j (insert k v m) ≡ (if e.beq k j then some v else lookup j m)
  unfolding lookup insert
  lookup-insert k j v [] = ground arith
  lookup-insert k j v ((i, w) ∷ m) =
      ground (arith, e.beq_iff k j, e.beq_iff i k, e.beq_iff i j, lookup-insert k j v m)

  pub lookup-remove :
      (k j : K) (m : Dict K V) → lookup j (remove k m) ≡ (if e.beq k j then none else lookup j m)
  unfolding lookup remove
  lookup-remove k j [] = ground arith
  lookup-remove k j ((i, w) ∷ m) =
      ground (arith, e.beq_iff k j, e.beq_iff i k, e.beq_iff i j, lookup-remove k j m)

  pub lookup-insert_self : (k : K) (v : V) (m : Dict K V) → lookup k (insert k v m) ≡ some v
  lookup-insert_self k v m = ground (arith, lookup-insert k k v m, e.beq_iff k k)

  -- A map that has each value at a key of its own.
  abbrev pub IsKeyed : (V → K) → Dict K V → Type 0
  IsKeyed key = All (λ (entry : K × V). key entry.1 ≡ entry.0)

  pub insert-IsKeyed :
      (key : V → K) (k : K) (v : V) (m : Dict K V)
      → key v ≡ k
      → IsKeyed key m
      → IsKeyed key (insert k v m)
  unfolding insert
  insert-IsKeyed key k v [] own h = (own, tt)
  insert-IsKeyed key k v ((j, w) ∷ m) own (f, h) = elim (Bool-cases (e.beq j k)) [
    | inl same ↦ rw same (own, h)
    | inr other ↦ rw other (f, insert-IsKeyed key k v m own h)
  ]

  pub lookup-key :
      (key : V → K) (m : Dict K V) (k : K) (v : V) → IsKeyed key m → lookup k m ≡ some v → key v ≡ k
  unfolding lookup
  lookup-key key [] k v _ h = cc
  lookup-key key ((j, w) ∷ m) k v (f, hs) h = ground (arith, e.beq_iff j k, lookup-key key m k v hs)

  -- A map in which each key has one entry.
  abbrev pub Distinct : Dict K V → Type 0
  Distinct [] = Unit
  Distinct ((k, v) ∷ m) = (lookup k m ≡ none) × Distinct m

  pub insert-Distinct : (k : K) (v : V) (m : Dict K V) → Distinct m → Distinct (insert k v m)
  unfolding lookup insert
  insert-Distinct k v [] h = (refl, tt)
  insert-Distinct k v ((j, w) ∷ m) (f, h) = elim (Bool-cases (e.beq j k)) [
    | inl same ↦ rw same ((subst (λ i. lookup i m ≡ none) ((e.beq_iff j k).0 same) f), h)
    | inr other ↦ rw other (
      ground (arith, lookup-insert k j v m, e.beq_iff k j, e.beq_iff j k),
      insert-Distinct k v m h,
    )
  ]

  -- What all entries have, and a new one.
  pub insert-All :
      (P : K × V → Type 0) (k : K) (v : V) (m : Dict K V)
      → P (k, v)
      → All P m
      → All P (insert k v m)
  unfolding insert
  insert-All P k v [] p h = (p, tt)
  insert-All P k v ((j, w) ∷ m) p (f, h) = elim (Bool-cases (e.beq j k)) [
    | inl same ↦ rw same (p, h)
    | inr other ↦ rw other (f, insert-All P k v m p h)
  ]

  pub lookup-All :
      (P : K × V → Type 0) (m : Dict K V) (k : K) (v : V) → All P m → lookup k m ≡ some v → P (k, v)
  unfolding lookup
  lookup-All P [] k v _ h = cc
  lookup-All P ((j, w) ∷ m) k v (p, ps) h = elim (Bool-cases (e.beq j k)) [
    | inl same ↦
        let here : w ≡ v = ground (arith, h) in
        subst (λ (entry : K × V). P entry) (ground (arith, e.beq_iff j k, here)) p
    | inr other ↦ lookup-All P m k v ps (ground (arith, h))
  ]

  -- In a map with one entry for each key, the value of each entry is what is found at its key.
  pub entries-lookup :
      (m : Dict K V) → Distinct m → All (λ (entry : K × V). lookup entry.0 m ≡ some entry.1) m
  unfolding lookup
  entries-lookup [] h = tt
  entries-lookup ((j, v) ∷ m) (alone, h) = (
    ground (arith, e.beq_iff j j),
    All-mono (λ entry found. ground (arith, e.beq_iff j entry.0, alone, found)) m
        (entries-lookup m h),
  )
