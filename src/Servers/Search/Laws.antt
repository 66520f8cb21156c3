-- ===== src/Servers/Search/Laws.antt =====
-- The search by name finds the one server of a name over all zones.
use scaleway_cloud_controlle.Base.{
  String, Option, none, some, List, [], ◌∷◌, ◌++◌, map, Result, ok, err, Error, instance_not_found,
  instance_duplicated, ◌>>=◌, ◌==◌, ◌≡◌, ◌≢◌, refl, ap, ◌∙◌, sym, arith, select, concat, All,
  eq_iff, some_or, bind-congr, select-append, Bool-cases, inl, inr,
}
use scaleway_cloud_controlle.Servers.Search.{
  match_name, zone_servers, search_zones, get_server_by_name,
}

module _ {T : Type 0} (name_of : T → String) where
  abbrev pub named : String → List T → List T
  named name = select (λ x. name_of x == name)

  -- What is found, after one match or none, in the matches that follow.
  abbrev pub settle : Error → Option T → List T → Result (Option T)
  settle dup none [] = ok none
  settle dup none (x ∷ []) = ok (some x)
  settle dup none (x ∷ _ ∷ _) = err dup
  settle dup (some f) [] = ok (some f)
  settle dup (some f) (_ ∷ _) = err dup

  settle-nil : (dup : Error) (found : Option T) → ok found ≡ settle dup found []
  settle-nil dup none = refl
  settle-nil dup (some f) = refl

  settle-cons :
      (dup : Error) (x : T) (ys : List T) → settle dup (some x) ys ≡ settle dup none (x ∷ ys)
  settle-cons dup x [] = refl
  settle-cons dup x (y ∷ ys) = refl

  pub match_name-bind :
      (dup : Error) (name : String) (found : Option T) (xs ys : List T)
      → (match_name name_of dup name found xs >>= λ f. settle dup f ys)
        ≡ settle dup found (named name xs ++ ys)
  unfolding match_name
  match_name-bind dup name none [] ys = refl
  match_name-bind dup name (some f) [] ys = refl
  match_name-bind dup name none (x ∷ xs) ys = ground (
    arith,
    match_name-bind dup name none xs ys,
    match_name-bind dup name (some x) xs ys,
    settle-cons dup x (named name xs ++ ys),
  )
  match_name-bind dup name (some f) (x ∷ xs) ys =
      ground (arith, match_name-bind dup name (some f) xs ys)

  -- The specification: the one element, or the error for none or several.
  abbrev pub only : List T → Result T
  only [] = err instance_not_found
  only (x ∷ []) = ok x
  only (_ ∷ _ ∷ _) = err instance_duplicated

  only-settle :
      (xs : List T)
      → (settle instance_duplicated none xs >>= λ f. some_or f instance_not_found) ≡ only xs
  only-settle [] = refl
  only-settle (x ∷ []) = refl
  only-settle (x ∷ y ∷ xs) = refl

  module _ (list_servers : String → String → Result (List T)) where
    -- What the API answers in each zone; a zone of status 404 has no servers.
    abbrev pub Answers : String → (String → List T) → List String → Type 0
    Answers name answer =
        All (λ (zone : String). zone_servers (list_servers zone name) ≡ ok (answer zone))

    search_zones-settle :
        (name : String) (answer : String → List T) (zones : List String) (found : Option T)
        → Answers name answer zones
        → search_zones name_of list_servers name found zones
          ≡ settle instance_duplicated found (named name (concat (map answer zones)))
    unfolding search_zones
    search_zones-settle name answer [] found h = settle-nil instance_duplicated found
    search_zones-settle name answer (zone ∷ zones) found (h, hs) = rw h (
        bind-congr (match_name name_of instance_duplicated name found (answer zone))
          (λ f. search_zones-settle name answer zones f hs)
        ∙ match_name-bind instance_duplicated name found (answer zone)
            (named name (concat (map answer zones)))
        ∙ ap (settle instance_duplicated found) (
            sym (select-append (λ x. name_of x == name) (answer zone) (concat (map answer zones)))))

    -- A name is found in the zones that answer exactly when one server there has it; none is
    -- InstanceNotFound, and several are InstanceDuplicated.
    pub get_server_by_name-only :
        (name : String) (answer : String → List T) (zones : List String)
        → name ≢ ""
        → Answers name answer zones
        → get_server_by_name name_of list_servers zones name
          ≡ only (named name (concat (map answer zones)))
    unfolding get_server_by_name
    get_server_by_name-only name answer zones h hs = elim (Bool-cases (name == "")) [
      | inl e ↦ absurd (h ((eq_iff name "").0 e))
      | inr e ↦ rw (e, search_zones-settle name answer zones none hs) (only-settle _)
    ]
