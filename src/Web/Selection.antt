-- ===== src/Web/Selection.antt =====
-- propLot/utils/queryFilterHelpers.ts: the filters that are selected on the pages of ideas.
use lilnouns_monorepo.Base.{
  ◌≡◌, str_eq, Bool, true, false, not, List, [], ◌∷◌, ◌++◌, keep, String, Bool-cases, inl, inr, All,
}

pub data FilterType : Type 0 where
  single_select multi_select : FilterType

pub record FilterOption : Type 0 where
  pub value : String
  pub selected : Bool

unfoldable pub build_selected_filters : List FilterOption → List String
build_selected_filters [] = []
build_selected_filters (o ∷ os) = elim o.selected [
  | true ↦ o.value ∷ build_selected_filters os
  | false ↦ build_selected_filters os
]

without : String → List String → List String
without value selected = keep (λ (s : String). not (str_eq s value)) selected

unfoldable pub update_selected_filters : FilterType → List String → String → Bool → List String
unfolding without
update_selected_filters single_select selected value true = without value selected
update_selected_filters single_select selected value false = value ∷ []
update_selected_filters multi_select selected value true = without value selected
update_selected_filters multi_select selected value false = selected ++ (value ∷ [])

without-All :
    (value : String) (ss : List String) → All (λ s. str_eq s value ≡ false) (without value ss)
unfolding without
without-All value [] = tt
without-All value (s ∷ ss) = elim (Bool-cases (str_eq s value)) [
  | inl e ↦ rw (e, keep) (without-All value ss)
  | inr e ↦ rw (e, keep) (e, without-All value ss)
]

-- An option that was selected is no longer, for both types of filters.
deselected :
    (type : FilterType) (ss : List String) (value : String)
    → All (λ s. str_eq s value ≡ false) (update_selected_filters type ss value true)
unfolding update_selected_filters
deselected single_select ss value = without-All value ss
deselected multi_select ss value = without-All value ss
