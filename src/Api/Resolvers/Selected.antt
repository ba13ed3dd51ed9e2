-- ===== src/Api/Resolvers/Selected.antt =====
-- Which options of the filters are selected.
use lilnouns_monorepo.Base.{
  ◌≡◌, ◌↔◌, ◌⊎◌, sym, refl, ap, ◌∙◌, true, ◌||◌, Bool-cases, inl, inr, Option, none, String, List,
  [], ◌∷◌, ◌++◌, map, keep, All, arith,
}
use lilnouns_monorepo.Base.Chars.{Chars, codes, text_eq}
use lilnouns_monorepo.Api.Filters.{tag_id, build_filter_param, has_filter_id, get_tag_params}
use lilnouns_monorepo.Api.Filters.Params.{IsFree, text_eq_refl, has_filter_id-build_filter_param}
use lilnouns_monorepo.Api.Resolvers.{
  ListOption, StoredTag, includes_text, option_of, tag_option, listed_virtual_tags, tag_filter,
  get_prop_lot,
}

text_eq_lem : (s t : Chars) → text_eq s t ≡ true → s ≡ t
unfolding text_eq
text_eq_lem [] [] h = refl
text_eq_lem [] (c ∷ t) h = cc
text_eq_lem (c ∷ s) [] h = cc
text_eq_lem (c ∷ s) (d ∷ t) h = ground (arith, text_eq_lem s t)

-- What has the id is kept, and so it is found among the kept parameters as among all.
includes_text-keep :
    (id x : Chars) (ps : List Chars)
    → has_filter_id id x ≡ true
    → includes_text x (keep (has_filter_id id) ps) ≡ includes_text x ps
unfolding includes_text
includes_text-keep id x [] h = refl
includes_text-keep id x (p ∷ ps) h = elim (Bool-cases (has_filter_id id p)) [
  | inl e ↦ rw (e, keep) (ap (λ b. text_eq p x || b) (includes_text-keep id x ps h))
  | inr e ↦ elim (Bool-cases (text_eq p x)) [
    | inl same ↦
        let known : has_filter_id id p ≡ true = ap (has_filter_id id) (text_eq_lem p x same) ∙ h in
        cc
    | inr other ↦ rw (e, keep) (rw other (includes_text-keep id x ps h))
  ]
]

-- An option is selected where the request applies its value.
abbrev pub IsSelectedBy : List Chars → ListOption → Type 0
IsSelectedBy applied o = o.selected ≡ includes_text o.value applied

tag_option-IsSelectedBy :
    (applied : List Chars) (tag : StoredTag)
    → IsFree tag.type_name
    → IsSelectedBy applied (tag_option (get_tag_params applied) tag)
unfolding tag_option option_of get_tag_params
tag_option-IsSelectedBy applied tag h =
    includes_text-keep tag_id (build_filter_param tag_id tag.type_name) applied
      (has_filter_id-build_filter_param tag_id tag.type_name (omega arith) h)

tag_options-IsSelectedBy :
    (applied : List Chars) (tags : List StoredTag)
    → All (λ tag. IsFree tag.type_name) tags
    → All (IsSelectedBy applied) (map (tag_option (get_tag_params applied)) tags)
tag_options-IsSelectedBy applied [] h = tt
tag_options-IsSelectedBy applied (tag ∷ tags) (h, hs) =
    (tag_option-IsSelectedBy applied tag h, tag_options-IsSelectedBy applied tags hs)

All-append {ℓ} :
    {A : Type ℓ} (P : A → Type 0) (xs ys : List A) → All P xs → All P ys → All P (xs ++ ys)
All-append P [] ys h k = k
All-append P (x ∷ xs) ys (h, hs) k = (h, All-append P xs ys hs k)

-- A text is one of a list.
abbrev pub IsIn : Chars → List Chars → Type 0
IsIn x [] = ⊥
IsIn x (y ∷ ys) = (x ≡ y) ⊎ IsIn x ys

includes_text-IsIn : (x : Chars) (ys : List Chars) → (includes_text x ys ≡ true) ↔ IsIn x ys
unfolding includes_text
includes_text-IsIn x [] = (λ h. cc, λ h. absurd h)
includes_text-IsIn x (y ∷ ys) =
    let ih = includes_text-IsIn x ys in
    elim (Bool-cases (text_eq y x)) [
      | inl same ↦ (λ h. inl (sym (text_eq_lem y x same)), λ h. rw same refl)
      | inr other ↦ (
        λ h. inr (ih.0 (ground arith)),
        λ h. elim h [
          | inl e ↦ absurd (cc (other, ap (text_eq y) e, text_eq_refl y))
          | inr h' ↦ ground (arith, ih.1 h')
        ],
      )
    ]

map-append {ℓ κ} :
    {A : Type ℓ} {B : Type κ} (f : A → B) (xs ys : List A) → map f (xs ++ ys) ≡ map f xs ++ map f ys
map-append f [] ys = refl
map-append f (x ∷ xs) ys = ap (λ zs. f x ∷ zs) (map-append f xs ys)

-- What an option shows: its id, its label, its value and its icon.
abbrev pub shown : ListOption → Chars × Chars × Chars × Option String
shown o = (o.id, o.label, o.value, o.icon)

-- What the option for a tag shows.
abbrev pub shown_tag : StoredTag → Chars × Chars × Chars × Option String
shown_tag t = (codes "tag-" ++ t.type_name, t.label, codes "tag=" ++ t.type_name, none)

-- The virtual tags that are offered.
abbrev pub offered_virtual_tags : List StoredTag
offered_virtual_tags =
    (record { type_name = codes "NEW"; label = codes "New" })
    ∷ (record { type_name = codes "DISCUSSION"; label = codes "Discussion" })
    ∷ (record { type_name = codes "CLOSED"; label = codes "Closed" })
    ∷ []

shown-tag_options :
    (params : List Chars) (tags : List StoredTag)
    → map shown (map (tag_option params) tags) ≡ map shown_tag tags
unfolding tag_option option_of build_filter_param
shown-tag_options params [] = refl
shown-tag_options params (tag ∷ tags) =
    ap (λ os. shown_tag tag ∷ os) (shown-tag_options params tags)

abbrev pub IsApplied : List Chars → ListOption → Type 0
IsApplied applied o = (o.selected ≡ true) ↔ IsIn o.value applied

IsApplied-of_selected :
    (applied : List Chars) (os : List ListOption)
    → All (IsSelectedBy applied) os
    → All (IsApplied applied) os
IsApplied-of_selected applied [] h = tt
IsApplied-of_selected applied (o ∷ os) (h, hs) =
    (rw h (includes_text-IsIn o.value applied), IsApplied-of_selected applied os hs)

-- Of a request's answer, the options for tags are those of the database, whose names have no equals sign,
-- and then the new, discussed and closed ideas, each with its id, label and value; and an option is
-- selected exactly where its value is among those that the request applies.
pub tag_filter-IsApplied :
    (tags : List StoredTag) (applied : List Chars)
    → All (λ tag. IsFree tag.type_name) tags
    → let options = (tag_filter tags (get_prop_lot applied).tag_params).options in
      (map shown options ≡ map shown_tag (tags ++ offered_virtual_tags))
      × All (IsApplied applied) options
unfolding tag_filter get_prop_lot
tag_filter-IsApplied tags applied h =
    let params = get_tag_params applied in
    (
      map-append shown (map (tag_option params) tags) _
          ∙ ap (λ os. os ++ map shown (map (tag_option params) listed_virtual_tags))
              (shown-tag_options params tags)
          ∙ ap (λ os. map shown_tag tags ++ os) (shown-tag_options params listed_virtual_tags)
          ∙ sym (map-append shown_tag tags offered_virtual_tags),
      IsApplied-of_selected applied _ (
          All-append (IsSelectedBy applied) (map (tag_option params) tags) _
            (tag_options-IsSelectedBy applied tags h)
            (tag_options-IsSelectedBy applied listed_virtual_tags (omega arith))),
    )
