-- ===== src/Api/Filters/Params.antt =====
-- Parameters that are built are read back, and the one for the sort is always there.
use lilnouns_monorepo.Base.{
  ℕ, ◌≡◌, refl, ◌≢◌, ap, true, false, some, List, [], ◌∷◌, ◌++◌, ◌∙◌, All, Bool-cases, inl, inr,
  arith,
}
use lilnouns_monorepo.Base.Chars.{Chars, codes, split, split_from, is_prefix, push, text_eq}
use lilnouns_monorepo.Api.Filters.{
  sort_id, profile_tab_id, build_filter_param, pair, parse_filter_param, id_is, has_filter_id, find,
  or_default, get_sort_param, get_profile_tab_params,
}

abbrev pub IsFree : Chars → Type 0
IsFree = All (λ c. c ≢ b'=')

prefix_ne : (c : ℕ) (t : Chars) → c ≢ b'=' → is_prefix (b'=' ∷ []) (c ∷ t) ≡ false
unfolding is_prefix
prefix_ne c t h = ground arith

split_from-free : (t : Chars) → IsFree t → split_from (b'=' ∷ []) 0 t ≡ t ∷ []
unfolding split_from push
split_from-free [] h = refl
split_from-free (c ∷ t) h = rw (prefix_ne c t h.0, split_from) (rw (split_from-free t h.1))

split_from-append :
    (s t : Chars)
    → IsFree s
    → split_from (b'=' ∷ []) 0 (s ++ b'=' ∷ t) ≡ s ∷ split_from (b'=' ∷ []) 0 t
unfolding split_from push is_prefix
split_from-append [] t h = refl
split_from-append (c ∷ s) t h =
    rw (prefix_ne c (s ++ b'=' ∷ t) h.0, split_from) (rw (split_from-append s t h.1))

split-build_filter_param :
    (id value : Chars)
    → IsFree id
    → IsFree value
    → split (build_filter_param id value) (b'=' ∷ []) ≡ id ∷ value ∷ []
unfolding build_filter_param split
split-build_filter_param id value hi hv =
    split_from-append id value hi ∙ ap (λ ps. id ∷ ps) (split_from-free value hv)

parse-nonempty :
    (s : Chars) (c : ℕ) (t : Chars) (id value : Chars)
    → split (s ++ c ∷ t) (b'=' ∷ []) ≡ id ∷ value ∷ []
    → parse_filter_param (s ++ c ∷ t) ≡ some (id, some value)
unfolding parse_filter_param pair
parse-nonempty [] c t id value h = ap pair h
parse-nonempty (d ∷ s) c t id value h = ap pair h

-- A parameter that is built from texts without an equals sign is read back.
pub parse_filter_param-build_filter_param :
    (id value : Chars)
    → IsFree id
    → IsFree value
    → parse_filter_param (build_filter_param id value) ≡ some (id, some value)
unfolding build_filter_param
parse_filter_param-build_filter_param id value hi hv =
    parse-nonempty id b'=' value id value (split-build_filter_param id value hi hv)

pub text_eq_refl : (s : Chars) → text_eq s s ≡ true
unfolding text_eq
text_eq_refl [] = refl
text_eq_refl (c ∷ s) = ground (arith, text_eq_refl s)

-- So it has its id.
pub has_filter_id-build_filter_param :
    (id value : Chars)
    → IsFree id
    → IsFree value
    → has_filter_id id (build_filter_param id value) ≡ true
unfolding has_filter_id id_is
has_filter_id-build_filter_param id value hi hv =
    rw (parse_filter_param-build_filter_param id value hi hv, text_eq_refl id)

default_sort : has_filter_id sort_id (build_filter_param sort_id (codes "LATEST")) ≡ true
unfolding has_filter_id parse_filter_param build_filter_param split split_from is_prefix push
default_sort = refl

default_tab :
    has_filter_id profile_tab_id (build_filter_param profile_tab_id (codes "SUBMISSIONS")) ≡ true
unfolding has_filter_id parse_filter_param build_filter_param split split_from is_prefix push
default_tab = refl

-- What `find` finds has the id.
or_default-find :
    (id param : Chars) (fs : List Chars)
    → has_filter_id id param ≡ true
    → has_filter_id id (or_default param (find id fs)) ≡ true
unfolding find or_default
or_default-find id param [] h = h
or_default-find id param (f ∷ fs) h = elim (Bool-cases (has_filter_id id f)) [
  | inl e ↦ rw e e
  | inr e ↦ rw e (or_default-find id param fs h)
]

-- Whichever filters are applied, there is a parameter for the sort, and one for the profile's tab.
sort_and_tab_found :
    (applied : List Chars)
    → (has_filter_id sort_id (get_sort_param applied) ≡ true)
      × (has_filter_id profile_tab_id (get_profile_tab_params applied) ≡ true)
unfolding get_sort_param get_profile_tab_params
sort_and_tab_found applied = (
  or_default-find sort_id _ applied default_sort,
  or_default-find profile_tab_id _ applied default_tab,
)
