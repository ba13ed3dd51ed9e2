-- ===== src/Api/Filters.antt =====
-- graphql/utils/queryUtils.ts: the parameters of filters. The ranges of dates come from a library.
pub mod Params
use lilnouns_monorepo.Base.{
  ℕ, ◌==◌, Bool, true, false, ◌&&◌, Option, none, some, String, List, [], ◌∷◌, ◌++◌, keep,
  if◌then◌else◌,
}
use lilnouns_monorepo.Base.Chars.{Chars, codes, split, text_eq}

abbrev pub date_id : Chars
date_id = codes "date"

abbrev pub sort_id : Chars
sort_id = codes "sort"

abbrev pub tag_id : Chars
tag_id = codes "tag"

abbrev pub profile_tab_id : Chars
profile_tab_id = codes "profile_tab"

unfoldable pub build_filter_param : Chars → Chars → Chars
build_filter_param id value = id ++ (b'=' ∷ value)

-- The first two pieces, where they are there.
pair : List Chars → Option (Chars × Option Chars)
pair [] = none
pair (id ∷ []) = some (id, none)
pair (id ∷ value ∷ rest) = some (id, some value)

unfoldable pub parse_filter_param : Chars → Option (Chars × Option Chars)
unfolding pair
parse_filter_param [] = none
parse_filter_param (c ∷ t) = pair (split (c ∷ t) (b'=' ∷ []))

id_is : Chars → Option (Chars × Option Chars) → Bool
unfolding text_eq
id_is id none = false
id_is id (some (i, v)) = text_eq i id

unfoldable pub has_filter_id : Chars → Chars → Bool
unfolding id_is
has_filter_id id param = id_is id (parse_filter_param param)

find : Chars → List Chars → Option Chars
find id [] = none
find id (f ∷ fs) = if has_filter_id id f then some f else find id fs

-- What `||` makes of it: the empty text would be passed over, but has no id.
or_default : Chars → Option Chars → Chars
or_default param none = param
or_default param (some f) = f

unfoldable pub get_sort_param : List Chars → Chars
unfolding find or_default
get_sort_param applied =
    or_default (build_filter_param sort_id (codes "LATEST")) (find sort_id applied)

unfoldable pub get_date_param : List Chars → Option Chars
unfolding find
get_date_param applied = find date_id applied

unfoldable pub get_tag_params : List Chars → List Chars
get_tag_params applied = keep (has_filter_id tag_id) applied

unfoldable pub get_profile_tab_params : List Chars → Chars
unfolding find or_default
get_profile_tab_params applied =
    or_default (build_filter_param profile_tab_id (codes "SUBMISSIONS"))
      (find profile_tab_id applied)
