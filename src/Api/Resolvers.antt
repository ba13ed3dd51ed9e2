-- ===== src/Api/Resolvers.antt =====
-- graphql/resolvers/PropLotListResolvers.ts and PropLotProfileListResolvers.ts: the filters that a list of
-- ideas or a profile offers, and what a profile lists. The texts of numbers are a parameter.
pub mod Selected
use lilnouns_monorepo.Base.{
  ℕ, ◌==◌, length, not, str_eq, Bool, true, false, ◌&&◌, ◌||◌, Option, none, some, String, List, [],
  ◌∷◌, ◌++◌, map, keep, get_elem?, if◌then◌else◌,
}
use lilnouns_monorepo.Base.Int.{ℤ, pos, negsuc, eqb_ℤ}
use lilnouns_monorepo.Base.Chars.{Chars, codes, text_eq, split}
use lilnouns_monorepo.Api.Filters.{
  date_id, sort_id, tag_id, profile_tab_id, build_filter_param, parse_filter_param, get_sort_param,
  get_date_param, get_tag_params, get_profile_tab_params,
}

pub record ListOption : Type 0 where
  pub id : Chars
  pub selected : Bool
  pub label : Chars
  pub value : Chars
  pub icon : Option String

pub data SelectType : Type 0 where
  single_select multi_select : SelectType

pub record PropLotFilter : Type 0 where
  pub id : Chars
  pub kind : SelectType
  pub label : Chars
  pub options : List ListOption

unfoldable pub includes_text : Chars → List Chars → Bool
includes_text x [] = false
includes_text x (y ∷ ys) = text_eq y x || includes_text x ys

-- `param === value`, of a parameter that may be missing
is_param : Option Chars → Chars → Bool
unfolding text_eq
is_param none value = false
is_param (some p) value = text_eq p value

-- A missing or empty parameter
is_missing : Option Chars → Bool
is_missing none = true
is_missing (some []) = true
is_missing (some (c ∷ p)) = false

option_of : Chars → Chars → Chars → Bool → ListOption
unfolding build_filter_param
option_of filter_id name label selected = record {
  id = filter_id ++ b'-' ∷ name;
  selected = selected;
  label = label;
  value = build_filter_param filter_id name;
  icon = none;
}

sort_option : Option Chars → String → String → Bool → String → ListOption
unfolding option_of is_param build_filter_param
sort_option param name label also arrow =
    record (option_of sort_id (codes name) (codes label)
      (is_param param (build_filter_param sort_id (codes name)) || also)) { icon = some arrow }

-- `opt.id.split('-')[1]`, of an option that has a dash
name_of : ListOption → Chars
unfolding split
name_of o = elim (get_elem? (split o.id (b'-' ∷ [])) 1) [ none ↦ [] | some name ↦ name ]

without_names : Option (List Chars) → List ListOption → List ListOption
unfolding name_of includes_text
without_names none os = os
without_names (some exclude) os =
    keep (λ (o : ListOption). not (includes_text (name_of o) exclude)) os

unfoldable pub resolve_sort_filters : Option Chars → Option (List Chars) → PropLotFilter
unfolding sort_option is_missing without_names
resolve_sort_filters param exclude = record {
  id = sort_id;
  kind = single_select;
  label = codes "Sort";
  options = without_names exclude (
      sort_option param "LATEST" "Created" (is_missing param) "ARROW_UP"
      ∷ sort_option param "OLDEST" "Created" false "ARROW_DOWN"
      ∷ sort_option param "VOTES_DESC" "Votes" false "ARROW_UP"
      ∷ sort_option param "VOTES_ASC" "Votes" false "ARROW_DOWN"
      ∷ []);
}

date_option : Option Chars → String → String → ListOption
unfolding option_of is_param build_filter_param
date_option param name label =
    option_of date_id (codes name) (codes label)
      (is_param param (build_filter_param date_id (codes name)))

unfoldable pub date_filter : Option Chars → PropLotFilter
unfolding date_option
date_filter param = record {
  id = date_id;
  kind = single_select;
  label = codes "Date";
  options =
      date_option param "TODAY" "Today"
      ∷ date_option param "THIS_WEEK" "This week"
      ∷ date_option param "THIS_MONTH" "This month"
      ∷ date_option param "ALL_TIME" "All time"
      ∷ [];
}

pub record StoredTag : Type 0 where
  pub type_name : Chars
  pub label : Chars

tag_option : List Chars → StoredTag → ListOption
unfolding option_of includes_text build_filter_param
tag_option params tag =
    option_of tag_id tag.type_name tag.label
      (includes_text (build_filter_param tag_id tag.type_name) params)

-- The virtual tags but for the consensus.
abbrev pub listed_virtual_tags : List StoredTag
listed_virtual_tags =
    (record { type_name = codes "NEW"; label = codes "New" })
    ∷ (record { type_name = codes "DISCUSSION"; label = codes "Discussion" })
    ∷ (record { type_name = codes "CLOSED"; label = codes "Closed" })
    ∷ []

-- The tags of the database, and then the virtual ones.
unfoldable pub tag_filter : List StoredTag → List Chars → PropLotFilter
unfolding tag_option
tag_filter tags params = record {
  id = tag_id;
  kind = multi_select;
  label = codes "Tags";
  options = map (tag_option params) tags ++ map (tag_option params) listed_virtual_tags;
}

-- The part of the answer that the filters and the list are made from.
pub record Root : Type 0 where
  pub sort_param : Chars
  pub date_param : Option Chars
  pub tag_params : List Chars

unfoldable pub get_prop_lot : List Chars → Root
get_prop_lot applied = record {
  sort_param = get_sort_param applied;
  date_param = get_date_param applied;
  tag_params = get_tag_params applied;
}

pub record VoteWithIdea : Type 0 where
  pub direction : ℤ
  pub idea_creator : Option String

pub record ProfileUser : Type 0 where
  pub ideas : ℕ
  pub comments : ℕ
  pub votes : List VoteWithIdea

-- `vote?.idea?.creatorId !== wallet`
is_of_other : String → Option String → Bool
is_of_other wallet none = true
is_of_other wallet (some creator) = not (str_eq creator wallet)

unfoldable pub total_votes : ℤ → ProfileUser → String → ℕ
unfolding is_of_other
total_votes direction user wallet = length (
    keep (λ (v : VoteWithIdea). eqb_ℤ v.direction direction && is_of_other wallet v.idea_creator)
      user.votes)

pub record ProfileTab : Type 0 where
  pub name : String
  pub display_name : Chars

module _ (number_text : ℕ → Chars) where
  tab_text : String → ℕ → Chars
  tab_text label n = codes label ++ b' ' ∷ number_text n

  -- PROFILE_TAB_FILTERS, of a user that is there; each tab is active.
  profile_tab_filters : ProfileUser → String → List ProfileTab
  unfolding total_votes tab_text
  profile_tab_filters user wallet =
      (record { name = "SUBMISSIONS"; display_name = tab_text "Submitted" user.ideas })
      ∷ (record {
        name = "UP_VOTES";
        display_name = tab_text "Upvoted" (total_votes (pos 1) user wallet);
      })
      ∷ (record {
        name = "DOWN_VOTES";
        display_name = tab_text "Downvoted" (total_votes (negsuc 0) user wallet);
      })
      ∷ (record { name = "COMMENTS"; display_name = tab_text "Comments" user.comments })
      ∷ []

  tab_option : Chars → ProfileTab → ListOption
  unfolding option_of build_filter_param text_eq
  tab_option param tab =
      option_of profile_tab_id (codes tab.name) tab.display_name
        (text_eq param (build_filter_param profile_tab_id (codes tab.name)))

  unfoldable pub tab_filter : Chars → ProfileUser → String → PropLotFilter
  unfolding tab_option profile_tab_filters
  tab_filter param user wallet = record {
    id = profile_tab_id;
    kind = single_select;
    label = codes "Tabs";
    options = map (tab_option param) (profile_tab_filters user wallet);
  }

-- `parseFilterParam(param)?.value`
value_of : Option (Chars × Option Chars) → Option Chars
value_of none = none
value_of (some (id, value)) = value

-- The query of a profile's list, with the value of its sort.
pub data ListQuery : Type 0 where
  ideas_query : Option Chars → Chars → Bool → ListQuery
  comments_query : Option Chars → ListQuery
  no_query : ListQuery

query_of : Option Chars → Option Chars → ListQuery
unfolding text_eq
query_of sort none = no_query
query_of sort (some tab) =
    if text_eq tab (codes "SUBMISSIONS")
    then ideas_query sort tab false
    else if text_eq tab (codes "COMMENTS")
    then comments_query sort
    else if text_eq tab (codes "UP_VOTES") || text_eq tab (codes "DOWN_VOTES")
    then ideas_query sort tab true
    else no_query

unfoldable pub list_query : Chars → Chars → ListQuery
unfolding value_of query_of
list_query sort_param tab_param =
    query_of (value_of (parse_filter_param sort_param)) (value_of (parse_filter_param tab_param))

exclusions : Option Chars → Option (List Chars)
unfolding text_eq
exclusions none = none
exclusions (some tab) =
    if text_eq tab (codes "COMMENTS")
    then some (codes "VOTES_DESC" ∷ codes "VOTES_ASC" ∷ [])
    else none

unfoldable pub profile_sort_filter : Chars → Chars → PropLotFilter
unfolding value_of exclusions resolve_sort_filters
profile_sort_filter sort_param tab_param =
    resolve_sort_filters (some sort_param) (exclusions (value_of (parse_filter_param tab_param)))
