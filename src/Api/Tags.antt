-- ===== src/Api/Tags.antt =====
-- virtual.ts, the tags of graphql/resolvers/IdeaResolvers.ts, and `getIsClosed` of graphql/utils/queryUtils.ts. A week is seven days of twenty-four
-- hours, as it is where the clock is not changed.
pub mod Exclusive
use lilnouns_monorepo.Base.{
  ℕ, ◌+◌, ◌*◌, ltb, leb, str_eq, Bool, true, false, not, ◌&&◌, ◌||◌, Option, none, some, String,
  List, [], ◌∷◌, ◌++◌, if◌then◌else◌,
}
use lilnouns_monorepo.Api.Types.{Idea}

abbrev pub week : ℕ
week = 7 * (1000 * 3600 * 24)

unfoldable pub get_is_closed : ℕ → Idea → Bool
get_is_closed now idea = ltb (idea.created_at + week) now

-- `consensus` is none where it is undefined, and no comparison with that holds.
pub record UiIdea : Type 0 where
  pub idea : Idea
  pub consensus : Option ℕ
  pub closed : Bool

at_least : ℕ → Option ℕ → Bool
at_least n none = false
at_least n (some c) = leb n c

below : ℕ → Option ℕ → Bool
below n none = false
below n (some c) = ltb c n

unfoldable pub is_new : ℕ → UiIdea → Bool
unfolding at_least
is_new now i =
    if i.closed || ltb 0 i.idea.comments || at_least 1 i.consensus
    then false
    else ltb now (i.idea.created_at + week)

unfoldable pub is_discussion : UiIdea → Bool
unfolding below
is_discussion i = not i.closed && ltb 0 i.idea.comments && below 1 i.consensus

unfoldable pub is_consensus : UiIdea → Bool
unfolding at_least
is_consensus i = not i.closed && at_least 1 i.consensus

unfoldable pub is_closed : UiIdea → Bool
is_closed i = i.closed

-- `VirtualTags[tag]?.filterFn(idea)`, with none for a tag that is not virtual.
unfoldable pub virtual_tag : ℕ → String → UiIdea → Option Bool
unfolding is_new is_discussion is_consensus is_closed
virtual_tag now tag i =
    if str_eq tag "NEW"
    then some (is_new now i)
    else if str_eq tag "DISCUSSION"
    then some (is_discussion i)
    else if str_eq tag "CONSENSUS"
    then some (is_consensus i)
    else if str_eq tag "CLOSED"
    then some (is_closed i)
    else none

virtual_tags_of : ℕ → UiIdea → List String → List String
virtual_tags_of now i [] = []
virtual_tags_of now i (key ∷ keys) = elim (virtual_tag now key i) [
  | none ↦ virtual_tags_of now i keys
  | some false ↦ virtual_tags_of now i keys
  | some true ↦ key ∷ virtual_tags_of now i keys
]

-- `Object.keys(VirtualTags)` with a filter that holds.
unfoldable pub virtual_tags : ℕ → UiIdea → List String
unfolding virtual_tags_of
virtual_tags now i = virtual_tags_of now i ("NEW" ∷ "DISCUSSION" ∷ "CONSENSUS" ∷ "CLOSED" ∷ [])

-- The keys of the tags in the answer, the virtual ones first.
unfoldable pub tags : ℕ → UiIdea → List String
tags now i = virtual_tags now i ++ i.idea.tags
