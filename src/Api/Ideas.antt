-- ===== src/Api/Ideas.antt =====
-- services/ideas.ts.
pub mod Sorting
pub mod Voting
use lilnouns_monorepo.Base.{
  ℕ, ◌+◌, ltb, leb, ◌==◌, str_eq, Bool, true, false, not, ◌&&◌, ◌||◌, Option, none, some, String,
  List, [], ◌∷◌, keep, map, if◌then◌else◌,
}
use lilnouns_monorepo.Base.Int.{ℤ, pos, negsuc, ltb_ℤ, eqb_ℤ}
use lilnouns_monorepo.Base.Sorting.{sort}
use lilnouns_monorepo.Api.Types.{
  User, Vote, Idea, NewIdea, Comment, ProfileFilter, submissions, comments_of, votes_of,
  any_profile, Where,
}
use lilnouns_monorepo.Api.Prisma.{
  Prisma, Outcome, resolved, rejected, M, ◌>>=◌, ◌>>◌, return, throw_if, reads, require, writes,
}
use lilnouns_monorepo.Api.Tags.{get_is_closed, UiIdea, virtual_tag}
use lilnouns_monorepo.Api.Votes.{calculate_votes, FloorPercent, calculate_consensus}

pub record RatedIdea : Type 0 where
  pub ui : UiIdea
  pub votecount : ℤ

-- What a sort by the function of `sortBy || 'LATEST'` puts first: a negative difference. Without a function
-- the objects are compared by their text, which is that of all objects, so that none comes first. A key
-- that every object has, such as toString, is left out.
unfoldable pub sorts_before : String → RatedIdea → RatedIdea → Bool
sorts_before sort_by a b =
    if str_eq sort_by "" || str_eq sort_by "LATEST"
    then ltb b.ui.idea.created_at a.ui.idea.created_at
    else if str_eq sort_by "VOTES_DESC"
    then ltb_ℤ b.votecount a.votecount
    else if str_eq sort_by "VOTES_ASC"
    then ltb_ℤ a.votecount b.votecount
    else if str_eq sort_by "OLDEST"
    then ltb a.ui.idea.created_at b.ui.idea.created_at
    else false

-- The result is none for an unknown tab, where the call of its function throws.
unfoldable pub profile_tab_filter : String → String → Option ProfileFilter
profile_tab_filter tab wallet =
    if str_eq tab "SUBMISSIONS"
    then some (submissions wallet)
    else if str_eq tab "COMMENTS"
    then some (comments_of wallet)
    else if str_eq tab "DOWN_VOTES"
    then some (votes_of wallet (negsuc 0))
    else if str_eq tab "UP_VOTES"
    then some (votes_of wallet (pos 1))
    else if str_eq tab "" || str_eq tab "DEFAULT"
    then some any_profile
    else none

unfoldable pub has_tag : List String → String → Bool
has_tag [] tag = false
has_tag (t ∷ ts) tag = str_eq t tag || has_tag ts tag

tag_applies : String → Option Bool → Idea → Bool
unfolding has_tag
tag_applies tag none idea = has_tag idea.tags tag
tag_applies tag (some virtual) idea = virtual

some_tag : ℕ → List String → UiIdea → Bool
unfolding tag_applies
some_tag now [] i = false
some_tag now (tag ∷ tags) i = tag_applies tag (virtual_tag now tag i) i.idea || some_tag now tags i

unfoldable pub matches_tags : ℕ → List String → UiIdea → Bool
unfolding some_tag
matches_tags now [] i = true
matches_tags now (tag ∷ tags) i = some_tag now (tag ∷ tags) i

unfoldable pub rate : FloorPercent → ℕ → Idea → RatedIdea
rate floor_percent now idea =
    let votecount = calculate_votes idea.votes in
    record {
      ui = record {
        idea = idea;
        consensus = calculate_consensus floor_percent idea votecount;
        closed = get_is_closed now idea;
      };
      votecount = votecount;
    }

below_eight : ℤ → Bool
below_eight n = ltb_ℤ n (pos 8)

-- `Math.min(Math.max(n, -1), 1)`
unfoldable pub clamp_direction : ℤ → ℤ
clamp_direction n = if ltb_ℤ n (negsuc 0) then negsuc 0 else if ltb_ℤ (pos 1) n then pos 1 else n

-- What `parseInt` makes of the direction, with none for NaN.
valid_direction : Option ℤ → Option ℤ
unfolding clamp_direction
valid_direction none = none
valid_direction (some n) =
    let direction = clamp_direction n in if eqb_ℤ direction (pos 0) then none else some direction

-- `all` leaves the consensus undefined.
count_votes : ℕ → Idea → RatedIdea
count_votes now idea = record {
  ui = record { idea = idea; consensus = none; closed = get_is_closed now idea };
  votecount = calculate_votes idea.votes;
}

module _ {Db : Type 0} (prisma : Prisma Db) where
  unfoldable pub all : ℕ → String → M Db (List RatedIdea)
  unfolding count_votes
  all now sort_by d =
      (resolved (sort (sorts_before sort_by) (map (count_votes now) (prisma.undeleted_ideas d))), d)

  -- The range of the date's filter, with none for an unknown date, where the call throws; the filters of
  -- the query; and a missing text as an empty one.
  unfoldable pub find_where :
      FloorPercent
      → ℕ
      → String
      → List String
      → Option (ℕ × ℕ)
      → String
      → String
      → Bool
      → M Db (List RatedIdea)
  unfolding rate
  find_where floor_percent now sort_by tags date wallet tab hide_deleted = do
    range ← require date "DATE_FILTERS[(date || \"ALL_TIME\")] is undefined"
    profile ←
        require (profile_tab_filter tab wallet)
          "PROFILE_TAB_FILTERS[(tab || \"DEFAULT\")] is not a function"
    ideas ← reads (
        prisma.find_ideas
          (record { hide_deleted = hide_deleted; gte = range.0; lte = range.1; profile = profile }))
    return (
        sort (sorts_before sort_by) (
          keep (λ (i : RatedIdea). matches_tags now tags i.ui)
            (map (rate floor_percent now) ideas)))

  unfoldable pub get : FloorPercent → ℕ → ℕ → M Db RatedIdea
  unfolding rate
  get floor_percent now id = do
    found ← reads (prisma.find_idea id)
    idea ← require found "Idea not found"
    throw_if idea.deleted "Idea has been deleted!"
    return (rate floor_percent now idea)

  -- `supply` is what the chain answers, with none where it cannot be fetched.
  unfoldable pub create_idea :
      String → String → String → List String → Option User → Option ℕ → M Db Idea
  unfolding below_eight
  create_idea title tldr description tags user supply = do
    u ← require user "Failed to save idea: missing user details"
    throw_if (below_eight u.lilnoun_count && has_tag tags "NOUNS")
        "Failed to save idea: user doesn't own enough tokens"
    total ← require supply "Failed to save idea: couldn't fetch token supply"
    throw_if (total == 0) "Failed to save idea: couldn't fetch token supply"
    λ d.
        elim (prisma.create_idea
          (record {
            title = title;
            tldr = tldr;
            description = description;
            creator_id = u.wallet;
            votecount = 0;
            token_supply_on_create = total;
            vote_direction = pos 1;
            tags = tags;
          })
          d) [ none ↦ (rejected "prisma", d) | some (idea, d') ↦ (resolved idea, d') ]

  unfoldable pub is_idea_deleted : ℕ → Db → Bool
  is_idea_deleted id d = elim (prisma.find_idea id d) [ none ↦ false | some idea ↦ idea.deleted ]

  unfoldable pub is_idea_closed : ℕ → ℕ → M Db Bool
  is_idea_closed now id = do
    found ← reads (prisma.find_idea id)
    idea ← require found "Idea not found for comment"
    return (get_is_closed now idea)

  unfoldable pub vote_on_idea : ℕ → ℕ → Option ℤ → Option User → M Db ℤ
  unfolding valid_direction is_idea_closed is_idea_deleted
  vote_on_idea now idea_id parsed user = do
    u ← require user "Failed to save vote: missing user details"
    direction ← require (valid_direction parsed) "Failed to save vote: direction is not valid"
    closed ← is_idea_closed now idea_id
    throw_if closed "Idea has been closed"
    deleted ← reads (is_idea_deleted idea_id)
    throw_if deleted "Idea has been deleted"
    writes (prisma.upsert_vote idea_id u.wallet direction)
    return direction

  unfoldable pub get_votes_by_idea : ℕ → M Db (List Vote)
  get_votes_by_idea id = reads (prisma.find_votes id)

  unfoldable pub get_idea_comments : ℕ → M Db (List Comment)
  get_idea_comments id = reads (prisma.find_comments id)

  unfoldable pub comment_on_idea : ℕ → ℕ → String → Option ℕ → Option User → M Db (Unit {0})
  unfolding is_idea_closed is_idea_deleted
  comment_on_idea now idea_id body parent_id user = do
    u ← require user "Failed to save comment: missing user details"
    closed ← is_idea_closed now idea_id
    throw_if closed "Idea has been closed"
    deleted ← reads (is_idea_deleted idea_id)
    throw_if deleted "Idea has been deleted"
    writes (prisma.create_comment body u.wallet idea_id parent_id)

  unfoldable pub delete_idea : ℕ → M Db (Unit {0})
  delete_idea id = writes (prisma.delete_idea id)

  unfoldable pub delete_comment : ℕ → M Db (Unit {0})
  delete_comment id = writes (prisma.delete_comment id)
