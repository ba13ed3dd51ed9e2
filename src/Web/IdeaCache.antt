-- ===== src/Web/IdeaCache.antt =====
-- hooks/useIdeas.ts: the cached ideas and comments, as they are shown before the API has answered. Of an
-- idea and a comment the fields that are read or written; the queries and forms are calls of libraries.
pub mod Votes
use lilnouns_monorepo.Base.{
  ℕ, ◌==◌, not, str_eq, Bool, true, false, ◌||◌, Option, none, some, String, List, [], ◌∷◌, ◌++◌,
  map, keep, if◌then◌else◌,
}
use lilnouns_monorepo.Base.Int.{ℤ, pos, ◌+ℤ◌, ◌*ℤ◌}

pub record CachedVote : Type 0 where
  pub voter_id : String
  pub idea_id : ℕ
  pub direction : ℤ
  pub lilnoun_count : ℤ

-- `votecount` is what the API sends and the pages show; `vote_count` is the key that an update adds.
pub record CachedIdea : Type 0 where
  pub id : ℕ
  pub votecount : ℤ
  pub vote_count : Option ℤ
  pub votes : Option (List CachedVote)

-- The array that `map` makes: what the callback returns for a vote of the same voter is the new vote with
-- its own direction, and for any other the new vote.
map_vote : CachedVote → CachedVote → CachedVote
map_vote vote v =
    if str_eq v.voter_id vote.voter_id then record vote { direction = vote.direction } else vote

abbrev pub seen_vote : CachedVote → List CachedVote → Bool
seen_vote vote [] = false
seen_vote vote (v ∷ vs) = str_eq v.voter_id vote.voter_id || seen_vote vote vs

add_unseen : Bool → CachedVote → List CachedVote → List CachedVote
add_unseen true vote vs = vs
add_unseen false vote vs = vs ++ vote ∷ []

abbrev pub or_no_votes : Option (List CachedVote) → List CachedVote
or_no_votes none = []
or_no_votes (some vs) = vs

update_idea : CachedVote → CachedIdea → CachedIdea
unfolding map_vote add_unseen
update_idea vote idea =
    let votes = or_no_votes idea.votes in
    let seen = seen_vote vote votes in
    let weight : ℤ = if seen then pos 2 else pos 1 in
    if idea.id == vote.idea_id
    then (record idea {
      vote_count = some (idea.votecount +ℤ ((vote.direction *ℤ weight) *ℤ vote.lilnoun_count));
      votes = some (add_unseen seen vote (map (map_vote vote) votes));
    })
    else idea

unfoldable pub update_votes_state : List CachedIdea → CachedVote → List CachedIdea
unfolding update_idea
update_votes_state ideas vote = map (update_idea vote) ideas

pub record CachedReply : Type 0 where
  pub id : ℕ
  pub body : String

pub record CachedComment : Type 0 where
  pub id : ℕ
  pub body : String
  pub replies : List CachedReply

-- The new comment, as a reply.
as_reply : CachedComment → CachedReply
as_reply c = record { id = c.id; body = c.body }

add_reply : CachedComment → ℕ → CachedComment → CachedComment
unfolding as_reply
add_reply new_comment parent_id comment =
    if comment.id == parent_id
    then record comment { replies = comment.replies ++ as_reply new_comment ∷ [] }
    else comment

-- A missing parent is 0.
unfoldable pub build_comment_state : List CachedComment → CachedComment → ℕ → List CachedComment
unfolding add_reply
build_comment_state comments new_comment parent_id =
    if parent_id == 0
    then comments ++ new_comment ∷ []
    else map (add_reply new_comment parent_id) comments

is_stored : CachedComment → Bool
is_stored comment = not (comment.id == 0)

-- `populateCache` of `commentOnIdea`
unfoldable pub populate_comments : List CachedComment → CachedComment → ℕ → List CachedComment
unfolding is_stored
populate_comments current comment parent_id =
    keep is_stored (build_comment_state current comment parent_id)
