-- ===== src/Web/IdeaCache/Votes.antt =====
-- What the cache holds of an idea after a vote, and of the comments after a comment.
use lilnouns_monorepo.Base.{
  ℕ, ◌==◌, ◌≡◌, refl, ap, ◌∙◌, Bool-cases, inl, inr, some, List, [], ◌∷◌, ◌++◌, map, length,
  replicate, zero, suc, if◌then◌else◌, arith,
}
use lilnouns_monorepo.Base.Int.{ℤ, pos, ◌+ℤ◌, ◌*ℤ◌}
use lilnouns_monorepo.Web.IdeaCache.{
  CachedVote, CachedIdea, map_vote, seen_vote, add_unseen, or_no_votes, update_idea,
  update_votes_state,
}

map_vote_lem : (vote v : CachedVote) → map_vote vote v ≡ vote
unfolding map_vote
map_vote_lem vote v = ground arith

map-map_vote :
    (vote : CachedVote) (vs : List CachedVote) → map (map_vote vote) vs ≡ replicate (length vs) vote
map-map_vote vote [] = refl
map-map_vote vote (v ∷ vs) = cc (map_vote_lem vote v, map-map_vote vote vs)

replicate-snoc :
    (n : ℕ) (vote : CachedVote) → replicate n vote ++ vote ∷ [] ≡ replicate (suc n) vote
replicate-snoc zero vote = refl
replicate-snoc (suc n) vote = ap (◌∷◌ vote) (replicate-snoc n vote)

-- How many votes the updated idea has.
abbrev pub new_length : CachedVote → List CachedVote → ℕ
new_length vote vs = if seen_vote vote vs then length vs else suc (length vs)

add_unseen_lem :
    (vote : CachedVote) (vs : List CachedVote)
    → add_unseen (seen_vote vote vs) vote (map (map_vote vote) vs)
      ≡ replicate (new_length vote vs) vote
unfolding add_unseen
add_unseen_lem vote vs = elim (Bool-cases (seen_vote vote vs)) [
  | inl e ↦ rw e (map-map_vote vote vs)
  | inr e ↦ rw e (
      ap (λ (us : List CachedVote). us ++ vote ∷ []) (map-map_vote vote vs)
      ∙ replicate-snoc (length vs) vote)
]

-- What is left of an idea: its votes are all the new one.
abbrev pub with_vote : CachedVote → CachedIdea → CachedIdea
with_vote vote idea =
    let votes = or_no_votes idea.votes in
    let weight : ℤ = if seen_vote vote votes then pos 2 else pos 1 in
    if idea.id == vote.idea_id
    then (record idea {
      vote_count = some (idea.votecount +ℤ ((vote.direction *ℤ weight) *ℤ vote.lilnoun_count));
      votes = some (replicate (new_length vote votes) vote);
    })
    else idea

update_idea_lem :
    (vote : CachedVote) (idea : CachedIdea) → update_idea vote idea ≡ with_vote vote idea
unfolding update_idea
update_idea_lem vote idea = rw (add_unseen_lem vote (or_no_votes idea.votes))

-- After a vote, the cache has of the idea as many copies of the new vote as it had votes, and one more if
-- none was of the voter: the votes of others are lost. The new count, which weighs the vote twice if the
-- voter had one, stands under a key of its own, and the count that the API sent, and all other ideas, are
-- as before.
pub update_votes_state_lem :
    (ideas : List CachedIdea) (vote : CachedVote)
    → update_votes_state ideas vote ≡ map (with_vote vote) ideas
unfolding update_votes_state
update_votes_state_lem [] vote = refl
update_votes_state_lem (idea ∷ ideas) vote =
    cc (update_idea_lem vote idea, update_votes_state_lem ideas vote)
