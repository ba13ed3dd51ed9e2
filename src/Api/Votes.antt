-- ===== src/Api/Votes.antt =====
-- services/ideas.ts and services/user.ts: the counts of votes, and the consensus.
pub mod Totals
use lilnouns_monorepo.Base.{
  ℕ, Bool, true, false, Option, none, some, List, [], ◌∷◌, if◌then◌else◌, ◌==◌, min,
}
use lilnouns_monorepo.Base.Int.{ℤ, pos, negsuc, ◌+ℤ◌, ◌*ℤ◌, eqb_ℤ, ltb_ℤ}
use lilnouns_monorepo.Api.Types.{Vote, Idea}

unfoldable pub calculate_votes_from : ℤ → List Vote → ℤ
calculate_votes_from count [] = count
calculate_votes_from count (v ∷ vs) =
    calculate_votes_from (count +ℤ (v.direction *ℤ v.voter.lilnoun_count)) vs

unfoldable pub calculate_votes : List Vote → ℤ
unfolding calculate_votes_from
calculate_votes votes = calculate_votes_from (pos 0) votes

-- `Math.floor((voteCount / supply) * 100)` is floating point, and a parameter: its value is an integer
-- for a supply that is not 0.
abbrev pub FloorPercent : Type 0
FloorPercent = ℤ → ℕ → ℤ

-- `Math.min(Math.max(n, 0), 100)`
unfoldable pub clamp_percent : ℤ → ℕ
clamp_percent (negsuc n) = 0
clamp_percent (pos n) = min n 100

consensus_of : FloorPercent → Option ℕ → ℤ → Option ℕ
unfolding clamp_percent
consensus_of floor_percent none vote_count = none
consensus_of floor_percent (some supply) vote_count =
    if supply == 0 then none else some (clamp_percent (floor_percent vote_count supply))

unfoldable pub calculate_consensus : FloorPercent → Idea → ℤ → Option ℕ
unfolding consensus_of
calculate_consensus floor_percent idea vote_count =
    consensus_of floor_percent idea.token_supply_on_create vote_count

pub record Counts : Type 0 where
  pub count : ℤ
  pub upvotes : ℤ
  pub downvotes : ℤ

unfoldable pub calc : ℤ → Vote → ℤ
calc acc v = acc +ℤ (v.direction *ℤ v.voter.lilnoun_count)

unfoldable pub count_vote : Counts → Vote → Counts
unfolding calc
count_vote c v = record {
  count = calc c.count v;
  upvotes = if eqb_ℤ v.direction (pos 1) then calc c.upvotes v else c.upvotes;
  downvotes = if eqb_ℤ v.direction (negsuc 0) then calc c.downvotes v else c.downvotes;
}

unfoldable pub calculate_all_from : Counts → List Vote → Counts
unfolding count_vote
calculate_all_from c [] = c
calculate_all_from c (v ∷ vs) = calculate_all_from (count_vote c v) vs

abbrev pub no_votes : Counts
no_votes = record { count = pos 0; upvotes = pos 0; downvotes = pos 0 }

unfoldable pub calculate_all_votes : List Vote → Counts
unfolding calculate_all_from
calculate_all_votes votes = calculate_all_from no_votes votes

unfoldable pub calculate_net_from : Counts → List Idea → Counts
unfolding calculate_all_votes
calculate_net_from c [] = c
calculate_net_from c (i ∷ is) =
    let votes = calculate_all_votes i.votes in
    calculate_net_from
      (record {
        count = c.count +ℤ votes.count;
        upvotes = c.upvotes +ℤ votes.upvotes;
        downvotes = c.downvotes +ℤ votes.downvotes;
      })
      is

unfoldable pub calculate_net_votes : List Idea → Counts
unfolding calculate_net_from
calculate_net_votes ideas = calculate_net_from no_votes ideas
