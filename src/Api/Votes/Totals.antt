-- ===== src/Api/Votes/Totals.antt =====
-- The totals of votes.
use lilnouns_monorepo.Base.{
  ℕ, ◌≤◌, ◌≡◌, refl, ◌⊎◌, inl, inr, Option, none, some, List, [], ◌∷◌, All, arith,
}
use lilnouns_monorepo.Base.Int.{ℤ, pos, negsuc, ◌+ℤ◌, int_laws}
use lilnouns_monorepo.Api.Types.{Vote, Idea}
use lilnouns_monorepo.Api.Votes.{
  calculate_votes_from, calculate_votes, FloorPercent, clamp_percent, consensus_of,
  calculate_consensus, count_vote, Counts, calc, calculate_all_from, calculate_all_votes, no_votes,
  calculate_net_from, calculate_net_votes,
}

-- A vote is for or against.
abbrev pub IsDirected : Vote → Type 0
IsDirected v = (v.direction ≡ pos 1) ⊎ (v.direction ≡ negsuc 0)

calculate_all_from-count :
    (vs : List Vote) (c : Counts)
    → (calculate_all_from c vs).count ≡ calculate_votes_from c.count vs
unfolding calculate_all_from calculate_votes_from count_vote calc
calculate_all_from-count [] c = refl
calculate_all_from-count (v ∷ vs) c = calculate_all_from-count vs (count_vote c v)

abbrev IsBalanced : Counts → Type 0
IsBalanced c = c.count ≡ c.upvotes +ℤ c.downvotes

add_up : (a u d x : ℤ) → a ≡ u +ℤ d → a +ℤ x ≡ (u +ℤ x) +ℤ d
add_up a u d x h = rw h (omega int_laws)

add_down : (a u d x : ℤ) → a ≡ u +ℤ d → a +ℤ x ≡ u +ℤ (d +ℤ x)
add_down a u d x h = rw h (omega int_laws)

add_both : (a u d b v e : ℤ) → a ≡ u +ℤ d → b ≡ v +ℤ e → a +ℤ b ≡ (u +ℤ v) +ℤ (d +ℤ e)
add_both a u d b v e h k = rw (h, k) (omega int_laws)

count_vote-IsBalanced :
    (c : Counts) (v : Vote) → IsDirected v → IsBalanced c → IsBalanced (count_vote c v)
unfolding count_vote calc
count_vote-IsBalanced c v (inl e) h = rw e (add_up c.count c.upvotes c.downvotes _ h)
count_vote-IsBalanced c v (inr e) h = rw e (add_down c.count c.upvotes c.downvotes _ h)

calculate_all_from-IsBalanced :
    (vs : List Vote) (c : Counts)
    → All IsDirected vs
    → IsBalanced c
    → IsBalanced (calculate_all_from c vs)
unfolding calculate_all_from
calculate_all_from-IsBalanced [] c hs h = h
calculate_all_from-IsBalanced (v ∷ vs) c hs h =
    calculate_all_from-IsBalanced vs (count_vote c v) hs.1 (count_vote-IsBalanced c v hs.0 h)

-- Where all votes are for or against, the total of a user's votes is the count of the ideas' service,
-- and it is the votes for and the votes against together.
pub calculate_all_votes-count :
    (vs : List Vote)
    → All IsDirected vs
    → let counts = calculate_all_votes vs in
      (counts.count ≡ calculate_votes vs) × (counts.count ≡ counts.upvotes +ℤ counts.downvotes)
unfolding calculate_all_votes calculate_votes
calculate_all_votes-count vs h = (
  calculate_all_from-count vs no_votes,
  calculate_all_from-IsBalanced vs no_votes h (omega int_laws),
)

calculate_net_from-IsBalanced :
    (is : List Idea) (c : Counts)
    → All (λ i. All IsDirected i.votes) is
    → IsBalanced c
    → IsBalanced (calculate_net_from c is)
unfolding calculate_net_from
calculate_net_from-IsBalanced [] c hs h = h
calculate_net_from-IsBalanced (i ∷ is) c hs h =
    let counts = calculate_all_votes i.votes in
    calculate_net_from-IsBalanced is
      (record {
        count = c.count +ℤ counts.count;
        upvotes = c.upvotes +ℤ counts.upvotes;
        downvotes = c.downvotes +ℤ counts.downvotes;
      })
      hs.1
      (add_both _ c.upvotes c.downvotes _ counts.upvotes counts.downvotes h
        (calculate_all_votes-count i.votes hs.0).1)

-- So it is for all ideas of a user together.
calculate_net_votes-IsBalanced :
    (is : List Idea) → All (λ i. All IsDirected i.votes) is → IsBalanced (calculate_net_votes is)
unfolding calculate_net_votes
calculate_net_votes-IsBalanced is h = calculate_net_from-IsBalanced is no_votes h (omega int_laws)

clamp_percent-le : (n : ℤ) → clamp_percent n ≤ 100
unfolding clamp_percent
clamp_percent-le (pos n) = omega arith
clamp_percent-le (negsuc n) = omega arith

consensus_of-le :
    (floor_percent : FloorPercent) (supply : Option ℕ) (vote_count : ℤ) (c : ℕ)
    → consensus_of floor_percent supply vote_count ≡ some c
    → c ≤ 100
unfolding consensus_of
consensus_of-le floor_percent none vote_count c h = cc
consensus_of-le floor_percent (some supply) vote_count c h =
    ground (arith, clamp_percent-le (floor_percent vote_count supply))

-- A consensus is a percentage.
calculate_consensus-le :
    (floor_percent : FloorPercent) (idea : Idea) (vote_count : ℤ) (c : ℕ)
    → calculate_consensus floor_percent idea vote_count ≡ some c
    → c ≤ 100
unfolding calculate_consensus
calculate_consensus-le floor_percent idea vote_count c h =
    consensus_of-le floor_percent idea.token_supply_on_create vote_count c h
