-- ===== src/Bots/Proposals.antt =====
-- utils/proposals.ts: new votes, and the risk of expiry. The parsing of numbers is left out: the
-- subgraph's numbers are numbers here.
use lilnouns_monorepo.Base.{
  ℕ, ◌+◌, ◌*◌, ltb, leb, str_eq, Bool, true, false, not, ◌&&◌, ◌||◌, String, List, [], ◌∷◌, keep,
  map,
}
use lilnouns_monorepo.Bots.Types.{GovernanceVote, GovernanceProposal, Status, queued}

abbrev pub seconds_in_day : ℕ
seconds_in_day = 60 * 60 * 24

-- `ids.indexOf(id) !== -1`
unfoldable pub has_id : List String → String → Bool
has_id [] id = false
has_id (i ∷ ids) id = str_eq i id || has_id ids id

unfoldable pub extract_new_votes : GovernanceProposal → GovernanceProposal → List GovernanceVote
unfolding has_id
extract_new_votes before after =
    let previous_ids = map (λ v. v.id) before.votes in
    keep (λ (vote : GovernanceVote). not (has_id previous_ids vote.id) && ltb 0 vote.votes)
      after.votes

unfoldable pub is_queued : Status → Bool
is_queued queued = true
is_queued _ = false

-- Two days at most are left of the fourteen after the execution time. The seconds until the expiry
-- are positive as long as the time is before it.
unfoldable pub is_at_risk_of_expiry : ℕ → GovernanceProposal → Bool
unfolding is_queued
is_at_risk_of_expiry now proposal =
    is_queued proposal.status
    && (ltb now (proposal.execution_eta + seconds_in_day * 14)
        && leb (proposal.execution_eta + seconds_in_day * 14) (now + seconds_in_day * 2))
