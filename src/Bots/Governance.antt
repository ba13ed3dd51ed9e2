-- ===== src/Bots/Governance.antt =====
-- index.ts: `setupGovernance` and `processGovernanceTick`. The runs for the proposals, which the source
-- starts at once and does not wait for, stand one after the other.
pub mod Settled
pub mod Rejected
pub mod Ticks
pub mod Repeats
use lilnouns_monorepo.Base.{
  ℕ, Bool, true, false, not, ◌&&◌, ◌||◌, Option, none, some, List, [], ◌∷◌, if◌then◌else◌,
}
use lilnouns_monorepo.Bots.Types.{
  GovernanceVote, GovernanceProposal, Status, active, cancelled, executed, pending, queued, vetoed,
}
use lilnouns_monorepo.Bots.Redis.{Redis}
use lilnouns_monorepo.Bots.Proposals.{extract_new_votes, is_at_risk_of_expiry}
use lilnouns_monorepo.Bots.Cache.{
  get_proposal_cache, update_proposal_cache, has_warned_of_expiry, set_proposal_expiry_warning_sent,
}
use lilnouns_monorepo.Bots.World.{
  World, M, Note, ◌>>◌, when, write, new_proposal, updated_proposal_status, governance_vote,
  proposal_at_risk_of_expiry,
}

unfoldable pub status_eq : Status → Status → Bool
status_eq active active = true
status_eq cancelled cancelled = true
status_eq executed executed = true
status_eq pending pending = true
status_eq queued queued = true
status_eq vetoed vetoed = true
status_eq _ _ = false

-- What a run waits for: the announcement to all handlers, the mark of a warning, and the cached proposal.
pub data Call : Type 0 where
  announcing : Note → Call
  marking : ℕ → Call
  caching : ℕ → Call

module _ {Db : Type 0} (r : Redis Db) where
  unfoldable pub setup_governance : List GovernanceProposal → M Db
  setup_governance [] w = (w, true)
  setup_governance (p ∷ ps) w =
      setup_governance ps (record w { db = update_proposal_cache r p w.db })

  -- `outside` says whether the handlers of proposals, which change nothing of the cache, and the writes to
  -- Redis resolve. A write that rejects writes nothing.
  module _ (outside : Call → Bool) where
    announce : Note → M Db
    announce note w = (record w { sent = note ∷ w.sent }, outside (announcing note))

    put : Call → (Db → Db) → M Db
    put call f w = if outside call then (record w { db = f w.db }, true) else (w, false)

    -- Nothing waits for the votes.
    announce_votes : GovernanceProposal → List GovernanceVote → M Db
    unfolding announce
    announce_votes p [] w = (w, true)
    announce_votes p (v ∷ vs) w = announce_votes p vs (announce (governance_vote p v) w).0

    warn_of_expiry : ℕ → GovernanceProposal → M Db
    unfolding announce put
    warn_of_expiry now p w =
        when (is_at_risk_of_expiry now p && not (has_warned_of_expiry r p.id w.db))
          (announce (proposal_at_risk_of_expiry p)
            >> put (marking p.id) (set_proposal_expiry_warning_sent r p.id))
          w

    revise : ℕ → Option GovernanceProposal → GovernanceProposal → M Db
    unfolding announce announce_votes warn_of_expiry
    revise now none p = announce (new_proposal p)
    revise now (some before) p =
        when (not (status_eq before.status p.status)) (announce (updated_proposal_status p))
        >> announce_votes p (extract_new_votes before p)
        >> warn_of_expiry now p

    unfoldable pub process_proposal : ℕ → GovernanceProposal → M Db
    unfolding revise put
    process_proposal now p w =
        (revise now (get_proposal_cache r p.id w.db) p
            >> put (caching p.id) (update_proposal_cache r p))
          w

    -- A run that rejects ends there, and the others go on.
    unfoldable pub process_governance_tick : ℕ → List GovernanceProposal → World Db → World Db
    unfolding process_proposal
    process_governance_tick now [] w = w
    process_governance_tick now (p ∷ ps) w =
        process_governance_tick now ps (process_proposal now p w).0
