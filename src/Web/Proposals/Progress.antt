-- ===== src/Web/Proposals/Progress.antt =====
-- How the shown state of a proposal goes on, as blocks are added.
use lilnouns_monorepo.Base.{ℕ, ◌≤◌, ◌<◌, ◌≡◌, Option, none, some, arith}
use lilnouns_monorepo.Web.Proposals.{
  ProposalState, undetermined, pending, active, cancelled, defeated, succeeded, queued, expired,
  executed, vetoed, metagov_active, metagov_closed, metagov_pending, PartialProposal, pending_state,
  ended_state, active_state, queued_state, state_of, get_proposal_state,
}

-- The order of the states.
abbrev rank : ProposalState → ℕ
rank undetermined = 0
rank pending = 1
rank metagov_pending = 1
rank active = 2
rank metagov_active = 2
rank defeated = 3
rank succeeded = 3
rank queued = 3
rank metagov_closed = 3
rank expired = 4
rank executed = 4
rank cancelled = 4
rank vetoed = 4

rank-pending :
    (b b' : ℕ) (p : PartialProposal)
    → b ≤ b'
    → rank (pending_state (some b) p) ≤ rank (pending_state (some b') p)
unfolding pending_state
rank-pending b b' p h = ground arith

rank-active :
    (b b' : ℕ) (p : PartialProposal)
    → b ≤ b'
    → rank (active_state (some b) p) ≤ rank (active_state (some b') p)
unfolding active_state ended_state
rank-active b b' p h = ground arith

rank-queued :
    (t t' : ℕ) (eta : Option ℕ)
    → t ≤ t'
    → rank (queued_state (some t) eta) ≤ rank (queued_state (some t') eta)
unfolding queued_state
rank-queued t t' none h = omega arith
rank-queued t t' (some eta) h = ground arith

rank-state_of :
    (s : ProposalState) (b b' t t' : ℕ) (p : PartialProposal)
    → b ≤ b'
    → t ≤ t'
    → rank (state_of s (some b) (some t) p) ≤ rank (state_of s (some b') (some t') p)
unfolding state_of
rank-state_of pending b b' t t' p hb ht = rank-pending b b' p hb
rank-state_of active b b' t t' p hb ht = rank-active b b' p hb
rank-state_of queued b b' t t' p hb ht = rank-queued t t' p.execution_eta ht
rank-state_of s b b' t t' p hb ht = omega arith

-- As blocks are added and time passes, a proposal whose entity stays the same is never shown in an
-- earlier state than before.
rank-get_proposal_state :
    (b b' t t' : ℕ) (p : PartialProposal)
    → b ≤ b'
    → t ≤ t'
    → rank (get_proposal_state (some b) (some t) p)
      ≤ rank (get_proposal_state (some b') (some t') p)
unfolding get_proposal_state
rank-get_proposal_state b b' t t' p hb ht = rank-state_of p.status b b' t t' p hb ht

-- A proposal that is stored as pending, as one without votes is, is shown as active after its end too.
shown_active :
    (b : ℕ) (timestamp : Option ℕ) (p : PartialProposal)
    → p.status ≡ pending
    → p.start_block < b
    → get_proposal_state (some b) timestamp p ≡ active
unfolding get_proposal_state state_of pending_state
shown_active b timestamp p s h = rw s (ground arith)
