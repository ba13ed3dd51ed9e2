-- ===== src/Subgraph/Dao.antt =====
-- nouns-dao.ts: the handlers of the governor's events.
pub mod Proposals
pub mod Votes
pub mod Ballot
pub mod Params
use Prim.Native.String.{◌++◌}
use lilnouns_monorepo.Base.{
  ℕ, String, str_eq, Bool, true, false, Option, none, some, [], ◌∷◌, ◌==◌, if◌then◌else◌,
}
use lilnouns_monorepo.Base.Int.{ℤ, pos, ◌+ℤ◌, ◌-ℤ◌, ltb_ℤ, leb_ℤ}
use lilnouns_monorepo.Base.Chars.{Chars, codes, split, join}
use lilnouns_monorepo.Subgraph.Host.{GraphTs}
use lilnouns_monorepo.Subgraph.Entities.{
  Delegate, Governance, DynamicQuorumParams, Proposal, ProposalStatus, pending, cancelled, vetoed,
  executed, queued, active, Vote,
}
use lilnouns_monorepo.Subgraph.Events.{
  Context, ProposalCreated, ProposalEvent, ProposalQueued, VoteCast, QuorumSet,
}
use lilnouns_monorepo.Subgraph.Store.{
  Store, M, ⊤, pure, required, ◌>>=◌, ◌>>◌, log_error, save_governance, save_quorum_params,
  save_proposal, save_vote,
}
use lilnouns_monorepo.Subgraph.Helpers.{
  when, get_or_create_delegate, get_or_create_delegate_with_null_option, get_governance_entity,
  get_or_create_vote, get_or_create_proposal, get_or_create_dynamic_quorum_params,
}
use lilnouns_monorepo.Subgraph.Title.{extract_title}
use lilnouns_monorepo.Subgraph.Quorum.{dynamic_quorum_votes}

-- `if (d == null) log.error(message, [id, hash])`
abbrev pub log_unless_found : Option Delegate → String → String → String → M ⊤
log_unless_found none message id hash = log_error message (id ∷ hash ∷ [])
log_unless_found (some d) message id hash = pure tt

-- `description.split('\\n').join('\n')`: each backslash followed by an n becomes a line feed
unfoldable pub unescape_lines : Chars → Chars
unescape_lines description = join (split description (92 ∷ b'n' ∷ [])) (codes "\n")

unfoldable pub is_pending : ProposalStatus → Bool
is_pending pending = true
is_pending _ = false

-- The votes for, against and abstained after a vote is counted; a getter of an unset field traps.
abbrev pub add_votes : Option ℤ → ℤ → M ℤ
add_votes votes n = required votes >>= λ v. pure (v +ℤ n)

unfoldable pub tally : Proposal → ℕ → ℤ → M Proposal
tally proposal support votes =
    if support == 0
    then (do
      v ← add_votes proposal.against_votes votes
      pure (record proposal { against_votes = some v }))
    else if support == 1
    then (do v ← add_votes proposal.for_votes votes; pure (record proposal { for_votes = some v }))
    else if support == 2
    then (do
      v ← add_votes proposal.abstain_votes votes
      pure (record proposal { abstain_votes = some v }))
    else pure proposal

-- `start !== null && start!.lt(proposal.createdBlock)`
unfoldable pub using_dynamic_quorum : Option ℤ → Proposal → M Bool
using_dynamic_quorum none proposal = pure false
using_dynamic_quorum (some start) proposal = do
  created ← required proposal.created_block
  pure (ltb_ℤ start created)

-- `if (proposal.status == STATUS_PENDING) proposal.status = STATUS_ACTIVE`
unfoldable pub activate : Proposal → M Proposal
unfolding is_pending
activate proposal = do
  status ← required proposal.status
  pure (if is_pending status then record proposal { status = some active } else proposal)

module _ (g : GraphTs) where
  unfoldable pub handle_proposal_created_with_requirements : ProposalCreated → M ⊤
  handle_proposal_created_with_requirements event = do
    proposal ← get_or_create_proposal (g.to_string event.id) true false
    known ← get_or_create_delegate_with_null_option (g.to_hex event.proposer) false true
    log_unless_found known "Delegate {} not found on ProposalCreated. tx_hash: {}"
        (g.to_hex event.proposer) (g.to_hex event.at.hash)
    proposer ← get_or_create_delegate (g.to_hex event.proposer)
    governance ← get_governance_entity
    dynamic_quorum ← get_or_create_dynamic_quorum_params none
    let description = unescape_lines event.description
    save_proposal (record proposal {
      proposer = some proposer.id;
      targets = some event.targets;
      values = some event.values;
      signatures = some event.signatures;
      calldatas = some event.calldatas;
      created_timestamp = some event.at.timestamp;
      created_block = some event.at.number;
      created_transaction_hash = some event.at.hash;
      start_block = some event.start_block;
      end_block = some event.end_block;
      proposal_threshold = some event.proposal_threshold;
      quorum_votes = some event.quorum_votes;
      for_votes = some (pos 0);
      against_votes = some (pos 0);
      abstain_votes = some (pos 0);
      description = some description;
      title = some (extract_title description);
      status = some (if leb_ℤ event.start_block event.at.number then active else pending);
      total_supply = some governance.total_token_holders;
      min_quorum_votes_bps = some dynamic_quorum.min_quorum_votes_bps;
      max_quorum_votes_bps = some dynamic_quorum.max_quorum_votes_bps;
      quorum_coefficient = some dynamic_quorum.quorum_coefficient;
    })

  unfoldable pub handle_proposal_canceled : ProposalEvent → M ⊤
  handle_proposal_canceled event = do
    proposal ← get_or_create_proposal (g.to_string event.id) true false
    save_proposal (record proposal { status = some cancelled })

  unfoldable pub handle_proposal_vetoed : ProposalEvent → M ⊤
  handle_proposal_vetoed event = do
    proposal ← get_or_create_proposal (g.to_string event.id) true false
    save_proposal (record proposal { status = some vetoed })

  unfoldable pub handle_proposal_queued : ProposalQueued → M ⊤
  handle_proposal_queued event = do
    governance ← get_governance_entity
    proposal ← get_or_create_proposal (g.to_string event.id) true false
    save_proposal (record proposal { status = some queued; execution_eta = some event.eta })
    save_governance (record governance { proposals_queued = governance.proposals_queued +ℤ pos 1 })

  unfoldable pub handle_proposal_executed : ProposalEvent → M ⊤
  handle_proposal_executed event = do
    governance ← get_governance_entity
    proposal ← get_or_create_proposal (g.to_string event.id) true false
    save_proposal (record proposal { status = some executed; execution_eta = none })
    save_governance (record governance { proposals_queued = governance.proposals_queued -ℤ pos 1 })

  -- The quorum with the proposal's snapshot of the parameters.
  unfoldable pub with_dynamic_quorum : Proposal → M Proposal
  with_dynamic_quorum proposal = do
    against ← required proposal.against_votes
    supply ← required proposal.total_supply
    min_bps ← required proposal.min_quorum_votes_bps
    max_bps ← required proposal.max_quorum_votes_bps
    coefficient ← required proposal.quorum_coefficient
    votes ← required (dynamic_quorum_votes g against supply min_bps max_bps coefficient)
    pure (record proposal { quorum_votes = some votes })

  unfoldable pub handle_vote_cast : VoteCast → M ⊤
  handle_vote_cast event = do
    proposal ← get_or_create_proposal (g.to_string event.proposal_id) true false
    vote ←
        get_or_create_vote ((g.to_hex event.voter ++ "-") ++ g.to_string event.proposal_id) true
          false
    known ← get_or_create_delegate_with_null_option (g.to_hex event.voter) false true
    log_unless_found known "Delegate {} not found on VoteCast. tx_hash: {}" (g.to_hex event.voter)
        (g.to_hex event.at.hash)
    voter ← get_or_create_delegate (g.to_hex event.voter)
    save_vote (record vote {
      proposal = some proposal.id;
      voter = some voter.id;
      votes_raw = some event.votes;
      votes = some event.votes;
      support = some (event.support == 1);
      support_detailed = some event.support;
      nouns = some voter.nouns_represented;
      block_number = some event.at.number;
      reason = if str_eq event.reason "" then vote.reason else some event.reason;
    })
    counted ← tally proposal event.support event.votes
    dq_params ← get_or_create_dynamic_quorum_params none
    using_dynamic ← using_dynamic_quorum dq_params.dynamic_quorum_start_block counted
    updated ← if using_dynamic then with_dynamic_quorum counted else pure counted
    saved ← activate updated
    save_proposal saved

  unfoldable pub handle_min_quorum_votes_bps_set : QuorumSet → M ⊤
  handle_min_quorum_votes_bps_set event = do
    params ← get_or_create_dynamic_quorum_params (some event.at.number)
    save_quorum_params (record params { min_quorum_votes_bps = event.new_value })

  unfoldable pub handle_max_quorum_votes_bps_set : QuorumSet → M ⊤
  handle_max_quorum_votes_bps_set event = do
    params ← get_or_create_dynamic_quorum_params (some event.at.number)
    save_quorum_params (record params { max_quorum_votes_bps = event.new_value })

  unfoldable pub handle_quorum_coefficient_set : QuorumSet → M ⊤
  handle_quorum_coefficient_set event = do
    params ← get_or_create_dynamic_quorum_params (some event.at.number)
    save_quorum_params (record params { quorum_coefficient = event.new_value })
