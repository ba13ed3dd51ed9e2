-- ===== src/Subgraph/Helpers.antt =====
-- utils/helpers.ts and utils/constants.ts: entities loaded, or created with their defaults.
pub mod Found
use lilnouns_monorepo.Base.{
  ◌≡◌, String, str_eq, Bool, true, false, not, ◌&&◌, Option, none, some, [], if◌then◌else◌,
}
use lilnouns_monorepo.Base.Int.{ℤ, pos, ◌+ℤ◌}
use lilnouns_monorepo.Base.Table.{load}
use lilnouns_monorepo.Subgraph.Entities.{
  Account, Delegate, Governance, DynamicQuorumParams, Proposal, Vote,
}
use lilnouns_monorepo.Subgraph.Store.{
  Store, M, ⊤, pure, gets, required, ◌>>=◌, ◌>>◌, save_account, save_delegate, save_governance,
  save_quorum_params, save_proposal, save_vote,
}

abbrev pub zero_address : String
zero_address = "0x0000000000000000000000000000000000000000"

-- `if (c) m`
abbrev pub when : Bool → M ⊤ → M ⊤
when c m = if c then m else pure tt

abbrev pub new_account : String → Account
new_account id = record {
  id = id;
  delegate = none;
  token_balance_raw = pos 0;
  token_balance = pos 0;
  total_tokens_held_raw = pos 0;
  total_tokens_held = pos 0;
  nouns = [];
}

-- A fallback for an entity that is not found: null, or a new entity that `save` may store.
or_create : {A : Type 0} → Option A → Bool → M (Option A) → M (Option A)
or_create (some a) create m = pure (some a)
or_create none create m = if create then m else pure none

unfoldable pub get_or_create_account : String → Bool → Bool → M Account
unfolding or_create
get_or_create_account id create_if_not_found save = do
  token_holder ← gets (λ s. load id s.accounts)
  token_holder' ←
      or_create token_holder create_if_not_found
        (when save (save_account (new_account id)) >> pure (some (new_account id)))
  required token_holder'

abbrev pub new_governance : Governance
new_governance = record {
  proposals = pos 0;
  total_token_holders = pos 0;
  current_token_holders = pos 0;
  current_delegates = pos 0;
  total_delegates = pos 0;
  delegated_votes_raw = pos 0;
  delegated_votes = pos 0;
  proposals_queued = pos 0;
}

-- The stored governance entity, or a new one, which is not saved here.
abbrev pub governance_of : Option Governance → Governance
governance_of none = new_governance
governance_of (some g) = g

unfoldable pub get_governance_entity : M Governance
get_governance_entity = gets (λ s. governance_of s.governance)

abbrev pub new_delegate : String → Delegate
new_delegate id = record {
  id = id;
  delegated_votes_raw = pos 0;
  delegated_votes = pos 0;
  token_holders_represented_amount = pos 0;
  nouns_represented = [];
}

count_delegate : M ⊤
unfolding get_governance_entity
count_delegate = do
  governance ← get_governance_entity
  save_governance (record governance { total_delegates = governance.total_delegates +ℤ pos 1 })

unfoldable pub get_or_create_delegate_with_null_option : String → Bool → Bool → M (Option Delegate)
unfolding or_create count_delegate
get_or_create_delegate_with_null_option id create_if_not_found save = do
  delegate ← gets (λ s. load id s.delegates)
  or_create delegate create_if_not_found (do
    when (not (str_eq id zero_address)) count_delegate
    when save (save_delegate (new_delegate id))
    pure (some (new_delegate id)))

unfoldable pub get_or_create_delegate : String → M Delegate
unfolding get_or_create_delegate_with_null_option
get_or_create_delegate id = do
  delegate ← get_or_create_delegate_with_null_option id true true
  required delegate

abbrev pub new_vote : String → Vote
new_vote id = record {
  id = id;
  support = none;
  support_detailed = none;
  votes_raw = none;
  votes = none;
  reason = none;
  voter = none;
  nouns = none;
  proposal = none;
  block_number = none;
}

unfoldable pub get_or_create_vote : String → Bool → Bool → M Vote
unfolding or_create
get_or_create_vote id create_if_not_found save = do
  vote ← gets (λ s. load id s.votes)
  vote' ←
      or_create vote create_if_not_found
        (when save (save_vote (new_vote id)) >> pure (some (new_vote id)))
  required vote'

abbrev pub new_proposal : String → Proposal
new_proposal id = record {
  id = id;
  proposer = none;
  targets = none;
  values = none;
  signatures = none;
  calldatas = none;
  created_timestamp = none;
  created_block = none;
  created_transaction_hash = none;
  start_block = none;
  end_block = none;
  proposal_threshold = none;
  quorum_votes = none;
  for_votes = none;
  against_votes = none;
  abstain_votes = none;
  title = none;
  description = none;
  status = none;
  execution_eta = none;
  total_supply = none;
  min_quorum_votes_bps = none;
  max_quorum_votes_bps = none;
  quorum_coefficient = none;
}

unfoldable pub get_or_create_proposal : String → Bool → Bool → M Proposal
unfolding or_create get_governance_entity
get_or_create_proposal id create_if_not_found save = do
  proposal ← gets (λ s. load id s.proposals)
  proposal' ← or_create proposal create_if_not_found (do
    governance ← get_governance_entity
    save_governance (record governance { proposals = governance.proposals +ℤ pos 1 })
    when save (save_proposal (new_proposal id))
    pure (some (new_proposal id)))
  required proposal'

abbrev pub new_quorum_params : Option ℤ → DynamicQuorumParams
new_quorum_params block = record {
  min_quorum_votes_bps = pos 0;
  max_quorum_votes_bps = pos 0;
  quorum_coefficient = pos 0;
  dynamic_quorum_start_block = block;
}

create_quorum_params : Option DynamicQuorumParams → Option ℤ → M DynamicQuorumParams
create_quorum_params (some params) block = pure params
create_quorum_params none block = do
  save_quorum_params (new_quorum_params block)
  pure (new_quorum_params block)

start_quorum_params : DynamicQuorumParams → Option ℤ → Option ℤ → M DynamicQuorumParams
start_quorum_params params none (some b) = do
  save_quorum_params (record params { dynamic_quorum_start_block = some b })
  pure (record params { dynamic_quorum_start_block = some b })
start_quorum_params params _ _ = pure params

unfoldable pub get_or_create_dynamic_quorum_params : Option ℤ → M DynamicQuorumParams
unfolding create_quorum_params start_quorum_params
get_or_create_dynamic_quorum_params block = do
  stored ← gets (λ s. s.quorum_params)
  params ← create_quorum_params stored block
  start_quorum_params params params.dynamic_quorum_start_block block
