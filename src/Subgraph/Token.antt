-- ===== src/Subgraph/Token.antt =====
-- nouns-erc-721.ts: the handlers of the token's events. An entity that is loaded is a copy: what
-- another call saves in between is overwritten when the copy is saved.
pub mod Steps
pub mod Transfers
pub mod Delegation
pub mod Redelegation
pub mod Supply
use Prim.Native.String.{◌++◌}
use lilnouns_monorepo.Base.{
  String, str_eq, Bool, true, false, not, ◌&&◌, ◌||◌, Option, none, some, List, [], ◌∷◌,
  if◌then◌else◌, keep,
}
use mathlib.Core.List
use lilnouns_monorepo.Base.Int.{ℤ, pos, ◌+ℤ◌, ◌-ℤ◌, ltb_ℤ, eqb_ℤ, wrap_i32}
use lilnouns_monorepo.Base.Table.{load}
use lilnouns_monorepo.Subgraph.Host.{GraphTs, Bytes}
use lilnouns_monorepo.Subgraph.Entities.{Account, Delegate, Governance, Seed, Noun}
use lilnouns_monorepo.Subgraph.Events.{
  Context, NounCreated, DelegateChanged, DelegateVotesChanged, Transfer,
}
use lilnouns_monorepo.Subgraph.Store.{
  Store, M, ⊤, pure, gets, ◌>>=◌, ◌>>◌, log_error, save_account, save_delegate, save_governance,
  save_seed, save_noun, save_transfer_event, save_delegation_event,
}
use lilnouns_monorepo.Subgraph.Helpers.{
  zero_address, when, get_or_create_account, get_or_create_delegate, get_governance_entity,
}
use lilnouns_monorepo.Subgraph.Auction.{or_log}

-- `nouns.includes(n)`
unfoldable pub includes : List String → String → Bool
includes [] n = false
includes (m ∷ ms) n = str_eq m n || includes ms n

-- `nouns.filter(n => !removed.includes(n))`
unfoldable pub without_all : List String → List String → List String
unfolding includes
without_all removed = keep (λ n. not (includes removed n))

-- `nouns.filter(n => n != id)`
unfoldable pub without : String → List String → List String
without id = keep (λ n. not (str_eq n id))

-- `delegate ? delegate : id`: the empty string is falsy too
unfoldable pub or_id : Option String → String → String
or_id none id = id
or_id (some d) id = if str_eq d "" then id else d

-- The two tests on the balances of a delegate.
unfoldable pub count_current_delegates : ℤ → ℤ → ℤ → ℤ
count_current_delegates previous new n =
    let n' = if eqb_ℤ previous (pos 0) && ltb_ℤ (pos 0) new then n +ℤ pos 1 else n in
    if eqb_ℤ new (pos 0) then n' -ℤ pos 1 else n'

-- `governance` is a copy that lives through the handler: each branch returns it as it changes.
unfoldable pub remove_from_delegate : String → Option String → M ⊤
unfolding without
remove_from_delegate noun_id none = pure tt
remove_from_delegate noun_id (some d) = do
  delegate ← get_or_create_delegate d
  save_delegate (record delegate { nouns_represented = without noun_id delegate.nouns_represented })

-- The balance tests on a holder: the change of `currentTokenHolders`, saved if there is one.
unfoldable pub count_holders : ℤ → ℤ → Governance → M Governance
count_holders previous balance governance =
    if eqb_ℤ balance (pos 0) && ltb_ℤ (pos 0) previous
    then (do
      let fewer = record governance {
        current_token_holders = governance.current_token_holders -ℤ pos 1;
      }
      save_governance fewer
      pure fewer)
    else if ltb_ℤ (pos 0) balance && eqb_ℤ previous (pos 0)
    then (do
      let more = record governance {
        current_token_holders = governance.current_token_holders +ℤ pos 1;
      }
      save_governance more
      pure more)
    else pure governance

-- The supply, counted in `totalTokenHolders`.
unfoldable pub count_supply : ℤ → Governance → M Governance
count_supply total governance = do
  let counted = record governance { total_token_holders = total }
  save_governance counted
  pure counted

unfoldable pub add_to_delegate : String → String → M ⊤
add_to_delegate noun_id d = do
  delegate ← get_or_create_delegate d
  save_delegate
      (record delegate { nouns_represented = List.◌++◌ delegate.nouns_represented (noun_id ∷ []) })

-- The new holder's balances, nouns and delegate.
unfoldable pub give_to : String → Account → Governance → M Account
give_to noun_id to_holder governance = do
  let previous = to_holder.token_balance_raw
  let balance = previous +ℤ pos 1
  governance' ← count_holders previous balance governance
  pure (record to_holder {
    token_balance_raw = balance;
    token_balance = balance;
    total_tokens_held_raw = to_holder.total_tokens_held_raw +ℤ pos 1;
    total_tokens_held = to_holder.total_tokens_held_raw +ℤ pos 1;
    nouns = List.◌++◌ to_holder.nouns (noun_id ∷ []);
    delegate =
        if eqb_ℤ balance (pos 0) && ltb_ℤ (pos 0) previous
        then to_holder.delegate
        else if ltb_ℤ (pos 0) balance && eqb_ℤ previous (pos 0)
        then some to_holder.id
        else to_holder.delegate;
  })

abbrev pub new_noun : String → Noun
new_noun id = record { id = id; seed = none; owner = none }

unfoldable pub noun_or_new : String → Option Noun → Noun
noun_or_new id none = new_noun id
noun_or_new id (some n) = n

module _ (g : GraphTs) where
  unfoldable pub handle_noun_created : NounCreated → M ⊤
  handle_noun_created event = do
    let noun_id = g.to_string event.token_id
    save_seed (record {
      id = noun_id;
      background = event.seed.background;
      body = event.seed.body;
      accessory = event.seed.accessory;
      head = event.seed.head;
      glasses = event.seed.glasses;
    })
    found ← gets (λ s. load noun_id s.nouns)
    or_log found "[handleNounCreated] Noun #{} not found. Hash: {}" noun_id (g.to_hex event.at.hash)
        λ noun. save_noun (record noun { seed = some noun_id })

  -- The loop that logs a delegation event for each of the account's nouns.
  unfoldable pub log_delegations : DelegateChanged → String → String → List String → M ⊤
  log_delegations event previous new [] = pure tt
  log_delegations event previous new (n ∷ ns) = do
    save_delegation_event (record {
      id = (g.to_hex event.at.hash ++ "_") ++ n;
      noun = n;
      previous_delegate = previous;
      new_delegate = new;
      block_number = event.at.number;
      block_timestamp = event.at.timestamp;
    })
    log_delegations event previous new ns

  unfoldable pub handle_delegate_changed : DelegateChanged → M ⊤
  unfolding without_all
  handle_delegate_changed event = do
    token_holder ← get_or_create_account (g.to_hex event.delegator) true true
    previous_delegate ← get_or_create_delegate (g.to_hex event.from_delegate)
    new_delegate ← get_or_create_delegate (g.to_hex event.to_delegate)
    let account_nouns = token_holder.nouns
    save_account (record token_holder { delegate = some new_delegate.id })
    save_delegate (record previous_delegate {
      token_holders_represented_amount =
          wrap_i32 (previous_delegate.token_holders_represented_amount -ℤ pos 1);
      nouns_represented = without_all account_nouns previous_delegate.nouns_represented;
    })
    save_delegate (record new_delegate {
      token_holders_represented_amount =
          wrap_i32 (new_delegate.token_holders_represented_amount +ℤ pos 1);
      nouns_represented = List.◌++◌ new_delegate.nouns_represented account_nouns;
    })
    log_delegations event (or_id (some previous_delegate.id) token_holder.id)
        (or_id (some new_delegate.id) token_holder.id) account_nouns

  unfoldable pub handle_delegate_votes_changed : DelegateVotesChanged → M ⊤
  unfolding count_current_delegates
  handle_delegate_votes_changed event = do
    governance ← get_governance_entity
    delegate ← get_or_create_delegate (g.to_hex event.delegate)
    let votes_difference = event.new_balance -ℤ event.previous_balance
    save_delegate (record delegate {
      delegated_votes_raw = event.new_balance;
      delegated_votes = event.new_balance;
    })
    save_governance (record governance {
      current_delegates =
          count_current_delegates event.previous_balance event.new_balance
            governance.current_delegates;
      delegated_votes_raw = governance.delegated_votes_raw +ℤ votes_difference;
      delegated_votes = governance.delegated_votes_raw +ℤ votes_difference;
    })

  unfoldable pub log_negative : Account → M ⊤
  log_negative holder = when (ltb_ℤ holder.token_balance_raw (pos 0)) (
      log_error "Negative balance on holder {} with balance {}"
        (holder.id ∷ g.to_string holder.token_balance_raw ∷ []))

  -- The `else` branch for the old holder; it returns the holder and the governance copy.
  unfoldable pub take_from : String → Account → Governance → M (Account × Governance)
  unfolding without
  take_from noun_id from_holder governance = do
    let previous = from_holder.token_balance_raw
    let balance = previous -ℤ pos 1
    let lighter = record from_holder {
      token_balance_raw = balance;
      token_balance = balance;
      nouns = without noun_id from_holder.nouns;
    }
    remove_from_delegate noun_id lighter.delegate
    log_negative lighter
    governance' ← count_holders previous balance governance
    let left = record lighter {
      delegate = if eqb_ℤ balance (pos 0) && ltb_ℤ (pos 0) previous then none else lighter.delegate;
    }
    save_account left
    pure (left, governance')

  unfoldable pub handle_transfer : Transfer → M ⊤
  unfolding or_id noun_or_new
  handle_transfer event = do
    from_holder ← get_or_create_account (g.to_hex event.from) true true
    to_holder ← get_or_create_account (g.to_hex event.to) true true
    governance ← get_governance_entity
    let noun_id = g.to_string event.token_id
    save_transfer_event (record {
      id = (g.to_hex event.at.hash ++ "_") ++ noun_id;
      noun = noun_id;
      previous_holder = from_holder.id;
      new_holder = to_holder.id;
      block_number = event.at.number;
      block_timestamp = event.at.timestamp;
    })
    (from_holder', governance') ←
        if str_eq (g.to_hex event.from) zero_address
        then (do
          counted ← count_supply (governance.total_token_holders +ℤ pos 1) governance
          pure (from_holder, counted))
        else take_from noun_id from_holder governance
    governance'' ←
        if str_eq (g.to_hex event.to) zero_address
        then count_supply (governance'.total_token_holders -ℤ pos 1) governance'
        else pure governance'
    save_delegation_event (record {
      id = (g.to_hex event.at.hash ++ "_") ++ noun_id;
      noun = noun_id;
      previous_delegate = or_id from_holder'.delegate from_holder'.id;
      new_delegate = or_id to_holder.delegate to_holder.id;
      block_number = event.at.number;
      block_timestamp = event.at.timestamp;
    })
    add_to_delegate noun_id (or_id to_holder.delegate to_holder.id)
    to_holder' ← give_to noun_id to_holder governance''
    noun ← gets (λ s. noun_or_new noun_id (load noun_id s.nouns))
    save_noun (record noun { owner = some to_holder'.id })
    save_account to_holder'
