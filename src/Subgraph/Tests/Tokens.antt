-- ===== src/Subgraph/Tests/Tokens.antt =====
-- Transfers and delegation at concrete inputs.
use lilnouns_monorepo.Base.{◌≡◌, ◌≢◌, refl, ◌∷◌, [], some, none}
use lilnouns_monorepo.Base.Int.{pos, ◌+ℤ◌}
use lilnouns_monorepo.Base.Table.{load, save, IsKeyed}
use lilnouns_monorepo.Subgraph.Host.{Bytes}
use lilnouns_monorepo.Subgraph.Entities.{Account, Delegate, Noun}
use lilnouns_monorepo.Subgraph.Events.{Transfer, DelegateVotesChanged, DelegateChanged}
use lilnouns_monorepo.Subgraph.Store.{exec}
use lilnouns_monorepo.Subgraph.Helpers.{governance_of}
use lilnouns_monorepo.Subgraph.Helpers.Found.{account_of}
use lilnouns_monorepo.Subgraph.Token.{handle_transfer, handle_delegate_votes_changed}
use lilnouns_monorepo.Subgraph.Token.Steps.{given}
use lilnouns_monorepo.Subgraph.Token.Transfers.{transferred, owned}
use lilnouns_monorepo.Subgraph.Token.Delegation.{
  IsSummed, votes_changed-IsSummed, votes_changed-uncounted,
}
use lilnouns_monorepo.Subgraph.Token.Supply.{supply, supply-handle_transfer}
use lilnouns_monorepo.Subgraph.Tests.{
  host, store, at, alice, bob, alice_account, alice_delegate, first_noun, one-IsKeyed,
}

abbrev zero_bytes : Bytes
zero_bytes = 0 ∷ 0 ∷ 0 ∷ 0 ∷ 0 ∷ 0 ∷ 0 ∷ 0 ∷ 0 ∷ 0 ∷ 0 ∷ 0 ∷ 0 ∷ 0 ∷ 0 ∷ 0 ∷ 0 ∷ 0 ∷ 0 ∷ 0 ∷ []

abbrev sale : Transfer
sale = record { at = at; from = alice; to = bob; token_id = pos 1 }

abbrev mint : Transfer
mint = record sale { from = zero_bytes; token_id = pos 2 }

accounts-IsKeyed : IsKeyed Account.id store.accounts
accounts-IsKeyed = one-IsKeyed Account.id alice_account

delegates-IsKeyed : IsKeyed Delegate.id store.delegates
delegates-IsKeyed = one-IsKeyed Delegate.id alice_delegate

nouns-IsKeyed : IsKeyed Noun.id store.nouns
nouns-IsKeyed = one-IsKeyed Noun.id first_noun

transferred_example :
    (load "0x0b" (exec (handle_transfer host sale) store).accounts
      ≡ some (given "|" (account_of "0x0b" store)))
    × (load "|" (exec (handle_transfer host sale) store).nouns
        ≡ some (owned host store sale "0x0b"))
unfolding host
transferred_example = transferred host store sale refl refl "0x0b" accounts-IsKeyed nouns-IsKeyed

-- A transfer to oneself adds a token.
self_transfer_example :
    load "0x0a" (exec (handle_transfer host (record sale { to = alice })) store).accounts
    ≡ some (given "|" (account_of "0x0a" store))
unfolding host
self_transfer_example =
    (transferred host store (record sale { to = alice }) refl refl "0x0a" accounts-IsKeyed
      nouns-IsKeyed).0

supply-handle_transfer_example : supply (exec (handle_transfer host mint) store).governance ≡ pos 2
unfolding host supply ◌+ℤ◌
supply-handle_transfer_example = supply-handle_transfer host store mint

abbrev more_votes : DelegateVotesChanged
more_votes = record { at = at; delegate = alice; previous_balance = pos 1; new_balance = pos 3 }

store-IsSummed : IsSummed store
unfolding save ◌+ℤ◌
store-IsSummed = refl

votes_changed-IsSummed_example :
    IsSummed (exec (handle_delegate_votes_changed host more_votes) store)
unfolding host load save
votes_changed-IsSummed_example =
    votes_changed-IsSummed host store more_votes delegates-IsKeyed refl store-IsSummed

abbrev new_votes : DelegateVotesChanged
new_votes = record more_votes { delegate = bob; previous_balance = pos 0 }

votes_changed-uncounted_example :
    (load "0x0b" (exec (handle_delegate_votes_changed host new_votes) store).delegates ≢ none)
    × ((governance_of
          (exec (handle_delegate_votes_changed host new_votes) store).governance).total_delegates
        ≡ pos 1)
unfolding host load save
votes_changed-uncounted_example = votes_changed-uncounted host store new_votes refl

abbrev to_self : DelegateChanged
to_self = record { at = at; delegator = alice; from_delegate = alice; to_delegate = alice }
