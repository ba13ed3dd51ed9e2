-- ===== src/Subgraph/Token/Redelegation.antt =====
-- What a change of delegate writes: the holder's nouns move from one delegate to the other.
use lilnouns_monorepo.Base.{Option, some, none, ◌++◌}
use lilnouns_monorepo.Base.Int.{pos, ◌+ℤ◌, ◌-ℤ◌, wrap_i32}
use lilnouns_monorepo.Subgraph.Host.{GraphTs}
use lilnouns_monorepo.Subgraph.Entities.{Account, Delegate}
use lilnouns_monorepo.Subgraph.Events.{DelegateChanged}
use lilnouns_monorepo.Subgraph.Store.{Store, ⊤}
use lilnouns_monorepo.Subgraph.Helpers.Found.{account_of, with_account, delegate_of, with_delegate}
use lilnouns_monorepo.Subgraph.Token.{without_all}

abbrev store_of : Option (⊤ × Store) → Store → Store
store_of r s = elim r [ none ↦ s | some (a, s') ↦ s' ]

module _ (g : GraphTs) (s : Store) (e : DelegateChanged) where
  abbrev holder : Account
  holder = account_of (g.to_hex e.delegator) s

  -- The two delegates as they were loaded, the new one after the old one may have been created.
  abbrev old_delegate : Delegate
  old_delegate = delegate_of (g.to_hex e.from_delegate) s

  abbrev stored_both : Store
  stored_both =
      with_delegate (g.to_hex e.to_delegate)
        (with_delegate (g.to_hex e.from_delegate) (with_account (g.to_hex e.delegator) s))

  abbrev new_delegate_loaded : Delegate
  new_delegate_loaded =
      delegate_of (g.to_hex e.to_delegate)
        (with_delegate (g.to_hex e.from_delegate) (with_account (g.to_hex e.delegator) s))

  abbrev pub lighter : Delegate → Delegate
  lighter d = record d {
    token_holders_represented_amount = wrap_i32 (d.token_holders_represented_amount -ℤ pos 1);
    nouns_represented = without_all holder.nouns d.nouns_represented;
  }

  abbrev pub heavier : Delegate → Delegate
  heavier d = record d {
    token_holders_represented_amount = wrap_i32 (d.token_holders_represented_amount +ℤ pos 1);
    nouns_represented = d.nouns_represented ++ holder.nouns;
  }
