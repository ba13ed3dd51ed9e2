-- ===== src/Subgraph/Token/Transfers.antt =====
-- What a transfer writes to the accounts and to the noun.
use lilnouns_monorepo.Base.{
  String, str_eq, ◌≡◌, refl, false, some, if◌then◌else◌, Option-cases, inl, inr,
}
use lilnouns_monorepo.Base.Table.{load, save, load-save_self, IsKeyed}
use lilnouns_monorepo.Subgraph.Host.{GraphTs}
use lilnouns_monorepo.Subgraph.Entities.{Account, Noun}
use lilnouns_monorepo.Subgraph.Events.{Transfer}
use lilnouns_monorepo.Subgraph.Store.{Store, exec, ◌>>=◌, ◌>>◌}
use lilnouns_monorepo.Subgraph.Helpers.{zero_address, new_account, get_governance_entity}
use lilnouns_monorepo.Subgraph.Helpers.Found.{
  account_of, with_account, get_or_create_account_lem, account_of-id, found-stored, both_stored,
  load-save_both,
}
use lilnouns_monorepo.Subgraph.Token.{noun_or_new, handle_transfer}
use lilnouns_monorepo.Subgraph.Token.Steps.{
  taken, given, take_from_lem, add_to_delegate_lem, give_to_lem, removed-accounts, removed-nouns,
}

module _ (g : GraphTs) (s : Store) (e : Transfer) where
  abbrev noun_id : String
  noun_id = g.to_string e.token_id

  abbrev from : Account
  from = account_of (g.to_hex e.from) s

  abbrev loaded_to : Account
  loaded_to = account_of (g.to_hex e.to) (with_account (g.to_hex e.from) s)

  -- The noun with its new owner; a noun that is not stored has no seed yet.
  abbrev pub owned : String → Noun
  owned id = record (noun_or_new noun_id (load noun_id s.nouns)) { owner = some id }

  noun_or_new-id :
      IsKeyed Noun.id s.nouns → (noun_or_new noun_id (load noun_id s.nouns)).id ≡ noun_id
  unfolding noun_or_new
  noun_or_new-id k = elim (Option-cases (load noun_id s.nouns)) [
    | inl h ↦ rw h
    | inr (n, h) ↦ rw h (k noun_id n h)
  ]

  module _ (from_real : str_eq (g.to_hex e.from) zero_address ≡ false)
      (to_real : str_eq (g.to_hex e.to) zero_address ≡ false) where
    accounts_after :
        (exec (handle_transfer g e) s).accounts
        ≡ save loaded_to.id (given noun_id loaded_to) (
            save from.id
              (taken noun_id from)
              (both_stored new_account (g.to_hex e.from) (g.to_hex e.to) s.accounts))
    unfolding handle_transfer get_governance_entity
    accounts_after =
        rw (get_or_create_account_lem, exec, ◌>>=◌)
          (rw (get_or_create_account_lem, ◌>>=◌, ◌>>◌)
            (rw (from_real, take_from_lem)
              (rw (to_real, add_to_delegate_lem, ◌>>=◌)
                (rw (give_to_lem, ◌>>=◌) (rw removed-accounts refl)))))

    nouns_after :
        (exec (handle_transfer g e) s).nouns
        ≡ save (noun_or_new noun_id (load noun_id s.nouns)).id (owned loaded_to.id) s.nouns
    unfolding handle_transfer get_governance_entity
    nouns_after =
        rw (get_or_create_account_lem, exec, ◌>>=◌)
          (rw (get_or_create_account_lem, ◌>>=◌, ◌>>◌)
            (rw (from_real, take_from_lem)
              (rw (to_real, add_to_delegate_lem, ◌>>=◌)
                (rw (give_to_lem, ◌>>=◌) (rw removed-nouns refl)))))

    -- A transfer between two ids other than the zero address, in a store whose accounts and nouns
    -- stand under their ids: the new holder gains the token; else, if it is another, the old holder
    -- loses it; every other account is as before; and the noun's owner is the new holder. Where both
    -- ids are the same, the account only gains: its balance grows by one.
    pub transferred :
        (j : String)
        → IsKeyed Account.id s.accounts
        → IsKeyed Noun.id s.nouns
        → let s' = exec (handle_transfer g e) s in
          (load j s'.accounts ≡ (
            if str_eq (g.to_hex e.to) j
            then some (given noun_id (account_of (g.to_hex e.to) s))
            else if str_eq (g.to_hex e.from) j
            then some (taken noun_id (account_of (g.to_hex e.from) s))
            else load j s.accounts))
          × (load noun_id s'.nouns ≡ some (owned (g.to_hex e.to)))
    transferred j k kn = (
      rw accounts_after (
          rw
            (
              found-stored new_account (g.to_hex e.from) (g.to_hex e.to) s.accounts,
              account_of-id (g.to_hex e.from) s k,
              account_of-id (g.to_hex e.to) s k,
            )
            (load-save_both new_account _ _ s.accounts j _ _)),
      rw nouns_after (
          rw
            (
              found-stored new_account (g.to_hex e.from) (g.to_hex e.to) s.accounts,
              account_of-id (g.to_hex e.to) s k,
              noun_or_new-id kn,
            )
            (load-save_self _ _ s.nouns)),
    )
