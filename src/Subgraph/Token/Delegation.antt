-- ===== src/Subgraph/Token/Delegation.antt =====
-- Votes that delegates hold, and what a change of delegate writes.
use lilnouns_monorepo.Base.{String, ◌≡◌, refl, ◌≢◌, none, some, [], ◌∷◌, Option-cases, inl, inr}
use lilnouns_monorepo.Base.Int.{ℤ, pos, ◌+ℤ◌, ◌-ℤ◌, int_laws}
use lilnouns_monorepo.Base.Table.{Table, load, save, IsKeyed, load-save_self}
use lilnouns_monorepo.Subgraph.Host.{GraphTs}
use lilnouns_monorepo.Subgraph.Entities.{Delegate}
use lilnouns_monorepo.Subgraph.Events.{DelegateVotesChanged}
use lilnouns_monorepo.Subgraph.Store.{Store, exec, ◌>>=◌}
use lilnouns_monorepo.Subgraph.Helpers.{governance_of, get_governance_entity, new_delegate}
use lilnouns_monorepo.Subgraph.Helpers.Found.{
  delegate_of, with_delegate, get_or_create_delegate_lem, stored, found, delegate_of-id,
}
use lilnouns_monorepo.Subgraph.Token.{handle_delegate_votes_changed, count_current_delegates}

-- The votes of all stored delegates together.
abbrev pub sum_votes : Table Delegate → ℤ
sum_votes [] = pos 0
sum_votes ((k, d) ∷ t) = d.delegated_votes_raw +ℤ sum_votes t

sum_votes-save :
    (k : String) (d d' : Delegate) (t : Table Delegate)
    → load k t ≡ some d
    → sum_votes (save k d' t) +ℤ d.delegated_votes_raw ≡ sum_votes t +ℤ d'.delegated_votes_raw
unfolding load save
sum_votes-save k d d' [] h = cc
sum_votes-save k d d' ((j, c) ∷ t) h = grind (int_laws, sum_votes-save k d d' t)

sum_votes-save_new :
    (k : String) (d : Delegate) (t : Table Delegate)
    → load k t ≡ none
    → sum_votes (save k d t) ≡ sum_votes t +ℤ d.delegated_votes_raw
unfolding load save
sum_votes-save_new k d [] h = omega int_laws
sum_votes-save_new k d ((j, c) ∷ t) h = grind (int_laws, sum_votes-save_new k d t)

-- A save of a delegate that was found, or has just been stored.
sum_votes-stored :
    (id : String) (d' : Delegate) (t : Table Delegate)
    → let d = found (load id t) (new_delegate id) in
      sum_votes (save id d' (stored (load id t) id (new_delegate id) t)) +ℤ d.delegated_votes_raw
      ≡ sum_votes t +ℤ d'.delegated_votes_raw
sum_votes-stored id d' t = elim (Option-cases (load id t)) [
  | inl h ↦ rw h (
      grind (
        int_laws,
        sum_votes-save id (new_delegate id) d' (save id (new_delegate id) t)
            (load-save_self id (new_delegate id) t),
        sum_votes-save_new id (new_delegate id) t h,
      ))
  | inr (d, h) ↦ rw h (sum_votes-save id d d' t h)
]

-- The governance entity's votes are the sum of the delegates' votes.
abbrev pub IsSummed : Store → Type 0
IsSummed s = (governance_of s.governance).delegated_votes_raw ≡ sum_votes s.delegates

module _ (g : GraphTs) (s : Store) (e : DelegateVotesChanged) where
  abbrev before : Delegate
  before = delegate_of (g.to_hex e.delegate) s

  abbrev saved : String → Delegate
  saved id = record {
    id = id;
    delegated_votes_raw = e.new_balance;
    delegated_votes = e.new_balance;
    token_holders_represented_amount = before.token_holders_represented_amount;
    nouns_represented = before.nouns_represented;
  }

  abbrev after_votes : Store
  after_votes = record s {
    delegates =
        save before.id
          (record before { delegated_votes_raw = e.new_balance; delegated_votes = e.new_balance })
          (with_delegate (g.to_hex e.delegate) s).delegates;
    governance = some (record (governance_of s.governance) {
      current_delegates =
          count_current_delegates e.previous_balance e.new_balance
            (governance_of s.governance).current_delegates;
      delegated_votes_raw =
          (governance_of s.governance).delegated_votes_raw +ℤ (e.new_balance -ℤ e.previous_balance);
      delegated_votes =
          (governance_of s.governance).delegated_votes_raw +ℤ (e.new_balance -ℤ e.previous_balance);
    });
  }

  handle_delegate_votes_changed_lem : exec (handle_delegate_votes_changed g e) s ≡ after_votes
  unfolding handle_delegate_votes_changed get_governance_entity
  handle_delegate_votes_changed_lem = rw (get_or_create_delegate_lem, exec, ◌>>=◌) refl

  -- If the store's governance votes are the sum of the delegates' votes, and the event's previous
  -- balance is what the store has for the delegate, the sum is right again after the event.
  pub votes_changed-IsSummed :
      IsKeyed Delegate.id s.delegates
      → e.previous_balance ≡ before.delegated_votes_raw
      → IsSummed s
      → IsSummed (exec (handle_delegate_votes_changed g e) s)
  votes_changed-IsSummed k prev h =
      rw (handle_delegate_votes_changed_lem, delegate_of-id (g.to_hex e.delegate) s k)
        (grind (
          int_laws,
          h,
          prev,
          sum_votes-stored (g.to_hex e.delegate) (saved (g.to_hex e.delegate)) s.delegates,
        ))

  -- A delegate that the store meets in this event is stored, and not counted: the governance entity
  -- that is saved last was loaded before the count.
  pub votes_changed-uncounted :
      load (g.to_hex e.delegate) s.delegates ≡ none
      → let s' = exec (handle_delegate_votes_changed g e) s in
        (load (g.to_hex e.delegate) s'.delegates ≢ none)
        × ((governance_of s'.governance).total_delegates
            ≡ (governance_of s.governance).total_delegates)
  votes_changed-uncounted h =
      rw (handle_delegate_votes_changed_lem, h)
        (
          λ p. cc (
            load-save_self (g.to_hex e.delegate) (saved (g.to_hex e.delegate))
                (with_delegate (g.to_hex e.delegate) s).delegates,
            p,
          ),
          refl,
        )
