-- ===== src/Subgraph/Helpers/Found.antt =====
-- What the helpers of utils/helpers.ts return and leave in the store, as equations.
use lilnouns_monorepo.Base.{
  String, str_eq, ◌≡◌, ◌∙◌, true, false, Bool-cases, Option, none, some, arith, if◌then◌else◌,
  eq_iff, Option-cases, inl, inr,
}
use lilnouns_monorepo.Base.Int.{ℤ, pos, ◌+ℤ◌}
use lilnouns_monorepo.Base.Table.{Table, IsKeyed, load, save, load-save}
use lilnouns_monorepo.Subgraph.Entities.{
  Account, Delegate, DynamicQuorumParams, Governance, Proposal, Vote,
}
use lilnouns_monorepo.Subgraph.Store.{Store}
use lilnouns_monorepo.Subgraph.Helpers.{
  zero_address, new_account, new_delegate, new_proposal, new_vote, new_quorum_params,
  get_or_create_vote, get_or_create_delegate_with_null_option, get_or_create_dynamic_quorum_params,
  governance_of, get_or_create_account, get_or_create_delegate, get_or_create_proposal,
}

-- The entity that is found, or the new one.
abbrev pub found {ℓ} : {V : Type ℓ} → Option V → V → V
found none v = v
found (some w) v = w

-- The table with the new entity stored, if there was none.
abbrev pub stored {ℓ} : {V : Type ℓ} → Option V → String → V → Table V → Table V
stored none id v t = save id v t
stored (some w) id v t = t

abbrev pub account_of : String → Store → Account
account_of id s = found (load id s.accounts) (new_account id)

abbrev pub delegate_of : String → Store → Delegate
delegate_of id s = found (load id s.delegates) (new_delegate id)

abbrev pub proposal_of : String → Store → Proposal
proposal_of id s = found (load id s.proposals) (new_proposal id)

abbrev pub with_account : String → Store → Store
with_account id s = record s {
  accounts = stored (load id s.accounts) id (new_account id) s.accounts;
}

abbrev one_more_delegate : Governance → Governance
one_more_delegate g = record g { total_delegates = g.total_delegates +ℤ pos 1 }

-- The governance entity counts a new delegate, other than the zero address.
unfoldable pub delegate_counted : String → Option Delegate → Option Governance → Option Governance
delegate_counted id (some d) g = g
delegate_counted id none g =
    if str_eq id zero_address then g else some (one_more_delegate (governance_of g))

abbrev pub with_delegate : String → Store → Store
with_delegate id s = record s {
  delegates = stored (load id s.delegates) id (new_delegate id) s.delegates;
  governance = delegate_counted id (load id s.delegates) s.governance;
}

abbrev one_more_proposal : Governance → Governance
one_more_proposal g = record g { proposals = g.proposals +ℤ pos 1 }

abbrev pub proposal_counted : Option Proposal → Option Governance → Option Governance
proposal_counted (some p) g = g
proposal_counted none g = some (one_more_proposal (governance_of g))

abbrev pub with_proposal_count : String → Store → Store
with_proposal_count id s = record s {
  governance = proposal_counted (load id s.proposals) s.governance;
}

pub get_or_create_account_lem :
    (id : String) (s : Store)
    → get_or_create_account id true true s ≡ some (account_of id s, with_account id s)
unfolding get_or_create_account
get_or_create_account_lem id s = ground arith

pub get_or_create_delegate_lem :
    (id : String) (s : Store)
    → get_or_create_delegate id s ≡ some (delegate_of id s, with_delegate id s)
unfolding get_or_create_delegate delegate_counted
get_or_create_delegate_lem id s = ground arith

pub get_or_create_proposal_lem :
    (id : String) (s : Store)
    → get_or_create_proposal id true false s ≡ some (proposal_of id s, with_proposal_count id s)
unfolding get_or_create_proposal
get_or_create_proposal_lem id s = ground arith

-- A second look finds the same entity.
pub load-stored {ℓ} :
    {V : Type ℓ} (j id : String) (v : V) (t : Table V)
    → load j (stored (load id t) id v t)
      ≡ (if str_eq id j then some (found (load id t) v) else load j t)
load-stored j id v t = elim (Option-cases (load id t)) [
  | inl h ↦ ground (arith, load-save j id v t)
  | inr (w, h) ↦ ground (arith, eq_iff id j)
]

pub account_of-id :
    (id : String) (s : Store) → IsKeyed Account.id s.accounts → (account_of id s).id ≡ id
account_of-id id s k = elim (Option-cases (load id s.accounts)) [
  | inl h ↦ ground arith
  | inr (a, h) ↦ ground (arith, k id a h)
]

pub delegate_of-id :
    (id : String) (s : Store) → IsKeyed Delegate.id s.delegates → (delegate_of id s).id ≡ id
delegate_of-id id s k = elim (Option-cases (load id s.delegates)) [
  | inl h ↦ ground arith
  | inr (d, h) ↦ ground (arith, k id d h)
]

pub load-stored_other {ℓ} :
    {V : Type ℓ} (j id : String) (v : V) (t : Table V)
    → str_eq id j ≡ false
    → load j (stored (load id t) id v t) ≡ load j t
load-stored_other j id v t h = rw (load-stored, h)

-- Two entities that are looked up one after the other, each stored if it is new.
module _ {ℓ} {V : Type ℓ} (new : String → V) (a b : String) (t : Table V) where
  abbrev pub both_stored : Table V
  both_stored = let t' = stored (load a t) a (new a) t in stored (load b t') b (new b) t'

  -- The second look finds what stood there before, also if it is the first entity again.
  pub found-stored :
      found (load b (stored (load a t) a (new a) t)) (new b) ≡ found (load b t) (new b)
  found-stored = ground (arith, load-stored b a (new a) t, eq_iff a b)

  -- Both saved: the second save wins.
  pub load-save_both :
      (j : String) (x y : V)
      → load j (save b y (save a x both_stored))
        ≡ (if str_eq b j then some y else if str_eq a j then some x else load j t)
  load-save_both j x y =
      rw (load-save, load-save)
        (elim (Bool-cases (str_eq b j)) [
          | inl h ↦ rw h
          | inr h ↦ rw h (elim (Bool-cases (str_eq a j)) [
            | inl i ↦ rw i
            | inr i ↦ rw i (load-stored_other j b _ _ h ∙ load-stored_other j a _ _ i)
          ])
        ])

abbrev pub vote_of : String → Store → Vote
vote_of id s = found (load id s.votes) (new_vote id)

pub get_or_create_vote_lem :
    (id : String) (s : Store) → get_or_create_vote id true false s ≡ some (vote_of id s, s)
unfolding get_or_create_vote
get_or_create_vote_lem id s = ground arith

-- Without `createIfNotFound` the store is only read.
pub find_delegate_lem :
    (id : String) (s : Store)
    → get_or_create_delegate_with_null_option id false true s ≡ some (load id s.delegates, s)
unfolding get_or_create_delegate_with_null_option
find_delegate_lem id s = ground arith

-- The block from which dynamic quorum is used: the stored one, or else the block at hand.
abbrev pub start_of : Option ℤ → Option ℤ → Option ℤ
start_of (some b) block = some b
start_of none block = block

abbrev pub params_of : Option ℤ → Option DynamicQuorumParams → DynamicQuorumParams
params_of block none = new_quorum_params block
params_of block (some p) = record p {
  dynamic_quorum_start_block = start_of p.dynamic_quorum_start_block block;
}

abbrev pub with_params : Option ℤ → Store → Store
with_params block s = record s { quorum_params = some (params_of block s.quorum_params) }

pub get_or_create_dynamic_quorum_params_lem :
    (block : Option ℤ) (s : Store)
    → get_or_create_dynamic_quorum_params block s
      ≡ some (params_of block s.quorum_params, with_params block s)
unfolding get_or_create_dynamic_quorum_params
get_or_create_dynamic_quorum_params_lem block s = ground arith

pub get_or_create_proposal_found :
    (id : String) (s : Store) (p : Proposal)
    → load id s.proposals ≡ some p
    → get_or_create_proposal id true false s ≡ some (p, s)
unfolding get_or_create_proposal
get_or_create_proposal_found id s p h = ground arith
