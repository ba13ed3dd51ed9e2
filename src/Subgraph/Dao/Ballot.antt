-- ===== src/Subgraph/Dao/Ballot.antt =====
-- The ballot of a proposal, and what the steps of `handleVoteCast` make of it.
use lilnouns_monorepo.Base.{
  ℕ, zero, suc, String, ◌≡◌, refl, ap, ◌<◌, false, Option, some, none, if◌then◌else◌, ◌==◌,
  Bool-cases, inl, inr, List, [], ◌∷◌, ◌++◌, arith,
}
use lilnouns_monorepo.Base.Int.{ℤ, ◌+ℤ◌, ltb_ℤ}
use lilnouns_monorepo.Base.Table.{save}
use lilnouns_monorepo.Subgraph.Host.{GraphTs}
use lilnouns_monorepo.Subgraph.Entities.{
  Delegate, DynamicQuorumParams, Proposal, ProposalStatus, pending, cancelled, vetoed, executed,
  queued, active,
}
use lilnouns_monorepo.Subgraph.Store.{Store, LogEntry, M, ⊤, pure, save_proposal, ◌>>=◌, required}
use lilnouns_monorepo.Subgraph.Helpers.Found.{params_of, start_of}
use lilnouns_monorepo.Subgraph.Quorum.{dynamic_quorum_votes}
use lilnouns_monorepo.Subgraph.Dao.{
  log_unless_found, tally, using_dynamic_quorum, activate, with_dynamic_quorum,
}
use lilnouns_monorepo.Subgraph.Dao.Params.{start_block}

-- The fields of a proposal that a vote reads, as `handleProposalCreated` sets them.
pub record Ballot : Type 0 where
  pub id : String
  pub for_votes : ℤ
  pub against_votes : ℤ
  pub abstain_votes : ℤ
  pub status : ProposalStatus
  pub created_block : ℤ
  pub quorum_votes : ℤ
  pub total_supply : ℤ
  pub min_bps : ℤ
  pub max_bps : ℤ
  pub coefficient : ℤ

-- A proposal whose ballot is set.
abbrev pub with_ballot : Ballot → Proposal → Proposal
with_ballot b p = record p {
  id = b.id;
  for_votes = some b.for_votes;
  against_votes = some b.against_votes;
  abstain_votes = some b.abstain_votes;
  status = some b.status;
  created_block = some b.created_block;
  quorum_votes = some b.quorum_votes;
  total_supply = some b.total_supply;
  min_quorum_votes_bps = some b.min_bps;
  max_quorum_votes_bps = some b.max_bps;
  quorum_coefficient = some b.coefficient;
}

abbrev pub opened : ProposalStatus → ProposalStatus
opened pending = active
opened s = s

-- The log after a look for a delegate that may be missing.
abbrev pub logged : Option Delegate → String → String → String → List LogEntry → List LogEntry
logged (some d) message id hash errors = errors
logged none message id hash errors =
    errors ++ (record { message = message; args = id ∷ hash ∷ [] }) ∷ []

pub log_unless_found_lem :
    (d : Option Delegate) (message id hash : String) (s : Store)
    → log_unless_found d message id hash s
      ≡ some (tt, record s { errors = logged d message id hash s.errors })
log_unless_found_lem (some d) message id hash s = refl
log_unless_found_lem none message id hash s = refl

-- The specification: the ballot after a vote, with the quorum that is then needed.
abbrev pub voted : ℕ → ℤ → ℤ → Ballot → Ballot
voted support votes quorum b = record b {
  for_votes = if support == 1 then b.for_votes +ℤ votes else b.for_votes;
  against_votes = if support == 0 then b.against_votes +ℤ votes else b.against_votes;
  abstain_votes = if support == 2 then b.abstain_votes +ℤ votes else b.abstain_votes;
  status = opened b.status;
  quorum_votes = quorum;
}

-- The ballot once the votes are counted.
unfoldable pub counted : ℕ → ℤ → Ballot → Ballot
counted support votes b = record b {
  for_votes = if support == 1 then b.for_votes +ℤ votes else b.for_votes;
  against_votes = if support == 0 then b.against_votes +ℤ votes else b.against_votes;
  abstain_votes = if support == 2 then b.abstain_votes +ℤ votes else b.abstain_votes;
}

other : (n k : ℕ) → k < 3 → (suc (suc (suc n)) == k) ≡ false
other n k h = ground arith

pub tally_lem :
    (support : ℕ) (votes : ℤ) (b : Ballot) (p : Proposal) (s : Store)
    → tally (with_ballot b p) support votes s ≡ some (with_ballot (counted support votes b) p, s)
unfolding tally counted
tally_lem zero votes b p s = refl
tally_lem (suc zero) votes b p s = refl
tally_lem (suc (suc zero)) votes b p s = refl
tally_lem (suc (suc (suc n))) votes b p s =
    rw (other n 0 (omega arith), other n 1 (omega arith), other n 2 (omega arith))

activate_status :
    (st : ProposalStatus) (p : Proposal) (s : Store)
    → activate (record p { status = some st }) s ≡ some (record p { status = some (opened st) }, s)
unfolding activate
activate_status pending p s = refl
activate_status cancelled p s = refl
activate_status vetoed p s = refl
activate_status executed p s = refl
activate_status queued p s = refl
activate_status active p s = refl

activate_lem :
    (b : Ballot) (p : Proposal) (s : Store)
    → activate (with_ballot b p) s ≡ some (with_ballot (record b { status = opened b.status }) p, s)
activate_lem b p s = activate_status b.status (with_ballot b p) s

pub start_block-params_of :
    (o : Option DynamicQuorumParams) → (params_of none o).dynamic_quorum_start_block ≡ start_block o
start_block-params_of none = refl
start_block-params_of (some p) = by_start p.dynamic_quorum_start_block
  where
    by_start : (o : Option ℤ) → start_of o none ≡ o
    by_start none = refl
    by_start (some b) = refl

module _ (g : GraphTs) where
  -- The quorum that a ballot needs once its votes are counted: the stored one, or, if dynamic quorum
  -- is used since a block before the proposal's, the dynamic one.
  abbrev pub quorum_after : Option ℤ → Ballot → Option ℤ
  quorum_after none b = some b.quorum_votes
  quorum_after (some start) b =
      if ltb_ℤ start b.created_block
      then dynamic_quorum_votes g b.against_votes b.total_supply b.min_bps b.max_bps b.coefficient
      else some b.quorum_votes

  -- The end of the handler, from the counted proposal on.
  abbrev pub finish : Option ℤ → Proposal → M ⊤
  finish start counted = do
    using_dynamic ← using_dynamic_quorum start counted
    updated ← if using_dynamic then with_dynamic_quorum g counted else pure counted
    saved ← activate updated
    save_proposal saved

  abbrev pub finished : Ballot → ℤ → Proposal → Proposal
  finished b q p = with_ballot (record b { quorum_votes = q; status = opened b.status }) p

  abbrev pub finish_store : ℤ → Ballot → Proposal → Store → Store
  finish_store q b p s = record s { proposals = save b.id (finished b q p) s.proposals }

  pub finish-some :
      (start : Option ℤ) (b : Ballot) (p : Proposal) (q : ℤ) (s : Store)
      → quorum_after start b ≡ some q
      → finish start (with_ballot b p) s ≡ some (tt, finish_store q b p s)
  unfolding using_dynamic_quorum with_dynamic_quorum
  finish-some none b p q s h =
      rw (activate_lem, ◌>>=◌) (ap (λ x. some (tt, finish_store x b p s)) (cc h))
  finish-some (some start) b p q s h = elim (Bool-cases (ltb_ℤ start b.created_block)) [
    | inl used ↦
        rw (used, ◌>>=◌)
          (let dynamic : dynamic_quorum_votes g b.against_votes b.total_supply b.min_bps b.max_bps
                  b.coefficient
                ≡ some q =
              rw used at h in
            rw (dynamic, required, ◌>>=◌)
              (rw (activate_lem (record b { quorum_votes = q }) p, ◌>>=◌)))
    | inr static ↦
        rw (static, ◌>>=◌)
          (let same : some b.quorum_votes ≡ some q = rw static at h in
            rw (activate_lem, ◌>>=◌) (ap (λ x. some (tt, finish_store x b p s)) (cc same)))
  ]
