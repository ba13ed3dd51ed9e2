-- ===== src/Subgraph/Dao/Proposals.antt =====
-- What the governor's other events write of a proposal and of the governance entity.
use lilnouns_monorepo.Base.{
  String, ◌≡◌, refl, ap, ◌∙◌, none, some, if◌then◌else◌, Option-cases, inl, inr, arith,
}
use lilnouns_monorepo.Base.Int.{ℤ, pos, ◌+ℤ◌, ◌-ℤ◌, leb_ℤ, int_laws}
use lilnouns_monorepo.Base.Table.{load, load-save_same, IsKeyed}
use lilnouns_monorepo.Subgraph.Host.{GraphTs}
use lilnouns_monorepo.Subgraph.Entities.{Proposal, Governance, active, pending, queued, executed}
use lilnouns_monorepo.Subgraph.Events.{ProposalCreated, ProposalEvent, ProposalQueued}
use lilnouns_monorepo.Subgraph.Store.{Store, exec, ◌>>=◌, ◌>>◌}
use lilnouns_monorepo.Subgraph.Helpers.{governance_of, get_governance_entity}
use lilnouns_monorepo.Subgraph.Helpers.Found.{
  with_proposal_count, get_or_create_proposal_found, get_or_create_proposal_lem, proposal_of,
  find_delegate_lem, get_or_create_delegate_lem, delegate_of, delegate_counted,
  get_or_create_dynamic_quorum_params_lem, params_of,
}
use lilnouns_monorepo.Subgraph.Title.{extract_title}
use lilnouns_monorepo.Subgraph.Dao.{
  unescape_lines, handle_proposal_created_with_requirements, handle_proposal_queued,
  handle_proposal_executed,
}
use lilnouns_monorepo.Subgraph.Dao.Ballot.{Ballot, with_ballot, log_unless_found_lem}

-- The governance entity with a number of queued proposals added.
abbrev pub with_queued : ℤ → Governance → Governance
with_queued n g = record g { proposals_queued = g.proposals_queued +ℤ n }

proposal_of-id :
    (id : String) (s : Store) → IsKeyed Proposal.id s.proposals → (proposal_of id s).id ≡ id
proposal_of-id id s k = elim (Option-cases (load id s.proposals)) [
  | inl h ↦ ground arith
  | inr (p, h) ↦ ground (arith, k id p h)
]

module _ (g : GraphTs) where
  module _ (e : ProposalQueued) (s : Store) where
    -- Queueing marks the proposal queued, with its execution time, and adds one to the queued
    -- proposals; the count of all proposals stays, also if the proposal is new.
    pub proposal_queued :
        IsKeyed Proposal.id s.proposals
        → (load (g.to_string e.id) (exec (handle_proposal_queued g e) s).proposals
            ≡ some (record (proposal_of (g.to_string e.id) s) {
              status = some queued;
              execution_eta = some e.eta;
            }))
          × ((exec (handle_proposal_queued g e) s).governance
              ≡ some (with_queued (pos 1) (governance_of s.governance)))
    unfolding handle_proposal_queued get_governance_entity
    proposal_queued k =
        rw (exec, ◌>>=◌, get_or_create_proposal_lem, ◌>>◌)
          (load-save_same _ _ _ s.proposals (proposal_of-id _ s k), refl)

  executed_lem :
      (e : ProposalEvent) (s : Store) (key : String) (p : Proposal) (n : Governance)
      → g.to_string e.id ≡ key
      → p.id ≡ key
      → load key s.proposals ≡ some p
      → s.governance ≡ some n
      → (load key (exec (handle_proposal_executed g e) s).proposals
          ≡ some (record p { status = some executed; execution_eta = none }))
        × ((exec (handle_proposal_executed g e) s).governance
            ≡ some (record n { proposals_queued = n.proposals_queued -ℤ pos 1 }))
  unfolding handle_proposal_executed get_governance_entity
  executed_lem e s key p n same id h at =
      rw (exec, ◌>>=◌, same)
        (rw (get_or_create_proposal_found key s p h, ◌>>◌, at)
          (load-save_same key p.id _ s.proposals id, refl))

  -- A proposal that is queued and then executed is marked executed and has no execution time left,
  -- and the governance entity is as before the two events (a new proposal is not counted by them).
  pub queued-executed :
      (e : ProposalQueued) (f : ProposalEvent) (s : Store)
      → f.id ≡ e.id
      → IsKeyed Proposal.id s.proposals
      → let t = exec (handle_proposal_executed g f) (exec (handle_proposal_queued g e) s) in
        (load (g.to_string e.id) t.proposals
          ≡ some (record (proposal_of (g.to_string e.id) s) {
            status = some executed;
            execution_eta = none;
          }))
        × (t.governance ≡ some (governance_of s.governance))
  queued-executed e f s same k =
      let q = proposal_queued e s k in
      let x =
        executed_lem f (exec (handle_proposal_queued g e) s) (g.to_string e.id) _ _
          (ap g.to_string same) (proposal_of-id (g.to_string e.id) s k) q.0 q.1 in
      (
        x.0,
        x.1
            ∙ ap (λ n. some (record (governance_of s.governance) { proposals_queued = n }))
                (back _),
      )
    where
      back : (x : ℤ) → (x +ℤ pos 1) -ℤ pos 1 ≡ x
      back x = grind int_laws

  module _ (e : ProposalCreated) (s : Store) where
    abbrev proposal_id : String
    proposal_id = g.to_string e.id

    -- The snapshot that a new proposal takes of the supply and of the quorum parameters.
    abbrev pub opening : Ballot
    opening =
        let params = params_of none s.quorum_params in
        record {
          id = (proposal_of proposal_id s).id;
          for_votes = pos 0;
          against_votes = pos 0;
          abstain_votes = pos 0;
          status = if leb_ℤ e.start_block e.at.number then active else pending;
          created_block = e.at.number;
          quorum_votes = e.quorum_votes;
          total_supply = (governance_of s.governance).total_token_holders;
          min_bps = params.min_quorum_votes_bps;
          max_bps = params.max_quorum_votes_bps;
          coefficient = params.quorum_coefficient;
        }

    -- The rest of a new proposal, from the event and the proposer.
    abbrev pub described : Proposal
    described = record (proposal_of proposal_id s) {
      proposer = some (delegate_of (g.to_hex e.proposer) s).id;
      targets = some e.targets;
      values = some e.values;
      signatures = some e.signatures;
      calldatas = some e.calldatas;
      created_timestamp = some e.at.timestamp;
      created_transaction_hash = some e.at.hash;
      start_block = some e.start_block;
      end_block = some e.end_block;
      proposal_threshold = some e.proposal_threshold;
      title = some (extract_title (unescape_lines e.description));
      description = some (unescape_lines e.description);
    }

    supply_kept :
        (governance_of (
          delegate_counted
            (g.to_hex e.proposer)
            (load (g.to_hex e.proposer) s.delegates)
            (with_proposal_count proposal_id s).governance)).total_token_holders
        ≡ (governance_of s.governance).total_token_holders
    unfolding delegate_counted
    supply_kept = ground arith

    -- A created proposal is stored with no votes, active if its start block is reached and pending
    -- otherwise, with the supply and the quorum parameters of the store before the event.
    pub proposal_created :
        IsKeyed Proposal.id s.proposals
        → load proposal_id (exec (handle_proposal_created_with_requirements g e) s).proposals
          ≡ some (with_ballot opening described)
    unfolding handle_proposal_created_with_requirements get_governance_entity
    proposal_created k =
        rw (get_or_create_proposal_lem, exec, ◌>>=◌)
          (rw (find_delegate_lem, ◌>>=◌)
            (rw (log_unless_found_lem, ◌>>=◌)
              (rw (get_or_create_delegate_lem, ◌>>=◌, ◌>>◌)
                (rw (get_or_create_dynamic_quorum_params_lem, ◌>>=◌)
                  (load-save_same _ _ _ s.proposals (proposal_of-id _ s k)
                    ∙ ap (λ t. some (with_ballot (record opening { total_supply = t }) described))
                        supply_kept)))))
