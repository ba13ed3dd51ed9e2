-- ===== src/Subgraph/Tests/Governor.antt =====
-- Proposals, votes and the quorum parameters at concrete inputs.
use lilnouns_monorepo.Base.{◌≡◌, refl, ap, ◌∷◌, [], some, none}
use lilnouns_monorepo.Base.Int.{pos, ◌+ℤ◌, ◌*ℤ◌}
use lilnouns_monorepo.Base.Chars.{codes}
use lilnouns_monorepo.Base.Table.{load, save, IsKeyed}
use lilnouns_monorepo.Subgraph.Entities.{Proposal, pending, active, executed, queued}
use lilnouns_monorepo.Subgraph.Events.{
  VoteCast, ProposalCreated, ProposalQueued, ProposalEvent, QuorumSet,
}
use lilnouns_monorepo.Subgraph.Store.{Store, exec}
use lilnouns_monorepo.Subgraph.Helpers.{new_proposal, governance_of}
use lilnouns_monorepo.Subgraph.Helpers.Found.{proposal_of}
use lilnouns_monorepo.Subgraph.Title.{extract_title}
use lilnouns_monorepo.Subgraph.Dao.{
  unescape_lines, handle_vote_cast, handle_proposal_queued, handle_proposal_executed,
}
use lilnouns_monorepo.Subgraph.Dao.Ballot.{Ballot, with_ballot, counted}
use lilnouns_monorepo.Subgraph.Quorum.{dynamic_quorum_votes}
use lilnouns_monorepo.Subgraph.Dao.Votes.{vote_counted, votes_tallied, total, run}
use lilnouns_monorepo.Subgraph.Dao.Proposals.{proposal_queued, queued-executed, opening, described}
use lilnouns_monorepo.Subgraph.Tests.{host, store, at, alice, one-IsKeyed}

abbrev fresh : Ballot
fresh = record {
  id = "|";
  for_votes = pos 0;
  against_votes = pos 0;
  abstain_votes = pos 0;
  status = pending;
  created_block = pos 90;
  quorum_votes = pos 7;
  total_supply = pos 200;
  min_bps = pos 1000;
  max_bps = pos 1500;
  coefficient = pos 1000000;
}

abbrev proposed : Store
proposed = record store { proposals = save "|" (with_ballot fresh (new_proposal "|")) [] }

-- The same with dynamic quorum since block 80.
abbrev dynamic : Store
dynamic = record proposed {
  quorum_params = some (record {
    min_quorum_votes_bps = pos 1000;
    max_quorum_votes_bps = pos 1500;
    quorum_coefficient = pos 1000000;
    dynamic_quorum_start_block = some (pos 80);
  });
}

abbrev against : VoteCast
against = record {
  at = at;
  voter = alice;
  proposal_id = pos 1;
  support = 0;
  votes = pos 3;
  reason = "";
}

abbrev in_favour : VoteCast
in_favour = record against { support = 1; votes = pos 4 }

vote_counted_example :
    load "|" (exec (handle_vote_cast host against) dynamic).proposals
    ≡ some (
        with_ballot
          (record fresh { against_votes = pos 3; quorum_votes = pos 23; status = active })
          (new_proposal "|"))
unfolding host load save counted dynamic_quorum_votes ◌+ℤ◌ ◌*ℤ◌
vote_counted_example =
    vote_counted host dynamic against fresh (new_proposal "|") (pos 23) refl refl refl

votes_tallied_example :
    (after : Ballot) × (load "|" (run host (against ∷ in_favour ∷ against ∷ []) proposed).proposals
      ≡ some (with_ballot after (new_proposal "|")))
    × (after.for_votes ≡ pos 0 +ℤ total 1 (against ∷ in_favour ∷ against ∷ []))
    × (after.against_votes ≡ pos 0 +ℤ total 0 (against ∷ in_favour ∷ against ∷ []))
    × (after.abstain_votes ≡ pos 0 +ℤ total 2 (against ∷ in_favour ∷ against ∷ []))
unfolding host load save
votes_tallied_example =
    votes_tallied host (against ∷ in_favour ∷ against ∷ []) proposed fresh (new_proposal "|")
      (refl, (refl, (refl, tt))) refl refl

-- Two votes of three against, and one of four in favour.
total_example :
    (total 0 (against ∷ in_favour ∷ against ∷ []) ≡ pos 6)
    × (total 1 (against ∷ in_favour ∷ against ∷ []) ≡ pos 4)
unfolding total ◌+ℤ◌
total_example = (refl, refl)

abbrev second : ProposalCreated
second = record {
  at = at;
  id = pos 2;
  proposer = alice;
  targets = [];
  values = [];
  signatures = [];
  calldatas = [];
  start_block = pos 120;
  end_block = pos 150;
  proposal_threshold = pos 1;
  quorum_votes = pos 2;
  description = codes "# Two";
}

proposals-IsKeyed : IsKeyed Proposal.id proposed.proposals
proposals-IsKeyed = one-IsKeyed Proposal.id (with_ballot fresh (new_proposal "|"))

-- The snapshot is of one token, and the proposal waits for its start block.
opening_example :
    ((opening host second proposed).total_supply ≡ pos 1)
    × ((opening host second proposed).status ≡ pending)
    × ((described host second proposed).title ≡ some (codes "Two"))
unfolding extract_title unescape_lines
opening_example = (refl, refl, refl)

abbrev queueing : ProposalQueued
queueing = record { at = at; id = pos 1; eta = pos 500 }

abbrev executing : ProposalEvent
executing = record { at = at; id = pos 1 }

queued-executed_example :
    let t =
      exec
        (handle_proposal_executed host executing)
        (exec (handle_proposal_queued host queueing) proposed) in
    (load "|" t.proposals
      ≡ some (record (proposal_of "|" proposed) { status = some executed; execution_eta = none }))
    × (t.governance ≡ some (governance_of proposed.governance))
unfolding host
queued-executed_example = queued-executed host queueing executing proposed refl proposals-IsKeyed

-- A proposal that the store meets when it is queued is stored, and not counted.
queued_uncounted_example :
    let t = exec (handle_proposal_queued host (record queueing { id = pos 3 })) proposed in
    (load "|||" t.proposals
      ≡ some (record (new_proposal "|||") { status = some queued; execution_eta = some (pos 500) }))
    × ((governance_of t.governance).proposals ≡ pos 0)
unfolding host load save
queued_uncounted_example =
    let q = proposal_queued host (record queueing { id = pos 3 }) proposed proposals-IsKeyed in
    (q.0, ap (λ n. (governance_of n).proposals) q.1)

abbrev minimum : QuorumSet
minimum = record { at = at; new_value = pos 1000 }
