-- ===== src/Web/SnapshotVotes/Agreement.antt =====
-- The status on the list of proposals and on a proposal's page.
use lilnouns_monorepo.Base.{◌≡◌, refl, Option, none, some, String, List, if◌then◌else◌, arith}
use lilnouns_monorepo.Web.Proposals.{ProposalState, active, metagov_pending}
use lilnouns_monorepo.Web.SnapshotVotes.{
  SnapshotProposal, BigNounProposal, DelegateNouns, SnapshotBallot, big_nouns_prop_status,
  is_proposal_active, prepare_snapshot, status_by, page_status, has_no_count, SnapshotState,
  is_active, is_closed, is_pending, is_other,
}

-- The status that the list shows where there is no snapshot.
abbrev pub without_snapshot : Option SnapshotProposal → ProposalState → ProposalState
without_snapshot (some s) status = status
without_snapshot none active = metagov_pending
without_snapshot none status = status

switches_agree :
    (state : SnapshotState) (status : ProposalState)
    → status_by state status ≡ page_status status state
unfolding status_by page_status
switches_agree is_active status = ground arith
switches_agree is_closed status = refl
switches_agree is_pending status = refl
switches_agree is_other status = refl

waiting_lem :
    (status : ProposalState)
    → (if is_proposal_active status then metagov_pending else status) ≡ without_snapshot none status
unfolding is_proposal_active
waiting_lem active = refl
waiting_lem status = refl

-- The list and the page show the same status of a proposal that has no count of a snapshot, but for an active
-- one without a snapshot, which is active on the page, and waiting for the snapshot on the list.
pub big_nouns_prop_status-prepare_snapshot :
    (lower_case : String → String) (delegates : List DelegateNouns) (ballots : List SnapshotBallot)
    (p : BigNounProposal) (s : Option SnapshotProposal)
    → p.snapshot_for_count ≡ none
    → (big_nouns_prop_status p s).0
      ≡ without_snapshot s (prepare_snapshot lower_case delegates ballots p.status s).prop_status
unfolding big_nouns_prop_status prepare_snapshot has_no_count
big_nouns_prop_status-prepare_snapshot lower_case delegates ballots p none h = waiting_lem p.status
big_nouns_prop_status-prepare_snapshot lower_case delegates ballots p (some s) h =
    rw h (switches_agree s.state p.status)
