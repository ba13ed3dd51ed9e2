-- ===== src/Web/SnapshotVotes.antt =====
-- The vote of the DAO on a proposal of the other one: bigNounsPropStatus of components/Proposals, and
-- prepareSnapshot of pages/NounsVote, with utils/getNounsVotes.ts. Dates, which a library formats, are
-- seconds.
pub mod Agreement
use lilnouns_monorepo.Base.{
  ℕ, ◌==◌, str_eq, Bool, true, false, ◌&&◌, ◌||◌, not, Option, none, some, String, List, [], ◌∷◌,
  ◌++◌, map, keep, get_elem?, if◌then◌else◌,
}
use lilnouns_monorepo.Base.Table.{Table, load, save}
use lilnouns_monorepo.Web.Proposals.{
  ProposalState, pending, active, metagov_active, metagov_closed, metagov_pending,
}

-- `state`, with what a value of no other name would be.
pub data SnapshotState : Type 0 where
  is_active is_closed is_pending is_other : SnapshotState

pub record SnapshotProposal : Type 0 where
  pub id : String
  pub state : SnapshotState
  pub start : ℕ
  pub end : ℕ
  pub scores : List ℕ

-- Of a proposal, what is read or written here.
pub record BigNounProposal : Type 0 where
  pub status : ProposalState
  pub snapshot_proposal_id : Option String
  pub snapshot_end : Option ℕ
  pub snapshot_for_count : Option ℕ

is_proposal_active : ProposalState → Bool
is_proposal_active active = true
is_proposal_active other = false

is_proposal_pending : ProposalState → Bool
is_proposal_pending pending = true
is_proposal_pending other = false

-- The `switch` of `bigNounsPropStatus`.
status_by : SnapshotState → ProposalState → ProposalState
unfolding is_proposal_active is_proposal_pending
status_by is_active status =
    if is_proposal_pending status || is_proposal_active status then metagov_active else status
status_by is_closed status = if is_proposal_active status then metagov_closed else status
status_by is_pending status = pending
status_by is_other status = status

-- `!proposal.snapshotForCount`
has_no_count : Option ℕ → Bool
has_no_count none = true
has_no_count (some n) = n == 0

end_noted : SnapshotState → ℕ → BigNounProposal → BigNounProposal
end_noted is_active end p = record p { snapshot_end = some end }
end_noted is_closed end p = p
end_noted is_pending end p = p
end_noted is_other end p = p

-- The status, and the proposal with what is written to it. The comparisons of the scores, which are
-- written with `==`, write nothing.
unfoldable pub big_nouns_prop_status :
    BigNounProposal → Option SnapshotProposal → ProposalState × BigNounProposal
unfolding status_by has_no_count end_noted is_proposal_active
big_nouns_prop_status p none =
    (if is_proposal_active p.status then metagov_pending else p.status, p)
big_nouns_prop_status p (some s) =
    if has_no_count p.snapshot_for_count
    then (
      status_by s.state p.status,
      end_noted s.state s.end (record p { snapshot_proposal_id = some s.id }),
    )
    else (p.status, p)

pub record GraphVote : Type 0 where
  pub support_detailed : ℕ
  pub nouns_represented : List String

flatten : List (List String) → List String
flatten [] = []
flatten (xs ∷ xss) = xs ++ flatten xss

unfoldable pub get_noun_votes : List GraphVote → ℕ → List String
unfolding flatten
get_noun_votes votes support = flatten (
    map (λ (v : GraphVote). v.nouns_represented)
      (keep (λ (v : GraphVote). v.support_detailed == support) votes))

pub record SnapshotBallot : Type 0 where
  pub voter : String
  pub vp : ℕ
  pub choice : ℕ

pub record SnapshotVoter : Type 0 where
  pub voter : String
  pub vp : ℕ
  pub choice : ℕ
  pub noun_ids : List String

pub record DelegateNouns : Type 0 where
  pub id : String
  pub nouns_represented : List String

pub record SnapshotProp : Type 0 where
  pub for_snapshot_noun_ids : List String
  pub against_snapshot_noun_ids : List String
  pub abstain_snapshot_noun_ids : List String
  pub snapshot_prop_end_date : Option ℕ
  pub snapshot_prop_start_date : Option ℕ
  pub prop_status : ProposalState
  pub snapshot_for_count_amt : Option ℕ
  pub snapshot_against_count_amt : Option ℕ
  pub snapshot_abstain_count_amt : Option ℕ
  pub snapshot_voters : List SnapshotVoter

module _ (lower_case : String → String) (delegates : List DelegateNouns) where
  represented_by : String → List String
  unfolding flatten
  represented_by voter = flatten (
      map (λ (d : DelegateNouns). d.nouns_represented)
        (keep (λ (d : DelegateNouns). str_eq d.id (lower_case voter)) delegates))

  first_ballot : SnapshotBallot → Option SnapshotVoter → SnapshotVoter
  unfolding represented_by
  first_ballot b none = record {
    voter = b.voter;
    vp = b.vp;
    choice = b.choice;
    noun_ids = represented_by b.voter;
  }
  first_ballot b (some v) = v

  -- Of several ballots of a voter, the first counts.
  unfoldable pub snap_votes : Table SnapshotVoter → List SnapshotBallot → Table SnapshotVoter
  unfolding first_ballot
  snap_votes res [] = res
  snap_votes res (b ∷ bs) = snap_votes (save b.voter (first_ballot b (load b.voter res)) res) bs

values : Table SnapshotVoter → List SnapshotVoter
values [] = []
values ((k, v) ∷ t) = v ∷ values t

of_choice : ℕ → List SnapshotVoter → List String
unfolding flatten
of_choice n voters =
    flatten
      (map (λ (v : SnapshotVoter). v.noun_ids) (keep (λ (v : SnapshotVoter). v.choice == n) voters))

-- The `switch` of `prepareSnapshot`.
page_status : ProposalState → SnapshotState → ProposalState
unfolding is_proposal_active is_proposal_pending
page_status status is_active =
    if is_proposal_pending status
    then metagov_active
    else if is_proposal_active status
    then metagov_active
    else status
page_status status is_closed = if is_proposal_active status then metagov_closed else status
page_status status is_pending = pending
page_status status is_other = status

unfoldable pub prepare_snapshot :
    (String → String)
    → List DelegateNouns
    → List SnapshotBallot
    → ProposalState
    → Option SnapshotProposal
    → SnapshotProp
unfolding page_status snap_votes values of_choice
prepare_snapshot lower_case delegates ballots status none = record {
  for_snapshot_noun_ids = [];
  against_snapshot_noun_ids = [];
  abstain_snapshot_noun_ids = [];
  snapshot_prop_end_date = none;
  snapshot_prop_start_date = none;
  prop_status = status;
  snapshot_for_count_amt = some 0;
  snapshot_against_count_amt = some 0;
  snapshot_abstain_count_amt = some 0;
  snapshot_voters = [];
}
prepare_snapshot lower_case delegates ballots status (some s) =
    let voters = values (snap_votes lower_case delegates [] ballots) in
    (record {
      for_snapshot_noun_ids = of_choice 1 voters;
      against_snapshot_noun_ids = of_choice 2 voters;
      abstain_snapshot_noun_ids = of_choice 3 voters;
      snapshot_prop_end_date = some s.end;
      snapshot_prop_start_date = some s.start;
      prop_status = page_status status s.state;
      snapshot_for_count_amt = get_elem? s.scores 0;
      snapshot_against_count_amt = get_elem? s.scores 1;
      snapshot_abstain_count_amt = get_elem? s.scores 2;
      snapshot_voters = voters;
    })
