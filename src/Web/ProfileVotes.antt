-- ===== src/Web/ProfileVotes.antt =====
-- propLot/hooks/useProfileGovernanceData.ts: the proposals of a profile by how it voted. The proposals are
-- those that the queries answer, and what a text search finds in the body of a snapshot is a parameter.
pub mod Categories
use lilnouns_monorepo.Base.{
  ℕ, ◌==◌, str_eq, Bool, true, false, Option, none, some, String, List, [], ◌∷◌, ◌++◌, map,
  if◌then◌else◌,
}
use lilnouns_monorepo.Base.Table.{Table, load, save}

-- `TabFilterOptionValues`
pub data TabFilterOption : Type 0 where
  yes_votes no_votes abstained submitted : TabFilterOption

abbrev pub tab_value : TabFilterOption → String
tab_value yes_votes = "Yes"
tab_value no_votes = "NO"
tab_value abstained = "ABSTAINED"
tab_value submitted = "SUBMITTED"

-- A proposal as the subgraph answers it, of which the hook keeps the formatted one: here its id, its
-- proposer and its block.
pub record ProposalOf : Type 0 where
  pub id : String
  pub proposer : String
  pub created_block : ℕ

pub data ProposalType : Type 0 where
  lil_noun big_noun : ProposalType

pub record VotedProposal : Type 0 where
  pub kind : ProposalType
  pub proposal : ProposalOf
  pub created_at : ℕ
  pub voted : Option ℕ
  pub reason : Option String

pub record LilNounVote : Type 0 where
  pub proposal : ProposalOf
  pub support_detailed : ℕ
  pub reason : Option String

pub record SnapshotVote : Type 0 where
  pub choice : ℕ
  pub reason : Option String
  pub body : String

pub record Voted : Type 0 where
  pub voted : ℕ
  pub reason : String

-- `reason || ''`
or_empty : Option String → String
or_empty none = ""
or_empty (some s) = s

-- The entries are keyed by the names of the values, which for the first is not the value.
abbrev pub initial_categories : Table (List VotedProposal)
initial_categories = ("YES", []) ∷ ("NO", []) ∷ ("ABSTAINED", []) ∷ ("SUBMITTED", []) ∷ []

abbrev pub or_no_entry : Option (List VotedProposal) → List VotedProposal
or_no_entry none = []
or_no_entry (some ps) = ps

-- `acc[key] = [...(acc[key] || []), curr]`
file_under :
    TabFilterOption → VotedProposal → Table (List VotedProposal) → Table (List VotedProposal)
file_under tab p acc = save (tab_value tab) (or_no_entry (load (tab_value tab) acc) ++ p ∷ []) acc

file_if :
    Bool → TabFilterOption → VotedProposal → Table (List VotedProposal) → Table (List VotedProposal)
unfolding file_under
file_if c tab p acc = if c then file_under tab p acc else acc

abbrev pub is_vote : ℕ → Option ℕ → Bool
is_vote n none = false
is_vote n (some m) = m == n

-- One proposal of the `reduce`.
unfoldable pub categorise :
    String → Table (List VotedProposal) → VotedProposal → Table (List VotedProposal)
unfolding file_if
categorise id acc p = file_if (str_eq p.proposal.proposer id) submitted p (
    file_if (is_vote 2 p.voted) abstained p
      (file_if (is_vote 0 p.voted) no_votes p (file_if (is_vote 1 p.voted) yes_votes p acc)))

categorise_all :
    String → Table (List VotedProposal) → List VotedProposal → Table (List VotedProposal)
categorise_all id acc [] = acc
categorise_all id acc (p ∷ ps) = categorise_all id (categorise id acc p) ps

unfoldable pub categorised_proposals :
    String → List VotedProposal → List VotedProposal → Table (List VotedProposal)
unfolding categorise_all
categorised_proposals id lil_nouns big_nouns =
    categorise_all id initial_categories (lil_nouns ++ big_nouns)

unfoldable pub lil_noun_proposals : List LilNounVote → List VotedProposal
unfolding or_empty
lil_noun_proposals votes =
    map
      (λ (v : LilNounVote). record {
        kind = lil_noun;
        proposal = v.proposal;
        created_at = v.proposal.created_block;
        voted = some v.support_detailed;
        reason = some (or_empty v.reason);
      })
      votes

-- `snapshotProposalVoteMap` and the ids that are asked for. `proposal_id` is the number in the first link
-- to a vote in a body, if there is one.
module _ (proposal_id : String → Option String) where
  note_vote : SnapshotVote → Option String → Table Voted → Table Voted
  unfolding or_empty
  note_vote v none votes = votes
  note_vote v (some id) votes =
      save id (record { voted = v.choice; reason = or_empty v.reason }) votes

  unfoldable pub snapshot_votes : Table Voted → List SnapshotVote → Table Voted
  unfolding note_vote
  snapshot_votes votes [] = votes
  snapshot_votes votes (v ∷ vs) = snapshot_votes (note_vote v (proposal_id v.body) votes) vs

  add_found : Option String → List String → List String
  add_found none ids = ids
  add_found (some id) ids = if str_eq id "" then ids else id ∷ ids

  unfoldable pub snapshot_proposal_ids : List SnapshotVote → List String
  unfolding add_found
  snapshot_proposal_ids [] = []
  snapshot_proposal_ids (v ∷ vs) = add_found (proposal_id v.body) (snapshot_proposal_ids vs)

voted_of : Option Voted → Option ℕ
voted_of none = none
voted_of (some v) = some v.voted

reason_of : Option Voted → Option String
reason_of none = none
reason_of (some v) = some v.reason

unfoldable pub big_noun_proposals : Table Voted → List ProposalOf → List VotedProposal
unfolding voted_of reason_of
big_noun_proposals votes ps =
    map
      (λ (p : ProposalOf). record {
        kind = big_noun;
        proposal = p;
        created_at = p.created_block;
        voted = voted_of (load p.id votes);
        reason = reason_of (load p.id votes);
      })
      ps
