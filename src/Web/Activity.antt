-- ===== src/Web/Activity.antt =====
-- wrappers/nounActivity.ts: the events of a noun that its page lists, as functions of the answers that the
-- hooks read. The block numbers and the times in the answers are decimal texts in the source, and numbers
-- here.
pub mod Listed
use mathlib.Core.Option
use mathlib.Core.List.{reverse}
use lilnouns_monorepo.Base.{
  ℕ, ◌+◌, ◌-◌, ◌%◌, ◌==◌, ltb, leb, not, str_eq, Bool, true, false, ◌&&◌, ◌||◌, Option, none, some,
  String, List, [], ◌∷◌, ◌++◌, map, length, take, get_elem?, if◌then◌else◌,
}
use lilnouns_monorepo.Base.Chars.{Chars}
use lilnouns_monorepo.Base.Table.{Table, load, save}
use lilnouns_monorepo.Base.Sorting.{sort}
use lilnouns_monorepo.Web.AuctionSlice.{IAuction, AuctionState}
use lilnouns_monorepo.Web.Displayed.{is_nounder_noun, is_nouns_dao_noun, find_past, active_of}
use lilnouns_monorepo.Web.Proposals.{ProposalState, cancelled}

-- Of a proposal, what is read here.
pub record ListedProposal : Type 0 where
  pub id : Option String
  pub status : ProposalState
  pub for_count : ℕ
  pub against_count : ℕ
  pub abstain_count : ℕ
  pub end_block : ℕ

pub record NounVoteHistory : Type 0 where
  pub block_number : ℕ
  pub proposal_id : String
  pub support_detailed : ℕ
  pub voter_id : String

pub record ProposalVoteEvent : Type 0 where
  pub proposal : ListedProposal
  pub voter : Option String
  pub support_detailed : Option ℕ

pub record TransferEvent : Type 0 where
  pub from : String
  pub to : String
  pub transaction_hash : Chars

pub record DelegationEvent : Type 0 where
  pub previous_delegate : String
  pub new_delegate : String
  pub transaction_hash : Chars

pub record NounWinEvent : Type 0 where
  pub noun_id : ℕ
  pub winner : String
  pub transaction_hash : Chars

-- `eventType` with the payload of that type
pub data Payload : Type 0 where
  proposal_vote : ProposalVoteEvent → Payload
  delegation : DelegationEvent → Payload
  transfer : TransferEvent → Payload
  auction_win : NounWinEvent → Payload

pub record Dated (A : Type 0) : Type 0 where
  pub block_number : ℕ
  pub payload : A

abbrev pub NounProfileEvent : Type 0
NounProfileEvent = Dated Payload

-- The answer of a query, and of a hook: the data is there unless it is loading or failed.
pub record Answer (A : Type 0) : Type 0 where
  pub loading : Bool
  pub error : Bool
  pub answer : Option A

module _ {A : Type 0} where
  abbrev pub is_loading : Answer A
  is_loading = record { loading = true; error = false; answer = none }

  abbrev pub has_failed : Answer A
  has_failed = record { loading = false; error = true; answer = none }

  abbrev pub has : A → Answer A
  has a = record { loading = false; error = false; answer = some a }

  -- A hook over one query, whose answer is there once it is neither loading nor failed.
  abbrev pub over : {B : Type 0} → (B → A) → Answer B → Answer A
  over f q =
      if q.loading
      then is_loading
      else if q.error
      then has_failed
      else (record { loading = false; error = false; answer = Option.map f q.answer })

start_of : Option IAuction → ℕ
start_of none = 0
start_of (some a) = a.start_time

-- wrappers/nounsAuction.ts: a noun that is given away can vote from the auction above.
unfoldable pub use_noun_can_vote_timestamp : ℕ → List AuctionState → ℕ
unfolding start_of active_of
use_noun_can_vote_timestamp noun_id past =
    let distance : ℕ = if is_nounder_noun noun_id then 2 else 1 in
    if is_nounder_noun noun_id || is_nouns_dao_noun noun_id
    then start_of (active_of (find_past (noun_id + distance) past))
    else start_of (active_of (find_past noun_id past))

-- `nounVotes`: of the votes on one proposal, the last.
noun_votes_from : Table NounVoteHistory → List NounVoteHistory → Table NounVoteHistory
noun_votes_from acc [] = acc
noun_votes_from acc (h ∷ hs) = noun_votes_from (save h.proposal_id h acc) hs

is_cancelled : ProposalState → Bool
is_cancelled cancelled = true
is_cancelled other = false

is_falsy : Option String → Bool
is_falsy none = true
is_falsy (some s) = str_eq s ""

-- The time at which a proposal was created is looked up by its place in the list; without one, the
-- source throws.
is_listed : ℕ → Option ℕ → ListedProposal → Option Bool
unfolding is_falsy is_cancelled
is_listed can_vote created p = if is_falsy p.id then some false else elim created [
  | none ↦ none
  | some time ↦ some (
      not (ltb time can_vote)
      && not (is_cancelled p.status && (p.for_count + p.abstain_count + p.against_count == 0)))
]

add_if : ListedProposal → Bool → List ListedProposal → List ListedProposal
add_if p true ps = p ∷ ps
add_if p false ps = ps

filtered_proposals : ℕ → List ℕ → ℕ → List ListedProposal → Option (List ListedProposal)
unfolding is_listed add_if
filtered_proposals can_vote created i [] = some []
filtered_proposals can_vote created i (p ∷ ps) =
    let rest = filtered_proposals can_vote created (i + 1) ps in
    elim (is_listed can_vote (get_elem? created i) p) [
      | none ↦ none
      | some b ↦ Option.map (add_if p b) rest
    ]

id_text : Option String → String
id_text none = ""
id_text (some s) = s

-- Without a vote, the event stands at the end of the voting.
vote_event : ListedProposal → Option NounVoteHistory → NounProfileEvent
vote_event p none = record {
  block_number = p.end_block;
  payload = proposal_vote (record { proposal = p; voter = none; support_detailed = none });
}
vote_event p (some vote) = record {
  block_number = vote.block_number;
  payload = proposal_vote (record {
    proposal = p;
    voter = some vote.voter_id;
    support_detailed = some vote.support_detailed;
  });
}

vote_events : Table NounVoteHistory → List ListedProposal → List NounProfileEvent
unfolding vote_event id_text
vote_events votes ps = map (λ (p : ListedProposal). vote_event p (load (id_text p.id) votes)) ps

-- `createdTimestamp` of all proposals, by their places; none where the source throws.
unfoldable pub use_noun_proposal_vote_events :
    Answer (List NounVoteHistory)
    → Answer (List ℕ)
    → ℕ
    → List ListedProposal
    → Option (Answer (List NounProfileEvent))
unfolding noun_votes_from filtered_proposals vote_events
use_noun_proposal_vote_events votes timestamps can_vote proposals =
    if votes.loading || length proposals == 0 || timestamps.loading
    then some is_loading
    else if votes.error || timestamps.error
    then some has_failed
    else elim votes.answer [
      | none ↦ none
      | some hs ↦ elim timestamps.answer [
        | none ↦ none
        | some created ↦
            Option.map (λ ps. has (vote_events (noun_votes_from [] hs) ps))
              (filtered_proposals can_vote created 0 proposals)
      ]
    ]

-- The part of an id before the first underscore, or nothing without one.
before_underscore : Chars → Option Chars
before_underscore [] = none
before_underscore (c ∷ cs) =
    let rest = before_underscore cs in if c == b'_' then some [] else Option.map (◌∷◌ c) rest

hash_of : Chars → Chars
unfolding before_underscore
hash_of id = elim (before_underscore id) [ none ↦ [] | some hash ↦ hash ]

-- An event of the subgraph: its id, its block, and the holders or delegates before and after.
pub record ChangeEvent : Type 0 where
  pub id : Chars
  pub block_number : ℕ
  pub previous : String
  pub new : String

transfer_of : ChangeEvent → Dated TransferEvent
unfolding hash_of
transfer_of e = record {
  block_number = e.block_number;
  payload = record { from = e.previous; to = e.new; transaction_hash = hash_of e.id };
}

delegation_of : ChangeEvent → Dated DelegationEvent
unfolding hash_of
delegation_of e = record {
  block_number = e.block_number;
  payload = record {
    previous_delegate = e.previous;
    new_delegate = e.new;
    transaction_hash = hash_of e.id;
  };
}

unfoldable pub use_noun_transfer_events :
    Answer (List ChangeEvent) → Answer (List (Dated TransferEvent))
unfolding transfer_of
use_noun_transfer_events query = over (map transfer_of) query

unfoldable pub use_delegation_events :
    Answer (List ChangeEvent) → Answer (List (Dated DelegationEvent))
unfolding delegation_of
use_delegation_events query = over (map delegation_of) query

abbrev pub is_earlier : {A : Type 0} → Dated A → Dated A → Bool
is_earlier a b = ltb a.block_number b.block_number

-- `slice(0, length - n)`: an end below 0 counts from the end of the list.
unfoldable pub slice_but : ℕ → List NounProfileEvent → List NounProfileEvent
slice_but n events =
    let total = length events in
    if leb n total then take (total - n) events else take (total - (n - total)) events

-- The first events are those of the noun's birth and sale.
unfoldable pub birth_events : ℕ → ℕ
birth_events noun_id = if noun_id % 10 == 0 || noun_id % 10 == 1 then 2 else 4

-- The transfer from the auction house; none where reading it throws, which is caught.
unfoldable pub win_event : ℕ → List (Dated TransferEvent) → List NounProfileEvent
win_event noun_id transfers =
    let place : ℕ = if noun_id % 10 == 0 || noun_id % 10 == 1 then 0 else 1 in
    elim (get_elem? (sort is_earlier transfers) place) [
      | none ↦ []
      | some e ↦
          (record {
            block_number = e.block_number;
            payload = auction_win (record {
              noun_id = noun_id;
              winner = e.payload.to;
              transaction_hash = e.payload.transaction_hash;
            });
          })
          ∷ []
    ]

as_transfer : Dated TransferEvent → NounProfileEvent
as_transfer e = record { block_number = e.block_number; payload = transfer e.payload }

as_delegation : Dated DelegationEvent → NounProfileEvent
as_delegation e = record { block_number = e.block_number; payload = delegation e.payload }

-- The events of the three kinds, one kind after the other.
unfoldable pub all_events :
    List NounProfileEvent
    → List (Dated TransferEvent)
    → List (Dated DelegationEvent)
    → List NounProfileEvent
unfolding as_transfer as_delegation
all_events votes transfers delegations =
    votes ++ (map as_transfer transfers ++ map as_delegation delegations)

unfoldable pub post_processed :
    ℕ
    → List NounProfileEvent
    → List (Dated TransferEvent)
    → List (Dated DelegationEvent)
    → List NounProfileEvent
post_processed noun_id votes transfers delegations =
    slice_but (birth_events noun_id)
      (reverse (sort is_earlier (all_events votes transfers delegations)))
    ++ win_event noun_id transfers

unfoldable pub use_noun_activity :
    ℕ
    → Answer (List NounProfileEvent)
    → Answer (List (Dated TransferEvent))
    → Answer (List (Dated DelegationEvent))
    → Answer (List NounProfileEvent)
use_noun_activity noun_id votes transfers delegations =
    if delegations.loading || transfers.loading || votes.loading
    then is_loading
    else if votes.error || transfers.error || delegations.error
    then has_failed
    else elim transfers.answer [
      | none ↦ is_loading
      | some ts ↦ elim votes.answer [
        | none ↦ is_loading
        | some vs ↦ elim delegations.answer [
          | none ↦ is_loading
          | some ds ↦ has (post_processed noun_id vs ts ds)
        ]
      ]
    ]
