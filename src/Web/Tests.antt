-- ===== src/Web/Tests.antt =====
-- The state of an auction with bids, and steps between auctions.
use lilnouns_monorepo.Base.{inl, map, length, ◌++◌, ◌≡◌, refl, false, some, List, [], ◌∷◌, arith}
use lilnouns_monorepo.Web.AuctionSlice.{
  BidEvent, initial_state, set_active_auction, append_bid, set_auction_extended,
}
use lilnouns_monorepo.Web.AuctionSlice.Leading.{
  AuctionAction, opened, bid, extended, run, IsLeading, run-IsLeading,
}
use lilnouns_monorepo.Web.AuctionSlice.{IAuction}
use lilnouns_monorepo.Web.PastAuctions.{PastAuction, redux_safe_past_auctions}
use lilnouns_monorepo.Web.Displayed.{
  use_on_display_auction, find_past, is_nounder_noun, is_nouns_dao_noun,
}
use lilnouns_monorepo.Web.Displayed.Shown.{shown_noun}
use lilnouns_monorepo.Web.Logs.{
  EventFilter, absent, one, any_of, filter_to_key, LogsState, add_listener, fetched_logs,
}
use lilnouns_monorepo.Web.Logs.Blocks.{LogsAction, fetched, failed, left}
use lilnouns_monorepo.Web.Logs.Keys.{key_to_filter}
use lilnouns_monorepo.Web.Logs.Keys.RoundTrip.{key_to_filter-filter_to_key}
use mathlib.Core.List.{Perm}
use lilnouns_monorepo.Base.Sorting.{IsSortedBy}
use lilnouns_monorepo.Web.Activity.{
  Dated, TransferEvent, DelegationEvent, NounProfileEvent, has, use_noun_activity,
}
use lilnouns_monorepo.Web.Activity.Listed.{
  higher, moved, delegated, IsWin, use_noun_activity_listed,
}
use lilnouns_monorepo.Web.ProfileVotes.{
  abstained, VotedProposal, ProposalOf, lil_noun, big_noun, categorised_proposals,
}
use lilnouns_monorepo.Web.ProfileVotes.Categories.{shown, categorised_proposals_lem}

abbrev low : BidEvent
low = record {
  noun_id = 7;
  sender = "0x0a";
  value = 5;
  extended = false;
  transaction_hash = "0x01";
  timestamp = 1;
}

abbrev high : BidEvent
high = record low { sender = "0x0b"; value = 9; transaction_hash = "0x02" }

-- The higher bid arrives first, and twice; a bid on another noun is late.
abbrev actions : List AuctionAction
actions =
    opened (record { noun_id = 7; start_time = 0; end_time = 10; settled = false })
    ∷ bid high
    ∷ bid low
    ∷ bid high
    ∷ bid (record low { noun_id = 6; value = 100; transaction_hash = "0x03" })
    ∷ extended (record { noun_id = 7; end_time = 20 })
    ∷ []

run_example : run actions initial_state ≡ record {
  active_auction = some (record {
    amount = 9;
    bidder = "0x0b";
    start_time = 0;
    end_time = 20;
    noun_id = 7;
    settled = false;
  });
  bids = low ∷ high ∷ [];
}
unfolding run set_active_auction append_bid set_auction_extended
run_example = refl

run-IsLeading_example : IsLeading (run actions initial_state)
run-IsLeading_example = run-IsLeading actions initial_state tt

abbrev filter : EventFilter
filter = record {
  address = some "0x01";
  topics = some (one "a" ∷ absent ∷ any_of ("b" ∷ "c" ∷ []) ∷ []);
}

filter_to_key_example : filter_to_key filter ≡ "0x01:a-\0-b;c"
unfolding filter_to_key
filter_to_key_example = refl

key_to_filter-filter_to_key_example :
    key_to_filter (filter_to_key filter)
    ≡ some (record {
      address = some "0x01";
      topics = some (one "a" ∷ one "\0" ∷ any_of ("b" ∷ "c" ∷ []) ∷ []);
    })
key_to_filter-filter_to_key_example = key_to_filter-filter_to_key filter (omega arith) (omega arith)

-- The results of block 8 are at hand, and those of block 5 come late.
abbrev logs_state : LogsState
logs_state = fetched_logs filter 8 [] (add_listener filter [])

abbrev late : List LogsAction
late = fetched filter 5 [] ∷ failed filter 9 ∷ left filter ∷ []

-- Noun 8 was sold before the active auction of noun 12.
abbrev sold : PastAuction
sold = record {
  id = 8;
  amount = 70;
  bidder_id = some "0x0a";
  start_time = 100;
  end_time = 200;
  bids = [];
}

shown_noun_example :
    let shown : IAuction = record {
      amount = 70;
      bidder = "0x0a";
      start_time = 100;
      end_time = 200;
      noun_id = 8;
      settled = false;
    } in
    (shown.noun_id ≡ 8) × (shown.settled ≡ false)
unfolding use_on_display_auction find_past is_nounder_noun is_nouns_dao_noun
    redux_safe_past_auctions
shown_noun_example =
    shown_noun (some 8)
      (some (record {
        amount = 0;
        bidder = "";
        start_time = 300;
        end_time = 400;
        noun_id = 12;
        settled = false;
      }))
      (redux_safe_past_auctions (sold ∷ [])) 8
      (record {
        amount = 70;
        bidder = "0x0a";
        start_time = 100;
        end_time = 200;
        noun_id = 8;
        settled = false;
      })
      refl refl

-- Noun 11 is given away, and passed on once.
abbrev moves : List (Dated TransferEvent)
moves =
    (record {
      block_number = 5;
      payload = record { from = "0x00"; to = "0x0a"; transaction_hash = [] };
    })
    ∷ (record {
      block_number = 9;
      payload = record { from = "0x0a"; to = "0x0b"; transaction_hash = [] };
    })
    ∷ []

abbrev delegations : List (Dated DelegationEvent)
delegations =
    (record {
      block_number = 5;
      payload = record { previous_delegate = "0x00"; new_delegate = "0x0a"; transaction_hash = [] };
    })
    ∷ []

use_noun_activity_listed_example :
    (listed dropped win : List NounProfileEvent) × (use_noun_activity 11
        (has [])
        (has moves)
        (has delegations)
      ≡ has (listed ++ win))
    × (length dropped ≡ 2)
    × Perm (listed ++ dropped) ([] ++ (map moved moves ++ map delegated delegations))
    × IsSortedBy higher (listed ++ dropped)
    × IsWin 11 0 moves win
use_noun_activity_listed_example =
    use_noun_activity_listed 11 2 0 [] moves delegations (inl (omega arith, refl, refl))
      (omega arith)

abbrev proposal_nine : ProposalOf
proposal_nine = record { id = "9"; proposer = "0x0a"; created_block = 100 }

abbrev for_nine : VotedProposal
for_nine = record {
  kind = lil_noun;
  proposal = proposal_nine;
  created_at = 100;
  voted = some 1;
  reason = some "";
}

abbrev snapshot_against : VotedProposal
snapshot_against = record for_nine { kind = big_noun; voted = some 2; reason = some "no" }

-- A vote against in a snapshot, of choice 2, stands with the abstentions.
categorised_proposals_example :
    shown abstained (categorised_proposals "0x0b" (for_nine ∷ []) (snapshot_against ∷ []))
    ≡ snapshot_against ∷ []
categorised_proposals_example =
    categorised_proposals_lem "0x0b" abstained (for_nine ∷ []) (snapshot_against ∷ [])
