-- ===== src/Web/PageTests.antt =====
-- The updater of the logs, the forms of bids and proposals, the cached ideas and the votes in a snapshot.
use lilnouns_monorepo.Base.{
  map, ℕ, ◌*◌, ◌≤◌, ◌<◌, ◌≡◌, ◌⊎◌, refl, some, none, Option, ltb, if◌then◌else◌, false, String,
  List, [], ◌∷◌, arith,
}
use lilnouns_monorepo.Base.Int.{pos, ◌+ℤ◌, ◌*ℤ◌}
use lilnouns_monorepo.Base.Table.{load, save}
use lilnouns_monorepo.Base.Chars.{codes, join, trim, remove_all}
use lilnouns_monorepo.Subgraph.Title.{extract_title, or_untitled}
use lilnouns_monorepo.Subgraph.Dao.{unescape_lines}
use lilnouns_monorepo.Web.ProposalForm.{
  ProposalTransaction, ProposedCall, FormEvent, opened, added, removed, titled, filled, empty_form,
  description_of, is_form_invalid, has_enough_vote, on_click,
}
use lilnouns_monorepo.Web.ProposalForm.Described.{shown_title, extract_title-description_of}
use lilnouns_monorepo.Web.ProposalForm.Submitted.{run_form, IsProposable, on_click-IsProposable}
use lilnouns_monorepo.Web.Transactions.{
  split_types, format_transaction, format_big_noun_transaction,
}
use lilnouns_monorepo.Web.Transactions.Signatures.{
  word, tuple, decoded_call, format_transaction_decoded,
}
use lilnouns_monorepo.Web.Proposals.{active}
use lilnouns_monorepo.Web.Logs.{
  EventFilter, absent, one, any_of, LogsState, add_listener, filter_to_key, fetching_logs,
}
use lilnouns_monorepo.Web.Logs.Updater.{needs_fetch, filters_need_fetch, update}
use lilnouns_monorepo.Web.Logs.Updater.Started.{
  due_keys, marked, add_listener-AreDistinct, update_started,
}
use lilnouns_monorepo.Web.Logs.Keys.{key_to_filter}
use lilnouns_monorepo.Web.Logs.Updater.Settled.{IsSettled}
use lilnouns_monorepo.Web.Logs.Updater.Stable.{filter_to_key-IsStable, add_listener-AreStable}
use lilnouns_monorepo.Web.BidForm.{
  warning_min, warning_value, compute_minimum_next_bid, compute_fat_finger_next_bid,
  place_bid_handler,
}
use lilnouns_monorepo.Web.BidForm.Placed.{IsEnough, RejectsBelow, place_bid_handler-placed}
use lilnouns_monorepo.Web.IdeaCache.{CachedVote, CachedIdea, update_votes_state}
use lilnouns_monorepo.Web.IdeaCache.Votes.{update_votes_state_lem}
use lilnouns_monorepo.Web.SnapshotVotes.{
  SnapshotProposal, BigNounProposal, is_active, big_nouns_prop_status, prepare_snapshot,
}
use lilnouns_monorepo.Web.SnapshotVotes.Agreement.{
  without_snapshot, big_nouns_prop_status-prepare_snapshot,
}

abbrev filter : EventFilter
filter = record {
  address = some "0x01";
  topics = some (one "a" ∷ absent ∷ any_of ("b" ∷ "c" ∷ []) ∷ []);
}

abbrev listened : LogsState
listened = add_listener filter []

update_started_example :
    (fs : List EventFilter) × (state' : LogsState) × (filters_need_fetch (some 9) listened
      ≡ some fs)
    × (map filter_to_key fs ≡ due_keys 9 listened)
    × (update 9 listened ≡ some state')
    × ((key : String)
        → (load key state' ≡ marked 9 (load key listened)) × IsSettled 9 (load key state'))
update_started_example =
    update_started 9 listened
      (add_listener-AreStable filter []
        (filter_to_key-IsStable filter (omega arith) (omega arith) (omega arith)) tt)
      (add_listener-AreDistinct filter [] tt)

-- The key of a filter without topics is read back as another filter's, and its fetch is not marked.
abbrev open_filter : EventFilter
open_filter = record { address = some "0x01"; topics = none }

fetched_again : update 9 (add_listener open_filter []) ≡ some (add_listener open_filter [])
unfolding update add_listener filter_to_key needs_fetch key_to_filter load save fetching_logs
    filters_need_fetch
fetched_again = refl

-- A contract whose reserve price is 500.
abbrev estimate : ℕ → Option ℕ
estimate value = if ltb value 500 then none else some 21000

estimate-RejectsBelow : RejectsBelow 500 estimate
estimate-RejectsBelow value h = ground arith

-- An amount of 1001 and an increment of 5 percent.
place_bid_handler-placed_example :
    ◌≡◌ {A = ℕ} 2000 2000
    × IsEnough 500 1001 5 2000
    × ((2000 < 1001 * 10)
        ⊎ ((2000 < warning_value) ⊎ (compute_minimum_next_bid 1001 (some 5) ≤ warning_min)))
unfolding place_bid_handler compute_minimum_next_bid compute_fat_finger_next_bid
place_bid_handler-placed_example =
    place_bid_handler-placed 500 1001 5 estimate 2000 2000 31000 estimate-RejectsBelow refl

abbrev vote : CachedVote
vote = record { voter_id = "0x0a"; idea_id = 5; direction = pos 1; lilnoun_count = pos 3 }

abbrev idea : CachedIdea
idea = record {
  id = 5;
  votecount = pos 7;
  vote_count = none;
  votes = some (record vote { voter_id = "0x0b"; lilnoun_count = pos 7 } ∷ []);
}

-- The vote of the other voter is gone.
update_votes_state_example :
    update_votes_state (idea ∷ []) vote
    ≡ record idea { vote_count = some (pos 10); votes = some (vote ∷ vote ∷ []) } ∷ []
unfolding ◌+ℤ◌ ◌*ℤ◌
update_votes_state_example = update_votes_state_lem (idea ∷ []) vote

abbrev snapshot : SnapshotProposal
snapshot = record { id = "s"; state = is_active; start = 10; end = 20; scores = 3 ∷ 4 ∷ 0 ∷ [] }

abbrev big_proposal : BigNounProposal
big_proposal = record {
  status = active;
  snapshot_proposal_id = none;
  snapshot_end = none;
  snapshot_for_count = none;
}

big_nouns_prop_status-prepare_snapshot_example :
    (big_nouns_prop_status big_proposal (some snapshot)).0
    ≡ without_snapshot
        (some snapshot)
        (prepare_snapshot (λ s. s) [] [] active (some snapshot)).prop_status
big_nouns_prop_status-prepare_snapshot_example =
    big_nouns_prop_status-prepare_snapshot (λ s. s) [] [] big_proposal (some snapshot) refl

format_transaction_decoded_example :
    (format_transaction
        (λ n. codes "1")
        (λ types calldata. some calldata)
        (codes "0x01")
        (codes "move(address,(uint256,bool)[])")
        0
        (codes "0x")
      ≡ some (
          decoded_call
            (λ n. codes "1")
            (λ types calldata. some calldata)
            (λ s. s)
            (codes "0x01")
            (codes "move")
            0
            (codes "0x")))
    × (format_big_noun_transaction
          (λ n. codes "1")
          (λ types calldata. some calldata)
          (λ s. s)
          (codes "0x01")
          (codes "move(address,(uint256,bool)[])")
          0
          (codes "0x")
        ≡ decoded_call
            (λ n. codes "1")
            (λ types calldata. some calldata)
            (λ s. s)
            (codes "0x01")
            (codes "move")
            0
            (codes "0x"))
unfolding join
format_transaction_decoded_example =
    format_transaction_decoded (λ n. codes "1") (λ types calldata. some calldata) (λ s. s)
      (codes "0x01") (codes "move") (word (codes "address"))
      (tuple (codes "uint256,bool") (codes "[]") ∷ []) 0 (codes "0x") (codes "0x") (λ e. cc)
      (omega arith) (omega arith) (λ e. cc) refl

-- A tuple within a tuple is cut in two.
nested_split : split_types (codes "(a,(b,c))") ≡ codes "(a" ∷ codes "(b,c))" ∷ []
unfolding split_types
nested_split = refl

extract_title-description_of_example :
    extract_title (unescape_lines (description_of (codes " Fund **art**") (codes "# Why\nart #1")))
    ≡ shown_title (codes " Fund **art**")
extract_title-description_of_example =
    extract_title-description_of (codes " Fund **art**") (codes "# Why\nart #1") (omega arith)
      (omega arith) (omega arith)

shown_title_example : shown_title (codes " Fund **art**") ≡ codes "Fund art"
unfolding trim remove_all or_untitled
shown_title_example = refl

-- The `#` of a title is lost.
numbered_title :
    extract_title (unescape_lines (description_of (codes "Pay #4") (codes "x"))) ≡ codes "Pay 4"
unfolding extract_title unescape_lines description_of
numbered_title = refl

abbrev transfer : ProposalTransaction
transfer = record { address = codes "0a"; value = none; signature = []; calldata = codes "0x" }

abbrev form_events : List FormEvent
form_events =
    opened
    ∷ added transfer
    ∷ added transfer
    ∷ removed 1
    ∷ titled (codes "Pay")
    ∷ filled (codes "x")
    ∷ []

on_click-IsProposable_example :
    (call : ProposedCall) × (on_click (some 3) (some 2) false (run_form form_events empty_form)
      ≡ some call)
    × IsProposable call
unfolding run_form is_form_invalid has_enough_vote
on_click-IsProposable_example = on_click-IsProposable form_events (some 3) (some 2) refl refl

on_click_example :
    on_click (some 3) (some 2) false (run_form form_events empty_form)
    ≡ some (record {
      targets = codes "0x0a" ∷ [];
      values = codes "0" ∷ [];
      signatures = [] ∷ [];
      calldatas = codes "0x" ∷ [];
      description = codes "# Pay\n\nx";
    })
unfolding on_click run_form
on_click_example = refl
