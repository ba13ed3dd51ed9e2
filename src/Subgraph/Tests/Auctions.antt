-- ===== src/Subgraph/Tests/Auctions.antt =====
-- Auctions, titles and quorums at concrete inputs.
use lilnouns_monorepo.Base.{◌≡◌, refl, ◌∷◌, [], some, List, true, arith, ◌≤◌, ◌*◌, ◌/◌}
use Prim.Native.Nat.{min}
use lilnouns_monorepo.Base.Int.{pos}
use lilnouns_monorepo.Base.Chars.{codes}
use lilnouns_monorepo.Base.Table.{load}
use lilnouns_monorepo.Subgraph.Entities.{Account, Auction}
use lilnouns_monorepo.Subgraph.Events.{AuctionBid}
use lilnouns_monorepo.Subgraph.Auction.Lifecycle.{
  AuctionEvent, bid, extended, settled, IsWellFormed, run, life,
}
use lilnouns_monorepo.Subgraph.Auction.Runs.{run-life}
use lilnouns_monorepo.Subgraph.Title.{extract_title}
use lilnouns_monorepo.Subgraph.Quorum.{dynamic_quorum_votes}
use lilnouns_monorepo.Subgraph.Quorum.Bounds.{quorum, dynamic_quorum_votes_bounds}
use lilnouns_monorepo.Subgraph.Tests.{
  host, host-IsLawful, store, at, bob, alice_account, auction, one-IsKeyed,
}

abbrev bob_bids : AuctionBid
bob_bids = record { at = at; noun_id = pos 1; sender = bob; value = pos 5 }

abbrev bob_misses : AuctionBid
bob_misses = record { at = at; noun_id = pos 2; sender = bob; value = pos 5 }

abbrev events : List AuctionEvent
events =
    bid bob_bids
    ∷ bid bob_misses
    ∷ extended (record { at = at; noun_id = pos 1; end_time = pos 9 })
    ∷ settled (record { at = at; noun_id = pos 1 })
    ∷ []

store-IsWellFormed : IsWellFormed store
store-IsWellFormed = record {
  auctions_keyed = one-IsKeyed Auction.id auction;
  accounts_keyed = one-IsKeyed Account.id alice_account;
}

-- The first auction after the events.
life_example :
    life host store.nouns "|" events (some auction)
    ≡ some
        (record auction { amount = pos 5; bidder = some "0x0b"; end_time = pos 9; settled = true })
unfolding life host
life_example = refl

run-life_example :
    (load "|" (run host events store).auctions
      ≡ life host store.nouns "|" events (load "|" store.auctions))
    × IsWellFormed (run host events store)
run-life_example = run-life host events store "|" store-IsWellFormed

title_example :
    extract_title (codes "intro\n# **Fund** the __club__ \nbody") ≡ codes "Fund the club"
unfolding extract_title
title_example = refl

untitled_example : extract_title [] ≡ codes "Untitled"
unfolding extract_title
untitled_example = refl

-- A heading that is underlined, with a `#` further down: the title is the text behind the `#`.
underlined_example : extract_title (codes "Fund\n===\nsee # 4") ≡ codes "4"
unfolding extract_title
underlined_example = refl

dynamic_quorum_votes_bounds_example :
    (dynamic_quorum_votes host (pos 20) (pos 200) (pos 1000) (pos 1500) (pos 1000000)
      ≡ some (pos (quorum 20 200 1000 1500 1000000)))
    × (200 * min 1500 1000 / 10000 ≤ quorum 20 200 1000 1500 1000000)
    × (quorum 20 200 1000 1500 1000000 ≤ 200 * 1500 / 10000)
dynamic_quorum_votes_bounds_example =
    dynamic_quorum_votes_bounds host host-IsLawful 20 200 1000 1500 1000000 (omega arith)
      (omega arith)
