-- ===== src/Bots/Auctions.antt =====
-- index.ts: `setupAuction` and `processAuctionTick`.
pub mod Announced
use lilnouns_monorepo.Base.{
  ℕ, ◌+◌, ◌*◌, ltb, str_eq, Bool, true, false, not, ◌&&◌, String, List, [], ◌∷◌, if◌then◌else◌,
}
use lilnouns_monorepo.Bots.Types.{Bid, AuctionBids}
use lilnouns_monorepo.Bots.Redis.{Redis}
use lilnouns_monorepo.Bots.Cache.{
  get_auction_cache, update_auction_cache, get_bid_cache, update_bid_cache,
  get_auction_ending_soon_cache, update_auction_ending_soon_cache,
}
use lilnouns_monorepo.Bots.World.{
  World, Env, M, ◌>>◌, skip, when, write, notify, increment_counter, new_auction, new_bid,
  auction_ending_soon,
}

module _ {Db : Type 0} (r : Redis Db) (env : Env Db) where
  -- Seed cache the current auction id
  unfoldable pub setup_auction : AuctionBids → M Db
  setup_auction last = write (update_auction_cache r last.id)

  unfoldable pub discover_auction : ℕ → AuctionBids → M Db
  discover_auction cached last = when (ltb cached last.id) (
      increment_counter env "auctions_discovered"
      >> write (update_auction_cache r last.id)
      >> notify env (new_auction last.id)
      >> increment_counter env "auction_cache_updates")

  unfoldable pub discover_bid : String → ℕ → List Bid → M Db
  discover_bid cached id [] = skip
  discover_bid cached id (bid ∷ bids) =
      when (not (str_eq cached bid.id))
        (write (update_bid_cache r bid.id) >> notify env (new_bid id bid))

  -- Less than 20 minutes are left, or none.
  unfoldable pub warn_of_end : ℕ → ℕ → AuctionBids → M Db
  warn_of_end cached now last = when (ltb last.end_time (now + 20 * 60) && ltb cached last.id) (
      write (update_auction_ending_soon_cache r last.id)
      >> notify env (auction_ending_soon last.id))

  unfoldable pub process_auction_tick : ℕ → AuctionBids → M Db
  process_auction_tick now last w =
      let cached_auction_id = get_auction_cache r w.db in
      let cached_bid_id = get_bid_cache r w.db in
      let cached_auction_ending_soon = get_auction_ending_soon_cache r w.db in
      (discover_auction cached_auction_id last
          >> increment_counter env "auction_process_last_auction"
          >> discover_bid cached_bid_id last.id last.bids
          >> warn_of_end cached_auction_ending_soon now last)
        w
