-- ===== src/Bots/Twitter.antt =====
-- handlers/twitter.ts, and what handlers/discord.ts changes of the cache: nothing.
pub mod Replies
use lilnouns_monorepo.Base.{
  ℕ, str_eq, Bool, true, false, ◌&&◌, Option, none, some, String, if◌then◌else◌,
}
use lilnouns_monorepo.Bots.Redis.{Redis}
use lilnouns_monorepo.Bots.Cache.{get_auction_reply_tweet_id, update_auction_reply_tweet_id}
use lilnouns_monorepo.Bots.World.{
  Env, Note, new_auction, new_bid, auction_ending_soon, new_proposal, updated_proposal_status,
  governance_vote, proposal_at_risk_of_expiry,
}

-- The answers from outside: whether there is an image, the id of a tweet or of a reply, if the request
-- resolves, and whether all Discord webhooks resolve.
pub record Socials : Type 0 where
  pub noun_png : ℕ → Bool
  pub tweet : ℕ → Option String
  pub reply : Note → String → Option String
  pub discord : Note → Bool

module _ {Db : Type 0} (r : Redis Db) (socials : Socials) where
  settle : Option String → Db → Db × Bool
  settle none d = (d, false)
  settle (some id) d = (update_auction_reply_tweet_id r id d, true)

  handle_new_auction : ℕ → Db → Db × Bool
  unfolding settle
  handle_new_auction id d = if socials.noun_png id then settle (socials.tweet id) d else (d, true)

  -- The empty text is falsy, as null is.
  reply_to : Note → Option String → Db → Db × Bool
  unfolding settle
  reply_to note none d = (d, true)
  reply_to note (some id) d = if str_eq id "" then (d, true) else settle (socials.reply note id) d

  handle_reply : Note → Db → Db × Bool
  unfolding reply_to
  handle_reply note d = reply_to note (get_auction_reply_tweet_id r d) d

  -- Twitter has no handlers of proposals.
  unfoldable pub twitter : Note → Db → Db × Bool
  unfolding handle_new_auction handle_reply
  twitter (new_auction id) d = handle_new_auction id d
  twitter (new_bid id bid) d = handle_reply (new_bid id bid) d
  twitter (auction_ending_soon id) d = handle_reply (auction_ending_soon id) d
  twitter (new_proposal p) d = (d, true)
  twitter (updated_proposal_status p) d = (d, true)
  twitter (governance_vote p v) d = (d, true)
  twitter (proposal_at_risk_of_expiry p) d = (d, true)

  -- Both of `auctionLifecycleHandlers`.
  unfoldable pub auction_handlers : (String → Bool) → Env Db
  auction_handlers count = record {
    deliver =
        λ note d. let (d', resolved) = twitter note d in (d', resolved && socials.discord note);
    count = count;
  }
