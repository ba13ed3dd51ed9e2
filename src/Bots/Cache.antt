-- ===== src/Bots/Cache.antt =====
-- cache.ts: the keys of the cache, and its reads and writes.
pub mod Stored
use Prim.Native.String.{◌++◌}
use lilnouns_monorepo.Base.{ℕ, str_eq, Bool, Option, none, some, String, if◌then◌else◌}
use lilnouns_monorepo.Bots.Types.{GovernanceProposal}
use lilnouns_monorepo.Bots.Redis.{Redis}

abbrev pub auction_cache_key : String
auction_cache_key = "NOUNS_AUCTION_CACHE"

abbrev pub bid_cache_key : String
bid_cache_key = "NOUNS_BID_CACHE"

abbrev pub reply_tweet_id_key : String
reply_tweet_id_key = "NOUNS_REPLY_TWEET_ID"

abbrev pub auction_ending_soon_cache_key : String
auction_ending_soon_cache_key = "NOUNS_AUCTION_ENDING_SOON_CACHE"

abbrev pub proposal_cache_key_prefix : String
proposal_cache_key_prefix = "NOUNS_PROPOSAL_"

abbrev pub proposal_expiry_warning_sent_cache_key_prefix : String
proposal_expiry_warning_sent_cache_key_prefix = "NOUNS_PROPOSAL_EXPIRY_WARNING_SENT_"

module _ {Db : Type 0} (r : Redis Db) where
  -- The empty text is falsy, as null is.
  abbrev pub number_or_zero : Option String → ℕ
  number_or_zero none = 0
  number_or_zero (some s) = if str_eq s "" then 0 else r.number s

  unfoldable pub get_auction_cache : Db → ℕ
  get_auction_cache d = number_or_zero (r.get auction_cache_key d)

  unfoldable pub update_auction_cache : ℕ → Db → Db
  update_auction_cache id = r.set auction_cache_key (r.number_text id)

  text_or_empty : Option String → String
  text_or_empty none = ""
  text_or_empty (some s) = s

  unfoldable pub get_bid_cache : Db → String
  unfolding text_or_empty
  get_bid_cache d = text_or_empty (r.get bid_cache_key d)

  unfoldable pub update_bid_cache : String → Db → Db
  update_bid_cache id = r.set bid_cache_key id

  unfoldable pub get_auction_reply_tweet_id : Db → Option String
  get_auction_reply_tweet_id = r.get reply_tweet_id_key

  unfoldable pub update_auction_reply_tweet_id : String → Db → Db
  update_auction_reply_tweet_id id = r.set reply_tweet_id_key id

  unfoldable pub get_auction_ending_soon_cache : Db → ℕ
  get_auction_ending_soon_cache d = number_or_zero (r.get auction_ending_soon_cache_key d)

  unfoldable pub update_auction_ending_soon_cache : ℕ → Db → Db
  update_auction_ending_soon_cache id = r.set auction_ending_soon_cache_key (r.number_text id)

  unfoldable pub proposal_cache_key : ℕ → String
  proposal_cache_key id = proposal_cache_key_prefix ++ r.number_text id

  unfoldable pub proposal_expiry_warning_sent_cache_key : ℕ → String
  proposal_expiry_warning_sent_cache_key id =
      proposal_expiry_warning_sent_cache_key_prefix ++ r.number_text id

  unfoldable pub update_proposal_cache : GovernanceProposal → Db → Db
  unfolding proposal_cache_key
  update_proposal_cache proposal = r.set (proposal_cache_key proposal.id) (r.stringify proposal)

  parse_proposal : Option String → Option GovernanceProposal
  parse_proposal none = none
  parse_proposal (some s) = if str_eq s "" then none else some (r.parse s)

  unfoldable pub get_proposal_cache : ℕ → Db → Option GovernanceProposal
  unfolding parse_proposal proposal_cache_key
  get_proposal_cache id d = parse_proposal (r.get (proposal_cache_key id) d)

  unfoldable pub set_proposal_expiry_warning_sent : ℕ → Db → Db
  unfolding proposal_expiry_warning_sent_cache_key
  set_proposal_expiry_warning_sent id =
      r.set (proposal_expiry_warning_sent_cache_key id) (r.number_text 1)

  unfoldable pub has_warned_of_expiry : ℕ → Db → Bool
  unfolding proposal_expiry_warning_sent_cache_key
  has_warned_of_expiry id = r.exists (proposal_expiry_warning_sent_cache_key id)
