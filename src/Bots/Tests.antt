-- ===== src/Bots/Tests.antt =====
-- Witnesses at a cache that is a table of texts, with numbers in strokes.
use Prim.Native.String.{◌++◌}
use Prim.Native.Char.{code}
use text.Mathlib.TextLemmas.{cons-append}
use lilnouns_monorepo.Base.{
  ◌==◌, List, ◌∙◌, ℕ, zero, suc, ◌-◌, ◌≡◌, refl, ◌≢◌, Bool, ◌⊎◌, ap, str_eq, str_eq-false, true,
  false, none, some, String, [], ◌∷◌, arith, if◌then◌else◌,
}
use lilnouns_monorepo.Base.Table.{Table, load, save, load-save}
use lilnouns_monorepo.Bots.Types.{
  AuctionBids, GovernanceProposal, GovernanceVote, queued, active, for,
}
use lilnouns_monorepo.Bots.Redis.{Redis, IsLawful, is_some}
use lilnouns_monorepo.Bots.Cache.{
  has_warned_of_expiry, get_auction_cache, update_auction_cache, get_proposal_cache,
  update_proposal_cache, set_proposal_expiry_warning_sent,
}
use lilnouns_monorepo.Bots.World.{
  World, Env, proposal_at_risk_of_expiry, governance_vote, updated_proposal_status,
}
use lilnouns_monorepo.Bots.Twitter.{Socials, auction_handlers}
use lilnouns_monorepo.Bots.Twitter.Replies.{auction_handlers-KeepsCache}
use lilnouns_monorepo.Bots.Auctions.{process_auction_tick}
use lilnouns_monorepo.Bots.Auctions.Announced.{
  started, Descends, run_ticks, run_ticks-ascends, process_auction_tick-announces,
}
use lilnouns_monorepo.Bots.Governance.{
  Call, announcing, marking, caching, process_proposal, process_governance_tick, status_eq,
}
use lilnouns_monorepo.Bots.Proposals.{extract_new_votes, is_at_risk_of_expiry}
use lilnouns_monorepo.Bots.Governance.Repeats.{process_governance_tick-repeated}
use lilnouns_monorepo.Bots.Governance.Rejected.{process_proposal_rejected}

-- A number is one stroke more than itself.
abbrev strokes : ℕ → String
strokes zero = String.◌∷◌ "|" String.[]
strokes (suc n) = String.◌∷◌ "|" (strokes n)

abbrev size : String → ℕ
size String.[] = 0
size (String.◌∷◌ c s) = suc (size s)

abbrev vote : GovernanceVote
vote = record { id = "v1"; voter = "0xb0b"; votes = 3; support_detailed = for; reason = none }

abbrev proposal : GovernanceProposal
proposal = record {
  id = 4;
  proposer = "0xa11ce";
  description = "# Fund it";
  status = queued;
  quorum_votes = 10;
  proposal_threshold = 2;
  start_block = 100;
  end_block = 200;
  execution_eta = 5000;
  votes = vote ∷ [];
}

abbrev cached_proposal : GovernanceProposal
cached_proposal = record proposal { status = active; votes = [] }

abbrev other : GovernanceProposal
other = record proposal { id = 5 }

-- The text of a proposal tells which of these three it is, which is enough here.
abbrev describe : GovernanceProposal → String
describe p = if p.id == 5 then "other" else elim p.votes [ [] ↦ "cached" | v ∷ vs ↦ "current" ]

abbrev redis : Redis (Table String)
redis = record {
  get = load;
  set = save;
  exists = λ k d. is_some (load k d);
  number_text = strokes;
  number = λ s. size s - 1;
  stringify = describe;
  parse = λ s.
      if str_eq s "cached" then cached_proposal else if str_eq s "other" then other else proposal;
}

size-strokes : (n : ℕ) → size (strokes n) ≡ suc n
size-strokes zero = refl
size-strokes (suc n) = ap suc (size-strokes n)

size_ne : (s t : String) → size s ≢ size t → s ≢ t
size_ne s t h p = h (ap size p)

strokes_truthy : (n : ℕ) → str_eq (strokes n) "" ≡ false
strokes_truthy n =
    str_eq-false (strokes n) "" (size_ne (strokes n) "" (omega (arith, size-strokes n)))

abbrev first : String → ℕ
first String.[] = 0
first (String.◌∷◌ c s) = code c

strokes_digits : (n : ℕ) (s : String) → strokes n ≢ "EXPIRY_WARNING_SENT_" ++ s
strokes_digits zero s p =
    absurd (let e = ap first (p ∙ cons-append "E" "XPIRY_WARNING_SENT_" s) in omega (arith, e))
strokes_digits (suc n) s p =
    absurd (let e = ap first (p ∙ cons-append "E" "XPIRY_WARNING_SENT_" s) in omega (arith, e))

redis-IsLawful : IsLawful redis
redis-IsLawful = record {
  get_set = λ j k v d. load-save j k v d;
  exists_get = λ k d. refl;
  number_read = λ n. omega (arith, size-strokes n);
  number_truthy = strokes_truthy;
  number_digits = strokes_digits;
}

abbrev socials : Socials
socials = record {
  noun_png = λ id. true;
  tweet = λ id. some "tweet";
  reply = λ note id. none;
  discord = λ note. true;
}

abbrev env : Env (Table String)
env = auction_handlers redis socials (λ counter. true)

abbrev last : AuctionBids
last = record {
  id = 7;
  end_time = 1000;
  bids = (record { id = "0x1"; amount = "5"; bidder = "0xb0b" }) ∷ [];
}

abbrev start : World (Table String)
start = record { db = update_auction_cache redis 6 []; sent = [] }

run_ticks-ascends_example :
    Descends
      (suc (
        get_auction_cache redis
          (run_ticks redis
            ((env, 10, last) ∷ (env, 40, record last { id = 8 }) ∷ [])
            (record { db = []; sent = [] })).db))
      (started
        (run_ticks redis
          ((env, 10, last) ∷ (env, 40, record last { id = 8 }) ∷ [])
          (record { db = []; sent = [] })).sent)
run_ticks-ascends_example =
    run_ticks-ascends redis redis-IsLawful
      ((env, 10, last) ∷ (env, 40, record last { id = 8 }) ∷ []) []
      (
        auction_handlers-KeepsCache redis redis-IsLawful socials (λ counter. true),
        (auction_handlers-KeepsCache redis redis-IsLawful socials (λ counter. true), tt),
      )

process_auction_tick-announces_example :
    (started (process_auction_tick redis env 10 last start).0.sent ≡ 7 ∷ [])
    × (get_auction_cache redis (process_auction_tick redis env 10 last start).0.db ≡ 7)
unfolding auction_handlers get_auction_cache update_auction_cache load save
process_auction_tick-announces_example =
    process_auction_tick-announces redis redis-IsLawful env 10 last start
      (auction_handlers-KeepsCache redis redis-IsLawful socials (λ counter. true)) (omega arith)
      refl

-- One proposal is cached as it was before it was queued, the other as it is.
abbrev governed : World (Table String)
governed = record {
  db = update_proposal_cache redis other (update_proposal_cache redis cached_proposal []);
  sent = [];
}

abbrev proposals : List GovernanceProposal
proposals = proposal ∷ other ∷ []

five_ne_four : other.id ≢ proposal.id
five_ne_four e = absurd (omega (arith, e))

process_governance_tick-repeated_example :
    (process_governance_tick redis
      (λ note. true)
      1100000
      proposals
      (process_governance_tick redis (λ note. true) 1100000 proposals governed)).sent
    ≡ (process_governance_tick redis (λ note. true) 1100000 proposals governed).sent
unfolding get_proposal_cache update_proposal_cache load save
process_governance_tick-repeated_example =
    process_governance_tick-repeated redis (λ call. true) (λ call. refl) 1100000 redis-IsLawful
      proposals governed ((five_ne_four, tt), (tt, tt)) ((refl, refl), ((refl, refl), tt))
      ((cached_proposal, refl), ((other, refl), tt))

-- The first run tells the status, the vote and the risk.
announced :
    (process_proposal redis (λ note. true) 1100000 proposal governed).0.sent
    ≡ proposal_at_risk_of_expiry proposal
      ∷ governance_vote proposal vote
      ∷ updated_proposal_status proposal
      ∷ []
unfolding get_proposal_cache update_proposal_cache process_proposal load save status_eq
    extract_new_votes is_at_risk_of_expiry has_warned_of_expiry
announced = refl

-- Redis takes the mark of the warning and not the proposal.
abbrev half_down : Call → Bool
half_down (announcing note) = true
half_down (marking id) = true
half_down (caching id) = false

process_proposal_rejected_example :
    let after = (process_proposal redis half_down 1100000 proposal governed).0.db in
    (after ≡ governed.db)
    ⊎ ((half_down (caching proposal.id) ≡ false)
        × (after ≡ set_proposal_expiry_warning_sent redis proposal.id governed.db))
unfolding get_proposal_cache update_proposal_cache process_proposal load save status_eq
    extract_new_votes is_at_risk_of_expiry has_warned_of_expiry
process_proposal_rejected_example =
    process_proposal_rejected redis half_down 1100000 proposal governed refl

-- The mark is then there.
half_down_example :
    has_warned_of_expiry redis proposal.id
      (process_proposal redis half_down 1100000 proposal governed).0.db
    ≡ true
unfolding get_proposal_cache update_proposal_cache process_proposal load save status_eq
    extract_new_votes is_at_risk_of_expiry has_warned_of_expiry set_proposal_expiry_warning_sent
half_down_example = refl
