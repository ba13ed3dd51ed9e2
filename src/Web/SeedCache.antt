-- ===== src/Web/SeedCache.antt =====
-- wrappers/nounToken.ts: the seeds of nouns that the browser's storage keeps. The storage is modelled by the
-- values whose JSON texts it holds. A number's text and its reading are parameters, as are the calls of the
-- contract; an effect reads the clock once.
pub mod Faithful
mod Tests
use lilnouns_monorepo.Base.{
  ℕ, ◌+◌, ◌==◌, zero, suc, ltb, not, Bool, true, false, ◌&&◌, ◌||◌, Option, none, some, String,
  List, [], ◌∷◌, map, take, if◌then◌else◌,
}
use lilnouns_monorepo.Base.Table.{Table, load, save}

pub record TokenSeed : Type 0 where
  pub accessory : ℕ
  pub background : ℕ
  pub body : ℕ
  pub glasses : ℕ
  pub head : ℕ

-- A seed of the subgraph's answer, with the texts of its numbers.
pub record SeedAnswer : Type 0 where
  pub id : String
  pub background : String
  pub body : String
  pub accessory : String
  pub head : String
  pub glasses : String

pub record SeedStorage : Type 0 where
  pub seeds : Option (Table TokenSeed)
  pub expiry : Option ℕ

-- `isSeedValid`, of a seed that has all its fields
is_seed_valid : TokenSeed → Bool
is_seed_valid s =
    not (s.background == 0 && s.body == 0 && s.accessory == 0 && s.head == 0 && s.glasses == 0)

descending : ℕ → List ℕ
descending zero = []
descending (suc n) = suc n ∷ descending n

-- The nouns whose seeds the subgraph is asked for.
unfoldable pub asked_seeds : (ℕ → String) → ℕ → List String
unfolding descending
asked_seeds number_text noun_id = map number_text (take 1000 (descending noun_id))

abbrev pub time_to_live : ℕ
time_to_live = 7200000

module _ (number : String → ℕ) where
  abbrev pub seed_of : SeedAnswer → TokenSeed
  seed_of s = record {
    background = number s.background;
    body = number s.body;
    accessory = number s.accessory;
    head = number s.head;
    glasses = number s.glasses;
  }

  unfoldable pub add_seeds : List SeedAnswer → Table TokenSeed → Table TokenSeed
  add_seeds [] acc = acc
  add_seeds (s ∷ seeds) acc = add_seeds seeds (save s.id (seed_of s) acc)

  unfoldable pub seed_array_to_object : List SeedAnswer → Table TokenSeed
  unfolding add_seeds
  seed_array_to_object seeds = add_seeds seeds []

  -- The seeds are stored where none were cached and the answer has some.
  unfoldable pub store_seeds :
      Bool → Option (List SeedAnswer) → Option (Table TokenSeed) → Option (Table TokenSeed)
  unfolding seed_array_to_object
  store_seeds was_cached none stored = stored
  store_seeds was_cached (some []) stored = stored
  store_seeds was_cached (some (s ∷ seeds)) stored =
      if was_cached then stored else some (seed_array_to_object (s ∷ seeds))

  store_expiry : Bool → Option (List SeedAnswer) → ℕ → Option ℕ → Option ℕ
  store_expiry was_cached none now expiry = expiry
  store_expiry was_cached (some []) now expiry = expiry
  store_expiry was_cached (some (s ∷ seeds)) now expiry =
      if was_cached then expiry else some (now + time_to_live)

  has_expired : Option ℕ → ℕ → Bool
  has_expired none now = false
  has_expired (some ttl) now = ltb ttl now

  -- The effect of `useNounSeeds`: whether seeds were cached and when they expire was read before it ran.
  unfoldable pub seeds_effect :
      Bool → Option ℕ → Option (List SeedAnswer) → ℕ → SeedStorage → SeedStorage
  unfolding store_seeds store_expiry has_expired
  seeds_effect was_cached ttl answer now storage =
      if has_expired ttl now then record { seeds = none; expiry = none } else record {
        seeds = store_seeds was_cached answer storage.seeds;
        expiry = store_expiry was_cached answer now storage.expiry;
      }

-- The seed of the noun among the cached ones.
unfoldable pub cached_seed : String → Option (Table TokenSeed) → Option TokenSeed
cached_seed noun none = none
cached_seed noun (some seeds) = load noun seeds

-- A call is made only where no seed is cached.
request_of : String → Option TokenSeed → Option String
request_of noun none = some noun
request_of noun (some seed) = none

unfoldable pub with_response :
    String → TokenSeed → Option (Table TokenSeed) → Option (Table TokenSeed)
unfolding is_seed_valid
with_response noun response none = none
with_response noun response (some seeds) =
    if is_seed_valid response then some (save noun response seeds) else some seeds

answered :
    String
    → Option TokenSeed
    → Option TokenSeed
    → Option (Table TokenSeed)
    → Option TokenSeed × Option (Table TokenSeed)
unfolding with_response
answered noun seed none seeds = (seed, seeds)
answered noun seed (some response) seeds = (some response, with_response noun response seeds)

-- `useNounSeed` and, with the storage of the other token, `useBigNounSeed`: the seed, and what is cached then.
unfoldable pub use_noun_seed :
    (Option String → Option TokenSeed)
    → String
    → Option (Table TokenSeed)
    → Option TokenSeed × Option (Table TokenSeed)
unfolding cached_seed request_of answered
use_noun_seed contract_call noun seeds =
    let seed = cached_seed noun seeds in
    answered noun seed (contract_call (request_of noun seed)) seeds
