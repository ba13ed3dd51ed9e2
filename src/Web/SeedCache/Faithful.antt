-- ===== src/Web/SeedCache/Faithful.antt =====
-- The cached seeds are those of the token.
use lilnouns_monorepo.Base.{
  ℕ, ◌≡◌, refl, ◌∙◌, Option-cases, inl, inr, Bool, Bool-cases, true, false, Option, none, some,
  String, List, [], ◌∷◌, All, arith, eq_iff,
}
use lilnouns_monorepo.Base.Table.{Table, load, save, load-save}
use lilnouns_monorepo.Web.SeedCache.{
  TokenSeed, SeedAnswer, SeedStorage, seed_of, add_seeds, seed_array_to_object, store_seeds,
  has_expired, seeds_effect, cached_seed, request_of, is_seed_valid, with_response, answered,
  use_noun_seed,
}

-- A page looks a seed up, or the effect runs, with whether seeds were cached, when they expire, the
-- answer of the subgraph and the time.
pub data SeedStep : Type 0 where
  looked_up : (Option String → Option TokenSeed) → String → SeedStep
  effected : Bool → Option ℕ → Option (List SeedAnswer) → ℕ → SeedStep

abbrev answers_of : Option (List SeedAnswer) → List SeedAnswer
answers_of none = []
answers_of (some answers) = answers

module _ (number : String → ℕ) where
  unfoldable pub seed_step : SeedStep → SeedStorage → SeedStorage
  unfolding use_noun_seed seeds_effect
  seed_step (looked_up contract_call noun) storage = record storage {
    seeds = (use_noun_seed contract_call noun storage.seeds).1;
  }
  seed_step (effected was_cached ttl answer now) storage =
      seeds_effect number was_cached ttl answer now storage

  unfoldable pub run_seeds : List SeedStep → SeedStorage → SeedStorage
  unfolding seed_step
  run_seeds [] storage = storage
  run_seeds (step ∷ steps) storage = run_seeds steps (seed_step step storage)

module _ (number : String → ℕ) (truth : String → TokenSeed) where
  abbrev pub IsFaithful : Option (Table TokenSeed) → Type 0
  IsFaithful seeds =
      (noun : String) (s : TokenSeed) → cached_seed noun seeds ≡ some s → s ≡ truth noun

  -- What the contract and the subgraph answer is the seed of the noun; no call has no answer.
  abbrev pub IsTruthfulCall : (Option String → Option TokenSeed) → Type 0
  IsTruthfulCall contract_call =
      (contract_call none ≡ none)
      × ((noun : String) (s : TokenSeed) → contract_call (some noun) ≡ some s → s ≡ truth noun)

  abbrev pub AreTruthful : List SeedAnswer → Type 0
  AreTruthful = All (λ (a : SeedAnswer). seed_of number a ≡ truth a.id)

  save-IsFaithful :
      (noun : String) (s : TokenSeed) (seeds : Table TokenSeed)
      → s ≡ truth noun
      → IsFaithful (some seeds)
      → IsFaithful (some (save noun s seeds))
  unfolding cached_seed
  save-IsFaithful noun s seeds e h other s' =
      rw load-save (ground (arith, eq_iff noun other, h other s'))

  none_cached : IsFaithful none
  unfolding cached_seed
  none_cached noun s p = cc

  none_stored : IsFaithful (some [])
  unfolding cached_seed load
  none_stored noun s p = cc

  add_seeds-IsFaithful :
      (answers : List SeedAnswer) (seeds : Table TokenSeed)
      → AreTruthful answers
      → IsFaithful (some seeds)
      → IsFaithful (some (add_seeds number answers seeds))
  unfolding add_seeds
  add_seeds-IsFaithful [] seeds t h = h
  add_seeds-IsFaithful (a ∷ rest) seeds t h =
      add_seeds-IsFaithful rest _ t.1 (save-IsFaithful a.id (seed_of number a) seeds t.0 h)

  store_seeds-IsFaithful :
      (was_cached : Bool) (answer : Option (List SeedAnswer)) (stored : Option (Table TokenSeed))
      → AreTruthful (answers_of answer)
      → IsFaithful stored
      → IsFaithful (store_seeds number was_cached answer stored)
  unfolding store_seeds seed_array_to_object
  store_seeds-IsFaithful c none stored t h = h
  store_seeds-IsFaithful c (some []) stored t h = h
  store_seeds-IsFaithful true (some (a ∷ rest)) stored t h = h
  store_seeds-IsFaithful false (some (a ∷ rest)) stored t h =
      add_seeds-IsFaithful (a ∷ rest) [] t none_stored

  with_response-IsFaithful :
      (noun : String) (s : TokenSeed) (seeds : Option (Table TokenSeed))
      → s ≡ truth noun
      → IsFaithful seeds
      → IsFaithful (with_response noun s seeds)
  unfolding with_response
  with_response-IsFaithful noun s none e h = h
  with_response-IsFaithful noun s (some seeds) e h = elim (Bool-cases (is_seed_valid s)) [
    | inl v ↦ rw v (save-IsFaithful noun s seeds e h)
    | inr v ↦ rw v h
  ]

  -- The answer to the request of a page, and what is cached after it.
  answered-IsFaithful :
      (contract_call : Option String → Option TokenSeed) (noun : String) (seed : Option TokenSeed)
      (seeds : Option (Table TokenSeed))
      → IsTruthfulCall contract_call
      → cached_seed noun seeds ≡ seed
      → IsFaithful seeds
      → ((s : TokenSeed)
          → (answered noun seed (contract_call (request_of noun seed)) seeds).0 ≡ some s
          → s ≡ truth noun)
        × IsFaithful (answered noun seed (contract_call (request_of noun seed)) seeds).1
  unfolding answered request_of
  answered-IsFaithful contract_call noun (some seed) seeds c e h =
      rw (c.0, answered) ((λ s p. h noun s (e ∙ p)), h)
  answered-IsFaithful contract_call noun none seeds c e h =
      elim (Option-cases (contract_call (some noun))) [
        | inl p ↦ rw (p, answered) ((λ s q. cc), h)
        | inr (r, p) ↦
            rw (p, answered)
              ((λ s q. c.1 noun s (p ∙ q)), with_response-IsFaithful noun r seeds (c.1 noun r p) h)
      ]

  abbrev pub IsTruthful : SeedStep → Type 0
  IsTruthful (looked_up contract_call noun) = IsTruthfulCall contract_call
  IsTruthful (effected was_cached ttl answer now) = AreTruthful (answers_of answer)

  seed_step-IsFaithful :
      (step : SeedStep) (storage : SeedStorage)
      → IsTruthful step
      → IsFaithful storage.seeds
      → IsFaithful (seed_step number step storage).seeds
  unfolding seed_step use_noun_seed seeds_effect
  seed_step-IsFaithful (looked_up contract_call noun) storage t h =
      (answered-IsFaithful contract_call noun (cached_seed noun storage.seeds) storage.seeds t refl
        h).1
  seed_step-IsFaithful (effected was_cached ttl answer now) storage t h =
      elim (Bool-cases (has_expired number ttl now)) [
        | inl e ↦ rw e none_cached
        | inr e ↦ rw e (store_seeds-IsFaithful was_cached answer storage.seeds t h)
      ]

  run_seeds-IsFaithful :
      (steps : List SeedStep) (storage : SeedStorage)
      → All IsTruthful steps
      → IsFaithful storage.seeds
      → IsFaithful (run_seeds number steps storage).seeds
  unfolding run_seeds
  run_seeds-IsFaithful [] storage t h = h
  run_seeds-IsFaithful (step ∷ steps) storage t h =
      run_seeds-IsFaithful steps (seed_step number step storage) t.1
        (seed_step-IsFaithful step storage t.0 h)

  -- From an empty storage, after any look-ups and effects in any order, with answers of the contract and
  -- the subgraph that are the seeds of the token, a page gets for a noun its seed or nothing, and what is
  -- cached then are seeds of the token.
  pub use_noun_seed-IsFaithful :
      (steps : List SeedStep) (contract_call : Option String → Option TokenSeed) (noun : String)
      → All IsTruthful steps
      → IsTruthfulCall contract_call
      → let r =
          use_noun_seed contract_call noun
            (run_seeds number steps (record { seeds = none; expiry = none })).seeds in
        ((s : TokenSeed) → r.0 ≡ some s → s ≡ truth noun) × IsFaithful r.1
  unfolding use_noun_seed
  use_noun_seed-IsFaithful steps contract_call noun t c =
      let empty : SeedStorage = record { seeds = none; expiry = none } in
      let seeds = (run_seeds number steps empty).seeds in
      answered-IsFaithful contract_call noun (cached_seed noun seeds) seeds c refl
        (run_seeds-IsFaithful steps empty t none_cached)
