-- ===== src/Web/SeedCache/Tests.antt =====
-- A witness at a token of two seeds.
use lilnouns_monorepo.Base.{
  ℕ, ◌≡◌, refl, false, Option, none, some, String, List, [], ◌∷◌, str_eq, if◌then◌else◌,
}
use lilnouns_monorepo.Base.Table.{load, save}
use lilnouns_monorepo.Web.SeedCache.{TokenSeed, SeedAnswer, use_noun_seed}
use lilnouns_monorepo.Web.SeedCache.Faithful.{
  SeedStep, looked_up, effected, IsFaithful, run_seeds, use_noun_seed-IsFaithful,
}

abbrev token : String → TokenSeed
token noun =
    if str_eq noun "1"
    then record { accessory = 3; background = 0; body = 0; glasses = 0; head = 0 }
    else record { accessory = 0; background = 1; body = 5; glasses = 2; head = 8 }

abbrev number : String → ℕ
number t = if str_eq t "3" then 3 else 0

abbrev contract_call : Option String → Option TokenSeed
contract_call none = none
contract_call (some noun) = some (token noun)

abbrev first_answer : SeedAnswer
first_answer = record {
  id = "1";
  background = "0";
  body = "0";
  accessory = "3";
  head = "0";
  glasses = "0";
}

abbrev steps : List SeedStep
steps = effected false none (some (first_answer ∷ [])) 50 ∷ looked_up contract_call "2" ∷ []

call_truthful :
    (contract_call none ≡ none)
    × ((noun : String) (s : TokenSeed) → contract_call (some noun) ≡ some s → s ≡ token noun)
call_truthful = (refl, λ noun s p. cc)

use_noun_seed-IsFaithful_example :
    let r =
      use_noun_seed contract_call "2"
        (run_seeds number steps (record { seeds = none; expiry = none })).seeds in
    ((s : TokenSeed) → r.0 ≡ some s → s ≡ token "2") × IsFaithful number token r.1
use_noun_seed-IsFaithful_example =
    use_noun_seed-IsFaithful number token steps contract_call "2" ((refl, tt), (call_truthful, tt))
      call_truthful

-- The seed of the second noun is cached, and the contract is not asked again.
cached_example :
    (use_noun_seed
      (λ q. none)
      "2"
      (run_seeds number steps (record { seeds = none; expiry = none })).seeds).0
    ≡ some (token "2")
unfolding use_noun_seed run_seeds load save
cached_example = refl
