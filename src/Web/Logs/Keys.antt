-- ===== src/Web/Logs/Keys.antt =====
-- utils/logParsing.ts, `keyToFilter`: the filter of a key.
pub mod RoundTrip
use Prim.Native.Char.{Char, code}
use lilnouns_monorepo.Base.{
  ℕ, ◌==◌, str_eq, String, Option, some, none, List, [], ◌∷◌, map, if◌then◌else◌,
}
use lilnouns_monorepo.Web.Logs.{Topic, one, any_of, EventFilter}

extend : Char → List String → List String
extend c [] = String.◌∷◌ c "" ∷ []
extend c (p ∷ ps) = String.◌∷◌ c p ∷ ps

-- `s.split(d)` at a separator of one character
split_on : ℕ → String → List String
unfolding extend
split_on d String.[] = "" ∷ []
split_on d (String.◌∷◌ c s) =
    let rest = split_on d s in if code c == d then "" ∷ rest else extend c rest

-- A topic of one part is that part.
of_parts : List String → Topic
of_parts (s ∷ []) = one s
of_parts ss = any_of ss

read_topic : String → Topic
unfolding split_on of_parts
read_topic topic = of_parts (split_on b';' topic)

read_address : String → Option String
read_address address = if str_eq address "" then none else some address

-- `pcs[0]` and `pcs[1]`; without a second piece, its `split` throws.
of_pieces : List String → Option EventFilter
unfolding split_on read_topic read_address
of_pieces [] = none
of_pieces (address ∷ []) = none
of_pieces (address ∷ topics ∷ rest) = some (record {
  address = read_address address;
  topics = some (map read_topic (split_on b'-' topics));
})

unfoldable pub key_to_filter : String → Option EventFilter
unfolding split_on of_pieces
key_to_filter key = of_pieces (split_on b':' key)
