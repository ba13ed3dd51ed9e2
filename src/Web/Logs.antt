-- ===== src/Web/Logs.antt =====
-- state/slices/logs.ts and `filterToKey` of utils/logParsing.ts: the event logs by filter.
pub mod Blocks
pub mod Keys
pub mod Updater
use Prim.Native.String.{◌++◌}
use lilnouns_monorepo.Base.{
  ℕ, ltb, str_eq, Bool, true, false, Option, some, none, String, List, [], ◌∷◌, map, if◌then◌else◌,
}
use lilnouns_monorepo.Base.Int.{ℤ, pos, ◌+ℤ◌, ◌-ℤ◌}
use lilnouns_monorepo.Base.Table.{Table, load, save}

-- `string | Array<string> | null`
pub data Topic : Type 0 where
  absent : Topic
  one : String → Topic
  any_of : List String → Topic

pub record EventFilter : Type 0 where
  pub address : Option String
  pub topics : Option (List Topic)

pub record Log : Type 0 where
  pub topics : List String
  pub transaction_hash : String
  pub log_data : String

join_strings : String → List String → String
join_strings sep [] = ""
join_strings sep (s ∷ []) = s
join_strings sep (s ∷ t ∷ ss) = (s ++ sep) ++ join_strings sep (t ∷ ss)

-- An empty text is falsy, and a list of topics never is.
topic_text : Topic → String
unfolding join_strings
topic_text absent = "\0"
topic_text (one s) = if str_eq s "" then "\0" else s
topic_text (any_of ss) = join_strings ";" ss

topics_text : Option (List Topic) → String
unfolding topic_text join_strings
topics_text none = ""
topics_text (some ts) = join_strings "-" (map topic_text ts)

address_text : Option String → String
address_text none = ""
address_text (some a) = a

unfoldable pub filter_to_key : EventFilter → String
unfolding topics_text address_text
filter_to_key filter = (address_text filter.address ++ ":") ++ topics_text filter.topics

-- The logs up to a block, or `none` for an error.
pub record Results : Type 0 where
  pub block_number : ℕ
  pub logs : Option (List Log)

pub record FilterState : Type 0 where
  pub listeners : ℤ
  pub fetching_block_number : Option ℕ
  pub results : Option Results

abbrev pub LogsState : Type 0
LogsState = Table FilterState

-- `if (!state[key]) return;` and a change of the entry
abbrev pub change : String → (FilterState → FilterState) → LogsState → LogsState
change key f state = elim (load key state) [ none ↦ state | some s ↦ save key (f s) state ]

unfoldable pub add_listener : EventFilter → LogsState → LogsState
add_listener filter state = elim (load (filter_to_key filter) state) [
  | none ↦
      save (filter_to_key filter)
        (record { listeners = pos 1; fetching_block_number = none; results = none }) state
  | some s ↦ save (filter_to_key filter) (record s { listeners = s.listeners +ℤ pos 1 }) state
]

unfoldable pub fetching_logs : List EventFilter → ℕ → LogsState → LogsState
fetching_logs [] block_number state = state
fetching_logs (filter ∷ filters) block_number state = fetching_logs filters block_number (
    change (filter_to_key filter) (λ s. record s { fetching_block_number = some block_number })
      state)

-- Results of an earlier block than those at hand are dropped.
unfoldable pub replace_results : Results → FilterState → FilterState
replace_results new s = elim s.results [
  | none ↦ record s { results = some new }
  | some old ↦ if ltb new.block_number old.block_number then s else record s { results = some new }
]

unfoldable pub fetched_logs : EventFilter → ℕ → List Log → LogsState → LogsState
unfolding replace_results
fetched_logs filter block_number logs state =
    change (filter_to_key filter)
      (replace_results (record { block_number = block_number; logs = some logs })) state

unfoldable pub fetched_logs_error : EventFilter → ℕ → LogsState → LogsState
unfolding replace_results
fetched_logs_error filter block_number state =
    change (filter_to_key filter)
      (replace_results (record { block_number = block_number; logs = none })) state

unfoldable pub remove_listener : EventFilter → LogsState → LogsState
remove_listener filter state =
    change (filter_to_key filter) (λ s. record s { listeners = s.listeners -ℤ pos 1 }) state
