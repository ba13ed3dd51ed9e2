-- ===== src/Web/Logs/Updater.antt =====
-- state/updaters/logs.ts: which logs are fetched when a block arrives. The call of the provider is outside;
-- its answers are the actions `fetched_logs` and `fetched_logs_error`.
pub mod Settled
pub mod Stable
pub mod Started
use lilnouns_monorepo.Base.{
  ℕ, leb, Bool, true, false, Option, none, some, List, [], ◌∷◌, if◌then◌else◌,
}
use lilnouns_monorepo.Base.Int.{pos, eqb_ℤ}
use lilnouns_monorepo.Web.Logs.{EventFilter, Results, FilterState, LogsState, fetching_logs}
use lilnouns_monorepo.Web.Logs.Keys.{key_to_filter}

reached : ℕ → Option ℕ → Bool
reached block none = false
reached block (some n) = leb block n

block_of : Option Results → Option ℕ
block_of none = none
block_of (some r) = some r.block_number

-- The filter of `Object.keys(state)`.
unfoldable pub needs_fetch : ℕ → FilterState → Bool
unfolding reached block_of
needs_fetch block s =
    if eqb_ℤ s.listeners (pos 0)
    then false
    else if reached block s.fetching_block_number
    then false
    else if reached block (block_of s.results)
    then false
    else true

add_filter : Bool → Option EventFilter → Option (List EventFilter) → Option (List EventFilter)
add_filter false f rest = rest
add_filter true none rest = none
add_filter true (some f) none = none
add_filter true (some f) (some fs) = some (f ∷ fs)

-- The result is none where a key has no colon, and `keyToFilter` throws.
pub filters_at : ℕ → LogsState → Option (List EventFilter)
unfolding add_filter
filters_at block [] = some []
filters_at block ((key, s) ∷ state) =
    add_filter (needs_fetch block s) (key_to_filter key) (filters_at block state)

unfoldable pub filters_need_fetch : Option ℕ → LogsState → Option (List EventFilter)
unfolding filters_at
filters_need_fetch none state = some []
filters_need_fetch (some block) state = filters_at block state

start_fetches : ℕ → LogsState → Option (List EventFilter) → Option LogsState
start_fetches block state none = none
start_fetches block state (some filters) = some (fetching_logs filters block state)

-- The state after the effect at a block, without the answers of the provider.
unfoldable pub update : ℕ → LogsState → Option LogsState
unfolding start_fetches
update block state = start_fetches block state (filters_need_fetch (some block) state)
