-- ===== src/Web/Logs/Updater/Started.antt =====
-- Which fetches the updater starts at a block.
use lilnouns_monorepo.Base.{
  ℕ, ltb, ◌≡◌, refl, ap, sym, ◌∙◌, str_eq, eq_iff, String, Bool, true, false, not, ◌&&◌, ◌||◌,
  Bool-cases, Option-cases, inl, inr, Option, none, some, List, [], ◌∷◌, map, if◌then◌else◌, arith,
}
use lilnouns_monorepo.Base.Int.{pos, eqb_ℤ}
use lilnouns_monorepo.Base.Table.{load, save, load-save}
use lilnouns_monorepo.Web.Logs.{
  EventFilter, Results, FilterState, LogsState, filter_to_key, change, fetching_logs, add_listener,
}
use lilnouns_monorepo.Web.Logs.Updater.{
  reached, block_of, needs_fetch, add_filter, filters_at, filters_need_fetch, start_fetches, update,
}
use lilnouns_monorepo.Web.Logs.Updater.Settled.{AreStable, IsSettled, fetching_logs-IsSettled}

-- The keys of an object are distinct.
abbrev pub AreDistinct : LogsState → Type 0
AreDistinct [] = Unit {0}
AreDistinct ((k, s) ∷ state) = (load k state ≡ none) × AreDistinct state

abbrev pub is_before : Option ℕ → ℕ → Bool
is_before none block = true
is_before (some n) block = ltb n block

abbrev pub are_before : Option Results → ℕ → Bool
are_before none block = true
are_before (some r) block = ltb r.block_number block

-- A fetch is due where a filter has listeners, and neither a fetch nor results of the block or a later one.
abbrev pub is_due : ℕ → FilterState → Bool
is_due block s =
    not (eqb_ℤ s.listeners (pos 0))
    && is_before s.fetching_block_number block
    && are_before s.results block

-- The keys of those filters, in order.
pub due_keys : ℕ → LogsState → List String
due_keys block [] = []
due_keys block ((k, s) ∷ state) =
    let rest = due_keys block state in if is_due block s then k ∷ rest else rest

abbrev started : ℕ → FilterState → FilterState
started block s = record s { fetching_block_number = some block }

-- What the start makes of an entry: one that is due is marked with the block.
abbrev pub marked : ℕ → Option FilterState → Option FilterState
marked block none = none
marked block (some s) =
    if is_due block s then some (record s { fetching_block_number = some block }) else some s

reached_lem : (block : ℕ) (o : Option ℕ) → reached block o ≡ not (is_before o block)
unfolding reached
reached_lem block none = refl
reached_lem block (some n) = ground arith

results_lem :
    (block : ℕ) (o : Option Results) → reached block (block_of o) ≡ not (are_before o block)
unfolding reached block_of
results_lem block none = refl
results_lem block (some r) = ground arith

needs_fetch_lem : (block : ℕ) (s : FilterState) → needs_fetch block s ≡ is_due block s
unfolding needs_fetch
needs_fetch_lem block s =
    ground (arith, reached_lem block s.fetching_block_number, results_lem block s.results)

-- The filters that are found have the keys that are due.
filters_at-due :
    (block : ℕ) (state : LogsState)
    → AreStable state
    → (fs : List EventFilter) × (filters_at block state ≡ some fs)
      × (map filter_to_key fs ≡ due_keys block state)
unfolding filters_at add_filter due_keys
filters_at-due block [] stable = ([], refl, refl)
filters_at-due block ((k, s) ∷ state) ((f, read, again), stable) =
    let (rest, at, keys) = filters_at-due block state stable in
    elim (Bool-cases (is_due block s)) [
      | inl due ↦ (f ∷ rest, rw (needs_fetch_lem block s, due, read, at), rw (due, again, keys))
      | inr not_due ↦ (rest, rw (needs_fetch_lem block s, not_due, at), rw (not_due, keys))
    ]

started_if : ℕ → Bool → Option FilterState → Option FilterState
started_if block c none = none
started_if block c (some s) = if c then some (started block s) else some s

load-change :
    (block : ℕ) (k j : String) (state : LogsState)
    → load j (change k (started block) state) ≡ started_if block (str_eq k j) (load j state)
unfolding started_if
load-change block k j state = elim (Option-cases (load k state)) [
  | inl h ↦
      rw (change, h)
        (elim (Bool-cases (str_eq k j)) [
          | inl e ↦
              let missing : load j state ≡ none =
                ap (λ i. load i state) (sym ((eq_iff k j).0 e)) ∙ h in
              rw missing
          | inr e ↦ elim (Option-cases (load j state)) [ inl n ↦ rw n | inr (s, n) ↦ rw (n, e) ]
        ])
  | inr (s, h) ↦
      rw (change, h)
        (rw load-save (elim (Bool-cases (str_eq k j)) [
          | inl e ↦
              let found : load j state ≡ some s =
                ap (λ i. load i state) (sym ((eq_iff k j).0 e)) ∙ h in
              rw (found, e)
          | inr e ↦ elim (Option-cases (load j state)) [
            | inl n ↦ rw (n, e)
            | inr (t, n) ↦ rw (n, e)
          ]
        ]))
]

has_key : String → List String → Bool
has_key j [] = false
has_key j (k ∷ ks) = str_eq k j || has_key j ks

started_twice :
    (block : ℕ) (c d : Bool) (o : Option FilterState)
    → started_if block c (started_if block d o) ≡ started_if block (d || c) o
unfolding started_if
started_twice block c d none = refl
started_twice block true true (some s) = refl
started_twice block true false (some s) = refl
started_twice block false true (some s) = refl
started_twice block false false (some s) = refl

load-fetching_logs :
    (block : ℕ) (j : String) (fs : List EventFilter) (state : LogsState)
    → load j (fetching_logs fs block state)
      ≡ started_if block (has_key j (map filter_to_key fs)) (load j state)
unfolding fetching_logs has_key started_if
load-fetching_logs block j [] state = elim (Option-cases (load j state)) [
  | inl h ↦ rw (h, started_if)
  | inr (s, h) ↦ rw (h, started_if)
]
load-fetching_logs block j (f ∷ fs) state =
    let k = filter_to_key f in
    load-fetching_logs block j fs (change k (started block) state)
    ∙ ap (started_if block (has_key j (map filter_to_key fs))) (load-change block k j state)
    ∙ started_twice block (has_key j (map filter_to_key fs)) (str_eq k j) (load j state)

due_at : ℕ → Option FilterState → Bool
due_at block none = false
due_at block (some s) = is_due block s

-- A key is due where its entry is.
has_key-due_keys :
    (block : ℕ) (j : String) (state : LogsState)
    → AreDistinct state
    → has_key j (due_keys block state) ≡ due_at block (load j state)
unfolding has_key due_keys due_at load
has_key-due_keys block j [] distinct = refl
has_key-due_keys block j ((k, s) ∷ state) (new, distinct) =
    let ih = has_key-due_keys block j state distinct in
    elim (Bool-cases (str_eq k j)) [
      | inr other ↦ elim (Bool-cases (is_due block s)) [
        | inl due ↦ rw (due, has_key) (rw other ih)
        | inr not_due ↦ rw not_due (rw other ih)
      ]
      | inl same ↦
          let missing : load j state ≡ none =
            ap (λ i. load i state) (sym ((eq_iff k j).0 same)) ∙ new in
          elim (Bool-cases (is_due block s)) [
            | inl due ↦ rw (due, has_key) (rw (same, due_at) (sym due))
            | inr not_due ↦
                rw not_due (rw (same, due_at) (ih ∙ ap (due_at block) missing ∙ sym not_due))
          ]
    ]

started_if-marked :
    (block : ℕ) (o : Option FilterState) → started_if block (due_at block o) o ≡ marked block o
unfolding started_if due_at
started_if-marked block none = refl
started_if-marked block (some s) = refl

save-AreDistinct :
    (k : String) (s : FilterState) (state : LogsState)
    → AreDistinct state
    → AreDistinct (save k s state)
unfolding save load
save-AreDistinct k s [] d = (refl, tt)
save-AreDistinct k s ((j, r) ∷ state) (new, d) = elim (Bool-cases (str_eq j k)) [
  | inl e ↦ rw e (ap (λ i. load i state) (sym ((eq_iff j k).0 e)) ∙ new, d)
  | inr e ↦ rw e (
    load-save j k s state ∙ ground (arith, new, e, eq_iff k j, eq_iff j k),
    save-AreDistinct k s state d,
  )
]

pub add_listener-AreDistinct :
    (filter : EventFilter) (state : LogsState)
    → AreDistinct state
    → AreDistinct (add_listener filter state)
unfolding add_listener
add_listener-AreDistinct filter state d = elim (Option-cases (load (filter_to_key filter) state)) [
  | inl e ↦ rw (add_listener, e) (save-AreDistinct (filter_to_key filter) _ state d)
  | inr (s, e) ↦ rw (add_listener, e) (save-AreDistinct (filter_to_key filter) _ state d)
]

-- At a block, over a state with distinct keys, each of which is that of the filter that is read from it,
-- the updater throws nothing. The filters that it fetches have the keys of the entries that are due, in
-- order: those with listeners, and with neither a fetch nor results of that block or a later one. Those
-- entries are marked with the block, every other stays, and no entry needs a fetch at that block then.
pub update_started :
    (block : ℕ) (state : LogsState)
    → AreStable state
    → AreDistinct state
    → (fs : List EventFilter) × (state' : LogsState) × (filters_need_fetch (some block) state
        ≡ some fs)
      × (map filter_to_key fs ≡ due_keys block state)
      × (update block state ≡ some state')
      × ((key : String)
          → (load key state' ≡ marked block (load key state)) × IsSettled block (load key state'))
unfolding update filters_need_fetch start_fetches
update_started block state stable distinct =
    let (fs, at, keys) = filters_at-due block state stable in
    (
      fs,
      fetching_logs fs block state,
      at,
      keys,
      rw at,
      λ key. (
        load-fetching_logs block key fs state
            ∙ ap (λ ks. started_if block (has_key key ks) (load key state)) keys
            ∙ ap (λ c. started_if block c (load key state))
                (has_key-due_keys block key state distinct)
            ∙ started_if-marked block (load key state),
        fetching_logs-IsSettled block state fs key stable at,
      ),
    )
