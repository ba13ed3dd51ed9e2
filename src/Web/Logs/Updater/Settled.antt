-- ===== src/Web/Logs/Updater/Settled.antt =====
-- What the updater starts is not started again.
use mathlib.Core.Path.{subst}
use lilnouns_monorepo.Base.{
  ℕ, ◌≡◌, ◌⊎◌, inl, inr, sym, refl, ◌∙◌, str_eq, String, Bool, true, false, Bool-cases,
  Option-cases, Option, none, some, List, [], ◌∷◌, if◌then◌else◌, arith, eq_iff, All,
}
use lilnouns_monorepo.Base.Table.{load, load-save, load-save_self}
use lilnouns_monorepo.Web.Logs.{
  EventFilter, FilterState, LogsState, filter_to_key, fetching_logs, change,
}
use lilnouns_monorepo.Web.Logs.Keys.{key_to_filter}
use lilnouns_monorepo.Web.Logs.Updater.{reached, needs_fetch, add_filter, filters_at}

-- A key that the filter read from it has again.
abbrev pub IsStable : String → Type 0
IsStable key = (f : EventFilter) × (key_to_filter key ≡ some f) × (filter_to_key f ≡ key)

-- Nothing is fetched for an entry, if it is there.
abbrev pub IsSettled : ℕ → Option FilterState → Type 0
IsSettled block none = Unit {0}
IsSettled block (some s) = needs_fetch block s ≡ false

started : ℕ → FilterState → FilterState
started block s = record s { fetching_block_number = some block }

started_settled : (block : ℕ) (s : FilterState) → needs_fetch block (started block s) ≡ false
unfolding needs_fetch reached started
started_settled block s = ground arith

add_filter_lem :
    (c : Bool) (f : EventFilter) (o : Option (List EventFilter)) (fs : List EventFilter)
    → add_filter c (some f) o ≡ some fs
    → (rest : List EventFilter) × (o ≡ some rest) × (fs ≡ (if c then f ∷ rest else rest))
unfolding add_filter
add_filter_lem true f none fs h = absurd (cc)
add_filter_lem true f (some rest) fs h = (rest, refl, cc)
add_filter_lem false f none fs h = absurd (cc)
add_filter_lem false f (some rest) fs h = (rest, refl, cc)

module _ (block : ℕ) (key : String) where
  -- Starting a fetch settles the entry of its key.
  change_settles :
      (state : LogsState) → IsSettled block (load key (change key (started block) state))
  change_settles state = elim (Option-cases (load key state)) [
    | inl h ↦ rw (change, h) (rw h tt)
    | inr (s, h) ↦
        rw (change, h) (rw (load-save_self key (started block s) state) (started_settled block s))
  ]

  -- It leaves a settled entry settled.
  change_keeps :
      (other : String) (state : LogsState)
      → IsSettled block (load key state)
      → IsSettled block (load key (change other (started block) state))
  change_keeps other state settled = elim (Option-cases (load other state)) [
    | inl h ↦ rw (change, h) settled
    | inr (s, h) ↦ elim (Bool-cases (str_eq other key)) [
      | inl e ↦ rw (change, h) (rw (load-save, e) (started_settled block s))
      | inr e ↦ rw (change, h) (rw (load-save, e) settled)
    ]
  ]

  -- One of the filters has the key.
  abbrev Names : List EventFilter → Type 0
  Names [] = ⊥
  Names (f ∷ fs) = (filter_to_key f ≡ key) ⊎ Names fs

  fetching_settles :
      (fs : List EventFilter) (state : LogsState)
      → Names fs ⊎ IsSettled block (load key state)
      → IsSettled block (load key (fetching_logs fs block state))
  unfolding fetching_logs started
  fetching_settles [] state (inl h) = absurd h
  fetching_settles [] state (inr settled) = settled
  fetching_settles (f ∷ fs) state (inl (inl e)) =
      fetching_settles fs (change (filter_to_key f) (started block) state)
        (inr (rw e (change_settles state)))
  fetching_settles (f ∷ fs) state (inl (inr h)) =
      fetching_settles fs (change (filter_to_key f) (started block) state) (inl h)
  fetching_settles (f ∷ fs) state (inr settled) =
      fetching_settles fs (change (filter_to_key f) (started block) state)
        (inr (change_keeps (filter_to_key f) state settled))

  -- An entry that is not settled is among those that are to be fetched.
  filters_at-Names :
      (state : LogsState) (fs : List EventFilter) (s : FilterState)
      → All (λ (e : String × FilterState). IsStable e.0) state
      → filters_at block state ≡ some fs
      → load key state ≡ some s
      → needs_fetch block s ≡ true
      → Names fs
  unfolding filters_at load add_filter
  filters_at-Names [] fs s stable at found needs = absurd (cc)
  filters_at-Names ((k, r) ∷ state) fs s ((f, read, again), stable) at found needs =
      let (rest, at_rest, e) =
        add_filter_lem (needs_fetch block r) f (filters_at block state) fs (rw (sym read) at) in
      elim (Bool-cases (str_eq k key)) [
        | inl same ↦
            let r_is : r ≡ s = ground arith in
            let fs_is : fs ≡ f ∷ rest = ground arith in
            subst Names (sym fs_is) (inl (again ∙ (eq_iff k key).0 same))
        | inr other ↦
            let named : Names rest =
              filters_at-Names state rest s stable at_rest (ground arith) needs in
            elim (Bool-cases (needs_fetch block r)) [
              | inl c ↦
                  let fs_is : fs ≡ f ∷ rest = ground arith in subst Names (sym fs_is) (inr named)
              | inr c ↦ let fs_is : fs ≡ rest = ground arith in subst Names (sym fs_is) named
            ]
      ]

abbrev pub AreStable : LogsState → Type 0
AreStable state = All (λ (e : String × FilterState). IsStable e.0) state

-- After the fetches of a block were started, over a state whose keys are those of the filters that are read
-- from them, no entry needs one for the same block.
pub fetching_logs-IsSettled :
    (block : ℕ) (state : LogsState) (fs : List EventFilter) (key : String)
    → AreStable state
    → filters_at block state ≡ some fs
    → IsSettled block (load key (fetching_logs fs block state))
fetching_logs-IsSettled block state fs key stable at = elim (Option-cases (load key state)) [
  | inl absent ↦ fetching_settles block key fs state (inr (rw absent tt))
  | inr (s, found) ↦ elim (Bool-cases (needs_fetch block s)) [
    | inl needs ↦
        fetching_settles block key fs state
          (inl (filters_at-Names block key state fs s stable at found needs))
    | inr settled ↦ fetching_settles block key fs state (inr (rw found settled))
  ]
]
