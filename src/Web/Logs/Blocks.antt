-- ===== src/Web/Logs/Blocks.antt =====
-- The results of a filter never go back to an earlier block.
use lilnouns_monorepo.Base.{
  ℕ, ltb, ◌≤◌, ◌≡◌, str_eq, Bool-cases, Option-cases, inl, inr, Option, some, none, String, List,
  [], ◌∷◌, arith, eq_iff, sym, ◌∙◌, ap,
}
use lilnouns_monorepo.Base.Table.{load, save, load-save}
use lilnouns_monorepo.Web.Logs.{
  EventFilter, Log, Results, FilterState, LogsState, change, filter_to_key, add_listener,
  fetching_logs, replace_results, fetched_logs, fetched_logs_error, remove_listener,
}

abbrev pub HasResults : ℕ → Option Results → Type 0
HasResults b none = ⊥
HasResults b (some r) = b ≤ r.block_number

-- The filter has results of the block or of a later one.
abbrev pub IsAt : ℕ → Option FilterState → Type 0
IsAt b none = ⊥
IsAt b (some s) = HasResults b s.results

module _ (b : ℕ) (k : String) where
  save-IsAt :
      (j : String) (s s' : FilterState) (state : LogsState)
      → load j state ≡ some s
      → (IsAt b (some s) → IsAt b (some s'))
      → IsAt b (load k state)
      → IsAt b (load k (save j s' state))
  save-IsAt j s s' state h f = elim (Bool-cases (str_eq j k)) [
    | inl e ↦
        let same : load k state ≡ some s = ap (λ i. load i state) (sym ((eq_iff j k).0 e)) ∙ h in
        rw (load-save, e, same) f
    | inr e ↦ rw (load-save, e) (λ x. x)
  ]

  save_new-IsAt :
      (j : String) (s' : FilterState) (state : LogsState)
      → load j state ≡ none
      → IsAt b (load k state)
      → IsAt b (load k (save j s' state))
  save_new-IsAt j s' state h = elim (Bool-cases (str_eq j k)) [
    | inl e ↦
        let same : load k state ≡ none = ap (λ i. load i state) (sym ((eq_iff j k).0 e)) ∙ h in
        rw same (λ x. absurd x)
    | inr e ↦ rw (load-save, e) (λ x. x)
  ]

  change-IsAt :
      (j : String) (f : FilterState → FilterState) (state : LogsState)
      → ((s : FilterState) → IsAt b (some s) → IsAt b (some (f s)))
      → IsAt b (load k state)
      → IsAt b (load k (change j f state))
  change-IsAt j f state keeps = elim (Option-cases (load j state)) [
    | inl h ↦ rw (change, h) (λ x. x)
    | inr (s, h) ↦ rw (change, h) (save-IsAt j s (f s) state h (keeps s))
  ]

  replace_results-IsAt :
      (new : Results) (s : FilterState) → IsAt b (some s) → IsAt b (some (replace_results new s))
  unfolding replace_results
  replace_results-IsAt new s = by_results s.results
    where
      by_results :
          (o : Option Results)
          → HasResults b o
          → IsAt b (some (replace_results new (record s { results = o })))
      by_results none h = absurd h
      by_results (some old) h = elim (Bool-cases (ltb new.block_number old.block_number)) [
        | inl e ↦ rw e h
        | inr e ↦ rw e (ground (arith, h))
      ]

  add_listener-IsAt :
      (e : EventFilter) (state : LogsState)
      → IsAt b (load k state)
      → IsAt b (load k (add_listener e state))
  unfolding add_listener
  add_listener-IsAt e state = elim (Option-cases (load (filter_to_key e) state)) [
    | inl h ↦ rw (add_listener, h) (save_new-IsAt (filter_to_key e) _ state h)
    | inr (s, h) ↦ rw (add_listener, h) (save-IsAt (filter_to_key e) s _ state h (λ x. x))
  ]

  fetching_logs-IsAt :
      (es : List EventFilter) (n : ℕ) (state : LogsState)
      → IsAt b (load k state)
      → IsAt b (load k (fetching_logs es n state))
  unfolding fetching_logs
  fetching_logs-IsAt [] n state h = h
  fetching_logs-IsAt (e ∷ es) n state h =
      fetching_logs-IsAt es n _ (change-IsAt (filter_to_key e) _ state (λ s x. x) h)

pub data LogsAction : Type 0 where
  listened : EventFilter → LogsAction
  fetching : List EventFilter → ℕ → LogsAction
  fetched : EventFilter → ℕ → List Log → LogsAction
  failed : EventFilter → ℕ → LogsAction
  left : EventFilter → LogsAction

unfoldable pub reduce : LogsAction → LogsState → LogsState
reduce (listened e) state = add_listener e state
reduce (fetching es n) state = fetching_logs es n state
reduce (fetched e n logs) state = fetched_logs e n logs state
reduce (failed e n) state = fetched_logs_error e n state
reduce (left e) state = remove_listener e state

unfoldable pub reduce_all : List LogsAction → LogsState → LogsState
unfolding reduce
reduce_all [] state = state
reduce_all (a ∷ rest) state = reduce_all rest (reduce a state)

reduce-IsAt :
    (b : ℕ) (k : String) (a : LogsAction) (state : LogsState)
    → IsAt b (load k state)
    → IsAt b (load k (reduce a state))
unfolding reduce fetched_logs fetched_logs_error remove_listener
reduce-IsAt b k (listened e) state h = add_listener-IsAt b k e state h
reduce-IsAt b k (fetching es n) state h = fetching_logs-IsAt b k es n state h
reduce-IsAt b k (fetched e n logs) state h =
    change-IsAt b k (filter_to_key e) _ state (replace_results-IsAt b k _) h
reduce-IsAt b k (failed e n) state h =
    change-IsAt b k (filter_to_key e) _ state (replace_results-IsAt b k _) h
reduce-IsAt b k (left e) state h = change-IsAt b k (filter_to_key e) _ state (λ s x. x) h

-- Once a filter has results of a block, it has results of that block or of a later one after any
-- sequence of actions, of this filter or of others.
pub reduce_all-IsAt :
    (b : ℕ) (k : String) (actions : List LogsAction) (state : LogsState)
    → IsAt b (load k state)
    → IsAt b (load k (reduce_all actions state))
unfolding reduce_all
reduce_all-IsAt b k [] state h = h
reduce_all-IsAt b k (a ∷ rest) state h =
    reduce_all-IsAt b k rest (reduce a state) (reduce-IsAt b k a state h)
