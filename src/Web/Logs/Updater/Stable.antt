-- ===== src/Web/Logs/Updater/Stable.antt =====
-- Which filters have a key that is read back to the same key.
use lilnouns_monorepo.Base.{
  ◌≡◌, refl, ap, sym, str_eq, String, false, Bool-cases, Option-cases, inl, inr, Option, none, some,
  List, [], ◌∷◌, map, All, eq_iff,
}
use lilnouns_monorepo.Base.Table.{load, save}
use lilnouns_monorepo.Web.Logs.{
  Topic, absent, one, any_of, EventFilter, FilterState, LogsState, join_strings, topic_text,
  topics_text, address_text, filter_to_key, add_listener,
}
use lilnouns_monorepo.Web.Logs.Keys.RoundTrip.{
  IsPlainAddress, ArePlain, kept, kept_topics, kept_address, key_to_filter-filter_to_key,
}
use lilnouns_monorepo.Web.Logs.Updater.Settled.{IsStable, AreStable}

-- A list of topics with an element, which is not empty if it is the only one.
abbrev pub HasText : Topic → Type 0
HasText absent = Unit {0}
HasText (one s) = Unit {0}
HasText (any_of []) = ⊥
HasText (any_of (s ∷ [])) = str_eq s "" ≡ false
HasText (any_of (s ∷ t ∷ ss)) = Unit {0}

-- There is a topic, and each has a text.
abbrev pub HaveText : Option (List Topic) → Type 0
HaveText none = ⊥
HaveText (some []) = ⊥
HaveText (some (t ∷ ts)) = All HasText (t ∷ ts)

topic_text-kept : (t : Topic) → HasText t → topic_text (kept t) ≡ topic_text t
unfolding topic_text join_strings
topic_text-kept absent h = refl
topic_text-kept (one s) h = elim (Bool-cases (str_eq s "")) [ inl e ↦ rw e | inr e ↦ rw e (rw e) ]
topic_text-kept (any_of []) h = absurd h
topic_text-kept (any_of (s ∷ [])) h = rw h
topic_text-kept (any_of (s ∷ t ∷ ss)) h = refl

topic_texts-kept :
    (ts : List Topic) → All HasText ts → map topic_text (map kept ts) ≡ map topic_text ts
topic_texts-kept [] h = refl
topic_texts-kept (t ∷ ts) (h, hs) = cc (topic_text-kept t h, topic_texts-kept ts hs)

topics_text-kept :
    (o : Option (List Topic)) → HaveText o → topics_text (some (kept_topics o)) ≡ topics_text o
unfolding topics_text
topics_text-kept none h = absurd h
topics_text-kept (some []) h = absurd h
topics_text-kept (some (t ∷ ts)) h = ap (join_strings "-") (topic_texts-kept (t ∷ ts) h)

address_text-kept : (o : Option String) → address_text (kept_address o) ≡ address_text o
unfolding address_text
address_text-kept none = refl
address_text-kept (some a) = elim (Bool-cases (str_eq a "")) [
  | inl e ↦ rw e (sym ((eq_iff a "").0 e))
  | inr e ↦ rw e
]

-- The key of a filter with topics, whose parts have no separators, is the key of the filter that is read
-- from it.
pub filter_to_key-IsStable :
    (filter : EventFilter)
    → IsPlainAddress filter.address
    → ArePlain filter.topics
    → HaveText filter.topics
    → IsStable (filter_to_key filter)
filter_to_key-IsStable filter free plain texts = (
  _,
  key_to_filter-filter_to_key filter free plain,
  unfold filter_to_key in
      (rw (address_text-kept filter.address, topics_text-kept filter.topics texts)),
)

save-AreStable :
    (key : String) (s : FilterState) (state : LogsState)
    → IsStable key
    → AreStable state
    → AreStable (save key s state)
unfolding save
save-AreStable key s [] h stable = (h, tt)
save-AreStable key s ((k, r) ∷ state) h (first, stable) = elim (Bool-cases (str_eq k key)) [
  | inl e ↦ rw e (h, stable)
  | inr e ↦ rw e (first, save-AreStable key s state h stable)
]

pub add_listener-AreStable :
    (filter : EventFilter) (state : LogsState)
    → IsStable (filter_to_key filter)
    → AreStable state
    → AreStable (add_listener filter state)
unfolding add_listener
add_listener-AreStable filter state h stable =
    elim (Option-cases (load (filter_to_key filter) state)) [
      | inl e ↦ rw (add_listener, e) (save-AreStable (filter_to_key filter) _ state h stable)
      | inr (s, e) ↦ rw (add_listener, e) (save-AreStable (filter_to_key filter) _ state h stable)
    ]
