-- ===== src/Web/Logs/Keys/RoundTrip.antt =====
-- What is read from the key of a filter.
use Prim.Native.Char.{Char, code}
use Prim.Native.String.{◌++◌}
use text.Mathlib.TextLemmas.{nil-append, cons-append, append_assoc}
use lilnouns_monorepo.Base.{
  ℕ, ◌≡◌, refl, ◌≢◌, str_eq, String, Option, some, none, List, [], ◌∷◌, map, All, arith,
  if◌then◌else◌, ap, ◌∙◌, Bool-cases, inl, inr,
}
use lilnouns_monorepo.Web.Logs.{
  Topic, absent, one, any_of, EventFilter, join_strings, topic_text, topics_text, address_text,
  filter_to_key,
}
use lilnouns_monorepo.Web.Logs.Keys.{
  extend, split_on, of_parts, read_topic, read_address, of_pieces, key_to_filter,
}

-- A text without a character.
abbrev pub Free : ℕ → String → Type 0
Free d String.[] = Unit
Free d (String.◌∷◌ c s) = (code c ≢ d) × Free d s

split_on-Free : (d : ℕ) (s : String) → Free d s → split_on d s ≡ s ∷ []
unfolding split_on extend
split_on-Free d String.[] h = refl
split_on-Free d (String.◌∷◌ c s) (h, hs) = ground (arith, split_on-Free d s hs)

split_on-append :
    (c : Char) (s t : String)
    → Free (code c) s
    → split_on (code c) (s ++ String.◌∷◌ c t) ≡ s ∷ split_on (code c) t
unfolding split_on extend
split_on-append c String.[] t h = rw (nil-append (String.◌∷◌ c t)) (ground arith)
split_on-append c (String.◌∷◌ e s) t (h, hs) =
    rw (cons-append e s (String.◌∷◌ c t)) (ground (arith, split_on-append c s t hs))

Free-append : (d : ℕ) (s t : String) → Free d s → Free d t → Free d (s ++ t)
Free-append d String.[] t hs ht = rw (nil-append t) ht
Free-append d (String.◌∷◌ c s) t (h, hs) ht = rw (cons-append c s t) (h, Free-append d s t hs ht)

-- A separator of one character.
abbrev sep : Char → String
sep c = String.◌∷◌ c ""

split_on-sep :
    (c : Char) (s t : String)
    → Free (code c) s
    → split_on (code c) ((s ++ sep c) ++ t) ≡ s ∷ split_on (code c) t
split_on-sep c s t h =
    rw (append_assoc s (sep c) t, cons-append c "" t, nil-append t) (split_on-append c s t h)

split_on-join :
    (c : Char) (s : String) (ss : List String)
    → All (Free (code c)) (s ∷ ss)
    → split_on (code c) (join_strings (sep c) (s ∷ ss)) ≡ s ∷ ss
unfolding join_strings
split_on-join c s [] (h, _) = split_on-Free (code c) s h
split_on-join c s (t ∷ ss) (h, hs) =
    split_on-sep c s (join_strings (sep c) (t ∷ ss)) h ∙ ap (◌∷◌ s) (split_on-join c t ss hs)

Free-join :
    (d : ℕ) (separator : String) (ss : List String)
    → Free d separator
    → All (Free d) ss
    → Free d (join_strings separator ss)
unfolding join_strings
Free-join d separator [] h _ = tt
Free-join d separator (s ∷ []) h (hs, _) = hs
Free-join d separator (s ∷ t ∷ ss) h (hs, hss) =
    Free-append d (s ++ separator) (join_strings separator (t ∷ ss))
      (Free-append d s separator hs h) (Free-join d separator (t ∷ ss) h hss)

-- No separator of a key stands in the text.
abbrev pub IsPlain : String → Type 0
IsPlain s = Free b':' s × Free b'-' s × Free b';' s

abbrev pub IsPlainTopic : Topic → Type 0
IsPlainTopic absent = Unit {0}
IsPlainTopic (one s) = IsPlain s
IsPlainTopic (any_of ss) = All IsPlain ss

All-weaken {ℓ κ} :
    {A : Type ℓ} {P Q : A → Type κ} (f : (x : A) → P x → Q x) (xs : List A) → All P xs → All Q xs
All-weaken f [] h = tt
All-weaken f (x ∷ xs) (h, hs) = (f x h, All-weaken f xs hs)

-- A text of a topic has neither of the two outer separators.
Free-topic_text : (t : Topic) → IsPlainTopic t → Free b':' (topic_text t) × Free b'-' (topic_text t)
unfolding topic_text
Free-topic_text absent h = omega arith
Free-topic_text (one s) (colon, dash, _) = elim (Bool-cases (str_eq s "")) [
  | inl e ↦ rw e (omega arith)
  | inr e ↦ rw e (colon, dash)
]
Free-topic_text (any_of ss) h = (
  Free-join b':' ";" ss (omega arith) (All-weaken (λ s p. p.0) ss h),
  Free-join b'-' ";" ss (omega arith) (All-weaken (λ s p. p.1) ss h),
)

-- What a key keeps of a topic.
abbrev pub kept : Topic → Topic
kept absent = one "\0"
kept (one s) = if str_eq s "" then one "\0" else one s
kept (any_of []) = one ""
kept (any_of (s ∷ [])) = one s
kept (any_of (s ∷ t ∷ ss)) = any_of (s ∷ t ∷ ss)

read_topic-topic_text : (t : Topic) → IsPlainTopic t → read_topic (topic_text t) ≡ kept t
unfolding read_topic topic_text join_strings of_parts
read_topic-topic_text absent h = refl
read_topic-topic_text (one s) (_, _, h) = elim (Bool-cases (str_eq s "")) [
  | inl e ↦ rw e
  | inr e ↦ rw (e, split_on-Free b';' s h)
]
read_topic-topic_text (any_of []) h = refl
read_topic-topic_text (any_of (s ∷ [])) ((_, _, h), _) = rw (split_on-Free b';' s h)
read_topic-topic_text (any_of (s ∷ t ∷ ss)) h =
    ap of_parts (split_on-join ";" s (t ∷ ss) (All-weaken (λ u p. p.2) (s ∷ t ∷ ss) h))

abbrev pub kept_topics : Option (List Topic) → List Topic
kept_topics none = one "" ∷ []
kept_topics (some []) = one "" ∷ []
kept_topics (some (t ∷ ts)) = kept t ∷ map kept ts

abbrev pub ArePlain : Option (List Topic) → Type 0
ArePlain none = Unit {0}
ArePlain (some ts) = All IsPlainTopic ts

map-topic_text-All :
    (P : String → Type 0) (f : (t : Topic) → IsPlainTopic t → P (topic_text t)) (ts : List Topic)
    → All IsPlainTopic ts
    → All P (map topic_text ts)
map-topic_text-All P f [] h = tt
map-topic_text-All P f (t ∷ ts) (h, hs) = (f t h, map-topic_text-All P f ts hs)

map-read_topic :
    (ts : List Topic) → All IsPlainTopic ts → map read_topic (map topic_text ts) ≡ map kept ts
map-read_topic [] h = refl
map-read_topic (t ∷ ts) (h, hs) = cc (read_topic-topic_text t h, map-read_topic ts hs)

topics_read :
    (o : Option (List Topic))
    → ArePlain o
    → map read_topic (split_on b'-' (topics_text o)) ≡ kept_topics o
unfolding topics_text join_strings read_topic of_parts
topics_read none h = refl
topics_read (some []) h = refl
topics_read (some (t ∷ ts)) h =
    ap (map read_topic) (
      split_on-join "-" (topic_text t) (map topic_text ts)
        (map-topic_text-All (Free b'-') (λ u p. (Free-topic_text u p).1) (t ∷ ts) h))
    ∙ map-read_topic (t ∷ ts) h

Free-topics_text : (o : Option (List Topic)) → ArePlain o → Free b':' (topics_text o)
unfolding topics_text
Free-topics_text none h = tt
Free-topics_text (some ts) h =
    Free-join b':' "-" (map topic_text ts) (omega arith)
      (map-topic_text-All (Free b':') (λ u p. (Free-topic_text u p).0) ts h)

abbrev pub IsPlainAddress : Option String → Type 0
IsPlainAddress none = Unit {0}
IsPlainAddress (some a) = Free b':' a

abbrev pub kept_address : Option String → Option String
kept_address none = none
kept_address (some a) = if str_eq a "" then none else some a

read_address-address_text : (o : Option String) → read_address (address_text o) ≡ kept_address o
unfolding read_address address_text
read_address-address_text none = refl
read_address-address_text (some a) = refl

Free-address_text : (o : Option String) → IsPlainAddress o → Free b':' (address_text o)
unfolding address_text
Free-address_text none h = tt
Free-address_text (some a) h = h

-- The filter that is read from the key of one whose address has no colon and whose topics have no
-- separator is the filter, but for four changes: an empty address is none; without topics it has one
-- topic, the empty one; a topic that is absent or empty is the text of the character 0; and a list of
-- topics of one or no element is that one, or the empty one.
pub key_to_filter-filter_to_key :
    (filter : EventFilter)
    → IsPlainAddress filter.address
    → ArePlain filter.topics
    → key_to_filter (filter_to_key filter)
      ≡ some (record {
        address = kept_address filter.address;
        topics = some (kept_topics filter.topics);
      })
unfolding key_to_filter filter_to_key of_pieces
key_to_filter-filter_to_key filter free plain =
    let address = address_text filter.address in
    let topics = topics_text filter.topics in
    rw (
      split_on-sep ":" address topics (Free-address_text filter.address free),
      split_on-Free b':' topics (Free-topics_text filter.topics plain),
      read_address-address_text filter.address,
      topics_read filter.topics plain,
    )
