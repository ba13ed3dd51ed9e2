-- ===== src/Api/Tags/Exclusive.antt =====
-- The virtual tags of one idea.
use lilnouns_monorepo.Base.{
  ℕ, ◌+◌, ◌≡◌, refl, ◌∙◌, length, String, List, ◌∷◌, ◌≢◌, Bool, true, false, some, arith,
}
use lilnouns_monorepo.Api.Types.{Idea}
use lilnouns_monorepo.Api.Tags.{
  week, get_is_closed, UiIdea, at_least, below, virtual_tag, virtual_tags_of, virtual_tags, is_new,
  is_discussion, is_consensus, is_closed,
}

-- The tests one after the other.
count : Bool → ℕ → ℕ
count true n = n + 1
count false n = n

length-cons :
    (c : Bool) (key : String) (ts : List String)
    → length (elim c [ true ↦ key ∷ ts | false ↦ ts ]) ≡ count c (length ts)
unfolding count
length-cons true key ts = omega arith
length-cons false key ts = refl

length-virtual_tags :
    (now : ℕ) (i : UiIdea)
    → length (virtual_tags now i)
      ≡ count
          (is_new now i)
          (count (is_discussion i) (count (is_consensus i) (count (is_closed i) 0)))
unfolding virtual_tags virtual_tags_of virtual_tag count is_new is_discussion is_consensus is_closed
length-virtual_tags now i = ground arith

-- An idea whose closing is that of its age, and whose consensus is known, has exactly one virtual tag,
-- unless it is a week old to the millisecond.
pub length-virtual_tags_known :
    (now : ℕ) (idea : Idea) (consensus : ℕ)
    → now ≢ idea.created_at + week
    → length (
        virtual_tags now
          (record { idea = idea; consensus = some consensus; closed = get_is_closed now idea }))
      ≡ 1
unfolding is_new is_discussion is_consensus is_closed at_least below get_is_closed count
length-virtual_tags_known now idea consensus h =
    length-virtual_tags now
      (record { idea = idea; consensus = some consensus; closed = get_is_closed now idea })
    ∙ (ground arith)
