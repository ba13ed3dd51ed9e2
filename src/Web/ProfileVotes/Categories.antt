-- ===== src/Web/ProfileVotes/Categories.antt =====
-- What each tab of a profile lists.
use lilnouns_monorepo.Base.{
  ◌≡◌, ◌≢◌, refl, ap, ◌∙◌, sym, str_eq, Bool, true, false, String, List, [], ◌∷◌, ◌++◌, append-nil,
  append_assoc, keep, if◌then◌else◌, arith, eq_iff,
}
use lilnouns_monorepo.Base.Table.{Table, load, load-save_self, load-save_ne}
use lilnouns_monorepo.Web.ProfileVotes.{
  TabFilterOption, yes_votes, no_votes, abstained, submitted, tab_value, VotedProposal,
  initial_categories, file_under, file_if, is_vote, categorise, categorise_all, or_no_entry,
  categorised_proposals,
}

-- Whether a proposal belongs on a tab of a profile.
abbrev pub belongs : String → TabFilterOption → VotedProposal → Bool
belongs id yes_votes p = is_vote 1 p.voted
belongs id no_votes p = is_vote 0 p.voted
belongs id abstained p = is_vote 2 p.voted
belongs id submitted p = str_eq p.proposal.proposer id

-- What a tab shows: without an entry, nothing.
abbrev pub shown : TabFilterOption → Table (List VotedProposal) → List VotedProposal
shown tab acc = or_no_entry (load (tab_value tab) acc)

-- The proposals on a list that is one proposal or none.
if_filed : Bool → VotedProposal → List VotedProposal
if_filed c p = if c then p ∷ [] else []

shown-file_under :
    (tab : TabFilterOption) (p : VotedProposal) (acc : Table (List VotedProposal))
    → shown tab (file_under tab p acc) ≡ shown tab acc ++ p ∷ []
unfolding file_under
shown-file_under tab p acc =
    ap or_no_entry (load-save_self (tab_value tab) (shown tab acc ++ p ∷ []) acc)

shown-file_if :
    (c : Bool) (tab : TabFilterOption) (p : VotedProposal) (acc : Table (List VotedProposal))
    → shown tab (file_if c tab p acc) ≡ shown tab acc ++ if_filed c p
unfolding file_if if_filed
shown-file_if true tab p acc = shown-file_under tab p acc
shown-file_if false tab p acc = sym (append-nil (shown tab acc))

shown-file_if_other :
    (c : Bool) (tab other : TabFilterOption) (p : VotedProposal) (acc : Table (List VotedProposal))
    → ◌≢◌ {A = String} (tab_value other) (tab_value tab)
    → shown tab (file_if c other p acc) ≡ shown tab acc
unfolding file_if file_under
shown-file_if_other true tab other p acc h =
    ap or_no_entry
      (load-save_ne (tab_value tab) (tab_value other) (shown other acc ++ p ∷ []) acc h)
shown-file_if_other false tab other p acc h = refl

differ : (s t : String) → str_eq s t ≡ false → s ≢ t
differ s t h e = ground (arith, eq_iff s t)

if_filed-keep : (q : VotedProposal → Bool) (p : VotedProposal) → if_filed (q p) p ≡ keep q (p ∷ [])
unfolding if_filed
if_filed-keep q p = ground arith

shown-categorise :
    (id : String) (tab : TabFilterOption) (acc : Table (List VotedProposal)) (p : VotedProposal)
    → shown tab (categorise id acc p) ≡ shown tab acc ++ if_filed (belongs id tab p) p
unfolding categorise
shown-categorise id yes_votes acc p =
    shown-file_if_other _ yes_votes submitted p _ (differ "SUBMITTED" "Yes" refl)
    ∙ shown-file_if_other _ yes_votes abstained p _ (differ "ABSTAINED" "Yes" refl)
    ∙ shown-file_if_other _ yes_votes no_votes p _ (differ "NO" "Yes" refl)
    ∙ shown-file_if _ yes_votes p acc
shown-categorise id no_votes acc p =
    shown-file_if_other _ no_votes submitted p _ (differ "SUBMITTED" "NO" refl)
    ∙ shown-file_if_other _ no_votes abstained p _ (differ "ABSTAINED" "NO" refl)
    ∙ shown-file_if _ no_votes p _
    ∙ ap (λ (ps : List VotedProposal). ps ++ if_filed (is_vote 0 p.voted) p)
        (shown-file_if_other _ no_votes yes_votes p acc (differ "Yes" "NO" refl))
shown-categorise id abstained acc p =
    shown-file_if_other _ abstained submitted p _ (differ "SUBMITTED" "ABSTAINED" refl)
    ∙ shown-file_if _ abstained p _
    ∙ ap (λ (ps : List VotedProposal). ps ++ if_filed (is_vote 2 p.voted) p)
        (shown-file_if_other _ abstained no_votes p _ (differ "NO" "ABSTAINED" refl)
          ∙ shown-file_if_other _ abstained yes_votes p acc (differ "Yes" "ABSTAINED" refl))
shown-categorise id submitted acc p =
    shown-file_if _ submitted p _
    ∙ ap (λ (ps : List VotedProposal). ps ++ if_filed (str_eq p.proposal.proposer id) p)
        (shown-file_if_other _ submitted abstained p _ (differ "ABSTAINED" "SUBMITTED" refl)
          ∙ shown-file_if_other _ submitted no_votes p _ (differ "NO" "SUBMITTED" refl)
          ∙ shown-file_if_other _ submitted yes_votes p acc (differ "Yes" "SUBMITTED" refl))

keep-cons :
    (q : VotedProposal → Bool) (p : VotedProposal) (ps : List VotedProposal)
    → if_filed (q p) p ++ keep q ps ≡ keep q (p ∷ ps)
unfolding if_filed
keep-cons q p ps = ground arith

shown-categorise_all :
    (id : String) (tab : TabFilterOption) (acc : Table (List VotedProposal))
    (ps : List VotedProposal)
    → shown tab (categorise_all id acc ps) ≡ shown tab acc ++ keep (belongs id tab) ps
unfolding categorise_all
shown-categorise_all id tab acc [] = sym (append-nil (shown tab acc))
shown-categorise_all id tab acc (p ∷ ps) =
    shown-categorise_all id tab (categorise id acc p) ps
    ∙ ap (λ (qs : List VotedProposal). qs ++ keep (belongs id tab) ps)
        (shown-categorise id tab acc p)
    ∙ append_assoc (shown tab acc) (if_filed (belongs id tab p) p) (keep (belongs id tab) ps)
    ∙ ap (◌++◌ (shown tab acc)) (keep-cons (belongs id tab) p ps)

shown-initial : (tab : TabFilterOption) → shown tab initial_categories ≡ []
unfolding load
shown-initial yes_votes = refl
shown-initial no_votes = refl
shown-initial abstained = refl
shown-initial submitted = refl

-- Each tab shows the proposals that belong on it, in order and each as often as it is there, first those of
-- the one DAO and then those of the other: those voted for, against or abstained on by the number of the
-- vote, and those whose proposer is the profile's address as it stands in the link.
pub categorised_proposals_lem :
    (id : String) (tab : TabFilterOption) (lil_nouns big_nouns : List VotedProposal)
    → shown tab (categorised_proposals id lil_nouns big_nouns)
      ≡ keep (belongs id tab) (lil_nouns ++ big_nouns)
unfolding categorised_proposals
categorised_proposals_lem id tab lil_nouns big_nouns =
    shown-categorise_all id tab initial_categories (lil_nouns ++ big_nouns)
    ∙ ap (λ (ps : List VotedProposal). ps ++ keep (belongs id tab) (lil_nouns ++ big_nouns))
        (shown-initial tab)
