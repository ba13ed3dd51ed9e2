-- ===== src/Web/ProposalForm/Submitted.antt =====
-- What the form proposes after any events.
use lilnouns_monorepo.Base.{
  ℕ, zero, suc, length, not, ◌≡◌, refl, ◌≢◌, ap, sym, ◌∙◌, Bool-cases, true, false, inl, inr,
  Option, some, List, [], ◌∷◌, ◌++◌, map, All, arith,
}
use lilnouns_monorepo.Base.Chars.{Chars, codes, is_prefix}
use lilnouns_monorepo.Web.ProposalForm.{
  ProposalTransaction, ProposalFormState, ProposedCall, FormEvent, empty_form, opened, dismissed,
  added, removed, titled, filled, with_prefix, without_index, handle_add_proposal_action,
  handle_remove_proposal_action, handle_title_input, handle_body_input, on_form_event,
  handle_create_proposal, description_of, is_blank, proposed_call, is_form_invalid, has_enough_vote,
  is_disabled, on_click,
}

unfoldable pub run_form : List FormEvent → ProposalFormState → ProposalFormState
unfolding on_form_event
run_form [] state = state
run_form (e ∷ es) state = run_form es (on_form_event e state)

abbrev pub IsHex : Chars → Type 0
IsHex t = is_prefix (codes "0x") t ≡ true

abbrev IsPrefixed : ProposalTransaction → Type 0
IsPrefixed t = IsHex t.address × IsHex t.calldata

with_prefix-IsHex : (t : Chars) → IsHex (with_prefix t)
unfolding with_prefix is_prefix
with_prefix-IsHex t = elim (Bool-cases (is_prefix (codes "0x") t)) [
  | inl e ↦ rw (e, not) e
  | inr e ↦ rw (e, not) refl
]

All-snoc :
    (ts : List ProposalTransaction) (t : ProposalTransaction)
    → All IsPrefixed ts
    → IsPrefixed t
    → All IsPrefixed (ts ++ t ∷ [])
All-snoc [] t h k = (k, tt)
All-snoc (u ∷ ts) t h k = (h.0, All-snoc ts t h.1 k)

without_index-All :
    (i : ℕ) (ts : List ProposalTransaction)
    → All IsPrefixed ts
    → All IsPrefixed (without_index i ts)
unfolding without_index
without_index-All i [] h = tt
without_index-All zero (t ∷ ts) h = h.1
without_index-All (suc i) (t ∷ ts) h = (h.0, without_index-All i ts h.1)

event-IsPrefixed :
    (e : FormEvent) (state : ProposalFormState)
    → All IsPrefixed state.proposal_transactions
    → All IsPrefixed (on_form_event e state).proposal_transactions
unfolding on_form_event handle_add_proposal_action handle_remove_proposal_action handle_title_input
    handle_body_input
event-IsPrefixed opened state h = h
event-IsPrefixed dismissed state h = h
event-IsPrefixed (added t) state h =
    All-snoc state.proposal_transactions _ h
      (with_prefix-IsHex t.address, with_prefix-IsHex t.calldata)
event-IsPrefixed (removed i) state h = without_index-All i state.proposal_transactions h
event-IsPrefixed (titled t) state h = h
event-IsPrefixed (filled t) state h = h

run-IsPrefixed :
    (es : List FormEvent) (state : ProposalFormState)
    → All IsPrefixed state.proposal_transactions
    → All IsPrefixed (run_form es state).proposal_transactions
unfolding run_form
run-IsPrefixed [] state h = h
run-IsPrefixed (e ∷ es) state h =
    run-IsPrefixed es (on_form_event e state) (event-IsPrefixed e state h)

-- A call that the governor's checks of the lengths let through, and whose texts are hexadecimal.
pub record IsProposable (call : ProposedCall) : Type 0 where
  pub some_targets : call.targets ≢ []
  pub as_many_values : length call.values ≡ length call.targets
  pub as_many_signatures : length call.signatures ≡ length call.targets
  pub as_many_calldatas : length call.calldatas ≡ length call.targets
  pub targets_hex : All IsHex call.targets
  pub calldatas_hex : All IsHex call.calldatas

length-map {ℓ κ} :
    {A : Type ℓ} {B : Type κ} (f : A → B) (xs : List A) → length (map f xs) ≡ length xs
length-map f [] = refl
length-map f (x ∷ xs) = ap suc (length-map f xs)

targets-IsHex :
    (ts : List ProposalTransaction)
    → All IsPrefixed ts
    → All IsHex (map (λ (t : ProposalTransaction). t.address) ts)
targets-IsHex [] h = tt
targets-IsHex (t ∷ ts) h = (h.0.0, targets-IsHex ts h.1)

calldatas-IsHex :
    (ts : List ProposalTransaction)
    → All IsPrefixed ts
    → All IsHex (map (λ (t : ProposalTransaction). t.calldata) ts)
calldatas-IsHex [] h = tt
calldatas-IsHex (t ∷ ts) h = (h.0.1, calldatas-IsHex ts h.1)

proposable :
    (t : ProposalTransaction) (ts : List ProposalTransaction) (description : Chars)
    → All IsPrefixed (t ∷ ts)
    → IsProposable (proposed_call (t ∷ ts) description)
unfolding proposed_call
proposable t ts description h = record {
  some_targets = λ p. cc;
  as_many_values = ap suc (length-map _ ts ∙ sym (length-map _ ts));
  as_many_signatures = ap suc (length-map _ ts ∙ sym (length-map _ ts));
  as_many_calldatas = ap suc (length-map _ ts ∙ sym (length-map _ ts));
  targets_hex = targets-IsHex (t ∷ ts) h;
  calldatas_hex = calldatas-IsHex (t ∷ ts) h;
}

created :
    (ts : List ProposalTransaction) (state : ProposalFormState)
    → state.proposal_transactions ≡ ts
    → All IsPrefixed ts
    → is_form_invalid state ≡ false
    → (call : ProposedCall) × (handle_create_proposal state ≡ some call) × IsProposable call
unfolding handle_create_proposal is_form_invalid is_blank
created [] state e h v = absurd (ground arith)
created (t ∷ ts) state e h v =
    let description = description_of state.title_value state.body_value in
    (proposed_call (t ∷ ts) description, rw (e, is_blank) refl, proposable t ts description h)

-- After any events in the form, a click on the button with a filled form, enough votes and no other
-- proposal under way proposes a call with at least one target and as many values, signatures and call
-- data, of which the targets and the call data start with 0x.
pub on_click-IsProposable :
    (es : List FormEvent) (votes threshold : Option ℕ)
    → is_form_invalid (run_form es empty_form) ≡ false
    → has_enough_vote votes threshold ≡ true
    → (call : ProposedCall) × (on_click votes threshold false (run_form es empty_form) ≡ some call)
      × IsProposable call
unfolding on_click is_disabled
on_click-IsProposable es votes threshold v k =
    let state = run_form es empty_form in
    rw (v, k) (created state.proposal_transactions state refl (run-IsPrefixed es empty_form tt) v)
