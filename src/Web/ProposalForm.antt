-- ===== src/Web/ProposalForm.antt =====
-- pages/CreateProposal/index.tsx and components/CreateProposalButton/index.tsx: the actions, the title and
-- the body of a proposal, and what is proposed to the governor. The text of a number is a parameter.
pub mod Described
pub mod Submitted
use lilnouns_monorepo.Base.{
  ℕ, ◌+◌, ◌-◌, zero, suc, ltb, not, Bool, true, false, ◌&&◌, ◌||◌, Option, none, some, List, [],
  ◌∷◌, ◌++◌, map, if◌then◌else◌,
}
use lilnouns_monorepo.Base.Chars.{Chars, codes, is_prefix}

-- A missing value is possible where the page reads it.
pub record ProposalTransaction : Type 0 where
  pub address : Chars
  pub value : Option Chars
  pub signature : Chars
  pub calldata : Chars

pub record ProposalFormState : Type 0 where
  pub proposal_transactions : List ProposalTransaction
  pub title_value : Chars
  pub body_value : Chars
  pub show_transaction_form_modal : Bool

abbrev pub empty_form : ProposalFormState
empty_form = record {
  proposal_transactions = [];
  title_value = [];
  body_value = [];
  show_transaction_form_modal = false;
}

unfoldable pub with_prefix : Chars → Chars
unfolding is_prefix
with_prefix t = if not (is_prefix (codes "0x") t) then codes "0x" ++ t else t

unfoldable pub handle_add_proposal_action :
    ProposalTransaction → ProposalFormState → ProposalFormState
unfolding with_prefix
handle_add_proposal_action transaction state =
    let prefixed = record transaction {
      address = with_prefix transaction.address;
      calldata = with_prefix transaction.calldata;
    } in
    record state {
      proposal_transactions = state.proposal_transactions ++ prefixed ∷ [];
      show_transaction_form_modal = false;
    }

-- `filter((_, i) => i !== index)`
unfoldable pub without_index : ℕ → List ProposalTransaction → List ProposalTransaction
without_index index [] = []
without_index zero (t ∷ ts) = ts
without_index (suc index) (t ∷ ts) = t ∷ without_index index ts

unfoldable pub handle_remove_proposal_action : ℕ → ProposalFormState → ProposalFormState
unfolding without_index
handle_remove_proposal_action index state = record state {
  proposal_transactions = without_index index state.proposal_transactions;
}

unfoldable pub handle_title_input : Chars → ProposalFormState → ProposalFormState
handle_title_input title state = record state { title_value = title }

unfoldable pub handle_body_input : Chars → ProposalFormState → ProposalFormState
handle_body_input body state = record state { body_value = body }

pub data FormEvent : Type 0 where
  opened dismissed : FormEvent
  added : ProposalTransaction → FormEvent
  removed : ℕ → FormEvent
  titled : Chars → FormEvent
  filled : Chars → FormEvent

unfoldable pub on_form_event : FormEvent → ProposalFormState → ProposalFormState
unfolding handle_add_proposal_action handle_remove_proposal_action handle_title_input
    handle_body_input
on_form_event opened state = record state { show_transaction_form_modal = true }
on_form_event dismissed state = record state { show_transaction_form_modal = false }
on_form_event (added transaction) state = handle_add_proposal_action transaction state
on_form_event (removed index) state = handle_remove_proposal_action index state
on_form_event (titled title) state = handle_title_input title state
on_form_event (filled body) state = handle_body_input body state

is_blank : {A : Type 0} → List A → Bool
is_blank [] = true
is_blank (a ∷ rest) = false

unfoldable pub is_form_invalid : ProposalFormState → Bool
unfolding is_blank
is_form_invalid state =
    is_blank state.proposal_transactions || is_blank state.title_value || is_blank state.body_value

-- No votes are as good as unknown ones.
unfoldable pub has_enough_vote : Option ℕ → Option ℕ → Bool
has_enough_vote none threshold = false
has_enough_vote (some votes) none = false
has_enough_vote (some votes) (some threshold) = ltb 0 votes && ltb threshold votes

-- The arguments of the governor's `propose`.
pub record ProposedCall : Type 0 where
  pub targets : List Chars
  pub values : List Chars
  pub signatures : List Chars
  pub calldatas : List Chars
  pub description : Chars

unfoldable pub or_zero : Option Chars → Chars
or_zero none = codes "0"
or_zero (some value) = value

unfoldable pub description_of : Chars → Chars → Chars
description_of title body = codes "# " ++ (title ++ (codes "\n\n" ++ body))

unfoldable pub proposed_call : List ProposalTransaction → Chars → ProposedCall
unfolding or_zero
proposed_call ts description = record {
  targets = map (λ (t : ProposalTransaction). t.address) ts;
  values = map (λ (t : ProposalTransaction). or_zero t.value) ts;
  signatures = map (λ (t : ProposalTransaction). t.signature) ts;
  calldatas = map (λ (t : ProposalTransaction). t.calldata) ts;
  description = description;
}

unfoldable pub handle_create_proposal : ProposalFormState → Option ProposedCall
unfolding description_of is_blank proposed_call
handle_create_proposal state =
    if is_blank state.proposal_transactions
    then none
    else some (
        proposed_call state.proposal_transactions
          (description_of state.title_value state.body_value))

-- A click on the button proposes nothing where the button is disabled.
unfoldable pub is_disabled : Bool → Bool → Bool → Bool
is_disabled form_invalid has_active_or_pending enough =
    form_invalid || has_active_or_pending || not enough

unfoldable pub on_click : Option ℕ → Option ℕ → Bool → ProposalFormState → Option ProposedCall
unfolding is_form_invalid has_enough_vote is_disabled handle_create_proposal
on_click votes threshold has_active_or_pending state =
    if is_disabled (is_form_invalid state) has_active_or_pending (has_enough_vote votes threshold)
    then none
    else handle_create_proposal state

module _ (number_text : ℕ → Chars) where
  not_enough : Option ℕ → Chars
  not_enough none = codes "You don't have enough votes to submit a proposal"
  not_enough (some zero) = codes "You don't have enough votes to submit a proposal"
  not_enough (some (suc n)) =
      codes "You must have " ++ number_text (suc n + 1) ++ codes " votes to submit a proposal"

  unfoldable pub button_text : Option ℕ → Bool → Bool → Chars
  unfolding not_enough
  button_text threshold has_active_or_pending enough =
      if has_active_or_pending
      then codes "You already have an active or pending proposal"
      else if not enough
      then not_enough threshold
      else codes "Create Proposal"
