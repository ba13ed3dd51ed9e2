-- ===== src/Subgraph/Token/Steps.antt =====
-- The parts of `handleTransfer` as equations: what each returns, and the store that it leaves.
use lilnouns_monorepo.Base.{
  String, Bool, ◌&&◌, ◌≡◌, refl, true, false, Option, some, none, List, [], ◌∷◌, ◌++◌,
  if◌then◌else◌, Bool-cases, inl, inr,
}
use lilnouns_monorepo.Base.Int.{ℤ, pos, ◌+ℤ◌, ◌-ℤ◌, ltb_ℤ, eqb_ℤ}
use lilnouns_monorepo.Base.Table.{save}
use lilnouns_monorepo.Subgraph.Host.{GraphTs}
use lilnouns_monorepo.Subgraph.Entities.{Account, Governance}
use lilnouns_monorepo.Subgraph.Store.{Store, LogEntry, ◌>>=◌, ◌>>◌}
use lilnouns_monorepo.Subgraph.Helpers.Found.{
  delegate_of, with_delegate, get_or_create_delegate_lem,
}
use lilnouns_monorepo.Subgraph.Token.{
  without, remove_from_delegate, count_holders, log_negative, take_from, add_to_delegate, give_to,
}

abbrev pub removed : String → Option String → Store → Store
removed n none s = s
removed n (some d) s =
    let delegate = delegate_of d s in
    record (with_delegate d s) {
      delegates =
          save delegate.id
            (record delegate { nouns_represented = without n delegate.nouns_represented })
            (with_delegate d s).delegates;
    }

pub remove_from_delegate_lem :
    (n : String) (d : Option String) (s : Store)
    → remove_from_delegate n d s ≡ some (tt, removed n d s)
unfolding remove_from_delegate
remove_from_delegate_lem n none s = refl
remove_from_delegate_lem n (some d) s = rw (get_or_create_delegate_lem, ◌>>=◌)

pub removed-accounts :
    (n : String) (d : Option String) (s : Store) → (removed n d s).accounts ≡ s.accounts
removed-accounts n none s = refl
removed-accounts n (some d) s = refl

pub removed-nouns : (n : String) (d : Option String) (s : Store) → (removed n d s).nouns ≡ s.nouns
removed-nouns n none s = refl
removed-nouns n (some d) s = refl

-- A holder loses its last token; a holder gets its first.
abbrev pub is_last : ℤ → ℤ → Bool
is_last previous balance = eqb_ℤ balance (pos 0) && ltb_ℤ (pos 0) previous

abbrev pub is_first : ℤ → ℤ → Bool
is_first previous balance = ltb_ℤ (pos 0) balance && eqb_ℤ previous (pos 0)

unfoldable pub counted : Bool → Bool → Governance → Governance
counted last first g =
    if last
    then record g { current_token_holders = g.current_token_holders -ℤ pos 1 }
    else if first
    then record g { current_token_holders = g.current_token_holders +ℤ pos 1 }
    else g

unfoldable pub holders_saved : Bool → Bool → Governance → Option Governance → Option Governance
unfolding counted
holders_saved last first g old =
    if last then some (counted true first g) else if first then some (counted false true g) else old

pub count_holders_lem :
    (previous balance : ℤ) (g : Governance) (s : Store)
    → let last = is_last previous balance in
      let first = is_first previous balance in
      count_holders previous balance g s
      ≡ some
          (counted last first g, record s { governance = holders_saved last first g s.governance })
unfolding count_holders holders_saved counted
count_holders_lem previous balance g s = elim (Bool-cases (is_last previous balance)) [
  | inl h ↦ rw h
  | inr h ↦ rw h (elim (Bool-cases (is_first previous balance)) [ inl i ↦ rw i | inr i ↦ rw i ])
]

abbrev pub negative : GraphTs → Account → List LogEntry → List LogEntry
negative g a errors =
    if ltb_ℤ a.token_balance_raw (pos 0)
    then errors
      ++ (record {
        message = "Negative balance on holder {} with balance {}";
        args = a.id ∷ g.to_string a.token_balance_raw ∷ [];
      })
        ∷ []
    else errors

pub log_negative_lem :
    (g : GraphTs) (a : Account) (s : Store)
    → log_negative g a s ≡ some (tt, record s { errors = negative g a s.errors })
unfolding log_negative
log_negative_lem g a s = elim (Bool-cases (ltb_ℤ a.token_balance_raw (pos 0))) [
  | inl h ↦ rw h
  | inr h ↦ rw h
]

-- The old holder without the token.
abbrev pub taken : String → Account → Account
taken n a =
    let balance = a.token_balance_raw -ℤ pos 1 in
    record a {
      token_balance_raw = balance;
      token_balance = balance;
      nouns = without n a.nouns;
      delegate = if is_last a.token_balance_raw balance then none else a.delegate;
    }

-- The new holder with it.
abbrev pub given : String → Account → Account
given n a =
    let balance = a.token_balance_raw +ℤ pos 1 in
    record a {
      token_balance_raw = balance;
      token_balance = balance;
      total_tokens_held_raw = a.total_tokens_held_raw +ℤ pos 1;
      total_tokens_held = a.total_tokens_held_raw +ℤ pos 1;
      nouns = a.nouns ++ n ∷ [];
      delegate =
          if is_last a.token_balance_raw balance
          then a.delegate
          else if is_first a.token_balance_raw balance
          then some a.id
          else a.delegate;
    }

abbrev pub lighter : String → Account → Account
lighter n a = record a {
  token_balance_raw = a.token_balance_raw -ℤ pos 1;
  token_balance = a.token_balance_raw -ℤ pos 1;
  nouns = without n a.nouns;
}

module _ (n : String) (a : Account) (gov : Governance) (s : Store) where
  abbrev taken_last : Bool
  taken_last = is_last a.token_balance_raw (a.token_balance_raw -ℤ pos 1)

  abbrev taken_first : Bool
  taken_first = is_first a.token_balance_raw (a.token_balance_raw -ℤ pos 1)

  abbrev pub after_take : GraphTs → Store
  after_take g = record (removed n a.delegate s) {
    accounts = save a.id (taken n a) (removed n a.delegate s).accounts;
    governance = holders_saved taken_last taken_first gov (removed n a.delegate s).governance;
    errors = negative g (lighter n a) (removed n a.delegate s).errors;
  }

  pub take_from_lem :
      (g : GraphTs)
      → take_from g n a gov s ≡ some ((taken n a, counted taken_last taken_first gov), after_take g)
  unfolding take_from
  take_from_lem g =
      rw (remove_from_delegate_lem, ◌>>=◌, ◌>>◌)
        (rw (log_negative_lem, ◌>>=◌) (rw (count_holders_lem, ◌>>=◌)))

abbrev pub added : String → String → Store → Store
added n d s =
    let delegate = delegate_of d s in
    record (with_delegate d s) {
      delegates =
          save delegate.id
            (record delegate { nouns_represented = delegate.nouns_represented ++ n ∷ [] })
            (with_delegate d s).delegates;
    }

pub add_to_delegate_lem :
    (n d : String) (s : Store) → add_to_delegate n d s ≡ some (tt, added n d s)
unfolding add_to_delegate
add_to_delegate_lem n d s = rw (get_or_create_delegate_lem, ◌>>=◌)

module _ (n : String) (a : Account) (gov : Governance) (s : Store) where
  abbrev given_last : Bool
  given_last = is_last a.token_balance_raw (a.token_balance_raw +ℤ pos 1)

  abbrev given_first : Bool
  given_first = is_first a.token_balance_raw (a.token_balance_raw +ℤ pos 1)

  pub give_to_lem :
      give_to n a gov s
      ≡ some (
        given n a,
        record s { governance = holders_saved given_last given_first gov s.governance },
      )
  unfolding give_to
  give_to_lem = rw (count_holders_lem, ◌>>=◌)
