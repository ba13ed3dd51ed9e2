-- ===== src/Subgraph/Token/Supply.antt =====
-- The supply that the governance entity counts in `totalTokenHolders`.
use lilnouns_monorepo.Base.{
  String, str_eq, Bool, ◌≡◌, refl, true, false, Option, some, none, if◌then◌else◌, Bool-cases, inl,
  inr, ◌∙◌, ap,
}
use lilnouns_monorepo.Base.Int.{ℤ, pos, ◌+ℤ◌, ◌-ℤ◌}
use lilnouns_monorepo.Base.Table.{load}
use lilnouns_monorepo.Subgraph.Host.{GraphTs}
use lilnouns_monorepo.Subgraph.Entities.{Delegate, Governance}
use lilnouns_monorepo.Subgraph.Events.{Transfer}
use lilnouns_monorepo.Subgraph.Store.{Store, exec, ◌>>=◌, ◌>>◌}
use lilnouns_monorepo.Subgraph.Helpers.{zero_address, governance_of, get_governance_entity}
use lilnouns_monorepo.Subgraph.Helpers.Found.{get_or_create_account_lem, delegate_counted}
use lilnouns_monorepo.Subgraph.Token.{handle_transfer, count_supply}
use lilnouns_monorepo.Subgraph.Token.Steps.{
  take_from_lem, add_to_delegate_lem, give_to_lem, holders_saved, counted, removed,
}

unfoldable pub supply : Option Governance → ℤ
supply g = (governance_of g).total_token_holders

supply-counted :
    (last first : Bool) (g : Governance)
    → (counted last first g).total_token_holders ≡ g.total_token_holders
unfolding counted
supply-counted true first g = refl
supply-counted false true g = refl
supply-counted false false g = refl

supply-holders_saved :
    (last first : Bool) (g : Governance) (old : Option Governance) (x : ℤ)
    → g.total_token_holders ≡ x
    → supply old ≡ x
    → supply (holders_saved last first g old) ≡ x
unfolding supply holders_saved counted
supply-holders_saved true first g old x e h = e
supply-holders_saved false true g old x e h = e
supply-holders_saved false false g old x e h = h

governance_of_lem : (g : Option Governance) → (governance_of g).total_token_holders ≡ supply g
unfolding supply
governance_of_lem g = refl

supply-some : (g : Governance) → supply (some g) ≡ g.total_token_holders
unfolding supply
supply-some g = refl

supply-delegate_counted :
    (id : String) (d : Option Delegate) (g : Option Governance)
    → supply (delegate_counted id d g) ≡ supply g
unfolding supply delegate_counted
supply-delegate_counted id (some d) g = refl
supply-delegate_counted id none g = elim (Bool-cases (str_eq id zero_address)) [
  | inl h ↦ rw h
  | inr h ↦ rw h
]

supply-removed :
    (n : String) (d : Option String) (s : Store)
    → supply (removed n d s).governance ≡ supply s.governance
supply-removed n none s = refl
supply-removed n (some d) s = supply-delegate_counted d (load d s.delegates) s.governance

module _ (g : GraphTs) (s : Store) (e : Transfer) where
  -- A transfer from the zero address counts one token more, a transfer to it one less, and any other
  -- none.
  pub supply-handle_transfer : supply (exec (handle_transfer g e) s).governance ≡ (
      let minted =
        if str_eq (g.to_hex e.from) zero_address
        then supply s.governance +ℤ pos 1
        else supply s.governance in
      if str_eq (g.to_hex e.to) zero_address then minted -ℤ pos 1 else minted)
  unfolding handle_transfer get_governance_entity count_supply
  supply-handle_transfer =
      rw (get_or_create_account_lem, exec, ◌>>=◌)
        (rw (get_or_create_account_lem, ◌>>=◌, ◌>>◌)
          (elim (Bool-cases (str_eq (g.to_hex e.from) zero_address)) [
            | inl mint ↦ rw mint (elim (Bool-cases (str_eq (g.to_hex e.to) zero_address)) [
              | inl burn ↦ rw burn (
                  rw (add_to_delegate_lem, ◌>>=◌)
                    (rw (give_to_lem, ◌>>=◌)
                      (let t = ap (λ t. t +ℤ pos 1 -ℤ pos 1) (governance_of_lem s.governance) in
                        supply-holders_saved _ _ _ _ _ t
                          (supply-delegate_counted _ _ _ ∙ supply-some _ ∙ t))))
              | inr real ↦ rw real (
                  rw (add_to_delegate_lem, ◌>>=◌)
                    (rw (give_to_lem, ◌>>=◌)
                      (let t = ap (λ t. t +ℤ pos 1) (governance_of_lem s.governance) in
                        supply-holders_saved _ _ _ _ _ t
                          (supply-delegate_counted _ _ _ ∙ supply-some _ ∙ t))))
            ])
            | inr from_real ↦
                rw (from_real, take_from_lem)
                  (elim (Bool-cases (str_eq (g.to_hex e.to) zero_address)) [
                    | inl burn ↦ rw burn (
                        rw (add_to_delegate_lem, ◌>>=◌)
                          (rw (give_to_lem, ◌>>=◌)
                            (let t =
                                ap (λ t. t -ℤ pos 1)
                                  (supply-counted _ _ _ ∙ governance_of_lem s.governance) in
                              supply-holders_saved _ _ _ _ _ t
                                (supply-delegate_counted _ _ _ ∙ supply-some _ ∙ t))))
                    | inr real ↦ rw real (
                        rw (add_to_delegate_lem, ◌>>=◌)
                          (rw (give_to_lem, ◌>>=◌)
                            (let t = governance_of_lem s.governance in
                              supply-holders_saved _ _ _ _ _ (supply-counted _ _ _ ∙ t) (
                                supply-delegate_counted _ _ _
                                ∙ supply-holders_saved _ _ _ _ _ t (supply-removed _ _ _)))))
                  ])
          ]))
