-- ===== src/Bots/Cache/Stored.antt =====
-- What is read from the cache after a write.
use lilnouns_monorepo.Base.{sym, ap, String, ℕ, ◌≡◌, ◌≢◌, str_eq-false, true, some, eq_refl, ◌∙◌}
use lilnouns_monorepo.Bots.Types.{GovernanceProposal}
use lilnouns_monorepo.Bots.Redis.{Redis, IsLawful, IsReadBack, is_some}
use lilnouns_monorepo.Bots.Cache.{
  number_or_zero, parse_proposal, get_auction_cache, update_auction_cache, update_proposal_cache,
  get_proposal_cache, set_proposal_expiry_warning_sent, has_warned_of_expiry, proposal_cache_key,
  proposal_expiry_warning_sent_cache_key, proposal_cache_key_prefix,
  proposal_expiry_warning_sent_cache_key_prefix,
}
use text.Mathlib.TextLemmas.{append_cancel_left, append_assoc}

module _ {Db : Type 0} (r : Redis Db) (law : IsLawful r) where
  pub get-update_auction_cache :
      (id : ℕ) (d : Db) → get_auction_cache r (update_auction_cache r id d) ≡ id
  unfolding get_auction_cache update_auction_cache
  get-update_auction_cache id d =
      rw law.get_set (rw (number_or_zero, law.number_truthy id) (law.number_read id))

  pub get-update_proposal_cache :
      (p : GovernanceProposal) (d : Db)
      → IsReadBack r p
      → get_proposal_cache r p.id (update_proposal_cache r p d) ≡ some p
  unfolding get_proposal_cache update_proposal_cache
  get-update_proposal_cache p d back =
      rw (law.get_set, eq_refl) (rw (parse_proposal, back.1) (rw back.0))

  pub has-set_warned :
      (id : ℕ) (d : Db) → has_warned_of_expiry r id (set_proposal_expiry_warning_sent r id d) ≡ true
  unfolding has_warned_of_expiry set_proposal_expiry_warning_sent
  has-set_warned id d = rw (law.exists_get, law.get_set, eq_refl)

  -- A proposal's key is no key of a warning.
  pub proposal-ne-warning :
      (i j : ℕ) → proposal_cache_key r i ≢ proposal_expiry_warning_sent_cache_key r j
  unfolding proposal_cache_key proposal_expiry_warning_sent_cache_key
  proposal-ne-warning i j p = law.number_digits i (r.number_text j) (
      append_cancel_left proposal_cache_key_prefix _ _
        (p ∙ append_assoc proposal_cache_key_prefix "EXPIRY_WARNING_SENT_" (r.number_text j)))

  pub has-update_proposal_cache :
      (id : ℕ) (p : GovernanceProposal) (d : Db)
      → has_warned_of_expiry r id (update_proposal_cache r p d) ≡ has_warned_of_expiry r id d
  unfolding has_warned_of_expiry update_proposal_cache
  has-update_proposal_cache id p d =
      rw (law.exists_get _ (r.set _ _ d), law.exists_get _ d)
        (rw (law.get_set, str_eq-false _ _ (proposal-ne-warning p.id id)))

  number_text_inj : (i j : ℕ) → r.number_text i ≡ r.number_text j → i ≡ j
  number_text_inj i j h = sym (law.number_read i) ∙ (ap r.number h ∙ law.number_read j)

  pub proposal_cache_key_inj : (i j : ℕ) → proposal_cache_key r i ≡ proposal_cache_key r j → i ≡ j
  unfolding proposal_cache_key
  proposal_cache_key_inj i j h =
      number_text_inj i j (append_cancel_left proposal_cache_key_prefix _ _ h)

  pub warning_key_inj :
      (i j : ℕ)
      → proposal_expiry_warning_sent_cache_key r i ≡ proposal_expiry_warning_sent_cache_key r j
      → i ≡ j
  unfolding proposal_expiry_warning_sent_cache_key
  warning_key_inj i j h =
      number_text_inj i j (append_cancel_left proposal_expiry_warning_sent_cache_key_prefix _ _ h)

  -- What is cached of a proposal depends on its two keys only.
  pub get_proposal_cache_same :
      (id : ℕ) (d d' : Db)
      → r.get (proposal_cache_key r id) d' ≡ r.get (proposal_cache_key r id) d
      → get_proposal_cache r id d' ≡ get_proposal_cache r id d
  unfolding get_proposal_cache
  get_proposal_cache_same id d d' h = ap (parse_proposal r) h

  pub has_warned_of_expiry_same :
      (id : ℕ) (d d' : Db)
      → r.get (proposal_expiry_warning_sent_cache_key r id) d'
        ≡ r.get (proposal_expiry_warning_sent_cache_key r id) d
      → has_warned_of_expiry r id d' ≡ has_warned_of_expiry r id d
  unfolding has_warned_of_expiry
  has_warned_of_expiry_same id d d' h =
      law.exists_get _ d' ∙ (ap is_some h ∙ sym (law.exists_get _ d))

  pub get-update_other :
      (k : String) (p : GovernanceProposal) (d : Db)
      → proposal_cache_key r p.id ≢ k
      → r.get k (update_proposal_cache r p d) ≡ r.get k d
  unfolding update_proposal_cache
  get-update_other k p d h = rw (law.get_set, str_eq-false _ _ h)

  pub get-set_warned_other :
      (k : String) (id : ℕ) (d : Db)
      → proposal_expiry_warning_sent_cache_key r id ≢ k
      → r.get k (set_proposal_expiry_warning_sent r id d) ≡ r.get k d
  unfolding set_proposal_expiry_warning_sent
  get-set_warned_other k id d h = rw (law.get_set, str_eq-false _ _ h)
