-- ===== src/Api/Users/Transfers.antt =====
-- The counts of tokens after a transfer, and the user after a login.
use lilnouns_monorepo.Base.{
  ◌≡◌, refl, ◌∙◌, str_eq, Bool, true, false, Option, some, String, if◌then◌else◌, ap,
}
use lilnouns_monorepo.Base.Int.{ℤ, pos, negsuc, ◌+ℤ◌}
use lilnouns_monorepo.Api.Types.{User}
use lilnouns_monorepo.Api.Prisma.{Prisma, IsLawful, resolved, writes, M, ◌>>=◌}
use lilnouns_monorepo.Api.Users.{update, is_none, set_count, sync_user_token_counts}

abbrev pub with_count : String → ℤ → User
with_count wallet n = record { wallet = wallet; lilnoun_count = n }

writes-some :
    {Db : Type 0} (f : Db → Option Db) (d d' : Db) → f d ≡ some d' → writes f d ≡ (resolved tt, d')
writes-some f d d' h = rw (h, writes)

>>=-resolves :
    {Db : Type 0} (m : M Db (Unit {0})) (f : Unit {0} → M Db (Unit {0})) (d d' : Db)
    → m d ≡ (resolved tt, d')
    → (m >>= f) d ≡ f tt d'
>>=-resolves m f d d' h = rw (h, ◌>>=◌) (ap (λ v. f tt v.1) h)

found_either :
    (c : Bool) (u v : User) (o : Option User)
    → o ≡ some v
    → (w : User) × ((if c then some u else o) ≡ some w)
found_either true u v o h = (u, refl)
found_either false u v o h = (v, h)

module _ {Db : Type 0} (prisma : Prisma Db) (law : IsLawful prisma) where
  set_count-found :
      (wallet : String) (u old : User) (change : ℤ) (d : Db)
      → prisma.find_user wallet d ≡ some old
      → (d' : Db) × (set_count prisma wallet (some u) change d ≡ (resolved tt, d'))
        × ((w : String)
            → prisma.find_user w d' ≡ (
                if str_eq wallet w
                then some (with_count wallet (u.lilnoun_count +ℤ change))
                else prisma.find_user w d))
  unfolding set_count update
  set_count-found wallet u old change d found =
      let u' = with_count wallet (u.lilnoun_count +ℤ change) in
      let written = law.update_user_found u' old d found in
      (
        written.0,
        writes-some (prisma.update_user u') d _ written.1,
        λ w. law.find-update_user u' d written.0 w written.1,
      )

  sync_user_token_counts_lem :
      (to from : String) (receiver sender : User) (d d₁ d₂ : Db)
      → prisma.find_user to d ≡ some receiver
      → prisma.find_user from d ≡ some sender
      → set_count prisma to (some receiver) (pos 1) d ≡ (resolved tt, d₁)
      → set_count prisma from (some sender) (negsuc 0) d₁ ≡ (resolved tt, d₂)
      → sync_user_token_counts prisma to from d ≡ (resolved tt, d₂)
  unfolding sync_user_token_counts is_none
  sync_user_token_counts_lem to from receiver sender d d₁ d₂ hto hfrom first second =
      rw (hto, hfrom)
        (>>=-resolves (set_count prisma to (some receiver) (pos 1))
            (λ u. set_count prisma from (some sender) (negsuc 0)) d d₁ first
          ∙ second)

  -- A transfer between users that are there gives the receiver one token more and the sender one less,
  -- and leaves all others; the sender's count is that from before the receiver's was written, so one who
  -- sends to oneself has one less.
  pub sync_user_token_counts_both :
      (to from : String) (receiver sender : User) (d : Db)
      → prisma.find_user to d ≡ some receiver
      → prisma.find_user from d ≡ some sender
      → ((sync_user_token_counts prisma to from d).0 ≡ resolved tt)
        × ((w : String)
            → prisma.find_user w (sync_user_token_counts prisma to from d).1 ≡ (
                if str_eq from w
                then some (with_count from (sender.lilnoun_count +ℤ negsuc 0))
                else if str_eq to w
                then some (with_count to (receiver.lilnoun_count +ℤ pos 1))
                else prisma.find_user w d))
  sync_user_token_counts_both to from receiver sender d hto hfrom =
      let (d₁, done, read) = set_count-found to receiver receiver (pos 1) d hto in
      let (old, hold) =
        found_either (str_eq to from) (with_count to (receiver.lilnoun_count +ℤ pos 1)) sender _
          hfrom in
      let (d₂, done', read') = set_count-found from sender old (negsuc 0) d₁ (read from ∙ hold) in
      rw (sync_user_token_counts_lem to from receiver sender d d₁ d₂ hto hfrom done done')
        (refl, λ w. rw (read', read))
