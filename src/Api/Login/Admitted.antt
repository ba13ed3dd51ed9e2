-- ===== src/Api/Login/Admitted.antt =====
-- Who is logged in.
use lilnouns_monorepo.Base.{
  ℕ, ◌<◌, ◌≡◌, refl, ◌⊎◌, inl, inr, ◌∙◌, str_eq, ltb, true, false, Option, none, some, String,
  arith, eq_iff, Bool-cases, if◌then◌else◌,
}
use lilnouns_monorepo.Base.Int.{pos}
use lilnouns_monorepo.Api.Types.{User}
use lilnouns_monorepo.Api.Prisma.{Prisma, M, Outcome, resolved, rejected}
use lilnouns_monorepo.Api.Users.{login}
use lilnouns_monorepo.Api.Controllers.{
  is_absent, Exchange, Step, Response, reply, ◌>>◌, send, call, handled,
}
use lilnouns_monorepo.Api.Login.{
  LoginRequest, SiweFields, noun_token_count, text_of, other_nonce, has_none, count_of, throw,
  enter_counted, check_nonce, validated, on_login,
}

module _ {Db : Type 0} where
  send-db : (r : Response) (s : Exchange Db) → (send r s).0.db ≡ s.db
  send-db r s = ground arith

  handled-db : (m : Step Db) (s : Exchange Db) → (handled m s).db ≡ (m s).0.db
  handled-db m s = ground arith

  call-db :
      {A : Type 0} (m : M Db A) (r : Response) (s : Exchange Db)
      → ((call m >> send r) s).0.db ≡ (m s.db).1
  call-db m r s = ground arith

Outcome-cases :
    {A : Type 0} (o : Outcome A) → ((a : A) × (o ≡ resolved a)) ⊎ ((e : String) × (o ≡ rejected e))
Outcome-cases (resolved a) = inl (a, refl)
Outcome-cases (rejected e) = inr (e, refl)

noun_token_count_lem :
    (count : String → Outcome ℕ) {account : String} {n : ℕ}
    → count account ≡ resolved n
    → noun_token_count count account ≡ some n
unfolding noun_token_count
noun_token_count_lem count h = ground arith

message_cases :
    (o : Option String)
    → (is_absent o ≡ true) ⊎ ((m : String) × (o ≡ some m) × (str_eq m "" ≡ false))
unfolding is_absent
message_cases none = inl refl
message_cases (some m) = elim (Bool-cases (str_eq m "")) [
  | inl empty ↦ inl empty
  | inr text ↦ inr (m, refl, text)
]

same_nonce_lem : (o : Option String) (n : String) → other_nonce o n ≡ false → o ≡ some n
unfolding other_nonce
same_nonce_lem none n h = cc
same_nonce_lem (some m) n h = ground (arith, eq_iff m n)

module _ {Db : Type 0} (prisma : Prisma Db) (sign : User → String)
    (siwe : String → String → Outcome SiweFields) (count : String → Outcome ℕ) where
  -- What must hold for a login with the database `d` that leaves `d'`.
  pub record IsAdmitted (body : LoginRequest) (d d' : Db) : Type 0 where
    pub message : String
    pub fields : SiweFields
    pub votes : ℕ
    pub sent : body.message ≡ some message
    pub signed : siwe message body.signature ≡ resolved fields
    pub same_nonce : body.nonce ≡ some fields.nonce
    pub counted : count fields.address ≡ resolved votes
    pub holds : 0 < votes
    pub written :
        d' ≡ (login prisma sign (record { wallet = fields.address; lilnoun_count = pos votes }) d).1

  enter_counted-some :
      (address : String) (n : ℕ) (s : Exchange Db)
      → ltb 0 n ≡ true
      → (enter_counted prisma sign siwe count address (some n) s).0.db
        ≡ (login prisma sign (record { wallet = address; lilnoun_count = pos n }) s.db).1
  unfolding enter_counted has_none count_of
  enter_counted-some address n s more =
      rw more (call-db (login prisma sign (record { wallet = address; lilnoun_count = pos n })) _ s)

  enter_counted-none :
      (address : String) (o : Option ℕ) (s : Exchange Db)
      → has_none o ≡ true
      → (enter_counted prisma sign siwe count address o s).0.db ≡ s.db
  unfolding enter_counted throw
  enter_counted-none address o s h = rw h

  enter_counted_step :
      (address : String) (s : Exchange Db)
      → let s' =
          (enter_counted prisma sign siwe count address (noun_token_count count address) s).0 in
        (s'.db ≡ s.db)
        ⊎ ((n : ℕ) × (count address ≡ resolved n)
            × (0 < n)
            × (s'.db
                ≡ (login prisma sign (record { wallet = address; lilnoun_count = pos n }) s.db).1))
  enter_counted_step address s = elim (Outcome-cases (count address)) [
    | inr (e, h) ↦
        inl (enter_counted-none address _ s (unfold noun_token_count has_none in (ground arith)))
    | inl (n, h) ↦ elim (Bool-cases (ltb 0 n)) [
      | inl more ↦ inr (
        n,
        h,
        ground arith,
        rw (noun_token_count_lem count h) (enter_counted-some address n s more),
      )
      | inr not_more ↦ inl (
          enter_counted-none address _ s
            (rw (noun_token_count_lem count h) (unfold has_none in (rw not_more))))
    ]
  ]

  validated_step :
      (body : LoginRequest) (message : String) (s : Exchange Db)
      → body.message ≡ some message
      → let s' = (validated prisma sign siwe count body.nonce (siwe message body.signature) s).0 in
        (s'.db ≡ s.db) ⊎ IsAdmitted body s.db s'.db
  unfolding validated check_nonce throw other_nonce
  validated_step body message s sent = elim (Outcome-cases (siwe message body.signature)) [
    | inr (e, h) ↦ inl (rw h)
    | inl (fields, h) ↦ elim (Bool-cases (other_nonce body.nonce fields.nonce)) [
      | inl other ↦ inl (rw (h, other) (send-db _ s))
      | inr same ↦ elim (enter_counted_step fields.address s) [
        | inl kept ↦ inl (rw (h, same) kept)
        | inr (n, counted, holds, written) ↦ inr (record {
          message = message;
          fields = fields;
          votes = n;
          sent = sent;
          signed = h;
          same_nonce = same_nonce_lem body.nonce fields.nonce same;
          counted = counted;
          holds = holds;
          written = rw (h, same) written;
        })
      ]
    ]
  ]

  -- The request's text is validated, unless it is missing or empty.
  message_step :
      (o expected : Option String) (signature message : String) (s : Exchange Db)
      → o ≡ some message
      → str_eq message "" ≡ false
      → (handled
          (if is_absent o
            then send (reply 422 "User does not have a lil noun")
            else validated prisma sign siwe count expected (siwe (text_of o) signature))
          s).db
        ≡ (validated prisma sign siwe count expected (siwe message signature) s).0.db
  unfolding is_absent text_of
  message_step o expected signature message s sent text =
      rw (sent, text)
        (handled-db (validated prisma sign siwe count expected (siwe message signature)) s)

  no_message_step :
      (o expected : Option String) (signature : String) (s : Exchange Db)
      → is_absent o ≡ true
      → (handled
          (if is_absent o
            then send (reply 422 "User does not have a lil noun")
            else validated prisma sign siwe count expected (siwe (text_of o) signature))
          s).db
        ≡ s.db
  no_message_step o expected signature s h = rw h (handled-db (send _) s ∙ send-db _ s)

  on_login-message :
      (body : LoginRequest) (message : String) (s : Exchange Db)
      → body.message ≡ some message
      → str_eq message "" ≡ false
      → (on_login prisma sign siwe count body s).db
        ≡ (validated prisma sign siwe count body.nonce (siwe message body.signature) s).0.db
  unfolding on_login
  on_login-message body message s sent text =
      message_step body.message body.nonce body.signature message s sent text

  on_login-no_message :
      (body : LoginRequest) (s : Exchange Db)
      → is_absent body.message ≡ true
      → (on_login prisma sign siwe count body s).db ≡ s.db
  unfolding on_login
  on_login-no_message body s h = no_message_step body.message body.nonce body.signature s h

  -- A login changes the database at most as the service's login does, for the address of a message
  -- whose signature is valid and whose nonce is the request's, with the votes that the contract
  -- counts for it, which are at least one.
  pub on_login-IsAdmitted :
      (body : LoginRequest) (s : Exchange Db)
      → let s' = on_login prisma sign siwe count body s in
        (s'.db ≡ s.db) ⊎ IsAdmitted body s.db s'.db
  on_login-IsAdmitted body s = elim (message_cases body.message) [
    | inl missing ↦ inl (on_login-no_message body s missing)
    | inr (message, sent, text) ↦
        rw (on_login-message body message s sent text) (validated_step body message s sent)
  ]
