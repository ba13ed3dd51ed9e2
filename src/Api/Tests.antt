-- ===== src/Api/Tests.antt =====
-- Witnesses at a database of tables.
use lilnouns_monorepo.Base.{
  ℕ, ◌==◌, ◌&&◌, ◌≡◌, refl, ◌≢◌, ◌⊎◌, inl, inr, str_eq, true, false, Option, none, some, String,
  List, [], ◌∷◌, ◌++◌, map, All, Bool-cases, if◌then◌else◌, arith, length,
}
use lilnouns_monorepo.Base.Int.{ℤ, pos, negsuc, ◌+ℤ◌, ◌*ℤ◌}
use lilnouns_monorepo.Base.Table.{Table, load, save, load-save}
use lilnouns_monorepo.Base.Chars.{Chars, codes, split}
use lilnouns_monorepo.Api.Types.{User, Vote, Idea}
use lilnouns_monorepo.Api.Prisma.{Prisma, IsLawful, direction_of, as_deleted, resolved}
use lilnouns_monorepo.Api.Filters.{parse_filter_param, get_tag_params, has_filter_id}
use lilnouns_monorepo.Api.Resolvers.{
  ListOption, StoredTag, tag_filter, get_prop_lot, profile_sort_filter,
}
use lilnouns_monorepo.Api.Resolvers.Selected.{
  shown, shown_tag, offered_virtual_tags, IsApplied, tag_filter-IsApplied,
}
use lilnouns_monorepo.Api.Votes.{FloorPercent, calculate_votes}
use lilnouns_monorepo.Api.Tags.{virtual_tags, get_is_closed}
use lilnouns_monorepo.Api.Tags.Exclusive.{length-virtual_tags_known}
use lilnouns_monorepo.Api.Ideas.{rate, get, vote_on_idea, comment_on_idea, delete_idea}
use lilnouns_monorepo.Api.Ideas.Voting.{IsOpen, vote_on_idea-votes, delete_idea-ends}
use lilnouns_monorepo.Api.Users.{login, sync_user_token_counts}
use lilnouns_monorepo.Api.Users.Transfers.{with_count, sync_user_token_counts_both}
use lilnouns_monorepo.Api.Auth.{auth_middleware, apollo_auth_scope}
use lilnouns_monorepo.Api.Auth.Agreement.{passes, IsSound, apollo_auth_scope-auth_middleware}
use lilnouns_monorepo.Api.Controllers.{reply, on_delete_idea}
use lilnouns_monorepo.Api.Controllers.Ownership.{on_delete_idea_unowned}
use lilnouns_monorepo.Api.Login.{SiweFields, LoginRequest, noun_token_count, on_login}
use lilnouns_monorepo.Api.Login.Admitted.{IsAdmitted, on_login-IsAdmitted}

record Store : Type 0 where
  users : Table User
  ideas : ℕ → Option Idea
  votes : ℕ → Table ℤ
  queried : List Idea

abbrev voted : String × ℤ → Vote
voted (wallet, n) = record {
  direction = n;
  voter = record { wallet = wallet; lilnoun_count = pos 0 };
}

abbrev update_found : User → Store → Option User → Option Store
update_found u d none = none
update_found u d (some old) = some (record d { users = save u.wallet u d.users })

abbrev delete_found : ℕ → Store → Option Idea → Option Store
delete_found i d none = none
delete_found i d (some idea) =
    some (record d { ideas = λ j. if i == j then as_deleted (d.ideas j) else d.ideas j })

abbrev upsert : ℕ → String → ℤ → Store → Store
upsert i wallet n d = record d {
  votes = λ j. if i == j then save wallet n (d.votes j) else d.votes j;
}

-- Calls that no witness makes reject, or find nothing; a query finds the ideas that the store lists.
abbrev prisma : Prisma Store
prisma = record {
  find_user = λ wallet d. load wallet d.users;
  users = λ d. [];
  create_user = λ u d. none;
  update_user = λ u d. update_found u d (load u.wallet d.users);
  find_idea = λ i d. d.ideas i;
  find_ideas = λ query d. d.queried;
  undeleted_ideas = λ d. [];
  create_idea = λ idea d. none;
  delete_idea = λ i d. delete_found i d (d.ideas i);
  find_votes = λ i d. map voted (d.votes i);
  upsert_vote = λ i wallet n d. some (upsert i wallet n d);
  find_comments = λ i d. [];
  comments_by = λ wallet latest d. [];
  find_comment = λ i d. none;
  create_comment = λ body wallet i parent d. none;
  delete_comment = λ i d. none;
}

direction_of-voted :
    (voter : String) (t : Table ℤ) → direction_of voter (map voted t) ≡ load voter t
unfolding load
direction_of-voted voter [] = refl
direction_of-voted voter ((w, n) ∷ t) = rw (direction_of-voted voter t)

update_found_lem :
    (u : User) (d d' : Store) (o : Option User) (wallet : String)
    → update_found u d o ≡ some d'
    → load wallet d'.users ≡ (if str_eq u.wallet wallet then some u else load wallet d.users)
update_found_lem u d d' none wallet h = cc
update_found_lem u d d' (some old) wallet h =
    let e : d' ≡ (record d { users = save u.wallet u d.users }) = cc in
    rw e (load-save wallet u.wallet u d.users)

update_found-some :
    (u old : User) (d : Store) (o : Option User)
    → o ≡ some old
    → (d' : Store) × (update_found u d o ≡ some d')
update_found-some u old d none h = absurd (cc)
update_found-some u old d (some v) h = (_, refl)

delete_found_lem :
    (i j : ℕ) (d d' : Store) (o : Option Idea)
    → delete_found i d o ≡ some d'
    → d'.ideas j ≡ (if i == j then as_deleted (d.ideas j) else d.ideas j)
delete_found_lem i j d d' none h = cc
delete_found_lem i j d d' (some idea) h =
    let e : d' ≡ (record d { ideas = λ k. if i == k then as_deleted (d.ideas k) else d.ideas k }) =
      cc in
    rw e

upsert_lem :
    (i j : ℕ) (wallet voter : String) (n : ℤ) (d d' : Store)
    → some (upsert i wallet n d) ≡ some d'
    → direction_of voter (map voted (d'.votes j)) ≡ (
        if (i == j) && str_eq wallet voter
        then some n
        else direction_of voter (map voted (d.votes j)))
upsert_lem i j wallet voter n d d' h =
    let e : d' ≡ upsert i wallet n d = cc in
    rw
      (
        e,
        direction_of-voted voter ((upsert i wallet n d).votes j),
        direction_of-voted voter (d.votes j),
      )
      (elim (Bool-cases (i == j)) [
        | inl same ↦ rw same (load-save voter wallet n (d.votes j))
        | inr other ↦ rw other
      ])

prisma-IsLawful : IsLawful prisma
prisma-IsLawful = record {
  find-update_user = λ u d d' wallet h. update_found_lem u d d' _ wallet h;
  update_user_found = λ u old d h. update_found-some u old d _ h;
  find-delete_idea = λ i j d d' h. delete_found_lem i j d d' _ h;
  find-upsert_vote = λ i j wallet voter n d d' h. upsert_lem i j wallet voter n d d' h;
}

abbrev no_percent : FloorPercent
no_percent count supply = pos 0

abbrev ann : User
ann = record { wallet = "0xa11ce"; lilnoun_count = pos 3 }

abbrev bob : User
bob = record { wallet = "0xb0b"; lilnoun_count = pos 9 }

abbrev idea : Idea
idea = record {
  id = 5;
  title = "A mural";
  creator_id = "0xb0b";
  created_at = 1000;
  deleted = false;
  token_supply_on_create = some 50;
  tags = "NOUNS" ∷ [];
  votes = [];
  comments = 0;
}

abbrev store : Store
store = record {
  users = ("0xa11ce", ann) ∷ ("0xb0b", bob) ∷ [];
  ideas = λ i. if i == 5 then some idea else none;
  votes = λ i. [];
  queried = idea ∷ (record idea { id = 6; created_at = 1500 }) ∷ [];
}

vote_on_idea-votes_example :
    ((negsuc 0 ≡ pos 1) ⊎ (negsuc 0 ≡ negsuc 0))
    × IsOpen prisma 2000 5 store
    × ((j : ℕ) (voter : String)
        → direction_of voter
            (prisma.find_votes j (vote_on_idea prisma 2000 5 (some (negsuc 6)) (some ann) store).1)
          ≡ (if (5 == j) && str_eq ann.wallet voter
              then some (negsuc 0)
              else direction_of voter (prisma.find_votes j store)))
unfolding vote_on_idea get_is_closed
vote_on_idea-votes_example =
    vote_on_idea-votes prisma 2000 5 prisma-IsLawful ann (some (negsuc 6)) (negsuc 0) store refl

delete_idea-ends_example :
    let d' = (delete_idea prisma 5 store).1 in
    ((vote_on_idea prisma 2000 5 (some (pos 1)) (some ann) d').0 ≢ resolved (pos 1))
    × ((comment_on_idea prisma 2000 5 "Yes" none (some ann) d').0 ≢ resolved tt)
    × ((get prisma no_percent 2000 5 d').0 ≢ resolved (rate no_percent 2000 idea))
unfolding delete_idea
delete_idea-ends_example =
    delete_idea-ends prisma 2000 5 prisma-IsLawful ann (some (pos 1)) (pos 1) "Yes" none no_percent
      (rate no_percent 2000 idea) store refl

sync_user_token_counts_both_example :
    ((sync_user_token_counts prisma "0xb0b" "0xb0b" store).0 ≡ resolved tt)
    × ((w : String)
        → prisma.find_user w (sync_user_token_counts prisma "0xb0b" "0xb0b" store).1 ≡ (
            if str_eq "0xb0b" w
            then some (with_count "0xb0b" (pos 9 +ℤ negsuc 0))
            else if str_eq "0xb0b" w
            then some (with_count "0xb0b" (pos 9 +ℤ pos 1))
            else prisma.find_user w store))
unfolding load
sync_user_token_counts_both_example =
    sync_user_token_counts_both prisma prisma-IsLawful "0xb0b" "0xb0b" bob bob store refl refl

-- The token is the user's name.
abbrev verify : Chars → Option User
verify [] = none
verify (c ∷ t) = if c == b'a' then some ann else none

apollo_auth_scope-auth_middleware_example :
    ((apollo_auth_scope verify (some (codes "Bearer ann"))).user
      ≡ passes (auth_middleware verify (some (codes "Bearer ann"))))
    × IsSound (apollo_auth_scope verify (some (codes "Bearer ann")))
apollo_auth_scope-auth_middleware_example =
    apollo_auth_scope-auth_middleware verify (some (codes "Bearer ann"))

abbrev votes : List Vote
votes =
    (record { direction = pos 1; voter = bob })
    ∷ (record { direction = negsuc 0; voter = ann })
    ∷ []

six : calculate_votes votes ≡ pos 6
unfolding calculate_votes ◌+ℤ◌ ◌*ℤ◌
six = refl

length-virtual_tags_known_example :
    length (
      virtual_tags 2000
        (record { idea = idea; consensus = some 12; closed = get_is_closed 2000 idea }))
    ≡ 1
length-virtual_tags_known_example = length-virtual_tags_known 2000 idea 12 (omega arith)

-- The idea is not the user's.
on_delete_idea_unowned_example :
    on_delete_idea prisma (some ann) 5 (record { db = store; sent = none }) ≡ (record {
      db = record store {
        ideas = λ j. if 5 == j then as_deleted (store.ideas j) else store.ideas j;
      };
      sent = some (
          if str_eq idea.creator_id ann.wallet
          then reply 200 "Idea deleted"
          else reply 500 "You must be the owner of the idea to delete it.");
    })
on_delete_idea_unowned_example =
    on_delete_idea_unowned prisma ann 5 idea store
      (record store { ideas = λ j. if 5 == j then as_deleted (store.ideas j) else store.ideas j })
      refl refl refl

abbrev fields : SiweFields
fields = record { address = "0xa11ce"; nonce = "n1" }

abbrev login_request : LoginRequest
login_request = record { message = some "Sign in"; signature = "0x5e"; nonce = some "n1" }

on_login-IsAdmitted_example :
    let s' =
      on_login prisma
        (λ u. "token")
        (λ m signature. resolved fields)
        (λ a. resolved 2)
        login_request
        (record { db = store; sent = none }) in
    (s'.db ≡ store)
    ⊎ IsAdmitted prisma
        (λ u. "token")
        (λ m signature. resolved fields)
        (λ a. resolved 2)
        login_request
        store
        s'.db
on_login-IsAdmitted_example =
    on_login-IsAdmitted prisma (λ u. "token") (λ m signature. resolved fields) (λ a. resolved 2)
      login_request (record { db = store; sent = none })

-- The login is answered, and the count of the user's tokens is the contract's.
on_login_example :
    on_login prisma
      (λ u. "token")
      (λ m signature. resolved fields)
      (λ a. resolved 2)
      login_request
      (record { db = store; sent = none })
    ≡ (record {
      db = record store {
        users =
            ("0xa11ce", record { wallet = "0xa11ce"; lilnoun_count = pos 2 }) ∷ ("0xb0b", bob) ∷ [];
      };
      sent = some (reply 200 "Account login successful");
    })
unfolding on_login noun_token_count login load save
on_login_example = refl

abbrev stored_tags : List StoredTag
stored_tags = (record { type_name = codes "ART"; label = codes "Art" }) ∷ []

abbrev two_tags : List Chars
two_tags = codes "sort=OLDEST" ∷ codes "tag=ART" ∷ codes "tag=CLOSED" ∷ []

tag_filter-IsApplied_example :
    let options = (tag_filter stored_tags (get_prop_lot two_tags).tag_params).options in
    (map shown options ≡ map shown_tag (stored_tags ++ offered_virtual_tags))
    × All (IsApplied two_tags) options
tag_filter-IsApplied_example = tag_filter-IsApplied stored_tags two_tags (omega arith)

-- The two applied tags are selected, and no other.
tag_filter_example :
    map
      (λ (o : ListOption). o.selected)
      (tag_filter stored_tags (get_prop_lot two_tags).tag_params).options
    ≡ true ∷ false ∷ false ∷ true ∷ []
unfolding tag_filter get_prop_lot get_tag_params has_filter_id parse_filter_param split
tag_filter_example = refl

-- A profile's comments cannot be sorted by votes.
profile_sort_filter_example :
    map
      (λ (o : ListOption). o.value)
      (profile_sort_filter (codes "sort=OLDEST") (codes "profile_tab=COMMENTS")).options
    ≡ codes "sort=LATEST" ∷ codes "sort=OLDEST" ∷ []
unfolding profile_sort_filter parse_filter_param
profile_sort_filter_example = refl
