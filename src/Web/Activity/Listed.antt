-- ===== src/Web/Activity/Listed.antt =====
-- The order of the listed events, and which are left out.
use mathlib.Core.List.Perm
use mathlib.Core.List.{Perm, reverse, reverse_perm}
use lilnouns_monorepo.Base.{
  ℕ, ◌+◌, ◌-◌, ◌%◌, ◌==◌, ◌||◌, ◌≤◌, zero, suc, ltb, leb, ◌≡◌, refl, ap, ◌∙◌, ◌⊎◌, inl, inr, none,
  some, true, false, Bool, List, [], ◌∷◌, ◌++◌, map, get_elem?, if◌then◌else◌, length,
  length-append, drop, take-append-drop, length-drop, arith,
}
use lilnouns_monorepo.Base.Sorting.{
  sort, IsSortedBy, sort-IsSortedBy, sort-perm, reverse-IsSortedBy, length-sort, length-reverse,
}
use lilnouns_monorepo.Web.Activity.{
  Dated, TransferEvent, DelegationEvent, NounProfileEvent, transfer, delegation, auction_win, has,
  as_transfer, as_delegation, is_earlier, all_events, slice_but, birth_events, win_event,
  post_processed, use_noun_activity,
}

lower_asym : (a b : NounProfileEvent) → is_earlier a b ≡ true → is_earlier b a ≡ false
lower_asym a b h = ground arith

lower_trans :
    (a b c : NounProfileEvent)
    → is_earlier b a ≡ false
    → is_earlier c b ≡ false
    → is_earlier c a ≡ false
lower_trans a b c h k = ground arith

-- Of two events, what the list shows first.
abbrev pub higher : NounProfileEvent → NounProfileEvent → Bool
higher a b = ltb b.block_number a.block_number

-- All events, the latest first.
latest_first : List NounProfileEvent → List NounProfileEvent
latest_first events = reverse (sort is_earlier events)

latest_first-IsSortedBy : (events : List NounProfileEvent) → IsSortedBy higher (latest_first events)
unfolding latest_first
latest_first-IsSortedBy events =
    reverse-IsSortedBy is_earlier (sort is_earlier events)
      (sort-IsSortedBy is_earlier lower_asym lower_trans events)

latest_first-perm : (events : List NounProfileEvent) → Perm (latest_first events) events
unfolding latest_first
latest_first-perm events =
    Perm.trans (reverse_perm (sort is_earlier events)) (sort-perm is_earlier events)

length-latest_first :
    (events : List NounProfileEvent) → length (latest_first events) ≡ length events
unfolding latest_first
length-latest_first events = length-reverse (sort is_earlier events) ∙ length-sort is_earlier events

slice_but_lem :
    (n : ℕ) (events : List NounProfileEvent)
    → n ≤ length events
    → (dropped : List NounProfileEvent) × (slice_but n events ++ dropped ≡ events)
      × (length dropped ≡ n)
unfolding slice_but
slice_but_lem n events h =
    let enough : leb n (length events) ≡ true = ground arith in
    (
      drop (length events - n) events,
      rw enough (take-append-drop (length events - n) events),
      omega (arith, length-drop (length events - n) events),
    )

length-map {ℓ κ} :
    {A : Type ℓ} {B : Type κ} (f : A → B) (xs : List A) → length (map f xs) ≡ length xs
length-map f [] = refl
length-map f (x ∷ xs) = ap suc (length-map f xs)

-- The events of a transfer and of a delegation.
abbrev pub moved : Dated TransferEvent → NounProfileEvent
moved e = record { block_number = e.block_number; payload = transfer e.payload }

abbrev pub delegated : Dated DelegationEvent → NounProfileEvent
delegated e = record { block_number = e.block_number; payload = delegation e.payload }

length-all_events :
    (votes : List NounProfileEvent) (transfers : List (Dated TransferEvent))
    (delegations : List (Dated DelegationEvent))
    → length (all_events votes transfers delegations)
      ≡ length votes + length transfers + length delegations
unfolding all_events as_transfer as_delegation
length-all_events votes transfers delegations = omega (
  arith,
  length-append votes (map moved transfers ++ map delegated delegations),
  length-append (map moved transfers) (map delegated delegations),
  length-map moved transfers,
  length-map delegated delegations,
)

-- How many events belong to the birth of a noun, and how many transfers stand before that to its winner:
-- two and none for a noun that is given away, whose number ends in 0 or 1, else four and one.
abbrev pub AreOfBirth : ℕ → ℕ → ℕ → Type 0
AreOfBirth noun_id events before =
    ((noun_id % 10 ≤ 1) × (events ≡ 2) × (before ≡ 0))
    ⊎ ((2 ≤ noun_id % 10) × (events ≡ 4) × (before ≡ 1))

-- The win of a transfer.
abbrev pub win_of : ℕ → Dated TransferEvent → NounProfileEvent
win_of noun_id e = record {
  block_number = e.block_number;
  payload = auction_win (record {
    noun_id = noun_id;
    winner = e.payload.to;
    transaction_hash = e.payload.transaction_hash;
  });
}

abbrev pub earlier : Dated TransferEvent → Dated TransferEvent → Bool
earlier a b = ltb a.block_number b.block_number

earlier_asym : (a b : Dated TransferEvent) → earlier a b ≡ true → earlier b a ≡ false
earlier_asym a b h = ground arith

earlier_trans :
    (a b c : Dated TransferEvent) → earlier b a ≡ false → earlier c b ≡ false → earlier c a ≡ false
earlier_trans a b c h k = ground arith

-- The win is that of the transfer before which a number of transfers stand in the order of their blocks,
-- and there is none if there are not as many transfers.
abbrev pub IsWin : ℕ → ℕ → List (Dated TransferEvent) → List NounProfileEvent → Type 0
IsWin noun_id before transfers win =
    ((length transfers ≤ before) × (win ≡ []))
    ⊎ ((first : List (Dated TransferEvent)) × (e : Dated TransferEvent) × (rest : List
          (Dated TransferEvent))
        × (length first ≡ before)
        × Perm (first ++ e ∷ rest) transfers
        × IsSortedBy earlier (first ++ e ∷ rest)
        × (win ≡ win_of noun_id e ∷ []))

-- The place in a list, with what stands before and after it.
place_lem {ℓ} :
    {A : Type ℓ} (n : ℕ) (xs : List A)
    → ((length xs ≤ n) × (get_elem? xs n ≡ none))
      ⊎ ((first : List A) × (x : A) × (rest : List A) × (length first ≡ n)
          × (first ++ x ∷ rest ≡ xs)
          × (get_elem? xs n ≡ some x))
place_lem n [] = inl (omega arith, refl)
place_lem zero (x ∷ xs) = inr ([], x, xs, refl, refl, refl)
place_lem (suc n) (x ∷ xs) = elim (place_lem n xs) [
  | inl (short, none_there) ↦ inl (omega arith, none_there)
  | inr (first, y, rest, count, whole, there) ↦
      inr (x ∷ first, y, rest, ap suc count, ap (λ ys. x ∷ ys) whole, there)
]

birth_events_lem : (noun_id n before : ℕ) → AreOfBirth noun_id n before → birth_events noun_id ≡ n
unfolding birth_events
birth_events_lem noun_id n before (inl (digit, events, _)) = ground arith
birth_events_lem noun_id n before (inr (digit, events, _)) = ground arith

win_place_lem :
    (noun_id n before : ℕ)
    → AreOfBirth noun_id n before
    → (if noun_id % 10 == 0 || noun_id % 10 == 1 then 0 else 1) ≡ before
win_place_lem noun_id n before (inl (digit, events, place)) = ground arith
win_place_lem noun_id n before (inr (digit, events, place)) = ground arith

win_event-IsWin :
    (noun_id n before : ℕ) (transfers : List (Dated TransferEvent))
    → AreOfBirth noun_id n before
    → IsWin noun_id before transfers (win_event noun_id transfers)
unfolding win_event
win_event-IsWin noun_id n before transfers h =
    let sorted = sort is_earlier transfers in
    let sorted_by = sort-IsSortedBy earlier earlier_asym earlier_trans transfers in
    rw (win_event, win_place_lem noun_id n before h)
      (elim (place_lem before sorted) [
        | inl (short, none_there) ↦
            rw none_there (inl (omega (arith, short, length-sort is_earlier transfers), refl))
        | inr (first, e, rest, count, whole, there) ↦ rw there (
            inr (
              first,
              e,
              rest,
              count,
              rw whole (sort-perm is_earlier transfers),
              rw whole sorted_by,
              refl,
            ))
      ])

-- Where all data is there, with at least as many events as belong to the noun's birth (two for a noun that
-- is given away, whose number ends in 0 or 1, else four), the page lists the votes, transfers and
-- delegations but that many, and then the win, which is that of the first transfer of a noun that is given
-- away, and else of the second one, if it is there. Each event is listed as often as it is there, the
-- latest block first, and none that is left out is of a later block than one that is listed.
pub use_noun_activity_listed :
    (noun_id n before : ℕ) (votes : List NounProfileEvent) (transfers : List (Dated TransferEvent))
    (delegations : List (Dated DelegationEvent))
    → AreOfBirth noun_id n before
    → n ≤ length votes + length transfers + length delegations
    → (listed dropped win : List NounProfileEvent) × (use_noun_activity noun_id
          (has votes)
          (has transfers)
          (has delegations)
        ≡ has (listed ++ win))
      × (length dropped ≡ n)
      × Perm (listed ++ dropped) (votes ++ (map moved transfers ++ map delegated delegations))
      × IsSortedBy higher (listed ++ dropped)
      × IsWin noun_id before transfers win
unfolding use_noun_activity post_processed latest_first all_events as_transfer as_delegation
use_noun_activity_listed noun_id n before votes transfers delegations birth h =
    let events = all_events votes transfers delegations in
    let count_of = birth_events_lem noun_id n before birth in
    let (dropped, cut, count) = slice_but_lem n (latest_first events) (
      omega
        (arith, h, length-latest_first events, length-all_events votes transfers delegations)) in
    (
      slice_but n (latest_first events),
      dropped,
      win_event noun_id transfers,
      rw count_of refl,
      count,
      rw cut (latest_first-perm events),
      rw cut (latest_first-IsSortedBy events),
      win_event-IsWin noun_id n before transfers birth,
    )
