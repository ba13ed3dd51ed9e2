-- ===== src/Web/Transactions/Signatures.antt =====
-- The name and the types that are read from the text of a signature.
use lilnouns_monorepo.Base.{
  ℕ, ltb, ◌≡◌, ◌≢◌, refl, ap, sym, ◌∙◌, true, false, Option, some, List, [], ◌∷◌, ◌++◌, map, All,
  append_assoc, append-nil, if◌then◌else◌, arith,
}
use lilnouns_monorepo.Base.Chars.{Chars, codes, push, join}
use lilnouns_monorepo.Web.Transactions.{
  Details, init, add_name, cut, read_signature, closes, split_types, is_empty_text, amount_text,
  decoded_details, details_of, format_transaction, big_details_of, decoded_or_raw,
  format_big_noun_transaction,
}

-- A text without commas and parentheses, and one without parentheses.
abbrev pub IsWord : Chars → Type 0
IsWord = All (λ c. (c ≢ b',') × (c ≢ b'(') × (c ≢ b')'))

abbrev pub HasNoParen : Chars → Type 0
HasNoParen = All (λ c. (c ≢ b'(') × (c ≢ b')'))

-- The type of an argument: a word, or a flat tuple with a suffix, such as `(address,uint256)[]`.
pub data ArgumentType : Type 0 where
  word : Chars → ArgumentType
  tuple : Chars → Chars → ArgumentType

abbrev pub type_text : ArgumentType → Chars
type_text (word w) = w
type_text (tuple inner suffix) = b'(' ∷ (inner ++ b')' ∷ suffix)

abbrev pub IsFlat : ArgumentType → Type 0
IsFlat (word w) = IsWord w
IsFlat (tuple inner suffix) = HasNoParen inner × IsWord suffix

init-snoc : (c : ℕ) (s : Chars) → init (s ++ c ∷ []) ≡ s
unfolding init
init-snoc c [] = refl
init-snoc c (d ∷ []) = refl
init-snoc c (d ∷ e ∷ s) = ap (◌∷◌ d) (init-snoc c (e ∷ s))

cut-append :
    (name types : Chars)
    → All (λ c. c ≢ b'(') name
    → cut (name ++ b'(' ∷ types) ≡ (name, some types)
unfolding cut add_name
cut-append [] types h = refl
cut-append (c ∷ name) types (h, hs) = ground (arith, cut-append name types hs)

-- The name and the types of a signature are those that it was written from.
read_signature-append :
    (name types : Chars)
    → All (λ c. c ≢ b'(') name
    → read_signature (name ++ b'(' ∷ (types ++ b')' ∷ [])) ≡ (name, some types)
unfolding read_signature
read_signature-append name types h =
    ap cut (
      ap init (sym (append_assoc name (b'(' ∷ types) (b')' ∷ [])))
      ∙ init-snoc b')' (name ++ b'(' ∷ types))
    ∙ cut-append name types h

closes-word : (w s : Chars) → IsWord w → closes (w ++ s) ≡ closes s
unfolding closes
closes-word [] s h = refl
closes-word (c ∷ w) s (h, hs) = ground (arith, closes-word w s hs)

closes-inner : (inner s : Chars) → HasNoParen inner → closes (inner ++ b')' ∷ s) ≡ true
unfolding closes
closes-inner [] s h = refl
closes-inner (c ∷ inner) s (h, hs) = ground (arith, closes-inner inner s hs)

-- The texts of types, one after the other.
abbrev pub types_text : List ArgumentType → Chars
types_text ts = join (map type_text ts) (b',' ∷ [])

closes-types : (ts : List ArgumentType) → All IsFlat ts → closes (types_text ts) ≡ false
unfolding join closes
closes-types [] h = refl
closes-types (word w ∷ []) (h, _) = ap closes (sym (append-nil w)) ∙ closes-word w [] h
closes-types (tuple inner suffix ∷ []) h = refl
closes-types (word w ∷ t ∷ ts) (h, hs) =
    closes-word w (b',' ∷ types_text (t ∷ ts)) h ∙ closes-types (t ∷ ts) hs
closes-types (tuple inner suffix ∷ t ∷ ts) h = refl

-- The first piece with a text before it.
prepend : Chars → List Chars → List Chars
prepend [] ps = ps
prepend (c ∷ s) ps = push c (prepend s ps)

split_types-word : (w s : Chars) → IsWord w → split_types (w ++ s) ≡ prepend w (split_types s)
unfolding split_types prepend
split_types-word [] s h = refl
split_types-word (c ∷ w) s (h, hs) = ground (arith, split_types-word w s hs)

split_types-inner :
    (inner s : Chars)
    → HasNoParen inner
    → split_types (inner ++ b')' ∷ s) ≡ prepend inner (push b')' (split_types s))
unfolding split_types prepend
split_types-inner [] s h = refl
split_types-inner (c ∷ inner) s (h, hs) =
    ground (arith, split_types-inner inner s hs, closes-inner inner s hs)

prepend-append : (s t : Chars) (ps : List Chars) → prepend (s ++ t) ps ≡ prepend s (prepend t ps)
unfolding prepend
prepend-append [] t ps = refl
prepend-append (c ∷ s) t ps = ap (push c) (prepend-append s t ps)

prepend-cons : (s p : Chars) (ps : List Chars) → prepend s (p ∷ ps) ≡ (s ++ p) ∷ ps
unfolding prepend push
prepend-cons [] p ps = refl
prepend-cons (c ∷ s) p ps = ap (push c) (prepend-cons s p ps)

split_types-tuple :
    (inner suffix s : Chars)
    → HasNoParen inner
    → IsWord suffix
    → split_types (b'(' ∷ (inner ++ b')' ∷ (suffix ++ s)))
      ≡ prepend (b'(' ∷ (inner ++ b')' ∷ suffix)) (split_types s)
unfolding split_types prepend
split_types-tuple inner suffix s h k = ap (push b'(') (
    split_types-inner inner (suffix ++ s) h
    ∙ ap (λ (ps : List Chars). prepend inner (push b')' ps)) (split_types-word suffix s k)
    ∙ sym (prepend-append inner (b')' ∷ suffix) (split_types s)))

split_types-text :
    (t : ArgumentType) (s : Chars)
    → IsFlat t
    → split_types (type_text t ++ s) ≡ prepend (type_text t) (split_types s)
split_types-text (word w) s h = split_types-word w s h
split_types-text (tuple inner suffix) s (h, k) =
    ap (λ (u : Chars). split_types (b'(' ∷ u)) (append_assoc inner (b')' ∷ suffix) s)
    ∙ split_types-tuple inner suffix s h k

split_types-comma : (s : Chars) → closes s ≡ false → split_types (b',' ∷ s) ≡ [] ∷ split_types s
unfolding split_types
split_types-comma s h = rw h

-- The types that are handed to the decoder are those that the signature was written from.
split_types-types_text :
    (t : ArgumentType) (ts : List ArgumentType)
    → All IsFlat (t ∷ ts)
    → split_types (types_text (t ∷ ts)) ≡ map type_text (t ∷ ts)
unfolding join split_types
split_types-types_text t [] (h, _) =
    ap split_types (sym (append-nil (type_text t)))
    ∙ split_types-text t [] h
    ∙ prepend-cons (type_text t) [] []
    ∙ ap (λ (u : Chars). u ∷ []) (append-nil (type_text t))
split_types-types_text t (u ∷ ts) (h, hs) =
    split_types-text t (b',' ∷ types_text (u ∷ ts)) h
    ∙ ap (prepend (type_text t))
        (split_types-comma (types_text (u ∷ ts)) (closes-types (u ∷ ts) hs))
    ∙ prepend-cons (type_text t) [] (split_types (types_text (u ∷ ts)))
    ∙ ap (λ (x : Chars). x ∷ split_types (types_text (u ∷ ts))) (append-nil (type_text t))
    ∙ ap (◌∷◌ (type_text t)) (split_types-types_text u ts hs)

not_empty : (s : Chars) → s ≢ [] → is_empty_text s ≡ false
unfolding is_empty_text
not_empty [] h = absurd (h refl)
not_empty (c ∷ s) h = refl

module _ (format_ether : ℕ → Chars) (decode : List Chars → Chars → Option Chars)
    (selector : Chars → Chars) where
  -- The details of a decoded call.
  abbrev pub decoded_call : Chars → Chars → ℕ → Chars → Details
  decoded_call target name value decoded = record {
    target = target;
    function_sig = some name;
    call_data = decoded;
    value =
        some
          (if ltb 0 value then codes "{ value: " ++ (format_ether value ++ codes " ETH }") else []);
  }

  format_decoded :
      (target name types : Chars) (value : ℕ) (calldata decoded : Chars)
      → name ≢ []
      → types ≢ []
      → decode (split_types types) calldata ≡ some decoded
      → details_of format_ether decode target value calldata (name, some types)
        ≡ some (decoded_call target name value decoded)
  unfolding details_of decoded_details amount_text
  format_decoded target name types value calldata decoded h k e =
      rw (not_empty name h, not_empty types k, e)

  big_format_decoded :
      (target signature name types : Chars) (value : ℕ) (calldata decoded : Chars)
      → name ≢ []
      → types ≢ []
      → decode (split_types types) calldata ≡ some decoded
      → big_details_of format_ether decode selector target signature value calldata
          (name, some types)
        ≡ decoded_call target name value decoded
  unfolding big_details_of decoded_or_raw decoded_details amount_text
  big_format_decoded target signature name types value calldata decoded h k e =
      rw (not_empty name h, not_empty types k, e)

  -- A call whose signature is a name and its types in parentheses, which are words and flat tuples, is shown,
  -- in either DAO's proposals, with that name, and with what the decoder makes of just these types, if it
  -- does not throw.
  pub format_transaction_decoded :
      (target name : Chars) (t : ArgumentType) (ts : List ArgumentType) (value : ℕ)
      (calldata decoded : Chars)
      → name ≢ []
      → All (λ c. c ≢ b'(') name
      → All IsFlat (t ∷ ts)
      → types_text (t ∷ ts) ≢ []
      → decode (map type_text (t ∷ ts)) calldata ≡ some decoded
      → let signature = name ++ b'(' ∷ (types_text (t ∷ ts) ++ b')' ∷ []) in
        (format_transaction format_ether decode target signature value calldata
          ≡ some (decoded_call target name value decoded))
        × (format_big_noun_transaction format_ether decode selector target signature value calldata
            ≡ decoded_call target name value decoded)
  unfolding format_transaction format_big_noun_transaction
  format_transaction_decoded target name t ts value calldata decoded some_name h flat some_types e =
      let types = types_text (t ∷ ts) in
      let read = read_signature-append name types h in
      let known : decode (split_types types) calldata ≡ some decoded =
        ap (λ (ps : List Chars). decode ps calldata) (split_types-types_text t ts flat) ∙ e in
      (
        rw read
            (format_decoded target name types value calldata decoded some_name some_types known),
        rw read (
            big_format_decoded target _ name types value calldata decoded some_name some_types
              known),
      )
