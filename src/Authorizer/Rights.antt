-- ===== src/Authorizer/Rights.antt =====
-- What the scopes in a client's token allow.
use mathlib.Core.List.{append-nil, append_assoc}
use catena.Base.{
  ◌≡◌, refl, sym, ap, ◌∙◌, ◌↔◌, Bool, true, false, ◌&&◌, ◌||◌, not, List, [], ◌∷◌, ◌++◌, some, All,
  any, ◌==◌, arith, Option-cases, Bool-cases, inl, inr,
}
use catena.Base.Text.{Text, txt, eqb}
use catena.Base.TextSet.{contains, insert, contains-insert}
use catena.Status.{returns}
use catena.Authorizer.{
  Authorizer, Claim, text_claim, authorizer, read_claims, read_claim, getline_scopes, has_authz,
  write_authz, read_authz, write_authz_param,
}

-- A text as words that are each ended by a space, and a last one that is not.
abbrev pub spaced : List Text → Text → Text
spaced [] last = last
spaced (w ∷ ws) last = w ++ b' ' ∷ spaced ws last

abbrev pub IsWord : Text → Type 0
IsWord w = any (λ c. c == b' ') w ≡ false

-- The words of such a text; the last is one if it is not empty.
abbrev pub has_word : Text → List Text → Text → Bool
has_word x ws last = any (λ w. eqb w x) ws || (not (eqb last []) && eqb last x)

-- No claim has the key `scope`.
abbrev pub lacks_scope : List (Text × Claim) → Bool
lacks_scope [] = true
lacks_scope ((key, c) ∷ claims) = not (eqb key (txt "scope")) && lacks_scope claims

last_word :
    (x cur last : Text) (scopes : List Text)
    → IsWord last
    → contains x (getline_scopes cur last scopes)
      ≡ ((not (eqb (cur ++ last) []) && eqb (cur ++ last) x) || contains x scopes)
unfolding getline_scopes eqb
last_word x [] [] scopes h = refl
last_word x (c ∷ cur) [] scopes h =
    contains-insert (c ∷ cur) x scopes
    ∙ ap (λ w. eqb (c ∷ w) x || contains x scopes) (sym (append-nil cur))
last_word x cur (c ∷ last) scopes h = elim (Bool-cases (c == b' ')) [
  | inl space ↦ absurd (ground arith)
  | inr other ↦
      let more = last_word x (cur ++ c ∷ []) last scopes (rw other at h) in
      rw other (rw (append_assoc cur (c ∷ []) last) at more)
]

first_word :
    (cur w rest : Text) (scopes : List Text)
    → IsWord w
    → getline_scopes cur (w ++ b' ' ∷ rest) scopes
      ≡ getline_scopes [] rest (insert (cur ++ w) scopes)
unfolding getline_scopes
first_word cur [] rest scopes h = rw (append-nil cur) refl
first_word cur (c ∷ w) rest scopes h = elim (Bool-cases (c == b' ')) [
  | inl space ↦ absurd (ground arith)
  | inr other ↦
      let more = first_word (cur ++ c ∷ []) w rest scopes (rw other at h) in
      rw other (rw (append_assoc cur (c ∷ []) w) at more)
]

getline_scopes-words :
    (x : Text) (ws : List Text) (last : Text) (scopes : List Text)
    → All IsWord ws
    → IsWord last
    → contains x (getline_scopes [] (spaced ws last) scopes)
      ≡ (has_word x ws last || contains x scopes)
getline_scopes-words x [] last scopes h e = last_word x [] last scopes e
getline_scopes-words x (w ∷ ws) last scopes (h, hs) e =
    rw
      (
        first_word [] w (spaced ws last) scopes h,
        getline_scopes-words x ws last (insert w scopes) hs e,
      )
      (ground (arith, contains-insert w x scopes))

read_claim-disabled :
    (a b : Authorizer) (key : Text) (c : Claim)
    → read_claim a key c ≡ some b
    → b.disabled ≡ a.disabled
unfolding read_claim
read_claim-disabled a b key (Claim.text_claim t) h = ground arith
read_claim-disabled a b key (Claim.number_claim n) h = ground arith
read_claim-disabled a b key Claim.other_claim h = ground arith

read_claims-disabled :
    (a b : Authorizer) (claims : List (Text × Claim))
    → read_claims a claims ≡ some b
    → b.disabled ≡ a.disabled
unfolding read_claims
read_claims-disabled a b [] h = ground arith
read_claims-disabled a b ((key, c) ∷ claims) h = elim (Option-cases (read_claim a key c)) [
  | inl e ↦ absurd (ground arith)
  | inr (a', e) ↦ ground (arith, read_claim-disabled a a' key c e, read_claims-disabled a' b claims)
]

read_claim-other :
    (a b : Authorizer) (key : Text) (c : Claim)
    → eqb key (txt "scope") ≡ false
    → read_claim a key c ≡ some b
    → b.client_scopes ≡ a.client_scopes
unfolding read_claim
read_claim-other a b key (Claim.text_claim t) other h = ground arith
read_claim-other a b key (Claim.number_claim n) other h = ground arith
read_claim-other a b key Claim.other_claim other h = ground arith

read_claims-other :
    (a b : Authorizer) (claims : List (Text × Claim))
    → lacks_scope claims ≡ true
    → read_claims a claims ≡ some b
    → b.client_scopes ≡ a.client_scopes
unfolding read_claims
read_claims-other a b [] other h = ground arith
read_claims-other a b ((key, c) ∷ claims) other h = elim (Option-cases (read_claim a key c)) [
  | inl e ↦ absurd (ground arith)
  | inr (a', e) ↦ ground (
    arith,
    read_claim-other a a' key c (ground arith) e,
    read_claims-other a' b claims (ground arith),
  )
]

scope_first :
    (a b : Authorizer) (after : List (Text × Claim)) (t : Text)
    → lacks_scope after ≡ true
    → read_claims a ((txt "scope", text_claim t) ∷ after) ≡ some b
    → b.client_scopes ≡ getline_scopes [] t a.client_scopes
unfolding read_claims read_claim eqb
scope_first a b after t none_there h =
    read_claims-other (record a { client_scopes = getline_scopes [] t a.client_scopes }) b after
      none_there h

-- The scopes of a token with one claim of that name.
read_claims-scope :
    (a b : Authorizer) (before after : List (Text × Claim)) (t : Text)
    → lacks_scope before ≡ true
    → lacks_scope after ≡ true
    → read_claims a (before ++ (txt "scope", text_claim t) ∷ after) ≡ some b
    → b.client_scopes ≡ getline_scopes [] t a.client_scopes
unfolding read_claims
read_claims-scope a b [] after t none_here none_there h = scope_first a b after t none_there h
read_claims-scope a b ((key, c) ∷ before) after t none_here none_there h =
    elim (Option-cases (read_claim a key c)) [
      | inl e ↦ absurd (ground arith)
      | inr (a', e) ↦
          let same = read_claim-other a a' key c (ground arith) e in
          rw same at (
            read_claims-scope a' b before after t (ground arith) none_there
              (rw (read_claims, e) at h))
    ]

nothing_yet : (x : Text) (b : Bool) → (b || contains x []) ≡ b
unfolding contains
nothing_yet x b = ground arith

-- The scopes that a token names are the words of its claim `scope`, which spaces separate. An authorizer
-- made from a token with one such claim, among whatever others, allows a write exactly where the parameter
-- is not read-only and the parameter's scope with `:w` is one of the words, and a read exactly where the scope is
-- one of them, with or without `:w`.
pub authz_iff :
    (before after : List (Text × Claim)) (ws : List Text) (last : Text) (a : Authorizer)
    (read_only : Bool) (scope : Text)
    → lacks_scope before ≡ true
    → lacks_scope after ≡ true
    → All IsWord ws
    → IsWord last
    → authorizer (some (before ++ (txt "scope", text_claim (spaced ws last)) ∷ after)) ≡ returns a
    → ((write_authz_param a read_only scope ≡ true)
        ↔ ((read_only ≡ false) × (has_word (scope ++ txt ":w") ws last ≡ true)))
      × ((read_authz a scope ≡ true)
          ↔ ((has_word scope ws last || has_word (scope ++ txt ":w") ws last) ≡ true))
unfolding authorizer write_authz_param read_authz write_authz has_authz
authz_iff before after ws last a read_only scope none_here none_there words word h =
    let fresh : Authorizer = record { disabled = false; client_scopes = []; exp = 0 } in
    let claims = before ++ (txt "scope", text_claim (spaced ws last)) ∷ after in
    elim (Option-cases (read_claims fresh claims)) [
      | inl e ↦ absurd (ground arith)
      | inr (b, e) ↦
          let off : a.disabled ≡ false = ground (arith, read_claims-disabled fresh b claims e) in
          let same : a.client_scopes ≡ b.client_scopes = ground arith in
          let read =
            read_claims-scope fresh b before after (spaced ws last) none_here none_there e in
          let named : (x : Text) → contains x a.client_scopes ≡ has_word x ws last = λ x.
            ap (λ scopes. contains x scopes) (same ∙ read)
            ∙ getline_scopes-words x ws last [] words word
            ∙ nothing_yet x (has_word x ws last) in
          rw (off, named scope, named (scope ++ txt ":w"))
            ((ground arith, ground arith), (ground arith, ground arith))
    ]
