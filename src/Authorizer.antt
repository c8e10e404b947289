-- ===== src/Authorizer.antt =====
-- sdks/cpp/common/src/Authorizer.cpp, and the scopes of include/Enums.h.
--
-- Decoding the token is the JWT library's: its claims are an argument, `none` where it throws.
pub mod Rights
use catena.Base.{
  ℕ, ◌<◌, Bool, true, false, ◌&&◌, ◌||◌, not, List, [], ◌∷◌, ◌++◌, Option, none, some, ltb, ◌==◌,
  if◌then◌else◌,
}
use catena.Base.Text.{Text, txt, eqb}
use catena.Base.TextSet.{contains, insert}
use catena.Status.{Outcome, returns, throws, with_status, unauthenticated, ◌>>=◌}

-- `Scopes_e`, and the names of the forward map.
pub data Scope : Type 0 where
  undefined_scope monitor operate config admin : Scope

unfoldable pub scope_name : Scope → Text
scope_name undefined_scope = txt "undefined"
scope_name monitor = txt "st2138:mon"
scope_name operate = txt "st2138:op"
scope_name config = txt "st2138:cfg"
scope_name admin = txt "st2138:adm"

-- `disabled` says that the object is `kAuthzDisabled`; `exp` is 0 where the token has no time.
pub record Authorizer : Type 0 where
  pub disabled : Bool
  pub client_scopes : List Text
  pub exp : ℕ

abbrev pub authz_disabled : Authorizer
authz_disabled = record { disabled = true; client_scopes = [] ∷ []; exp = 0 }

-- A claim's value: a text, a number, or something else.
pub data Claim : Type 0 where
  text_claim : Text → Claim
  number_claim : ℕ → Claim
  other_claim : Claim

-- The loop over `std::getline(iss, scopeClaim, ' ')`: no piece follows the last space.
getline_scopes : Text → Text → List Text → List Text
getline_scopes cur [] scopes = elim cur [ [] ↦ scopes | c ∷ s ↦ insert (c ∷ s) scopes ]
getline_scopes cur (c ∷ s) scopes =
    let next = getline_scopes [] s (insert cur scopes) in
    let longer = getline_scopes (cur ++ c ∷ []) s scopes in if c == b' ' then next else longer

-- One claim; a claim of the wrong type makes the library throw.
read_claim : Authorizer → Text → Claim → Option Authorizer
unfolding getline_scopes
read_claim a key claim =
    if eqb key (txt "scope")
    then elim claim [
      | text_claim t ↦ some (record a { client_scopes = getline_scopes [] t a.client_scopes })
      | _ ↦ none
    ]
    else if eqb key (txt "exp")
    then elim claim [ number_claim n ↦ some (record a { exp = n }) | _ ↦ none ]
    else some a

read_claims : Authorizer → List (Text × Claim) → Option Authorizer
unfolding read_claim
read_claims a [] = some a
read_claims a ((key, claim) ∷ claims) = elim (read_claim a key claim) [
  | none ↦ none
  | some b ↦ read_claims b claims
]

-- The constructor.
unfoldable pub authorizer : Option (List (Text × Claim)) → Outcome Authorizer
unfolding read_claims
authorizer none = throws (with_status unauthenticated)
authorizer (some claims) =
    elim (read_claims (record { disabled = false; client_scopes = []; exp = 0 }) claims) [
      | none ↦ throws (with_status unauthenticated)
      | some a ↦ returns a
    ]

unfoldable pub is_expired : Authorizer → ℕ → Bool
is_expired a now = ltb 0 a.exp && ltb a.exp now

unfoldable pub has_authz : Authorizer → Text → Bool
has_authz a scope = a.disabled || contains scope a.client_scopes

unfoldable pub write_authz : Authorizer → Text → Bool
write_authz a scope = has_authz a (scope ++ txt ":w")

unfoldable pub read_authz : Authorizer → Text → Bool
read_authz a scope = has_authz a scope || write_authz a scope

-- The overloads for a parameter or a descriptor: its scope, and whether it is read-only.
unfoldable pub write_authz_param : Authorizer → Bool → Text → Bool
write_authz_param a read_only scope = not read_only && write_authz a scope
