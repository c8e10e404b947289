-- ===== src/Status.antt =====
-- sdks/cpp/common/include/Status.h: the status codes, and what a call throws. The text that goes
-- with a code is for the log and is left out.
use catena.Base.{arith, Bool, true, false, ◌≡◌, refl, ◌⊎◌, inl, inr}

-- The codes that the SDK and gRPC share, and those of HTTP.
pub data StatusCode : Type 0 where
  ok cancelled unknown invalid_argument deadline_exceeded not_found already_exists : StatusCode
  permission_denied unauthenticated resource_exhausted failed_precondition aborted : StatusCode
  out_of_range unimplemented internal unavailable data_loss : StatusCode
  do_not_use created accepted no_content unprocessable_entity method_not_allowed : StatusCode
  conflict too_many_requests bad_gateway service_unavailable gateway_timeout : StatusCode

-- `rc.status == StatusCode::OK`
abbrev pub is_ok : StatusCode → Bool
is_ok StatusCode.ok = true
is_ok _ = false

-- An `exception_with_status`, or an exception of the standard library.
pub data Exception : Type 0 where
  with_status : StatusCode → Exception
  std_exception : Exception
  -- A call through a null pointer, which has no defined outcome.
  null_dereference : Exception

pub data Outcome {ℓ} (A : Type ℓ) : Type ℓ where
  returns : A → Outcome A
  throws : Exception → Outcome A

infixl 5 ◌>>=◌
abbrev pub ◌>>=◌ {ℓ κ} : {A : Type ℓ} {B : Type κ} → Outcome A → (A → Outcome B) → Outcome B
returns a >>= f = f a
throws e >>= f = throws e

-- Inversion of a chain that returns.
pub >>=-eq-returns {ℓ κ} :
    {A : Type ℓ} {B : Type κ} (m : Outcome A) (f : A → Outcome B) {b : B}
    → (m >>= f) ≡ returns b
    → (a : A) × (m ≡ returns a) × (f a ≡ returns b)
>>=-eq-returns (returns a) f h = (a, refl, h)
>>=-eq-returns (throws e) f h = cc

pub returns-injective {ℓ} : {A : Type ℓ} {a b : A} → returns a ≡ returns b → a ≡ b
returns-injective h = cc

pub throws-injective {ℓ} :
    {A : Type ℓ} {d e : Exception} → ◌≡◌ {A = Outcome A} (throws d) (throws e) → d ≡ e
throws-injective h = cc

pub Outcome-cases {ℓ} :
    {A : Type ℓ} (m : Outcome A) → ((e : Exception) × (m ≡ throws e)) ⊎ ((a : A) × (m ≡ returns a))
Outcome-cases (throws e) = inl (e, refl)
Outcome-cases (returns a) = inr (a, refl)

pub is_ok-true : (rc : StatusCode) → is_ok rc ≡ true → rc ≡ StatusCode.ok
is_ok-true rc h = ground arith
