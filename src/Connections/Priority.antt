-- ===== src/Connections/Priority.antt =====
-- The priority that a token gives its connection.
use native.Mathlib.Decide.{dec_lt}
use catena.Base.{
  ◌∙◌, ℕ, zero, suc, ◌+◌, ◌*◌, ◌≤◌, ◌<◌, ◌≡◌, refl, true, false, if◌then◌else◌, Bool-cases, inl,
  inr, ◌⊎◌, arith,
}
use catena.Authorizer.{Authorizer, scope_name, read_authz, write_authz}
use catena.Connections.{scope_at, priority_from, init_priority}

-- What the rank `k` of a token is made of: its highest scope `i`, and whether it may write there.
pub record IsHighest (a : Authorizer) (n k : ℕ) : Type 0 where
  pub scope : ℕ
  pub above : 0 < scope
  pub below : scope ≤ n
  pub reads : read_authz a (scope_name (scope_at scope)) ≡ true
  pub rank : k ≡ 2 * scope + (if write_authz a (scope_name (scope_at scope)) then 1 else 0)
  pub highest : (j : ℕ) → scope < j → j ≤ n → read_authz a (scope_name (scope_at j)) ≡ false

abbrev pub ReadsNone : Authorizer → ℕ → Type 0
ReadsNone a n = (j : ℕ) → 0 < j → j ≤ n → read_authz a (scope_name (scope_at j)) ≡ false

priority_from_read :
    (a : Authorizer) (n : ℕ)
    → read_authz a (scope_name (scope_at (suc n))) ≡ true
    → priority_from a (suc n)
      ≡ 2 * suc n + (if write_authz a (scope_name (scope_at (suc n))) then 1 else 0)
unfolding priority_from
priority_from_read a n h = rw h

priority_from_skip :
    (a : Authorizer) (n : ℕ)
    → read_authz a (scope_name (scope_at (suc n))) ≡ false
    → priority_from a (suc n) ≡ priority_from a n
unfolding priority_from
priority_from_skip a n h = rw h

-- What holds up to `n` and at `suc n` holds up to `suc n`.
up_to_suc {ℓ} :
    (P : ℕ → Type ℓ) (low n : ℕ)
    → ((j : ℕ) → low < j → j ≤ n → P j)
    → P (suc n)
    → (j : ℕ) → low < j
    → j ≤ suc n
    → P j
up_to_suc P low n below at j p q = elim (dec_lt j (suc n)) [
  | yes h ↦ below j p (omega arith)
  | no h ↦ let last : j ≡ suc n = omega arith in rw last at
]

priority_from_cases :
    (a : Authorizer) (n : ℕ)
    → IsHighest a n (priority_from a n) ⊎ ((priority_from a n ≡ 0) × ReadsNone a n)
priority_from_cases a zero = inr (unfold priority_from in refl, λ j p q. absurd (omega arith))
priority_from_cases a (suc n) = elim (Bool-cases (read_authz a (scope_name (scope_at (suc n))))) [
  | inl e ↦ inl (record {
    scope = suc n;
    above = omega arith;
    below = omega arith;
    reads = e;
    rank = priority_from_read a n e;
    highest = λ j p q. absurd (omega arith);
  })
  | inr e ↦ elim (priority_from_cases a n) [
    | inl h ↦ inl (record {
      scope = h.scope;
      above = h.above;
      below = omega (arith, h.below);
      reads = h.reads;
      rank = priority_from_skip a n e ∙ h.rank;
      highest =
          up_to_suc (λ j. read_authz a (scope_name (scope_at j)) ≡ false) h.scope n h.highest e;
    })
    | inr (zeroed, h) ↦ inr (
      priority_from_skip a n e ∙ zeroed,
      up_to_suc (λ j. read_authz a (scope_name (scope_at j)) ≡ false) 0 n h e,
    )
  ]
]

-- With authorization on, the priority is twice the number of the highest scope that the token may
-- read, one more if it may also write there, and 0 if it may read none of the four.
pub init_priority_cases :
    (a : Authorizer)
    → IsHighest a 4 (init_priority true a) ⊎ ((init_priority true a ≡ 0) × ReadsNone a 4)
unfolding init_priority
init_priority_cases a = priority_from_cases a 4
