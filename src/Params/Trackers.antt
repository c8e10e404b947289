-- ===== src/Params/Trackers.antt =====
-- The size trackers of an array while several of its members are validated on one object.
use catena.Base.{
  ℕ, zero, suc, ◌+◌, ◌≤◌, ◌≡◌, refl, sym, ap, ◌⊎◌, inl, inr, true, false, ◌&&◌, not, List, [], ◌∷◌,
  ◌++◌, some, ltb, leb, ◌==◌, length, length-append, length-map, set, if◌then◌else◌, Bool-cases,
  arith, lt→ltb,
}
use catena.Status.{StatusCode, ok, invalid_argument, out_of_range, is_ok, returns}
use catena.Proto.{ProtoValue}
use catena.Authorizer.{Authorizer}
use catena.ParamPath.{k_end, k_none}
use catena.Params.{Descriptor, max_length, total_length}
use catena.Params.Stored.{
  Stored, size, valid, is_vector, Trackers, no_trackers, message_size, member_sizes, test_member,
  or_else, sum, check_lengths, validate_member,
}

length-set {ℓ} : {A : Type ℓ} (xs : List A) (i : ℕ) (v : A) → length (set xs i v) ≡ length xs
length-set [] i v = refl
length-set (x ∷ xs) zero v = refl
length-set (x ∷ xs) (suc i) v = ap suc (length-set xs i v)

-- The sizes of the members once the message is stored at the index, or at the end.
abbrev pub stored_sizes : ℕ → ℕ → List ℕ → List ℕ
stored_sizes index n sizes = if index == k_end then sizes ++ n ∷ [] else set sizes index n

-- The trackers stand for these sizes of the members.
pub record Tracks (value : Stored) (tr : Trackers) (sizes : List ℕ) : Type 0 where
  pub members : or_else tr.m_size (size value) ≡ length sizes
  pub lengths : or_else tr.t_size (member_sizes value) ≡ sizes

-- No trackers stand for the sizes of the members that the array has.
pub no_trackers-Tracks :
    (value : Stored) → is_vector value ≡ true → Tracks value no_trackers (member_sizes value)
unfolding size member_sizes
no_trackers-Tracks (Stored.int32 n) h = cc
no_trackers-Tracks (Stored.float32 n) h = cc
no_trackers-Tracks (Stored.string n) h = cc
no_trackers-Tracks (Stored.int32_array l) h = record {
  members = sym (length-map l _);
  lengths = refl;
}
no_trackers-Tracks (Stored.float32_array l) h = record {
  members = sym (length-map l _);
  lengths = refl;
}
no_trackers-Tracks (Stored.string_array l) h = record {
  members = sym (length-map l _);
  lengths = refl;
}

check_lengths-cases :
    (pd : Descriptor) (m : ℕ) (t : List ℕ)
    → (is_ok (check_lengths pd m t) ≡ false) ⊎ ((m ≤ max_length pd) × (sum t ≤ total_length pd))
unfolding check_lengths
check_lengths-cases pd m t = elim (Bool-cases (ltb (max_length pd) m)) [
  | inl over ↦ inl (rw over)
  | inr fits ↦ elim (Bool-cases (ltb (total_length pd) (sum t))) [
    | inl over ↦ inl (rw (fits, over))
    | inr light ↦ inr (ground arith, ground arith)
  ]
]

module _ (value : Stored) (src : ProtoValue) (index : ℕ) (pd : Descriptor) (authz : Authorizer)
    (tr : Trackers) (sizes : List ℕ) (tracked : Tracks value tr sizes) where
  open tracked use {members, lengths}

  abbrev n : ℕ
  n = message_size src

  abbrev longer : List ℕ → List ℕ
  longer t = t ++ n ∷ []

  abbrev made : List ℕ → Trackers
  made t = record { m_size = some (length t); t_size = some t }

  length-longer : length sizes + 1 ≡ length (longer sizes)
  length-longer = sym (length-append sizes (n ∷ []))

  checked :
      (t : List ℕ)
      → (is_ok (check_lengths pd (length t) t) ≡ false)
        ⊎ (Tracks value (made t) t × (length t ≤ max_length pd) × (sum t ≤ total_length pd))
  checked t = elim (check_lengths-cases pd (length t) t) [
    | inl over ↦ inl over
    | inr (short, light) ↦ inr ((record { members = refl; lengths = refl }), short, light)
  ]

  -- Trackers that stand for the members' sizes never make the validation of a member throw. Where it
  -- answers OK, the new trackers stand for the sizes that the members will have, there are no more
  -- of them than the maximum length, and the sizes add up to no more than the total length.
  pub validate_member-Tracks :
      ((rc : StatusCode) × (tr' : Trackers) × ((validate_member value src index pd authz tr
            ≡ returns (rc, tr'))
          × ((is_ok rc ≡ false)
              ⊎ (Tracks value tr' (stored_sizes index (message_size src) sizes)
                  × (length (stored_sizes index (message_size src) sizes) ≤ max_length pd)
                  × (sum (stored_sizes index (message_size src) sizes) ≤ total_length pd)))))
  unfolding validate_member
  validate_member-Tracks = elim (Bool-cases (index == k_none)) [
    | inl missing ↦ (invalid_argument, made sizes, (rw (members, lengths, missing), inl refl))
    | inr given ↦ elim (Bool-cases (is_ok (valid (test_member value) src pd ok authz))) [
      | inr bad ↦ elim (Bool-cases (not (index == k_end) && leb (length sizes) index)) [
        | inl outside ↦
            (out_of_range, made sizes, (rw (members, lengths, given, outside), inl refl))
        | inr inside ↦ (
          valid (test_member value) src pd ok authz,
          made sizes,
          (rw (members, lengths, given, inside, bad), inl bad),
        )
      ]
      | inl fine ↦ elim (Bool-cases (index == k_end)) [
        | inl end ↦ (
          check_lengths pd (length (longer sizes)) (longer sizes),
          made (longer sizes),
          (rw (members, lengths, given, end, fine, length-longer), rw end (checked (longer sizes))),
        )
        | inr at ↦ elim (Bool-cases (leb (length sizes) index)) [
          | inl outside ↦
              (out_of_range, made sizes, (rw (members, lengths, given, at, outside), inl refl))
          | inr inside ↦ (
            check_lengths pd (length (set sizes index n)) (set sizes index n),
            made (set sizes index n),
            (
              rw (
                members,
                lengths,
                given,
                at,
                inside,
                fine,
                lt→ltb index (length sizes) (ground arith),
                length-set sizes index n,
              ),
              rw at (checked (set sizes index n)),
            ),
          )
        ]
      ]
    ]
  ]
