-- ===== src/ParamPath/Walk.antt =====
-- Walking along a path, and changing its end.
use catena.Base.{
  ℕ, ◌+◌, ◌≡◌, refl, ap, ◌∙◌, ◌⊎◌, inl, inr, true, false, List, [], ◌∷◌, ◌++◌, some, length,
  length-append, last?, drop_last, get_elem?, get_elem?-some, ltb, Bool-cases, arith,
}
use catena.Status.{returns}
use catena.ParamPath.RoundTrip.{IsValid, parse-fqoid}
use catena.ParamPath.{
  Segment, index, string, ParamPath, k_error, parse, fqoid, pop, unpop, rewind, pop_back,
  push_back_index, front_is_index, front_is_string, front_as_index, front_as_string, back_as_index,
  empty, size, walked,
}

-- The calls that move the front only.
pub data Move : Type 0 where
  pops unpops rewinds : Move

abbrev pub move : Move → ParamPath → ParamPath
move pops p = pop p
move unpops p = unpop p
move rewinds p = rewind p

abbrev pub walk : List Move → ParamPath → ParamPath
walk [] p = p
walk (m ∷ ms) p = walk ms (move m p)

move-IsValid : (m : Move) (p : ParamPath) → IsValid p → IsValid (move m p)
unfolding pop unpop rewind
move-IsValid pops p v = ground arith
move-IsValid unpops p v = ground arith
move-IsValid rewinds p v = ground arith

move-segments : (m : Move) (p : ParamPath) → (move m p).segments ≡ p.segments
unfolding pop unpop rewind
move-segments pops p = ground arith
move-segments unpops p = ground arith
move-segments rewinds p = refl

walk-IsValid : (ms : List Move) (p : ParamPath) → IsValid p → IsValid (walk ms p)
walk-IsValid [] p v = v
walk-IsValid (m ∷ ms) p v = walk-IsValid ms (move m p) (move-IsValid m p v)

walk-segments : (ms : List Move) (p : ParamPath) → (walk ms p).segments ≡ p.segments
walk-segments [] p = refl
walk-segments (m ∷ ms) p = walk-segments ms (move m p) ∙ move-segments m p

-- Wherever a walk along a valid path has come to, the path's full text names the whole path, and is
-- read back as the path from its first segment on.
pub parse-walk :
    (ms : List Move) (p : ParamPath)
    → IsValid p
    → parse (fqoid (walk ms p)) ≡ returns (record { segments = p.segments; front_idx = 0 })
parse-walk ms p v =
    parse-fqoid (walk ms p) (walk-IsValid ms p v)
    ∙ unfold rewind in
      ap (λ s. returns (record { segments = s; front_idx = 0 })) (walk-segments ms p)

-- A pop that is undone: it takes one segment from a path that is not empty, and none from another.
unpop-pop :
    (p : ParamPath)
    → IsValid p
    → ((empty p ≡ false)
        × (unpop (pop p) ≡ p)
        × (size (pop p) + 1 ≡ size p)
        × (walked (pop p) ≡ walked p + 1))
      ⊎ ((empty p ≡ true) × (pop p ≡ p))
unfolding unpop pop empty size walked
unpop-pop p v = elim (Bool-cases (ltb p.front_idx (length p.segments))) [
  | inl e ↦ inl (ground arith, ground arith, ground arith, ground arith)
  | inr e ↦ inr (ground arith, ground arith)
]

-- The front of a path that is not empty is a name or an index, and never both; an empty path has
-- neither, and its front reads as the error value and the empty name.
pub front_cases :
    (p : ParamPath)
    → ((empty p ≡ true)
        × (front_is_index p ≡ false)
        × (front_is_string p ≡ false)
        × (front_as_index p ≡ k_error)
        × (front_as_string p ≡ []))
      ⊎ ((empty p ≡ false)
          × (front_is_index p ≡ true)
          × (front_is_string p ≡ false)
          × (get_elem? p.segments p.front_idx ≡ some (index (front_as_index p))))
      ⊎ ((empty p ≡ false)
          × (front_is_index p ≡ false)
          × (front_is_string p ≡ true)
          × (get_elem? p.segments p.front_idx ≡ some (string (front_as_string p))))
unfolding empty front_is_index front_is_string front_as_index front_as_string
front_cases p = elim (Bool-cases (ltb p.front_idx (length p.segments))) [
  | inl e ↦ let (a, found) = get_elem?-some p.segments p.front_idx (ground arith) in split a found e
  | inr e ↦ inl (ground arith, rw e, rw e, rw e, rw e)
]
  where
    split :
        (a : Segment)
        → get_elem? p.segments p.front_idx ≡ some a
        → ltb p.front_idx (length p.segments) ≡ true
        → ((empty p ≡ true)
            × (front_is_index p ≡ false)
            × (front_is_string p ≡ false)
            × (front_as_index p ≡ k_error)
            × (front_as_string p ≡ []))
          ⊎ ((empty p ≡ false)
              × (front_is_index p ≡ true)
              × (front_is_string p ≡ false)
              × (get_elem? p.segments p.front_idx ≡ some (index (front_as_index p))))
          ⊎ ((empty p ≡ false)
              × (front_is_index p ≡ false)
              × (front_is_string p ≡ true)
              × (get_elem? p.segments p.front_idx ≡ some (string (front_as_string p))))
    split (index n) found e = inr (inl (ground arith, rw (e, found), rw (e, found), rw (e, found)))
    split (string s) found e = inr (inr (ground arith, rw (e, found), rw (e, found), rw (e, found)))

module _ {ℓ} {A : Type ℓ} where
  last?-append : (xs : List A) (a : A) → last? (xs ++ a ∷ []) ≡ some a
  last?-append [] a = refl
  last?-append (x ∷ []) a = refl
  last?-append (x ∷ y ∷ ys) a = last?-append (y ∷ ys) a

  drop_last-append : (xs : List A) (a : A) → drop_last (xs ++ a ∷ []) ≡ xs
  drop_last-append [] a = refl
  drop_last-append (x ∷ []) a = refl
  drop_last-append (x ∷ y ∷ ys) a = ap (◌∷◌ x) (drop_last-append (y ∷ ys) a)

-- An index pushed on the back is the back, and popping it gives the path again.
pub pop_back-push_back :
    (i : ℕ) (p : ParamPath)
    → IsValid p
    → (back_as_index (push_back_index i p) ≡ i) × (pop_back (push_back_index i p) ≡ p)
unfolding back_as_index push_back_index pop_back
pop_back-push_back i p v = (
  rw (last?-append p.segments (index i)),
  rw (drop_last-append p.segments (index i))
      (ground (arith, length-append p.segments (index i ∷ []), v.within)),
)
