-- ===== src/Params/Structs/References.antt =====
-- What is written through a parameter that a path has found.
use mathlib.Core.Path.{fun_ext, subst}
use catena.Base.{
  ℕ, zero, suc, ◌≡◌, refl, ap, ◌∙◌, Bool, true, false, List, [], ◌∷◌, some, inl, inr, Option-cases,
  if◌then◌else◌, get_elem?, set, arith,
}
use catena.Base.Text.{Text, eqb}
use catena.Status.{
  StatusCode, not_found, invalid_argument, permission_denied, Outcome, returns, throws, ◌>>=◌,
}
use catena.Authorizer.{Authorizer}
use catena.ParamPath.{
  ParamPath, empty, pop, front_is_string, front_is_index, front_as_index, front_as_string,
}
use catena.Params.{can_read}
use catena.Params.Structs.{
  Kind, int32_kind, float32_kind, string_kind, int32_array_kind, float32_array_kind,
  string_array_kind, Shape, leaf, struct_of, variant_of, struct_array_of, variant_array_of, Shapes,
  no_shapes, shape, Tree, Value, descriptor_of, subs_of, with_sub, get_sub_param,
}
use catena.Params.Structs.Lookup.{
  Place, Located, missing, located, here, inside, readable, at_name, at_elem, at_index, at_sub,
  at_member, at_alternative, on_first, on_second, on_either, no_members, get_leaf, get_place,
  get_field, get_other,
}

get_elem?-set_self :
    {V : Type 0} (vs : List V) (i : ℕ) (v x : V)
    → get_elem? vs i ≡ some v
    → get_elem? (set vs i x) i ≡ some x
get_elem?-set_self [] i v x h = absurd (ground arith)
get_elem?-set_self (w ∷ vs) zero v x h = refl
get_elem?-set_self (w ∷ vs) (suc i) v x h = get_elem?-set_self vs i v x h

set-set : {V : Type 0} (vs : List V) (i : ℕ) (x y : V) → set (set vs i x) i y ≡ set vs i y
set-set [] i x y = refl
set-set (w ∷ vs) zero x y = refl
set-set (w ∷ vs) (suc i) x y = ap (λ l. w ∷ l) (set-set vs i x y)

set_self : {V : Type 0} (vs : List V) (i : ℕ) (v : V) → get_elem? vs i ≡ some v → set vs i v ≡ vs
set_self [] i v h = refl
set_self (w ∷ vs) zero v h = ground arith
set_self (w ∷ vs) (suc i) v h = ap (λ l. w ∷ l) (set_self vs i v h)

module _ (authz : Authorizer) where
  -- Writing back what was found changes nothing, what is written is what the same look finds, and the
  -- client may read it.
  abbrev pub IsReference : {W : Type 0} → (W → Outcome (Located W)) → W → Place W → Type 0
  IsReference look w p =
      (p.put p.value ≡ w)
      × ((x : Value p.shape) → look (p.put x) ≡ returns (located (record p { value = x })))
      × (can_read authz (descriptor_of p.tree) ≡ true)

  abbrev pub Refers : {W : Type 0} → (W → Outcome (Located W)) → W → Outcome (Located W) → Type 0
  Refers look w (throws e) = Unit
  Refers look w (returns (missing rc)) = Unit
  Refers look w (returns (located p)) = IsReference look w p

  -- A way to look, on whatever value.
  abbrev pub Looks : {W : Type 0} → (W → Outcome (Located W)) → Type 0
  Looks {W} look = (w : W) → Refers look w (look w)

  if-Looks :
      {W : Type 0} (b : Bool) (f g : W → Outcome (Located W))
      → Looks f
      → Looks g
      → Looks (λ w. if b then f w else g w)
  if-Looks true f g h k = h
  if-Looks false f g h k = k

  test-Looks :
      {W : Type 0} (b : Bool) (f g : W → Outcome (Located W))
      → (b ≡ true → Looks f)
      → Looks g
      → Looks (λ w. if b then f w else g w)
  test-Looks true f g h k = h refl
  test-Looks false f g h k = k

  bind-Looks :
      {W : Type 0} (m : Outcome Tree) (f : Tree → W → Outcome (Located W))
      → ((t : Tree) → Looks (f t))
      → Looks (λ w. m >>= λ t. f t w)
  bind-Looks (throws e) f h w = tt
  bind-Looks (returns t) f h w = h t w

  missing-Looks : {W : Type 0} (rc : StatusCode) → Looks {W = W} (λ w. returns (missing rc))
  missing-Looks rc w = tt

  here-Looks :
      (s : Shape) (t : Tree)
      → can_read authz (descriptor_of t) ≡ true
      → Looks (λ v. returns (here s t v))
  here-Looks s t allowed v = (refl, λ x. refl, allowed)

  -- A part of a value, where the look into the whole is one into the part whatever that is.
  inside-Refers :
      {V W : Type 0} (part : V → Outcome (Located V)) (look : W → Outcome (Located W)) (f : V → W)
      (m : Outcome (Located V)) (v : V)
      → ((x : V) → look (f x) ≡ inside f (part x))
      → Refers part v m
      → Refers look (f v) (inside f m)
  inside-Refers part look f (throws e) v same r = tt
  inside-Refers part look f (returns (missing rc)) v same r = tt
  inside-Refers part look f (returns (located p)) v same r =
      (ap f r.0, λ x. same (p.put x) ∙ ap (inside f) (r.1 x), r.2)

  first-Looks :
      {V W : Type 0} (f : V → Outcome (Located V)) → Looks f → Looks {W = V × W} (on_first f)
  first-Looks f h (v, w) = inside-Refers f (on_first f) (λ x. (x, w)) (f v) v (λ x. refl) (h v)

  second-Looks :
      {V W : Type 0} (f : W → Outcome (Located W)) → Looks f → Looks {W = V × W} (on_second f)
  second-Looks f h (v, w) = inside-Refers f (on_second f) (λ y. (v, y)) (f w) w (λ y. refl) (h w)

  either-Looks :
      {V W : Type 0} (f : V → Outcome (Located V)) (g : W → Outcome (Located W))
      → Looks f
      → Looks g
      → Looks (on_either f g)
  either-Looks f g h k (inl x) =
      inside-Refers f (on_either f g) (λ a. inl a) (f x) x (λ x'. refl) (h x)
  either-Looks f g h k (inr y) =
      inside-Refers g (on_either f g) (λ b. inr b) (g y) y (λ y'. refl) (k y)

  elem-Looks : {V : Type 0} (i : ℕ) (f : V → Outcome (Located V)) → Looks f → Looks (at_elem i f)
  unfolding at_elem
  elem-Looks i f h vs = elim (Option-cases (get_elem? vs i)) [
    | inl e ↦ rw (at_elem, e) tt
    | inr (v, e) ↦
        let same : (x : _) → at_elem i f (set vs i x) ≡ inside (λ y. set vs i y) (f x) =
          λ x. rw (at_elem, get_elem?-set_self vs i v x e, fun_ext (set-set vs i x)) refl in
        let whole = inside-Refers f (at_elem i f) (λ x. set vs i x) (f v) v same (h v) in
        rw (at_elem, e)
          (subst (λ w. Refers (at_elem i f) w (inside (λ x. set vs i x) (f v))) (set_self vs i v e)
            whole)
  ]

  index-Looks :
      {V : Type 0} (path : ParamPath) (f : ParamPath → V → Outcome (Located V))
      → ((rest : ParamPath) → Looks (f rest))
      → Looks (at_index path f)
  unfolding at_index
  index-Looks path f h =
      if-Looks (front_is_index path) (at_elem (front_as_index path) (f (pop path)))
        (λ vs. returns (missing invalid_argument))
        (elem-Looks (front_as_index path) (f (pop path)) (h (pop path)))
        (missing-Looks invalid_argument)

  name-Looks :
      {V : Type 0} (path : ParamPath) (f : Text → ParamPath → V → Outcome (Located V))
      → ((name : Text) (rest : ParamPath) → Looks (f name rest))
      → Looks (λ v. at_name path (λ name rest. f name rest v))
  unfolding at_name
  name-Looks path f h =
      if-Looks (front_is_string path) (f (front_as_string path) (pop path))
        (λ v. returns (missing invalid_argument)) (h (front_as_string path) (pop path))
        (missing-Looks invalid_argument)

  readable-Looks :
      {V : Type 0} (t : Tree) (f : V → Outcome (Located V))
      → (can_read authz (descriptor_of t) ≡ true → Looks f)
      → Looks (λ v. readable t authz (f v))
  unfolding readable
  readable-Looks t f h =
      test-Looks (can_read authz (descriptor_of t)) f _ h (missing-Looks permission_denied)

  sub-Looks :
      (s : Shape) (name : Text) (t : Tree) (rest : ParamPath)
      (deeper : Tree → Value s → Outcome (Located (Value s)))
      → ((below : Tree) → Looks (deeper below))
      → Looks (at_sub s name t rest authz deeper)
  unfolding at_sub with_sub
  sub-Looks s name t rest deeper h =
      bind-Looks (get_sub_param name (subs_of t)) _
        λ below. if-Looks (empty rest) _ _ (readable-Looks below _ (here-Looks s below)) (h below)

  member-Looks :
      (s : Shape) (t : Tree) (deeper : ParamPath → Value s → Outcome (Located (Value s)))
      → ((rest : ParamPath) → Looks (deeper rest))
      → can_read authz (descriptor_of t) ≡ true
      → (rest : ParamPath) → Looks (at_member s t deeper rest)
  unfolding at_member
  member-Looks s t deeper h allowed rest =
      if-Looks (empty rest) _ _ (here-Looks s t allowed) (h rest)

  leaf-Looks :
      (k : Kind) (t : Tree) (path : ParamPath)
      → can_read authz (descriptor_of t) ≡ true
      → Looks (get_leaf k t path)
  unfolding get_leaf Value
  leaf-Looks int32_kind t path allowed = missing-Looks invalid_argument
  leaf-Looks float32_kind t path allowed = missing-Looks invalid_argument
  leaf-Looks string_kind t path allowed = missing-Looks invalid_argument
  leaf-Looks int32_array_kind t path allowed =
      index-Looks path _
        (member-Looks (leaf int32_kind) t no_members (λ rest. missing-Looks not_found) allowed)
  leaf-Looks float32_array_kind t path allowed =
      index-Looks path _
        (member-Looks (leaf float32_kind) t no_members (λ rest. missing-Looks not_found) allowed)
  leaf-Looks string_array_kind t path allowed =
      index-Looks path _
        (member-Looks (leaf string_kind) t no_members (λ rest. missing-Looks not_found) allowed)

  alternative-Looks :
      (s : Shape) (n name : Text) (t : Tree) (rest : ParamPath)
      (deeper : Tree → Value s → Outcome (Located (Value s)))
      → ((below : Tree) → Looks (deeper below))
      → Looks (at_alternative s n name t rest authz deeper)
  unfolding at_alternative
  alternative-Looks s n name t rest deeper h =
      if-Looks (eqb n name) _ _ (sub-Looks s name t rest deeper h) (missing-Looks not_found)

  mutual
    unfolding Value get_place

    place-Looks : (s : Shape) (t : Tree) (path : ParamPath) → Looks (get_place s t path authz)
    place-Looks (leaf k) t path = readable-Looks t _ (leaf-Looks k t path)
    place-Looks (struct_of fs) t path = readable-Looks t _ λ allowed.
        (name-Looks path (λ name rest. get_field fs t name rest authz)
          (λ name rest. field-Looks fs t name rest))
    place-Looks (variant_of n s alts) t path = readable-Looks t _ λ allowed.
        (name-Looks path _ (λ name rest.
          either-Looks _ (get_other alts t name rest authz)
            (alternative-Looks s n name t rest _ (λ below. place-Looks s below rest))
            (other-Looks alts t name rest)))
    place-Looks (struct_array_of fs) t path = readable-Looks t _ λ allowed.
        (index-Looks path _ (
          member-Looks (struct_of fs) t _
            (λ rest. readable-Looks t _ λ again.
              (name-Looks rest (λ name below. get_field fs t name below authz)
                (λ name below. field-Looks fs t name below)))
            allowed))
    place-Looks (variant_array_of n s alts) t path = readable-Looks t _ λ allowed.
        (index-Looks path _ (
          member-Looks (variant_of n s alts) t _
            (λ rest. readable-Looks t _ λ again.
              (name-Looks rest _ (λ name below.
                either-Looks _ (get_other alts t name below authz)
                  (alternative-Looks s n name t below _ (λ lower. place-Looks s lower below))
                  (other-Looks alts t name below))))
            allowed))

    field-Looks :
        (fs : Shapes) (t : Tree) (name : Text) (rest : ParamPath)
        → Looks (get_field fs t name rest authz)
    field-Looks no_shapes t name rest = missing-Looks not_found
    field-Looks (shape n s fs) t name rest =
        if-Looks (eqb n name) _ _
          (first-Looks _ (sub-Looks s name t rest _ (λ below. place-Looks s below rest)))
          (second-Looks (get_field fs t name rest authz) (field-Looks fs t name rest))

    other-Looks :
        (alts : Shapes) (t : Tree) (name : Text) (rest : ParamPath)
        → Looks (get_other alts t name rest authz)
    other-Looks no_shapes t name rest y = absurd y
    other-Looks (shape n s alts) t name rest y =
        either-Looks _ (get_other alts t name rest authz)
          (alternative-Looks s n name t rest _ (λ below. place-Looks s below rest))
          (other-Looks alts t name rest) y

-- What a path finds in a value of structs, variants and arrays is a reference into it that the client may
-- read: to write back the value that was found changes nothing, and whatever value is written instead, the
-- same path then finds it, at the same place.
pub get_place-IsReference :
    (s : Shape) (t : Tree) (path : ParamPath) (authz : Authorizer) (v : Value s)
    (p : Place (Value s))
    → get_place s t path authz v ≡ returns (located p)
    → IsReference authz (get_place s t path authz) v p
get_place-IsReference s t path authz v p h =
    subst (Refers authz (get_place s t path authz) v) h (place-Looks authz s t path v)
