-- ===== src/Params/Structs/Lookup.antt =====
-- include/ParamWithValue.h: `getParam` where the value is a struct, a variant or an array, and where a
-- template has no value at all.
--
-- A parameter that is found holds a reference into the value that the path was followed in: `put` gives that
-- whole value once something is stored through the reference.
use catena.Base.{ℕ, ◌&&◌, not, List, none, some, ◌⊎◌, inl, inr, if◌then◌else◌, get_elem?, set}
use catena.Base.Text.{Text, eqb}
use catena.Status.{
  StatusCode, permission_denied, invalid_argument, out_of_range, not_found, Outcome, returns, ◌>>=◌,
}
use catena.Authorizer.{Authorizer}
use catena.ParamPath.{
  ParamPath, empty, pop, front_is_string, front_is_index, front_as_string, front_as_index,
}
use catena.ParamPath.Decimal.{print_index}
use catena.Params.{can_read}
use catena.Params.Structs.{
  Kind, int32_kind, float32_kind, string_kind, int32_array_kind, float32_array_kind,
  string_array_kind, Shape, leaf, struct_of, variant_of, struct_array_of, variant_array_of, Shapes,
  no_shapes, shape, Tree, tree, Trees, no_trees, sub, KindValue, Value, Fields, Alternatives,
  descriptor_of, with_sub,
}

-- A `ParamWithValue<T>` that refers into a value of type `W`.
pub record Place (W : Type 0) : Type 0 where
  pub shape : Shape
  pub tree : Tree
  pub value : Value shape
  pub put : Value shape → W

pub data Located (W : Type 0) : Type 0 where
  missing : StatusCode → Located W
  located : Place W → Located W

abbrev pub here : (s : Shape) → Tree → Value s → Located (Value s)
here s t v = located (record { shape = s; tree = t; value = v; put = λ x. x })

-- A place within a part is one within the whole.
abbrev pub within : {V W : Type 0} → (V → W) → Located V → Located W
within f (missing rc) = missing rc
within f (located p) =
    located (record { shape = p.shape; tree = p.tree; value = p.value; put = λ x. f (p.put x) })

abbrev pub inside : {V W : Type 0} → (V → W) → Outcome (Located V) → Outcome (Located W)
inside f m = m >>= λ r. returns (within f r)

-- The test of `getParam` before it looks for anything.
unfoldable pub readable :
    {W : Type 0} → Tree → Authorizer → Outcome (Located W) → Outcome (Located W)
readable t authz m =
    if can_read authz (descriptor_of t) then m else returns (missing permission_denied)

-- The front of the path as a name, and as an index into an array.
unfoldable pub at_name :
    {W : Type 0} → ParamPath → (Text → ParamPath → Outcome (Located W)) → Outcome (Located W)
at_name path f =
    if front_is_string path
    then f (front_as_string path) (pop path)
    else returns (missing invalid_argument)

unfoldable pub at_elem :
    {V : Type 0} → ℕ → (V → Outcome (Located V)) → List V → Outcome (Located (List V))
at_elem i f vs = elim (get_elem? vs i) [
  | none ↦ returns (missing out_of_range)
  | some v ↦ inside (λ x. set vs i x) (f v)
]

unfoldable pub at_index :
    {V : Type 0}
    → ParamPath
    → (ParamPath → V → Outcome (Located V))
    → List V
    → Outcome (Located (List V))
unfolding at_elem
at_index path f vs =
    if front_is_index path
    then at_elem (front_as_index path) (f (pop path)) vs
    else returns (missing invalid_argument)

-- A field, or the alternative that a variant holds: at the end of the path the client must be able to read
-- it; further on its own `getParam` tests that.
unfoldable pub at_sub :
    (s : Shape)
    → Text
    → Tree
    → ParamPath
    → Authorizer
    → (Tree → Value s → Outcome (Located (Value s)))
    → Value s
    → Outcome (Located (Value s))
unfolding readable with_sub
at_sub s name t rest authz deeper v = with_sub name t λ below.
    (if empty rest then readable below authz (returns (here s below v)) else deeper below v)

-- A member of an array has the descriptor of the array.
unfoldable pub at_member :
    (s : Shape)
    → Tree
    → (ParamPath → Value s → Outcome (Located (Value s)))
    → ParamPath
    → Value s
    → Outcome (Located (Value s))
at_member s t deeper rest v = if empty rest then returns (here s t v) else deeper rest v

abbrev pub no_members : {V : Type 0} → ParamPath → V → Outcome (Located V)
no_members rest v = returns (missing not_found)

unfoldable pub get_leaf :
    (k : Kind) → Tree → ParamPath → KindValue k → Outcome (Located (KindValue k))
unfolding Value at_index at_member
get_leaf int32_kind t path v = returns (missing invalid_argument)
get_leaf float32_kind t path v = returns (missing invalid_argument)
get_leaf string_kind t path v = returns (missing invalid_argument)
get_leaf int32_array_kind t path vs = at_index path (at_member (leaf int32_kind) t no_members) vs
get_leaf float32_array_kind t path vs =
    at_index path (at_member (leaf float32_kind) t no_members) vs
get_leaf string_array_kind t path vs = at_index path (at_member (leaf string_kind) t no_members) vs

-- A look into a part of a struct's or a variant's value.
abbrev pub on_first : {V W : Type 0} → (V → Outcome (Located V)) → V × W → Outcome (Located (V × W))
on_first f (v, w) = inside (λ x. (x, w)) (f v)

abbrev pub on_second :
    {V W : Type 0} → (W → Outcome (Located W)) → V × W → Outcome (Located (V × W))
on_second f (v, w) = inside (λ y. (v, y)) (f w)

abbrev pub on_either :
    {V W : Type 0}
    → (V → Outcome (Located V))
    → (W → Outcome (Located W))
    → V ⊎ W
    → Outcome (Located (V ⊎ W))
on_either f g (inl x) = inside (λ a. inl a) (f x)
on_either f g (inr y) = inside (λ b. inr b) (g y)

-- The alternative that a variant holds, where it has the name.
unfoldable pub at_alternative :
    (s : Shape)
    → Text
    → Text
    → Tree
    → ParamPath
    → Authorizer
    → (Tree → Value s → Outcome (Located (Value s)))
    → Value s
    → Outcome (Located (Value s))
unfolding at_sub
at_alternative s n name t rest authz deeper v =
    if eqb n name then at_sub s name t rest authz deeper v else returns (missing not_found)

-- `getParam`, with `findParamByName_` for the fields of a struct.
unfoldable mutual
  unfolding Value readable at_name at_index at_alternative at_member get_leaf

  pub get_place :
      (s : Shape) → Tree → ParamPath → Authorizer → Value s → Outcome (Located (Value s))
  get_place (leaf k) t path authz v = readable t authz (get_leaf k t path v)
  get_place (struct_of fs) t path authz v =
      readable t authz (at_name path (λ name rest. get_field fs t name rest authz v))
  get_place (variant_of n s alts) t path authz v = readable t authz (
      at_name path (λ name rest.
        on_either (at_alternative s n name t rest authz (λ below. get_place s below rest authz))
          (get_other alts t name rest authz) v))
  get_place (struct_array_of fs) t path authz vs = readable t authz (
      at_index path
        (at_member (struct_of fs) t (λ rest v.
          readable t authz (at_name rest (λ name below. get_field fs t name below authz v))))
        vs)
  get_place (variant_array_of n s alts) t path authz vs = readable t authz (
      at_index path
        (at_member (variant_of n s alts) t (λ rest v. readable t authz (
          at_name rest (λ name below.
            on_either
              (at_alternative s n name t below authz (λ lower. get_place s lower below authz))
              (get_other alts t name below authz) v))))
        vs)

  pub get_field :
      (fs : Shapes)
      → Tree
      → Text
      → ParamPath
      → Authorizer
      → Fields fs
      → Outcome (Located (Fields fs))
  get_field no_shapes t name rest authz vs = returns (missing not_found)
  get_field (shape n s fs) t name rest authz vs =
      let first =
        on_first (at_sub s name t rest authz (λ below. get_place s below rest authz)) vs in
      let others = on_second (get_field fs t name rest authz) vs in
      if eqb n name then first else others

  pub get_other :
      (alts : Shapes)
      → Tree
      → Text
      → ParamPath
      → Authorizer
      → Alternatives alts
      → Outcome (Located (Alternatives alts))
  get_other no_shapes t name rest authz y = absurd y
  get_other (shape n s alts) t name rest authz y =
      on_either (at_alternative s n name t rest authz (λ below. get_place s below rest authz))
        (get_other alts t name rest authz) y

-- `getParam` on a template, which has no value: its descriptors are followed, and an index stands for the
-- name that is its numeral.
abbrev pub segment_name : ParamPath → Text
segment_name path =
    if front_is_index path then print_index (front_as_index path) else front_as_string path

unfoldable mutual
  pub get_template : Tree → ParamPath → Authorizer → StatusCode ⊎ Tree
  get_template (tree d ts) path authz =
      if not (can_read authz d)
      then inl permission_denied
      else if not (front_is_string path) && not (front_is_index path)
      then inl invalid_argument
      else get_sub_template ts (segment_name path) (pop path) authz

  pub get_sub_template : Trees → Text → ParamPath → Authorizer → StatusCode ⊎ Tree
  get_sub_template no_trees name rest authz = inl not_found
  get_sub_template (sub n t ts) name rest authz =
      let below = get_template t rest authz in
      let others = get_sub_template ts name rest authz in
      if eqb n name
      then (if empty rest
          then (if can_read authz (descriptor_of t) then inr t else inl permission_denied)
          else below)
      else others
