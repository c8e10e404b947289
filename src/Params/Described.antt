-- ===== src/Params/Described.antt =====
-- sdks/cpp/common/src/ParamDescriptor.cpp: what a client is told of a descriptor and of those below it.
--
-- `Shown` has the fields that only the messages read. An `unordered_map` is the list of its entries.
pub mod Told
pub mod Changes
use mathlib.Core.Option
use catena.Base.{
  ℕ, ◌≡◌, refl, Bool, true, false, List, [], ◌∷◌, Option, none, some, if◌then◌else◌, Bool-cases,
  inl, inr, arith,
}
use catena.Base.Text.{Text, lookup, eqb, eqb_iff}
use catena.Proto.{Constraint}
use catena.Authorizer.{Authorizer}
use catena.Menus.{PolyglotText, assign_all}
use catena.Params.{ParamType, Attributes, Descriptor, can_read}

-- An `IConstraint`: a shared one is named by its OID.
pub record ConstraintOf : Type 0 where
  pub shared : Bool
  pub oid : Text
  pub body : Constraint

pub record Shown : Type 0 where
  pub widget : Text
  pub precision : ℕ
  pub response : Bool
  pub oid_aliases : List Text
  pub name : PolyglotText
  pub constraint : Option ConstraintOf
  pub template_oid : Text

mutual
  pub data Described : Type 0 where
    described : Descriptor → Shown → Describeds → Described

  pub data Describeds : Type 0 where
    no_described : Describeds
    below : Text → Described → Describeds → Describeds

pub data ConstraintMessage : Type 0 where
  ref_oid : Text → ConstraintMessage
  inline : Constraint → ConstraintMessage

-- `st2138::Param` without its value and its sub-parameters.
pub record ParamFields : Type 0 where
  pub type : ParamType
  pub read_only : Bool
  pub stateless : Bool
  pub widget : Text
  pub minimal_set : Bool
  pub precision : ℕ
  pub response : Bool
  pub oid_aliases : List Text
  pub name : List (Text × Text)
  pub constraint : Option ConstraintMessage
  pub template_oid : Text

mutual
  pub data ParamTree : Type 0 where
    param : ParamFields → ParamTrees → ParamTree

  pub data ParamTrees : Type 0 where
    no_params : ParamTrees
    entry : Text → ParamTree → ParamTrees → ParamTrees

unfoldable constraint_message : ConstraintOf → ConstraintMessage
constraint_message c = if c.shared then ref_oid c.oid else inline c.body

-- The flags are the descriptor's own, not those that it inherits.
unfoldable pub fields_of : Descriptor → Shown → ParamFields
unfolding constraint_message assign_all
fields_of d s = record {
  type = d.own.type;
  read_only = d.own.read_only;
  stateless = d.own.stateless;
  widget = s.widget;
  minimal_set = d.own.minimal_set;
  precision = s.precision;
  response = s.response;
  oid_aliases = s.oid_aliases;
  name = assign_all s.name.display_strings [];
  constraint = Option.map constraint_message s.constraint;
  template_oid = s.template_oid;
}

abbrev pub descriptor_in : Described → Descriptor
descriptor_in (described d s ts) = d

-- `toProto` of a descriptor: of those below it the ones that the client may read.
unfoldable mutual
  unfolding fields_of

  pub described_to_proto : Described → Authorizer → ParamTree
  described_to_proto (described d s ts) authz = param (fields_of d s) (below_to_proto ts authz)

  pub below_to_proto : Describeds → Authorizer → ParamTrees
  below_to_proto no_described authz = no_params
  below_to_proto (below name t ts) authz =
      let here = described_to_proto t authz in
      let rest = below_to_proto ts authz in
      if can_read authz (descriptor_in t) then entry name here rest else rest

-- `name`: the empty text for a language that there is none for.
unfoldable name_in : Text → Shown → Text
name_in language s = elim (lookup language s.name.display_strings) [ none ↦ [] | some t ↦ t ]
