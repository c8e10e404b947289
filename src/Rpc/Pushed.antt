-- ===== src/Rpc/Pushed.antt =====
-- What a connection is told of a new value.
use catena.Base.{
  ℕ, ◌≡◌, refl, ◌∙◌, Bool, true, false, ◌||◌, ◌&&◌, if◌then◌else◌, Bool-cases, inl, inr, arith,
}
use catena.Base.Text.{Text}
use catena.Status.{is_ok}
use catena.Authorizer.{Authorizer}
use catena.Params.{Descriptor, can_read}
use catena.Params.Convert.{
  to_int32, to_float32, to_string, to_int32_array, to_float32_array, to_string_array, to_proto,
}
use catena.Params.Stored
use catena.Params.Stored.{Stored, int32, float32, string, int32_array, float32_array, string_array}
use catena.Device.{
  Device, Param, DetailLevel, full, subscriptions, minimal, commands_only, unset, none_level,
}
use catena.Device.Serializer.{should_send_param}
use catena.Rpc.Pushing.{Pushing, pushed_value, level_wants, update_response}

-- A value is written exactly where it may be read.
to_proto-can_read :
    (v : Stored) (pd : Descriptor) (authz : Authorizer)
    → is_ok ((Stored.to_proto v pd authz).0) ≡ can_read authz pd
unfolding Stored.to_proto to_int32 to_float32 to_string to_int32_array to_float32_array
    to_string_array to_proto
to_proto-can_read (int32 n) pd authz = ground arith
to_proto-can_read (float32 f) pd authz = ground arith
to_proto-can_read (string s) pd authz = ground arith
to_proto-can_read (int32_array l) pd authz = ground arith
to_proto-can_read (float32_array l) pd authz = ground arith
to_proto-can_read (string_array l) pd authz = ground arith

or_true : (b : Bool) → (b || true) ≡ true
or_true true = refl
or_true false = refl

level_wants-should_send_param :
    (level : DetailLevel) (d : Device) (p : Param) (subscribed : Bool) (authz : Authorizer)
    → should_send_param (record d { detail_level = level }) p subscribed authz
      ≡ (can_read authz p.descriptor && level_wants level p subscribed)
unfolding should_send_param level_wants
level_wants-should_send_param full d p subscribed authz = ground arith
level_wants-should_send_param subscriptions d p subscribed authz = ground arith
level_wants-should_send_param minimal d p subscribed authz = ground arith
level_wants-should_send_param commands_only d p subscribed authz = ground arith
level_wants-should_send_param unset d p subscribed authz = ground arith
level_wants-should_send_param none_level d p subscribed authz = ground arith

-- A new value reaches a connection that is not cancelled exactly where a device with the connection's
-- detail level would send the parameter to its client; then it is the response that waits, whatever
-- waited before it, and otherwise nothing changes.
pub update_response-should_send_param :
    (d : Device) (subscribed : Bool) (oid : Text) (p : Param) (slot : ℕ) (w : Pushing)
    → update_response false subscribed oid p slot w ≡ (
        if should_send_param (record d { detail_level = w.level }) p subscribed w.authz
        then record w {
          response = pushed_value slot oid ((Stored.to_proto p.value p.descriptor w.authz).1);
          has_update = true;
        }
        else w)
unfolding update_response
update_response-should_send_param d subscribed oid p slot w =
    let written = to_proto-can_read p.value p.descriptor w.authz in
    rw (level_wants-should_send_param w.level d p subscribed w.authz)
      (elim (Bool-cases (can_read w.authz p.descriptor)) [
        | inr denied ↦ rw denied refl
        | inl allowed ↦
            let good : is_ok ((Stored.to_proto p.value p.descriptor w.authz).0) ≡ true =
              written ∙ allowed in
            rw (allowed, good, or_true w.has_update) refl
      ])
