-- ===== src/Groups/Client/Handshake.antt =====
-- internal/group: a join of the member's side (client.go) against the host's answer (routing.go).
pub mod Answers
pub mod Outcome
use goop.Base.{
  ℕ, Bool, true, false, ◌&&◌, ◌||◌, not, String, List, [], ◌∷◌, Option, none, some, if◌then◌else◌,
  ◌==◌, eq_iff, Result, ok, err, ◌≡◌, refl, Bool-cases, Option-cases, inl, inr, ap, ◌∙◌,
}
use goop.Base.Map.{lookup, insert, erase, lookup-erase_self, lookup-insert_self}
use goop.Base.Json.{Value, Fields, get, as_text, as_object}
use goop.Groups.{
  HostedGroup, GroupRow, MemberInfo, Effect, emit, send_each, broadcast_to_group, broadcast_members,
  save_members, call_handler, is_volatile, member_list, is_full, admitted, handle_join,
}
use goop.Groups.Table.{is_volatile_type}
use goop.Groups.Client.{
  Client, ClientConn, ClientError, WelcomePayload, Incoming, start_join, finish_join,
  handle_mq_message, leave_old, drop_conn, does, welcomed, store_members, wipe_stale, offer_result,
  fill, is_pending, reason, error_text, is_empty,
}

-- The payload of the refusal: the ErrorPayload stands in the field `payload` of a Message.
unfoldable pub refusal : String → Value
refusal group_id =
    let payload = Value.object (
      Fields.field "code" (Value.string "full")
        (Fields.field "message" (Value.string "group is full") Fields.end)) in
    Value.object (
      Fields.field "type" (Value.string "error")
        (Fields.field "group" (Value.string group_id) (Fields.field "payload" payload Fields.end)))

unfoldable pub welcome_of : GroupRow → List MemberInfo → WelcomePayload
welcome_of row ms = record {
  group_name = row.name;
  group_type = row.group_type;
  group_context = row.group_context;
  max_members = row.max_members;
  members = ms;
}

-- What the host sent to the peer `p` as the answer to its join, out of the host's effects.
unfoldable pub answer_to : String → String → List Effect → Option Incoming
answer_to group_id p [] = none
answer_to group_id p (Effect.welcome q row volatile ms ∷ es) =
    let rest = answer_to group_id p es in
    if q == p then some (Incoming.welcome (some (welcome_of row ms))) else rest
answer_to group_id p (Effect.full q ∷ es) =
    let rest = answer_to group_id p es in
    if q == p then some (Incoming.error (refusal group_id)) else rest
answer_to group_id p (_ ∷ es) = answer_to group_id p es

unfoldable pub delivered : String → String → Option Incoming → Client → Client
delivered host group_id none c = c
delivered host group_id (some msg) c = handle_mq_message host group_id msg c

-- The whole of a join to `g` at the host `host`: the request, the host's answer, the result.
unfoldable pub join :
    HostedGroup → String → String → String → ℕ → Client → Client × Result ClientError Unit
join g host group_id from now c =
    let answer = answer_to group_id from (handle_join g from now).effects in
    finish_join host group_id
      (delivered host group_id answer (start_join true true host group_id c).0)
