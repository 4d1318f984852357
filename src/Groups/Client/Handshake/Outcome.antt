-- ===== src/Groups/Client/Handshake/Outcome.antt =====
-- internal/group: how a join of the member's side ends.
use goop.Base.{
  ℕ, Bool, true, false, ◌&&◌, not, String, List, none, some, if◌then◌else◌, Result, ok, err, ◌≡◌,
  refl, Bool-cases, Option-cases, inl, inr, ap, ◌∙◌,
}
use goop.Base.Map.{lookup, insert, erase, lookup-erase_self, lookup-insert_self}
use goop.Base.Json.{get, as_text, as_object}
use goop.Groups.{HostedGroup, MemberInfo, member_list, is_full, admitted}
use goop.Groups.Table.{is_volatile_type}
use goop.Groups.Client.{
  Client, ClientConn, ClientError, WelcomePayload, Incoming, start_join, finish_join,
  handle_mq_message, leave_old, drop_conn, does, welcomed, store_members, wipe_stale, offer_result,
  fill, is_pending, reason, error_text, is_empty,
}
use goop.Groups.Client.Handshake.{delivered, join, refusal, welcome_of}
use goop.Groups.Client.Handshake.Answers.{answer_to-handle_join, answer_to-handle_join_full}

start_join-pending :
    (host group_id : String) (c : Client)
    → lookup group_id (start_join true true host group_id c).0.pending ≡ some none
unfolding start_join does
start_join-pending host group_id c = lookup-insert_self group_id none (leave_old group_id c).pending

-- The first result that comes goes to the join that waits for it.
welcome_taken :
    (from group_id : String) (w : WelcomePayload) (c : Client)
    → lookup group_id c.pending ≡ some none
    → handle_mq_message from group_id (Incoming.welcome (some w)) c
      ≡ record c { pending = insert group_id (some (ok w)) c.pending }
unfolding handle_mq_message is_pending offer_result fill
welcome_taken from group_id w c waits = rw (waits, handle_mq_message, offer_result, is_pending) refl

refusal_taken :
    (from group_id : String) (c : Client)
    → lookup group_id c.pending ≡ some none
    → handle_mq_message from group_id (Incoming.error (refusal group_id)) c ≡ record c {
      pending =
          insert group_id (some (err (ClientError.rejected "join rejected by host"))) c.pending;
    }
unfolding handle_mq_message is_pending offer_result fill refusal reason error_text as_object as_text
    get
refusal_taken from group_id c waits = rw (waits, handle_mq_message, offer_result, is_pending) refl

finish_join-welcomed :
    (host group_id : String) (w : WelcomePayload) (c : Client)
    → lookup group_id c.pending ≡ some (some (ok w))
    → finish_join host group_id c
      ≡ (welcomed host group_id w (record c { pending = erase group_id c.pending }), ok tt)
unfolding finish_join
finish_join-welcomed host group_id w c holds = rw (holds, finish_join) refl

finish_join-rejected :
    (host group_id : String) (e : ClientError) (c : Client)
    → lookup group_id c.pending ≡ some (some (err e))
    → finish_join host group_id c ≡ (record c { pending = erase group_id c.pending }, err e)
unfolding finish_join
finish_join-rejected host group_id e c holds = rw (holds, finish_join) refl

-- The two parts of a Client that a join is about.
record SameConns (c d : Client) : Type 0 where
  conns : c.conns ≡ d.conns
  pending : c.pending ≡ d.pending

store_members-SameConns :
    (keeps : Bool) (group_id : String) (ms : List MemberInfo) (c : Client)
    → SameConns (store_members keeps group_id ms c) c
unfolding store_members
store_members-SameConns true group_id ms c = record { conns = refl; pending = refl }
store_members-SameConns false group_id ms c = record { conns = refl; pending = refl }

wipe_stale-SameConns :
    (volatile : Bool) (group_type group_id : String) (c : Client)
    → SameConns (wipe_stale volatile group_type group_id c) c
unfolding wipe_stale
wipe_stale-SameConns true group_type group_id c = record { conns = refl; pending = refl }
wipe_stale-SameConns false group_type group_id c = record { conns = refl; pending = refl }

abbrev conn_of : String → WelcomePayload → ClientConn
conn_of host w = record { host_peer_id = host; group_type = w.group_type; members = w.members }

welcomed-SameConns :
    (host group_id : String) (w : WelcomePayload) (c : Client)
    → SameConns
        (welcomed host group_id w c)
        (record c { conns = insert group_id (conn_of host w) c.conns })
unfolding welcomed does
welcomed-SameConns host group_id w c =
    let volatile = is_volatile_type c.handlers w.group_type in
    let keeps = not volatile && not (is_empty w.members) in
    let connected = record c { conns = insert group_id (conn_of host w) c.conns } in
    let stored = store_members keeps group_id w.members connected in
    let first = store_members-SameConns keeps group_id w.members connected in
    let second = wipe_stale-SameConns volatile w.group_type group_id stored in
    record { conns = second.conns ∙ first.conns; pending = second.pending ∙ first.pending }

leave_old_gone :
    (group_id : String) (c : Client) → lookup group_id (leave_old group_id c).conns ≡ none
unfolding leave_old drop_conn
leave_old_gone group_id c = elim (Option-cases (lookup group_id c.conns)) [
  | inl absent ↦ rw (absent, leave_old) absent
  | inr (cc, there) ↦ rw (there, leave_old) (lookup-erase_self group_id c.conns)
]

start_join_gone :
    (host group_id : String) (c : Client)
    → lookup group_id (start_join true true host group_id c).0.conns ≡ none
unfolding start_join does
start_join_gone host group_id c = leave_old_gone group_id c

-- The state in which a result has come.
abbrev holding : String → Result ClientError WelcomePayload → Client → Client
holding group_id r c = record c { pending = insert group_id (some r) c.pending }

abbrev over : String → Client → Client
over group_id c = record c { pending = erase group_id c.pending }

join-welcomed :
    (g : HostedGroup) (host group_id from : String) (now : ℕ) (c : Client)
    → is_full g ≡ false
    → (let w = welcome_of g.info (member_list (admitted g from now)) in
        let c₁ = holding group_id (ok w) (start_join true true host group_id c).0 in
        join g host group_id from now c ≡ (welcomed host group_id w (over group_id c₁), ok tt))
unfolding join delivered
join-welcomed g host group_id from now c room =
    let w = welcome_of g.info (member_list (admitted g from now)) in
    let c₁ = (start_join true true host group_id c).0 in
    ap (λ a. finish_join host group_id (delivered host group_id a c₁))
      (answer_to-handle_join group_id from g now room)
    ∙ ap (finish_join host group_id)
        (welcome_taken host group_id w c₁ (start_join-pending host group_id c))
    ∙ finish_join-welcomed host group_id w (holding group_id (ok w) c₁)
        (lookup-insert_self group_id (some (ok w)) c₁.pending)

join_refused :
    (g : HostedGroup) (host group_id from : String) (now : ℕ) (c : Client)
    → is_full g ≡ true
    → (let e = ClientError.rejected "join rejected by host" in
        let c₁ = holding group_id (err e) (start_join true true host group_id c).0 in
        join g host group_id from now c ≡ (over group_id c₁, err e))
unfolding join delivered
join_refused g host group_id from now c full =
    let e = ClientError.rejected "join rejected by host" in
    let c₁ = (start_join true true host group_id c).0 in
    ap (λ a. finish_join host group_id (delivered host group_id a c₁))
      (answer_to-handle_join_full group_id from g now full)
    ∙ ap (finish_join host group_id)
        (refusal_taken host group_id c₁ (start_join-pending host group_id c))
    ∙ finish_join-rejected host group_id e (holding group_id (err e) c₁)
        (lookup-insert_self group_id (some (err e)) c₁.pending)

-- A join to a group that has a place succeeds and ends connected to its host, with the list of members
-- that the host has after the join. A join to a full one fails and leaves no connection, and the reason
-- that it reports is the general one, as it does not find the host's. Neither leaves a pending join.
pub join_lem :
    (g : HostedGroup) (host group_id from : String) (now : ℕ) (c : Client)
    → (let (c', result) = join g host group_id from now c in
        (lookup group_id c'.pending ≡ none)
        × (if is_full g
            then (result ≡ err (ClientError.rejected "join rejected by host"))
              × (lookup group_id c'.conns ≡ none)
            else (result ≡ ok tt)
              × (lookup group_id c'.conns
                  ≡ some (record {
                    host_peer_id = host;
                    group_type = g.info.group_type;
                    members = member_list (admitted g from now);
                  }))))
unfolding welcome_of
join_lem g host group_id from now c =
    let c₁ = (start_join true true host group_id c).0 in
    elim (Bool-cases (is_full g)) [
      | inl full ↦
          rw (join_refused g host group_id from now c full, full)
            (lookup-erase_self group_id _, (refl, start_join_gone host group_id c))
      | inr room ↦
          let w = welcome_of g.info (member_list (admitted g from now)) in
          let same =
            welcomed-SameConns host group_id w (over group_id (holding group_id (ok w) c₁)) in
          rw (join-welcomed g host group_id from now c room, room)
            (
              ap (lookup group_id) same.pending ∙ lookup-erase_self group_id _,
              (refl, ap (lookup group_id) same.conns ∙ lookup-insert_self group_id _ c₁.conns),
            )
    ]
