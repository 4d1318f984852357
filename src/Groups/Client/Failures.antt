-- ===== src/Groups/Client/Failures.antt =====
-- internal/group/client.go: a join to a group that this node is already in, where the host is not reached.
use goop.Base.{Bool, true, false, ◌||◌, String, List, [], ◌∷◌, none, some, err, ◌≡◌, refl, arith}
use goop.Base.Map.{lookup, insert, lookup-erase_self, lookup-insert_self}
use goop.Groups.Client.{
  Client, ClientConn, ClientError, Subscription, start_join, finish_join, leave_old, drop_conn,
  does, is_row, remove_subscription,
}

-- Whether there is a row for the group at the host.
unfoldable pub is_subscribed : String → String → List Subscription → Bool
is_subscribed host group_id [] = false
is_subscribed host group_id (s ∷ ss) = is_row host group_id s || is_subscribed host group_id ss

is_subscribed-remove_subscription :
    (host group_id : String) (ss : List Subscription)
    → is_subscribed host group_id (remove_subscription host group_id ss) ≡ false
unfolding is_subscribed remove_subscription
is_subscribed-remove_subscription host group_id [] = refl
is_subscribed-remove_subscription host group_id (s ∷ ss) =
    ground (arith, is_subscribed-remove_subscription host group_id ss)

-- What is left of the group after a failed join.
pub record IsForgotten (host group_id : String) (c : Client) : Type 0 where
  disconnected : lookup group_id c.conns ≡ none
  unsubscribed : is_subscribed host group_id c.subscriptions ≡ false
  settled : lookup group_id c.pending ≡ none

drop_conn-gone :
    (group_id : String) (cc : ClientConn) (c : Client)
    → lookup group_id c.conns ≡ some cc
    → (lookup group_id (leave_old group_id c).conns ≡ none)
      × (is_subscribed cc.host_peer_id group_id (leave_old group_id c).subscriptions ≡ false)
unfolding drop_conn leave_old does
drop_conn-gone group_id cc c there =
    rw (there, leave_old)
      (
        lookup-erase_self group_id c.conns,
        is_subscribed-remove_subscription cc.host_peer_id group_id c.subscriptions,
      )

-- A node that joins a group anew in which it already is, at the host of its connection or another one,
-- and that cannot send the join, or gets no answer in time, gets that error, is then not connected
-- to the group, has no row of a subscription to it at the old host any more, and waits for no answer.
pub rejoin_lem :
    (host group_id : String) (cc : ClientConn) (c : Client)
    → lookup group_id c.conns ≡ some cc
    → ((start_join true false host group_id c).1 ≡ err ClientError.send_failed)
      × IsForgotten cc.host_peer_id group_id (start_join true false host group_id c).0
      × ((finish_join host group_id (start_join true true host group_id c).0).1
          ≡ err ClientError.timed_out)
      × IsForgotten cc.host_peer_id group_id
          (finish_join host group_id (start_join true true host group_id c).0).0
unfolding start_join finish_join does
rejoin_lem host group_id cc c there =
    let (gone, unsubscribed) = drop_conn-gone group_id cc c there in
    let old = leave_old group_id c in
    let empty : lookup group_id (insert group_id none old.pending) ≡ some none =
      lookup-insert_self group_id none old.pending in
    (
      refl,
      record {
        disconnected = gone;
        unsubscribed = unsubscribed;
        settled = lookup-erase_self group_id old.pending;
      },
      rw (empty, finish_join) refl,
      rw (empty, finish_join)
          (record {
            disconnected = gone;
            unsubscribed = unsubscribed;
            settled = lookup-erase_self group_id (insert group_id none old.pending);
          }),
    )
