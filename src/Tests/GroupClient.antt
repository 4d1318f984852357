-- ===== src/Tests/GroupClient.antt =====
-- internal/group, the member's side, on concrete inputs.
use goop.Base.{◌≡◌, refl, true, false, [], ◌∷◌, some, none, ok, err, if◌then◌else◌}
use goop.Base.Int.{pos}
use goop.Base.Map.{lookup}
use goop.Groups.{HostedGroup, is_full, member_list, admitted}
use goop.Groups.Client.{Client, ClientConn, ClientError, start_join, finish_join}
use goop.Groups.Client.Handshake.{join}
use goop.Groups.Client.Handshake.Outcome.{join_lem}
use goop.Groups.Client.Failures.{IsForgotten, rejoin_lem}

abbrev room : HostedGroup
room = record {
  self_id = "host";
  handler = none;
  info = record {
    name = "Room";
    group_type = "files";
    group_context = "";
    default_role = "";
    roles = [];
    max_members = pos 1;
  };
  members = [];
  host_joined = false;
  host_joined_at = 0;
  effects = [];
}

abbrev old_conn : ClientConn
old_conn = record { host_peer_id = "host"; group_type = "files"; members = [] }

abbrev guest : Client
guest = record {
  handlers = [];
  conns = ("g1", old_conn) ∷ [];
  pending = [];
  subscriptions =
      record {
        host_peer_id = "host";
        group_id = "g1";
        group_name = "Room";
        group_type = "files";
        max_members = pos 1;
        volatile = false;
      }
      ∷ [];
  member_rows = [];
  actions = [];
}

join_lem_example :
    (lookup "g1" (join room "host" "g1" "guest" 7 guest).0.pending ≡ none)
    × (if is_full room
        then ((join room "host" "g1" "guest" 7 guest).1
            ≡ err (ClientError.rejected "join rejected by host"))
          × (lookup "g1" (join room "host" "g1" "guest" 7 guest).0.conns ≡ none)
        else ((join room "host" "g1" "guest" 7 guest).1 ≡ ok tt)
          × (lookup "g1" (join room "host" "g1" "guest" 7 guest).0.conns
              ≡ some (record {
                host_peer_id = "host";
                group_type = "files";
                members = member_list (admitted room "guest" 7);
              })))
join_lem_example = join_lem room "host" "g1" "guest" 7 guest

guest_connected : lookup "g1" guest.conns ≡ some old_conn
unfolding lookup
guest_connected = refl

rejoin_lem_example :
    ((start_join true false "host" "g1" guest).1 ≡ err ClientError.send_failed)
    × IsForgotten "host" "g1" (start_join true false "host" "g1" guest).0
    × ((finish_join "host" "g1" (start_join true true "host" "g1" guest).0).1
        ≡ err ClientError.timed_out)
    × IsForgotten "host" "g1" (finish_join "host" "g1" (start_join true true "host" "g1" guest).0).0
rejoin_lem_example = rejoin_lem "host" "g1" old_conn guest guest_connected
