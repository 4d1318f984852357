-- ===== src/Peers.antt =====
-- internal/state/peers.go: the table of the peers that this one knows of, and its listeners. The
-- clock is an argument; the mutex makes each method one step.
pub mod Reachability
pub mod Pruning
pub mod Listeners
use goop.Base.{
  ℕ, ◌+◌, suc, Bool, true, false, ◌&&◌, not, String, List, [], ◌∷◌, ◌++◌, Option, none, some,
  if◌then◌else◌, ◌==◌, ltb, leb, eqb,
}
use goop.Base.Int.{ℤ, pos, incr, leb_ℤ}
use goop.Base.Lists.{length}
use goop.Base.Map.{Map, lookup, insert, erase}
use goop.Base.Time.{elapsed, is_zero}

pub record SeenPeer : Type 0 where
  pub content : String
  pub email : String
  pub avatar_hash : String
  pub video_disabled : Bool
  pub active_template : String
  pub public_key : String
  pub encryption_supported : Bool
  pub verified : Bool
  pub goop_client_version : String
  pub reachable : Bool
  pub last_seen : ℕ
  pub offline_since : ℕ
  pub favorite : Bool
  pub fail_streak : ℤ
  pub last_fail_at : ℕ

pub data PeerEvent : Type 0 where
  update : String → SeenPeer → PeerEvent
  remove : String → PeerEvent

-- A channel with the events that wait in it, oldest first.
pub record Listener : Type 0 where
  pub id : ℕ
  pub buffered : List PeerEvent

pub record PeerTable : Type 0 where
  pub peers : Map SeenPeer
  pub listeners : List Listener

unfoldable pub new_peer_table : PeerTable
new_peer_table = record { peers = []; listeners = [] }

-- The arguments of Upsert and Seed.
pub record Presence : Type 0 where
  pub content : String
  pub email : String
  pub avatar_hash : String
  pub video_disabled : Bool
  pub active_template : String
  pub public_key : String
  pub encryption_supported : Bool
  pub verified : Bool
  pub goop_client_version : String

-- The capacity of a listener's channel, and PeerFailureDedupWindow: two seconds.
abbrev pub channel_capacity : ℕ
channel_capacity = 16

abbrev pub dedup_window : ℕ
dedup_window = 2_000_000_000

-- A send that does not wait: a full channel loses the event.
unfoldable pub offer : PeerEvent → Listener → Listener
offer e l =
    if ltb (length l.buffered) channel_capacity
    then record l { buffered = l.buffered ++ e ∷ [] }
    else l

unfoldable pub notify_listeners : PeerEvent → List Listener → List Listener
notify_listeners e [] = []
notify_listeners e (l ∷ ls) = offer e l ∷ notify_listeners e ls

unfoldable pub store_peer : String → SeenPeer → PeerTable → PeerTable
store_peer id sp t = record t { peers = insert id sp t.peers }

unfoldable pub store_and_notify : String → SeenPeer → PeerTable → PeerTable
store_and_notify id sp t = record t {
  peers = insert id sp t.peers;
  listeners = notify_listeners (PeerEvent.update id sp) t.listeners;
}

-- The peer that Upsert writes for one that is not in the table.
unfoldable pub fresh_peer : Presence → ℕ → SeenPeer
fresh_peer p now = record {
  content = p.content;
  email = p.email;
  avatar_hash = p.avatar_hash;
  video_disabled = p.video_disabled;
  active_template = p.active_template;
  public_key = p.public_key;
  encryption_supported = p.encryption_supported;
  verified = p.verified;
  goop_client_version = p.goop_client_version;
  reachable = false;
  last_seen = now;
  offline_since = 0;
  favorite = false;
  fail_streak = pos 0;
  last_fail_at = 0;
}

-- The same with what Upsert keeps of the existing entry.
unfoldable pub refreshed_peer : SeenPeer → Presence → ℕ → SeenPeer
unfolding fresh_peer
refreshed_peer existing p now = record (fresh_peer p now) {
  reachable = existing.reachable;
  favorite = existing.favorite;
  fail_streak = existing.fail_streak;
  last_fail_at = existing.last_fail_at;
  public_key = if p.public_key == "" then existing.public_key else p.public_key;
  encryption_supported =
      if p.encryption_supported then p.encryption_supported else existing.encryption_supported;
  goop_client_version =
      if p.goop_client_version == "" then existing.goop_client_version else p.goop_client_version;
}

unfoldable pub upsert : PeerTable → String → Presence → ℕ → PeerTable
upsert t id p now = elim (lookup id t.peers) [
  | none ↦ store_and_notify id (fresh_peer p now) t
  | some existing ↦ store_and_notify id (refreshed_peer existing p now) t
]

-- Seed carries no client version and no word on encryption.
unfoldable pub seeded_peer : Presence → Bool → ℕ → SeenPeer
unfolding fresh_peer
seeded_peer p favorite now = record (fresh_peer p now) {
  encryption_supported = false;
  goop_client_version = "";
  offline_since = now;
  favorite = favorite;
}

unfoldable pub seed : PeerTable → String → Presence → Bool → ℕ → PeerTable
seed t id p favorite now = elim (lookup id t.peers) [
  | some _ ↦ t
  | none ↦ store_and_notify id (seeded_peer p favorite now) t
]

unfoldable pub set_public_key : PeerTable → String → String → PeerTable
set_public_key t id public_key = elim (lookup id t.peers) [
  | none ↦ t
  | some sp ↦ store_peer id (record sp { public_key = public_key }) t
]

unfoldable pub touch : PeerTable → String → ℕ → PeerTable
touch t id now = elim (lookup id t.peers) [
  | none ↦ t
  | some sp ↦ store_peer id (record sp { last_seen = now }) t
]

unfoldable pub remove_peer : PeerTable → String → PeerTable
remove_peer t id = record t {
  peers = erase id t.peers;
  listeners = notify_listeners (PeerEvent.remove id) t.listeners;
}

unfoldable pub offline_peer : SeenPeer → ℕ → SeenPeer
offline_peer sp now = record sp {
  reachable = false;
  fail_streak = pos 0;
  last_fail_at = 0;
  offline_since = if is_zero sp.offline_since then now else sp.offline_since;
}

unfoldable pub mark_offline : PeerTable → String → ℕ → PeerTable
mark_offline t id now = elim (lookup id t.peers) [
  | none ↦ t
  | some sp ↦
      if is_zero sp.offline_since
      then store_and_notify id (offline_peer sp now) t
      else store_peer id (offline_peer sp now) t
]

-- One failed probe: failures within the window of the last one that counted do not count.
unfoldable pub failed_probe : SeenPeer → ℕ → SeenPeer
failed_probe sp now =
    if ltb dedup_window (elapsed now sp.last_fail_at)
    then record sp { fail_streak = incr sp.fail_streak; last_fail_at = now }
    else sp

unfoldable pub set_reachable : PeerTable → String → Bool → ℕ → PeerTable
set_reachable t id reachable now = elim (lookup id t.peers) [
  | none ↦ t
  | some sp ↦
      if reachable
      then (let sp' = record sp { fail_streak = pos 0; last_fail_at = 0 } in
          if sp.reachable
          then store_peer id sp' t
          else store_and_notify id (record sp' { reachable = true }) t)
      else (let sp' = failed_probe sp now in
          if leb_ℤ (pos 2) sp'.fail_streak && sp'.reachable
          then store_and_notify id (record sp' { reachable = false }) t
          else store_peer id sp' t)
]

unfoldable pub set_favorite : PeerTable → String → Bool → PeerTable
set_favorite t id favorite = elim (lookup id t.peers) [
  | none ↦ t
  | some sp ↦ store_and_notify id (record sp { favorite = favorite }) t
]

-- What PruneStale does with one peer.
pub data Fate : Type 0 where
  stays : Fate
  goes_offline : SeenPeer → Fate
  goes : Fate

unfoldable pub fate : ℕ → ℕ → ℕ → SeenPeer → Fate
fate ttl_cutoff grace_cutoff now sp =
    if is_zero sp.offline_since
    then (if ltb sp.last_seen ttl_cutoff
        then Fate.goes_offline (record sp {
          reachable = false;
          fail_streak = pos 0;
          last_fail_at = 0;
          offline_since = now;
        })
        else Fate.stays)
    else if ltb sp.offline_since grace_cutoff
    then Fate.goes
    else Fate.stays

-- One round of PruneStale's loop, and what is left to visit.
unfoldable pub prune_entry :
    Fate → String → SeenPeer → (List Listener → PeerTable) → List Listener → PeerTable
prune_entry Fate.stays id sp rest ls = let t = rest ls in record t { peers = (id, sp) ∷ t.peers }
prune_entry (Fate.goes_offline sp') id sp rest ls =
    let t = rest (notify_listeners (PeerEvent.update id sp') ls) in
    record t { peers = (id, sp') ∷ t.peers }
prune_entry Fate.goes id sp rest ls = rest (notify_listeners (PeerEvent.remove id) ls)

-- The loop, in the order of the visit.
unfoldable pub prune_from : ℕ → ℕ → ℕ → Map SeenPeer → List Listener → PeerTable
prune_from ttl_cutoff grace_cutoff now [] ls = record { peers = []; listeners = ls }
prune_from ttl_cutoff grace_cutoff now ((id, sp) ∷ m) ls =
    prune_entry (fate ttl_cutoff grace_cutoff now sp) id sp
      (prune_from ttl_cutoff grace_cutoff now m) ls

unfoldable pub prune_stale : PeerTable → ℕ → ℕ → ℕ → PeerTable
prune_stale t ttl_cutoff grace_cutoff now =
    prune_from ttl_cutoff grace_cutoff now t.peers t.listeners

-- A new channel, which no other listener has.
unfoldable pub subscribe : PeerTable → ℕ → PeerTable
subscribe t id = record t { listeners = t.listeners ++ record { id = id; buffered = [] } ∷ [] }

unfoldable pub without_listener : ℕ → List Listener → List Listener
without_listener id [] = []
without_listener id (l ∷ ls) = if eqb l.id id then ls else l ∷ without_listener id ls

unfoldable pub unsubscribe : PeerTable → ℕ → PeerTable
unsubscribe t id = record t { listeners = without_listener id t.listeners }
