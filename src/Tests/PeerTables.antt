-- ===== src/Tests/PeerTables.antt =====
-- internal/state/peers.go on concrete inputs.
use goop.Base.{ℕ, ◌≡◌, refl, Bool, true, false, List, [], ◌∷◌, none, some, arith, ◌⊎◌}
use goop.Base.Int.{pos}
use goop.Base.Map.{lookup}
use goop.Peers.{PeerTable, Presence, SeenPeer, prune_stale}
use goop.Peers.Pruning.{Outcome, prune_stale-Outcome}
use goop.Peers.Reachability.{probe_all, Burst-keeps_reachable}

abbrev presence : Presence
presence = record {
  content = "Ann";
  email = "";
  avatar_hash = "";
  video_disabled = false;
  active_template = "";
  public_key = "";
  encryption_supported = false;
  verified = true;
  goop_client_version = "2";
}

abbrev ann : SeenPeer
ann = record {
  content = "Ann";
  email = "";
  avatar_hash = "";
  video_disabled = false;
  active_template = "";
  public_key = "k";
  encryption_supported = true;
  verified = true;
  goop_client_version = "1";
  reachable = true;
  last_seen = 5_000_000_000;
  offline_since = 0;
  favorite = true;
  fail_streak = pos 0;
  last_fail_at = 0;
}

abbrev table : PeerTable
table = record {
  peers = ("bob", record ann { offline_since = 3 }) ∷ ("ann", ann) ∷ [];
  listeners = record { id = 1; buffered = [] } ∷ [];
}

abbrev failures : List (Bool × ℕ)
failures = (false, 6_000_000_000) ∷ (false, 7_000_000_000) ∷ []

prune_stale-Outcome_example :
    ((lookup "bob" table.peers ≡ none) × (lookup "bob" (prune_stale table 10 9 20).peers ≡ none))
    ⊎ ((sp : SeenPeer) × (lookup "bob" table.peers ≡ some sp)
        × Outcome 10 9 20 sp (lookup "bob" (prune_stale table 10 9 20).peers))
unfolding lookup
prune_stale-Outcome_example = prune_stale-Outcome table 10 9 20 "bob" (refl, (refl, tt))

Burst-keeps_reachable_example :
    (sp : SeenPeer) × (lookup "ann"
        (probe_all table "ann" ((false, 5_500_000_000) ∷ failures)).peers
      ≡ some sp)
    × (sp.reachable ≡ true)
unfolding lookup
Burst-keeps_reachable_example =
    Burst-keeps_reachable table "ann" ann 5_500_000_000 failures refl refl refl refl (omega arith)
      (refl, omega arith, omega arith, (refl, omega arith, omega arith, tt))
