-- ===== src/Peers/Reachability.antt =====
-- SetReachable of internal/state/peers.go under sequences of probes.
use goop.Base.{
  ℕ, ◌+◌, ◌≤◌, ◌<◌, Bool, true, false, String, List, [], ◌∷◌, some, ◌≡◌, refl, arith, Bool-cases,
  inl, inr, if◌then◌else◌,
}
use goop.Base.Int.{pos, incr, leb_ℤ, suc_ℤ, int_max}
use goop.Base.Map.{lookup, lookup-insert_self}
use goop.Base.Time.{elapsed}
use goop.Peers.{
  SeenPeer, PeerTable, dedup_window, failed_probe, set_reachable, store_peer, store_and_notify,
}

unfoldable pub probe_all : PeerTable → String → List (Bool × ℕ) → PeerTable
probe_all t id [] = t
probe_all t id ((reachable, now) ∷ l) = probe_all (set_reachable t id reachable now) id l

-- The entry after one probe.
unfoldable pub probed : SeenPeer → Bool → ℕ → SeenPeer
probed sp true now = record sp { fail_streak = pos 0; last_fail_at = 0; reachable = true }
probed sp false now =
    let sp' = failed_probe sp now in
    if leb_ℤ (pos 2) sp'.fail_streak then record sp' { reachable = false } else sp'

pub lookup-set_reachable :
    (t : PeerTable) (id : String) {sp : SeenPeer} (reachable : Bool) (now : ℕ)
    → lookup id t.peers ≡ some sp
    → lookup id (set_reachable t id reachable now).peers ≡ some (probed sp reachable now)
unfolding set_reachable probed store_peer store_and_notify
lookup-set_reachable t id {sp} true now e =
    let written = record sp { fail_streak = pos 0; last_fail_at = 0; reachable = true } in
    rw (e, set_reachable)
      (elim (Bool-cases sp.reachable) [
        | inl r ↦ rw r (lookup-insert_self id written t.peers)
        | inr r ↦ rw r (lookup-insert_self id written t.peers)
      ])
lookup-set_reachable t id {sp} false now e =
    let sp' = failed_probe sp now in
    rw (e, set_reachable)
      (ground (
        arith,
        lookup-insert_self id sp' t.peers,
        lookup-insert_self id (record sp' { reachable = false }) t.peers,
      ))

-- Every failed probe of the list was made within the window after `start`.
abbrev pub Burst : ℕ → List (Bool × ℕ) → Type 0
Burst start [] = Unit
Burst start ((reachable, now) ∷ l) =
    (reachable ≡ false) × (start ≤ now) × (now ≤ start + dedup_window) × Burst start l

-- One failure has counted, at `start`.
abbrev Suspected : SeenPeer → ℕ → Type 0
Suspected sp start = (sp.reachable ≡ true) × (sp.fail_streak ≡ pos 1) × (sp.last_fail_at ≡ start)

probed-Suspected :
    (sp : SeenPeer) (start now : ℕ)
    → Suspected sp start
    → start ≤ now
    → now ≤ start + dedup_window
    → Suspected (probed sp false now) start
unfolding probed failed_probe elapsed
probed-Suspected sp start now s h k = ground arith

probe_all-Suspected :
    (l : List (Bool × ℕ)) (t : PeerTable) (id : String) (sp : SeenPeer) (start : ℕ)
    → lookup id t.peers ≡ some sp
    → Suspected sp start
    → Burst start l
    → (sp' : SeenPeer) × (lookup id (probe_all t id l).peers ≡ some sp') × Suspected sp' start
unfolding probe_all
probe_all-Suspected [] t id sp start e s b = (sp, e, s)
probe_all-Suspected ((false, now) ∷ l) t id sp start e s b =
    probe_all-Suspected l (set_reachable t id false now) id (probed sp false now) start
      (lookup-set_reachable t id false now e) (probed-Suspected sp start now s b.1 b.2) b.3
probe_all-Suspected ((true, now) ∷ l) t id sp start e s b = cc

probed_first :
    (sp : SeenPeer) (start : ℕ)
    → sp.reachable ≡ true
    → sp.fail_streak ≡ pos 0
    → sp.last_fail_at ≡ 0
    → dedup_window < start
    → Suspected (probed sp false start) start
unfolding probed failed_probe elapsed incr suc_ℤ int_max
probed_first sp start r f a h = ground arith

-- A burst of failed probes counts as one failure: a reachable peer without a failure so far stays
-- reachable, however many probes fail within the window after the first failure.
pub Burst-keeps_reachable :
    (t : PeerTable) (id : String) (sp : SeenPeer) (start : ℕ) (l : List (Bool × ℕ))
    → lookup id t.peers ≡ some sp
    → sp.reachable ≡ true
    → sp.fail_streak ≡ pos 0
    → sp.last_fail_at ≡ 0
    → dedup_window < start
    → Burst start l
    → (sp' : SeenPeer) × (lookup id (probe_all t id ((false, start) ∷ l)).peers ≡ some sp')
      × (sp'.reachable ≡ true)
unfolding probe_all
Burst-keeps_reachable t id sp start l e r f a h b =
    let (sp', found, s) =
      probe_all-Suspected l (set_reachable t id false start) id (probed sp false start) start
        (lookup-set_reachable t id false start e) (probed_first sp start r f a h) b in
    (sp', found, s.0)

probed_second :
    (sp : SeenPeer) (start now : ℕ)
    → Suspected sp start
    → start + dedup_window < now
    → (probed sp false now).reachable ≡ false
unfolding probed failed_probe elapsed incr suc_ℤ int_max
probed_second sp start now s h = ground arith

-- Two failures that are further apart than the window make the peer unreachable, whatever failed probes
-- come between them within the window of the first; one successful probe makes it reachable again.
pub late_failure_unreachable :
    (t : PeerTable) (id : String) (sp : SeenPeer) (start late back : ℕ) (l : List (Bool × ℕ))
    → lookup id t.peers ≡ some sp
    → sp.reachable ≡ true
    → sp.fail_streak ≡ pos 0
    → sp.last_fail_at ≡ 0
    → dedup_window < start
    → Burst start l
    → start + dedup_window < late
    → let t' = set_reachable (probe_all t id ((false, start) ∷ l)) id false late in
      (sp' : SeenPeer) × (sp'' : SeenPeer) × (lookup id t'.peers ≡ some sp')
      × (sp'.reachable ≡ false)
      × (lookup id (set_reachable t' id true back).peers ≡ some sp'')
      × (sp''.reachable ≡ true)
      × (sp''.fail_streak ≡ pos 0)
unfolding probe_all
late_failure_unreachable t id sp start late back l e r f a h b k =
    let (sp', found, s) =
      probe_all-Suspected l (set_reachable t id false start) id (probed sp false start) start
        (lookup-set_reachable t id false start e) (probed_first sp start r f a h) b in
    let t₁ = probe_all (set_reachable t id false start) id l in
    let down = lookup-set_reachable t₁ id false late found in
    (
      probed sp' false late,
      probed (probed sp' false late) true back,
      down,
      probed_second sp' start late s k,
      lookup-set_reachable (set_reachable t₁ id false late) id true back down,
      unfold probed in refl,
      unfold probed in refl,
    )
