-- ===== src/Peers/Pruning.antt =====
-- PruneStale of internal/state/peers.go.
use goop.Base.{
  ℕ, ◌≤◌, ◌<◌, true, false, String, List, [], ◌∷◌, Option, none, some, ◌==◌, ◌≡◌, ◌⊎◌, inl, inr,
  refl, arith, eq_iff, Bool-cases, Option-cases, if◌then◌else◌, ltb, ap, sym, ◌∙◌, subst,
}
use goop.Base.Map.{Map, lookup, IsDistinct}
use goop.Base.Time.{is_zero}
use goop.Peers.{
  SeenPeer, PeerTable, PeerEvent, Listener, Fate, fate, prune_entry, prune_from, prune_stale,
  notify_listeners,
}

-- What is left of an entry.
abbrev survivor : SeenPeer → Fate → Option SeenPeer
survivor sp Fate.stays = some sp
survivor sp (Fate.goes_offline sp') = some sp'
survivor sp Fate.goes = none

abbrev after_fate : ℕ → ℕ → ℕ → Option SeenPeer → Option SeenPeer
after_fate ttl grace now none = none
after_fate ttl grace now (some sp) = survivor sp (fate ttl grace now sp)

lookup-prune_entry :
    (f : Fate) (j id : String) (sp : SeenPeer) (rest : List Listener → PeerTable)
    (ls : List Listener) (later : Option SeenPeer)
    → ((l : List Listener) → lookup id (rest l).peers ≡ later)
    → ((j == id) ≡ true → later ≡ none)
    → lookup id (prune_entry f j sp rest ls).peers ≡ (if j == id then survivor sp f else later)
unfolding prune_entry lookup
lookup-prune_entry Fate.stays j id sp rest ls later h once = ground (arith, h ls)
lookup-prune_entry (Fate.goes_offline sp') j id sp rest ls later h once =
    ground (arith, h (notify_listeners (PeerEvent.update j sp') ls))
lookup-prune_entry Fate.goes j id sp rest ls later h once =
    ground (arith, h (notify_listeners (PeerEvent.remove j) ls))

lookup-prune_from :
    (ttl grace now : ℕ) (m : Map SeenPeer) (ls : List Listener) (id : String)
    → IsDistinct m
    → lookup id (prune_from ttl grace now m ls).peers ≡ after_fate ttl grace now (lookup id m)
unfolding prune_from lookup
lookup-prune_from ttl grace now [] ls id d = refl
lookup-prune_from ttl grace now ((j, sp) ∷ m) ls id d =
    let once : (j == id) ≡ true → after_fate ttl grace now (lookup id m) ≡ none =
      λ e. ap (after_fate ttl grace now) (subst (λ k. lookup k m ≡ none) ((eq_iff j id).0 e) d.0) in
    lookup-prune_entry (fate ttl grace now sp) j id sp (prune_from ttl grace now m) ls
      (after_fate ttl grace now (lookup id m)) (λ l. lookup-prune_from ttl grace now m l id d.1)
      once
    ∙ elim (Bool-cases (j == id)) [ inl e ↦ rw e | inr e ↦ rw e ]

-- How an entry of the table may come out of a prune.
abbrev pub Outcome : ℕ → ℕ → ℕ → SeenPeer → Option SeenPeer → Type 0
Outcome ttl grace now sp none = (0 < sp.offline_since) × (sp.offline_since < grace)
Outcome ttl grace now sp (some sp') =
    ((sp' ≡ sp)
      × ((sp.offline_since ≡ 0) × (ttl ≤ sp.last_seen)
          ⊎ (0 < sp.offline_since) × (grace ≤ sp.offline_since)))
    ⊎ ((sp.offline_since ≡ 0)
        × (sp.last_seen < ttl)
        × (sp'.offline_since ≡ now)
        × (sp'.reachable ≡ false)
        × (sp'.favorite ≡ sp.favorite)
        × (sp'.last_seen ≡ sp.last_seen))

survivor-Outcome :
    (ttl grace now : ℕ) (sp : SeenPeer)
    → Outcome ttl grace now sp (survivor sp (fate ttl grace now sp))
unfolding fate
survivor-Outcome ttl grace now sp = elim (Bool-cases (is_zero sp.offline_since)) [
  | inl z ↦ elim (Bool-cases (ltb sp.last_seen ttl)) [
    | inl old ↦ rw (z, old) (inr (ground arith, ground arith, refl, refl, refl, refl))
    | inr new ↦ rw (z, new) (inl (refl, inl (ground arith, ground arith)))
  ]
  | inr nz ↦ elim (Bool-cases (ltb sp.offline_since grace)) [
    | inl old ↦ rw (nz, old) (ground arith, ground arith)
    | inr new ↦ rw (nz, new) (inl (refl, inr (ground arith, ground arith)))
  ]
]

-- PruneStale takes a peer offline, not out of the table, when it was last seen before the first cutoff;
-- it removes exactly the peers that were offline already before the call, since before the second
-- cutoff; all others stay as they are, and no peer appears.
pub prune_stale-Outcome :
    (t : PeerTable) (ttl grace now : ℕ) (id : String)
    → IsDistinct t.peers
    → ((lookup id t.peers ≡ none) × (lookup id (prune_stale t ttl grace now).peers ≡ none))
      ⊎ ((sp : SeenPeer) × (lookup id t.peers ≡ some sp)
          × Outcome ttl grace now sp (lookup id (prune_stale t ttl grace now).peers))
unfolding prune_stale
prune_stale-Outcome t ttl grace now id d =
    let e = lookup-prune_from ttl grace now t.peers t.listeners id d in
    elim (Option-cases (lookup id t.peers)) [
      | inl absent ↦ inl (absent, e ∙ ap (after_fate ttl grace now) absent)
      | inr (sp, present) ↦ inr (
        sp,
        present,
        subst (Outcome ttl grace now sp) (sym (e ∙ ap (after_fate ttl grace now) present))
            (survivor-Outcome ttl grace now sp),
      )
    ]
