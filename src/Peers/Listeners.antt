-- ===== src/Peers/Listeners.antt =====
-- What the listeners of internal/state/peers.go receive.
use goop.Base.{
  ℕ, ◌≤◌, ◌<◌, Bool, true, false, String, List, [], ◌∷◌, ◌++◌, none, some, ◌==◌, ◌≡◌, refl, arith,
  Bool-cases, Option-cases, inl, inr, if◌then◌else◌, ◌⊎◌, eqb,
}
use goop.Base.Lists.{length, length-append}
use goop.Base.Map.{Map, lookup, lookup-insert_self}
use goop.Base.Time.{is_zero}
use goop.Peers.{
  SeenPeer, PeerTable, PeerEvent, Listener, Presence, Fate, channel_capacity, offer,
  notify_listeners, store_peer, store_and_notify, fresh_peer, refreshed_peer, upsert, seed,
  set_public_key, touch, remove_peer, mark_offline, set_reachable, set_favorite, fate, prune_entry,
  prune_from, prune_stale, subscribe, unsubscribe, without_listener,
}

pub data Op : Type 0 where
  upserts : String → Presence → ℕ → Op
  seeds : String → Presence → Bool → ℕ → Op
  sets_public_key : String → String → Op
  touches : String → ℕ → Op
  removes : String → Op
  marks_offline : String → ℕ → Op
  sets_reachable : String → Bool → ℕ → Op
  sets_favorite : String → Bool → Op
  prunes : ℕ → ℕ → ℕ → Op
  subscribes unsubscribes : ℕ → Op

unfoldable pub step : PeerTable → Op → PeerTable
step t (upserts id p now) = upsert t id p now
step t (seeds id p favorite now) = seed t id p favorite now
step t (sets_public_key id key) = set_public_key t id key
step t (touches id now) = touch t id now
step t (removes id) = remove_peer t id
step t (marks_offline id now) = mark_offline t id now
step t (sets_reachable id reachable now) = set_reachable t id reachable now
step t (sets_favorite id favorite) = set_favorite t id favorite
step t (prunes ttl grace now) = prune_stale t ttl grace now
step t (subscribes id) = subscribe t id
step t (unsubscribes id) = unsubscribe t id

unfoldable pub run : PeerTable → List Op → PeerTable
run t [] = t
run t (o ∷ os) = run (step t o) os

-- No channel holds more events than its capacity.
abbrev pub AllBounded : List Listener → Type 0
AllBounded [] = Unit
AllBounded (l ∷ ls) = (length l.buffered ≤ channel_capacity) × AllBounded ls

offer_bounded :
    (e : PeerEvent) (l : Listener)
    → length l.buffered ≤ channel_capacity
    → length (offer e l).buffered ≤ channel_capacity
unfolding offer
offer_bounded e l h = ground (arith, length-append l.buffered (e ∷ []))

notify-AllBounded :
    (e : PeerEvent) (ls : List Listener) → AllBounded ls → AllBounded (notify_listeners e ls)
unfolding notify_listeners
notify-AllBounded e [] b = tt
notify-AllBounded e (l ∷ ls) b = (offer_bounded e l b.0, notify-AllBounded e ls b.1)

append-AllBounded :
    (ls : List Listener) (id : ℕ)
    → AllBounded ls
    → AllBounded (ls ++ record { id = id; buffered = [] } ∷ [])
append-AllBounded [] id b = (omega arith, tt)
append-AllBounded (l ∷ ls) id b = (b.0, append-AllBounded ls id b.1)

without-AllBounded :
    (id : ℕ) (ls : List Listener) → AllBounded ls → AllBounded (without_listener id ls)
unfolding without_listener
without-AllBounded id [] b = tt
without-AllBounded id (l ∷ ls) b = elim (Bool-cases (eqb l.id id)) [
  | inl e ↦ rw e b.1
  | inr e ↦ rw e (b.0, without-AllBounded id ls b.1)
]

prune_entry-AllBounded :
    (f : Fate) (id : String) (sp : SeenPeer) (rest : List Listener → PeerTable) (ls : List Listener)
    → ((l : List Listener) → AllBounded l → AllBounded (rest l).listeners)
    → AllBounded ls
    → AllBounded (prune_entry f id sp rest ls).listeners
unfolding prune_entry
prune_entry-AllBounded Fate.stays id sp rest ls h b = h ls b
prune_entry-AllBounded (Fate.goes_offline sp') id sp rest ls h b =
    h _ (notify-AllBounded (PeerEvent.update id sp') ls b)
prune_entry-AllBounded Fate.goes id sp rest ls h b =
    h _ (notify-AllBounded (PeerEvent.remove id) ls b)

prune_from-AllBounded :
    (ttl grace now : ℕ) (m : Map SeenPeer) (ls : List Listener)
    → AllBounded ls
    → AllBounded (prune_from ttl grace now m ls).listeners
unfolding prune_from
prune_from-AllBounded ttl grace now [] ls b = b
prune_from-AllBounded ttl grace now ((id, sp) ∷ m) ls b =
    prune_entry-AllBounded (fate ttl grace now sp) id sp (prune_from ttl grace now m) ls
      (prune_from-AllBounded ttl grace now m) b

stored-AllBounded :
    (id : String) (sp : SeenPeer) (t : PeerTable)
    → AllBounded t.listeners
    → AllBounded (store_peer id sp t).listeners × AllBounded (store_and_notify id sp t).listeners
unfolding store_peer store_and_notify
stored-AllBounded id sp t b = (b, notify-AllBounded (PeerEvent.update id sp) t.listeners b)

-- A method that writes, with or without a notice, the entry that it finds.
module _ (t : PeerTable) (b : AllBounded t.listeners) (id : String) where
  writes : (sp : SeenPeer) → AllBounded (store_peer id sp t).listeners
  writes sp = (stored-AllBounded id sp t b).0

  tells : (sp : SeenPeer) → AllBounded (store_and_notify id sp t).listeners
  tells sp = (stored-AllBounded id sp t b).1

  by_test :
      (test : Bool) (yes_table no_table : PeerTable)
      → AllBounded yes_table.listeners
      → AllBounded no_table.listeners
      → AllBounded (if test then yes_table else no_table).listeners
  by_test true y n p q = p
  by_test false y n p q = q

  upsert-AllBounded : (p : Presence) (now : ℕ) → AllBounded (upsert t id p now).listeners
  unfolding upsert
  upsert-AllBounded p now = elim (Option-cases (lookup id t.peers)) [
    | inl e ↦ rw (e, upsert) (tells _)
    | inr (sp, e) ↦ rw (e, upsert) (tells _)
  ]

  seed-AllBounded : (p : Presence) (f : Bool) (now : ℕ) → AllBounded (seed t id p f now).listeners
  unfolding seed
  seed-AllBounded p f now = elim (Option-cases (lookup id t.peers)) [
    | inl e ↦ rw (e, seed) (tells _)
    | inr (sp, e) ↦ rw (e, seed) b
  ]

  set_public_key-AllBounded : (key : String) → AllBounded (set_public_key t id key).listeners
  unfolding set_public_key
  set_public_key-AllBounded key = elim (Option-cases (lookup id t.peers)) [
    | inl e ↦ rw (e, set_public_key) b
    | inr (sp, e) ↦ rw (e, set_public_key) (writes _)
  ]

  touch-AllBounded : (now : ℕ) → AllBounded (touch t id now).listeners
  unfolding touch
  touch-AllBounded now = elim (Option-cases (lookup id t.peers)) [
    | inl e ↦ rw (e, touch) b
    | inr (sp, e) ↦ rw (e, touch) (writes _)
  ]

  mark_offline-AllBounded : (now : ℕ) → AllBounded (mark_offline t id now).listeners
  unfolding mark_offline
  mark_offline-AllBounded now = elim (Option-cases (lookup id t.peers)) [
    | inl e ↦ rw (e, mark_offline) b
    | inr (sp, e) ↦
        rw (e, mark_offline) (by_test (is_zero sp.offline_since) _ _ (tells _) (writes _))
  ]

  set_reachable-AllBounded : (r : Bool) (now : ℕ) → AllBounded (set_reachable t id r now).listeners
  unfolding set_reachable
  set_reachable-AllBounded r now = elim (Option-cases (lookup id t.peers)) [
    | inl e ↦ rw (e, set_reachable) b
    | inr (sp, e) ↦
        rw (e, set_reachable)
          (by_test r _ _ (by_test sp.reachable _ _ (writes _) (tells _))
            (by_test _ _ _ (tells _) (writes _)))
  ]

  set_favorite-AllBounded : (f : Bool) → AllBounded (set_favorite t id f).listeners
  unfolding set_favorite
  set_favorite-AllBounded f = elim (Option-cases (lookup id t.peers)) [
    | inl e ↦ rw (e, set_favorite) b
    | inr (sp, e) ↦ rw (e, set_favorite) (tells _)
  ]

step-AllBounded :
    (t : PeerTable) (o : Op) → AllBounded t.listeners → AllBounded (step t o).listeners
unfolding step remove_peer prune_stale subscribe unsubscribe
step-AllBounded t (upserts id p now) b = upsert-AllBounded t b id p now
step-AllBounded t (seeds id p f now) b = seed-AllBounded t b id p f now
step-AllBounded t (sets_public_key id key) b = set_public_key-AllBounded t b id key
step-AllBounded t (touches id now) b = touch-AllBounded t b id now
step-AllBounded t (removes id) b = notify-AllBounded (PeerEvent.remove id) t.listeners b
step-AllBounded t (marks_offline id now) b = mark_offline-AllBounded t b id now
step-AllBounded t (sets_reachable id r now) b = set_reachable-AllBounded t b id r now
step-AllBounded t (sets_favorite id f) b = set_favorite-AllBounded t b id f
step-AllBounded t (prunes ttl grace now) b =
    prune_from-AllBounded ttl grace now t.peers t.listeners b
step-AllBounded t (subscribes id) b = append-AllBounded t.listeners id b
step-AllBounded t (unsubscribes id) b = without-AllBounded id t.listeners b

-- Whatever methods run, and though nobody reads, no listener's channel ever holds more events than its
-- capacity of 16.
pub run-AllBounded :
    (t : PeerTable) (os : List Op) → AllBounded t.listeners → AllBounded (run t os).listeners
unfolding run
run-AllBounded t [] b = b
run-AllBounded t (o ∷ os) b = run-AllBounded (step t o) os (step-AllBounded t o b)

-- Each listener gets the event at the end of its channel if there is room, and is as it was if not.
abbrev pub Told : PeerEvent → List Listener → List Listener → Type 0
Told e [] [] = Unit
Told e [] (_ ∷ _) = ⊥
Told e (_ ∷ _) [] = ⊥
Told e (l ∷ ls) (m ∷ ms) =
    (m.id ≡ l.id)
    × ((length l.buffered < channel_capacity) × (m.buffered ≡ l.buffered ++ e ∷ [])
        ⊎ (channel_capacity ≤ length l.buffered) × (m.buffered ≡ l.buffered))
    × Told e ls ms

notify-Told : (e : PeerEvent) (ls : List Listener) → Told e ls (notify_listeners e ls)
unfolding notify_listeners offer
notify-Told e [] = tt
notify-Told e (l ∷ ls) = (ground arith, ground arith, notify-Told e ls)

-- After Upsert the table holds, for the peer, what the presence said, online and seen now; of an entry
-- that was there it keeps the reachability, the failures counted, the favourite mark, and the key,
-- the encryption and the client version where the presence carries none. Every listener with room is
-- told exactly that entry.
pub upsert_lem :
    (t : PeerTable) (id : String) (p : Presence) (now : ℕ)
    → (sp : SeenPeer) × (lookup id (upsert t id p now).peers ≡ some sp)
      × Told (PeerEvent.update id sp) t.listeners (upsert t id p now).listeners
      × (sp.last_seen ≡ now)
      × (sp.offline_since ≡ 0)
      × (sp.content ≡ p.content)
      × ((lookup id t.peers ≡ none)
            × (sp.reachable ≡ false)
            × (sp.favorite ≡ false)
            × (sp.public_key ≡ p.public_key)
          ⊎ ((old : SeenPeer) × (lookup id t.peers ≡ some old)
              × (sp.reachable ≡ old.reachable)
              × (sp.favorite ≡ old.favorite)
              × (sp.fail_streak ≡ old.fail_streak)
              × (sp.last_fail_at ≡ old.last_fail_at)
              × (sp.public_key ≡ (if p.public_key == "" then old.public_key else p.public_key))))
unfolding upsert store_and_notify refreshed_peer fresh_peer
upsert_lem t id p now = elim (Option-cases (lookup id t.peers)) [
  | inl e ↦
      let sp = fresh_peer p now in
      rw (e, upsert)
        (
          sp,
          lookup-insert_self id sp t.peers,
          notify-Told (PeerEvent.update id sp) t.listeners,
          refl,
          refl,
          refl,
          inl (refl, refl, refl, refl),
        )
  | inr (old, e) ↦
      let sp = refreshed_peer old p now in
      rw (e, upsert)
        (
          sp,
          lookup-insert_self id sp t.peers,
          notify-Told (PeerEvent.update id sp) t.listeners,
          refl,
          refl,
          refl,
          inr (old, refl, refl, refl, refl, refl, refl),
        )
]
