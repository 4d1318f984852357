-- ===== src/Mq/Replay.antt =====
-- internal/mq/manager.go: what Subscribe replays.
use goop.Base.{
  ℕ, zero, suc, ◌+◌, ◌≤◌, ◌<◌, true, false, List, [], ◌∷◌, ◌++◌, if◌then◌else◌, ltb, eqb, ◌≡◌, refl,
  arith, ap, ap₂, sym, ◌∙◌, map,
}
use mathlib.Core.List.{append-nil, append_assoc}
use goop.Base.Lists.{length, take, length-append}
use goop.Mq.{
  Manager, MqEvent, InboxEntry, Listener, register, drain, all_buffered, listener_cap, offer,
  replay, replay_to, subscribe,
}
use goop.Mq.Channels.{AllFit}
use goop.Mq.Inbox.{IsBounded}

abbrev pub to_event : InboxEntry → MqEvent
to_event e = MqEvent.message e.msg e.from

offer_free :
    (e : MqEvent) (l : Listener)
    → length l.waiting < listener_cap
    → offer e l ≡ record l { waiting = l.waiting ++ e ∷ [] }
unfolding offer
offer_free e l h =
    let free : ltb (length l.waiting) listener_cap ≡ true = ground arith in rw free refl

offer_full : (e : MqEvent) (l : Listener) → listener_cap ≤ length l.waiting → offer e l ≡ l
unfolding offer
offer_full e l h =
    let full : ltb (length l.waiting) listener_cap ≡ false = ground arith in rw full refl

-- Where there is room for `k` more, a replay adds the first `k` entries.
replay-waiting :
    (es : List InboxEntry) (k : ℕ) (l : Listener)
    → length l.waiting + k ≡ listener_cap
    → replay es l ≡ record l { waiting = l.waiting ++ map to_event (take k es) }
unfolding replay
replay-waiting [] zero l h = ap (λ es. record l { waiting = es }) (sym (append-nil l.waiting))
replay-waiting [] (suc k) l h = ap (λ es. record l { waiting = es }) (sym (append-nil l.waiting))
replay-waiting (e ∷ es) zero l h =
    ap (replay es) (offer_full (to_event e) l (omega arith)) ∙ replay-waiting es zero l h
replay-waiting (e ∷ es) (suc k) l h =
    let next = record l { waiting = l.waiting ++ to_event e ∷ [] } in
    let room : length next.waiting + k ≡ listener_cap =
      omega (arith, length-append l.waiting (to_event e ∷ [])) in
    ap (replay es) (offer_free (to_event e) l (omega arith))
    ∙ replay-waiting es k next room
    ∙ ap (λ ws. record l { waiting = ws })
        (append_assoc l.waiting (to_event e ∷ []) (map to_event (take k es)))

-- The others keep what they have.
replay_to_others :
    (ch : ℕ) (es : List InboxEntry) (ls : List Listener) → AllFit ch ls → replay_to ch es ls ≡ ls
unfolding replay_to AllFit
replay_to_others ch es [] h = refl
replay_to_others ch es (l ∷ ls) h =
    let other : eqb l.channel ch ≡ false = ground arith in
    rw other (ap (◌∷◌ l) (replay_to_others ch es ls h.2))

replay_to-append :
    (ch : ℕ) (es : List InboxEntry) (ls ks : List Listener)
    → replay_to ch es (ls ++ ks) ≡ replay_to ch es ls ++ replay_to ch es ks
unfolding replay_to
replay_to-append ch es [] ks = refl
replay_to-append ch es (l ∷ ls) ks =
    ap (◌∷◌ (if eqb l.channel ch then replay es l else l)) (replay_to-append ch es ls ks)

-- Subscribe adds one channel and changes no other. The new channel holds the first 256 messages of all
-- inboxes, each peer's in the order of their arrival, and the inboxes are empty: what a replay has
-- beyond 256 messages is gone.
pub subscribe_replays :
    (m : Manager)
    → IsBounded m
    → ((subscribe m).inbox ≡ [])
      × ((subscribe m).listeners
          ≡ m.listeners
            ++ record {
              channel = m.opened;
              waiting = map to_event (take listener_cap (all_buffered m.inbox));
            }
              ∷ [])
unfolding subscribe drain register replay_to
subscribe_replays m b =
    let es = all_buffered m.inbox in
    let fresh : Listener = record { channel = m.opened; waiting = [] } in
    let same : eqb m.opened m.opened ≡ true = ground arith in
    let full : replay_to m.opened es (fresh ∷ [])
        ≡ record fresh { waiting = map to_event (take listener_cap es) } ∷ [] =
      rw (same, replay_to) (ap (λ l. l ∷ []) (replay-waiting es 256 fresh (omega arith))) in
    (
      refl,
      replay_to-append m.opened es m.listeners (fresh ∷ [])
          ∙ ap₂ (λ xs ys. xs ++ ys) (replay_to_others m.opened es m.listeners b.open_channels) full,
    )
