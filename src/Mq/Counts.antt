-- ===== src/Mq/Counts.antt =====
-- The messages that lie in the inbox and in the channels of internal/mq/manager.go, counted by a test.
use goop.Base.{
  ℕ, zero, suc, ◌+◌, ◌≤◌, Bool, true, false, ◌||◌, String, List, [], ◌∷◌, ◌++◌, some, if◌then◌else◌,
  ltb, eqb, ◌≡◌, arith, Bool-cases, inl, inr, ◌==◌,
}
use goop.Base.Lists.{length, get_elem?, length-append}
use goop.Base.Map.{Map, lookup, insert}
use goop.Mq.{
  MqMsg, MqEvent, InboxEntry, Listener, entries_of, all_buffered, listener_cap, offer, offer_each,
  any_dropped, replay, replay_to, without, only, ToReplay, replays_of, first_replay, later_replays,
}
use goop.Mq.Steps.{taken, left, first_of, rest_of, remove_at, has_space, is_read}

pub length-offer :
    (e : MqEvent) (l : Listener)
    → length (offer e l).waiting
      ≡ length l.waiting + (if ltb (length l.waiting) listener_cap then 1 else 0)
unfolding offer
length-offer e l = elim (Bool-cases (ltb (length l.waiting) listener_cap)) [
  | inl room ↦ rw room (length-append l.waiting (e ∷ []))
  | inr stuffed ↦ rw stuffed (omega arith)
]

-- A test on messages with their senders, such as "has this id".
module _ (test : MqMsg → String → Bool) where
  unfoldable pub hit : MqEvent → ℕ
  hit (MqEvent.message msg from) = if test msg from then 1 else 0
  hit (MqEvent.delivered id) = 0

  -- How many of the events, and of the entries, pass it.
  unfoldable pub hits : List MqEvent → ℕ
  hits [] = 0
  hits (e ∷ es) = hit e + hits es

  unfoldable pub boxed : List InboxEntry → ℕ
  boxed [] = 0
  boxed (e ∷ es) = hit (MqEvent.message e.msg e.from) + boxed es

  unfoldable pub waiting_hits : List Listener → ℕ
  waiting_hits [] = 0
  waiting_hits (l ∷ ls) = hits l.waiting + waiting_hits ls

  pub hits-append : (es fs : List MqEvent) → hits (es ++ fs) ≡ hits es + hits fs
  unfolding hits
  hits-append [] fs = omega arith
  hits-append (e ∷ es) fs = omega (arith, hits-append es fs)

  pub boxed-append : (es fs : List InboxEntry) → boxed (es ++ fs) ≡ boxed es + boxed fs
  unfolding boxed
  boxed-append [] fs = omega arith
  boxed-append (e ∷ es) fs = omega (arith, boxed-append es fs)

  pub waiting_hits-append :
      (ls ks : List Listener) → waiting_hits (ls ++ ks) ≡ waiting_hits ls + waiting_hits ks
  unfolding waiting_hits
  waiting_hits-append [] ks = omega arith
  waiting_hits-append (l ∷ ls) ks = omega (arith, waiting_hits-append ls ks)

  pub boxed-insert :
      (from : String) (es : List InboxEntry) (m : Map (List InboxEntry))
      → boxed (all_buffered (insert from es m)) + boxed (entries_of (lookup from m))
        ≡ boxed (all_buffered m) + boxed es
  unfolding boxed all_buffered insert lookup entries_of
  boxed-insert from es [] = omega (arith, boxed-append es [])
  boxed-insert from es ((at, fs) ∷ m) = elim (Bool-cases (at == from)) [
    | inl hit ↦
        rw hit (omega (arith, boxed-append es (all_buffered m), boxed-append fs (all_buffered m)))
    | inr miss ↦ rw miss (
        omega (
          arith,
          boxed-append fs (all_buffered (insert from es m)),
          boxed-append fs (all_buffered m),
          boxed-insert from es m,
        ))
  ]

  pub boxed-remove_at :
      (i : ℕ) (entry : InboxEntry) (es : List InboxEntry)
      → get_elem? es i ≡ some entry
      → boxed (remove_at i es) + hit (MqEvent.message entry.msg entry.from) ≡ boxed es
  unfolding boxed remove_at
  boxed-remove_at i entry [] e = cc
  boxed-remove_at zero entry (x ∷ es) e = grind arith
  boxed-remove_at (suc i) entry (x ∷ es) e = omega (arith, boxed-remove_at i entry es e)

  -- An offer adds the event where there is room, and takes nothing away.
  pub hits-offer :
      (e : MqEvent) (l : Listener)
      → hits (offer e l).waiting
        ≡ hits l.waiting + (if ltb (length l.waiting) listener_cap then hit e else 0)
  unfolding offer hits
  hits-offer e l = elim (Bool-cases (ltb (length l.waiting) listener_cap)) [
    | inl room ↦ rw room (omega (arith, hits-append l.waiting (e ∷ [])))
    | inr stuffed ↦ rw stuffed (omega arith)
  ]

  pub hits-offer_grows : (e : MqEvent) (l : Listener) → hits l.waiting ≤ hits (offer e l).waiting
  hits-offer_grows e l = omega (arith, hits-offer e l)

  pub one_hit : (e : MqEvent) → hits (e ∷ []) ≡ hit e
  unfolding hits
  one_hit e = omega arith

  pub hits-replay_grows :
      (es : List InboxEntry) (l : Listener) → hits l.waiting ≤ hits (replay es l).waiting
  unfolding replay
  hits-replay_grows [] l = omega arith
  hits-replay_grows (e ∷ es) l =
      let event = MqEvent.message e.msg e.from in
      omega (arith, hits-offer_grows event l, hits-replay_grows es (offer event l))

  pub waiting_hits-offer_each :
      (e : MqEvent) (ls : List Listener) → waiting_hits ls ≤ waiting_hits (offer_each e ls)
  unfolding offer_each waiting_hits
  waiting_hits-offer_each e [] = omega arith
  waiting_hits-offer_each e (l ∷ ls) = omega (arith, hits-offer e l, waiting_hits-offer_each e ls)

  pub waiting_hits-offered :
      (e : MqEvent) (ls : List Listener)
      → eqb (length ls) 0 || any_dropped ls ≡ false
      → waiting_hits ls + hit e ≤ waiting_hits (offer_each e ls)
  unfolding offer_each waiting_hits any_dropped
  waiting_hits-offered e [] none_dropped = cc
  waiting_hits-offered e (l ∷ ls) none_dropped =
      ground (arith, hits-offer e l, waiting_hits-offer_each e ls)

  -- A replay that fits adds all its entries.
  pub hits-replay :
      (es : List InboxEntry) (l : Listener)
      → length l.waiting + length es ≤ listener_cap
      → hits (replay es l).waiting ≡ hits l.waiting + boxed es
  unfolding replay boxed
  hits-replay [] l room = omega arith
  hits-replay (e ∷ es) l room =
      let event = MqEvent.message e.msg e.from in
      ground (arith, hits-offer event l, length-offer event l, hits-replay es (offer event l))

  pub waiting_hits-replay_to_grows :
      (ch : ℕ) (es : List InboxEntry) (ls : List Listener)
      → waiting_hits ls ≤ waiting_hits (replay_to ch es ls)
  unfolding replay_to waiting_hits
  waiting_hits-replay_to_grows ch es [] = omega arith
  waiting_hits-replay_to_grows ch es (l ∷ ls) =
      ground (arith, hits-replay_grows es l, waiting_hits-replay_to_grows ch es ls)

  pub waiting_hits-replay_to :
      (ch : ℕ) (es : List InboxEntry) (ls : List Listener)
      → has_space ch (length es) ls ≡ true
      → waiting_hits ls + boxed es ≤ waiting_hits (replay_to ch es ls)
  unfolding replay_to waiting_hits has_space
  waiting_hits-replay_to ch es [] room = cc
  waiting_hits-replay_to ch es (l ∷ ls) room = elim (Bool-cases (eqb l.channel ch)) [
    | inl hit ↦
        let fit : length l.waiting + length es ≤ listener_cap = ground arith in
        rw hit (omega (arith, hits-replay es l fit, waiting_hits-replay_to_grows ch es ls))
    | inr miss ↦
        let later : has_space ch (length es) ls ≡ true = ground arith in
        rw miss (omega (arith, waiting_hits-replay_to ch es ls later))
  ]

  pub waiting_hits-split :
      (ch : ℕ) (ls : List Listener)
      → waiting_hits (without ch ls) + waiting_hits (only ch ls) ≡ waiting_hits ls
  unfolding without only waiting_hits
  waiting_hits-split ch [] = omega arith
  waiting_hits-split ch (l ∷ ls) = ground (arith, waiting_hits-split ch ls)

  pub hits-first_rest : (es : List MqEvent) → hits (first_of es) + hits (rest_of es) ≡ hits es
  unfolding hits first_of rest_of
  hits-first_rest [] = omega arith
  hits-first_rest (e ∷ es) = omega arith

  pub waiting_hits-read :
      (ch : ℕ) (ls : List Listener)
      → waiting_hits (left ch ls) + hits (taken ch ls) ≡ waiting_hits ls
  unfolding left taken waiting_hits hits
  waiting_hits-read ch [] = omega arith
  waiting_hits-read ch (l ∷ ls) = ground (arith, hits-first_rest l.waiting, waiting_hits-read ch ls)

  unfoldable pub replay_hits : List ToReplay → ℕ
  replay_hits [] = 0
  replay_hits (r ∷ rs) = hit (MqEvent.message r.entry.msg r.entry.from) + replay_hits rs

  pub replay_hits-append :
      (rs ss : List ToReplay) → replay_hits (rs ++ ss) ≡ replay_hits rs + replay_hits ss
  unfolding replay_hits
  replay_hits-append [] ss = omega arith
  replay_hits-append (r ∷ rs) ss = omega (arith, replay_hits-append rs ss)

  pub replay_hits-replays_of :
      (ch : ℕ) (es : List InboxEntry) → replay_hits (replays_of ch es) ≡ boxed es
  unfolding replay_hits replays_of boxed
  replay_hits-replays_of ch [] = omega arith
  replay_hits-replays_of ch (e ∷ es) = omega (arith, replay_hits-replays_of ch es)

  pub replay_hits-first_later :
      (ch : ℕ) (rs : List ToReplay)
      → boxed (first_replay ch rs) + replay_hits (later_replays ch rs) ≡ replay_hits rs
  unfolding replay_hits first_replay later_replays boxed
  replay_hits-first_later ch [] = omega arith
  replay_hits-first_later ch (r ∷ rs) = ground (arith, replay_hits-first_later ch rs)

  no_hits : (es : List MqEvent) → eqb (length es) 0 ≡ true → hits es ≡ 0
  unfolding hits
  no_hits [] e = omega arith
  no_hits (e ∷ es) h = ground arith

  -- Nothing waits in a channel that was read.
  pub waiting_hits-without :
      (ch : ℕ) (ls : List Listener)
      → is_read ch ls ≡ true
      → waiting_hits (without ch ls) ≡ waiting_hits ls
  unfolding without waiting_hits is_read hits
  waiting_hits-without ch [] e = omega arith
  waiting_hits-without ch (l ∷ ls) e = ground (arith, waiting_hits-without ch ls, no_hits l.waiting)
