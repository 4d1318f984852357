-- ===== src/Mq/Channels.antt =====
-- internal/mq/manager.go: how full the channels are, and their numbers.
use goop.Base.{
  ℕ, suc, ◌≤◌, ◌<◌, List, [], ◌∷◌, ◌++◌, ltb, ◌≡◌, refl, arith, Bool-cases, inl, inr, ◌∙◌,
}
use goop.Base.Lists.{length}
use goop.Mq.{
  MqEvent, InboxEntry, Listener, listener_cap, offer, offer_each, replay, replay_to, without, only,
}
use goop.Mq.Steps.{left, rest_of}
use goop.Mq.Counts.{length-offer}

-- Every channel holds at most 256 events, and has a number below `n`.
unfoldable pub AllFit : ℕ → List Listener → Type 0
AllFit n [] = Unit
AllFit n (l ∷ ls) = (length l.waiting ≤ listener_cap) × (l.channel < n) × AllFit n ls

pub AllFit-suc : (n : ℕ) (ls : List Listener) → AllFit n ls → AllFit (suc n) ls
unfolding AllFit
AllFit-suc n [] h = tt
AllFit-suc n (l ∷ ls) (a, b, c) = (a, omega arith, AllFit-suc n ls c)

pub AllFit-append :
    (n : ℕ) (ls ks : List Listener) → AllFit n ls → AllFit n ks → AllFit n (ls ++ ks)
unfolding AllFit
AllFit-append n [] ks h k = k
AllFit-append n (l ∷ ls) ks (a, b, c) k = (a, b, AllFit-append n ls ks c k)

pub offer_fits :
    (e : MqEvent) (l : Listener)
    → length l.waiting ≤ listener_cap
    → length (offer e l).waiting ≤ listener_cap
offer_fits e l h = ground (arith, length-offer e l)

pub channel-offer : (e : MqEvent) (l : Listener) → (offer e l).channel ≡ l.channel
unfolding offer
channel-offer e l = elim (Bool-cases (ltb (length l.waiting) listener_cap)) [
  | inl room ↦ rw room refl
  | inr stuffed ↦ rw stuffed refl
]

pub AllFit-offer_each :
    (n : ℕ) (e : MqEvent) (ls : List Listener) → AllFit n ls → AllFit n (offer_each e ls)
unfolding AllFit offer_each
AllFit-offer_each n e [] h = tt
AllFit-offer_each n e (l ∷ ls) (a, b, c) =
    (offer_fits e l a, omega (arith, channel-offer e l), AllFit-offer_each n e ls c)

pub replay_fits :
    (es : List InboxEntry) (l : Listener)
    → length l.waiting ≤ listener_cap
    → (length (replay es l).waiting ≤ listener_cap) × ((replay es l).channel ≡ l.channel)
unfolding replay
replay_fits [] l h = (h, refl)
replay_fits (e ∷ es) l h =
    let event = MqEvent.message e.msg e.from in
    let (fits, same) = replay_fits es (offer event l) (offer_fits event l h) in
    (fits, same ∙ channel-offer event l)

pub AllFit-replay_to :
    (n ch : ℕ) (es : List InboxEntry) (ls : List Listener)
    → AllFit n ls
    → AllFit n (replay_to ch es ls)
unfolding AllFit replay_to
AllFit-replay_to n ch es [] h = tt
AllFit-replay_to n ch es (l ∷ ls) (a, b, c) =
    let (fits, same) = replay_fits es l a in
    ground (arith, fits, same, AllFit-replay_to n ch es ls c)

pub AllFit-without : (n ch : ℕ) (ls : List Listener) → AllFit n ls → AllFit n (without ch ls)
unfolding AllFit without
AllFit-without n ch [] h = tt
AllFit-without n ch (l ∷ ls) h = ground (arith, AllFit-without n ch ls h.2)

pub AllFit-only : (n ch : ℕ) (ls : List Listener) → AllFit n ls → AllFit n (only ch ls)
unfolding AllFit only
AllFit-only n ch [] h = tt
AllFit-only n ch (l ∷ ls) h = ground (arith, AllFit-only n ch ls h.2)

pub length-rest_of : (es : List MqEvent) → length (rest_of es) ≤ length es
unfolding rest_of
length-rest_of [] = omega arith
length-rest_of (e ∷ es) = omega arith

pub AllFit-left : (n ch : ℕ) (ls : List Listener) → AllFit n ls → AllFit n (left ch ls)
unfolding AllFit left
AllFit-left n ch [] h = tt
AllFit-left n ch (l ∷ ls) h = ground (arith, length-rest_of l.waiting, AllFit-left n ch ls h.2)
