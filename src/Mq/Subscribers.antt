-- ===== src/Mq/Subscribers.antt =====
-- internal/mq/manager.go, SubscribeTopic: the callbacks by the prefix of their topics. The function that
-- it returns takes away what then stands at the place where the subscription stood, and moves the last
-- one there.
use goop.Base.{
  ℕ, zero, suc, ◌-◌, ◌≤◌, ◌<◌, true, false, List, [], ◌∷◌, ◌++◌, none, some, if◌then◌else◌, ltb,
  ◌≡◌, refl, arith, ap, ◌∙◌,
}
use goop.Base.Lists.{length, get_elem?, set, length-append}
use goop.Mq.{Manager, TopicSub}

-- The list without its last element.
unfoldable pub init : List TopicSub → List TopicSub
init [] = []
init (x ∷ []) = []
init (x ∷ y ∷ ys) = x ∷ init (y ∷ ys)

-- The place is what the returned function remembers.
unfoldable pub subscribe_topic : TopicSub → Manager → Manager × ℕ
subscribe_topic sub m = (record m { topic_subs = m.topic_subs ++ sub ∷ [] }, length m.topic_subs)

-- The assignment of the last element, and the slice without it.
unfoldable pub swap_remove : ℕ → List TopicSub → List TopicSub
swap_remove idx subs =
    if ltb idx (length subs)
    then elim (get_elem? subs (length subs - 1)) [
      | none ↦ subs
      | some last ↦ init (set subs idx last)
    ]
    else subs

unfoldable pub unsubscribe : ℕ → Manager → Manager
unsubscribe idx m = record m { topic_subs = swap_remove idx m.topic_subs }

get_elem?-last :
    (subs : List TopicSub) (s : TopicSub) → get_elem? (subs ++ s ∷ []) (length subs) ≡ some s
get_elem?-last [] s = refl
get_elem?-last (x ∷ subs) s = get_elem?-last subs s

init-append : (subs : List TopicSub) (s : TopicSub) → init (subs ++ s ∷ []) ≡ subs
unfolding init
init-append [] s = refl
init-append (x ∷ []) s = refl
init-append (x ∷ y ∷ subs) s = ap (◌∷◌ x) (init-append (y ∷ subs) s)

set-append :
    (subs : List TopicSub) (i : ℕ) (s v : TopicSub)
    → i < length subs
    → set (subs ++ s ∷ []) i v ≡ set subs i v ++ s ∷ []
set-append [] i s v h = absurd (omega arith)
set-append (x ∷ subs) zero s v h = refl
set-append (x ∷ subs) (suc i) s v h = ap (◌∷◌ x) (set-append subs i s v (omega arith))

set-last :
    (subs : List TopicSub) (s v : TopicSub) → set (subs ++ s ∷ []) (length subs) v ≡ subs ++ v ∷ []
set-last [] s v = refl
set-last (x ∷ subs) s v = ap (◌∷◌ x) (set-last subs s v)

swap_remove-append :
    (subs : List TopicSub) (i : ℕ) (s : TopicSub)
    → i ≤ length subs
    → swap_remove i (subs ++ s ∷ []) ≡ init (set (subs ++ s ∷ []) i s)
unfolding swap_remove
swap_remove-append subs i s h =
    let longer : length (subs ++ s ∷ []) ≡ suc (length subs) =
      omega (arith, length-append subs (s ∷ [])) in
    let inside : ltb i (length (subs ++ s ∷ [])) ≡ true = ground (arith, longer) in
    let last : get_elem? (subs ++ s ∷ []) (length (subs ++ s ∷ []) - 1) ≡ some s =
      ap (get_elem? (subs ++ s ∷ [])) (omega (arith, longer)) ∙ get_elem?-last subs s in
    rw (inside, last, swap_remove) refl

-- On a list that ends with `s`, the place of `s` goes, or that of another one, which `s` takes.
swap_remove_last :
    (subs : List TopicSub) (s : TopicSub) → swap_remove (length subs) (subs ++ s ∷ []) ≡ subs
swap_remove_last subs s =
    swap_remove-append subs (length subs) s (omega arith)
    ∙ ap init (set-last subs s s)
    ∙ init-append subs s

swap_remove_inner :
    (subs : List TopicSub) (i : ℕ) (s : TopicSub)
    → i < length subs
    → swap_remove i (subs ++ s ∷ []) ≡ set subs i s
swap_remove_inner subs i s h =
    swap_remove-append subs i s (omega arith)
    ∙ ap init (set-append subs i s s h)
    ∙ init-append (set subs i s) s

swap_remove_beyond : (subs : List TopicSub) (i : ℕ) → length subs ≤ i → swap_remove i subs ≡ subs
unfolding swap_remove
swap_remove_beyond subs i h = let out : ltb i (length subs) ≡ false = ground arith in rw out refl

-- Two subscriptions `a` and `b`, one after the other, whose functions are then called. The last one
-- first, and both are gone and the others are as before. The first one first, and `b` stays. The
-- first one twice, and `b` is gone with `a`.
pub unsubscribe_two :
    (m : Manager) (a b : TopicSub)
    → (let (m₁, i) = subscribe_topic a m in
        let (m₂, j) = subscribe_topic b m₁ in
        (unsubscribe i (unsubscribe j m₂) ≡ m)
        × ((unsubscribe j (unsubscribe i m₂)).topic_subs ≡ m.topic_subs ++ b ∷ [])
        × (unsubscribe i (unsubscribe i m₂) ≡ m))
unfolding unsubscribe subscribe_topic
unsubscribe_two m a b =
    let subs = m.topic_subs in
    let i = length subs in
    let j = length (subs ++ a ∷ []) in
    let longer : j ≡ suc i = omega (arith, length-append subs (a ∷ [])) in
    let taken_over : swap_remove i ((subs ++ a ∷ []) ++ b ∷ []) ≡ subs ++ b ∷ [] =
      swap_remove_inner (subs ++ a ∷ []) i b (omega (arith, longer)) ∙ set-last subs a b in
    (
      ap (λ xs. record m { topic_subs = xs })
          (ap (swap_remove i) (swap_remove_last (subs ++ a ∷ []) b) ∙ swap_remove_last subs a),
      ap (swap_remove j) taken_over
          ∙ swap_remove_beyond (subs ++ b ∷ []) j
              (omega (arith, longer, length-append subs (b ∷ []))),
      ap (λ xs. record m { topic_subs = xs })
          (ap (swap_remove i) taken_over ∙ swap_remove_last subs b),
    )
