-- ===== src/Lua/RateLimiter/History.antt =====
-- The limiter of internal/lua/ratelimit.go against one that forgets nothing.
use goop.Base.{
  ℕ, ◌-◌, ◌≤◌, Bool, true, false, String, List, [], ◌∷◌, ◌++◌, if◌then◌else◌, ltb, ◌==◌, ◌≡◌, refl,
  arith, Bool-cases, inl, inr, ap, sym, ◌∙◌,
}
use goop.Base.Int.{ℤ, pos, eqb_ℤ}
use goop.Lua.RateLimiter.{RateLimiter, prune_old, key_of, limit_of, is_full}

-- The times from `cutoff` on.
unfoldable pub since : ℕ → List ℕ → List ℕ
since cutoff [] = []
since cutoff (t ∷ ts) = let rest = since cutoff ts in if ltb t cutoff then rest else t ∷ rest

-- The admitted calls, oldest first: the keys and the times.
abbrev pub History : Type 0
History = List (String × ℕ)

unfoldable pub all_times : History → List ℕ
all_times [] = []
all_times ((_, t) ∷ h) = t ∷ all_times h

unfoldable pub times_at : String → History → List ℕ
times_at key [] = []
times_at key ((k, t) ∷ h) = let rest = times_at key h in if k == key then t ∷ rest else rest

-- A call is admitted if fewer calls than each limit were admitted since the cutoff.
unfoldable pub ideal : RateLimiter → History → String → String → ℤ → ℕ → History × Bool
ideal r h peer_id function func_limit now =
    let key = key_of peer_id function in
    let cutoff = now - r.window in
    if eqb_ℤ func_limit (pos 0)
    then (h, true)
    else if is_full (since cutoff (all_times h)) r.global_max
    then (h, false)
    else if is_full (since cutoff (times_at key h)) (limit_of r.peer_max func_limit)
    then (h, false)
    else (h ++ (key, now) ∷ [], true)

abbrev pub Sorted : List ℕ → Type 0
Sorted [] = Unit
Sorted (t ∷ []) = Unit
Sorted (t ∷ u ∷ ts) = (t ≤ u) × Sorted (u ∷ ts)

abbrev pub AllBelow : ℕ → List ℕ → Type 0
AllBelow now [] = Unit
AllBelow now (t ∷ ts) = (t ≤ now) × AllBelow now ts

since-above : (c : ℕ) (t : ℕ) (ts : List ℕ) → c ≤ t → Sorted (t ∷ ts) → since c (t ∷ ts) ≡ t ∷ ts
unfolding since
since-above c t [] h s = ground arith
since-above c t (u ∷ ts) h s = ground (arith, since-above c u ts (omega arith) s.1)

prune_old-since : (c : ℕ) (ts : List ℕ) → Sorted ts → prune_old ts c ≡ since c ts
unfolding prune_old since
prune_old-since c [] s = refl
prune_old-since c (t ∷ []) s = ground arith
prune_old-since c (t ∷ u ∷ ts) s =
    ground (arith, prune_old-since c (u ∷ ts) s.1, since-above c u ts)

since-since : (c d : ℕ) (ts : List ℕ) → c ≤ d → since d (since c ts) ≡ since d ts
unfolding since
since-since c d [] h = refl
since-since c d (t ∷ ts) h = ground (arith, since-since c d ts h)

since-append : (c : ℕ) (ts us : List ℕ) → since c (ts ++ us) ≡ since c ts ++ since c us
unfolding since
since-append c [] us = refl
since-append c (t ∷ ts) us = ground (arith, since-append c ts us)

since-Sorted : (c : ℕ) (ts : List ℕ) → Sorted ts → Sorted (since c ts)
unfolding since
since-Sorted c [] s = tt
since-Sorted c (t ∷ []) s = elim (Bool-cases (ltb t c)) [ inl e ↦ rw e tt | inr e ↦ rw e tt ]
since-Sorted c (t ∷ u ∷ ts) s = elim (Bool-cases (ltb t c)) [
  | inl e ↦ rw e (since-Sorted c (u ∷ ts) s.1)
  | inr e ↦
      let all : since c (t ∷ u ∷ ts) ≡ t ∷ u ∷ ts = since-above c t (u ∷ ts) (ground arith) s in
      rw all s
]

since-AllBelow : (c now : ℕ) (ts : List ℕ) → AllBelow now ts → AllBelow now (since c ts)
unfolding since
since-AllBelow c now [] b = tt
since-AllBelow c now (t ∷ ts) b = elim (Bool-cases (ltb t c)) [
  | inl e ↦ rw e (since-AllBelow c now ts b.1)
  | inr e ↦ rw e (b.0, since-AllBelow c now ts b.1)
]

Sorted-append : (now : ℕ) (ts : List ℕ) → Sorted ts → AllBelow now ts → Sorted (ts ++ now ∷ [])
Sorted-append now [] s b = tt
Sorted-append now (t ∷ []) s b = (b.0, tt)
Sorted-append now (t ∷ u ∷ ts) s b = (s.0, Sorted-append now (u ∷ ts) s.1 b.1)

AllBelow-append :
    (last now : ℕ) (ts : List ℕ) → last ≤ now → AllBelow last ts → AllBelow now (ts ++ now ∷ [])
AllBelow-append last now [] h b = (omega arith, tt)
AllBelow-append last now (t ∷ ts) h b = (omega arith, AllBelow-append last now ts h b.1)

AllBelow-mono : (last now : ℕ) (ts : List ℕ) → last ≤ now → AllBelow last ts → AllBelow now ts
AllBelow-mono last now [] h b = tt
AllBelow-mono last now (t ∷ ts) h b = (omega arith, AllBelow-mono last now ts h b.1)

-- The kept times `ts` are sorted, at most `now`, and from the cutoff on the same as all times `hs`.
pub record Keeps (now cutoff : ℕ) (ts hs : List ℕ) : Type 0 where
  pub sorted : Sorted ts
  pub below : AllBelow now ts
  pub same : (d : ℕ) → cutoff ≤ d → since d ts ≡ since d hs

module _ {last cutoff : ℕ} {ts hs : List ℕ} (k : Keeps last cutoff ts hs) where
  pub prune_old-eq : (d : ℕ) → cutoff ≤ d → prune_old ts d ≡ since d hs
  prune_old-eq d h = prune_old-since d ts k.sorted ∙ k.same d h

  pub prune_old-Keeps : (now d : ℕ) → last ≤ now → cutoff ≤ d → Keeps now d (prune_old ts d) hs
  prune_old-Keeps now d l h = rw (prune_old-since d ts k.sorted) (record {
    sorted = since-Sorted d ts k.sorted;
    below = since-AllBelow d now ts (AllBelow-mono last now ts l k.below);
    same = λ e g. since-since d e ts g ∙ k.same e (omega arith);
  })

  pub Keeps-mono : (now d : ℕ) → last ≤ now → cutoff ≤ d → Keeps now d ts hs
  Keeps-mono now d l h = record {
    sorted = k.sorted;
    below = AllBelow-mono last now ts l k.below;
    same = λ e g. k.same e (omega arith);
  }

  pub append-Keeps : (now : ℕ) → last ≤ now → Keeps now cutoff (ts ++ now ∷ []) (hs ++ now ∷ [])
  append-Keeps now l = record {
    sorted = Sorted-append now ts k.sorted (AllBelow-mono last now ts l k.below);
    below = AllBelow-append last now ts l k.below;
    same = λ d h.
        since-append d ts (now ∷ [])
        ∙ ap (λ x. x ++ since d (now ∷ [])) (k.same d h)
        ∙ sym (since-append d hs (now ∷ []));
  }

pub Keeps-nil : (now cutoff : ℕ) → Keeps now cutoff [] []
Keeps-nil now cutoff = record { sorted = tt; below = tt; same = λ d h. refl }

pub all_times-append :
    (key : String) (now : ℕ) (h : History)
    → all_times (h ++ (key, now) ∷ []) ≡ all_times h ++ now ∷ []
unfolding all_times
all_times-append key now [] = refl
all_times-append key now ((k, t) ∷ h) = ap (◌∷◌ t) (all_times-append key now h)

pub times_at-append :
    (j key : String) (now : ℕ) (h : History)
    → times_at j (h ++ (key, now) ∷ [])
      ≡ (if key == j then times_at j h ++ now ∷ [] else times_at j h)
unfolding times_at
times_at-append j key now [] = refl
times_at-append j key now ((k, t) ∷ h) = ground (arith, times_at-append j key now h)
