-- ===== src/Util/RingBuffer.antt =====
-- internal/util/ringbuf.go. The element type's zero value is a parameter.
use mathlib.Core.List.{append-nil, append_assoc}
use native.Mathlib.Nat.{mod-lt, mod-mod}
use goop.Base.{
  ℕ, suc, ◌+◌, ◌-◌, ◌%◌, ◌≤◌, ◌<◌, List, [], ◌∷◌, ◌++◌, ◌≡◌, refl, arith, ap, sym, ◌∙◌, eqb,
  if◌then◌else◌, Bool-cases, inl, inr, Option, none, some, false,
}
use goop.Base.Lists.{
  length, set, replicate, length-replicate, length-set, get_or-set_self, drop, length-append,
  length-drop, drop-append, drop-drop,
}
use goop.Util.Slots.{slots, length-slots, slots-suc, slots-mod, slots-set_ne, mod_ne}

pub record RingBuffer {ℓ} (T : Type ℓ) : Type ℓ where
  pub buf : List T
  pub head : ℕ
  pub count : ℕ

module _ {ℓ} {T : Type ℓ} (z : T) where
  unfoldable pub new_ring_buffer : ℕ → RingBuffer T
  new_ring_buffer capacity = record { buf = replicate capacity z; head = 0; count = 0 }

  -- `none` is the panic of a division by the capacity 0.
  unfoldable pub push : RingBuffer T → T → Option (RingBuffer T)
  push r item =
      let n = length r.buf in
      let buf = set r.buf ((r.head + r.count) % n) item in
      if eqb n 0
      then none
      else if eqb r.count n
      then some (record r { buf = buf; head = (r.head + 1) % n })
      else some (record r { buf = buf; count = r.count + 1 })

  -- `r.buf[(r.head+i)%len(r.buf)]` for `i` below `count`
  unfoldable pub snapshot : RingBuffer T → List T
  snapshot r = slots z r.buf r.head r.count

  unfoldable pub len : RingBuffer T → ℕ
  len r = r.count

  pub record IsValid (capacity : ℕ) (r : RingBuffer T) : Type ℓ where
    pub sized : length r.buf ≡ capacity
    pub starts : r.head < capacity
    pub fits : r.count ≤ capacity

  -- What the buffer of a given capacity keeps of the elements pushed.
  abbrev pub keep_last : ℕ → List T → List T
  keep_last capacity xs = drop (length xs - capacity) xs

  pub new_ring_buffer-IsValid :
      (capacity : ℕ)
      → 0 < capacity
      → IsValid capacity (new_ring_buffer capacity) × (snapshot (new_ring_buffer capacity) ≡ [])
  unfolding new_ring_buffer snapshot slots
  new_ring_buffer-IsValid capacity h =
      (record { sized = length-replicate capacity z; starts = h; fits = omega arith }, refl)

  module _ (size : ℕ) (r : RingBuffer T) (v : IsValid size r) (item : T) where
    place : ℕ
    place = (r.head + r.count) % length r.buf

    buf' : List T
    buf' = set r.buf place item

    place_lt : place < length r.buf
    unfolding place
    place_lt = mod-lt (r.head + r.count) (rw v.sized (omega arith))

    length-buf' : length buf' ≡ length r.buf
    unfolding buf'
    length-buf' = length-set r.buf place item

    -- A walk that does not come round to the place that is written sees no change.
    slots-kept :
        (at n : ℕ)
        → r.head + r.count < at + size
        → at + n ≤ r.head + r.count
        → slots z buf' at n ≡ slots z r.buf at n
    unfolding buf' place
    slots-kept at n h l = slots-set_ne z r.buf place item at n (λ i small.
        mod_ne (length r.buf) (at + i) (r.head + r.count) (omega arith) (rw v.sized (omega arith)))

    -- The walk that ends at the place reads the item last.
    slots-item :
        (at n : ℕ)
        → r.head + r.count < at + size
        → at + n ≡ r.head + r.count
        → slots z buf' at (suc n) ≡ slots z r.buf at n ++ item ∷ []
    slots-item at n h e =
        slots-suc z buf' at n
        ∙ rw (slots-kept at n h (omega arith), length-buf', e)
            (ap (λ x. slots z r.buf at n ++ x ∷ [])
              (unfold buf' place in get_or-set_self r.buf place item z place_lt))

    grown : RingBuffer T
    grown = record r { buf = buf'; count = r.count + 1 }

    turned : RingBuffer T
    turned = record r { buf = buf'; head = (r.head + 1) % length r.buf }

    snapshot-grown : r.count < size → snapshot grown ≡ keep_last size (snapshot r ++ item ∷ [])
    unfolding snapshot grown
    snapshot-grown h =
        let one : r.count + 1 ≡ suc r.count = omega arith in
        let short : length (slots z r.buf r.head r.count ++ item ∷ []) - size ≡ 0 = omega (
          arith,
          length-append (slots z r.buf r.head r.count) (item ∷ []),
          length-slots z r.buf r.head r.count,
        ) in
        rw (short, one) (slots-item r.head r.count (omega arith) refl)

    snapshot-turned :
        (c : ℕ)
        → r.count ≡ suc c
        → size ≡ suc c
        → snapshot turned ≡ keep_last size (snapshot r ++ item ∷ [])
    unfolding snapshot turned slots
    snapshot-turned c e f =
        let long : length (slots z r.buf r.head r.count ++ item ∷ []) - size ≡ 1 = omega (
          arith,
          length-append (slots z r.buf r.head r.count) (item ∷ []),
          length-slots z r.buf r.head r.count,
        ) in
        let same : (r.head + 1) % length r.buf % length buf' ≡ suc r.head % length buf' =
          rw length-buf'
            (mod-mod (r.head + 1) (length r.buf) ∙ ap (λ x. x % length r.buf) (omega arith)) in
        rw (long, e)
          (slots-mod z buf' ((r.head + 1) % length r.buf) (suc r.head) (suc c) same
            ∙ slots-item (suc r.head) c (omega arith) (omega arith))

    turned-IsValid : IsValid size turned
    unfolding turned
    turned-IsValid = record {
      sized = length-buf' ∙ v.sized;
      starts = rw v.sized (mod-lt (r.head + 1) (omega (arith, v.starts)));
      fits = v.fits;
    }

    grown-IsValid : r.count < size → IsValid size grown
    unfolding grown
    grown-IsValid h = record {
      sized = length-buf' ∙ v.sized;
      starts = v.starts;
      fits = omega arith;
    }

  -- Push on a valid buffer does not panic, keeps it valid, and leaves the last `size` of the elements
  -- that it held and the new one.
  pub push-snapshot :
      (size : ℕ) (r : RingBuffer T) (item : T)
      → IsValid size r
      → (r' : RingBuffer T) × (push r item ≡ some r')
        × IsValid size r'
        × (snapshot r' ≡ keep_last size (snapshot r ++ item ∷ []))
  unfolding push
  push-snapshot size r item v =
      let some_room : eqb (length r.buf) 0 ≡ false = ground (arith, v.sized, v.starts) in
      elim (Bool-cases (eqb r.count (length r.buf))) [
        | inl full ↦
            let all : r.count ≡ size = ground (arith, v.sized) in
            let n : size ≡ suc (size - 1) = omega (arith, v.starts) in
            (
              turned size r v item,
              rw (some_room, full) (unfold turned buf' place in refl),
              turned-IsValid size r v item,
              snapshot-turned size r v item (size - 1) (all ∙ n) n,
            )
        | inr room ↦
            let free : r.count < size = ground (arith, v.sized, v.fits) in
            (
              grown size r v item,
              rw (some_room, room) (unfold grown buf' place in refl),
              grown-IsValid size r v item free,
              snapshot-grown size r v item free,
            )
      ]

  unfoldable pub push_all : RingBuffer T → List T → Option (RingBuffer T)
  push_all r [] = some r
  push_all r (x ∷ xs) = elim (push r x) [ none ↦ none | some r' ↦ push_all r' xs ]

  keep_last-append :
      (size : ℕ) (xs ys : List T)
      → keep_last size (keep_last size xs ++ ys) ≡ keep_last size (xs ++ ys)
  keep_last-append size xs ys =
      let n = length xs - size in
      let together : drop n xs ++ ys ≡ drop n (xs ++ ys) =
        sym (drop-append n xs ys (omega arith)) in
      let cut : n + (length (drop n xs ++ ys) - size) ≡ length (xs ++ ys) - size =
        omega (arith, length-append (drop n xs) ys, length-append xs ys, length-drop n xs) in
      ap (drop (length (drop n xs ++ ys) - size)) together
      ∙ drop-drop (length (drop n xs ++ ys) - size) n (xs ++ ys)
      ∙ ap (λ k. drop k (xs ++ ys)) cut

  length-snapshot : (r : RingBuffer T) → length (snapshot r) ≡ r.count
  unfolding snapshot
  length-snapshot r = length-slots z r.buf r.head r.count

  keep_last-short : (size : ℕ) (xs : List T) → length xs ≤ size → keep_last size xs ≡ xs
  keep_last-short size xs h = let none_cut : length xs - size ≡ 0 = omega arith in rw none_cut

  push_all-keep_last :
      (size : ℕ) (xs : List T) (r : RingBuffer T)
      → IsValid size r
      → (r' : RingBuffer T) × (push_all r xs ≡ some r')
        × IsValid size r'
        × (snapshot r' ≡ keep_last size (snapshot r ++ xs))
  unfolding push_all
  push_all-keep_last size [] r v =
      let short : length (snapshot r) ≤ size = omega (arith, length-snapshot r, v.fits) in
      (r, refl, v, rw (append-nil (snapshot r)) (sym (keep_last-short size (snapshot r) short)))
  push_all-keep_last size (x ∷ xs) r v =
      let (r', e, v', s) = push-snapshot size r x v in
      let (r'', e', v'', s') = push_all-keep_last size xs r' v' in
      (
        r'',
        rw (e, push_all) e',
        v'',
        s'
            ∙ ap (λ l. keep_last size (l ++ xs)) s
            ∙ keep_last-append size (snapshot r ++ x ∷ []) xs
            ∙ ap (keep_last size) (append_assoc (snapshot r) (x ∷ []) xs),
      )

  -- A new buffer of a positive capacity holds, after any pushes, exactly the last of the elements
  -- pushed, as many as its capacity, oldest first; no push panics, and Len is their number.
  pub snapshot-push_all :
      (capacity : ℕ) (xs : List T)
      → 0 < capacity
      → (r : RingBuffer T) × (push_all (new_ring_buffer capacity) xs ≡ some r)
        × (snapshot r ≡ keep_last capacity xs)
        × (len r ≡ length (keep_last capacity xs))
  unfolding len
  snapshot-push_all capacity xs h =
      let (v, empty) = new_ring_buffer-IsValid capacity h in
      let (r, e, _, s) = push_all-keep_last capacity xs (new_ring_buffer capacity) v in
      let same : snapshot r ≡ keep_last capacity xs =
        s ∙ ap (λ l. keep_last capacity (l ++ xs)) empty in
      (r, e, same, sym (length-snapshot r) ∙ ap length same)
