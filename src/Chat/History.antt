-- ===== src/Chat/History.antt =====
-- internal/group_types/chat/history.go: the last 100 messages of a chat group. The fields `head`
-- (the place of the next write) and `size` differ from those of internal/util/ringbuf.go; the
-- relation Agrees translates one to the other.
use goop.Base.{
  ℕ, zero, suc, ◌+◌, ◌-◌, ◌%◌, ◌≤◌, ◌<◌, List, [], ◌∷◌, ◌≡◌, refl, arith, ap, sym, ◌∙◌, subst, eqb,
  ltb, ◌||◌, if◌then◌else◌, Bool-cases, inl, inr, Option, none, some, false, true,
}
use goop.Base.Int.{ℤ, pos, negsuc}
use goop.Base.Lists.{length, set, replicate, drop}
use goop.Util.Slots.{slots, length-slots, slots-mod}
use goop.Util.RingBuffer.{
  RingBuffer, new_ring_buffer, push, snapshot, push_all, keep_last, new_ring_buffer-IsValid,
  push-snapshot, snapshot-push_all,
}
use goop.Util.RingBuffer

abbrev pub max_history : ℕ
max_history = 100

-- How many of `m` messages Recent(n) returns.
unfoldable pub asked : ℤ → ℕ → ℕ
asked (pos n) m = if ltb m n then m else n
asked (negsuc n) m = 0

-- The zero value of a Message is a parameter.
module _ {ℓ} {Message : Type ℓ} (z : Message) where
  pub record History : Type ℓ where
    pub msgs : List Message
    pub head : ℕ
    pub size : ℕ

  unfoldable pub empty : History
  empty = record { msgs = replicate max_history z; head = 0; size = 0 }

  unfoldable pub add : History → Message → History
  add r m = record {
    msgs = set r.msgs r.head m;
    head = (r.head + 1) % max_history;
    size = if ltb r.size max_history then r.size + 1 else r.size;
  }

  unfoldable pub all : History → List Message
  all r =
      if eqb r.size 0
      then []
      else slots z r.msgs ((r.head + max_history - r.size) % max_history) r.size

  -- The loop of Recent, for a number of messages that the buffer has.
  unfoldable pub recent_from : History → ℕ → List Message
  recent_from r n = slots z r.msgs ((r.head + max_history - n) % max_history) n

  unfoldable pub recent : History → ℤ → List Message
  recent r (negsuc n) = []
  recent r (pos n) =
      if eqb n 0 || eqb r.size 0
      then []
      else if ltb r.size n
      then recent_from r r.size
      else recent_from r n

  pub record Agrees (h : History) (r : RingBuffer Message) : Type ℓ where
    pub valid : RingBuffer.IsValid z 100 r
    pub same_places : h.msgs ≡ r.buf
    pub same_size : h.size ≡ r.count
    pub next_place : h.head ≡ (r.head + r.count) % 100

  got : RingBuffer Message → Option (RingBuffer Message) → RingBuffer Message
  got r none = r
  got r (some s) = s

  -- Add is a push on the buffer that agrees.
  add-Agrees :
      (h : History) (r : RingBuffer Message) (m : Message)
      → Agrees h r
      → (r' : RingBuffer Message) × (push z r m ≡ some r') × Agrees (add h m) r'
  unfolding add
  add-Agrees h r m a =
      let (r', e, v, _) = push-snapshot z 100 r m a.valid in
      let n : length r.buf ≡ 100 = a.valid.sized in
      let starts : r.head < 100 = a.valid.starts in
      let fits : r.count ≤ 100 = a.valid.fits in
      let next : h.head ≡ (r.head + r.count) % 100 = a.next_place in
      let place : (r.head + r.count) % length r.buf ≡ h.head = rw n (sym next) in
      elim (Bool-cases (eqb r.count 100)) [
        | inl full ↦
            let r'' = record r {
              buf = set r.buf ((r.head + r.count) % length r.buf) m;
              head = (r.head + 1) % length r.buf;
            } in
            let c : r.count ≡ 100 = ground arith in
            let pushed : push z r m ≡ some r'' = unfold push in rw (n, c) refl in
            let same : r' ≡ r'' = unfold got in ap (got r) (sym e ∙ pushed) in
            (
              r'',
              pushed,
              record {
                valid = subst (RingBuffer.IsValid z 100) same v;
                same_places = rw (place, a.same_places) refl;
                same_size = rw (a.same_size, c) refl;
                next_place = rw (n, c) (omega (arith, next, c));
              },
            )
        | inr room ↦
            let r'' = record r {
              buf = set r.buf ((r.head + r.count) % length r.buf) m;
              count = r.count + 1;
            } in
            let less : ltb r.count 100 ≡ true = ground arith in
            let pushed : push z r m ≡ some r'' = unfold push in rw (n, room) refl in
            let same : r' ≡ r'' = unfold got in ap (got r) (sym e ∙ pushed) in
            (
              r'',
              pushed,
              record {
                valid = subst (RingBuffer.IsValid z 100) same v;
                same_places = rw (place, a.same_places) refl;
                same_size = rw (a.same_size, less) refl;
                next_place = omega (arith, next);
              },
            )
      ]

  unfoldable pub add_all : History → List Message → History
  add_all h [] = h
  add_all h (m ∷ ms) = add_all (add h m) ms

  empty-Agrees : Agrees empty (new_ring_buffer z 100)
  unfolding empty new_ring_buffer
  empty-Agrees =
      let (v, _) = new_ring_buffer-IsValid z 100 (omega arith) in
      record { valid = v; same_places = refl; same_size = refl; next_place = refl }

  add_all-Agrees :
      (ms : List Message) (h : History) (r : RingBuffer Message)
      → Agrees h r
      → (r' : RingBuffer Message) × (push_all z r ms ≡ some r') × Agrees (add_all h ms) r'
  unfolding add_all push_all
  add_all-Agrees [] h r a = (r, refl, a)
  add_all-Agrees (m ∷ ms) h r a =
      let (r', e, a') = add-Agrees h r m a in
      let (r'', e', a'') = add_all-Agrees ms (add h m) r' a' in (r'', rw (e, push_all) e', a'')

  slots-drop :
      (buf : List Message) (at k n : ℕ)
      → k ≤ n
      → slots z buf (at + k) (n - k) ≡ drop k (slots z buf at n)
  unfolding slots
  slots-drop buf at zero n h =
      let same : at + 0 ≡ at = omega arith in
      let less : n - 0 ≡ n = omega arith in rw (same, less) refl
  slots-drop buf at (suc k) zero h = elim h [ ]
  slots-drop buf at (suc k) (suc n) h =
      let same : at + suc k ≡ suc at + k = omega arith in
      let less : suc n - suc k ≡ n - k = omega arith in
      rw (same, less) (slots-drop buf (suc at) k n (omega arith))

  -- The loop of Recent reads the end of what the buffer that agrees has.
  recent_from-drop :
      (h : History) (r : RingBuffer Message) (n : ℕ)
      → Agrees h r
      → n ≤ r.count
      → recent_from h n ≡ drop (r.count - n) (snapshot z r)
  unfolding recent_from snapshot
  recent_from-drop h r n a l =
      let starts : r.head < 100 = a.valid.starts in
      let fits : r.count ≤ 100 = a.valid.fits in
      let same : (h.head + 100 - n) % 100 % length r.buf ≡ (r.head + (r.count - n)) % length r.buf =
        rw a.valid.sized (omega (arith, a.next_place)) in
      let all_left : r.count - (r.count - n) ≡ n = omega arith in
      rw a.same_places
        (slots-mod z r.buf ((h.head + 100 - n) % 100) (r.head + (r.count - n)) n same)
      ∙ ap (slots z r.buf (r.head + (r.count - n))) (sym all_left)
      ∙ slots-drop r.buf r.head (r.count - n) r.count (omega arith)

  all-snapshot : (h : History) (r : RingBuffer Message) → Agrees h r → all h ≡ snapshot z r
  unfolding all recent_from
  all-snapshot h r a = elim (Bool-cases (eqb r.count 0)) [
    | inl e ↦
        let c : r.count ≡ 0 = ground arith in
        let nothing : snapshot z r ≡ [] = unfold snapshot slots in ap (slots z r.buf r.head) c in
        rw (a.same_size, e) (sym nothing)
    | inr e ↦
        let none_cut : r.count - r.count ≡ 0 = omega arith in
        rw (a.same_size, e) (recent_from-drop h r r.count a (omega arith) ∙ rw none_cut)
  ]

  drop-length : (xs : List Message) → drop (length xs - 0) xs ≡ []
  drop-length [] = refl
  drop-length (x ∷ xs) =
      let same : suc (length xs) - 0 ≡ suc (length xs - 0) = omega arith in rw same (drop-length xs)

  drop-nil : (k : ℕ) → drop {A = Message} k [] ≡ []
  drop-nil zero = refl
  drop-nil (suc k) = refl

  length-all : (h : History) (r : RingBuffer Message) → Agrees h r → length (all h) ≡ r.count
  length-all h r a =
      ap length (all-snapshot h r a) ∙ unfold snapshot in length-slots z r.buf r.head r.count

  RecentEnd : History → ℕ → Type ℓ
  RecentEnd h k = recent_from h k ≡ drop (h.size - k) (all h)

  recent_from_lem :
      (h : History) (r : RingBuffer Message) (k : ℕ) → Agrees h r → k ≤ r.count → RecentEnd h k
  unfolding RecentEnd
  recent_from_lem h r k a l =
      recent_from-drop h r k a l
      ∙ ap (λ c. drop (c - k) (snapshot z r)) (sym a.same_size)
      ∙ ap (drop (h.size - k)) (sym (all-snapshot h r a))

  recent-drop :
      (h : History) (r : RingBuffer Message) (n : ℤ)
      → Agrees h r
      → recent h n ≡ drop (length (all h) - asked n (length (all h))) (all h)
  unfolding recent asked RecentEnd
  recent-drop h r (negsuc n) a = sym (drop-length (all h))
  recent-drop h r (pos n) a =
      let sizes : length (all h) ≡ h.size = length-all h r a ∙ sym a.same_size in
      elim (Bool-cases (eqb n 0)) [
        | inl e ↦
            let zero_n : n ≡ 0 = ground arith in
            let not_less : ltb (length (all h)) 0 ≡ false = ground arith in
            rw (zero_n, not_less) (sym (drop-length (all h)))
        | inr e ↦ elim (Bool-cases (eqb h.size 0)) [
          | inl f ↦
              let nothing : all h ≡ [] = unfold all in rw f refl in
              rw (e, f, nothing) (sym (drop-nil _))
          | inr f ↦ elim (Bool-cases (ltb h.size n)) [
            | inl l ↦
                rw (e, f, sizes, l) (recent_from_lem h r h.size a (omega (arith, a.same_size)))
            | inr l ↦
                let fits : n ≤ r.count = ground (arith, a.same_size) in
                rw (e, f, sizes, l) (recent_from_lem h r n a fits)
          ]
        ]
      ]

  -- A history that starts empty holds after any messages exactly the last 100 of them, oldest first, and
  -- Recent(n) returns the last n of those, all of them when there are fewer and none when n is not
  -- positive.
  pub recent-add_all :
      (ms : List Message) (n : ℤ)
      → let h = add_all empty ms in
        (all h ≡ keep_last z 100 ms)
        × (recent h n ≡ drop (length (all h) - asked n (length (all h))) (all h))
  unfolding got
  recent-add_all ms n =
      let (r, e, a) = add_all-Agrees ms empty (new_ring_buffer z 100) empty-Agrees in
      let (r', e', same, _) = snapshot-push_all z 100 ms (omega arith) in
      let one : r ≡ r' = ap (got r) (sym e ∙ e') in
      (all-snapshot _ r a ∙ ap (snapshot z) one ∙ same, recent-drop _ r n a)
