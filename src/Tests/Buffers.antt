-- ===== src/Tests/Buffers.antt =====
-- internal/util/ringbuf.go and internal/group_types/chat/history.go on concrete inputs.
use goop.Base.{ℕ, ◌≡◌, refl, List, [], ◌∷◌, none, some, arith}
use goop.Base.Lists.{length}
use goop.Util.RingBuffer.{
  RingBuffer, new_ring_buffer, push, push_all, snapshot, len, keep_last, snapshot-push_all,
}

five : List ℕ
five = 1 ∷ 2 ∷ 3 ∷ 4 ∷ 5 ∷ []

overwrites :
    push_all 0 (new_ring_buffer 0 3) five
    ≡ some (record { buf = 4 ∷ 5 ∷ 3 ∷ []; head = 2; count = 3 })
unfolding push_all push new_ring_buffer five
overwrites = refl

no_room : push {T = ℕ} 0 (new_ring_buffer 0 0) 7 ≡ none
unfolding push new_ring_buffer
no_room = refl

snapshot-push_all_example :
    (r : RingBuffer ℕ) × (push_all 0 (new_ring_buffer 0 3) five ≡ some r)
    × (snapshot 0 r ≡ keep_last 0 3 five)
    × (len 0 r ≡ length (keep_last 0 3 five))
snapshot-push_all_example = snapshot-push_all 0 3 five (omega arith)
