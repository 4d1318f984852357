-- ===== src/Cluster/Manager/Branches.antt =====
-- internal/group_types/cluster/{manager,messages}.go: what each call that starts, serves or ends a cluster
-- leaves.
use goop.Base.{
  ℕ, String, List, [], ◌∷◌, Option, none, some, Bool, true, false, ◌||◌, ◌&&◌, not, if◌then◌else◌,
  ◌==◌, Result, ok, err, ◌≡◌, refl, Bool-cases, Option-cases, Result-cases, inl, inr, ap, subst,
}
use goop.Base.Json.{Fields}
use goop.Base.Map.{lookup}
use goop.Cluster.Types.{is_on_worker}
use goop.Cluster.Queue.{Queue, QueueError}
use goop.Cluster.Dispatcher.{Dispatcher}
use goop.Cluster.Worker.{Worker, set_binary}
use goop.Cluster.Manager.{
  Manager, Role, Failure, is_host, is_none, is_worker, post, create_cluster, reannounce_if_any,
  join_cluster, cleanup, settle, recall, on_worker, choose_binary,
}
use goop.Cluster.Manager.Messages.{handle_cluster_message, receive}
use goop.Cluster.Manager.Soundness.{
  fits, is_coherent, goes_well, IsWell, IsHost, IsWorker, IsHost-of, IsWorker-of, IsWell-if,
  queue-IsWell, new_worker-IsWell, handle_host-IsWell, handle_worker-IsWell,
}

pub none_parts :
    (r : Role) (q : Option Queue) (d : Option Dispatcher) (w : Option Worker)
    → fits r q d w ≡ true
    → is_none r ≡ true
    → (q ≡ none) × (d ≡ none) × (w ≡ none)
unfolding fits is_none
none_parts Role.role_none none none none h e = (refl, refl, refl)
none_parts Role.role_none none none (some w) h e = cc
none_parts Role.role_none none (some d) w h e = cc
none_parts Role.role_none (some q) d w h e = cc
none_parts Role.role_host q d w h e = cc
none_parts Role.role_worker q d w h e = cc

pub host_only :
    (m : Manager) (x : Result Failure Manager)
    → is_coherent m ≡ true
    → (IsHost m → IsWell x)
    → IsWell (if not (is_host m.role) then err Failure.not_host else x)
unfolding goes_well
host_only m x h k = elim (Bool-cases (is_host m.role)) [
  | inl e ↦ rw e (k (IsHost-of m h e))
  | inr e ↦ rw e (record { well = refl })
]

pub same-IsWell : (m : Manager) → is_coherent m ≡ true → IsWell (ok m)
unfolding goes_well
same-IsWell m h = record { well = h }

pub cleanup-IsWell : (m : Manager) → IsWell (ok (cleanup m))
unfolding goes_well is_coherent cleanup fits
cleanup-IsWell m = record { well = refl }

pub create-IsWell : (m : Manager) (g : String) → is_coherent m ≡ true → IsWell (create_cluster m g)
unfolding create_cluster goes_well is_coherent fits
create-IsWell m g h =
    IsWell-if (is_host m.role && m.group_id == g) _ _ (record { well = h })
      (elim (Bool-cases (is_none m.role)) [
        | inl e ↦
            let (_, _, no_worker) = none_parts m.role m.queue m.dispatcher m.worker h e in
            rw (e, no_worker) (record { well = refl })
        | inr e ↦ rw e (record { well = refl })
      ])

pub rejoined-IsWell :
    (m : Manager) → IsWorker m → IsWell (ok (record m { worker = reannounce_if_any m.worker }))
unfolding goes_well is_coherent fits reannounce_if_any
rejoined-IsWell m p =
    rw (p.has_worker, p.as_worker, p.no_queue, p.no_dispatcher) (record { well = refl })

pub joined-IsWell :
    (m : Manager) (g : String) (v w : Worker)
    → m.queue ≡ none
    → m.dispatcher ≡ none
    → (b : Bool)
    → IsWell (
        ok (record m {
          role = Role.role_worker;
          group_id = g;
          worker = if b then some v else some w;
        }))
unfolding goes_well is_coherent fits
joined-IsWell m g v w q d true = rw (q, d) (record { well = refl })
joined-IsWell m g v w q d false = rw (q, d) (record { well = refl })

pub and_left : (a b : Bool) → (a && b) ≡ true → a ≡ true
and_left true b h = refl
and_left false b h = h

pub join-IsWell :
    (m : Manager) (g host : String) → is_coherent m ≡ true → IsWell (join_cluster m g host)
unfolding join_cluster
join-IsWell m g host h = elim (Bool-cases (is_worker m.role && m.group_id == g)) [
  | inl e ↦
      let p = IsWorker-of m h (and_left (is_worker m.role) (m.group_id == g) e) in
      rw e (rejoined-IsWell m p)
  | inr e ↦ elim (Bool-cases (is_none m.role)) [
    | inl f ↦
        let (no_queue, no_dispatcher, _) =
          none_parts m.role m.queue m.dispatcher m.worker (unfold is_coherent in h) f in
        rw (e, f) (joined-IsWell m g _ _ no_queue no_dispatcher (m.saved_binary_path == ""))
    | inr f ↦ rw (e, f) (record { well = unfold goes_well in refl })
  ]
]

pub handle_message-IsWell :
    (r : Role) (m : Manager) (from msg_type : String) (payload : Option Fields) (now : ℕ)
    → is_coherent m ≡ true
    → m.role ≡ r
    → IsWell (handle_cluster_message r m from msg_type payload now)
unfolding handle_cluster_message
handle_message-IsWell Role.role_none m from msg_type none now h e = same-IsWell m h
handle_message-IsWell Role.role_host m from msg_type none now h e = same-IsWell m h
handle_message-IsWell Role.role_worker m from msg_type none now h e = same-IsWell m h
handle_message-IsWell Role.role_none m from msg_type (some fields) now h e = same-IsWell m h
handle_message-IsWell Role.role_host m from msg_type (some fields) now h e =
    let host : is_host m.role ≡ true = unfold is_host in ap is_host e in
    handle_host-IsWell m from msg_type fields now (IsHost-of m h host)
handle_message-IsWell Role.role_worker m from msg_type (some fields) now h e =
    let worker : is_worker m.role ≡ true = unfold is_worker in ap is_worker e in
    handle_worker-IsWell m from msg_type fields now (IsWorker-of m h worker)

pub receive-IsWell :
    (m : Manager) (from : String) (parts : List String) (payload : Option Fields) (now : ℕ)
    → is_coherent m ≡ true
    → IsWell (receive m from parts payload now)
unfolding receive
receive-IsWell m from [] payload now h = same-IsWell m h
receive-IsWell m from (_ ∷ []) payload now h = same-IsWell m h
receive-IsWell m from (_ ∷ _ ∷ []) payload now h = same-IsWell m h
receive-IsWell m from (_ ∷ group_id ∷ msg_type ∷ _) payload now h =
    IsWell-if (m.group_id == "" || not (group_id == m.group_id)) _ _ (same-IsWell m h)
      (handle_message-IsWell m.role m from msg_type payload now h refl)

unfoldable pub is_panic : Result Failure Worker → Bool
is_panic (err (Failure.panic _)) = true
is_panic _ = false

pub err-IsWell : (x : Failure) → is_panic (err x) ≡ false → IsWell (err x)
unfolding is_panic goes_well
err-IsWell (Failure.panic f) h = cc
err-IsWell (Failure.already_in _ _) h = record { well = refl }
err-IsWell Failure.not_host h = record { well = refl }
err-IsWell Failure.not_worker h = record { well = refl }
err-IsWell (Failure.of_queue _) h = record { well = refl }
err-IsWell (Failure.of_binary _) h = record { well = refl }
err-IsWell (Failure.of_send _) h = record { well = refl }

pub on_worker-IsWell :
    (m : Manager) (f : Worker → Result Failure Worker)
    → is_coherent m ≡ true
    → ((w : Worker) → is_panic (f w) ≡ false)
    → IsWell (on_worker m f)
unfolding on_worker goes_well
on_worker-IsWell m f h k = elim (Option-cases m.worker) [
  | inl e ↦ rw e (record { well = refl })
  | inr (w, e) ↦ elim (Bool-cases (is_worker m.role)) [
    | inl g ↦ elim (Result-cases (f w)) [
      | inl (w', i) ↦ rw (e, g, i) (record { well = new_worker-IsWell m w' (IsWorker-of m h g) })
      | inr (x, i) ↦
          let calm : is_panic (err x) ≡ false = subst (λ r. is_panic r ≡ false) i (k w) in
          rw (e, g, i) (err-IsWell x calm)
    ]
    | inr g ↦ rw (e, g) (record { well = refl })
  ]
]

pub choose_binary_calm :
    (path mode : String) (w : Worker) → is_panic (choose_binary path mode w) ≡ false
unfolding is_panic choose_binary
choose_binary_calm path mode w = elim (Result-cases (set_binary w path mode)) [
  | inl (w', e) ↦ rw (e, choose_binary) refl
  | inr (x, e) ↦ rw (e, choose_binary) refl
]

pub recall-IsHost : (m : Manager) (q : Queue) (id : String) → IsHost m → IsHost (recall m q id)
unfolding recall post
recall-IsHost m q id p = elim (Option-cases (lookup id q.jobs)) [
  | inl e ↦ rw (e, recall) p
  | inr (js, e) ↦ elim (Bool-cases (not (js.worker_id == "") && is_on_worker js.status)) [
    | inl f ↦
        rw (e, recall, f)
          (record {
            queue = p.queue;
            dispatcher = p.dispatcher;
            as_host = p.as_host;
            has_queue = p.has_queue;
            has_dispatcher = p.has_dispatcher;
            no_worker = p.no_worker;
          })
    | inr f ↦ rw (e, recall, f) p
  ]
]

pub settle-IsWell : (m : Manager) (r : Result QueueError Queue) → IsHost m → IsWell (settle m r)
unfolding settle goes_well
settle-IsWell m (ok q) p = queue-IsWell m q p
settle-IsWell m (err e) p = record { well = refl }
