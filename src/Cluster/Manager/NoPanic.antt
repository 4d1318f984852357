-- ===== src/Cluster/Manager/NoPanic.antt =====
-- internal/group_types/cluster/{manager,messages,handler}.go: the calls of a manager in any order.
use goop.Base.{
  ℕ, Option, none, some, ◌⊎◌, inl, inr, ap, sym, subst, ◌∙◌, ◌++◌, Option-cases, String, List, [],
  ◌∷◌, true, false, Result, ok, err, ◌≡◌, ◌≢◌, refl,
}
use goop.Base.Int.{ℤ, pos, negsuc}
use goop.Cluster.Store.{JobStore}
use goop.Cluster.Queue.{cancel, delete}
use goop.Cluster.Dispatcher.{Dispatcher}
use goop.Cluster.Manager.Ticks.{Counts, dispatch_round-IsWell}
use goop.Cluster.Manager.{
  Manager, Failure, new_manager, leave_cluster, close_manager, cancel_job, delete_job,
  set_manager_binary, pause_worker, resume_worker, set_db, set_saved_binary,
}
use goop.Cluster.Manager.Events.{on_event}
use goop.Cluster.Manager.Soundness.{fits, is_coherent, goes_well, IsWell, with_queue-IsWell}
use goop.Cluster.Manager.Calls.{Call, call, proceed, calls, set_up}
use goop.Cluster.Manager.Branches.{
  host_only, cleanup-IsWell, create-IsWell, join-IsWell, receive-IsWell, on_worker-IsWell,
  choose_binary_calm, recall-IsHost, settle-IsWell, is_panic,
}
use goop.Cluster.Manager.HostCalls.{
  steer-IsWell, event-IsWell, follow_coherent, submit-IsWell, clear-IsWell, works-IsWell,
}

-- The counter of the dispatcher has wrapped.
abbrev pub HasWrapped : Manager → Type 0
HasWrapped m = (d : Dispatcher) × (n : ℕ) × (m.dispatcher ≡ some d) × (d.robin ≡ negsuc n)

sign : (r : ℤ) → ((n : ℕ) × (r ≡ negsuc n)) ⊎ ((n : ℕ) × (r ≡ pos n))
sign (pos n) = inr (n, refl)
sign (negsuc n) = inl (n, refl)

counter : (m : Manager) → HasWrapped m ⊎ Counts m.dispatcher
counter m = elim (Option-cases m.dispatcher) [
  | inl e ↦ inr (subst Counts (sym e) tt)
  | inr (d, e) ↦ elim (sign d.robin) [
    | inl (n, r) ↦ inl (d, n, e, r)
    | inr at ↦ inr (subst Counts (sym e) at)
  ]
]

save-IsWell :
    (m : Manager) (path mode : String)
    → is_coherent m ≡ true
    → IsWell (ok (set_saved_binary m path mode))
unfolding set_saved_binary goes_well is_coherent
save-IsWell m path mode h = record { well = h }

call-IsWell :
    (m : Manager) (c : Call) → is_coherent m ≡ true → Counts m.dispatcher → IsWell (call m c)
unfolding call
call-IsWell m (Call.creates g) h at = create-IsWell m g h
call-IsWell m (Call.joins g host) h at = join-IsWell m g host h
call-IsWell m Call.leaves h at = unfold leave_cluster in cleanup-IsWell m
call-IsWell m Call.closes h at = unfold close_manager in cleanup-IsWell _
call-IsWell m (Call.submits job generated now) h at = submit-IsWell m job generated now h
call-IsWell m (Call.cancels id now) h at =
    unfold cancel_job in
    host_only m _ h (λ p.
      with_queue-IsWell m _ p (λ q. settle-IsWell _ (cancel q id now) (recall-IsHost m q id p)))
call-IsWell m (Call.deletes id) h at =
    unfold delete_job in
    host_only m _ h (λ p. with_queue-IsWell m _ p (λ q. settle-IsWell m (delete q id) p))
call-IsWell m Call.clears h at = clear-IsWell m h
call-IsWell m (Call.chooses path mode) h at =
    unfold set_manager_binary in on_worker-IsWell m _ h (choose_binary_calm path mode)
call-IsWell m Call.pauses h at =
    unfold pause_worker in on_worker-IsWell m _ h (λ w. unfold is_panic in refl)
call-IsWell m Call.resumes h at =
    unfold resume_worker in on_worker-IsWell m _ h (λ w. unfold is_panic in refl)
call-IsWell m (Call.steers env status body peer_id now) h at =
    steer-IsWell m env status body peer_id now h
call-IsWell m (Call.receives from parts payload now) h at =
    receive-IsWell m from parts payload now h
call-IsWell m (Call.hears evt now) h at = event-IsWell m evt now h
call-IsWell m (Call.follows evt now) h at =
    unfold on_event in event-IsWell _ evt now (follow_coherent m evt h)
call-IsWell m (Call.works e) h at = works-IsWell m e h
call-IsWell m (Call.saves path mode) h at = save-IsWell m path mode h
call-IsWell m (Call.dispatches env) h at = dispatch_round-IsWell env m h at

absurd_panic : false ≢ true
absurd_panic e = cc

set_up_coherent :
    (self_id : String) (db : Option JobStore) (path mode : String)
    → is_coherent (set_up self_id db path mode) ≡ true
unfolding set_up set_db set_saved_binary new_manager is_coherent fits
set_up_coherent self_id none path mode = refl
set_up_coherent self_id (some db) path mode = refl

-- The calls end well, or lead to a manager whose counter has wrapped.
abbrev pub Ends : Manager → List Call → Type 0
Ends m cs =
    ((m' : Manager) × (calls m cs ≡ ok m') × (is_coherent m' ≡ true))
    ⊎ ((before after : List Call) × (cs ≡ before ++ after)
        × (m' : Manager) × (calls m before ≡ ok m')
        × HasWrapped m')

Ends-next :
    (m m' : Manager) (c : Call) (cs : List Call)
    → ((ds : List Call) → calls m (c ∷ ds) ≡ calls m' ds)
    → Ends m' cs
    → Ends m (c ∷ cs)
Ends-next m m' c cs same (inl (x, e, h)) = inl (x, same cs ∙ e, h)
Ends-next m m' c cs same (inr (before, after, e, x, r, w)) =
    inr (c ∷ before, after, ap (◌∷◌ c) e, x, same before ∙ r, w)

proceed_lem :
    (m : Manager) (c : Call) (r : Result Failure Manager) (cs : List Call)
    → call m c ≡ r
    → is_coherent m ≡ true
    → IsWell r
    → ((m : Manager) → is_coherent m ≡ true → Ends m cs)
    → Ends m (c ∷ cs)
unfolding proceed goes_well calls
proceed_lem m c (ok m') cs e h w k =
    Ends-next m m' c cs (λ ds. ap (λ r. proceed m r (λ x. calls x ds)) e) (k m' w.well)
proceed_lem m c (err (Failure.panic f)) cs e h w k = elim (absurd_panic w.well) [ ]
proceed_lem m c (err (Failure.already_in _ _)) cs e h w k =
    Ends-next m m c cs (λ ds. ap (λ r. proceed m r (λ x. calls x ds)) e) (k m h)
proceed_lem m c (err Failure.not_host) cs e h w k =
    Ends-next m m c cs (λ ds. ap (λ r. proceed m r (λ x. calls x ds)) e) (k m h)
proceed_lem m c (err Failure.not_worker) cs e h w k =
    Ends-next m m c cs (λ ds. ap (λ r. proceed m r (λ x. calls x ds)) e) (k m h)
proceed_lem m c (err (Failure.of_queue _)) cs e h w k =
    Ends-next m m c cs (λ ds. ap (λ r. proceed m r (λ x. calls x ds)) e) (k m h)
proceed_lem m c (err (Failure.of_binary _)) cs e h w k =
    Ends-next m m c cs (λ ds. ap (λ r. proceed m r (λ x. calls x ds)) e) (k m h)
proceed_lem m c (err (Failure.of_send _)) cs e h w k =
    Ends-next m m c cs (λ ds. ap (λ r. proceed m r (λ x. calls x ds)) e) (k m h)

calls_lem : (cs : List Call) (m : Manager) → is_coherent m ≡ true → Ends m cs
unfolding calls
calls_lem [] m h = inl (m, refl, h)
calls_lem (c ∷ cs) m h = elim (counter m) [
  | inl wrapped ↦ inr ([], c ∷ cs, refl, m, refl, wrapped)
  | inr at ↦ proceed_lem m c (call m c) cs refl h (call-IsWell m c h at) (calls_lem cs)
]

-- From a new manager on, with any database or none and any saved binary, take any sequence of calls,
-- group events, messages, steps of the worker and rounds of the dispatcher, each of which runs alone.
-- None panics, and after it the manager has exactly the parts of its role: a queue and a dispatcher
-- as host, a worker as worker, and none of them otherwise; unless on the way the counter of the
-- dispatcher's rotation wraps and is negative.
pub calls-go_well :
    (cs : List Call) (self_id : String) (db : Option JobStore) (path mode : String)
    → Ends (set_up self_id db path mode) cs
calls-go_well cs self_id db path mode =
    calls_lem cs (set_up self_id db path mode) (set_up_coherent self_id db path mode)
