-- ===== src/Datafed/Slots/Refinement.antt =====
-- internal/group_types/datafed: any run of methods is one of the automaton of a slot.
use goop.Base.{
  String, List, [], ◌∷◌, none, some, inl, inr, ◌≡◌, ◌≢◌, refl, ap, ◌∙◌, arith, Option-cases,
}
use goop.Base.Map.{lookup}
use goop.Datafed.{
  Manager, FederatedGroup, Contribution, Control, notify_change, send_control, set_group,
  contribute, withdraw, on_create, host_tables, group_or_new, context_tables, on_join, on_group,
  on_leave, on_close, handle_schema_offer, handle_schema_withdraw, on_event, offer_tables,
  withdraw_tables, suspend, resume, each_group, extract_peer_id, handle_peer_gone,
  handle_peer_announce,
}
use goop.Datafed.Slots.{Op, act, act_all, run, step, view}
use goop.Datafed.Slots.Changes.{after_change_self, publish_sync_self}
use goop.Datafed.Slots.Methods.{
  view-closes, view-creates, view-hears, view-joins, view-leaves, view-loses, view-meets,
  view-offers, view-withdraws,
}

view-step :
    (id p : String) (o : Op) (m : Manager)
    → p ≢ ""
    → p ≢ m.self_id
    → view id p (step o m) ≡ act id p o (view id p m)
unfolding step act
view-step id p (Op.creates i) m e n = view-creates id p i m
view-step id p (Op.joins i q is_host) m e n = view-joins id p i q is_host m n
view-step id p (Op.leaves i q) m e n = view-leaves id p i q m
view-step id p (Op.closes i) m e n = view-closes id p i m
view-step id p (Op.hears type i q control) m e n = view-hears id p type i q control m
view-step id p (Op.offers i c) m e n = view-offers id p i c m n
view-step id p (Op.withdraws i) m e n = view-withdraws id p i m n
view-step id p (Op.loses payload) m e n = view-loses id p payload m e n
view-step id p (Op.meets payload) m e n = view-meets id p payload m e n

on_group_self :
    (i : String) (f : FederatedGroup → FederatedGroup) (m : Manager)
    → (on_group i f m).self_id ≡ m.self_id
unfolding on_group set_group
on_group_self i f m = elim (Option-cases (lookup i m.groups)) [
  | inl e ↦ ground arith
  | inr (fg, e) ↦ ground (arith, publish_sync_self i (set_group i (f fg) m))
]

-- No method changes who this node is.
step_self : (o : Op) (m : Manager) → (step o m).self_id ≡ m.self_id
unfolding step on_create set_group on_join notify_change on_leave on_close on_event
    handle_schema_offer handle_schema_withdraw offer_tables withdraw_tables send_control
    handle_peer_gone handle_peer_announce
step_self (Op.creates i) m = refl
step_self (Op.joins i q is_host) m =
    let old = group_or_new (lookup i m.groups) in
    publish_sync_self i
      (set_group i (host_tables is_host m.self_id (context_tables m.schemas) old) m)
step_self (Op.leaves i q) m = on_group_self i (withdraw q) m
step_self (Op.closes i) m = refl
step_self (Op.hears type i q none) m = ground arith
step_self (Op.hears type i q (some (Control.schema_offer ts rs))) m =
    let c : Contribution = record { tables = ts; relationships = rs } in
    ground (arith, on_group_self i (contribute q c) m)
step_self (Op.hears type i q (some Control.schema_withdraw)) m =
    ground (arith, on_group_self i (withdraw q) m)
step_self (Op.hears type i q (some (Control.schema_sync ts rs))) m = ground arith
step_self (Op.offers i c) m = ground (arith, on_group_self i (contribute m.self_id c) m)
step_self (Op.withdraws i) m = ground (arith, on_group_self i (withdraw m.self_id) m)
step_self (Op.loses payload) m =
    let gs = each_group (suspend (extract_peer_id payload)) m.groups in
    ground (arith, after_change_self gs.0 gs.1 m)
step_self (Op.meets payload) m =
    let gs = each_group (resume (extract_peer_id payload)) m.groups in
    ground (arith, after_change_self gs.0 gs.1 m)

-- Whatever methods run, what a group has from a remote peer, and what it has set aside from it, is
-- what the automaton of that peer and that group says: only what concerns the group and the peer
-- changes it. Neither this node's own tables nor another peer's messages do.
pub view-run :
    (id p : String) (os : List Op) (m : Manager)
    → p ≢ ""
    → p ≢ m.self_id
    → view id p (run os m) ≡ act_all id p os (view id p m)
unfolding run act_all
view-run id p [] m e n = refl
view-run id p (o ∷ os) m e n =
    let other : p ≢ (step o m).self_id = λ x. n (x ∙ step_self o m) in
    view-run id p os (step o m) e other ∙ ap (act_all id p os) (view-step id p o m e n)
