-- ===== src/Datafed/Slots/Methods.antt =====
-- internal/group_types/datafed: what each method does to one slot.
use goop.Base.{
  Bool, true, false, String, List, [], ◌∷◌, Option, none, some, ◌≡◌, ◌≢◌, refl, ap, ◌∙◌,
  if◌then◌else◌, ◌==◌, arith, eq_iff,
}
use goop.Base.Map.{lookup, lookup-insert, lookup-erase}
use goop.Datafed.{
  Payload, Manager, FederatedGroup, Contribution, Control, Table, new_federated_group,
  notify_change, send_control, set_group, contribute, withdraw, on_create, host_tables,
  group_or_new, context_tables, on_join, on_group, on_leave, on_close, handle_schema_offer,
  handle_schema_withdraw, on_event, offer_tables, withdraw_tables, suspend, resume, each_group,
  after_change, extract_peer_id, handle_peer_gone, handle_peer_announce,
}
use goop.Datafed.Slots.{
  Op, Slot, act, bring_back, hear, lift, offer, set_aside, slot, slot_of, slot_or_new, view,
}
use goop.Datafed.Slots.Changes.{
  after_change-groups, contribute-slot, lift_if, on_group_absent, publish_sync-groups, resume-slot,
  suspend-slot, view-each_group, view-on_peer, withdraw-slot,
}

-- The test for the group changes nothing: without a group there is nothing to change.
handle_schema_offer-groups :
    (i q : String) (c : Contribution) (m : Manager)
    → (handle_schema_offer i q c m).groups ≡ (on_group i (contribute q c) m).groups
unfolding handle_schema_offer notify_change
handle_schema_offer-groups i q c m = ground (arith, on_group_absent i (contribute q c) m)

handle_schema_withdraw-groups :
    (i q : String) (m : Manager)
    → (handle_schema_withdraw i q m).groups ≡ (on_group i (withdraw q) m).groups
unfolding handle_schema_withdraw notify_change
handle_schema_withdraw-groups i q m = ground (arith, on_group_absent i (withdraw q) m)

offer_tables-groups :
    (i : String) (c : Contribution) (m : Manager)
    → (offer_tables i c m).groups ≡ (on_group i (contribute m.self_id c) m).groups
unfolding offer_tables send_control
offer_tables-groups i c m = ground (arith, on_group_absent i (contribute m.self_id c) m)

withdraw_tables-groups :
    (i : String) (m : Manager)
    → (withdraw_tables i m).groups ≡ (on_group i (withdraw m.self_id) m).groups
unfolding withdraw_tables send_control
withdraw_tables-groups i m = ground (arith, on_group_absent i (withdraw m.self_id) m)

lift_same : (g : Slot → Slot) (s : Option Slot) → ((x : Slot) → g x ≡ x) → lift g s ≡ s
unfolding lift
lift_same g none h = refl
lift_same g (some s) h = ap some (h s)

pub view-hears :
    (id p type i q : String) (control : Option Control) (m : Manager)
    → view id p (on_event type i q control m) ≡ act id p (Op.hears type i q control) (view id p m)
unfolding on_event act hear
view-hears id p type i q none m = ground (arith, lift_same (hear none) (view id p m) (λ x. refl))
view-hears id p type i q (some (Control.schema_offer ts rs)) m =
    let c : Contribution = record { tables = ts; relationships = rs } in
    ground (
      arith,
      handle_schema_offer-groups i q c m,
      view-on_peer id i p q (contribute q c) (offer (some c)) m (contribute-slot p q c),
    )
view-hears id p type i q (some Control.schema_withdraw) m = ground (
  arith,
  handle_schema_withdraw-groups i q m,
  view-on_peer id i p q (withdraw q) (offer none) m (withdraw-slot p q),
)
view-hears id p type i q (some (Control.schema_sync ts rs)) m =
    ground (arith, lift_same (hear (some (Control.schema_sync ts rs))) (view id p m) (λ x. refl))

pub view-leaves :
    (id p i q : String) (m : Manager)
    → view id p (on_leave i q m) ≡ act id p (Op.leaves i q) (view id p m)
unfolding on_leave notify_change act
view-leaves id p i q m = view-on_peer id i p q (withdraw q) (offer none) m (withdraw-slot p q)

pub view-creates :
    (id p i : String) (m : Manager)
    → view id p (on_create i m) ≡ act id p (Op.creates i) (view id p m)
unfolding on_create set_group act slot_of lookup
view-creates id p i m = ground (arith, lookup-insert i id new_federated_group m.groups)

pub view-closes :
    (id p i : String) (m : Manager)
    → view id p (on_close i m) ≡ act id p (Op.closes i) (view id p m)
unfolding on_close notify_change act slot_of
view-closes id p i m = ground (arith, lookup-erase i id m.groups)

-- What this node offers is no other peer's.
host_tables-slot :
    (p self : String) (is_host : Bool) (ts : List Table) (fg : FederatedGroup)
    → p ≢ self
    → slot p (host_tables is_host self ts fg) ≡ slot p fg
unfolding host_tables
host_tables-slot p self false ts fg n = refl
host_tables-slot p self true [] fg n = refl
host_tables-slot p self true (t ∷ ts) fg n = ground (
  arith,
  eq_iff self p,
  contribute-slot p self (record { tables = t ∷ ts; relationships = [] }) fg,
)

group_or_new-slot :
    (p : String) (g : Option FederatedGroup) → slot p (group_or_new g) ≡ slot_or_new (slot_of p g)
unfolding group_or_new slot_or_new slot_of lookup
group_or_new-slot p none = refl
group_or_new-slot p (some fg) = refl

pub view-joins :
    (id p i q : String) (is_host : Bool) (m : Manager)
    → p ≢ m.self_id
    → view id p (on_join i q is_host m) ≡ act id p (Op.joins i q is_host) (view id p m)
unfolding on_join set_group notify_change act slot_of
view-joins id p i q is_host m n =
    let old = group_or_new (lookup i m.groups) in
    let fg = host_tables is_host m.self_id (context_tables m.schemas) old in
    ground (
      arith,
      eq_iff i id,
      publish_sync-groups i (set_group i fg m),
      lookup-insert i id fg m.groups,
      host_tables-slot p m.self_id is_host (context_tables m.schemas) old n,
      group_or_new-slot p (lookup i m.groups),
    )

pub view-offers :
    (id p i : String) (c : Contribution) (m : Manager)
    → p ≢ m.self_id
    → view id p (offer_tables i c m) ≡ view id p m
view-offers id p i c m n = ground (
  arith,
  eq_iff m.self_id p,
  offer_tables-groups i c m,
  view-on_peer id i p m.self_id (contribute m.self_id c) (offer (some c)) m
      (contribute-slot p m.self_id c),
)

pub view-withdraws :
    (id p i : String) (m : Manager) → p ≢ m.self_id → view id p (withdraw_tables i m) ≡ view id p m
view-withdraws id p i m n = ground (
  arith,
  eq_iff m.self_id p,
  withdraw_tables-groups i m,
  view-on_peer id i p m.self_id (withdraw m.self_id) (offer none) m (withdraw-slot p m.self_id),
)

-- A change in every group is one in this group.
view-after_change :
    (id p q : String) (f : FederatedGroup → FederatedGroup × Bool) (g : Slot → Slot) (m : Manager)
    → ((fg : FederatedGroup) → slot p (f fg).0 ≡ (if q == p then g (slot p fg) else slot p fg))
    → view id p (after_change (each_group f m.groups) m)
      ≡ (if q == p then lift g (view id p m) else view id p m)
view-after_change id p q f g m h =
    let gs = each_group f m.groups in
    ap (λ x. slot_of p (lookup id x)) (after_change-groups gs.0 gs.1 m)
    ∙ view-each_group id p f (λ s. if q == p then g s else s) m.groups h
    ∙ lift_if (q == p) g (view id p m)

pub view-loses :
    (id p : String) (payload : Payload) (m : Manager)
    → p ≢ ""
    → p ≢ m.self_id
    → view id p (handle_peer_gone payload m) ≡ act id p (Op.loses payload) (view id p m)
unfolding handle_peer_gone act
view-loses id p payload m e n =
    let q = extract_peer_id payload in
    ground (
      arith,
      eq_iff q p,
      eq_iff q "",
      eq_iff q m.self_id,
      view-after_change id p q (suspend q) set_aside m (suspend-slot p q),
    )

pub view-meets :
    (id p : String) (payload : Payload) (m : Manager)
    → p ≢ ""
    → p ≢ m.self_id
    → view id p (handle_peer_announce payload m) ≡ act id p (Op.meets payload) (view id p m)
unfolding handle_peer_announce act
view-meets id p payload m e n =
    let q = extract_peer_id payload in
    ground (
      arith,
      eq_iff q p,
      eq_iff q "",
      eq_iff q m.self_id,
      view-after_change id p q (resume q) bring_back m (resume-slot p q),
    )
