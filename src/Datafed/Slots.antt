-- ===== src/Datafed/Slots.antt =====
-- internal/group_types/datafed: what one group knows of one remote peer, whatever methods run.
pub mod Changes
pub mod Methods
pub mod Refinement
use goop.Base.{
  Bool, true, false, ◌&&◌, not, String, List, [], ◌∷◌, Option, none, some, inl, inr, ◌≡◌, ◌≢◌, refl,
  ap, ◌∙◌, if◌then◌else◌, ◌==◌, arith, eq_iff, Option-cases,
}
use goop.Base.Map.{Map, lookup, lookup-insert, lookup-erase}
use goop.Datafed.{
  Payload, Manager, FederatedGroup, Contribution, Control, Table, new_federated_group,
  notify_change, send_control, publish_sync, set_group, contribute, withdraw, on_create,
  host_tables, group_or_new, context_tables, on_join, on_group, is_group, on_leave, on_close,
  handle_schema_offer, handle_schema_withdraw, on_event, offer_tables, withdraw_tables, suspend,
  resume, each_group, publish_all, after_change, extract_peer_id, is_offline, handle_peer_gone,
  handle_peer_announce,
}

pub data Op : Type 0 where
  creates : String → Op
  joins : String → String → Bool → Op
  leaves : String → String → Op
  closes : String → Op
  hears : String → String → String → Option Control → Op
  offers : String → Contribution → Op
  withdraws : String → Op
  loses : Payload → Op
  meets : Payload → Op

unfoldable pub step : Op → Manager → Manager
step (creates i) m = on_create i m
step (joins i q is_host) m = on_join i q is_host m
step (leaves i q) m = on_leave i q m
step (closes i) m = on_close i m
step (hears type i from control) m = on_event type i from control m
step (offers i c) m = offer_tables i c m
step (withdraws i) m = withdraw_tables i m
step (loses payload) m = handle_peer_gone payload m
step (meets payload) m = handle_peer_announce payload m

unfoldable pub run : List Op → Manager → Manager
run [] m = m
run (o ∷ os) m = run os (step o m)

-- What a group has from a peer, and what it has set aside while the peer is away.
pub record Slot : Type 0 where
  pub offered : Option Contribution
  pub aside : Option Contribution

abbrev pub slot : String → FederatedGroup → Slot
slot p fg = record { offered = lookup p fg.contributions; aside = lookup p fg.suspended }

unfoldable pub lift : (Slot → Slot) → Option Slot → Option Slot
lift f none = none
lift f (some s) = some (f s)

unfoldable pub slot_of : String → Option FederatedGroup → Option Slot
slot_of p none = none
slot_of p (some fg) = some (slot p fg)

abbrev pub view : String → String → Manager → Option Slot
view id p m = slot_of p (lookup id m.groups)

abbrev pub no_slot : Slot
no_slot = record { offered = none; aside = none }

unfoldable pub slot_or_new : Option Slot → Slot
slot_or_new none = no_slot
slot_or_new (some s) = s

-- The automaton of one remote peer in one group.
unfoldable pub set_aside : Slot → Slot
set_aside s = elim s.offered [ none ↦ s | some c ↦ record { offered = none; aside = some c } ]

unfoldable pub bring_back : Slot → Slot
bring_back s = elim s.aside [ none ↦ s | some c ↦ record { offered = some c; aside = none } ]

abbrev pub offer : Option Contribution → Slot → Slot
offer c s = record s { offered = c }

unfoldable pub hear : Option Control → Slot → Slot
hear none s = s
hear (some (Control.schema_offer ts rs)) s =
    offer (some (record { tables = ts; relationships = rs })) s
hear (some Control.schema_withdraw) s = offer none s
hear (some (Control.schema_sync ts rs)) s = s

unfoldable pub act : String → String → Op → Option Slot → Option Slot
act id p (creates i) s = if i == id then some no_slot else s
act id p (joins i q is_host) s = if i == id then some (slot_or_new s) else s
act id p (leaves i q) s = if i == id && q == p then lift (offer none) s else s
act id p (closes i) s = if i == id then none else s
act id p (hears type i from control) s =
    if type == "msg" && (i == id && from == p) then lift (hear control) s else s
act id p (offers i c) s = s
act id p (withdraws i) s = s
act id p (loses payload) s = if extract_peer_id payload == p then lift set_aside s else s
act id p (meets payload) s =
    if extract_peer_id payload == p && not (is_offline payload) then lift bring_back s else s

unfoldable pub act_all : String → String → List Op → Option Slot → Option Slot
act_all id p [] s = s
act_all id p (o ∷ os) s = act_all id p os (act id p o s)
