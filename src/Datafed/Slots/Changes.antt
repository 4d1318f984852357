-- ===== src/Datafed/Slots/Changes.antt =====
-- internal/group_types/datafed: what a change of the groups does to one slot.
use goop.Base.{
  Bool, true, false, ◌&&◌, String, [], ◌∷◌, Option, none, some, inl, inr, ◌≡◌, refl, ◌∙◌,
  if◌then◌else◌, ◌==◌, arith, eq_iff, Option-cases,
}
use goop.Base.Map.{Map, lookup, lookup-insert, lookup-erase}
use goop.Datafed.{
  Manager, FederatedGroup, Contribution, notify_change, send_control, publish_sync, set_group,
  contribute, withdraw, on_group, is_group, suspend, resume, each_group, publish_all, after_change,
}
use goop.Datafed.Slots.{Slot, bring_back, lift, offer, set_aside, slot, slot_of, view}

-- A sync changes no group.
pub publish_sync-groups : (id : String) (m : Manager) → (publish_sync id m).groups ≡ m.groups
unfolding publish_sync send_control
publish_sync-groups id m = ground arith

pub publish_sync_self : (id : String) (m : Manager) → (publish_sync id m).self_id ≡ m.self_id
unfolding publish_sync send_control
publish_sync_self id m = ground arith

publish_all-groups : (gs : Map FederatedGroup) (m : Manager) → (publish_all gs m).groups ≡ m.groups
unfolding publish_all
publish_all-groups [] m = refl
publish_all-groups ((id, _) ∷ gs) m =
    publish_all-groups gs (publish_sync id m) ∙ publish_sync-groups id m

publish_all_self : (gs : Map FederatedGroup) (m : Manager) → (publish_all gs m).self_id ≡ m.self_id
unfolding publish_all
publish_all_self [] m = refl
publish_all_self ((id, _) ∷ gs) m = publish_all_self gs (publish_sync id m) ∙ publish_sync_self id m

pub after_change-groups :
    (gs : Map FederatedGroup) (changed : Bool) (m : Manager)
    → (after_change (gs, changed) m).groups ≡ gs
unfolding after_change notify_change
after_change-groups gs false m = refl
after_change-groups gs true m = publish_all-groups gs (record m { groups = gs })

pub after_change_self :
    (gs : Map FederatedGroup) (changed : Bool) (m : Manager)
    → (after_change (gs, changed) m).self_id ≡ m.self_id
unfolding after_change notify_change
after_change_self gs false m = refl
after_change_self gs true m = publish_all_self gs (record m { groups = gs })

view-on_group-none :
    (id i p : String) (f : FederatedGroup → FederatedGroup) (g : Slot → Slot) (m : Manager)
    → lookup i m.groups ≡ none
    → view id p (on_group i f m) ≡ (if i == id then lift g (view id p m) else view id p m)
unfolding on_group slot_of lift
view-on_group-none id i p f g m e = ground (arith, eq_iff i id)

view-on_group-some :
    (id i p : String) (f : FederatedGroup → FederatedGroup) (g : Slot → Slot) (fg : FederatedGroup)
    (m : Manager)
    → lookup i m.groups ≡ some fg
    → slot p (f fg) ≡ g (slot p fg)
    → view id p (on_group i f m) ≡ (if i == id then lift g (view id p m) else view id p m)
unfolding on_group set_group slot_of lift
view-on_group-some id i p f g fg m e h = ground (
  arith,
  eq_iff i id,
  publish_sync-groups i (set_group i (f fg) m),
  lookup-insert i id (f fg) m.groups,
)

-- What a change of one group does to the view.
view-on_group :
    (id i p : String) (f : FederatedGroup → FederatedGroup) (g : Slot → Slot) (m : Manager)
    → ((fg : FederatedGroup) → slot p (f fg) ≡ g (slot p fg))
    → view id p (on_group i f m) ≡ (if i == id then lift g (view id p m) else view id p m)
view-on_group id i p f g m h = elim (Option-cases (lookup i m.groups)) [
  | inl e ↦ view-on_group-none id i p f g m e
  | inr (fg, e) ↦ view-on_group-some id i p f g fg m e (h fg)
]

pub contribute-slot :
    (p q : String) (c : Contribution) (fg : FederatedGroup)
    → slot p (contribute q c fg) ≡ (if q == p then offer (some c) (slot p fg) else slot p fg)
unfolding contribute
contribute-slot p q c fg = ground (arith, lookup-insert q p c fg.contributions)

pub withdraw-slot :
    (p q : String) (fg : FederatedGroup)
    → slot p (withdraw q fg) ≡ (if q == p then offer none (slot p fg) else slot p fg)
unfolding withdraw
withdraw-slot p q fg = ground (arith, lookup-erase q p fg.contributions)

pub suspend-slot :
    (p q : String) (fg : FederatedGroup)
    → slot p (suspend q fg).0 ≡ (if q == p then set_aside (slot p fg) else slot p fg)
unfolding suspend set_aside
suspend-slot p q fg = elim (Option-cases (lookup q fg.contributions)) [
  | inl e ↦ ground (arith, eq_iff q p)
  | inr (c, e) ↦
      ground
        (arith, eq_iff q p, lookup-erase q p fg.contributions, lookup-insert q p c fg.suspended)
]

pub resume-slot :
    (p q : String) (fg : FederatedGroup)
    → slot p (resume q fg).0 ≡ (if q == p then bring_back (slot p fg) else slot p fg)
unfolding resume bring_back
resume-slot p q fg = elim (Option-cases (lookup q fg.suspended)) [
  | inl e ↦ ground (arith, eq_iff q p)
  | inr (c, e) ↦
      ground
        (arith, eq_iff q p, lookup-erase q p fg.suspended, lookup-insert q p c fg.contributions)
]

pub view-each_group :
    (id p : String) (f : FederatedGroup → FederatedGroup × Bool) (g : Slot → Slot)
    (gs : Map FederatedGroup)
    → ((fg : FederatedGroup) → slot p (f fg).0 ≡ g (slot p fg))
    → slot_of p (lookup id (each_group f gs).0) ≡ lift g (slot_of p (lookup id gs))
unfolding each_group lookup slot_of lift
view-each_group id p f g [] h = refl
view-each_group id p f g ((i, fg) ∷ gs) h =
    let rest = view-each_group id p f g gs h in ground (arith, h fg, rest)

pub lift_if :
    (b : Bool) (g : Slot → Slot) (s : Option Slot)
    → lift (λ x. if b then g x else x) s ≡ (if b then lift g s else s)
unfolding lift
lift_if true g none = refl
lift_if true g (some s) = refl
lift_if false g none = refl
lift_if false g (some s) = refl

-- A change of what one peer has.
pub view-on_peer :
    (id i p q : String) (f : FederatedGroup → FederatedGroup) (g : Slot → Slot) (m : Manager)
    → ((fg : FederatedGroup) → slot p (f fg) ≡ (if q == p then g (slot p fg) else slot p fg))
    → view id p (on_group i f m) ≡ (if i == id && q == p then lift g (view id p m) else view id p m)
view-on_peer id i p q f g m h = ground (
  arith,
  view-on_group id i p f (λ s. if q == p then g s else s) m h,
  lift_if (q == p) g (view id p m),
)

pub on_group_absent :
    (i : String) (f : FederatedGroup → FederatedGroup) (m : Manager)
    → is_group i m ≡ false
    → on_group i f m ≡ m
unfolding is_group on_group
on_group_absent i f m e = elim (Option-cases (lookup i m.groups)) [
  | inl n ↦ ground arith
  | inr (fg, n) ↦ ground arith
]
