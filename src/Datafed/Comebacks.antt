-- ===== src/Datafed/Comebacks.antt =====
-- internal/group_types/datafed: a peer that goes and comes back.
use goop.Base.{
  false, String, List, [], ◌∷◌, ◌++◌, Option, none, some, ◌≡◌, ◌≢◌, ap, ◌∙◌, arith, eq_iff,
}
use goop.Datafed.{Payload, Manager, Contribution, Control, extract_peer_id, is_offline}
use goop.Datafed.Slots.{Op, run, view, act, act_all, lift, hear, set_aside, bring_back}
use goop.Datafed.Slots.Refinement.{view-run}

-- What can come from a peer, or be done on its behalf, while it counts as gone.
pub data Report : Type 0 where
  offered : Contribution → Report
  withdrew left : Report

unfoldable pub reports : String → String → List Report → List Op
reports id p [] = []
reports id p (offered c ∷ rs) =
    Op.hears "msg" id p (some (Control.schema_offer c.tables c.relationships)) ∷ reports id p rs
reports id p (withdrew ∷ rs) = Op.hears "msg" id p (some Control.schema_withdraw) ∷ reports id p rs
reports id p (left ∷ rs) = Op.leaves id p ∷ reports id p rs

module _ (id p : String) (back : Payload) (named : extract_peer_id back ≡ p)
    (online : is_offline back ≡ false) where
  set_aside_stays :
      (rs : List Report) (c : Contribution) (now : Option Contribution)
      → act_all id p
          (reports id p rs ++ Op.meets back ∷ [])
          (some (record { offered = now; aside = some c }))
        ≡ some (record { offered = some c; aside = none })
  unfolding reports act_all act lift hear bring_back
  set_aside_stays [] c now = ground (arith, eq_iff (extract_peer_id back) p)
  set_aside_stays (offered d ∷ rs) c now =
      let rest = set_aside_stays rs c (some d) in ground (arith, eq_iff id id, eq_iff p p, rest)
  set_aside_stays (withdrew ∷ rs) c now =
      let rest = set_aside_stays rs c none in ground (arith, eq_iff id id, eq_iff p p, rest)
  set_aside_stays (left ∷ rs) c now =
      let rest = set_aside_stays rs c none in ground (arith, eq_iff id id, eq_iff p p, rest)

-- A remote peer that contributes goes and is announced again, not offline. Then the group has what
-- the peer contributed before, whatever it offered in between, and also where it withdrew its tables
-- or left the group meanwhile.
pub comeback :
    (id p : String) (gone back : Payload) (rs : List Report) (c : Contribution)
    (aside : Option Contribution) (m : Manager)
    → p ≢ ""
    → p ≢ m.self_id
    → extract_peer_id gone ≡ p
    → extract_peer_id back ≡ p
    → is_offline back ≡ false
    → view id p m ≡ some (record { offered = some c; aside = aside })
    → view id p (run (Op.loses gone ∷ reports id p rs ++ Op.meets back ∷ []) m)
      ≡ some (record { offered = some c; aside = none })
unfolding act_all act lift set_aside
comeback id p gone back rs c aside m e n lost named online v =
    let stays = set_aside_stays id p back named online rs c none in
    view-run id p (Op.loses gone ∷ reports id p rs ++ Op.meets back ∷ []) m e n
    ∙ ap (act_all id p (Op.loses gone ∷ reports id p rs ++ Op.meets back ∷ [])) v
    ∙ ground (arith, eq_iff (extract_peer_id gone) p, stays)
