-- ===== src/Tests/DataFederation.antt =====
-- internal/group_types/datafed on concrete inputs.
use goop.Base.{◌≡◌, ◌≢◌, refl, true, false, String, List, [], ◌∷◌, ◌++◌, Option, some, none, eq_iff}
use goop.Base.Json.{Value, Fields}
use goop.Datafed.{
  Payload, Table, Relationship, Contribution, FederatedGroup, Control, Manager, all_peer_sources,
  context_tables,
}
use goop.Datafed.Slots.{Op, run, view, act_all}
use goop.Datafed.Slots.Refinement.{view-run}
use goop.Datafed.Comebacks.{Report, reports, comeback}
use goop.Datafed.Sources.{is_source, offered_somewhere, all_peer_sources_lem}
use goop.Base.Map.{lookup}

abbrev table : String → Table
table n = record { name = n; access_read = none; others = Value.null }

abbrev gives : String → Contribution
gives n = record { tables = table n ∷ []; relationships = [] }

abbrev both : FederatedGroup
both = record {
  contributions = ("ann", gives "orders") ∷ ("bob", gives "people") ∷ [];
  suspended = [];
}

abbrev at_ann : Manager
at_ann = record {
  self_id = "ann";
  schemas = table "orders" ∷ [];
  groups = ("g", both) ∷ [];
  controls = [];
  changes = 0;
}

abbrev named : String → Payload
named p = Payload.map_of (Fields.field "peerID" (Value.string p) Fields.end)

abbrev bob : String
bob = "bob"

bob_is_named : bob ≢ ""
bob_is_named e = cc ((eq_iff "bob" "").1 e)

bob_is_not_ann : bob ≢ "ann"
bob_is_not_ann e = cc ((eq_iff "bob" "ann").1 e)

abbrev evening : List Op
evening =
    Op.joins "g" "cat" false
    ∷ Op.loses (named "bob")
    ∷ Op.hears "msg" "g" "cat" (some (Control.schema_offer [] []))
    ∷ Op.leaves "g" "cat"
    ∷ Op.withdraws "g"
    ∷ Op.meets (named "bob")
    ∷ []

view-run_example :
    view "g" "bob" (run evening at_ann) ≡ act_all "g" "bob" evening (view "g" "bob" at_ann)
view-run_example = view-run "g" "bob" evening at_ann bob_is_named bob_is_not_ann

abbrev meanwhile : List Report
meanwhile = Report.offered (gives "places") ∷ Report.withdrew ∷ Report.left ∷ []

comeback_example :
    view "g" "bob" (
      run
        (Op.loses (named "bob") ∷ reports "g" "bob" meanwhile ++ Op.meets (named "bob") ∷ [])
        at_ann)
    ≡ some (record { offered = some (gives "people"); aside = none })
unfolding goop.Datafed.extract_peer_id goop.Base.Json.as_object goop.Base.Json.as_text
    goop.Base.Json.get goop.Datafed.is_offline goop.Base.Json.as_bool goop.Datafed.Slots.slot_of
    lookup
comeback_example =
    comeback "g" "bob" (named "bob") (named "bob") meanwhile (gives "people") none at_ann
      bob_is_named bob_is_not_ann refl refl refl refl

all_peer_sources_lem_example :
    (is_source "people" "bob" (all_peer_sources "ann" at_ann.groups [])
      ≡ offered_somewhere "people" "bob" at_ann.groups)
    × (lookup "ann" (all_peer_sources "ann" at_ann.groups []) ≡ none)
all_peer_sources_lem_example =
    all_peer_sources_lem "ann" "people" "bob" at_ann.groups bob_is_not_ann

bob_is_source : is_source "people" "bob" (all_peer_sources "ann" at_ann.groups []) ≡ true
unfolding all_peer_sources goop.Datafed.is_named goop.Datafed.tables_of lookup
    goop.Datafed.add_sources goop.Datafed.is_empty goop.Datafed.unseen goop.Base.Map.insert
bob_is_source = refl

-- A table that only its own node reads is not offered.
local_is_left_out :
    context_tables (record { name = "notes"; access_read = some "local"; others = Value.null } ∷ [])
    ≡ []
unfolding context_tables goop.Datafed.is_shared
local_is_left_out = refl
