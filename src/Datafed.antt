-- ===== src/Datafed.antt =====
-- internal/group_types/datafed: the tables that the peers of a group offer each other (handler.go,
-- contributions.go, peers.go and sync.go). A method is one step.
pub mod Slots
pub mod Comebacks
pub mod Sources
use Prim.Native.String.{len, slice}
use goop.Base.{
  ℕ, suc, Bool, true, false, ◌&&◌, ◌||◌, not, String, List, [], ◌∷◌, ◌++◌, Option, none, some,
  if◌then◌else◌, ◌==◌, eqb,
}
use goop.Base.Map.{Map, lookup, insert, erase}
use goop.Base.Json.{Value, Fields, get, as_bool, as_object}

-- Of a schema.Table its name and `Access.Read`, if it has an Access. The package passes the other
-- fields on.
pub record Table : Type 0 where
  pub name : String
  pub access_read : Option String
  pub others : Value

pub record Relationship : Type 0 where
  pub from_table : String
  pub from_column : String
  pub to_table : String
  pub to_column : String

-- The peer is the key of the maps.
pub record Contribution : Type 0 where
  pub tables : List Table
  pub relationships : List Relationship

pub record FederatedGroup : Type 0 where
  pub contributions : Map Contribution
  pub suspended : Map Contribution

pub data Control : Type 0 where
  schema_offer : List Table → List Relationship → Control
  schema_withdraw : Control
  schema_sync : Map (List Table) → Map (List Relationship) → Control

-- `schemas` has the tables of this node, `controls` what was sent to which group, newest first, and
-- `changes` counts the calls of onChange.
pub record Manager : Type 0 where
  pub self_id : String
  pub schemas : List Table
  pub groups : Map FederatedGroup
  pub controls : List (String × Control)
  pub changes : ℕ

abbrev pub new_federated_group : FederatedGroup
new_federated_group = record { contributions = []; suspended = [] }

unfoldable pub notify_change : Manager → Manager
notify_change m = record m { changes = suc m.changes }

unfoldable pub send_control : String → Control → Manager → Manager
send_control id c m = record m { controls = (id, c) ∷ m.controls }

unfoldable pub tables_by_peer : Map Contribution → Map (List Table)
tables_by_peer [] = []
tables_by_peer ((p, c) ∷ cs) = (p, c.tables) ∷ tables_by_peer cs

-- Peers without relationships are left out.
unfoldable pub relationships_by_peer : Map Contribution → Map (List Relationship)
relationships_by_peer [] = []
relationships_by_peer ((p, c) ∷ cs) =
    let rest = relationships_by_peer cs in
    elim c.relationships [ [] ↦ rest | r ∷ rs ↦ (p, r ∷ rs) ∷ rest ]

unfoldable pub publish_sync : String → Manager → Manager
publish_sync id m = elim (lookup id m.groups) [
  | none ↦ m
  | some fg ↦
      send_control id
        (Control.schema_sync (tables_by_peer fg.contributions)
          (relationships_by_peer fg.contributions))
        m
]

unfoldable pub set_group : String → FederatedGroup → Manager → Manager
set_group id fg m = record m { groups = insert id fg m.groups }

unfoldable pub contribute : String → Contribution → FederatedGroup → FederatedGroup
contribute p c fg = record fg { contributions = insert p c fg.contributions }

unfoldable pub withdraw : String → FederatedGroup → FederatedGroup
withdraw p fg = record fg { contributions = erase p fg.contributions }

unfoldable pub on_create : String → Manager → Manager
on_create id m = set_group id new_federated_group m

unfoldable pub is_shared : Table → Bool
is_shared t = elim t.access_read [ none ↦ true | some r ↦ not (r == "local") ]

unfoldable pub context_tables : List Table → List Table
context_tables [] = []
context_tables (t ∷ ts) = let rest = context_tables ts in if is_shared t then t ∷ rest else rest

unfoldable pub group_or_new : Option FederatedGroup → FederatedGroup
group_or_new none = new_federated_group
group_or_new (some fg) = fg

-- The host's own tables, if there are any.
unfoldable pub host_tables : Bool → String → List Table → FederatedGroup → FederatedGroup
host_tables false self tables fg = fg
host_tables true self [] fg = fg
host_tables true self (t ∷ ts) fg =
    contribute self (record { tables = t ∷ ts; relationships = [] }) fg

unfoldable pub on_join : String → String → Bool → Manager → Manager
on_join id peer_id is_host m =
    let fg =
      host_tables is_host m.self_id (context_tables m.schemas)
        (group_or_new (lookup id m.groups)) in
    notify_change (publish_sync id (set_group id fg m))

-- A change of a group that is there, with its sync.
unfoldable pub on_group : String → (FederatedGroup → FederatedGroup) → Manager → Manager
on_group id f m = elim (lookup id m.groups) [
  | none ↦ m
  | some fg ↦ publish_sync id (set_group id (f fg) m)
]

unfoldable pub is_group : String → Manager → Bool
is_group id m = elim (lookup id m.groups) [ none ↦ false | some _ ↦ true ]

unfoldable pub on_leave : String → String → Manager → Manager
on_leave id peer_id m = notify_change (on_group id (withdraw peer_id) m)

unfoldable pub on_close : String → Manager → Manager
on_close id m = notify_change (record m { groups = erase id m.groups })

unfoldable pub handle_schema_offer : String → String → Contribution → Manager → Manager
handle_schema_offer id from c m =
    if is_group id m then notify_change (on_group id (contribute from c) m) else m

unfoldable pub handle_schema_withdraw : String → String → Manager → Manager
handle_schema_withdraw id from m =
    if is_group id m then notify_change (on_group id (withdraw from) m) else m

unfoldable pub offer_tables : String → Contribution → Manager → Manager
offer_tables id c m =
    if is_group id m
    then send_control id (Control.schema_offer c.tables c.relationships)
        (on_group id (contribute m.self_id c) m)
    else m

unfoldable pub withdraw_tables : String → Manager → Manager
withdraw_tables id m =
    if is_group id m
    then send_control id Control.schema_withdraw (on_group id (withdraw m.self_id) m)
    else m

-- OnEvent. `control` is what ExtractControl and json.Unmarshal find in the payload of the event.
unfoldable pub on_event : String → String → String → Option Control → Manager → Manager
on_event type id from control m =
    if type == "msg"
    then elim control [
      | none ↦ m
      | some c ↦ elim c [
        | schema_offer ts rs ↦
            handle_schema_offer id from (record { tables = ts; relationships = rs }) m
        | schema_withdraw ↦ handle_schema_withdraw id from m
        | schema_sync ts rs ↦ m
      ]
    ]
    else m

-- What a peer contributes is set aside, and whether there was something.
unfoldable pub suspend : String → FederatedGroup → FederatedGroup × Bool
suspend p fg = elim (lookup p fg.contributions) [
  | none ↦ (fg, false)
  | some c ↦ (
    record { contributions = erase p fg.contributions; suspended = insert p c fg.suspended },
    true,
  )
]

unfoldable pub resume : String → FederatedGroup → FederatedGroup × Bool
resume p fg = elim (lookup p fg.suspended) [
  | none ↦ (fg, false)
  | some c ↦ (
    record { contributions = insert p c fg.contributions; suspended = erase p fg.suspended },
    true,
  )
]

-- The loops over the groups.
unfoldable pub each_group :
    (FederatedGroup → FederatedGroup × Bool) → Map FederatedGroup → Map FederatedGroup × Bool
each_group f [] = ([], false)
each_group f ((id, fg) ∷ gs) =
    let (gs', changed) = each_group f gs in
    let (fg', here) = f fg in ((id, fg') ∷ gs', here || changed)

unfoldable pub publish_all : Map FederatedGroup → Manager → Manager
publish_all [] m = m
publish_all ((id, _) ∷ gs) m = publish_all gs (publish_sync id m)

unfoldable pub after_change : Map FederatedGroup × Bool → Manager → Manager
after_change (gs, changed) m =
    let m' = record m { groups = gs } in if changed then notify_change (publish_all gs m') else m'

-- A payload: a `map[string]any`, its fields in the order in which json.Marshal writes them, or another
-- Go value, with what json.Marshal makes of it, if it does not fail.
pub data Payload : Type 0 where
  map_of : Fields → Payload
  other : Option Value → Payload

unfoldable pub is_letter : String → ℕ → String → String → Bool
is_letter k i small big = slice k i (suc i) == small || slice k i (suc i) == big

-- json.Unmarshal takes a key in any capitals for the field "peerID".
unfoldable pub is_peer_id_key : String → Bool
is_peer_id_key k =
    eqb (len k) 6
    && is_letter k 0 "p" "P"
    && is_letter k 1 "e" "E"
    && is_letter k 2 "e" "E"
    && is_letter k 3 "r" "R"
    && is_letter k 4 "i" "I"
    && is_letter k 5 "d" "D"

-- The last such text; a value of another type is an error, but for null.
unfoldable pub unmarshalled : String → Fields → String
unmarshalled found Fields.end = found
unmarshalled found (Fields.field k v fs) =
    let rest = unmarshalled found fs in
    if is_peer_id_key k
    then elim v [
      | Value.string s ↦ unmarshalled s fs
      | Value.null ↦ rest
      | Value.boolean _ ↦ ""
      | Value.number _ ↦ ""
      | Value.array _ ↦ ""
      | Value.object _ ↦ ""
    ]
    else rest

unfoldable pub by_json : Option Value → String
by_json none = ""
by_json (some v) = elim (as_object v) [ none ↦ "" | some fs ↦ unmarshalled "" fs ]

unfoldable pub extract_peer_id : Payload → String
extract_peer_id (map_of fs) = elim (get "peerID" fs) [
  | Value.string id ↦ id
  | Value.null ↦ unmarshalled "" fs
  | Value.boolean _ ↦ unmarshalled "" fs
  | Value.number _ ↦ unmarshalled "" fs
  | Value.array _ ↦ unmarshalled "" fs
  | Value.object _ ↦ unmarshalled "" fs
]
extract_peer_id (other v) = by_json v

unfoldable pub is_offline : Payload → Bool
is_offline (map_of fs) = as_bool (get "offline" fs)
is_offline (other v) = false

unfoldable pub handle_peer_gone : Payload → Manager → Manager
handle_peer_gone payload m =
    let p = extract_peer_id payload in
    if p == "" || p == m.self_id then m else after_change (each_group (suspend p) m.groups) m

unfoldable pub handle_peer_announce : Payload → Manager → Manager
handle_peer_announce payload m =
    let p = extract_peer_id payload in
    if p == "" || p == m.self_id || is_offline payload
    then m
    else after_change (each_group (resume p) m.groups) m

unfoldable pub is_named : String → List Table → Bool
is_named n [] = false
is_named n (t ∷ ts) = t.name == n || is_named n ts

-- The tables of `ts` whose names are not among those of `seen`.
unfoldable pub unseen : List Table → List Table → List Table
unseen seen [] = []
unseen seen (t ∷ ts) = let rest = unseen seen ts in if is_named t.name seen then rest else t ∷ rest

unfoldable pub tables_of : Option (List Table) → List Table
tables_of none = []
tables_of (some ts) = ts

unfoldable pub is_empty : List Table → Bool
is_empty [] = true
is_empty (_ ∷ _) = false

unfoldable pub add_sources : String → Map Contribution → Map (List Table) → Map (List Table)
add_sources self [] result = result
add_sources self ((p, c) ∷ cs) result =
    let existing = tables_of (lookup p result) in
    let added = existing ++ unseen existing c.tables in
    let skipped = add_sources self cs result in
    let extended = add_sources self cs (insert p added result) in
    if p == self || is_empty (unseen existing c.tables) then skipped else extended

-- AllPeerSources
unfoldable pub all_peer_sources : String → Map FederatedGroup → Map (List Table) → Map (List Table)
all_peer_sources self [] result = result
all_peer_sources self ((_, fg) ∷ gs) result =
    all_peer_sources self gs (add_sources self fg.contributions result)
