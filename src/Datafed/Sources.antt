-- ===== src/Datafed/Sources.antt =====
-- internal/group_types/datafed/contributions.go: which tables of the peers a query can read.
use goop.Base.{
  Bool, true, false, ◌&&◌, ◌||◌, String, List, [], ◌∷◌, ◌++◌, none, ◌≡◌, ◌≢◌, refl, ◌∙◌, ◌==◌,
  arith, eq_iff,
}
use goop.Base.Map.{Map, lookup, insert, lookup-insert}
use goop.Datafed.{
  Table, Contribution, FederatedGroup, is_named, unseen, is_empty, tables_of, add_sources,
  all_peer_sources,
}

-- Does `p` offer a table of that name?
unfoldable pub offers_named : String → String → Map Contribution → Bool
offers_named n p [] = false
offers_named n p ((q, c) ∷ cs) = q == p && is_named n c.tables || offers_named n p cs

unfoldable pub offered_somewhere : String → String → Map FederatedGroup → Bool
offered_somewhere n p [] = false
offered_somewhere n p ((_, fg) ∷ gs) = offers_named n p fg.contributions || offered_somewhere n p gs

abbrev pub is_source : String → String → Map (List Table) → Bool
is_source n p result = is_named n (tables_of (lookup p result))

is_named-append :
    (n : String) (ts us : List Table) → is_named n (ts ++ us) ≡ is_named n ts || is_named n us
unfolding is_named
is_named-append n [] us = refl
is_named-append n (t ∷ ts) us = ground (arith, is_named-append n ts us)

is_named-unseen :
    (n : String) (seen ts : List Table)
    → is_named n seen || is_named n (unseen seen ts) ≡ is_named n seen || is_named n ts
unfolding is_named unseen
is_named-unseen n seen [] = refl
is_named-unseen n seen (t ∷ ts) = ground (arith, eq_iff t.name n, is_named-unseen n seen ts)

empty_unnamed : (n : String) (ts : List Table) → is_empty ts ≡ true → is_named n ts ≡ false
unfolding is_named is_empty
empty_unnamed n [] e = refl
empty_unnamed n (t ∷ ts) e = ground arith

extended_source :
    (n p q : String) (c : Contribution) (result : Map (List Table))
    → is_source n p (
        insert q
          (tables_of (lookup q result) ++ unseen (tables_of (lookup q result)) c.tables)
          result)
      ≡ is_source n p result || (q == p && is_named n c.tables)
unfolding tables_of
extended_source n p q c result =
    let existing = tables_of (lookup q result) in
    let new = unseen existing c.tables in
    ground (
      arith,
      eq_iff q p,
      lookup-insert q p (existing ++ new) result,
      is_named-append n existing new,
      is_named-unseen n existing c.tables,
    )

-- Where nothing is new, nothing is missing.
skipped_source :
    (n p q : String) (c : Contribution) (result : Map (List Table))
    → is_empty (unseen (tables_of (lookup q result)) c.tables) ≡ true
    → is_source n p result ≡ is_source n p result || (q == p && is_named n c.tables)
skipped_source n p q c result e =
    let existing = tables_of (lookup q result) in
    ground (
      arith,
      eq_iff q p,
      empty_unnamed n (unseen existing c.tables) e,
      is_named-unseen n existing c.tables,
    )

add_sources_lem :
    (self n p : String) (cs : Map Contribution) (result : Map (List Table))
    → p ≢ self
    → is_source n p (add_sources self cs result) ≡ is_source n p result || offers_named n p cs
unfolding add_sources offers_named
add_sources_lem self n p [] result h = ground arith
add_sources_lem self n p ((q, c) ∷ cs) result h =
    let existing = tables_of (lookup q result) in
    let added = existing ++ unseen existing c.tables in
    let skipped = add_sources_lem self n p cs result h in
    let extended = add_sources_lem self n p cs (insert q added result) h in
    ground (
      arith,
      eq_iff q p,
      eq_iff q self,
      extended_source n p q c result,
      skipped_source n p q c result,
    )

add_sources_self :
    (self : String) (cs : Map Contribution) (result : Map (List Table))
    → lookup self (add_sources self cs result) ≡ lookup self result
unfolding add_sources
add_sources_self self [] result = refl
add_sources_self self ((q, c) ∷ cs) result =
    let existing = tables_of (lookup q result) in
    let added = existing ++ unseen existing c.tables in
    ground (
      arith,
      eq_iff q self,
      lookup-insert q self added result,
      add_sources_self self cs result,
      add_sources_self self cs (insert q added result),
    )

all_peer_sources-from :
    (self n p : String) (gs : Map FederatedGroup) (result : Map (List Table))
    → p ≢ self
    → is_source n p (all_peer_sources self gs result)
      ≡ is_source n p result || offered_somewhere n p gs
unfolding all_peer_sources offered_somewhere
all_peer_sources-from self n p [] result h = ground arith
all_peer_sources-from self n p ((_, fg) ∷ gs) result h = ground (
  arith,
  all_peer_sources-from self n p gs (add_sources self fg.contributions result) h,
  add_sources_lem self n p fg.contributions result h,
)

all_peer_sources_self :
    (self : String) (gs : Map FederatedGroup) (result : Map (List Table))
    → lookup self (all_peer_sources self gs result) ≡ lookup self result
unfolding all_peer_sources
all_peer_sources_self self [] result = refl
all_peer_sources_self self ((_, fg) ∷ gs) result =
    all_peer_sources_self self gs (add_sources self fg.contributions result)
    ∙ add_sources_self self fg.contributions result

-- For a peer that is not this node, AllPeerSources names a table under it exactly when the peer contributes a table of that
-- name to some group, and it has nothing under this node.
pub all_peer_sources_lem :
    (self n p : String) (gs : Map FederatedGroup)
    → p ≢ self
    → (is_source n p (all_peer_sources self gs []) ≡ offered_somewhere n p gs)
      × (lookup self (all_peer_sources self gs []) ≡ none)
unfolding lookup is_named tables_of
all_peer_sources_lem self n p gs h =
    (all_peer_sources-from self n p gs [] h, all_peer_sources_self self gs [])
