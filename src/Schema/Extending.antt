-- ===== src/Schema/Extending.antt =====
-- include/synapse/detail/schema_validator.hpp: `registration::inspect`, what its parts before the
-- schemas below add.
use synapse_mcp.Base.{
  ◌≡◌, refl, ◌+◌, ◌≤◌, true, false, List, [], ◌∷◌, ◌++◌, Option, none, some, Bytes, ascii,
  if◌then◌else◌, length-append, map, map_find, is_some, arith, ◌∙◌,
}
use synapse_mcp.Json.{Json, JsonLibrary}
use synapse_mcp.Schema.Backend.{SchemaEngine, done, refused}
use synapse_mcp.Schema.Nodes.{Address, Node, address_eq, member_node}
use synapse_mcp.Schema.Throughout.{Throughout, Throughout-own}
use synapse_mcp.Schema.Registration.{
  Resource, Registration, resource_uri, rebase, placed, identified, identify, new_anchor, anchored,
  add_anchor, referenced, add_reference,
}
use synapse_mcp.Schema.Inspection.{mark, is_inspected, add_resource}
use synapse_mcp.Schema.Measure.{tally, Within, depth, backlog}
use synapse_mcp.Schema.Counting.{
  tally-is_new, tally-is_absent, tally-map, map_find-map, tally-is_absent-map,
}
use synapse_mcp.Schema.Growth.{
  Fine, fine, refuses, ◌>>-◌, Placed, AllWithin, Grows, Grows-refl, Grows-trans,
}
use synapse_mcp.Schema.Additions.{get_elem-append, Ends-or_thrown, Ends-text_of, Ends-uri_key}

module _ {U J E : Type 0} (lib : JsonLibrary) (e : SchemaEngine U J E) where
  module _ (us : List Node) (catalog : List (Bytes × Json)) where
    pub depth-mark :
        (n : Node) (s : Registration U J) (a : List Bytes)
        → Throughout (Within us) n
        → is_inspected lib e n s ≡ false
        → depth us catalog a (mark lib e n s) + 2 ≤ depth us catalog a s
    unfolding depth
    depth-mark n s a own fresh =
        omega (arith, tally-is_new n s.inspected us (Throughout-own (Within us) n own) fresh)

    pub backlog-mark :
        (n : Node) (s : Registration U J)
        → Throughout (Within us) n
        → is_inspected lib e n s ≡ false
        → backlog us (mark lib e n s) + 2 ≤ backlog us s
    unfolding backlog
    backlog-mark n s own fresh =
        omega (arith, tally-is_new n s.inspected us (Throughout-own (Within us) n own) fresh)

    AllWithin-rebase :
        (a : Address) (base : Bytes) (m : List (Bytes × Resource))
        → AllWithin lib e us catalog m
        → AllWithin lib e us catalog (map (rebase lib e a base) m)
    AllWithin-rebase a base [] all = tt
    AllWithin-rebase a base ((k, r) ∷ m) (own, all) = (
      elim (address_eq r.node.address a)
          as (λ b. Throughout (Within us) (if b then record r { base = base } else r).node) [
            | true ↦ own
            | false ↦ own
          ],
      AllWithin-rebase a base m all,
    )

    Grows-rebase :
        (n : Node) (base : Bytes) (s : Registration U J)
        → Placed lib e us catalog s
        → Grows lib e us catalog 0 0 s
            (record s { resources = map (rebase lib e n.address base) s.resources })
    unfolding depth backlog
    Grows-rebase n base s all =
        let f = rebase lib e n.address base in
        record {
          active = refl;
          depth_le = λ a. omega (
            arith,
            tally-map f (λ c. refl) s.resources a,
            tally-is_absent-map f (λ c. refl) s.resources catalog,
          );
          backlog_le = omega arith;
          references_le = omega arith;
          places = (AllWithin-rebase n.address base s.resources all.0, all.1);
          kept = λ k found. map_find-map f (λ c. refl) s.resources k ∙ found;
          begins = λ i u found. found;
        }

    Grows-add_resource :
        (k : Bytes) (n : Node) (base : Bytes) (s : Registration U J)
        → Throughout (Within us) n
        → Placed lib e us catalog s
        → Grows lib e us catalog 1 0 s (add_resource lib e k (record { node = n; base = base }) s)
    unfolding depth backlog tally map_find
    Grows-add_resource k n base s own all = record {
      active = refl;
      depth_le = λ a.
          let left = tally-is_absent k (record { node = n; base = base }) s.resources catalog in
          ground (arith, left);
      backlog_le = omega arith;
      references_le = omega arith;
      places = ((own, all.0), all.1);
      kept = λ i found. ground arith;
      begins = λ i u found. found;
    }

    Grows-placed :
        (k : Bytes) (n : Node) (base : Bytes) (o : Option Resource) (s : Registration U J)
        → Throughout (Within us) n
        → Placed lib e us catalog s
        → Fine (Grows lib e us catalog 1 0 s) (placed lib e k n base o s)
    Grows-placed k n base none s own all = fine (Grows-add_resource k n base s own all)
    Grows-placed k n base (some r) s own all =
        elim (address_eq r.node.address n.address)
          as (λ b.
            Fine (Grows lib e us catalog 1 0 s)
              (if b then done s else refused (ascii "Duplicate schema resource identifier"))) [
                | true ↦ fine (Grows-refl lib e us catalog 1 0 s all)
                | false ↦ refuses
              ]

    Grows-identified :
        (base : Bytes) (n : Node) (id : Option Node) (s : Registration U J)
        → Throughout (Within us) n
        → Placed lib e us catalog s
        → Fine (λ r. Grows lib e us catalog 1 0 s r.1) (identified lib e base n id s)
    Grows-identified base n none s own all = fine (Grows-refl lib e us catalog 1 0 s all)
    Grows-identified base n (some id) s own all = Ends-text_of id.value >>- λ text _.
        Ends-or_thrown (e.parse_uri base) >>- λ from _.
        Ends-or_thrown (e.parse_uri text) >>- λ relative _.
        let base' = e.uri_string (resource_uri lib e (e.resolve_uri from relative)) in
        Ends-uri_key lib e base' >>- λ k _.
        let g = Grows-rebase n base' s all in
        Grows-placed k n base' _ _ own g.places >>- λ t h.
        fine (Grows-trans lib e us catalog 0 0 1 0 s _ t g h)

    pub Grows-identify :
        (base : Bytes) (n : Node) (s : Registration U J)
        → Throughout (Within us) n
        → Placed lib e us catalog s
        → Fine (λ r. Grows lib e us catalog 1 0 s r.1) (identify lib e base n s)
    unfolding identify
    Grows-identify base n s own all =
        Grows-identified base n (member_node n (ascii "$id")) s own all

    Grows-new_anchor :
        (k : Bytes) (a : Address) (s : Registration U J)
        → Placed lib e us catalog s
        → Grows lib e us catalog 0 0 s (new_anchor lib e k a s)
    unfolding depth backlog
    Grows-new_anchor k a s all =
        elim (is_some (map_find k s.anchors))
          as (λ b.
            Grows lib e us catalog 0 0 s
              (if b then s else record s { anchors = (k, a) ∷ s.anchors })) [
                | true ↦ Grows-refl lib e us catalog 0 0 s all
                | false ↦ record {
                  active = refl;
                  depth_le = λ x. omega arith;
                  backlog_le = omega arith;
                  references_le = omega arith;
                  places = all;
                  kept = λ i found. found;
                  begins = λ i u found. found;
                }
              ]

    Grows-anchored :
        (base : Bytes) (n : Node) (o : Option Node) (s : Registration U J)
        → Placed lib e us catalog s
        → Fine (Grows lib e us catalog 0 0 s) (anchored lib e base n o s)
    Grows-anchored base n none s all = fine (Grows-refl lib e us catalog 0 0 s all)
    Grows-anchored base n (some anchor) s all = Ends-text_of anchor.value >>- λ text _.
        Ends-uri_key lib e (base ++ ascii "#" ++ text) >>- λ k _.
        fine (Grows-new_anchor k n.address s all)

    pub Grows-add_anchor :
        (base : Bytes) (n : Node) (name : Bytes) (s : Registration U J)
        → Placed lib e us catalog s
        → Fine (Grows lib e us catalog 0 0 s) (add_anchor lib e base n name s)
    unfolding add_anchor
    Grows-add_anchor base n name s all = Grows-anchored base n (member_node n name) s all

    Grows-referenced :
        (base : Bytes) (o : Option Node) (s : Registration U J)
        → Placed lib e us catalog s
        → Fine (Grows lib e us catalog 0 1 s) (referenced lib e base o s)
    unfolding depth backlog
    Grows-referenced base none s all = fine (Grows-refl lib e us catalog 0 1 s all)
    Grows-referenced base (some reference) s all = Ends-text_of reference.value >>- λ text _.
        Ends-or_thrown (e.parse_uri base) >>- λ from _.
        Ends-or_thrown (e.parse_uri text) >>- λ relative _.
        let more = length-append s.references (e.resolve_uri from relative ∷ []) in
        fine (record {
          active = refl;
          depth_le = λ x. omega arith;
          backlog_le = omega (arith, more);
          references_le = omega (arith, more);
          places = all;
          kept = λ i found. found;
          begins = λ i u found. get_elem-append s.references _ i u found;
        })

    pub Grows-add_reference :
        (base : Bytes) (n : Node) (name : Bytes) (s : Registration U J)
        → Placed lib e us catalog s
        → Fine (Grows lib e us catalog 0 1 s) (add_reference lib e base n name s)
    unfolding add_reference
    Grows-add_reference base n name s all = Grows-referenced base (member_node n name) s all
