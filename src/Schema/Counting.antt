-- ===== src/Schema/Counting.antt =====
-- include/synapse/detail/schema_validator.hpp: how `registration`'s sets and maps count for what is left.
use synapse_mcp.Base.{
  ◌≡◌, refl, sym, ap, subst, ◌∙◌, ◌≤◌, ◌<◌, Bool, true, false, not, List, [], ◌∷◌, none, some,
  Bytes, bytes_eq, bytes_eq_iff, any, map, map_find, is_some, arith,
}
use synapse_mcp.Schema.Nodes.{Address, Node, address_eq}
use synapse_mcp.Schema.Universe.{address_eq_sound, address_eq_refl}
use synapse_mcp.Schema.Registration.{Resource, is_member}
use synapse_mcp.Schema.Measure.{
  tally, tally_mono, tally_strict, any-map_find, Within, Within-any, is_inactive,
}

abbrev pub is_new : List Address → Node → Bool
is_new seen u = not (any (address_eq u.address) seen)

-- `inspected_.insert` of what is in the documents and was not inspected.
pub tally-is_new :
    (n : Node) (seen : List Address) (us : List Node)
    → Within us n
    → any (address_eq n.address) seen ≡ false
    → tally (is_new (n.address ∷ seen)) us < tally (is_new seen) us
tally-is_new n seen us own fresh =
    tally_strict (is_new (n.address ∷ seen)) (is_new seen) (λ u. address_eq n.address u.address)
      (λ u h. ground arith)
      (λ u h.
        subst (λ x. not (any (address_eq x) (n.address ∷ seen)) ≡ false)
          (address_eq_sound n.address u.address h) (ground (arith, address_eq_refl n.address)))
      (λ u h. ap not (
        subst (λ x. any (address_eq x) seen ≡ false) (address_eq_sound n.address u.address h)
          fresh))
      us (Within-any us n own)

abbrev pub is_absent : {V : Type 0} → List (Bytes × Resource) → Bytes × V → Bool
is_absent m c = not (is_some (map_find c.0 m))

pub tally-is_absent :
    {V : Type 0} (k : Bytes) (r : Resource) (m : List (Bytes × Resource))
    (catalog : List (Bytes × V))
    → tally (is_absent ((k, r) ∷ m)) catalog ≤ tally (is_absent m) catalog
unfolding map_find
tally-is_absent k r m catalog = tally_mono _ _ (λ c h. ground arith) catalog

-- `resources_.emplace` of an entry of the catalog that was not there.
pub tally-is_absent_entry :
    {V : Type 0} (k : Bytes) (v : V) (r : Resource) (m : List (Bytes × Resource))
    (catalog : List (Bytes × V))
    → map_find k m ≡ none
    → map_find k catalog ≡ some v
    → tally (is_absent ((k, r) ∷ m)) catalog < tally (is_absent m) catalog
unfolding map_find
tally-is_absent_entry k v r m catalog fresh found =
    tally_strict (is_absent ((k, r) ∷ m)) (is_absent m) (λ c. bytes_eq k c.0) (λ c h. ground arith)
      (λ c h. ground (arith, bytes_eq_iff k c.0, bytes_eq_iff c.0 k))
      (λ c h.
        subst (λ x. is_absent {V = Unit} m (x, tt) ≡ true) ((bytes_eq_iff k c.0).0 h)
          (ap (λ o. not (is_some o)) fresh))
      catalog (any-map_find k catalog (ap is_some found))

-- `active_dialects_.insert`.
pub tally-is_inactive :
    (k : Bytes) (active : List Bytes) (m : List (Bytes × Resource))
    → tally (is_inactive (k ∷ active)) m ≤ tally (is_inactive active) m
tally-is_inactive k active m = tally_mono _ _ (λ c h. ground arith) m

pub tally-is_inactive_found :
    (k : Bytes) (active : List Bytes) (m : List (Bytes × Resource))
    → is_member k active ≡ false
    → is_some (map_find k m) ≡ true
    → tally (is_inactive (k ∷ active)) m < tally (is_inactive active) m
tally-is_inactive_found k active m fresh found =
    tally_strict (is_inactive (k ∷ active)) (is_inactive active) (λ c. bytes_eq k c.0)
      (λ c h. ground arith) (λ c h. ground (arith, bytes_eq_iff k c.0, bytes_eq_iff c.0 k))
      (λ c h. ap not (subst (λ x. is_member x active ≡ false) ((bytes_eq_iff k c.0).0 h) fresh)) m
      (any-map_find k m found)

-- An entry that changes under its key.
module _ (f : Bytes × Resource → Bytes × Resource)
    (h : (c : Bytes × Resource) → (f c).0 ≡ c.0) where
  pub tally-map :
      (m : List (Bytes × Resource)) (active : List Bytes)
      → tally (is_inactive active) (map f m) ≡ tally (is_inactive active) m
  unfolding tally
  tally-map [] active = refl
  tally-map (c ∷ m) active = ground (arith, ap (λ k. is_member k active) (h c), tally-map m active)

  pub map_find-map :
      (m : List (Bytes × Resource)) (k : Bytes)
      → is_some (map_find k (map f m)) ≡ is_some (map_find k m)
  unfolding map_find
  map_find-map [] k = refl
  map_find-map (c ∷ m) k = ground (arith, ap (bytes_eq k) (h c), map_find-map m k)

  pub tally-is_absent-map :
      {V : Type 0} (m : List (Bytes × Resource)) (catalog : List (Bytes × V))
      → tally (is_absent (map f m)) catalog ≤ tally (is_absent m) catalog
  tally-is_absent-map m catalog =
      tally_mono _ _ (λ c found. ap not (sym (map_find-map m c.0)) ∙ found) catalog
