-- ===== src/Merge/Shadow.antt =====
-- Dynamic records shadow those of NetBox, zone by zone and name by name.
use coredns_netbox.Base.{
  ◌≡◌, refl, ap, ◌∙◌, ◌≢◌, false, not, ◌||◌, Option, none, some, List, [], ◌∷◌, ◌++◌, append-nil,
  arith, if◌then◌else◌, ◌==◌, nat_eq, keep, contains,
}
use coredns_netbox.Base.Text.{Text, text_eq}
use coredns_netbox.Base.Dict.{keys, insert, lookup_or, has_key, NodupKeys, lookup-insert}
use coredns_netbox.Record.{IpRecord}
use coredns_netbox.Store.{FileStore, get_records, list_zones}
use coredns_netbox.Store.Upsert.{find_name}
use coredns_netbox.Merge.{
  ZoneMap, Discoverer, names, shadow_names, shadow_addresses, merge_zone, merge_dynamic,
  merge_reverse, merged_zones, all_dynamic, add_reverse,
}

find_name-append :
    (n : Text) (xs ys : List IpRecord)
    → find_name n (xs ++ ys)
      ≡ elim (find_name n xs) as (λ _. Option IpRecord) [ none ↦ find_name n ys | some r ↦ some r ]
find_name-append n [] ys = refl
find_name-append n (x ∷ xs) ys = ground (arith, find_name-append n xs ys)

find_name_of_contains :
    (n : Text) (xs : List IpRecord) → contains (names xs) n ≡ false → find_name n xs ≡ none
find_name_of_contains n [] h = refl
find_name_of_contains n (x ∷ xs) h = ground (arith, find_name_of_contains n xs)

find_name-shadow_keep :
    (n : Text) (ns : List Text) (xs : List IpRecord)
    → find_name n (keep (λ r. not (contains ns r.dns_name)) xs)
      ≡ (if contains ns n then none else find_name n xs)
find_name-shadow_keep n ns [] = ground arith
find_name-shadow_keep n ns (x ∷ xs) = ground (arith, find_name-shadow_keep n ns xs)

-- The record found for a name is the dynamic one where there is one.
pub find_name-shadow_names :
    (n : Text) (netbox dyn : List IpRecord)
    → find_name n (shadow_names netbox dyn)
      ≡ (if contains (names dyn) n then find_name n dyn else find_name n netbox)
unfolding shadow_names
find_name-shadow_names n netbox dyn = ground (
  arith,
  find_name-append n (keep (λ (r : IpRecord). not (contains (names dyn) r.dns_name)) netbox) dyn,
  find_name-shadow_keep n (names dyn) netbox,
  find_name_of_contains n dyn,
)

keep_none_shadowed : (xs : List IpRecord) → keep (λ r. not (contains [] r.dns_name)) xs ≡ xs
keep_none_shadowed [] = refl
keep_none_shadowed (x ∷ xs) = ap (◌∷◌ x) (keep_none_shadowed xs)

pub shadow_names-nil : (xs : List IpRecord) → shadow_names xs [] ≡ xs
unfolding shadow_names
shadow_names-nil xs = append-nil _ ∙ keep_none_shadowed xs

lookup_or-merge_zone :
    (z zone : Text) (dyn : List IpRecord) (merged : ZoneMap)
    → lookup_or [] z (merge_zone zone dyn merged)
      ≡ (if z == zone then shadow_names (lookup_or [] z merged) dyn else lookup_or [] z merged)
unfolding merge_zone
lookup_or-merge_zone z zone [] merged =
    ground (arith, lookup-insert z zone [] merged, shadow_names-nil (lookup_or [] z merged))
lookup_or-merge_zone z zone (r ∷ rs) merged =
    ground (arith, lookup-insert z zone (shadow_names (lookup_or [] zone merged) (r ∷ rs)) merged)

has_key-merge_zone :
    (z zone : Text) (dyn : List IpRecord) (merged : ZoneMap)
    → has_key z (merge_zone zone dyn merged) ≡ (z == zone || has_key z merged)
unfolding merge_zone
has_key-merge_zone z zone [] merged = ground (arith, lookup-insert z zone [] merged)
has_key-merge_zone z zone (r ∷ rs) merged =
    ground (arith, lookup-insert z zone (shadow_names (lookup_or [] zone merged) (r ∷ rs)) merged)

-- No zone is listed twice.
abbrev NodupZones : List Text → Type 0
NodupZones [] = Unit
NodupZones (z ∷ zs) = (contains zs z ≡ false) × NodupZones zs

lookup_or-merge_dynamic :
    (zs : List Text) (z : Text) (store : FileStore) (merged : ZoneMap)
    → NodupZones zs
    → lookup_or [] z (merge_dynamic zs store merged) ≡ (
        if contains zs z
        then shadow_names (lookup_or [] z merged) (get_records z store)
        else lookup_or [] z merged)
unfolding merge_dynamic
lookup_or-merge_dynamic [] z store merged h = refl
lookup_or-merge_dynamic (zone ∷ zs) z store merged (fresh, h) = ground (
  arith,
  lookup_or-merge_dynamic zs z store (merge_zone zone (get_records zone store) merged) h,
  lookup_or-merge_zone z zone (get_records zone store) merged,
)

has_key-merge_dynamic :
    (zs : List Text) (z : Text) (store : FileStore) (merged : ZoneMap)
    → has_key z (merge_dynamic zs store merged) ≡ (contains zs z || has_key z merged)
unfolding merge_dynamic
has_key-merge_dynamic [] z store merged = refl
has_key-merge_dynamic (zone ∷ zs) z store merged = ground (
  arith,
  has_key-merge_dynamic zs z store (merge_zone zone (get_records zone store) merged),
  has_key-merge_zone z zone (get_records zone store) merged,
)

contains-keys : (z : Text) (d : ZoneMap) → contains (keys d) z ≡ has_key z d
contains-keys z [] = refl
contains-keys z ((k, v) ∷ d) = ground (arith, contains-keys z d)

keys-NodupZones : (d : ZoneMap) → NodupKeys d → NodupZones (keys d)
keys-NodupZones [] h = tt
keys-NodupZones ((k, v) ∷ d) (fresh, h) = (ground (arith, contains-keys k d), keys-NodupZones d h)

-- Without a reverse discoverer, the published zone `z` holds NetBox's records whose name no dynamic
-- record of `z` has, and behind them the dynamic records of `z`.
pub merged_zones-forward :
    (netbox : ZoneMap) (store : FileStore) (z : Text)
    → NodupKeys store.data_zones
    → lookup_or [] z (merged_zones netbox store none)
      ≡ shadow_names (lookup_or [] z netbox) (get_records z store)
unfolding merged_zones list_zones get_records
merged_zones-forward netbox store z h = ground (
  arith,
  lookup_or-merge_dynamic (keys store.data_zones) z store netbox
      (keys-NodupZones store.data_zones h),
  contains-keys z store.data_zones,
  shadow_names-nil (lookup_or [] z netbox),
)

-- Every zone of NetBox and every zone of the store is published, and no other, where there is no
-- reverse discoverer.
pub has_key-merged_zones :
    (netbox : ZoneMap) (store : FileStore) (z : Text)
    → has_key z (merged_zones netbox store none) ≡ (has_key z store.data_zones || has_key z netbox)
unfolding merged_zones list_zones
has_key-merged_zones netbox store z = ground (
  arith,
  has_key-merge_dynamic (keys store.data_zones) z store netbox,
  contains-keys z store.data_zones,
)

lookup_or-merge_reverse :
    (rev : ZoneMap) (z : Text) (merged : ZoneMap)
    → NodupKeys rev
    → lookup_or [] z (merge_reverse rev merged) ≡ (
        if has_key z rev
        then shadow_addresses (lookup_or [] z merged) (lookup_or [] z rev)
        else lookup_or [] z merged)
unfolding merge_reverse
lookup_or-merge_reverse [] z merged h = refl
lookup_or-merge_reverse ((zone, ptrs) ∷ rev) z merged (fresh, h) = ground (
  arith,
  lookup_or-merge_reverse rev z
      (insert zone (shadow_addresses (lookup_or [] zone merged) ptrs) merged) h,
  lookup-insert z zone (shadow_addresses (lookup_or [] zone merged) ptrs) merged,
)

add_reverse_found :
    (disc : Discoverer) (rev : ZoneMap) (dyn : List IpRecord) (merged : ZoneMap)
    → disc dyn ≡ some rev
    → dyn ≢ []
    → add_reverse (some disc) dyn merged ≡ merge_reverse rev merged
unfolding add_reverse
add_reverse_found disc rev [] merged found dynamic = absurd (dynamic refl)
add_reverse_found disc rev (r ∷ rs) merged found dynamic = rw found

merged_zones_found :
    (netbox : ZoneMap) (store : FileStore) (disc : Discoverer) (rev : ZoneMap)
    → disc (all_dynamic (list_zones store) store) ≡ some rev
    → all_dynamic (list_zones store) store ≢ []
    → merged_zones netbox store (some disc) ≡ merge_reverse rev (merged_zones netbox store none)
merged_zones_found netbox store disc rev found dynamic =
    unfold merged_zones in add_reverse_found disc rev _ _ found dynamic

-- With a reverse discoverer that finds the zones `rev` for the dynamic records, the published zone
-- `z` is the forward one, with its records shadowed by the PTR records of `rev` at the same address.
pub merged_zones-reverse :
    (netbox : ZoneMap) (store : FileStore) (disc : Discoverer) (rev : ZoneMap) (z : Text)
    → NodupKeys store.data_zones
    → NodupKeys rev
    → disc (all_dynamic (list_zones store) store) ≡ some rev
    → all_dynamic (list_zones store) store ≢ []
    → lookup_or [] z (merged_zones netbox store (some disc)) ≡ (
        if has_key z rev
        then shadow_addresses
            (shadow_names (lookup_or [] z netbox) (get_records z store))
            (lookup_or [] z rev)
        else shadow_names (lookup_or [] z netbox) (get_records z store))
merged_zones-reverse netbox store disc rev z h k found dynamic =
    rw (merged_zones_found netbox store disc rev found dynamic, lookup_or-merge_reverse rev z _ k)
      (rw (merged_zones-forward netbox store z h))
