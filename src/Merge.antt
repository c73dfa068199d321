-- ===== src/Merge.antt =====
-- internal/merge/merge.go: the zones of NetBox and those of the dynamic store become the zones that
-- are published. `Write` hands the result to the zone manager (Manager.antt).
pub mod Shadow
pub mod Reverse
mod Tests
use coredns_netbox.Base.{
  ◌+◌, not, Option, none, some, List, [], ◌∷◌, ◌++◌, arith, if◌then◌else◌, ◌==◌, nat_eq, length,
  keep, contains,
}
use coredns_netbox.Base.Text.{Text, text_eq}
use coredns_netbox.Base.Dict.{Dict, insert, lookup_or, has_key}
use coredns_netbox.Record.{IpRecord}
use coredns_netbox.Store.{FileStore, get_records, list_zones}

-- `zonediscovery.ZoneMap`
abbrev pub ZoneMap : Type 0
ZoneMap = Dict Text (List IpRecord)

-- `zonediscovery.Discoverer`; `none` is an error.
abbrev pub Discoverer : Type 0
Discoverer = List IpRecord → Option ZoneMap

-- The sets `dynByName` and `dynByAddr`.
abbrev pub names : List IpRecord → List Text
names [] = []
names (r ∷ rs) = r.dns_name ∷ names rs

abbrev pub addresses : List IpRecord → List Text
addresses [] = []
addresses (r ∷ rs) = r.address ∷ addresses rs

-- What `merged[zone]` becomes: the records that no dynamic record has the name of, and the dynamic
-- records behind them.
unfoldable pub shadow_names : List IpRecord → List IpRecord → List IpRecord
shadow_names netbox dyn = keep (λ r. not (contains (names dyn) r.dns_name)) netbox ++ dyn

unfoldable pub shadow_addresses : List IpRecord → List IpRecord → List IpRecord
shadow_addresses records ptrs =
    keep (λ r. not (contains (addresses ptrs) r.address)) records ++ ptrs

-- One round of the loop over `store.ListZones()`.
unfoldable pub merge_zone : Text → List IpRecord → ZoneMap → ZoneMap
unfolding shadow_names
merge_zone zone dyn merged =
    if length dyn == 0
    then (if has_key zone merged then merged else insert zone [] merged)
    else insert zone (shadow_names (lookup_or [] zone merged) dyn) merged

unfoldable pub merge_dynamic : List Text → FileStore → ZoneMap → ZoneMap
unfolding merge_zone
merge_dynamic [] store merged = merged
merge_dynamic (zone ∷ rest) store merged =
    merge_dynamic rest store (merge_zone zone (get_records zone store) merged)

-- `allDynamic`
unfoldable pub all_dynamic : List Text → FileStore → List IpRecord
all_dynamic [] store = []
all_dynamic (zone ∷ rest) store = get_records zone store ++ all_dynamic rest store

-- The loop over `dynReverseZones`.
unfoldable pub merge_reverse : ZoneMap → ZoneMap → ZoneMap
unfolding shadow_addresses
merge_reverse [] merged = merged
merge_reverse ((zone, ptrs) ∷ rest) merged =
    merge_reverse rest (insert zone (shadow_addresses (lookup_or [] zone merged) ptrs) merged)

-- `reverseDisc` may be nil; a failed discovery is logged and skipped.
add_reverse : Option Discoverer → List IpRecord → ZoneMap → ZoneMap
add_reverse none dyn merged = merged
add_reverse (some discover) [] merged = merged
add_reverse (some discover) (r ∷ rs) merged = elim (discover (r ∷ rs)) [
  | none ↦ merged
  | some reverse_zones ↦ merge_reverse reverse_zones merged
]

-- The zones that `Write` hands to `mgr.Update`.
unfoldable pub merged_zones : ZoneMap → FileStore → Option Discoverer → ZoneMap
unfolding add_reverse merge_dynamic merge_reverse all_dynamic
merged_zones netbox_zones store reverse_disc =
    let zones = list_zones store in
    add_reverse reverse_disc (all_dynamic zones store) (merge_dynamic zones store netbox_zones)
