-- ===== src/Discovery.antt =====
-- internal/zonediscovery: zone_depth.go, netbox_dns.go, cname_zones.go and strip_dc.go. The modules
-- below have the common suffix and the reverse zones.
pub mod Placed
pub mod Longest
pub mod Served
pub mod CommonSuffix
pub mod Above
pub mod Reverse
mod Tests
use coredns_netbox.Base.{
  ℕ, zero, suc, ◌+◌, ◌-◌, Bool, true, false, not, ◌&&◌, ◌||◌, Option, none, some, List, [], ◌∷◌,
  ◌++◌, map, arith, if◌then◌else◌, ltb, ◌==◌, nat_eq, length, take, drop, keep, all,
}
use coredns_netbox.Base.Text.{
  Text, text_eq, text_lt, has_suffix, trim_suffix, split, join, to_lower, dot,
}
use coredns_netbox.Base.Dict.{insert, lookup_or}
use coredns_netbox.Record.{IpRecord, is_cname}
use coredns_netbox.Merge.{ZoneMap, Discoverer}
use coredns_netbox.Zonegen.Order.{sort_by}

-- `zm[zone] = append(zm[zone], r)`
abbrev pub place : Text → IpRecord → ZoneMap → ZoneMap
place zone r zm = insert zone (lookup_or [] zone zm ++ r ∷ []) zm

-- The loop over the records: one without a zone is skipped, another is placed, or what is made of it.
unfoldable pub place_all : (IpRecord → Option (Text × IpRecord)) → List IpRecord → ZoneMap → ZoneMap
place_all f [] zm = zm
place_all f (r ∷ rs) zm = elim (f r) [
  | none ↦ place_all f rs zm
  | some (zone, s) ↦ place_all f rs (place zone s zm)
]

-- `strings.TrimSuffix(name, ".")`
abbrev pub undot : Text → Text
undot name = trim_suffix name (dot ∷ [])

abbrev pub labels_of : Text → List Text
labels_of name = split (undot name) dot

-- The last `depth` labels, or none where there are fewer.
unfoldable pub depth_zone : ℕ → IpRecord → Option (Text × IpRecord)
depth_zone depth r =
    let labels = labels_of r.dns_name in
    if ltb (length labels) depth
    then none
    else some (join (drop (length labels - depth) labels) dot, r)

-- `ZoneDepthDiscoverer.Discover`
unfoldable pub zone_depth : ℕ → Discoverer
zone_depth depth records =
    if ltb depth 2 then none else some (place_all (depth_zone depth) records [])

abbrev pub zone_matches : Text → Text → Bool
zone_matches fqdn z = fqdn == z || has_suffix fqdn (dot ∷ z)

-- The loop of `longestMatchingZone` over the zones, with the best so far.
unfoldable pub best_zone : Text → List Text → Text → Text
best_zone fqdn [] best = best
best_zone fqdn (z ∷ zones) best =
    best_zone fqdn zones (
      if zone_matches fqdn (undot z) && ltb (length best) (length (undot z)) then undot z else best)

unfoldable pub longest_matching_zone : Text → List Text → Text
longest_matching_zone fqdn zones = best_zone (undot fqdn) zones []

unfoldable pub netbox_zone : List Text → IpRecord → Option (Text × IpRecord)
netbox_zone zones r =
    let zone = longest_matching_zone (undot r.dns_name) zones in
    if zone == [] then none else some (zone, r)

-- `NetboxDNSDiscoverer.Discover`, over what `FetchZones` returns.
unfoldable pub netbox_dns : Option (List Text) → Discoverer
netbox_dns none records = none
netbox_dns (some zones) records = some (place_all (netbox_zone zones) records [])

-- A page of the zones of the NetBox DNS plugin: the names in it, and the URL of the next one.
pub record ZonePage : Type 0 where
  pub results : List Text
  pub next : Option Text

-- `FetchZones` for pages that the server gives by their URL; none in the result is an error. The
-- outer Option is none where the fuel runs out: nothing in the code bounds the number of pages.
unfoldable pub fetch_zones :
    (Text → Option ZonePage) → ℕ → Text → List Text → Option (Option (List Text))
fetch_zones page zero url zones = if url == [] then some (some zones) else none
fetch_zones page (suc fuel) url zones = elim (url == []) [
  | true ↦ some (some zones)
  | false ↦ elim (page url) [
    | none ↦ some none
    | some p ↦
        let more = zones ++ keep (λ z. not (z == [])) p.results in
        elim p.next [ none ↦ some (some more) | some u ↦ fetch_zones page fuel u more ]
  ]
]

-- `CNAMEOnlyZones`
unfoldable pub only_cnames : ZoneMap → List Text
only_cnames [] = []
only_cnames ((zone, recs) ∷ zm) =
    let rest = only_cnames zm in
    if not (length recs == 0) && all is_cname recs then zone ∷ rest else rest

unfoldable pub cname_only_zones : ZoneMap → List Text
cname_only_zones zm = sort_by text_lt (only_cnames zm)

-- `strings.EqualFold` on ASCII.
abbrev pub fold_eq : Text → Text → Bool
fold_eq a b = to_lower a == to_lower b

-- `stripDCFromName`: the label before the base domain is left out.
unfoldable pub strip_dc_from_name : Text → Text → Text
strip_dc_from_name name domain_suffix =
    let labels = labels_of name in
    let depth = length (split domain_suffix dot) in
    let dc = length labels - depth - 1 in
    if ltb (length labels) (depth + 2)
    then name
    else if not (fold_eq (join (drop (length labels - depth) labels) dot) domain_suffix)
    then name
    else join (take dc labels ++ drop (dc + 1) labels) dot

abbrev pub strip_record : Text → IpRecord → IpRecord
strip_record domain_suffix r = record r {
  dns_name = strip_dc_from_name r.dns_name domain_suffix;
  cname_target =
      if r.cname_target == [] then [] else strip_dc_from_name r.cname_target domain_suffix;
}

unfoldable pub strip_dc_label : Text → List IpRecord → List IpRecord
strip_dc_label domain_suffix = map (strip_record domain_suffix)
