-- ===== src/Discovery/CommonSuffix.antt =====
-- internal/zonediscovery/common_suffix.go.
use coredns_netbox.Base.{
  ℕ, suc, ◌-◌, ◌&&◌, Option, none, some, List, [], ◌∷◌, ◌++◌, if◌then◌else◌, ltb, ◌==◌, nat_eq,
  length, take, drop, all,
}
use coredns_netbox.Base.Text.{Text, text_eq, split, join, dot}
use coredns_netbox.Base.Dict.{Dict, insert, lookup_or}
use coredns_netbox.Record.{IpRecord}
use mathlib.Core.List.{reverse}
use coredns_netbox.Merge.{ZoneMap, Discoverer}
use coredns_netbox.Discovery.{undot, labels_of}

-- `rev`: the labels, the top-level domain first.
abbrev pub reversed_labels : IpRecord → List Text
reversed_labels r = reverse (labels_of r.dns_name)

-- How many of the first labels agree.
unfoldable pub agreeing : List Text → List Text → ℕ
agreeing (a ∷ rev) (b ∷ ref) = let rest = agreeing rev ref in if a == b then suc rest else 0
agreeing rev ref = 0

-- The loop over the records behind the first.
unfoldable pub common_len : List Text → List IpRecord → ℕ → ℕ
common_len ref [] n = n
common_len ref (r ∷ rs) n = common_len ref rs (agreeing (take n (reversed_labels r)) (take n ref))

-- The zone of the first `n` reversed labels.
abbrev pub zone_of : List Text → ℕ → Text
zone_of ref n = join (reverse (take n ref)) dot

-- The end of `commonSuffix`: a zone that equals every name is cut to its last two labels.
unfoldable pub cut_zone : List IpRecord → Text → Text
cut_zone records zone =
    let labels = split zone dot in
    if all (λ r. undot r.dns_name == zone) records && ltb 2 (length labels)
    then join (drop (length labels - 2) labels) dot
    else zone

unfoldable pub common_suffix : List IpRecord → Text
common_suffix [] = []
common_suffix (r ∷ rs) =
    let ref = reversed_labels r in
    let n = common_len ref rs (length ref) in
    if ltb n 2
    then (if ltb (length ref) 2 then [] else cut_zone (r ∷ rs) (zone_of ref 2))
    else cut_zone (r ∷ rs) (zone_of ref n)

-- The last label, where there are two.
unfoldable pub tld_of : IpRecord → Option Text
tld_of r = elim (reversed_labels r) [
  | [] ↦ none
  | tld ∷ labels ↦ if length labels == 0 then none else some tld
]

unfoldable pub tld_groups : List IpRecord → Dict Text (List IpRecord) → Dict Text (List IpRecord)
tld_groups [] groups = groups
tld_groups (r ∷ rs) groups = elim (tld_of r) [
  | none ↦ tld_groups rs groups
  | some tld ↦ tld_groups rs (insert tld (lookup_or [] tld groups ++ r ∷ []) groups)
]

-- The loop over the groups.
unfoldable pub zones_of_groups : Dict Text (List IpRecord) → ZoneMap → ZoneMap
zones_of_groups [] zm = zm
zones_of_groups ((_, group) ∷ groups) zm =
    let zone = common_suffix group in
    zones_of_groups groups
      (if zone == [] then zm else insert zone (lookup_or [] zone zm ++ group) zm)

-- `CommonSuffixDiscoverer.Discover`
unfoldable pub discover_common : Discoverer
discover_common records = some (zones_of_groups (tld_groups records []) [])
