-- ===== src/Discovery/Tests.antt =====
-- Runs of the discoverers of internal/zonediscovery.
use coredns_netbox.Base.{
  ◌≡◌, refl, sym, ◌∙◌, ◌≢◌, ◌&&◌, none, some, List, [], ◌∷◌, ◌++◌, arith, ◌==◌, nat_eq, ==_refl,
  keep, All,
}
use coredns_netbox.Base.Text.{
  Text, codes, text_eq, before_suffix, has_suffix, trim_suffix, split, join, to_lower, dot,
}
use coredns_netbox.Base.Dict.{Dict, lookup, lookup_or}
use coredns_netbox.Record.{IpRecord, zero_record}
use mathlib.Core.List.{reverse}
use coredns_netbox.Base.Words.{IsUnder}
use coredns_netbox.Discovery.{
  undot, zone_depth, best_zone, longest_matching_zone, strip_dc_from_name,
}
use coredns_netbox.Discovery.Placed.{deep_enough, last_labels, zone_depth-keep}
use coredns_netbox.Discovery.Served.{origin, Serves, serve_dns-longest_matching_zone}
use coredns_netbox.Discovery.CommonSuffix.{common_suffix, common_len, agreeing, cut_zone}
use coredns_netbox.Discovery.Above.{common_suffix-IsUnder}
use coredns_netbox.Discovery.Reverse.{
  Ip, v4, v6, begins, match_v4, match_v6, octets_of, nibbles_of, reverse_ipv4, reverse_ipv6,
  in_addr_arpa, ip6_arpa,
}
use coredns_netbox.Discovery.Reverse.Found.{
  PtrIn, reverse_ipv4-PtrIn, reverse_ipv6-PtrIn, reverse_ipv6_fits,
}
use coredns_netbox.Plugin.{Dns, Rr, Zone, Question, answer, written, reply, serve_dns}
use coredns_netbox.Zonegen.Render.{decimal}

abbrev named : Text → IpRecord
named name = record zero_record { dns_name = name; family = 4 }

abbrev db1 : IpRecord
db1 = named (codes "db1.nyc.example.org")

abbrev db2 : IpRecord
db2 = named (codes "db2.nyc.example.org.")

-- The poll finds the zone of both, and the webhook, which discovers one record alone, another zone.
poll_zone : common_suffix (db1 ∷ db2 ∷ []) ≡ codes "nyc.example.org"
unfolding common_suffix common_len agreeing split trim_suffix text_eq nat_eq cut_zone join
poll_zone = refl

webhook_zone : common_suffix (db1 ∷ []) ≡ codes "example.org"
unfolding common_suffix common_len split trim_suffix text_eq nat_eq cut_zone join
webhook_zone = refl

-- Two domains under one top-level domain fall into the zone of the first.
one_tld :
    common_suffix (named (codes "a.example.org") ∷ named (codes "b.other.org") ∷ [])
    ≡ codes "example.org"
unfolding common_suffix common_len agreeing split trim_suffix text_eq nat_eq cut_zone join
one_tld = refl

-- The reverse name of 10.1.2.3 in the longest zone.
reverse_run :
    reverse_ipv4 (codes "10.in-addr.arpa" ∷ codes "1.10.in-addr.arpa" ∷ []) (v4 10 1 2 3)
    ≡ some (codes "1.10.in-addr.arpa", codes "3.2")
unfolding reverse_ipv4 text_eq match_v4 trim_suffix begins split nat_eq octets_of decimal join
reverse_run = refl

abbrev doc_address : Ip
doc_address = v6 (0x20 ∷ 1 ∷ 0xd ∷ 0xb8 ∷ 0 ∷ 0 ∷ 0 ∷ 0 ∷ 0 ∷ 0 ∷ 0 ∷ 0 ∷ 0 ∷ 0 ∷ 0 ∷ 1 ∷ [])

reverse6_run :
    reverse_ipv6 (codes "8.b.d.0.1.0.0.2.ip6.arpa" ∷ []) doc_address
    ≡ some (
        some (
          codes "8.b.d.0.1.0.0.2.ip6.arpa",
          codes "1.0.0.0.0.0.0.0.0.0.0.0.0.0.0.0.0.0.0.0.0.0.0.0",
        ))
unfolding reverse_ipv6 match_v6 text_eq trim_suffix nibbles_of split nat_eq begins join
reverse6_run = refl

-- A configured zone of 33 labels makes the process index out of range.
too_long_zone :
    reverse_ipv6
      (codes "0.0.0.0.0.0.0.0.0.0.0.0.0.0.0.0.0.0.0.0.0.0.0.0.8.b.d.0.1.0.0.0.2.ip6.arpa" ∷ [])
      doc_address
    ≡ none
unfolding reverse_ipv6 match_v6 text_eq trim_suffix nibbles_of split nat_eq
too_long_zone = refl

stripped :
    strip_dc_from_name (codes "db1.nyc.example.org") (codes "example.org") ≡ codes "db1.example.org"
unfolding strip_dc_from_name split trim_suffix text_eq nat_eq to_lower join
stripped = refl

zone_depth-keep_run :
    (zm : Dict Text (List IpRecord)) × (zone_depth 2 (db1 ∷ []) ≡ some zm)
    × ((zone : Text)
        → lookup_or [] zone zm
          ≡ keep (λ r. deep_enough 2 r.dns_name && zone == last_labels 2 r.dns_name) (db1 ∷ []))
zone_depth-keep_run = zone_depth-keep 2 (db1 ∷ []) (omega arith)

abbrev orgs : List Text
orgs = codes "example.org" ∷ []

abbrev org_zone : Zone
org_zone = record { pointer = 0; origin = codes "example.org."; records = [] }

abbrev org_served : Dict Text Zone
org_served = (codes "example.org.", org_zone) ∷ []

org_origin : origin (codes "example.org") ≡ codes "example.org."
unfolding trim_suffix text_eq
org_origin = refl

orgs-Serves : Serves orgs org_served
unfolding Serves
orgs-Serves = (
  λ z h.
      let same : z ≡ codes "example.org" = ground (arith, h) in
      (org_zone, rw (same, org_origin) (rw (==_refl (codes "example.org.")) refl)),
  λ o y h.
      let same : o ≡ codes "example.org." = ground (arith, h) in
      (codes "example.org", rw (==_refl (codes "example.org")) refl, org_origin ∙ sym same),
)

abbrev plain_dns : Dns
plain_dns = record { fqdn = λ s. s; parse = λ origin filename data_. none }

abbrev asked : Question
asked = record { name = codes "DB1.nyc.Example.ORG."; qtype = 1 }

serve_dns-longest_matching_zone_example :
    (y : Zone) × (l : List Rr) × (lookup
        (longest_matching_zone (codes "db1.nyc.example.org") orgs ++ dot ∷ [])
        org_served
      ≡ some y)
    × (answer plain_dns y (to_lower asked.name) 1 ≡ some l)
    × (serve_dns plain_dns org_served (some asked)
        ≡ some (written (reply y (to_lower asked.name) l)))
serve_dns-longest_matching_zone_example =
    serve_dns-longest_matching_zone plain_dns orgs org_served (codes "db1.nyc.example.org") asked
      orgs-Serves
      (λ h.
        unfold longest_matching_zone best_zone trim_suffix before_suffix has_suffix text_eq
          nat_eq in
        cc)
      (unfold to_lower trim_suffix before_suffix text_eq nat_eq in refl)

reverse_ipv4-PtrIn_example :
    PtrIn in_addr_arpa
      (reverse (octets_of 10 1 2 3))
      (codes "10.in-addr.arpa" ∷ codes "1.10.in-addr.arpa" ∷ [])
      (codes "1.10.in-addr.arpa")
      (codes "3.2")
reverse_ipv4-PtrIn_example =
    reverse_ipv4-PtrIn (codes "10.in-addr.arpa" ∷ codes "1.10.in-addr.arpa" ∷ []) 10 1 2 3
      (codes "1.10.in-addr.arpa") (codes "3.2")
      (unfold has_suffix before_suffix nat_eq text_eq in (refl, (refl, tt))) reverse_run

reverse_ipv6-PtrIn_run :
    PtrIn ip6_arpa
      (reverse
        (nibbles_of (0x20 ∷ 1 ∷ 0xd ∷ 0xb8 ∷ 0 ∷ 0 ∷ 0 ∷ 0 ∷ 0 ∷ 0 ∷ 0 ∷ 0 ∷ 0 ∷ 0 ∷ 0 ∷ 1 ∷ [])))
      (codes "8.b.d.0.1.0.0.2.ip6.arpa" ∷ [])
      (codes "8.b.d.0.1.0.0.2.ip6.arpa")
      (codes "1.0.0.0.0.0.0.0.0.0.0.0.0.0.0.0.0.0.0.0.0.0.0.0")
reverse_ipv6-PtrIn_run =
    reverse_ipv6-PtrIn (codes "8.b.d.0.1.0.0.2.ip6.arpa" ∷ [])
      (0x20 ∷ 1 ∷ 0xd ∷ 0xb8 ∷ 0 ∷ 0 ∷ 0 ∷ 0 ∷ 0 ∷ 0 ∷ 0 ∷ 0 ∷ 0 ∷ 0 ∷ 0 ∷ 1 ∷ [])
      (codes "8.b.d.0.1.0.0.2.ip6.arpa") (codes "1.0.0.0.0.0.0.0.0.0.0.0.0.0.0.0.0.0.0.0.0.0.0.0")
      (unfold has_suffix before_suffix nat_eq text_eq in (refl, tt)) reverse6_run

reverse_ipv6_fits_run :
    reverse_ipv6
      (codes "8.b.d.0.1.0.0.2.ip6.arpa" ∷ [])
      (v6 (0x20 ∷ 1 ∷ 0xd ∷ 0xb8 ∷ 0 ∷ 0 ∷ 0 ∷ 0 ∷ 0 ∷ 0 ∷ 0 ∷ 0 ∷ 0 ∷ 0 ∷ 0 ∷ 1 ∷ []))
    ≢ none
reverse_ipv6_fits_run =
    reverse_ipv6_fits (codes "8.b.d.0.1.0.0.2.ip6.arpa" ∷ [])
      (0x20 ∷ 1 ∷ 0xd ∷ 0xb8 ∷ 0 ∷ 0 ∷ 0 ∷ 0 ∷ 0 ∷ 0 ∷ 0 ∷ 0 ∷ 0 ∷ 0 ∷ 0 ∷ 1 ∷ [])
      (unfold split trim_suffix before_suffix nat_eq text_eq nibbles_of in (omega arith, tt))

common_suffix-IsUnder_example :
    All (λ s. IsUnder (common_suffix (db1 ∷ db2 ∷ [])) (undot s.dns_name)) (db1 ∷ db2 ∷ [])
common_suffix-IsUnder_example =
    common_suffix-IsUnder db1 (db2 ∷ [])
      (unfold common_len agreeing split trim_suffix before_suffix nat_eq text_eq in omega arith)
