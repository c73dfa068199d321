-- ===== src/Discovery/Reverse.antt =====
-- internal/zonediscovery/reverse.go. `net.ParseIP` with To4 and To16 is a parameter.
pub mod Names
pub mod Found
use coredns_netbox.Base.{
  ℕ, ◌+◌, ◌-◌, ◌/◌, ◌%◌, Bool, true, false, not, ◌&&◌, ◌||◌, Option, none, some, List, [], ◌∷◌,
  arith, if◌then◌else◌, ltb, ◌==◌, nat_eq, length, take, drop,
}
use coredns_netbox.Base.Text.{Text, codes, text_eq, trim_suffix, split, join, dot}
use coredns_netbox.Record.{IpRecord, zero_record, is_cname}
use mathlib.Core.List.{reverse}
use coredns_netbox.Merge.{ZoneMap, Discoverer}
use coredns_netbox.Zonegen.Render.{decimal}
use coredns_netbox.Discovery.{place}

-- An address as the code sees it: four octets where To4 gives them, and else sixteen bytes.
pub data Ip : Type 0 where
  v4 : (a b c d : ℕ) → Ip
  v6 : List ℕ → Ip

-- `%x` of four bits
abbrev pub hex : ℕ → Text
hex n = (if ltb n 10 then n + b'0' else n - 10 + b'a') ∷ []

-- `nibbles` before it is reversed: the high one of each byte first.
unfoldable pub nibbles_of : List ℕ → List Text
nibbles_of [] = []
nibbles_of (b ∷ bytes) = hex (b / 16 % 16) ∷ hex (b % 16) ∷ nibbles_of bytes

-- The labels are the first ones of the address, as far as they go.
unfoldable pub begins : List Text → List Text → Bool
begins [] octets = true
begins (z ∷ zone) [] = false
begins (z ∷ zone) (o ∷ octets) = let rest = begins zone octets in if z == o then rest else false

abbrev pub in_addr_arpa : Text
in_addr_arpa = codes ".in-addr.arpa"

abbrev pub ip6_arpa : Text
ip6_arpa = codes ".ip6.arpa"

-- The labels of a configured zone, none where it has none.
abbrev pub zone_labels : Text → Text → Option (List Text)
zone_labels suffix zone =
    let parts = trim_suffix zone suffix in if parts == [] then none else some (split parts dot)

-- The best zone so far, with its depth.
abbrev pub Match : Type 0
Match = Text × ℕ

abbrev pub deeper : Bool → Text → ℕ → Match → Match
deeper matched zone depth best = if matched && ltb best.1 depth then (zone, depth) else best

-- The loop of `reverseIPv4` over the zones.
unfoldable pub match_v4 : List Text → List Text → Match → Match
match_v4 octets [] best = best
match_v4 octets (zone ∷ zones) best = elim (zone_labels in_addr_arpa zone) [
  | none ↦ match_v4 octets zones best
  | some labels ↦
      match_v4 octets zones (deeper (begins (reverse labels) octets) zone (length labels) best)
]

-- The loop of `reverseIPv6`; none is an index below 0, in a zone of more labels than nibbles.
unfoldable pub match_v6 : List Text → List Text → Match → Option Match
match_v6 nibbles [] best = some best
match_v6 nibbles (zone ∷ zones) best = elim (zone_labels ip6_arpa zone) [
  | none ↦ match_v6 nibbles zones best
  | some labels ↦
      if ltb (length nibbles) (length labels)
      then none
      else match_v6 nibbles zones (
          deeper (begins labels (drop (length nibbles - length labels) nibbles)) zone
            (length labels) best)
]

-- The zone and the name in it: the labels of the address that the zone does not have.
abbrev pub ptr_of : List Text → Match → Option (Text × Text)
ptr_of full (zone, depth) =
    if zone == [] then none else some (zone, join (take (length full - depth) full) dot)

unfoldable pub octets_of : ℕ → ℕ → ℕ → ℕ → List Text
octets_of a b c d = decimal a ∷ decimal b ∷ decimal c ∷ decimal d ∷ []

-- The error of an address that no zone has is none.
unfoldable pub reverse_ipv4 : List Text → Ip → Option (Text × Text)
reverse_ipv4 zones (v4 a b c d) =
    let octets = octets_of a b c d in ptr_of (reverse octets) (match_v4 octets zones ([], 0))
reverse_ipv4 zones (v6 bytes) = none

-- None is the panic, and none in the result the error.
unfoldable pub reverse_ipv6 : List Text → Ip → Option (Option (Text × Text))
reverse_ipv6 zones (v4 a b c d) = some none
reverse_ipv6 zones (v6 bytes) =
    let nibbles = reverse (nibbles_of bytes) in
    elim (match_v6 nibbles zones ([], 0)) [ none ↦ none | some m ↦ some (ptr_of nibbles m) ]

pub record ReverseZones : Type 0 where
  pub ipv4_zones : List Text
  pub ipv6_zones : List Text

-- The literal of the PTR record.
unfoldable pub ptr_record : IpRecord → Text → IpRecord
ptr_record rec ptr = record zero_record {
  dns_name = rec.dns_name;
  address = ptr;
  family = rec.family;
  device_name = rec.device_name;
  interface_name = rec.interface_name;
  vrf = rec.vrf;
}

module _ (parse_ip : Text → Option Ip) (d : ReverseZones) where
  -- The body of the loop of `Discover` up to the append.
  unfoldable pub reverse_of : IpRecord → Option (Option (Text × Text))
  reverse_of rec =
      if rec.dns_name == [] || is_cname rec then some none else elim (parse_ip rec.address) [
        | none ↦ some none
        | some ip ↦
            if rec.family == 4
            then some (reverse_ipv4 d.ipv4_zones ip)
            else if rec.family == 6
            then reverse_ipv6 d.ipv6_zones ip
            else some none
      ]

  unfoldable pub discover_loop : List IpRecord → ZoneMap → Option ZoneMap
  discover_loop [] zones = some zones
  discover_loop (rec ∷ records) zones = elim (reverse_of rec) [
    | none ↦ none
    | some none ↦ discover_loop records zones
    | some (some (zone, ptr)) ↦ discover_loop records (place zone (ptr_record rec ptr) zones)
  ]

  -- `ReverseZoneDiscoverer.Discover` never returns an error; none is the panic.
  unfoldable pub discover_reverse : Discoverer
  discover_reverse records = discover_loop records []
