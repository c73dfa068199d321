-- ===== src/Zonegen/Render.antt =====
-- The text of a zone file, from internal/zonegen/generator.go. A file is the list of its lines,
-- each of which ends in a newline.
use coredns_netbox.Base.{
  ℕ, zero, suc, ◌+◌, ◌/◌, ◌%◌, List, [], ◌∷◌, ◌++◌, map, if◌then◌else◌, ltb, ◌==◌, nat_eq, any,
  contains,
}
use coredns_netbox.Base.Text.{Text, codes, text_eq, has_suffix, trim_suffix, dot}
use coredns_netbox.Record.{IpRecord, is_cname}

-- `%d`; the fuel exceeds the number of digits.
unfoldable pub decimal_fuel : ℕ → ℕ → Text
decimal_fuel zero n = []
decimal_fuel (suc f) n =
    let rest = decimal_fuel f (n / 10) in
    if ltb n 10 then (48 + n) ∷ [] else rest ++ (48 + n % 10) ∷ []

unfoldable pub decimal : ℕ → Text
unfolding decimal_fuel
decimal n = decimal_fuel (suc n) n

-- `%-9d`
pad_to : ℕ → Text → Text
pad_to zero s = s
pad_to (suc n) [] = b' ' ∷ pad_to n []
pad_to (suc n) (c ∷ s) = c ∷ pad_to n s

unfoldable pub padded : ℕ → Text
unfolding pad_to
padded n = pad_to 9 (decimal n)

pub data ZoneType : Type 0 where
  forward reverse : ZoneType

pub record SoaTimers : Type 0 where
  pub refresh : ℕ
  pub retry : ℕ
  pub expire : ℕ
  pub minimum : ℕ

abbrev pub default_soa_timers : SoaTimers
default_soa_timers = record { refresh = 3600; retry = 900; expire = 604800; minimum = 86400 }

pub record ZoneConfig : Type 0 where
  pub origin : Text
  pub primary_ns : Text
  pub admin_email : Text
  pub ttl : ℕ
  pub type : ZoneType
  pub soa : SoaTimers
  pub primary_ns_ip : Text

unfoldable pub ensure_trailing_dot : Text → Text
ensure_trailing_dot s = if has_suffix s (dot ∷ []) then s else s ++ dot ∷ []

unfoldable pub short_name : Text → Text → Text
unfolding ensure_trailing_dot
short_name fqdn origin =
    let full = ensure_trailing_dot fqdn in
    if full == origin
    then codes "@"
    else if has_suffix full (dot ∷ origin)
    then trim_suffix full (dot ∷ origin)
    else full

-- `writePrimaryNSAddress`: the lines that it appends.
unfoldable pub primary_ns_lines : ZoneConfig → List IpRecord → Text → List Text
unfolding short_name
primary_ns_lines c records origin =
    let ns_name = trim_suffix c.primary_ns (dot ∷ []) in
    let short = short_name ns_name origin in
    if has_suffix short (dot ∷ [])
    then []
    else if any (λ r. trim_suffix r.dns_name (dot ∷ []) == ns_name) records
    then []
    else (short
        ++ codes " IN "
        ++ (if contains c.primary_ns_ip b':' then codes "AAAA" else codes "A")
        ++ codes " "
        ++ c.primary_ns_ip)
      ∷ []
      ∷ []

-- `%s IN PTR %s`
unfoldable pub ptr_line : IpRecord → Text
unfolding ensure_trailing_dot
ptr_line r =
    (if r.address == [] then codes "@" else r.address)
    ++ codes " IN PTR "
    ++ ensure_trailing_dot r.dns_name

-- `%s %d IN %s %s`, or without the TTL.
unfoldable pub address_line : Text → IpRecord → Text
unfolding short_name ensure_trailing_dot decimal
address_line origin r =
    let rr_type =
      if is_cname r then codes "CNAME" else if r.family == 6 then codes "AAAA" else codes "A" in
    let value = if is_cname r then ensure_trailing_dot r.cname_target else r.address in
    short_name r.dns_name origin
    ++ (if ltb 0 r.ttl then codes " " ++ decimal r.ttl else [])
    ++ codes " IN "
    ++ rr_type
    ++ codes " "
    ++ value

-- The lines of the SOA record behind its serial.
unfoldable pub soa_tail : ZoneConfig → List Text
unfolding padded
soa_tail c =
    (codes "    " ++ padded c.soa.refresh ++ codes " ; refresh")
    ∷ (codes "    " ++ padded c.soa.retry ++ codes " ; retry")
    ∷ (codes "    " ++ padded c.soa.expire ++ codes " ; expire")
    ∷ (codes "    " ++ padded c.soa.minimum ++ codes " ; minimum")
    ∷ codes ")"
    ∷ []
    ∷ (codes "@ IN NS " ++ c.primary_ns)
    ∷ []
    ∷ []

unfoldable pub serial_line : ℕ → Text
serial_line serial = codes "    " ++ decimal serial ++ codes "   ; serial"

abbrev pub record_lines : ZoneType → Text → List IpRecord → List Text
record_lines ZoneType.reverse origin = map ptr_line
record_lines ZoneType.forward origin = map (address_line origin)

abbrev pub ns_lines : ZoneType → ZoneConfig → List IpRecord → Text → List Text
ns_lines ZoneType.reverse c records origin = []
ns_lines ZoneType.forward c records origin =
    if c.primary_ns_ip == [] then [] else primary_ns_lines c records origin

abbrev pub origin_line : ZoneConfig → Text
origin_line c = codes "$ORIGIN " ++ ensure_trailing_dot c.origin

abbrev pub ttl_line : ZoneConfig → Text
ttl_line c = codes "$TTL " ++ decimal c.ttl

abbrev pub soa_line : ZoneConfig → Text
soa_line c = codes "@ IN SOA " ++ c.primary_ns ++ codes " " ++ c.admin_email ++ codes " ("

-- What `Generate` has written to its builder, given the records as filtered and as sorted.
unfoldable pub zone_lines : ZoneConfig → ℕ → List IpRecord → List IpRecord → List Text
unfolding primary_ns_lines ptr_line address_line soa_tail serial_line
zone_lines c serial records sorted =
    let origin = ensure_trailing_dot c.origin in
    origin_line c
    ∷ ttl_line c
    ∷ soa_line c
    ∷ serial_line serial
    ∷ (soa_tail c ++ (ns_lines c.type c records origin ++ record_lines c.type origin sorted))
