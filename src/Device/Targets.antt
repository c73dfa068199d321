-- ===== src/Device/Targets.antt =====
-- DeviceDNSToRecords of internal/ipcategorizer/categorizer.go: where its aliases point.
use coredns_netbox.Base.{
  ◌≡◌, refl, inl, inr, Bool, true, not, ◌&&◌, ◌||◌, Option, none, some, List, [], ◌∷◌, ◌++◌, arith,
  Option-cases, ◌==◌, nat_eq, ==_refl, any, All, All-append,
}
use coredns_netbox.Base.Text.{Text, text_eq, text_lt}
use coredns_netbox.Base.Dict.{Dict, keys, lookup}
use coredns_netbox.Record.{IpRecord, is_cname}
use coredns_netbox.Device.{Formatter, bmc_name}
use coredns_netbox.Device.Category.{
  DeviceDnsRecords, address_of, alias_of, alias_records, names_of, records_of, dns_loop,
  device_dns_to_records,
}
use coredns_netbox.Zonegen.Order.{sort_by}

-- The list has an address record with the name and of the device.
abbrev pub resolves : List IpRecord → Text → Text → Bool
resolves rs name device =
    any (λ r. not (is_cname r) && r.dns_name == name && r.device_name == device) rs

-- A CNAME points at the name of an address record of its device.
abbrev pub HasTarget : List IpRecord → IpRecord → Type 0
HasTarget rs r = is_cname r ≡ true → resolves rs r.cname_target r.device_name ≡ true

resolves-append :
    (k l : List IpRecord) (name device : Text)
    → resolves (k ++ l) name device ≡ (resolves k name device || resolves l name device)
resolves-append [] l name device = refl
resolves-append (r ∷ k) l name device = ground (arith, resolves-append k l name device)

HasTarget-more :
    (rs qs : List IpRecord) (l : List IpRecord)
    → ((name device : Text) → resolves rs name device ≡ true → resolves qs name device ≡ true)
    → All (HasTarget rs) l
    → All (HasTarget qs) l
HasTarget-more rs qs [] more h = tt
HasTarget-more rs qs (r ∷ l) more h =
    (λ k. more r.cname_target r.device_name (h.0 k), HasTarget-more rs qs l more h.1)

module _ (rs : List IpRecord) (canonical device : Text) (dns : DeviceDnsRecords)
    (same : dns.device_name ≡ device)
    (primary : (ip : IpRecord) → dns.primary_ip ≡ some ip → resolves rs canonical device ≡ true)
    (bmc : (ip : IpRecord)
      → dns.bmc_ip ≡ some ip
      → resolves rs (bmc_name canonical) device ≡ true) where
  alias_of-HasTarget :
      (name target : Text) (ip : Option IpRecord)
      → ((r : IpRecord) → ip ≡ some r → resolves rs target device ≡ true)
      → All (HasTarget rs) (alias_of name target dns.device_name ip)
  alias_of-HasTarget name target none h = tt
  alias_of-HasTarget name target (some ip) h = (λ k. rw same (h ip refl), tt)

  alias_records-HasTarget :
      (aliases : List Text) → All (HasTarget rs) (alias_records canonical dns aliases)
  unfolding alias_records
  alias_records-HasTarget [] = tt
  alias_records-HasTarget (a ∷ aliases) =
      let first = alias_of a canonical dns.device_name dns.primary_ip in
      let second = alias_of (bmc_name a) (bmc_name canonical) dns.device_name dns.bmc_ip in
      All-append (HasTarget rs) first (second ++ alias_records canonical dns aliases)
        (alias_of-HasTarget a canonical dns.primary_ip primary)
        (All-append (HasTarget rs) second (alias_records canonical dns aliases)
          (alias_of-HasTarget (bmc_name a) (bmc_name canonical) dns.bmc_ip bmc)
          (alias_records-HasTarget aliases))

address_of-resolves :
    (name device : Text) (ip : Option IpRecord) (r : IpRecord)
    → ip ≡ some r
    → resolves (address_of name device ip) name device ≡ true
address_of-resolves name device none r h = cc
address_of-resolves name device (some ip) r h = ground (arith, ==_refl name, ==_refl device)

address_of-HasTarget :
    (rs : List IpRecord) (name device : Text) (ip : Option IpRecord)
    → All (HasTarget rs) (address_of name device ip)
address_of-HasTarget rs name device none = tt
address_of-HasTarget rs name device (some ip) = (λ k. absurd (ground (arith, k)), tt)

records_of-HasTarget :
    (f : Option Formatter) (device : Text) (dns : DeviceDnsRecords)
    → All (HasTarget (records_of f device dns)) (records_of f device dns)
unfolding records_of
records_of-HasTarget f device dns =
    let canonical = (names_of f device dns).canonical in
    let own : DeviceDnsRecords = record dns { device_name = device } in
    let first = address_of canonical device dns.primary_ip in
    let second = address_of (bmc_name canonical) device dns.bmc_ip in
    let third = alias_records canonical own (names_of f device dns).aliases in
    let rs = first ++ (second ++ third) in
    let primary : (ip : IpRecord) → dns.primary_ip ≡ some ip → resolves rs canonical device ≡ true =
      λ ip h. ground (
        arith,
        resolves-append first (second ++ third) canonical device,
        address_of-resolves canonical device dns.primary_ip ip h,
      ) in
    let bmc : (ip : IpRecord)
        → dns.bmc_ip ≡ some ip
        → resolves rs (bmc_name canonical) device ≡ true =
      λ ip h. ground (
        arith,
        resolves-append first (second ++ third) (bmc_name canonical) device,
        resolves-append second third (bmc_name canonical) device,
        address_of-resolves (bmc_name canonical) device dns.bmc_ip ip h,
      ) in
    All-append (HasTarget rs) first (second ++ third)
      (address_of-HasTarget rs canonical device dns.primary_ip)
      (All-append (HasTarget rs) second third
        (address_of-HasTarget rs (bmc_name canonical) device dns.bmc_ip)
        (alias_records-HasTarget rs canonical device own refl primary bmc
          (names_of f device dns).aliases))

HasTarget-append :
    (k l : List IpRecord)
    → All (HasTarget k) k
    → All (HasTarget l) l
    → All (HasTarget (k ++ l)) (k ++ l)
HasTarget-append k l hk hl =
    All-append (HasTarget (k ++ l)) k l
      (HasTarget-more k (k ++ l) k (λ n d h. ground (arith, h, resolves-append k l n d)) hk)
      (HasTarget-more l (k ++ l) l (λ n d h. ground (arith, h, resolves-append k l n d)) hl)

dns_loop-HasTarget :
    (f : Option Formatter) (d : Dict Text DeviceDnsRecords) (devices : List Text)
    → All (HasTarget (dns_loop f d devices)) (dns_loop f d devices)
unfolding dns_loop
dns_loop-HasTarget f d [] = tt
dns_loop-HasTarget f d (device ∷ devices) = elim (Option-cases (lookup device d)) [
  | inl e ↦ rw (e, dns_loop) (dns_loop-HasTarget f d devices)
  | inr (dns, e) ↦
      rw (e, dns_loop)
        (HasTarget-append (records_of f device dns) (dns_loop f d devices)
          (records_of-HasTarget f device dns) (dns_loop-HasTarget f d devices))
]

-- Every CNAME that is made for a device points at the name of an address record that is made for
-- the same device, whatever the templates render.
pub device_dns-HasTarget :
    (d : Dict Text DeviceDnsRecords) (f : Option Formatter)
    → All (HasTarget (device_dns_to_records d f)) (device_dns_to_records d f)
unfolding device_dns_to_records
device_dns-HasTarget d f = dns_loop-HasTarget f d (sort_by text_lt (keys d))
