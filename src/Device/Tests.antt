-- ===== src/Device/Tests.antt =====
-- Runs of the categorizer and of the name formatter.
use coredns_netbox.Base.{
  ◌≡◌, refl, ◌≢◌, ◌↔◌, inl, inr, Bool, false, none, some, List, [], ◌∷◌, arith, if◌then◌else◌,
  Bool-cases, ◌==◌, nat_eq, if_of_both, All, In,
}
use coredns_netbox.Base.Text.{Text, codes, text_eq, trim_suffix, has_prefix, split, to_lower}
use coredns_netbox.Base.Dict.{lookup}
use coredns_netbox.Record.{IpRecord, zero_record}
use coredns_netbox.Zonegen.Order.{sort_by, insert_by}
use coredns_netbox.Device.{
  Names, Formatter, format, match_vars, render, render_aliases, is_rendered_name, is_rendered_label,
  is_tail,
}
use coredns_netbox.Device.Rendered.{IsPublishable, format-IsPublishable}
use coredns_netbox.Device.Category.{
  SortSlice, Categorizer, extract_zone, lab_env, site_zone, clean_site, trim_alnum, before_digit,
  has_rack, select_device_ips, device_dns_to_records,
}
use coredns_netbox.Device.Slices.{IsStrictWeak, SortsSlices}
use coredns_netbox.Device.Selected.{Chosen, select_device_ips-Chosen}
use coredns_netbox.Device.Targets.{HasTarget, device_dns-HasTarget}

-- Insertion sort stands for sort.Slice.
abbrev sort_slice : SortSlice
sort_slice = sort_by

module _ (less : IpRecord → IpRecord → Bool) where
  abbrev Least : IpRecord → List IpRecord → Type 0
  Least r = All (λ s. less s r ≡ false)

  abbrev FirstLeast : List IpRecord → Type 0
  FirstLeast [] = Unit
  FirstLeast (r ∷ rest) = Least r rest

  In-insert_by : (a r : IpRecord) (l : List IpRecord) → In r (insert_by less a l) ↔ In r (a ∷ l)
  unfolding insert_by
  In-insert_by a r [] = (λ h. h, λ h. h)
  In-insert_by a r (b ∷ l) = elim (Bool-cases (less b a)) [
    | inr e ↦ rw e (λ h. h, λ h. h)
    | inl e ↦
        rw e
          (λ h. ground (arith, h, In-insert_by a r l), λ h. ground (arith, h, In-insert_by a r l))
  ]

  In-sort_by : (r : IpRecord) (l : List IpRecord) → In r (sort_by less l) ↔ In r l
  unfolding sort_by
  In-sort_by r [] = (λ h. h, λ h. h)
  In-sort_by r (a ∷ l) = (
    λ h. ground (arith, h, In-insert_by a r (sort_by less l), In-sort_by r l),
    λ h. ground (arith, h, In-insert_by a r (sort_by less l), In-sort_by r l),
  )

  In-Least : (r s : IpRecord) (l : List IpRecord) → Least r l → In s l → less s r ≡ false
  In-Least r s [] h m = absurd m
  In-Least r s (x ∷ l) h (inl e) = rw e h.0
  In-Least r s (x ∷ l) h (inr m) = In-Least r s l h.1 m

  module _ (weak : IsStrictWeak less) where
    Least-insert_by :
        (r a : IpRecord) (l : List IpRecord)
        → less a r ≡ false
        → Least r l
        → Least r (insert_by less a l)
    unfolding insert_by
    Least-insert_by r a [] h k = (h, tt)
    Least-insert_by r a (b ∷ l) h k =
        if_of_both (Least r) (less b a) (k.0, Least-insert_by r a l h k.1) (h, k)

    Least-earlier : (r a : IpRecord) (l : List IpRecord) → less r a ≡ false → Least r l → Least a l
    Least-earlier r a [] h k = tt
    Least-earlier r a (s ∷ l) h k = (weak.not_before s r a k.0 h, Least-earlier r a l h k.1)

    insert_by-FirstLeast :
        (a : IpRecord) (l : List IpRecord) → FirstLeast l → FirstLeast (insert_by less a l)
    unfolding insert_by
    insert_by-FirstLeast a [] h = tt
    insert_by-FirstLeast a (b ∷ l) h = elim (Bool-cases (less b a)) [
      | inl e ↦ rw e (Least-insert_by b a l (weak.asymmetric b a e) h)
      | inr e ↦ rw e (e, Least-earlier b a l e h)
    ]

    sort_by-FirstLeast : (l : List IpRecord) → FirstLeast (sort_by less l)
    unfolding sort_by
    sort_by-FirstLeast [] = tt
    sort_by-FirstLeast (a ∷ l) = insert_by-FirstLeast a (sort_by less l) (sort_by-FirstLeast l)

sort_slice-SortsSlices : SortsSlices sort_slice
sort_slice-SortsSlices = record {
  same = λ less l r. In-sort_by less r l;
  first = λ less l rest r s weak e m.
      In-Least less r s rest (rw e at (sort_by-FirstLeast less weak l)) m;
}

abbrev categorizer : Categorizer
categorizer = record {
  bmc_pattern = λ s. s == codes "bmc";
  loopback_pattern = λ s. s == codes "lo";
  dataplane_pattern = λ s. false;
  mgmt_vrf_pattern = λ s. s == codes "mgmt";
  mgmt_iface_pattern = λ s. s == codes "eth0";
  domain_suffix = codes "example.com";
}

abbrev hv : Text
hv = codes "dc1-site13a-r101-hv-01"

abbrev on : Text → Text → Text → IpRecord
on iface vrf address = record zero_record {
  device_name = hv;
  interface_name = iface;
  vrf = vrf;
  address = address;
  family = 4;
}

abbrev ips : List IpRecord
ips =
    on (codes "eth0") [] (codes "10.0.0.1")
    ∷ on (codes "eth2") (codes "mgmt") (codes "10.0.0.2")
    ∷ on (codes "bmc") [] (codes "10.0.0.3")
    ∷ []

-- The examples in the comment of `extractZone`.
site_of_rack : extract_zone categorizer hv ≡ codes "dc1-site.example.com"
unfolding extract_zone split nat_eq lab_env text_eq site_zone clean_site trim_alnum before_digit
site_of_rack = refl

rack_only : extract_zone categorizer (codes "ams01-r101-pdu-left-01") ≡ codes "ams01.example.com"
unfolding extract_zone split nat_eq lab_env text_eq site_zone clean_site trim_alnum before_digit
    has_rack
rack_only = refl

lab_site :
    extract_zone categorizer (codes "txdr-iah13a-r301-lab-dev-hv-01")
    ≡ codes "txdr-lab-dev.example.com"
unfolding extract_zone split nat_eq lab_env text_eq
lab_site = refl

select_device_ips-Chosen_example :
    Chosen sort_slice sort_slice-SortsSlices categorizer hv ips
      (lookup hv (select_device_ips sort_slice categorizer ips))
unfolding text_eq
select_device_ips-Chosen_example =
    select_device_ips-Chosen sort_slice sort_slice-SortsSlices categorizer ips hv (λ h. cc)

abbrev formatter : Formatter
formatter = record {
  parsers = (λ s. if has_prefix s (codes "dc1-") then some [] else none) ∷ [];
  groups = [];
  canonical = λ vars. some (codes "HV-01.dc1.lab");
  aliases = (λ vars. some (codes "hv.lab")) ∷ [];
  domain = codes "lab";
}

abbrev rendered : Names
rendered = record { canonical = codes "hv-01.dc1.lab"; aliases = codes "hv.lab" ∷ [] }

format_run : format (some formatter) hv ≡ some rendered
unfolding format match_vars has_prefix to_lower nat_eq render is_rendered_name split trim_suffix
    text_eq is_rendered_label is_tail render_aliases
format_run = refl

format-IsPublishable_example :
    IsPublishable (codes "hv-01.dc1.lab")
    × All (λ a. IsPublishable a × (a ≢ codes "hv-01.dc1.lab")) (codes "hv.lab" ∷ [])
format-IsPublishable_example = format-IsPublishable (some formatter) hv rendered format_run

device_dns-HasTarget_example :
    All
      (HasTarget
        (device_dns_to_records (select_device_ips sort_slice categorizer ips) (some formatter)))
      (device_dns_to_records (select_device_ips sort_slice categorizer ips) (some formatter))
device_dns-HasTarget_example =
    device_dns-HasTarget (select_device_ips sort_slice categorizer ips) (some formatter)
