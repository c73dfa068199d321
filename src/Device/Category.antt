-- ===== src/Device/Category.antt =====
-- internal/ipcategorizer/categorizer.go. Whether a pattern matches a text, and sort.Slice, are
-- parameters.
use coredns_netbox.Base.{
  ℕ, Bool, true, false, not, ◌&&◌, ◌||◌, Option, none, some, List, [], ◌∷◌, ◌++◌, if◌then◌else◌,
  leb, ◌==◌, nat_eq, length, keep,
}
use coredns_netbox.Base.Text.{Text, codes, text_eq, text_lt, split, dot}
use coredns_netbox.Base.Dict.{Dict, keys, lookup, insert, lookup_or}
use coredns_netbox.Record.{IpRecord, zero_record, record_type_cname}
use coredns_netbox.Zonegen.Order.{sort_by}
use coredns_netbox.Device.{Names, Formatter, format, bmc_name}

pub data Category : Type 0 where
  unknown loopback dataplane bmc mgmt_vrf mgmt_interface : Category

pub record Categorizer : Type 0 where
  pub bmc_pattern : Text → Bool
  pub loopback_pattern : Text → Bool
  pub dataplane_pattern : Text → Bool
  pub mgmt_vrf_pattern : Text → Bool
  pub mgmt_iface_pattern : Text → Bool
  pub domain_suffix : Text

unfoldable pub categorize : Categorizer → IpRecord → Category
categorize c r =
    if c.bmc_pattern r.interface_name
    then bmc
    else if c.loopback_pattern r.interface_name
    then loopback
    else if c.dataplane_pattern r.interface_name
    then dataplane
    else if c.mgmt_vrf_pattern r.vrf
    then mgmt_vrf
    else if c.mgmt_iface_pattern r.interface_name
    then mgmt_interface
    else unknown

abbrev pub is_mgmt_vrf : Category → Bool
is_mgmt_vrf k = elim k [ mgmt_vrf ↦ true | _ ↦ false ]

abbrev pub is_mgmt_interface : Category → Bool
is_mgmt_interface k = elim k [ mgmt_interface ↦ true | _ ↦ false ]

abbrev pub is_bmc : Category → Bool
is_bmc k = elim k [ bmc ↦ true | _ ↦ false ]

-- The first label that is "lab" before another one gives the environment.
unfoldable pub lab_env : List Text → Option Text
lab_env [] = none
lab_env (p ∷ []) = none
lab_env (p ∷ env ∷ parts) = if p == codes "lab" then some env else lab_env (env ∷ parts)

abbrev pub is_decimal : ℕ → Bool
is_decimal c = leb b'0' c && leb c b'9'

abbrev pub is_alnum : ℕ → Bool
is_alnum c = is_decimal c || (leb b'a' c && leb c b'z') || (leb b'A' c && leb c b'Z')

-- `strings.TrimRight` by letters and digits
unfoldable pub trim_alnum : Text → Text
trim_alnum [] = []
trim_alnum (c ∷ s) =
    let rest = trim_alnum s in if rest == [] then (if is_alnum c then [] else c ∷ []) else c ∷ rest

-- What stands before the first digit, or nothing where there is none.
unfoldable pub before_digit : Text → Option Text
before_digit [] = none
before_digit (c ∷ s) =
    let rest = before_digit s in
    if is_decimal c then some [] else elim rest [ none ↦ none | some p ↦ some (c ∷ p) ]

unfoldable pub clean_site : Text → Text
clean_site site =
    if trim_alnum site == []
    then elim (before_digit site) [ none ↦ [] | some p ↦ p ]
    else trim_alnum site

-- A third part like "r101"
unfoldable pub has_rack : List Text → Bool
has_rack [] = false
has_rack (p ∷ parts) = elim p [ [] ↦ false | c ∷ s ↦ elim s [ [] ↦ false | _ ∷ _ ↦ c == b'r' ] ]

-- `parts[0]`, `parts[1]` and the rest
unfoldable pub site_zone : Text → Text → List Text → Text → Text
site_zone loc site more suffix =
    let clean = clean_site site in
    if length clean == 1 && not (has_rack more)
    then loc ++ dot ∷ suffix
    else if not (clean == [])
    then loc ++ b'-' ∷ (clean ++ dot ∷ suffix)
    else loc ++ b'-' ∷ (site ++ dot ∷ suffix)

unfoldable pub extract_zone : Categorizer → Text → Text
extract_zone c device = elim (split device b'-') [
  | [] ↦ c.domain_suffix
  | loc ∷ parts ↦ elim parts [
    | [] ↦ c.domain_suffix
    | site ∷ more ↦ elim (lab_env (loc ∷ site ∷ more)) [
      | some env ↦ loc ++ codes "-lab-" ++ env ++ dot ∷ c.domain_suffix
      | none ↦ site_zone loc site more c.domain_suffix
    ]
  ]
]

pub record DeviceDnsRecords : Type 0 where
  pub device_name : Text
  pub primary_ip : Option IpRecord
  pub bmc_ip : Option IpRecord
  pub zone : Text

-- `deviceIPs`: the records of each device.
unfoldable pub by_device : List IpRecord → Dict Text (List IpRecord) → Dict Text (List IpRecord)
by_device [] d = d
by_device (r ∷ rs) d = by_device rs (
    if r.device_name == []
    then d
    else insert r.device_name (lookup_or [] r.device_name d ++ r ∷ []) d)

abbrev pub head? {ℓ} : {A : Type ℓ} → List A → Option A
head? [] = none
head? (x ∷ xs) = some x

-- The `less` that each of the three calls of sort.Slice is given.
unfoldable pub by_interface : IpRecord → IpRecord → Bool
by_interface r s = text_lt r.interface_name s.interface_name

abbrev pub SortSlice : Type 0
SortSlice = (IpRecord → IpRecord → Bool) → List IpRecord → List IpRecord

module _ (sort : SortSlice) (c : Categorizer) where
  abbrev pub of_category : (Category → Bool) → List IpRecord → List IpRecord
  of_category p = keep (λ r. p (categorize c r))

  -- The first record of a category, by the name of its interface.
  abbrev pub best : (Category → Bool) → List IpRecord → Option IpRecord
  best p ips = head? (sort by_interface (of_category p ips))

  unfoldable pub primary_of : List IpRecord → Option IpRecord
  primary_of ips =
      if not (length (of_category is_mgmt_vrf ips) == 0)
      then best is_mgmt_vrf ips
      else if not (length (of_category is_mgmt_interface ips) == 0)
      then best is_mgmt_interface ips
      else none

  unfoldable pub bmc_of : List IpRecord → Option IpRecord
  bmc_of ips = if not (length (of_category is_bmc ips) == 0) then best is_bmc ips else none

  unfoldable pub select_device : Text → List IpRecord → DeviceDnsRecords
  select_device device ips = record {
    device_name = device;
    primary_ip = primary_of ips;
    bmc_ip = bmc_of ips;
    zone = extract_zone c device;
  }

  abbrev pub has_ip : DeviceDnsRecords → Bool
  has_ip d = elim d.primary_ip [
    | some _ ↦ true
    | none ↦ elim d.bmc_ip [ some _ ↦ true | none ↦ false ]
  ]

  unfoldable pub select_loop : Dict Text (List IpRecord) → Dict Text DeviceDnsRecords
  select_loop [] = []
  select_loop ((device, ips) ∷ d) =
      let rest = select_loop d in
      let dns = select_device device ips in if has_ip dns then insert device dns rest else rest

  unfoldable pub select_device_ips : List IpRecord → Dict Text DeviceDnsRecords
  select_device_ips records = select_loop (by_device records [])

-- The literals of `DeviceDNSToRecords`.
abbrev pub address_record : Text → Text → IpRecord → IpRecord
address_record name device ip = record zero_record {
  dns_name = name;
  address = ip.address;
  family = ip.family;
  device_name = device;
  interface_name = ip.interface_name;
  vrf = ip.vrf;
}

abbrev pub alias_record : Text → Text → Text → IpRecord
alias_record name target device = record zero_record {
  dns_name = name;
  type = record_type_cname;
  cname_target = target;
  device_name = device;
}

abbrev pub address_of : Text → Text → Option IpRecord → List IpRecord
address_of name device none = []
address_of name device (some ip) = address_record name device ip ∷ []

abbrev pub alias_of : Text → Text → Text → Option IpRecord → List IpRecord
alias_of name target device none = []
alias_of name target device (some ip) = alias_record name target device ∷ []

-- The loop over the aliases of one device.
unfoldable pub alias_records : Text → DeviceDnsRecords → List Text → List IpRecord
alias_records canonical dns [] = []
alias_records canonical dns (a ∷ aliases) =
    alias_of a canonical dns.device_name dns.primary_ip
    ++ (alias_of (bmc_name a) (bmc_name canonical) dns.device_name dns.bmc_ip
        ++ alias_records canonical dns aliases)

-- The names of a device: those of the formatter, or the legacy one.
unfoldable pub names_of : Option Formatter → Text → DeviceDnsRecords → Names
names_of f device dns = elim (format f device) [
  | some n ↦ n
  | none ↦ record { canonical = device ++ dot ∷ dns.zone; aliases = [] }
]

unfoldable pub records_of : Option Formatter → Text → DeviceDnsRecords → List IpRecord
records_of f device dns =
    let names = names_of f device dns in
    address_of names.canonical device dns.primary_ip
    ++ (address_of (bmc_name names.canonical) device dns.bmc_ip
        ++ alias_records names.canonical (record dns { device_name = device }) names.aliases)

unfoldable pub dns_loop : Option Formatter → Dict Text DeviceDnsRecords → List Text → List IpRecord
dns_loop f d [] = []
dns_loop f d (device ∷ devices) =
    let rest = dns_loop f d devices in
    elim (lookup device d) [ none ↦ rest | some dns ↦ records_of f device dns ++ rest ]

-- `DeviceDNSToRecords`
unfoldable pub device_dns_to_records : Dict Text DeviceDnsRecords → Option Formatter → List IpRecord
device_dns_to_records d f = dns_loop f d (sort_by text_lt (keys d))
