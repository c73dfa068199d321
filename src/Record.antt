-- ===== src/Record.antt =====
-- internal/netboxclient/client.go: the record that every component passes on, and how an IP address
-- object of the NetBox API becomes one.
use coredns_netbox.Base.{ℕ, Bool, Option, none, some, [], ◌∷◌, if◌then◌else◌, ◌==◌}
use coredns_netbox.Base.Text.{Text, codes, text_eq, has_prefix}
use coredns_netbox.Base.{◌++◌, contains, nat_eq}

-- `Family` is 4 or 6; `AppliedAt` counts nanoseconds, with 0 for the zero time.
pub record IpRecord : Type 0 where
  pub dns_name : Text
  pub address : Text
  pub family : ℕ
  pub device_name : Text
  pub interface_name : Text
  pub vrf : Text
  pub ttl : ℕ
  pub type : Text
  pub cname_target : Text
  pub source : Text
  pub applied_at : ℕ

-- `IPRecord{}`: every field has its zero value.
abbrev pub zero_record : IpRecord
zero_record = record {
  dns_name = [];
  address = [];
  family = 0;
  device_name = [];
  interface_name = [];
  vrf = [];
  ttl = 0;
  type = [];
  cname_target = [];
  source = [];
  applied_at = 0;
}

abbrev pub record_type_cname : Text
record_type_cname = codes "CNAME"

abbrev pub source_webhook : Text
source_webhook = codes "webhook"

abbrev pub is_cname : IpRecord → Bool
is_cname r = r.type == record_type_cname

abbrev pub is_webhook : IpRecord → Bool
is_webhook r = r.source == source_webhook

pub record DeviceInfo : Type 0 where
  pub name : Text

pub record AssignedObject : Type 0 where
  pub name : Text
  pub device : Option DeviceInfo
  pub virtual_machine : Option DeviceInfo

pub record VrfInfo : Type 0 where
  pub name : Text

pub record IpItem : Type 0 where
  pub address : Text
  pub dns_name : Text
  pub vrf : Option VrfInfo
  pub assigned_object : Option AssignedObject

-- `addr[:strings.Index(addr, "/")]`, or all of it.
unfoldable pub strip_cidr : Text → Text
strip_cidr [] = []
strip_cidr (c ∷ s) = let rest = strip_cidr s in if c == b'/' then [] else c ∷ rest

device_of : AssignedObject → Text
device_of o = elim o.device [
  | some d ↦ d.name
  | none ↦ elim o.virtual_machine [ some v ↦ v.name | none ↦ [] ]
]

unfoldable pub ip_item_to_record : IpItem → IpRecord
unfolding device_of
ip_item_to_record ip =
    let addr = strip_cidr ip.address in
    record zero_record {
      dns_name = ip.dns_name;
      address = addr;
      family = if contains addr b':' then 6 else 4;
      device_name = elim ip.assigned_object [ none ↦ [] | some o ↦ device_of o ];
      interface_name = elim ip.assigned_object [ none ↦ [] | some o ↦ o.name ];
      vrf = elim ip.vrf [ none ↦ [] | some v ↦ v.name ];
    }

-- internal/netboxclient/auth.go
unfoldable pub auth_header : Text → Text
auth_header token =
    if has_prefix token (codes "nbt_") then codes "Bearer " ++ token else codes "Token " ++ token
