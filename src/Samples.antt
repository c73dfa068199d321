-- ===== src/Samples.antt =====
-- Records, zones and stand-ins for the library functions, on which the tests run.
use coredns_netbox.Base.{
  ℕ, zero, suc, ◌+◌, ◌%◌, ◌≡◌, true, false, some, [], ◌∷◌, arith, nat_eq, length,
}
use coredns_netbox.Base.Text.{Text, codes, text_eq}
use coredns_netbox.Record.{IpRecord, zero_record, record_type_cname, source_webhook}
use coredns_netbox.Store.{Zones, FileStore}
use coredns_netbox.Zonegen.Generator.{is_digest, Generator}
use coredns_netbox.Zonegen.Render.{ZoneType, ZoneConfig, default_soa_timers}

abbrev pub lab : Text
lab = codes "lab."

abbrev pub web_name : Text
web_name = codes "web.lab."

abbrev pub db_name : Text
db_name = codes "db.lab."

-- A record of NetBox, one of the webhook at a time, one that was added by hand, and an alias.
abbrev pub host : Text → Text → IpRecord
host name addr = record zero_record { dns_name = name; address = addr; family = 4 }

abbrev pub hooked : Text → Text → ℕ → IpRecord
hooked name addr at = record (host name addr) { source = source_webhook; applied_at = at }

abbrev pub alias : Text → Text → IpRecord
alias name target = record zero_record {
  dns_name = name;
  type = record_type_cname;
  cname_target = target;
}

abbrev pub web_by_hand : IpRecord
web_by_hand = host web_name (codes "10.0.0.1")

abbrev pub db_hooked : IpRecord
db_hooked = hooked db_name (codes "10.0.0.2") 5

abbrev pub sample_zones : Zones
sample_zones = (lab, web_by_hand ∷ db_hooked ∷ []) ∷ []

abbrev pub sample_store : FileStore
sample_store = record { data_zones = sample_zones; file = some sample_zones; temps = 0 }

abbrev pub repeat : ℕ → ℕ → Text
repeat zero c = []
repeat (suc n) c = c ∷ repeat n c

-- A digest: the last digit of the length, and 63 times the letter a.
unfoldable pub sample_sha : Text → Text
sample_sha t = (48 + length t % 10) ∷ repeat 63 b'a'

pub sample_sha-is_digest : (t : Text) → is_digest (sample_sha t) ≡ true
unfolding sample_sha is_digest
sample_sha-is_digest t = ground arith

abbrev pub sample_config : ZoneConfig
sample_config = record {
  origin = lab;
  primary_ns = codes "ns1.lab.";
  admin_email = codes "admin.lab.";
  ttl = 60;
  type = ZoneType.forward;
  soa = default_soa_timers;
  primary_ns_ip = [];
}

abbrev pub sample_generator : Generator
sample_generator = record {
  config = sample_config;
  last_hash = [];
  serial = 1700000000;
  hash_from_file = false;
}
