-- ===== src/Plugin/Tests.antt =====
-- Runs of the plugin of coredns/plugins/netboxreload.
use coredns_netbox.Base.{
  ◌≡◌, refl, ◌≢◌, ◌↔◌, true, false, none, some, List, [], ◌∷◌, ◌++◌, arith, if◌then◌else◌, ◌==◌,
  nat_eq, contains,
}
use coredns_netbox.Base.Text.{
  Text, codes, text_eq, before_suffix, has_suffix, has_prefix, trim_prefix, to_lower, dot,
}
use coredns_netbox.Base.Dict.{Dict, lookup, lookup_or}
use coredns_netbox.Plugin.{
  Rr, soa, cname, other, Zone, name_error, written, answer, find_zone, serve_dns, reply, Dns,
  follow, find_parent, last_cname, matches, apex_soa,
}
use coredns_netbox.Plugin.Finding.{Finds, find_zone-Finds}
use coredns_netbox.Plugin.Answer.{Chain, answer-Chain, serve_dns_returns}
use coredns_netbox.Plugin.Reload.{
  Loaded, done, DirEntry, Source, not_modified, directory, url, load, load_entries, load_entry,
  load_file, store_parsed, parse_zone_content, keep_zone, index_records, add_rr, origin_of,
  fetch_files, fetch_one, fetch_zone_file,
}
use coredns_netbox.Plugin.Swap.{crash, unchanged, reloaded, reload_zones, swap, changed, any_other}
use coredns_netbox.Plugin.Sync.{InStep, Documented}
use coredns_netbox.Plugin.Sync.Loading.{IsUndotted}
use coredns_netbox.Plugin.Sync.Serving.{reload_zones-InStep, reload_zones-serves}
use coredns_netbox.Plugin.Sync.Casing.{upper_zone_unserved}
use coredns_netbox.Plugin.Notify.{
  notifies, send_notifies, send_loop, notified, Moved, notified-reload_zones,
}
use coredns_netbox.Plugin.Transfer.{send, flat, no_soa, send-index}

abbrev apex : Rr
apex = record { owner = codes "lab."; rdata = soa 7; rest = [] }

abbrev www : Rr
www = record { owner = codes "www.lab."; rdata = cname (codes "h.lab."); rest = [] }

abbrev host : Rr
host = record { owner = codes "h.lab."; rdata = other 1; rest = codes "10.0.0.1" }

abbrev ring : Rr
ring = record { owner = codes "r.lab."; rdata = cname (codes "R.lab."); rest = [] }

abbrev deep : Rr
deep = record { owner = codes "a.b.lab."; rdata = other 1; rest = codes "10.0.0.2" }

abbrev lab_zone : Zone
lab_zone = record {
  pointer = 0;
  origin = codes "lab.";
  records =
      (codes "lab.", apex ∷ [])
      ∷ (codes "www.lab.", www ∷ [])
      ∷ (codes "h.lab.", host ∷ [])
      ∷ (codes "r.lab.", ring ∷ [])
      ∷ (codes "a.b.lab.", deep ∷ [])
      ∷ [];
}

abbrev served : Dict Text Zone
served = (codes "lab.", lab_zone) ∷ []

-- A package dns for runs: every file holds the records of the zone `lab`.
abbrev dns : Dns
dns = record {
  fqdn = λ s. if has_suffix s (dot ∷ []) then s else s ++ dot ∷ [];
  parse = λ origin filename data_. if data_ == [] then none else some (apex ∷ host ∷ www ∷ []);
}

dns-Documented : Documented dns
unfolding Documented
dns-Documented s h = rw h refl

-- A CNAME is followed to its address.
follows : answer dns lab_zone (codes "www.lab.") 1 ≡ some (www ∷ host ∷ [])
unfolding answer follow last_cname matches nat_eq text_eq to_lower has_suffix
follows = refl

-- A loop is left at the name it comes back to.
leaves : answer dns lab_zone (codes "r.lab.") 1 ≡ some (ring ∷ [])
unfolding answer follow last_cname matches nat_eq text_eq to_lower has_suffix
leaves = refl

-- A name with records below it and none of its own is said not to exist.
empty_non_terminal :
    serve_dns dns served (some (record { name = codes "b.lab."; qtype = 1 }))
    ≡ some (written (record { rcode = name_error; answers = []; authority = apex ∷ [] }))
unfolding serve_dns find_zone find_parent answer follow last_cname matches reply apex_soa nat_eq
    text_eq to_lower
empty_non_terminal = refl

answer-Chain_example :
    (l : List Rr) × (answer dns lab_zone (codes "r.lab.") 1 ≡ some l)
    × Chain dns lab_zone 1 [] (codes "r.lab.") l
answer-Chain_example = answer-Chain dns lab_zone (codes "r.lab.") 1

serve_dns_returns_run :
    serve_dns dns served (some (record { name = codes "r.lab."; qtype = 1 })) ≢ none
serve_dns_returns_run =
    serve_dns_returns dns served (some (record { name = codes "r.lab."; qtype = 1 }))

find_zone-Finds_example : Finds served (codes "b.lab.") (find_zone served (codes "b.lab."))
find_zone-Finds_example = find_zone-Finds served (codes "b.lab.")

abbrev entry : DirEntry
entry = record {
  name = codes "db.lab";
  is_dir = false;
  info = some (codes "5|9");
  content = some (codes "zone");
}

abbrev source : Source
source = directory (some (entry ∷ []))

abbrev blank : Loaded
blank = record { zones = []; cache = []; next = 0 }

blank-InStep : InStep dns blank
blank-InStep = record {
  once = tt;
  cached = λ f c h. absurd (ground (arith, h));
  served = λ f c h. absurd (ground (arith, h));
  from_file = λ o z h. absurd (ground (arith, h));
}

abbrev loaded_zone : Zone
loaded_zone = record {
  pointer = 0;
  origin = codes "lab.";
  records =
      (codes "lab.", apex ∷ []) ∷ (codes "h.lab.", host ∷ []) ∷ (codes "www.lab.", www ∷ []) ∷ [];
}

abbrev once : Loaded
once = record {
  zones = (codes "lab.", loaded_zone) ∷ [];
  cache = (codes "db.lab", record { validator = codes "5|9"; zone = loaded_zone }) ∷ [];
  next = 1;
}

first_load : load dns source [] 0 ≡ done once
unfolding load load_entries load_entry load_file store_parsed parse_zone_content keep_zone
    index_records add_rr origin_of nat_eq text_eq has_prefix has_suffix to_lower trim_prefix
first_load = refl

second_reload : reload_zones dns source once ≡ (once, unchanged)
unfolding reload_zones load load_entries load_entry load_file store_parsed parse_zone_content
    keep_zone index_records add_rr origin_of swap changed any_other nat_eq text_eq has_prefix
second_reload = refl

-- An answer of 304 to a request without a validator stops the process.
stray_304 :
    reload_zones dns
      (url (record { filenames = some (codes "db.lab" ∷ []); get = λ n v. not_modified }))
      blank
    ≡ (blank, crash)
unfolding reload_zones load fetch_files fetch_one fetch_zone_file nat_eq text_eq has_prefix
stray_304 = refl

source-IsUndotted : IsUndotted source
unfolding IsUndotted has_suffix before_suffix nat_eq text_eq
source-IsUndotted = (refl, tt)

reload_zones-InStep_example : InStep dns (reload_zones dns source blank).0
reload_zones-InStep_example =
    reload_zones-InStep dns dns-Documented source blank source-IsUndotted blank-InStep

reload_zones-serves_example :
    lookup (codes "lab.") (reload_zones dns source blank).0.zones ≡ lookup (codes "lab.") once.zones
reload_zones-serves_example =
    reload_zones-serves dns dns-Documented source blank once source-IsUndotted blank-InStep
      first_load (codes "lab.")

abbrev upper_source : Source
upper_source = directory (some (record entry { name = codes "db.LAB" } ∷ []))

abbrev upper_zone : Zone
upper_zone = record loaded_zone { origin = codes "LAB." }

upper_source-IsUndotted : IsUndotted upper_source
unfolding IsUndotted has_suffix before_suffix nat_eq text_eq
upper_source-IsUndotted = (refl, tt)

upper_zone_unserved_run :
    find_zone (reload_zones dns upper_source blank).0.zones (to_lower (codes "www.LAB."))
    ≢ some upper_zone
upper_zone_unserved_run =
    upper_zone_unserved dns (reload_zones dns upper_source blank).0 upper_zone (codes "www.LAB.")
      (reload_zones-InStep dns dns-Documented upper_source blank upper_source-IsUndotted
        blank-InStep)
      (λ h. unfold to_lower in absurd (ground (arith, h)))

send-index_example :
    (sent : List Rr) × (flat (send loaded_zone 6) ≡ apex ∷ (sent ++ apex ∷ []))
    × ((name : Text)
        → lookup_or [] name (index_records sent [])
          ≡ no_soa (lookup_or [] name loaded_zone.records))
send-index_example =
    send-index loaded_zone (apex ∷ host ∷ www ∷ []) apex 6
      (unfold index_records add_rr nat_eq text_eq to_lower in refl)
      (unfold apex_soa nat_eq text_eq in refl) (unfold nat_eq in refl)

notified_run :
    notifies (some (λ o. false)) (reloaded (codes "lab." ∷ [])) ≡ (codes "lab.", false) ∷ []
unfolding notifies send_notifies send_loop
notified_run = refl

notified-reload_zones_example :
    (contains
        (notified (notifies (some (λ o. false)) (reload_zones dns source blank).1))
        (codes "lab.")
      ≡ true)
    ↔ Moved [] once.zones (codes "lab.")
notified-reload_zones_example =
    notified-reload_zones dns dns-Documented source blank once (λ o. false) (codes "lab.")
      source-IsUndotted blank-InStep first_load (refl, tt)
