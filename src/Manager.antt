-- ===== src/Manager.antt =====
-- internal/zonemanager/manager.go: one generator for each zone, and the zone directory. The directory
-- is a map from a zone to the lines of its file db.<zone>; its other entries are never touched.
pub mod Loops
pub mod Published
pub mod Turns
pub mod Lost
pub mod Tests
use coredns_netbox.Base.{
  ℕ, ◌+◌, ◌-◌, Bool, true, false, not, ◌||◌, none, some, List, [], ◌∷◌, arith, if◌then◌else◌, ◌==◌,
  nat_eq, length,
}
use coredns_netbox.Base.Text.{Text, codes, text_eq, text_lt, has_suffix}
use coredns_netbox.Base.Dict.{Dict, keys, lookup, insert, erase, lookup_or, has_key}
use coredns_netbox.Record.{IpRecord}
use coredns_netbox.Merge.{ZoneMap}
use coredns_netbox.Zonegen.Order.{sort_by}
use coredns_netbox.Zonegen.Render.{ZoneType, SoaTimers, ZoneConfig}
use coredns_netbox.Zonegen.Generator.{Generator, generate}
use coredns_netbox.Zonegen.Restart.{new_generator}

-- The arguments of `New`.
pub record Settings : Type 0 where
  pub primary_ns : Text
  pub primary_ns_ip : Text
  pub admin_email : Text
  pub ttl : ℕ
  pub soa : SoaTimers

pub record UpdateStats : Type 0 where
  pub created : ℕ
  pub updated : ℕ
  pub deleted : ℕ
  pub write_errors : ℕ

abbrev pub no_stats : UpdateStats
no_stats = record { created = 0; updated = 0; deleted = 0; write_errors = 0 }

-- The generators, the zone directory, and what a running `Update` returns: its counters, and whether
-- it has returned an error.
pub record Manager : Type 0 where
  pub generators : Dict Text Generator
  pub files : Dict Text (List Text)
  pub stats : UpdateStats
  pub failed : Bool

-- What happens outside the program during one call: the clock when a zone is generated, and the file
-- operations that fail (with an error other than "does not exist").
pub record World : Type 0 where
  pub now : Text → ℕ
  pub write_fails : Text → Bool
  pub remove_fails : Text → Bool
  pub read_dir_fails : Bool

-- `isReverseZone`
unfoldable pub is_reverse_zone : Text → Bool
is_reverse_zone zone =
    has_suffix zone (codes ".in-addr.arpa") || has_suffix zone (codes ".ip6.arpa")

-- The literal `zonegen.ZoneConfig{…}` of `Update`.
unfoldable pub zone_config : Settings → Text → ZoneConfig
unfolding is_reverse_zone
zone_config s zone = record {
  origin = zone;
  primary_ns = s.primary_ns;
  admin_email = s.admin_email;
  ttl = s.ttl;
  type = if is_reverse_zone zone then ZoneType.reverse else ZoneType.forward;
  soa = s.soa;
  primary_ns_ip = s.primary_ns_ip;
}

abbrev pub count_written : Bool → UpdateStats → UpdateStats
count_written is_new s =
    if is_new then record s { created = s.created + 1 } else record s { updated = s.updated + 1 }

-- What `removeOrphans` does to a zone that is not active: its file and its generator go.
unfoldable pub drop_zone : Text → Manager → Manager
drop_zone zone m = record m {
  files = erase zone m.files;
  generators = erase zone m.generators;
  stats = record m.stats { deleted = m.stats.deleted + 1 };
}

unfoldable pub drop_file : Text → Manager → Manager
drop_file zone m = record m {
  files = erase zone m.files;
  stats = record m.stats { deleted = m.stats.deleted + 1 };
}

-- The first loop of `removeOrphans`.
unfoldable pub remove_generators : World → ZoneMap → List Text → Manager → Manager
remove_generators w zones [] m = m
remove_generators w zones (zone ∷ rest) m =
    let kept = remove_generators w zones rest m in
    let more = remove_generators w zones rest (drop_zone zone m) in
    if has_key zone zones
    then kept
    else if w.remove_fails zone
    then record m { failed = true }
    else more

-- The second one, over the entries of the directory.
unfoldable pub remove_files : World → ZoneMap → List Text → Manager → Manager
remove_files w zones [] m = m
remove_files w zones (zone ∷ rest) m =
    let kept = remove_files w zones rest m in
    let more = remove_files w zones rest (drop_file zone m) in
    if has_key zone zones
    then kept
    else if w.remove_fails zone
    then record m { failed = true }
    else more

unfoldable pub scan_dir : World → ZoneMap → Manager → Manager
scan_dir w zones m =
    let scanned = remove_files w zones (keys m.files) m in
    if m.failed then m else if w.read_dir_fails then record m { failed = true } else scanned

unfoldable pub remove_orphans : World → ZoneMap → Manager → Manager
remove_orphans w zones m = scan_dir w zones (remove_generators w zones (keys m.generators) m)

module _ (sha : Text → Text) (cfg : Settings) where
  unfoldable pub generator_for : Text → Manager → Generator
  generator_for zone m = elim (lookup zone m.generators) [
    | some gen ↦ gen
    | none ↦ new_generator sha (zone_config cfg zone) (lookup zone m.files)
  ]

  -- The body of the loop of `Update` behind `Generate`.
  unfoldable pub store_zone : World → Text → Bool → List Text → Bool → Manager → Manager
  store_zone w zone is_new content false m = m
  store_zone w zone is_new content true m =
      if w.write_fails zone
      then record m {
        stats = record m.stats { write_errors = m.stats.write_errors + 1 };
        failed = true;
      }
      else record m { files = insert zone content m.files; stats = count_written is_new m.stats }

  unfoldable pub update_zone : World → Text → List IpRecord → Manager → Manager
  update_zone w zone records m =
      let (content, changed, _, gen) = generate sha (w.now zone) records (generator_for zone m) in
      store_zone w zone (not (has_key zone m.generators)) content changed
        (record m { generators = insert zone gen m.generators })

  unfoldable pub update_zones : World → ZoneMap → List Text → Manager → Manager
  update_zones w zones [] m = m
  update_zones w zones (zone ∷ rest) m =
      let m' = update_zone w zone (lookup_or [] zone zones) m in
      let more = update_zones w zones rest m' in if m'.failed then m' else more

  -- `Update`: the counters start anew.
  unfoldable pub update : World → ZoneMap → Manager → Manager
  update w zones m =
      let m' =
        update_zones w zones (sort_by text_lt (keys zones))
          (record m { stats = no_stats; failed = false }) in
      let cleaned = remove_orphans w zones m' in if m'.failed then m' else cleaned

-- `HasExistingZones`, where the directory can be read.
unfoldable pub has_existing_zones : Manager → Bool
has_existing_zones m = not (length m.files == 0)

-- `Zones`
unfoldable pub zones : Manager → List Text
zones m = sort_by text_lt (keys m.generators)

-- `New`
abbrev pub new_manager : Dict Text (List Text) → Manager
new_manager files = record { generators = []; files = files; stats = no_stats; failed = false }
