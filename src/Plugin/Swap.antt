-- ===== src/Plugin/Swap.antt =====
-- coredns/plugins/netboxreload: reloadZones of plugin.go, serialChangedZones of notify.go and the
-- Reload handler of server.go.
use coredns_netbox.Base.{
  ℕ, Bool, true, false, not, ◌||◌, Option, none, some, List, [], ◌∷◌, if◌then◌else◌, ◌==◌, nat_eq,
  length,
}
use coredns_netbox.Base.Text.{Text, text_eq, text_lt}
use coredns_netbox.Base.Dict.{Dict, lookup}
use coredns_netbox.Zonegen.Order.{sort_by}
use coredns_netbox.Plugin.{Dns, Rr, soa, cname, other, Zone, records_at}
use coredns_netbox.Plugin.Reload.{CachedZone, Loaded, done, load_failed, nil_zone, Source, load}

-- The fields of the plugin that a reload changes are what a load builds.
abbrev pub Plugin : Type 0
Plugin = Loaded

abbrev pub first_serial : List Rr → Option ℕ
first_serial [] = none
first_serial (rr ∷ rrs) = elim rr.rdata [
  | soa s ↦ some s
  | cname t ↦ first_serial rrs
  | other t ↦ first_serial rrs
]

unfoldable pub zone_serial : Zone → Option ℕ
zone_serial z = first_serial (records_at z z.origin)

-- The body of the loop of `serialChangedZones`: whether the origin is appended.
unfoldable pub serial_moved : Dict Text Zone → Text → Zone → Bool
serial_moved old origin z = elim (zone_serial z) [
  | none ↦ false
  | some now ↦ elim (lookup origin old) [
    | none ↦ true
    | some prev ↦ elim (zone_serial prev) [ none ↦ true | some before ↦ not (before == now) ]
  ]
]

unfoldable pub moved_origins : Dict Text Zone → Dict Text Zone → List Text
moved_origins old [] = []
moved_origins old ((origin, z) ∷ current) =
    let rest = moved_origins old current in
    if serial_moved old origin z then origin ∷ rest else rest

unfoldable pub serial_changed_zones : Dict Text Zone → Dict Text Zone → List Text
serial_changed_zones old current = sort_by text_lt (moved_origins old current)

-- `!ok || old.z != c.z`
abbrev pub other_zone : Dict Text CachedZone → Text → CachedZone → Bool
other_zone old name c = elim (lookup name old) [
  | none ↦ true
  | some o ↦ not (o.zone.pointer == c.zone.pointer)
]

unfoldable pub any_other : Dict Text CachedZone → Dict Text CachedZone → Bool
any_other old [] = false
any_other old ((name, c) ∷ d) = other_zone old name c || any_other old d

unfoldable pub changed : Dict Text CachedZone → Dict Text CachedZone → Bool
changed old new = not (length new == length old) || any_other old new

-- What a reload ends with; `reloaded` has the origins for NOTIFY. A nil zone stops the process.
pub data ReloadResult : Type 0 where
  error unchanged crash : ReloadResult
  reloaded : List Text → ReloadResult

unfoldable pub swap : Plugin → Loaded → Plugin × ReloadResult
swap p l =
    if changed p.cache l.cache
    then (l, reloaded (serial_changed_zones p.zones l.zones))
    else (record l { zones = p.zones }, unchanged)

module _ (dns : Dns) where
  unfoldable pub reload_zones : Source → Plugin → Plugin × ReloadResult
  reload_zones source p = elim (load dns source p.cache p.next) [
    | done l ↦ swap p l
    | load_failed ↦ (p, error)
    | nil_zone ↦ (p, crash)
  ]
