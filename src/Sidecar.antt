-- ===== src/Sidecar.antt =====
-- cmd/sidecar/main.go: the poll of NetBox with its shrink guard, and the loop of `run`. Each case of the
-- loop's `select` is a step. Zone discovery and the naming of devices are parameters.
pub mod Consent
pub mod Outage
mod Tests
use coredns_netbox.Base.{
  ℕ, ◌+◌, Bool, true, false, not, ◌&&◌, ◌||◌, Option, none, some, List, [], ◌∷◌, ◌++◌, arith,
  if◌then◌else◌, leb, ◌==◌, nat_eq, length, keep,
}
use coredns_netbox.Base.Text.{Text, text_eq, has_suffix, trim_suffix, dot}
use coredns_netbox.Base.Dict.{Dict, insert}
use coredns_netbox.Record.{IpRecord}
use coredns_netbox.Merge.{ZoneMap, Discoverer}
use coredns_netbox.Store.{Fault, FileStore, reconcile_webhook_sourced}
use coredns_netbox.Manager.{Settings, Manager, World, has_existing_zones}
use coredns_netbox.Publish.{write}
use coredns_netbox.Shrink.{
  Floats, Config, Baseline, Override, empty_result, evaluate, from_zone_counts, consume_if_armed,
}

-- `QualifyDNSName` of internal/zonediscovery/qualify.go.
unfoldable pub qualify_dns_name : Text → Text → Text
qualify_dns_name name suffix =
    let bare = trim_suffix name (dot ∷ []) in
    if name == [] || suffix == []
    then name
    else if has_suffix bare (dot ∷ suffix)
    then name
    else bare ++ dot ∷ suffix

-- The loop of `enrichRecordsWithDeviceNames`: the records that have a name, and those that have none.
unfoldable pub with_names : Text → List IpRecord → List IpRecord
with_names suffix [] = []
with_names suffix (r ∷ rs) =
    let rest = with_names suffix rs in
    if r.dns_name == []
    then rest
    else record r { dns_name = qualify_dns_name r.dns_name suffix } ∷ rest

unfoldable pub without_names : List IpRecord → List IpRecord
without_names = keep (λ r. r.dns_name == [])

-- `countZoneRecords`
unfoldable pub count_zone_records : ZoneMap → Dict Text ℕ
count_zone_records [] = []
count_zone_records ((zone, recs) ∷ rest) = (zone, length recs) ∷ count_zone_records rest

-- `maps.Copy`
unfoldable pub copy_zones : ZoneMap → ZoneMap → ZoneMap
copy_zones zones [] = zones
copy_zones zones ((zone, recs) ∷ rest) = copy_zones (insert zone recs zones) rest

unfoldable pub merge_allowed : Bool → Bool → Bool
merge_allowed fetch_succeeded_once has_zones = fetch_succeeded_once || not has_zones

unfoldable pub ready_to_serve : Bool → Bool → Bool
ready_to_serve published has_zones = published || has_zones

-- `now.Sub(last) >= min`; `none` is the zero time, from which any wait has passed.
unfoldable pub webhook_poll_allowed : Option ℕ → ℕ → ℕ → Bool
webhook_poll_allowed last now min = elim last [ none ↦ true | some t ↦ leb (t + min) now ]

-- The outcome of `--run-once`: whether it returns an error.
unfoldable pub run_once_fails : Bool → Bool → Bool
run_once_fails poll_failed has_cached_zones = poll_failed && not has_cached_zones

-- What one round of the loop meets: what NetBox returns, with `none` for an error, the clock, the file
-- operations, and the write of the reconciliation.
pub record Round : Type 0 where
  pub fetched : Option (List IpRecord)
  pub fetch_start : ℕ
  pub now : ℕ
  pub world : World
  pub store_write : Option Fault

pub data Trigger : Type 0 where
  tick force_poll merge webhook_poll : Trigger

pub record Sidecar : Type 0 where
  pub store : FileStore
  pub manager : Manager
  pub last_baseline : Baseline
  pub fetch_succeeded_once : Bool
  pub last_netbox_zones : ZoneMap
  pub override : Override
  pub ready : Bool
  pub last_success : ℕ
  pub last_webhook_poll : Option ℕ
  -- The calls of `rl.Reload`.
  pub reloads : ℕ

-- The arguments that `run` never changes.
pub record Deployment (F : Type 0) : Type 0 where
  pub floats : Floats F
  pub guard : Config F
  pub settings : Settings
  pub domain_suffix : Text
  -- `DeviceDNSToRecords` after `SelectDeviceIPs`.
  pub device_records : List IpRecord → List IpRecord
  pub forward : Discoverer
  pub reverse : Option Discoverer
  -- `StripDCLabel`, or nothing.
  pub strip : List IpRecord → List IpRecord
  pub webhook_poll_min_interval : ℕ
  pub sha : Text → Text

module _ {F : Type 0} (d : Deployment F) where
  unfoldable pub enrich : List IpRecord → List IpRecord
  enrich records = with_names d.domain_suffix records ++ d.device_records (without_names records)

  -- The zones that discovery finds, `none` where it fails.
  unfoldable pub discover : List IpRecord → Option ZoneMap
  discover enriched = elim (d.forward enriched) [
    | none ↦ none
    | some forward_zones ↦ elim d.reverse [
      | none ↦ some forward_zones
      | some disc ↦ elim (disc enriched) [
        | none ↦ none
        | some reverse_zones ↦ some (copy_zones forward_zones reverse_zones)
      ]
    ]
  ]

  -- The end of `fetchNetbox`, over the zones that are about to be published.
  unfoldable pub judge : Baseline → Override → ZoneMap → Option (ZoneMap × Baseline) × Override
  judge prev override combined =
      let now = from_zone_counts (count_zone_records combined) in
      let (armed, spent) = consume_if_armed override in
      if (evaluate d.floats d.guard prev now).refuse && not armed
      then (none, spent)
      else (some (combined, now), spent)

  -- `fetchNetbox`
  unfoldable pub fetch_netbox :
      Option (List IpRecord) → Baseline → Override → Option (ZoneMap × Baseline) × Override
  fetch_netbox fetched prev override = elim fetched [
    | none ↦ (none, override)
    | some records ↦
        if (empty_result d.floats prev (length records)).refuse
        then (none, (consume_if_armed override).1)
        else elim (discover (enrich records)) [
          | none ↦ (none, override)
          | some zones ↦ judge prev override zones
        ]
  ]

  unfoldable pub strip_zones : ZoneMap → ZoneMap
  strip_zones [] = []
  strip_zones ((zone, recs) ∷ rest) = (zone, d.strip recs) ∷ strip_zones rest

  -- `doFetchNetbox`: whether it succeeds, and the state, which has the new zones where it does.
  unfoldable pub do_fetch : Round → Sidecar → Bool × Sidecar
  do_fetch r s =
      let (result, override) = fetch_netbox r.fetched s.last_baseline s.override in
      elim result [
        | none ↦ (false, record s { override = override })
        | some (zones, baseline) ↦ (
          true,
          record s {
            override = override;
            last_baseline = baseline;
            fetch_succeeded_once = true;
            last_netbox_zones = strip_zones zones;
            store = (reconcile_webhook_sourced r.fetch_start r.store_write s.store).0;
          },
        )
      ]

  -- `guardedMergeAndWrite` of the last zones: whether a file changed, `none` for an error.
  unfoldable pub guarded_merge : Round → Sidecar → Option Bool × Sidecar
  guarded_merge r s =
      let (changed, m) =
        write d.sha d.settings r.world s.last_netbox_zones s.store d.reverse s.manager in
      if merge_allowed s.fetch_succeeded_once (has_existing_zones s.manager)
      then (changed, record s { manager = m })
      else (none, s)

  abbrev pub reload_if : Bool → Sidecar → Sidecar
  reload_if changed s = if changed then record s { reloads = s.reloads + 1 } else s

  -- The merge of `pollAndMerge` and of the signal to merge.
  unfoldable pub merge_and_reload : Round → Sidecar → Sidecar
  merge_and_reload r s =
      let (result, s') = guarded_merge r s in
      elim result [ none ↦ s' | some changed ↦ reload_if changed s' ]

  unfoldable pub poll_and_merge : Round → Sidecar → Sidecar
  poll_and_merge r s = merge_and_reload r (do_fetch r s).1

  -- The case of the ticker.
  unfoldable pub on_tick : Round → Sidecar → Sidecar
  on_tick r s =
      let (fetched, s1) = do_fetch r s in
      let (result, s2) = guarded_merge r s1 in
      elim result [
        | none ↦ s2
        | some changed ↦
            reload_if changed (record s2 {
              last_success = if fetched then r.now else s2.last_success;
              ready = true;
            })
      ]

  unfoldable pub on_webhook_poll : Round → Sidecar → Sidecar
  on_webhook_poll r s =
      if webhook_poll_allowed s.last_webhook_poll r.now d.webhook_poll_min_interval
      then poll_and_merge r (record s { last_webhook_poll = some r.now })
      else s

  -- One round of the loop of `run`. Its initial poll is a round of the ticker.
  unfoldable pub step : Trigger → Round → Sidecar → Sidecar
  step Trigger.tick r s = on_tick r s
  step Trigger.force_poll r s = poll_and_merge r s
  step Trigger.merge r s = merge_and_reload r s
  step Trigger.webhook_poll r s = on_webhook_poll r s

  unfoldable pub run_rounds : List (Trigger × Round) → Sidecar → Sidecar
  run_rounds [] s = s
  run_rounds ((t, r) ∷ rest) s = run_rounds rest (step t r s)
