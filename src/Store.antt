-- ===== src/Store.antt =====
-- internal/dynamicstore/file_store.go: the zones and records that are provisioned outside NetBox.
-- A method takes the outcome of each file operation that `persist` makes, and returns the new store
-- beside its error; `f.mu` makes each method one step.
pub mod Upsert
pub mod Names
pub mod Effects
pub mod View
pub mod Disk
mod Tests
use coredns_netbox.Base.{
  ℕ, zero, suc, ◌+◌, ◌-◌, Bool, true, false, not, ◌&&◌, ◌||◌, Option, none, some, List, [], ◌∷◌,
  ◌++◌, if◌then◌else◌, ◌==◌, ltb, length, set, keep, any, contains,
}
use coredns_netbox.Base.Text.{Text, text_eq}
use coredns_netbox.Base.Dict.{Dict, keys, lookup, lookup_or, insert, erase, has_key}
use coredns_netbox.Record.{IpRecord, is_webhook}

-- `storeData`
abbrev pub Zones : Type 0
Zones = Dict Text (List IpRecord)

-- The first file operation of `persist` that fails. A failing `Write`, `Close` or `Rename` says whether
-- os.Remove fails behind it.
pub data Fault : Type 0 where
  marshal create_temp : Fault
  write close rename : Bool → Fault

pub record FileStore : Type 0 where
  pub data_zones : Zones
  -- The content of the file at `path`; `none` while it does not exist.
  pub file : Option Zones
  -- The temporary files that stand beside it.
  pub temps : ℕ

-- What a method returns: the store, and its error.
abbrev pub Outcome : Type 0
Outcome = FileStore × Option Fault

unfoldable pub add_temp : FileStore → FileStore
add_temp f = record f { temps = f.temps + 1 }

-- os.Remove of the temporary file, whose error is ignored
unfoldable pub remove_temp : Bool → FileStore → FileStore
remove_temp true f = f
remove_temp false f = record f { temps = f.temps - 1 }

unfoldable pub persist : Option Fault → FileStore → Outcome
unfolding add_temp remove_temp
persist none f = (record f { file = some f.data_zones }, none)
persist (some Fault.marshal) f = (f, some Fault.marshal)
persist (some Fault.create_temp) f = (f, some Fault.create_temp)
persist (some (Fault.write stuck)) f = (remove_temp stuck (add_temp f), some (Fault.write stuck))
persist (some (Fault.close stuck)) f = (remove_temp stuck (add_temp f), some (Fault.close stuck))
persist (some (Fault.rename stuck)) f = (remove_temp stuck (add_temp f), some (Fault.rename stuck))

-- `NewFileStore`: a missing file, an unreadable one and a corrupt one give an empty store. The
-- temporary files of earlier runs stay.
unfoldable pub new_file_store : ℕ → Option Zones → FileStore
new_file_store temps none = record { data_zones = []; file = none; temps = temps }
new_file_store temps (some loaded) = record {
  data_zones = loaded;
  file = some loaded;
  temps = temps;
}

-- `make(map[string]int)` filled by `idx[r.DNSName] = i`.
unfoldable pub index_names : ℕ → List IpRecord → Dict Text ℕ → Dict Text ℕ
index_names i [] idx = idx
index_names i (r ∷ rs) idx = index_names (suc i) rs (insert r.dns_name i idx)

-- `existing[i] = r` where the index has the name, and `append(existing, r)` where it has not.
unfoldable pub write_record : Option ℕ → IpRecord → List IpRecord → List IpRecord
write_record (some i) r existing = set existing i r
write_record none r existing = existing ++ r ∷ []

unfoldable pub note_name : Option ℕ → Text → ℕ → Dict Text ℕ → Dict Text ℕ
note_name (some i) name n idx = idx
note_name none name n idx = insert name n idx

-- The merge loop of `upsert` over `existing` and `idx`.
unfoldable pub merge_records : List IpRecord → List IpRecord → Dict Text ℕ → List IpRecord
unfolding write_record note_name
merge_records [] existing idx = existing
merge_records (r ∷ rs) existing idx =
    let at = lookup r.dns_name idx in
    merge_records rs (write_record at r existing) (note_name at r.dns_name (length existing) idx)

unfoldable pub upsert : Text → List IpRecord → Zones → Zones
unfolding index_names merge_records
upsert zone records zones =
    let existing = lookup_or [] zone zones in
    insert zone (merge_records records existing (index_names 0 existing [])) zones

-- `out` is stored whether or not the zone existed.
unfoldable pub delete_by_names : Text → List Text → Zones → Zones
delete_by_names zone names zones =
    insert zone (keep (λ r. not (contains names r.dns_name)) (lookup_or [] zone zones)) zones

unfoldable pub create_zone : Text → Option Fault → FileStore → Outcome
create_zone zone e f =
    persist e (
      if has_key zone f.data_zones
      then f
      else record f { data_zones = insert zone [] f.data_zones })

unfoldable pub delete_zone : Text → Option Fault → FileStore → Outcome
delete_zone zone e f = persist e (record f { data_zones = erase zone f.data_zones })

unfoldable pub list_zones : FileStore → List Text
list_zones f = keys f.data_zones

unfoldable pub get_records : Text → FileStore → List IpRecord
get_records zone f = lookup_or [] zone f.data_zones

unfoldable pub upsert_records : Text → List IpRecord → Option Fault → FileStore → Outcome
upsert_records zone records e f =
    persist e (record f { data_zones = upsert zone records f.data_zones })

unfoldable pub delete_records : Text → List Text → Option Fault → FileStore → Outcome
delete_records zone names e f =
    persist e (record f { data_zones = delete_by_names zone names f.data_zones })

unfoldable pub upsert_all : Dict Text (List IpRecord) → Zones → Zones
upsert_all [] zones = zones
upsert_all ((zone, records) ∷ rest) zones = upsert_all rest (upsert zone records zones)

unfoldable pub batch_upsert : Dict Text (List IpRecord) → Option Fault → FileStore → Outcome
batch_upsert zone_records e f =
    persist e (record f { data_zones = upsert_all zone_records f.data_zones })

unfoldable pub batch_delete : Text → List Text → Option Fault → FileStore → Outcome
batch_delete zone names e f =
    persist e (record f { data_zones = delete_by_names zone names f.data_zones })

-- A record that `ReconcileWebhookSourced` drops.
abbrev pub is_superseded : ℕ → IpRecord → Bool
is_superseded cutoff r = is_webhook r && ltb r.applied_at cutoff

-- The two loops of `ReconcileWebhookSourced`: the zones that it leaves, and `changed`.
unfoldable pub reconcile_zones : ℕ → Zones → Zones
reconcile_zones cutoff [] = []
reconcile_zones cutoff ((zone, recs) ∷ rest) =
    (zone, keep (λ r. not (is_superseded cutoff r)) recs) ∷ reconcile_zones cutoff rest

unfoldable pub reconcile_changed : ℕ → Zones → Bool
reconcile_changed cutoff [] = false
reconcile_changed cutoff ((zone, recs) ∷ rest) =
    any (is_superseded cutoff) recs || reconcile_changed cutoff rest

unfoldable pub reconcile_webhook_sourced : ℕ → Option Fault → FileStore → Outcome
reconcile_webhook_sourced cutoff e f =
    let f' = record f { data_zones = reconcile_zones cutoff f.data_zones } in
    if reconcile_changed cutoff f.data_zones then persist e f' else (f', none)
