-- ===== src/Store/View.antt =====
-- The store as a client of the interface in internal/dynamicstore/store.go sees it: the record of
-- each name in a zone. Every method is an update of this view.
use coredns_netbox.Base.{
  ℕ, ◌≡◌, not, ◌&&◌, Option, none, some, List, [], arith, if◌then◌else◌, ◌==◌, nat_eq, if_of_both,
  keep, contains,
}
use coredns_netbox.Base.Text.{Text, text_eq}
use coredns_netbox.Base.Dict.{Dict, lookup, insert, erase, has_key, lookup-insert}
use coredns_netbox.Record.{IpRecord}
use coredns_netbox.Store
use coredns_netbox.Store.{
  Zones, Fault, FileStore, Outcome, persist, upsert, delete_by_names, upsert_all, reconcile_zones,
  reconcile_changed,
}
use coredns_netbox.Store.Effects.{
  view, IsWellFormed, newest, newest_all, unless_superseded, upsert-IsWellFormed, view-upsert,
  delete_by_names-IsWellFormed, view-delete_by_names, upsert_all-IsWellFormed, view-upsert_all,
  reconcile_zones-IsWellFormed, view-reconcile_zones, erase-IsWellFormed, lookup_or-erase,
  insert-IsWellFormed, lookup_or-insert,
}

-- The mutating methods of `DynamicStore`.
pub data Op : Type 0 where
  create_zone : Text → Op
  delete_zone : Text → Op
  upsert_records : Text → List IpRecord → Op
  delete_records : Text → List Text → Op
  batch_upsert : Dict Text (List IpRecord) → Op
  batch_delete : Text → List Text → Op
  reconcile : ℕ → Op

unfoldable pub run_op : Op → Option Fault → FileStore → Outcome
run_op (create_zone z) = Store.create_zone z
run_op (delete_zone z) = Store.delete_zone z
run_op (upsert_records z rs) = Store.upsert_records z rs
run_op (delete_records z ns) = Store.delete_records z ns
run_op (batch_upsert zrs) = Store.batch_upsert zrs
run_op (batch_delete z ns) = Store.batch_delete z ns
run_op (reconcile cutoff) = Store.reconcile_webhook_sourced cutoff

-- What each method promises of the record of `n` in `z`.
abbrev pub promised : Op → Text → Text → Option IpRecord → Option IpRecord
promised (create_zone zone) z n old = old
promised (delete_zone zone) z n old = if z == zone then none else old
promised (upsert_records zone rs) z n old = if z == zone then newest n rs old else old
promised (delete_records zone ns) z n old = if z == zone && contains ns n then none else old
promised (batch_upsert zrs) z n old = newest_all z n zrs old
promised (batch_delete zone ns) z n old = if z == zone && contains ns n then none else old
promised (reconcile cutoff) z n old = unless_superseded cutoff old

-- The zones that a method leaves in memory.
unfoldable pub written : Op → Zones → Zones
written (create_zone z) zones = if has_key z zones then zones else insert z [] zones
written (delete_zone z) zones = erase z zones
written (upsert_records z rs) zones = upsert z rs zones
written (delete_records z ns) zones = delete_by_names z ns zones
written (batch_upsert zrs) zones = upsert_all zrs zones
written (batch_delete z ns) zones = delete_by_names z ns zones
written (reconcile cutoff) zones = reconcile_zones cutoff zones

data_zones-persist : (e : Option Fault) (f : FileStore) → (persist e f).0.data_zones ≡ f.data_zones
unfolding persist
data_zones-persist e f = ground arith

-- Memory has the change whatever becomes of the file.
pub data_zones-run_op :
    (op : Op) (e : Option Fault) (f : FileStore)
    → (run_op op e f).0.data_zones ≡ written op f.data_zones
unfolding run_op written Store.create_zone Store.delete_zone Store.upsert_records
    Store.delete_records Store.batch_upsert Store.batch_delete Store.reconcile_webhook_sourced
    persist
data_zones-run_op (create_zone z) e f = ground arith
data_zones-run_op _ e f = ground arith

written-IsWellFormed :
    (op : Op) (zones : Zones) → IsWellFormed zones → IsWellFormed (written op zones)
unfolding written
written-IsWellFormed (create_zone z) zones w =
    if_of_both IsWellFormed (has_key z zones) w (insert-IsWellFormed z [] zones tt w)
written-IsWellFormed (delete_zone z) zones w = erase-IsWellFormed z zones w
written-IsWellFormed (upsert_records z rs) zones w = upsert-IsWellFormed z rs zones w
written-IsWellFormed (delete_records z ns) zones w = delete_by_names-IsWellFormed z ns zones w
written-IsWellFormed (batch_upsert zrs) zones w = upsert_all-IsWellFormed zrs zones w
written-IsWellFormed (batch_delete z ns) zones w = delete_by_names-IsWellFormed z ns zones w
written-IsWellFormed (reconcile cutoff) zones w = reconcile_zones-IsWellFormed cutoff zones w

view-written :
    (op : Op) (zones : Zones) (z n : Text)
    → IsWellFormed zones
    → view (written op zones) z n ≡ promised op z n (view zones z n)
unfolding written
view-written (create_zone zone) zones z n w = ground (arith, lookup_or-insert zone [] zones z)
view-written (delete_zone zone) zones z n w = ground (arith, lookup_or-erase zone z zones)
view-written (upsert_records zone rs) zones z n w = view-upsert zone rs zones z n w
view-written (delete_records zone ns) zones z n w = view-delete_by_names zone ns zones z n w
view-written (batch_upsert zrs) zones z n w = view-upsert_all zrs zones z n w
view-written (batch_delete zone ns) zones z n w = view-delete_by_names zone ns zones z n w
view-written (reconcile cutoff) zones z n w = view-reconcile_zones cutoff zones z n w

-- Every method, whether its write to disk succeeds or fails, keeps each zone once and each name once
-- in its zone.
pub run_op-IsWellFormed :
    (op : Op) (e : Option Fault) (f : FileStore)
    → IsWellFormed f.data_zones
    → IsWellFormed (run_op op e f).0.data_zones
run_op-IsWellFormed op e f w =
    rw (data_zones-run_op op e f) (written-IsWellFormed op f.data_zones w)

-- Over a well-formed store every method turns the record that each name has in each zone into what
-- `promised` says of it, whether its write to disk succeeds or fails.
pub run_op-promised :
    (op : Op) (e : Option Fault) (f : FileStore) (z n : Text)
    → IsWellFormed f.data_zones
    → view (run_op op e f).0.data_zones z n ≡ promised op z n (view f.data_zones z n)
run_op-promised op e f z n w = rw (data_zones-run_op op e f) (view-written op f.data_zones z n w)

-- `DeleteRecords` of a zone that the store does not hold adds that zone, with no records.
pub delete_records_adds_zone :
    (z : Text) (ns : List Text) (e : Option Fault) (f : FileStore)
    → lookup z f.data_zones ≡ none
    → lookup z (Store.delete_records z ns e f).0.data_zones ≡ some []
unfolding Store.delete_records persist delete_by_names
delete_records_adds_zone z ns e f h = ground (
  arith,
  lookup-insert z z (keep (λ (r : IpRecord). not (contains ns r.dns_name)) []) f.data_zones,
)
