-- ===== src/Store/Disk.antt =====
-- What `persist` of internal/dynamicstore/file_store.go leaves on disk, and what a restart reads.
use coredns_netbox.Base.{
  ℕ, ◌+◌, ◌≡◌, refl, inl, inr, true, Bool, false, not, Option, none, some, List, [], ◌∷◌, arith,
  nat_eq, keep, any, if◌then◌else◌, Bool-cases,
}
use coredns_netbox.Base.Text.{text_eq}
use coredns_netbox.Base.Dict.{has_key}
use coredns_netbox.Record.{IpRecord}
use coredns_netbox.Store
use coredns_netbox.Store.{
  Zones, Fault, add_temp, remove_temp, FileStore, Outcome, persist, new_file_store, is_superseded,
  reconcile_zones, reconcile_changed,
}
use coredns_netbox.Store.View.{Op, run_op, written}

-- The file holds what memory holds.
abbrev pub IsSynced : FileStore → Type 0
IsSynced f = f.file ≡ some f.data_zones

-- The process restarts over the file that is there.
abbrev pub restart : FileStore → FileStore
restart f = new_file_store f.temps f.file

persist-file :
    (e : Option Fault) (f : FileStore)
    → (persist e f).0.file
      ≡ elim (persist e f).1 as (λ _. Option Zones) [ none ↦ some f.data_zones | some _ ↦ f.file ]
unfolding persist
persist-file e f = ground arith

keep_all :
    (p : IpRecord → Bool) (es : List IpRecord) → any p es ≡ false → keep (λ r. not (p r)) es ≡ es
keep_all p [] h = refl
keep_all p (r ∷ es) h = ground (arith, keep_all p es)

reconcile_zones_unchanged :
    (cutoff : ℕ) (zones : Zones)
    → reconcile_changed cutoff zones ≡ false
    → reconcile_zones cutoff zones ≡ zones
unfolding reconcile_changed reconcile_zones
reconcile_zones_unchanged cutoff [] h = refl
reconcile_zones_unchanged cutoff ((zone, recs) ∷ rest) h =
    ground (arith, reconcile_zones_unchanged cutoff rest, keep_all (is_superseded cutoff) recs)

-- A method that returns no error leaves a file that a restart reads back as exactly the zones in
-- memory, if the file held them before the call.
pub run_op-restart :
    (op : Op) (e : Option Fault) (f : FileStore)
    → IsSynced f
    → (run_op op e f).1 ≡ none
    → (restart (run_op op e f).0).data_zones ≡ written op f.data_zones
unfolding run_op written Store.create_zone Store.delete_zone Store.upsert_records
    Store.delete_records Store.batch_upsert Store.batch_delete Store.reconcile_webhook_sourced
    persist new_file_store
run_op-restart (Op.reconcile cutoff) e f s h =
    ground (arith, reconcile_zones_unchanged cutoff f.data_zones)
run_op-restart _ e f s h = ground arith

-- The temporary files that a failure leaves: one where it was created and os.Remove failed.
abbrev pub remains : Fault → ℕ
remains x = elim x [
  | Fault.marshal ↦ 0
  | Fault.create_temp ↦ 0
  | Fault.write stuck ↦ if stuck then 1 else 0
  | Fault.close stuck ↦ if stuck then 1 else 0
  | Fault.rename stuck ↦ if stuck then 1 else 0
]

persist-error :
    (e : Option Fault) (f : FileStore) (x : Fault)
    → (persist e f).1 ≡ some x
    → ((persist e f).0.file ≡ f.file) × ((persist e f).0.temps ≡ f.temps + remains x)
unfolding persist add_temp remove_temp
persist-error none f x h = absurd (ground (arith, h))
persist-error (some Fault.marshal) f x h = ground (arith, h)
persist-error (some Fault.create_temp) f x h = ground (arith, h)
persist-error (some (Fault.write true)) f x h = ground (arith, h)
persist-error (some (Fault.write false)) f x h = ground (arith, h)
persist-error (some (Fault.close true)) f x h = ground (arith, h)
persist-error (some (Fault.close false)) f x h = ground (arith, h)
persist-error (some (Fault.rename true)) f x h = ground (arith, h)
persist-error (some (Fault.rename false)) f x h = ground (arith, h)

new_file_store-zones :
    (f g : FileStore) → f.file ≡ g.file → (restart f).data_zones ≡ (restart g).data_zones
unfolding new_file_store
new_file_store-zones f g h = ground (arith, h)

run_op_failing :
    (op : Op) (e : Option Fault) (f : FileStore) (x : Fault)
    → (run_op op e f).1 ≡ some x
    → ((run_op op e f).0.file ≡ f.file) × ((run_op op e f).0.temps ≡ f.temps + remains x)
unfolding run_op Store.create_zone Store.delete_zone Store.upsert_records Store.delete_records
    Store.batch_upsert Store.batch_delete Store.reconcile_webhook_sourced
run_op_failing (Op.create_zone z) e f x h = elim (Bool-cases (has_key z f.data_zones)) [
  | inl k ↦ rw k (persist-error e f x (rw k at h))
  | inr k ↦ rw k (persist-error e _ x (rw k at h))
]
run_op_failing (Op.reconcile cutoff) e f x h =
    elim (Bool-cases (reconcile_changed cutoff f.data_zones)) [
      | inl k ↦ rw k (persist-error e _ x (rw k at h))
      | inr k ↦ absurd (ground (arith, h, k))
    ]
run_op_failing _ e f x h = persist-error e _ x h

-- A method that returns an error leaves the file as it was, so a restart reads what it would have
-- read before the call; and it leaves one more temporary file exactly where it had created one and
-- could not remove it.
pub run_op-error :
    (op : Op) (e : Option Fault) (f : FileStore) (x : Fault)
    → (run_op op e f).1 ≡ some x
    → ((run_op op e f).0.file ≡ f.file)
      × ((restart (run_op op e f).0).data_zones ≡ (restart f).data_zones)
      × ((run_op op e f).0.temps ≡ f.temps + remains x)
run_op-error op e f x h =
    let (file, temps) = run_op_failing op e f x h in
    (file, new_file_store-zones (run_op op e f).0 f file, temps)
