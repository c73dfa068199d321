-- ===== src/Store/Tests.antt =====
-- Runs of the store of internal/dynamicstore/file_store.go.
use coredns_netbox.Base.{true, false, ◌≡◌, refl, none, some, [], ◌∷◌, arith, nat_eq}
use coredns_netbox.Base.Text.{codes, text_eq}
use coredns_netbox.Base.Dict.{lookup_or, lookup}
use coredns_netbox.Record.{IpRecord}
use coredns_netbox.Store
use coredns_netbox.Store.Upsert.{merge_records-eq-put_records, put_record, put_records}
use coredns_netbox.Store.{merge_records, index_names, Zones, Fault, FileStore}
use coredns_netbox.Store.Effects.{view, IsWellFormed}
use coredns_netbox.Store.View.{
  Op, run_op, run_op-IsWellFormed, run_op-promised, delete_records_adds_zone,
}
use coredns_netbox.Store.Disk.{restart, run_op-restart, run_op-error}
use coredns_netbox.Samples.{lab, web_name, db_name, host, sample_zones, sample_store}

sample_zones-IsWellFormed : IsWellFormed sample_zones
unfolding text_eq
sample_zones-IsWellFormed = record { zones_once = (refl, tt); names_once = λ z. ground arith }

abbrev new_db : IpRecord
new_db = host db_name (codes "10.0.0.9")

run_op-IsWellFormed_example :
    IsWellFormed
      (run_op
        (Op.upsert_records lab (new_db ∷ []))
        (some (Fault.rename false))
        sample_store).0.data_zones
run_op-IsWellFormed_example =
    run_op-IsWellFormed (Op.upsert_records lab (new_db ∷ [])) (some (Fault.rename false))
      sample_store sample_zones-IsWellFormed

run_op-promised_example :
    view (run_op (Op.upsert_records lab (new_db ∷ [])) none sample_store).0.data_zones lab db_name
    ≡ some new_db
unfolding text_eq
run_op-promised_example =
    run_op-promised (Op.upsert_records lab (new_db ∷ [])) none sample_store lab db_name
      sample_zones-IsWellFormed

delete_records_adds_zone_run :
    lookup
      (codes "dmz.")
      (Store.delete_records (codes "dmz.") (web_name ∷ []) none sample_store).0.data_zones
    ≡ some []
unfolding text_eq
delete_records_adds_zone_run =
    delete_records_adds_zone (codes "dmz.") (web_name ∷ []) none sample_store refl

run_op-restart_example : (restart (run_op (Op.delete_zone lab) none sample_store).0).data_zones ≡ []
unfolding text_eq Store.View.written Store.delete_zone Store.persist run_op
run_op-restart_example = run_op-restart (Op.delete_zone lab) none sample_store refl refl

run_op-error_example :
    ((run_op (Op.delete_zone lab) (some (Fault.close true)) sample_store).0.file
      ≡ some sample_zones)
    × ((restart (run_op (Op.delete_zone lab) (some (Fault.close true)) sample_store).0).data_zones
        ≡ sample_zones)
    × ((run_op (Op.delete_zone lab) (some (Fault.close true)) sample_store).0.temps ≡ 1)
unfolding run_op Store.delete_zone Store.persist Store.new_file_store
run_op-error_example =
    run_op-error (Op.delete_zone lab) (some (Fault.close true)) sample_store (Fault.close true) refl

merge_records-eq-put_records_run :
    merge_records
      (new_db ∷ [])
      (lookup_or [] lab sample_zones)
      (index_names 0 (lookup_or [] lab sample_zones) [])
    ≡ host web_name (codes "10.0.0.1") ∷ new_db ∷ []
unfolding text_eq put_records put_record
merge_records-eq-put_records_run =
    merge_records-eq-put_records (new_db ∷ []) (lookup_or [] lab sample_zones)
      (sample_zones-IsWellFormed.names_once lab)
