-- ===== src/Grpc/Tests.antt =====
-- Runs of the services of internal/grpcserver.
use coredns_netbox.Base.{◌≡◌, refl, true, false, none, some, [], ◌∷◌, nat_eq}
use coredns_netbox.Base.Text.{codes, text_eq, to_lower}
use coredns_netbox.Merge.{ZoneMap}
use coredns_netbox.Store
use coredns_netbox.Grpc.{
  PbRecord, Status, Service, batch_upsert, Request, batch_upsert_request, handle, conflicts,
  admits_call, has_record,
}
use coredns_netbox.Grpc.Calls.{conflicting_batch_refused, batch_zone_twice, token_in_any_case}
use coredns_netbox.Samples.{lab, web_name, db_name, web_by_hand, sample_store}

abbrev service : Service
service = record {
  store = sample_store;
  merge_signal = false;
  netbox_signal = false;
  override = record { armed = false };
}

abbrev new_web : PbRecord
new_web = record { dns_name = web_name; address = codes "10.0.0.5"; family = 4; ttl = 60 }

abbrev new_db : PbRecord
new_db = record { dns_name = db_name; address = codes "10.0.0.6"; family = 4; ttl = 60 }

abbrev polled : ZoneMap
polled = (lab, web_by_hand ∷ []) ∷ []

abbrev batch : Request
batch = batch_upsert_request false ((lab, new_db ∷ []) ∷ [])

batch_run : (handle polled batch none service).1 ≡ Status.ok
unfolding handle batch_upsert conflicts has_record text_eq Store.batch_upsert Store.persist
batch_run = refl

conflicting_batch_refused_run :
    batch_upsert polled false ((lab, new_db ∷ new_web ∷ []) ∷ []) none service
    ≡ (service, Status.already_exists)
unfolding text_eq has_record
conflicting_batch_refused_run =
    conflicting_batch_refused polled ((lab, new_db ∷ new_web ∷ []) ∷ []) lab (new_db ∷ new_web ∷ [])
      web_name none service refl refl refl

batch_zone_twice_run :
    batch_upsert polled true ((lab, new_db ∷ []) ∷ (lab, new_web ∷ []) ∷ []) none service
    ≡ batch_upsert polled true ((lab, new_web ∷ []) ∷ []) none service
batch_zone_twice_run = batch_zone_twice polled lab (new_db ∷ []) (new_web ∷ []) none service

token_in_any_case_run : admits_call (codes "Secret") (some (codes "bearer sECRET" ∷ [])) ≡ true
unfolding to_lower
token_in_any_case_run = token_in_any_case (codes "Secret") (codes "sECRET") [] refl
