-- ===== src/Grpc.antt =====
-- internal/grpcserver: the services that change the store by hand and signal the main loop, and the check
-- of the token in front of them.
pub mod Calls
mod Tests
use coredns_netbox.Base.{
  ℕ, ◌+◌, Bool, true, false, not, ◌&&◌, ◌||◌, Option, none, some, List, [], ◌∷◌, ◌++◌, map, arith,
  if◌then◌else◌, ltb, ◌==◌, nat_eq, length, keep, any,
}
use coredns_netbox.Base.Text.{Text, codes, text_eq, to_lower}
use coredns_netbox.Base.Dict.{Dict, insert}
use coredns_netbox.Record.{IpRecord, zero_record}
use coredns_netbox.Merge.{ZoneMap}
use coredns_netbox.Store
use coredns_netbox.Store.{Fault, FileStore, get_records}
use coredns_netbox.Shrink.{Override, arm}

-- The message `Record`.
pub record PbRecord : Type 0 where
  pub dns_name : Text
  pub address : Text
  pub family : ℕ
  pub ttl : ℕ

-- The codes of gRPC that the services answer with.
pub data Status : Type 0 where
  ok internal already_exists unauthenticated : Status

-- What the services change; each channel holds one signal.
pub record Service : Type 0 where
  pub store : FileStore
  pub merge_signal : Bool
  pub netbox_signal : Bool
  pub override : Override

unfoldable pub proto_to_ip_record : PbRecord → IpRecord
proto_to_ip_record r = record zero_record {
  dns_name = r.dns_name;
  address = r.address;
  family = r.family;
  ttl = r.ttl;
}

unfoldable pub ip_record_to_proto : IpRecord → PbRecord
ip_record_to_proto r = record {
  dns_name = r.dns_name;
  address = r.address;
  family = r.family;
  ttl = r.ttl;
}

-- `HasRecord` of the cache of NetBox's zones.
unfoldable pub has_record : ZoneMap → Text → Bool
has_record [] fqdn = false
has_record ((_, recs) ∷ rest) fqdn = any (λ r. r.dns_name == fqdn) recs || has_record rest fqdn

unfoldable pub signal : Service → Service
signal s = record s { merge_signal = true }

unfoldable pub create_zone : Text → Option Fault → Service → Service × Status
create_zone name e s =
    let (store, err) = Store.create_zone name e s.store in
    elim err [
      | some x ↦ (record s { store = store }, Status.internal)
      | none ↦ (signal (record s { store = store }), Status.ok)
    ]

unfoldable pub delete_zone : Text → Option Fault → Service → Service × Status
delete_zone name e s =
    let (store, err) = Store.delete_zone name e s.store in
    elim err [
      | some x ↦ (record s { store = store }, Status.internal)
      | none ↦ (signal (record s { store = store }), Status.ok)
    ]

unfoldable pub upsert_record :
    ZoneMap → Bool → Text → PbRecord → Option Fault → Service → Service × Status
upsert_record cache force zone r e s = elim (not force && has_record cache r.dns_name) [
  | true ↦ (s, Status.already_exists)
  | false ↦
      let (store, err) = Store.upsert_records zone (proto_to_ip_record r ∷ []) e s.store in
      elim err [
        | some x ↦ (record s { store = store }, Status.internal)
        | none ↦ (signal (record s { store = store }), Status.ok)
      ]
]

unfoldable pub delete_record : Text → Text → Option Fault → Service → Service × Status
delete_record zone name e s =
    let (store, err) = Store.delete_records zone (name ∷ []) e s.store in
    elim err [
      | some x ↦ (record s { store = store }, Status.internal)
      | none ↦ (signal (record s { store = store }), Status.ok)
    ]

unfoldable pub list_records : Text → Service → List PbRecord
list_records zone s = map ip_record_to_proto (get_records zone s.store)

-- The names of the request that NetBox has.
unfoldable pub conflicts : ZoneMap → Dict Text (List PbRecord) → List Text
conflicts cache [] = []
conflicts cache ((_, recs) ∷ rest) =
    keep (has_record cache) (map (λ (r : PbRecord). r.dns_name) recs) ++ conflicts cache rest

-- The loop that fills the map `batch`.
unfoldable pub batch_of :
    Dict Text (List PbRecord) → Dict Text (List IpRecord) → Dict Text (List IpRecord)
batch_of [] batch = batch
batch_of ((zone, recs) ∷ rest) batch =
    batch_of rest (insert zone (map proto_to_ip_record recs) batch)

unfoldable pub batch_upsert :
    ZoneMap → Bool → Dict Text (List PbRecord) → Option Fault → Service → Service × Status
batch_upsert cache force zone_records e s =
    elim (not force && ltb 0 (length (conflicts cache zone_records))) [
      | true ↦ (s, Status.already_exists)
      | false ↦
          let (store, err) = Store.batch_upsert (batch_of zone_records []) e s.store in
          elim err [
            | some x ↦ (record s { store = store }, Status.internal)
            | none ↦ (signal (record s { store = store }), Status.ok)
          ]
    ]

unfoldable pub batch_delete : Text → List Text → Option Fault → Service → Service × Status
batch_delete zone names e s =
    let (store, err) = Store.batch_delete zone names e s.store in
    elim err [
      | some x ↦ (record s { store = store }, Status.internal)
      | none ↦ (signal (record s { store = store }), Status.ok)
    ]

-- A request to `DynamicZoneService` that may change the store, and the handler that it goes to.
pub data Request : Type 0 where
  create_zone_request delete_zone_request : Text → Request
  upsert_record_request : Bool → Text → PbRecord → Request
  delete_record_request : Text → Text → Request
  batch_upsert_request : Bool → Dict Text (List PbRecord) → Request
  batch_delete_request : Text → List Text → Request

unfoldable pub handle : ZoneMap → Request → Option Fault → Service → Service × Status
handle cache (create_zone_request name) = create_zone name
handle cache (delete_zone_request name) = delete_zone name
handle cache (upsert_record_request force zone r) = upsert_record cache force zone r
handle cache (delete_record_request zone name) = delete_record zone name
handle cache (batch_upsert_request force zone_records) = batch_upsert cache force zone_records
handle cache (batch_delete_request zone names) = batch_delete zone names

-- `ForceNetboxPoll` and `ForceMergeWrite`.
unfoldable pub force_netbox_poll : Bool → Service → Service
force_netbox_poll allow_shrink s = record s {
  override = if allow_shrink then arm s.override else s.override;
  netbox_signal = true;
}

unfoldable pub force_merge_write : Service → Service
force_merge_write s = record s { merge_signal = true }

-- `strings.EqualFold` on ASCII.
unfoldable pub equal_fold : Text → Text → Bool
equal_fold a b = to_lower a == to_lower b

-- `authInterceptor`: `none` is a call without metadata, and the list holds its values of
-- "authorization".
unfoldable pub admits_call : Text → Option (List Text) → Bool
admits_call token metadata = if token == [] then true else elim metadata [
  | none ↦ false
  | some [] ↦ false
  | some (v ∷ vs) ↦ equal_fold v (codes "bearer " ++ token)
]

unfoldable pub guarded :
    Text → Option (List Text) → (Service → Service × Status) → Service → Service × Status
guarded token metadata handler s =
    if admits_call token metadata then handler s else (s, Status.unauthenticated)
