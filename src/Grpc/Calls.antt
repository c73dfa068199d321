-- ===== src/Grpc/Calls.antt =====
-- What a caller of the services of internal/grpcserver can rely on.
use coredns_netbox.Base.{
  ◌<◌, ◌≡◌, Bool, true, false, Option, none, some, List, [], ◌∷◌, ◌++◌, map, arith, nat_eq, length,
  keep, contains, length-append,
}
use coredns_netbox.Base.Text.{Text, codes, text_eq, to_lower}
use coredns_netbox.Base.Dict.{Dict, lookup}
use coredns_netbox.Merge.{ZoneMap}
use coredns_netbox.Store.{Fault, Outcome}
use coredns_netbox.Store.View.{Op, promised}
use coredns_netbox.Store.Effects.{view}
use coredns_netbox.Store.Disk.{restart}
use coredns_netbox.Grpc.{
  PbRecord, Status, ok, internal, already_exists, unauthenticated, Service, signal, has_record,
  proto_to_ip_record, create_zone, delete_zone, batch_delete, Request, create_zone_request,
  delete_zone_request, upsert_record_request, delete_record_request, batch_upsert_request,
  batch_delete_request, conflicts, batch_of, batch_upsert, equal_fold, admits_call,
}

-- What a request asks of the store. Where a batch has two entries for a zone, the last one counts.
abbrev pub asked : Request → Op
asked (create_zone_request name) = Op.create_zone name
asked (delete_zone_request name) = Op.delete_zone name
asked (upsert_record_request force zone r) = Op.upsert_records zone (proto_to_ip_record r ∷ [])
asked (delete_record_request zone name) = Op.delete_records zone (name ∷ [])
asked (batch_upsert_request force zone_records) = Op.batch_upsert (batch_of zone_records [])
asked (batch_delete_request zone names) = Op.batch_delete zone names

abbrev pub is_forced : Request → Bool
is_forced (upsert_record_request force zone r) = force
is_forced (batch_upsert_request force zone_records) = force
is_forced _ = true

-- What a status tells the caller of the request `op` about the service before and after it.
pub Tells : Op → Bool → Service → Service → Status → Type 0
Tells op forced s s' ok =
    (s'.merge_signal ≡ true)
    × ((z n : Text)
        → view (restart s'.store).data_zones z n ≡ promised op z n (view s.store.data_zones z n))
Tells op forced s s' internal =
    (s'.merge_signal ≡ s.merge_signal)
    × ((restart s'.store).data_zones ≡ (restart s.store).data_zones)
Tells op forced s s' already_exists = (s' ≡ s) × (forced ≡ false)
Tells op forced s s' unauthenticated = ⊥

-- The end that the handlers have in common.
abbrev finish : Service → Outcome → Service × Status
finish s (store, err) = elim err [
  | some x ↦ (record s { store = store }, Status.internal)
  | none ↦ (signal (record s { store = store }), Status.ok)
]

keep_has :
    (p : Text → Bool) (ns : List Text) (n : Text)
    → contains ns n ≡ true
    → p n ≡ true
    → 0 < length (keep p ns)
keep_has p [] n h k = ground (arith, h)
keep_has p (m ∷ ns) n h k = ground (arith, h, k, keep_has p ns n)

conflicts_positive :
    (cache : ZoneMap) (zrs : Dict Text (List PbRecord)) (zone : Text) (recs : List PbRecord)
    (n : Text)
    → lookup zone zrs ≡ some recs
    → contains (map (λ (r : PbRecord). r.dns_name) recs) n ≡ true
    → has_record cache n ≡ true
    → 0 < length (conflicts cache zrs)
unfolding conflicts
conflicts_positive cache [] zone recs n h k c = ground (arith, h)
conflicts_positive cache ((z, rs) ∷ zrs) zone recs n h k c =
    let here : List Text = map (λ (r : PbRecord). r.dns_name) rs in
    ground (
      arith,
      h,
      k,
      c,
      keep_has (has_record cache) here n,
      length-append (keep (has_record cache) here) (conflicts cache zrs),
      conflicts_positive cache zrs zone recs n,
    )

-- Without `force`, a batch with a name that NetBox has is refused and changes nothing.
pub conflicting_batch_refused :
    (cache : ZoneMap) (zrs : Dict Text (List PbRecord)) (zone : Text) (recs : List PbRecord)
    (n : Text) (e : Option Fault) (s : Service)
    → lookup zone zrs ≡ some recs
    → contains (map (λ (r : PbRecord). r.dns_name) recs) n ≡ true
    → has_record cache n ≡ true
    → batch_upsert cache false zrs e s ≡ (s, Status.already_exists)
unfolding batch_upsert
conflicting_batch_refused cache zrs zone recs n e s h k c =
    ground (arith, conflicts_positive cache zrs zone recs n h k c)

-- With `force`, a batch of two entries for one zone is answered like, and leaves what, the batch of the
-- second entry alone does: the records of the first are lost.
pub batch_zone_twice :
    (cache : ZoneMap) (z : Text) (first last : List PbRecord) (e : Option Fault) (s : Service)
    → batch_upsert cache true ((z, first) ∷ (z, last) ∷ []) e s
      ≡ batch_upsert cache true ((z, last) ∷ []) e s
unfolding batch_upsert batch_of
batch_zone_twice cache z first last e s = ground arith

-- A call whose first authorization is "bearer " and a text that differs from the token at most in the
-- case of its letters is let in.
pub token_in_any_case :
    (token given : Text) (vs : List Text)
    → to_lower given ≡ to_lower token
    → admits_call token (some ((codes "bearer " ++ given) ∷ vs)) ≡ true
unfolding admits_call equal_fold to_lower
token_in_any_case token given vs h = ground (arith, h)
