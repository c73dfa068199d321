-- ===== src/Webhook.antt =====
-- internal/netboxwebhook: the receiver of NetBox's events, over the store of Store.antt. The mutex
-- `h.mu` makes `apply` one step; JSON decoding, the HMAC and the zone discovery are parameters.
pub mod Settled
pub mod Events
pub mod Promise
pub mod Redelivery
pub mod Signals
mod Tests
use coredns_netbox.Base.{
  Bool, true, false, not, ◌&&◌, ◌||◌, Option, none, some, List, [], ◌∷◌, arith, if◌then◌else◌, ltb,
  ◌==◌, nat_eq,
}
use coredns_netbox.Base.Text.{Text, codes, text_eq}
use coredns_netbox.Record.{IpRecord, zero_record, is_webhook}
use coredns_netbox.Record.{IpItem}
use coredns_netbox.Merge.{Discoverer}
use coredns_netbox.Store.{get_records, upsert_records, delete_records}
pub use coredns_netbox.WebhookEvent.{
  Payload, Handler, Shared, ApplyOutcome, HookError, Handled, Faults, Response, storage_error,
  outcome_of,
}
unfoldable pub use coredns_netbox.WebhookEvent.{
  register, verify_signature, trigger_poll, status_of, renamed_from, record_from_payload,
  is_published, respond,
}

-- The first record of the name decides.
unfoldable pub pinned_in : Text → List IpRecord → Bool
pinned_in name [] = false
pinned_in name (existing ∷ rest) =
    let later = pinned_in name rest in
    if existing.dns_name == name then not (is_webhook existing) else later

unfoldable pub is_manually_pinned : Text → Text → Shared → Bool
is_manually_pinned zone name s = pinned_in name (get_records zone s.store)

-- The loop of `upsertGuarded`: whether it comes to the write.
unfoldable pub admits : IpRecord → List IpRecord → Bool
admits rec [] = true
admits rec (existing ∷ rest) =
    let later = admits rec rest in
    if existing.dns_name == rec.dns_name
    then is_webhook existing && ltb existing.applied_at rec.applied_at
    else later

unfoldable pub delete_name : Faults → Text → Text → Shared → Shared
delete_name w zone name s = record s {
  store = (delete_records zone (name ∷ []) (w name) s.store).0;
}

unfoldable pub upsert_record : Faults → Text → IpRecord → Shared → Shared
upsert_record w zone rec s = record s {
  store = (upsert_records zone (rec ∷ []) (w rec.dns_name) s.store).0;
}

-- The writes to disk that failed, as the methods of the store return them.
abbrev pub delete_error : Faults → Text → Text → Shared → Option HookError
delete_error w zone name s = storage_error (delete_records zone (name ∷ []) (w name) s.store).1

abbrev pub upsert_error : Faults → Text → IpRecord → Shared → Option HookError
upsert_error w zone rec s =
    storage_error (upsert_records zone (rec ∷ []) (w rec.dns_name) s.store).1

unfoldable pub upsert_guarded : Faults → Text → IpRecord → Shared → Shared × Bool × Option HookError
upsert_guarded w zone rec s =
    if admits rec (get_records zone s.store)
    then elim (upsert_error w zone rec s) [
      | none ↦ (upsert_record w zone rec s, true, none)
      | some e ↦ (upsert_record w zone rec s, false, some e)
    ]
    else (s, false, none)

module _ (disc : Discoverer) where
  -- `zoneFor`. Discovery may ask NetBox each time; within one event it is called at most once for each
  -- name, so that for one event its answers are a function.
  unfoldable pub zone_for : Text → Option Text
  zone_for name = elim (disc (record zero_record { dns_name = name } ∷ [])) [
    | none ↦ none
    | some [] ↦ none
    | some ((zone, _) ∷ _) ↦ some zone
  ]

  -- The deletion of one name, which `applyDelete`, the rename of `applyUpsert` and the loop of
  -- `removeUnpublished` share: the state, whether a deletion was made, and its error.
  unfoldable pub drop_name : Faults → Text → Shared → Shared × Bool × Option HookError
  drop_name w name s = elim (zone_for name) [
    | none ↦ (s, false, none)
    | some zone ↦
        if is_manually_pinned zone name s
        then (s, false, none)
        else elim (delete_error w zone name s) [
          | none ↦ (delete_name w zone name s, true, none)
          | some e ↦ (delete_name w zone name s, false, some e)
        ]
  ]

  unfoldable pub apply_delete : Faults → Payload → Shared → Handled
  apply_delete w p s = elim p.pre_change [
    | none ↦ (s, ApplyOutcome.noop, none)
    | some name ↦
        let (s', changed, e) = drop_name w name s in
        if name == []
        then (trigger_poll s, ApplyOutcome.poll_triggered, none)
        else (s', outcome_of changed, e)
  ]

  -- The loop of `removeUnpublished`, with the outcome so far.
  unfoldable pub drop_names : Faults → List Text → ApplyOutcome → Shared → Handled
  drop_names w [] outcome s = (s, outcome, none)
  drop_names w (name ∷ rest) outcome s =
      let (s', changed, e) = drop_name w name s in
      let more = drop_names w rest (if changed then ApplyOutcome.applied else outcome) s' in
      elim e [ some err ↦ (s', outcome, some err) | none ↦ more ]

  unfoldable pub remove_unpublished : Faults → Payload → Text → Shared → Handled
  remove_unpublished w p name s =
      drop_names w (elim (renamed_from p name) [ none ↦ name ∷ [] | some old ↦ name ∷ old ∷ [] ])
        ApplyOutcome.noop s

  -- What `applyUpsert` does with the new name, after a rename that has or has not changed the store.
  unfoldable pub write_new : Faults → IpRecord → Bool → Shared → Handled
  write_new w rec mutated s = elim (zone_for rec.dns_name) [
    | none ↦ (s, outcome_of mutated, none)
    | some zone ↦
        let (s', written, e) = upsert_guarded w zone rec s in
        elim e [
          | some err ↦ (s', outcome_of mutated, some err)
          | none ↦ (s', outcome_of (mutated || written), none)
        ]
  ]

  unfoldable pub drop_renamed : Faults → Payload → Text → Shared → Shared × Bool × Option HookError
  drop_renamed w p name s =
      if p.event == codes "updated"
      then elim (renamed_from p name) [ none ↦ (s, false, none) | some old ↦ drop_name w old s ]
      else (s, false, none)

  unfoldable pub write_published : Faults → Payload → IpRecord → Shared → Handled
  write_published w p rec s =
      let (s', mutated, e) = drop_renamed w p rec.dns_name s in
      elim e [ some err ↦ (s', ApplyOutcome.noop, some err) | none ↦ write_new w rec mutated s' ]

  module _ (item : Text → Option IpItem) (nested flat : Text → Option Text) (h : Handler) where
    unfoldable pub apply_upsert : Faults → Payload → Shared → Handled
    apply_upsert w p s = elim (record_from_payload item p) [
      | none ↦ (s, ApplyOutcome.noop, some HookError.bad_data)
      | some rec ↦
          if rec.dns_name == []
          then (trigger_poll s, ApplyOutcome.poll_triggered, none)
          else if is_published nested flat h p
          then write_published w p rec s
          else remove_unpublished w p rec.dns_name s
    ]

    unfoldable pub apply : Faults → Payload → Shared → Handled
    apply w p s =
        if p.event == codes "deleted"
        then apply_delete w p s
        else if p.event == codes "created" || p.event == codes "updated"
        then apply_upsert w p s
        else (s, ApplyOutcome.noop, none)

    module _ (hmac : Text → Text → Text) (parse : Text → Option Payload) where
      unfoldable pub route : Faults → Payload → Shared → Shared × Response
      route w p s =
          if p.object_type == codes "ipam.ipaddress"
          then respond (apply w p s)
          else (s, (200, codes "unsupported_model"))

      -- `ServeHTTP`; the body is `none` where it cannot be read to its end or exceeds `maxBodyBytes`.
      unfoldable pub serve_http : Faults → Option Text → Text → Shared → Shared × Response
      serve_http w body header s = elim body [
        | none ↦ (s, (400, codes "bad_payload"))
        | some b ↦
            if verify_signature hmac h.secret b header
            then elim (parse b) [ none ↦ (s, (400, codes "bad_payload")) | some p ↦ route w p s ]
            else (s, (401, codes "invalid_signature"))
      ]
