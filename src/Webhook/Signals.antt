-- ===== src/Webhook/Signals.antt =====
-- Who may change the store through `ServeHTTP` of internal/netboxwebhook/handler.go, and when a change
-- is signalled.
use coredns_netbox.Base.{
  ◌≡◌, refl, ◌≢◌, inl, inr, Bool, true, false, Option, none, some, List, [], ◌∷◌, arith,
  Option-cases, nat_eq,
}
use coredns_netbox.Base.Text.{Text, codes, text_eq}
use coredns_netbox.Record.{IpRecord}
use coredns_netbox.Record.{IpItem}
use coredns_netbox.Merge.{Discoverer}
use coredns_netbox.Store
use coredns_netbox.Store.{Fault, FileStore, get_records, upsert_records, delete_records}
use coredns_netbox.Webhook.{
  Payload, Handler, Shared, ApplyOutcome, HookError, Faults, trigger_poll, verify_signature,
  is_manually_pinned, admits, delete_name, upsert_record, delete_error, upsert_error,
  upsert_guarded, renamed_from, zone_for, drop_name, apply_delete, drop_names, remove_unpublished,
  write_new, drop_renamed, write_published, record_from_payload, apply_upsert, apply, respond,
  route, serve_http,
}
use coredns_netbox.Webhook.Settled.{
  seen, IsSound, delete_name-IsSound, seen-delete_name, seen-write_new,
}

delete_error-of :
    (w : Faults) (zone name : Text) (s : Shared) → w name ≡ none → delete_error w zone name s ≡ none
unfolding delete_records Store.persist
delete_error-of w zone name s ok = ground (arith, ok)

upsert_error-of :
    (w : Faults) (zone : Text) (rec : IpRecord) (s : Shared) (e : Fault)
    → w rec.dns_name ≡ some e
    → upsert_error w zone rec s ≡ some (HookError.storage e)
unfolding upsert_records Store.persist
upsert_error-of w zone rec s e bad = ground (arith, bad)

module _ (disc : Discoverer) (w : Faults) where
  drop_name-kept :
      (name : Text) (s : Shared)
      → (drop_name disc w name s).2 ≡ none
      → (drop_name disc w name s).1 ≡ false
      → (drop_name disc w name s).0 ≡ s
  unfolding drop_name
  drop_name-kept name s h k = elim (Option-cases (zone_for disc name)) [
    | inl e ↦ ground (arith, e)
    | inr (zone, e) ↦ ground (arith, e, h, k)
  ]

  drop_names-outcome :
      (names : List Text) (s : Shared)
      → (drop_names disc w names ApplyOutcome.applied s).2 ≡ none
      → (drop_names disc w names ApplyOutcome.applied s).1 ≡ ApplyOutcome.applied
  unfolding drop_names
  drop_names-outcome [] s h = refl
  drop_names-outcome (name ∷ rest) s h =
      ground (arith, h, drop_names-outcome rest (drop_name disc w name s).0)

  drop_names-kept :
      (names : List Text) (s : Shared)
      → (drop_names disc w names ApplyOutcome.noop s).2 ≡ none
      → (drop_names disc w names ApplyOutcome.noop s).1 ≢ ApplyOutcome.applied
      → (drop_names disc w names ApplyOutcome.noop s).0 ≡ s
  unfolding drop_names
  drop_names-kept [] s h k = refl
  drop_names-kept (name ∷ rest) s h k = ground (
    arith,
    h,
    k,
    drop_name-kept name s,
    drop_names-kept rest (drop_name disc w name s).0,
    drop_names-outcome rest (drop_name disc w name s).0,
  )

  write_new-kept :
      (rec : IpRecord) (mutated : Bool) (s : Shared)
      → (write_new disc w rec mutated s).2 ≡ none
      → (write_new disc w rec mutated s).1 ≢ ApplyOutcome.applied
      → ((write_new disc w rec mutated s).0 ≡ s) × (mutated ≡ false)
  unfolding write_new upsert_guarded
  write_new-kept rec mutated s h k = elim (Option-cases (zone_for disc rec.dns_name)) [
    | inl e ↦ ground (arith, e, h, k)
    | inr (zone, e) ↦ ground (arith, e, h, k)
  ]

  drop_renamed-kept :
      (p : Payload) (name : Text) (s : Shared)
      → (drop_renamed disc w p name s).2 ≡ none
      → (drop_renamed disc w p name s).1 ≡ false
      → (drop_renamed disc w p name s).0 ≡ s
  unfolding drop_renamed
  drop_renamed-kept p name s h k = elim (Option-cases (renamed_from p name)) [
    | inl e ↦ ground (arith, e, h, k)
    | inr (old, e) ↦ ground (arith, e, h, k, drop_name-kept old s)
  ]

  write_published-kept :
      (p : Payload) (rec : IpRecord) (s : Shared)
      → (write_published disc w p rec s).2 ≡ none
      → (write_published disc w p rec s).1 ≢ ApplyOutcome.applied
      → (write_published disc w p rec s).0 ≡ s
  unfolding write_published
  write_published-kept p rec s h k =
      let d = drop_renamed disc w p rec.dns_name s in
      ground (arith, h, k, drop_renamed-kept p rec.dns_name s, write_new-kept rec d.1 d.0)

  apply_delete-kept :
      (p : Payload) (s : Shared)
      → (apply_delete disc w p s).2 ≡ none
      → (apply_delete disc w p s).1 ≢ ApplyOutcome.applied
      → (apply_delete disc w p s).0.store ≡ s.store
  unfolding apply_delete trigger_poll
  apply_delete-kept p s h k = elim (Option-cases p.pre_change) [
    | inl e ↦ ground (arith, e, h, k)
    | inr (name, e) ↦ ground (arith, e, h, k, drop_name-kept name s)
  ]

  renamed_from-ne' : (p : Payload) (name old : Text) → renamed_from p name ≡ some old → old ≢ name
  unfolding renamed_from
  renamed_from-ne' p name old h = ground arith

  -- A rename whose first write succeeds and whose second one fails is answered with 500 and sets no
  -- signal, though the old name is gone from the store.
  pub rename_without_signal :
      (p : Payload) (rec : IpRecord) (s : Shared) (old zo zn : Text) (e : Fault)
      → IsSound s
      → p.event ≡ codes "updated"
      → renamed_from p rec.dns_name ≡ some old
      → zone_for disc old ≡ some zo
      → is_manually_pinned zo old s ≡ false
      → w old ≡ none
      → zone_for disc rec.dns_name ≡ some zn
      → admits rec (get_records zn (delete_name w zo old s).store) ≡ true
      → w rec.dns_name ≡ some e
      → ((respond (write_published disc w p rec s)).1.0 ≡ 500)
        × ((respond (write_published disc w p rec s)).0.merge_signal ≡ s.merge_signal)
        × (seen (respond (write_published disc w p rec s)).0 zo old ≡ none)
  unfolding respond write_published drop_renamed drop_name write_new upsert_guarded delete_name
      upsert_record
  rename_without_signal p rec s old zo zn e h ev r z pin ok z' ad bad =
      let d = delete_name w zo old s in
      ground (
        arith,
        ev,
        r,
        z,
        pin,
        z',
        ad,
        renamed_from-ne' p rec.dns_name old r,
        delete_error-of w zo old s ok,
        upsert_error-of w zn rec d e bad,
        seen-write_new disc w rec true d zo old (delete_name-IsSound w zo old s h),
        seen-delete_name w zo old s zo old h,
      )

  module _ (item : Text → Option IpItem) (nested flat : Text → Option Text) (hd : Handler) where
    apply_upsert-kept :
        (p : Payload) (s : Shared)
        → (apply_upsert disc item nested flat hd w p s).2 ≡ none
        → (apply_upsert disc item nested flat hd w p s).1 ≢ ApplyOutcome.applied
        → (apply_upsert disc item nested flat hd w p s).0.store ≡ s.store
    unfolding apply_upsert trigger_poll remove_unpublished
    apply_upsert-kept p s h k = elim (Option-cases (record_from_payload item p)) [
      | inl e ↦ ground (arith, e, h, k)
      | inr (rec, e) ↦ ground (
        arith,
        e,
        h,
        k,
        write_published-kept p rec s,
        drop_names-kept
            (elim (renamed_from p rec.dns_name) [
              | none ↦ rec.dns_name ∷ []
              | some old ↦ rec.dns_name ∷ old ∷ []
            ])
            s,
      )
    ]

    apply-kept :
        (p : Payload) (s : Shared)
        → (apply disc item nested flat hd w p s).2 ≡ none
        → (apply disc item nested flat hd w p s).1 ≢ ApplyOutcome.applied
        → (apply disc item nested flat hd w p s).0.store ≡ s.store
    unfolding apply
    apply-kept p s h k = ground (arith, h, k, apply_delete-kept p s, apply_upsert-kept p s)

    module _ (hmac : Text → Text → Text) (parse : Text → Option Payload) where
      -- Only a body that the secret has signed changes anything: the store, or one of the two signals.
      pub unsigned_changes_nothing :
          (body : Option Text) (header : Text) (s : Shared)
          → ((b : Text) → body ≡ some b → hmac hd.secret b ≢ header)
          → (serve_http disc item nested flat hd hmac parse w body header s).0 ≡ s
      unfolding serve_http verify_signature
      unsigned_changes_nothing none header s h = refl
      unsigned_changes_nothing (some b) header s h = ground (arith, h b)

      -- Where `ServeHTTP` answers 200, and the signal to merge is not set after it, the store is what it
      -- was: no change that is answered with success waits for the next poll.
      pub change_is_signalled :
          (body : Option Text) (header : Text) (s : Shared)
          → (serve_http disc item nested flat hd hmac parse w body header s).1.0 ≡ 200
          → (serve_http disc item nested flat hd hmac parse w body header s).0.merge_signal ≡ false
          → (serve_http disc item nested flat hd hmac parse w body header s).0.store ≡ s.store
      unfolding serve_http route respond
      change_is_signalled none header s h k = refl
      change_is_signalled (some b) header s h k = elim (Option-cases (parse b)) [
        | inl e ↦ ground (arith, e, h, k)
        | inr (p, e) ↦ ground (arith, e, h, k, apply-kept p s)
      ]
