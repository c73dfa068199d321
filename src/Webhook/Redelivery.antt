-- ===== src/Webhook/Redelivery.antt =====
-- What a second delivery of an event does, for internal/netboxwebhook/handler.go.
use coredns_netbox.Base.{
  ◌≡◌, refl, sym, ap, ◌∙◌, ◌≢◌, ◌⊎◌, inl, inr, ◌||◌, Option, none, some, [], arith, Bool-cases,
  Option-cases, ◌==◌, nat_eq,
}
use coredns_netbox.Base.Text.{Text, codes, text_eq}
use coredns_netbox.Record.{IpRecord}
use coredns_netbox.Record.{IpItem}
use coredns_netbox.Merge.{Discoverer}
use coredns_netbox.Webhook.{
  Payload, Handler, Shared, Faults, renamed_from, zone_for, record_from_payload, apply,
}
use coredns_netbox.Webhook.Promise.{
  deleted_settles, published_settles, unpublished_settles, upsert_settles, settles, apply-settles,
}
use coredns_netbox.Webhook.Events.{apply-IsSound}
use coredns_netbox.Webhook.Settled.{seen, IsSound, NoFault, forgotten, offered}

renamed_from-ne : (p : Payload) (name old : Text) → renamed_from p name ≡ some old → old ≢ name
unfolding renamed_from
renamed_from-ne p name old h = ground arith

-- At a second delivery the zone of a name is the one of the first, or there is none: discovery asks
-- NetBox again and may fail.
unfoldable pub SameOrNone : Discoverer → Discoverer → Type 0
SameOrNone disc again =
    (name : Text) → (zone_for again name ≡ none) ⊎ (zone_for again name ≡ zone_for disc name)

module _ (disc again : Discoverer) (agree : SameOrNone disc again) where
  -- Where the first delivery changes nothing more, the second does not.
  forgotten_kept :
      (a : Text) (z n : Text) (x : Option IpRecord)
      → forgotten disc a z n x ≡ x
      → forgotten again a z n x ≡ x
  unfolding SameOrNone
  forgotten_kept a z n x h = elim (agree a) [
    | inl e ↦ ground (arith, e)
    | inr e ↦ ground (arith, e, h)
  ]

  offered_kept :
      (rec : IpRecord) (z n : Text) (x : Option IpRecord)
      → offered disc rec z n x ≡ x
      → offered again rec z n x ≡ x
  unfolding SameOrNone
  offered_kept rec z n x h = elim (agree rec.dns_name) [
    | inl e ↦ ground (arith, e)
    | inr e ↦ ground (arith, e, h)
  ]

  forgotten_again :
      (a : Text) (z n : Text) (old : Option IpRecord)
      → forgotten again a z n (forgotten disc a z n old) ≡ forgotten disc a z n old
  forgotten_again a z n none = forgotten_kept a z n (forgotten disc a z n none) (ground arith)
  forgotten_again a z n (some r) =
      forgotten_kept a z n (forgotten disc a z n (some r)) (ground arith)

  forgotten_first :
      (a b : Text) (z n : Text) (old : Option IpRecord)
      → forgotten again a z n (forgotten disc b z n (forgotten disc a z n old))
        ≡ forgotten disc b z n (forgotten disc a z n old)
  forgotten_first a b z n none =
      forgotten_kept a z n (forgotten disc b z n (forgotten disc a z n none)) (ground arith)
  forgotten_first a b z n (some r) =
      forgotten_kept a z n (forgotten disc b z n (forgotten disc a z n (some r))) (ground arith)

  forgotten_both :
      (a b : Text) (z n : Text) (old : Option IpRecord)
      → forgotten again b z n
          (forgotten again a z n (forgotten disc b z n (forgotten disc a z n old)))
        ≡ forgotten disc b z n (forgotten disc a z n old)
  forgotten_both a b z n old =
      ap (forgotten again b z n) (forgotten_first a b z n old)
      ∙ forgotten_again b z n (forgotten disc a z n old)

  offered_again :
      (rec : IpRecord) (z n : Text) (old : Option IpRecord)
      → offered again rec z n (offered disc rec z n old) ≡ offered disc rec z n old
  offered_again rec z n none = offered_kept rec z n (offered disc rec z n none) (ground arith)
  offered_again rec z n (some r) =
      offered_kept rec z n (offered disc rec z n (some r)) (ground arith)

  -- The old name of a rename stays forgotten.
  renamed_first :
      (rec : IpRecord) (a : Text) (z n : Text) (old : Option IpRecord)
      → a ≢ rec.dns_name
      → forgotten disc a z n (offered disc rec z n (forgotten disc a z n old))
        ≡ offered disc rec z n (forgotten disc a z n old)
  renamed_first rec a z n none h = elim (Option-cases (zone_for disc a)) [
    | inl e ↦ ground (arith, e)
    | inr (za, e) ↦ elim (Option-cases (zone_for disc rec.dns_name)) [
      | inl k ↦ ground (arith, e, k, h)
      | inr (zr, k) ↦ ground (arith, e, k, h)
    ]
  ]
  renamed_first rec a z n (some r) h = elim (Option-cases (zone_for disc a)) [
    | inl e ↦ ground (arith, e)
    | inr (za, e) ↦ elim (Option-cases (zone_for disc rec.dns_name)) [
      | inl k ↦ ground (arith, e, k, h)
      | inr (zr, k) ↦ ground (arith, e, k, h)
    ]
  ]

  renamed_again :
      (rec : IpRecord) (a : Text) (z n : Text) (old : Option IpRecord)
      → a ≢ rec.dns_name
      → offered again rec z n
          (forgotten again a z n (offered disc rec z n (forgotten disc a z n old)))
        ≡ offered disc rec z n (forgotten disc a z n old)
  renamed_again rec a z n old h =
      let x = offered disc rec z n (forgotten disc a z n old) in
      ap (offered again rec z n) (forgotten_kept a z n x (renamed_first rec a z n old h))
      ∙ offered_again rec z n (forgotten disc a z n old)

  published_again :
      (p : Payload) (rec : IpRecord) (z n : Text) (old : Option IpRecord)
      → published_settles again p rec z n (published_settles disc p rec z n old)
        ≡ published_settles disc p rec z n old
  published_again p rec z n old = elim (Option-cases (renamed_from p rec.dns_name)) [
    | inl e ↦ rw e (elim (Bool-cases (p.event == codes "updated")) [
      | inl k ↦ rw k (offered_again rec z n old)
      | inr k ↦ rw k (offered_again rec z n old)
    ])
    | inr (a, e) ↦ rw e (elim (Bool-cases (p.event == codes "updated")) [
      | inl k ↦ rw k (renamed_again rec a z n old (renamed_from-ne p rec.dns_name a e))
      | inr k ↦ rw k (offered_again rec z n old)
    ])
  ]

  unpublished_again :
      (p : Payload) (rec : IpRecord) (z n : Text) (old : Option IpRecord)
      → unpublished_settles again p rec z n (unpublished_settles disc p rec z n old)
        ≡ unpublished_settles disc p rec z n old
  unpublished_again p rec z n old = elim (Option-cases (renamed_from p rec.dns_name)) [
    | inl e ↦ rw e (forgotten_again rec.dns_name z n old)
    | inr (a, e) ↦ rw e (forgotten_both rec.dns_name a z n old)
  ]

  deleted_again :
      (p : Payload) (z n : Text) (old : Option IpRecord)
      → deleted_settles again p z n (deleted_settles disc p z n old)
        ≡ deleted_settles disc p z n old
  deleted_again p z n old = elim (Option-cases p.pre_change) [
    | inl e ↦ rw e refl
    | inr (a, e) ↦ rw e (elim (Bool-cases (a == [])) [
      | inl k ↦ rw k refl
      | inr k ↦ rw k (forgotten_again a z n old)
    ])
  ]

  module _ (item : Text → Option IpItem) (nested flat : Text → Option Text) (hd : Handler) where
    upsert_settles_again :
        (p : Payload) (z n : Text) (old : Option IpRecord)
        → upsert_settles again item nested flat hd p z n
            (upsert_settles disc item nested flat hd p z n old)
          ≡ upsert_settles disc item nested flat hd p z n old
    upsert_settles_again p z n old = elim (Option-cases (record_from_payload item p)) [
      | inl e ↦ ground (arith, e)
      | inr (rec, e) ↦
          ground (arith, e, published_again p rec z n old, unpublished_again p rec z n old)
    ]

    settles_again :
        (p : Payload) (z n : Text) (old : Option IpRecord)
        → settles again item nested flat hd p z n (settles disc item nested flat hd p z n old)
          ≡ settles disc item nested flat hd p z n old
    settles_again p z n old = elim (Bool-cases (p.event == codes "deleted")) [
      | inl e ↦ rw e (deleted_again p z n old)
      | inr e ↦ elim (Bool-cases (p.event == codes "created" || p.event == codes "updated")) [
        | inl k ↦ rw (e, k) (upsert_settles_again p z n old)
        | inr k ↦ rw (e, k) refl
      ]
    ]

    -- NetBox may deliver an event twice: over a well-formed store, where no write to disk fails, and
    -- where discovery at the second delivery gives each name the zone of the first one or none, the
    -- second delivery leaves every record as the first one left it.
    pub apply_twice :
        (w : Faults) (p : Payload) (s : Shared) (z n : Text)
        → NoFault w
        → IsSound s
        → seen (apply again item nested flat hd w p (apply disc item nested flat hd w p s).0).0 z n
          ≡ seen (apply disc item nested flat hd w p s).0 z n
    apply_twice w p s z n ok h =
        let s' = (apply disc item nested flat hd w p s).0 in
        apply-settles again item nested flat hd w ok p s' z n
          (apply-IsSound disc w item nested flat hd p s h)
        ∙ ap (settles again item nested flat hd p z n)
            (apply-settles disc item nested flat hd w ok p s z n h)
        ∙ settles_again p z n (seen s z n)
        ∙ sym (apply-settles disc item nested flat hd w ok p s z n h)
