-- ===== src/Webhook/Promise.antt =====
-- What an event promises of every record of the store, for internal/netboxwebhook/handler.go.
use coredns_netbox.Base.{
  ◌≡◌, refl, ap, ◌∙◌, inl, inr, ◌||◌, Option, none, some, [], ◌∷◌, arith, if◌then◌else◌,
  Option-cases, ◌==◌, nat_eq,
}
use coredns_netbox.Base.Text.{Text, codes, text_eq}
use coredns_netbox.Record.{IpRecord}
use coredns_netbox.Record.{IpItem}
use coredns_netbox.Merge.{Discoverer}
use coredns_netbox.Webhook.{
  Payload, Handler, Shared, ApplyOutcome, Faults, trigger_poll, renamed_from, zone_for, drop_name,
  apply_delete, drop_names, remove_unpublished, drop_renamed, write_published, record_from_payload,
  is_published, apply_upsert, apply,
}
use coredns_netbox.Webhook.Settled.{
  seen, IsSound, NoFault, forgotten, offered, drop_name-IsSound, seen-drop_name, seen-write_new,
  delete_error-none,
}

-- The whole effect of an event on the record `old` of the name `n` in the zone `z`.
module _ (disc : Discoverer) where
  abbrev pub forgotten_if : Option Text → Text → Text → Option IpRecord → Option IpRecord
  forgotten_if none z n old = old
  forgotten_if (some name) z n old = forgotten disc name z n old

  abbrev pub deleted_settles : Payload → Text → Text → Option IpRecord → Option IpRecord
  deleted_settles p z n old = elim p.pre_change [
    | none ↦ old
    | some name ↦ if name == [] then old else forgotten disc name z n old
  ]

  abbrev pub published_settles :
      Payload → IpRecord → Text → Text → Option IpRecord → Option IpRecord
  published_settles p rec z n old = offered disc rec z n (
      if p.event == codes "updated"
      then forgotten_if (renamed_from p rec.dns_name) z n old
      else old)

  abbrev pub unpublished_settles :
      Payload → IpRecord → Text → Text → Option IpRecord → Option IpRecord
  unpublished_settles p rec z n old =
      forgotten_if (renamed_from p rec.dns_name) z n (forgotten disc rec.dns_name z n old)

  module _ (w : Faults) (ok : NoFault w) where
    drop_name-none : (name : Text) (s : Shared) → (drop_name disc w name s).2 ≡ none
    unfolding drop_name
    drop_name-none name s = elim (Option-cases (zone_for disc name)) [
      | inl e ↦ ground (arith, e)
      | inr (zone, e) ↦ ground (arith, e, delete_error-none w zone name s ok)
    ]

    drop_renamed-none :
        (p : Payload) (name : Text) (s : Shared) → (drop_renamed disc w p name s).2 ≡ none
    unfolding drop_renamed
    drop_renamed-none p name s = elim (Option-cases (renamed_from p name)) [
      | inl e ↦ ground (arith, e)
      | inr (old, e) ↦ ground (arith, e, drop_name-none old s)
    ]

    drop_renamed-IsSound :
        (p : Payload) (name : Text) (s : Shared)
        → IsSound s
        → IsSound (drop_renamed disc w p name s).0
    unfolding drop_renamed
    drop_renamed-IsSound p name s h = elim (Option-cases (renamed_from p name)) [
      | inl e ↦ ground (arith, e, h)
      | inr (old, e) ↦ ground (arith, e, h, drop_name-IsSound disc w old s h)
    ]

    seen-drop_renamed :
        (p : Payload) (name : Text) (s : Shared) (z n : Text)
        → IsSound s
        → seen (drop_renamed disc w p name s).0 z n ≡ (
            if p.event == codes "updated"
            then forgotten_if (renamed_from p name) z n (seen s z n)
            else seen s z n)
    unfolding drop_renamed
    seen-drop_renamed p name s z n h = elim (Option-cases (renamed_from p name)) [
      | inl e ↦ ground (arith, e)
      | inr (old, e) ↦ ground (arith, e, seen-drop_name disc w old s z n h)
    ]

    seen-write_published :
        (p : Payload) (rec : IpRecord) (s : Shared) (z n : Text)
        → IsSound s
        → seen (write_published disc w p rec s).0 z n ≡ published_settles p rec z n (seen s z n)
    unfolding write_published
    seen-write_published p rec s z n h =
        let d = drop_renamed disc w p rec.dns_name s in
        rw (drop_renamed-none p rec.dns_name s, write_published)
          (seen-write_new disc w rec d.1 d.0 z n (drop_renamed-IsSound p rec.dns_name s h)
            ∙ ap (offered disc rec z n) (seen-drop_renamed p rec.dns_name s z n h))

    seen-drop_one :
        (a : Text) (o : ApplyOutcome) (s : Shared) (z n : Text)
        → IsSound s
        → seen (drop_names disc w (a ∷ []) o s).0 z n ≡ forgotten disc a z n (seen s z n)
    unfolding drop_names
    seen-drop_one a o s z n h =
        rw (drop_name-none a s, drop_names) (seen-drop_name disc w a s z n h)

    seen-drop_two :
        (a b : Text) (o : ApplyOutcome) (s : Shared) (z n : Text)
        → IsSound s
        → seen (drop_names disc w (a ∷ b ∷ []) o s).0 z n
          ≡ forgotten disc b z n (forgotten disc a z n (seen s z n))
    unfolding drop_names
    seen-drop_two a b o s z n h =
        rw (drop_name-none a s, drop_names)
          (seen-drop_one b _ (drop_name disc w a s).0 z n (drop_name-IsSound disc w a s h)
            ∙ ap (forgotten disc b z n) (seen-drop_name disc w a s z n h))

    seen-remove_unpublished :
        (p : Payload) (rec : IpRecord) (s : Shared) (z n : Text)
        → IsSound s
        → seen (remove_unpublished disc w p rec.dns_name s).0 z n
          ≡ unpublished_settles p rec z n (seen s z n)
    unfolding remove_unpublished
    seen-remove_unpublished p rec s z n h = elim (Option-cases (renamed_from p rec.dns_name)) [
      | inl e ↦ rw e (seen-drop_one rec.dns_name _ s z n h)
      | inr (old, e) ↦ rw e (seen-drop_two rec.dns_name old _ s z n h)
    ]

    seen-apply_delete :
        (p : Payload) (s : Shared) (z n : Text)
        → IsSound s
        → seen (apply_delete disc w p s).0 z n ≡ deleted_settles p z n (seen s z n)
    unfolding apply_delete trigger_poll
    seen-apply_delete p s z n h = elim (Option-cases p.pre_change) [
      | inl e ↦ rw e refl
      | inr (name, e) ↦ rw e (ground (arith, seen-drop_name disc w name s z n h))
    ]

  module _ (item : Text → Option IpItem) (nested flat : Text → Option Text) (hd : Handler) where
    abbrev pub upsert_settles : Payload → Text → Text → Option IpRecord → Option IpRecord
    upsert_settles p z n old = elim (record_from_payload item p) [
      | none ↦ old
      | some rec ↦
          if rec.dns_name == []
          then old
          else if is_published nested flat hd p
          then published_settles p rec z n old
          else unpublished_settles p rec z n old
    ]

    abbrev pub settles : Payload → Text → Text → Option IpRecord → Option IpRecord
    settles p z n old =
        if p.event == codes "deleted"
        then deleted_settles p z n old
        else if p.event == codes "created" || p.event == codes "updated"
        then upsert_settles p z n old
        else old

    module _ (w : Faults) (ok : NoFault w) where
      seen-apply_upsert :
          (p : Payload) (s : Shared) (z n : Text)
          → IsSound s
          → seen (apply_upsert disc item nested flat hd w p s).0 z n
            ≡ upsert_settles p z n (seen s z n)
      unfolding apply_upsert trigger_poll
      seen-apply_upsert p s z n h = elim (Option-cases (record_from_payload item p)) [
        | inl e ↦ ground (arith, e)
        | inr (rec, e) ↦
            rw (e, apply_upsert)
              (ground (
                arith,
                seen-write_published w ok p rec s z n h,
                seen-remove_unpublished w ok p rec s z n h,
              ))
      ]

      -- Over a well-formed store, and where no write to disk fails, an event turns the record that each
      -- name has in each zone into what `settles` says of it.
      pub apply-settles :
          (p : Payload) (s : Shared) (z n : Text)
          → IsSound s
          → seen (apply disc item nested flat hd w p s).0 z n ≡ settles p z n (seen s z n)
      unfolding apply
      apply-settles p s z n h =
          ground (arith, seen-apply_delete w ok p s z n h, seen-apply_upsert p s z n h)
