-- ===== src/Webhook/Events.antt =====
-- What a whole event does to the record of each name, for `apply` of internal/netboxwebhook/handler.go.
use coredns_netbox.Base.{
  ◌≡◌, inl, inr, Bool, false, ◌||◌, Option, some, List, [], ◌∷◌, arith, if◌then◌else◌, Bool-cases,
  Option-cases, ◌==◌, nat_eq, if_of_both,
}
use coredns_netbox.Base.Text.{Text, codes, text_eq}
use coredns_netbox.Record.{IpRecord, is_webhook}
use coredns_netbox.Record.{IpItem}
use coredns_netbox.Merge.{Discoverer}
use coredns_netbox.Webhook.{
  Payload, Handler, Shared, ApplyOutcome, Handled, Faults, trigger_poll, renamed_from, drop_name,
  apply_delete, drop_names, remove_unpublished, write_new, drop_renamed, write_published,
  record_from_payload, is_published, apply_upsert, apply,
}
use coredns_netbox.Webhook.Settled.{
  seen, IsSound, drop_name-IsSound, seen-drop_name, write_new-IsSound, seen-write_new,
}

-- The record that a name keeps in spite of an event.
abbrev pub KeepsManual : Shared → Shared → Type 0
KeepsManual s s' =
    (z n : Text) (r : IpRecord) → seen s z n ≡ some r → is_webhook r ≡ false → seen s' z n ≡ some r

-- What one step of an event guarantees, its disk writes failing or not.
record IsSafe (s s' : Shared) : Type 0 where
  sound : IsSound s'
  manual : KeepsManual s s'

IsSafe-refl : (s : Shared) → IsSound s → IsSafe s s
IsSafe-refl s h = record { sound = h; manual = λ z n r e k. e }

IsSafe-trans : (s t u : Shared) → IsSafe s t → IsSafe t u → IsSafe s u
IsSafe-trans s t u a b = record {
  sound = b.sound;
  manual = λ z n r e k. b.manual z n r (a.manual z n r e k) k;
}

module _ (disc : Discoverer) where
  module _ (w : Faults) where
    drop_name-IsSafe : (name : Text) (s : Shared) → IsSound s → IsSafe s (drop_name disc w name s).0
    drop_name-IsSafe name s h = record {
      sound = drop_name-IsSound disc w name s h;
      manual = λ z n r e k. ground (arith, e, k, seen-drop_name disc w name s z n h);
    }

    write_new-IsSafe :
        (rec : IpRecord) (mutated : Bool) (s : Shared)
        → IsSound s
        → IsSafe s (write_new disc w rec mutated s).0
    write_new-IsSafe rec mutated s h = record {
      sound = write_new-IsSound disc w rec mutated s h;
      manual = λ z n r e k. ground (arith, e, k, seen-write_new disc w rec mutated s z n h);
    }

    drop_names-IsSafe :
        (names : List Text) (o : ApplyOutcome) (s : Shared)
        → IsSound s
        → IsSafe s (drop_names disc w names o s).0
    unfolding drop_names
    drop_names-IsSafe [] o s h = IsSafe-refl s h
    drop_names-IsSafe (name ∷ rest) o s h =
        let s' = (drop_name disc w name s).0 in
        let o' = if (drop_name disc w name s).1 then ApplyOutcome.applied else o in
        let a = drop_name-IsSafe name s h in
        let b = drop_names-IsSafe rest o' s' a.sound in
        elim (Option-cases (drop_name disc w name s).2) [
          | inl e ↦ rw (e, drop_names) (IsSafe-trans s s' _ a b)
          | inr (err, e) ↦ rw (e, drop_names) a
        ]

    drop_renamed-IsSafe :
        (p : Payload) (name : Text) (s : Shared)
        → IsSound s
        → IsSafe s (drop_renamed disc w p name s).0
    unfolding drop_renamed
    drop_renamed-IsSafe p name s h = elim (Bool-cases (p.event == codes "updated")) [
      | inr e ↦ rw e (IsSafe-refl s h)
      | inl e ↦ rw e (elim (Option-cases (renamed_from p name)) [
        | inl k ↦ rw k (IsSafe-refl s h)
        | inr (old, k) ↦ rw k (drop_name-IsSafe old s h)
      ])
    ]

    write_published-IsSafe :
        (p : Payload) (rec : IpRecord) (s : Shared)
        → IsSound s
        → IsSafe s (write_published disc w p rec s).0
    unfolding write_published
    write_published-IsSafe p rec s h =
        let d = drop_renamed disc w p rec.dns_name s in
        let a = drop_renamed-IsSafe p rec.dns_name s h in
        elim (Option-cases d.2) [
          | inl e ↦
              rw (e, write_published)
                (IsSafe-trans s d.0 _ a (write_new-IsSafe rec d.1 d.0 a.sound))
          | inr (err, e) ↦ rw (e, write_published) a
        ]

    apply_delete-IsSafe :
        (p : Payload) (s : Shared) → IsSound s → IsSafe s (apply_delete disc w p s).0
    unfolding apply_delete trigger_poll
    apply_delete-IsSafe p s h = elim (Option-cases p.pre_change) [
      | inl e ↦ rw e (IsSafe-refl s h)
      | inr (name, e) ↦ rw e (elim (Bool-cases (name == [])) [
        | inl k ↦ rw k (record { sound = h; manual = λ z n r e k. e })
        | inr k ↦ rw k (drop_name-IsSafe name s h)
      ])
    ]

    module _ (item : Text → Option IpItem) (nested flat : Text → Option Text) (hd : Handler) where
      apply_upsert-IsSafe :
          (p : Payload) (s : Shared)
          → IsSound s
          → IsSafe s (apply_upsert disc item nested flat hd w p s).0
      unfolding apply_upsert trigger_poll remove_unpublished
      apply_upsert-IsSafe p s h = elim (Option-cases (record_from_payload item p)) [
        | inl e ↦ rw (e, apply_upsert) (IsSafe-refl s h)
        | inr (rec, e) ↦
            rw (e, apply_upsert)
              (elim (Bool-cases (rec.dns_name == [])) [
                | inl k ↦ rw k (record { sound = h; manual = λ z n r e k. e })
                | inr k ↦ rw k (
                    if_of_both (λ (x : Handled). IsSafe s x.0) (is_published nested flat hd p)
                      (write_published-IsSafe p rec s h) (drop_names-IsSafe _ _ s h))
              ])
      ]

      apply-IsSafe :
          (p : Payload) (s : Shared) → IsSound s → IsSafe s (apply disc item nested flat hd w p s).0
      unfolding apply
      apply-IsSafe p s h =
          if_of_both (λ (x : Handled). IsSafe s x.0) (p.event == codes "deleted")
            (apply_delete-IsSafe p s h)
            (if_of_both (λ (x : Handled). IsSafe s x.0)
              (p.event == codes "created" || p.event == codes "updated") (apply_upsert-IsSafe p s h)
              (IsSafe-refl s h))

      -- An event leaves each zone once and each name once in its zone, whichever disk write fails.
      pub apply-IsSound :
          (p : Payload) (s : Shared) → IsSound s → IsSound (apply disc item nested flat hd w p s).0
      apply-IsSound p s h = (apply-IsSafe p s h).sound

      -- Over a well-formed store no event, whatever it says and whichever disk write fails, removes or
      -- replaces a record that was added by hand.
      pub apply_keeps_manual :
          (p : Payload) (s : Shared) (z n : Text) (r : IpRecord)
          → IsSound s
          → seen s z n ≡ some r
          → is_webhook r ≡ false
          → seen (apply disc item nested flat hd w p s).0 z n ≡ some r
      apply_keeps_manual p s z n r h = (apply-IsSafe p s h).manual z n r
