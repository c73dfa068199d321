-- ===== src/Sidecar/Consent.antt =====
-- What the shrink guard lets `fetchNetbox` of cmd/sidecar/main.go publish, and what an operator's consent
-- changes.
use coredns_netbox.Base.{
  ◌≡◌, ◌≢◌, inl, inr, true, false, not, ◌&&◌, Option, none, some, List, [], ◌∷◌, arith,
  Option-cases, nat_eq,
}
use coredns_netbox.Base.Text.{text_eq}
use coredns_netbox.Record.{IpRecord}
use coredns_netbox.Merge.{ZoneMap}
use coredns_netbox.Shrink.{
  Baseline, Override, empty_result, evaluate, from_zone_counts, consume_if_armed,
}
use coredns_netbox.Sidecar.{
  Deployment, Round, Sidecar, do_fetch, discover, enrich, judge, fetch_netbox, count_zone_records,
}

module _ {F : Type 0} (d : Deployment F) where
  -- Where `fetchNetbox` returns zones, NetBox was reached, the baseline counts the records of those
  -- zones, the guard accepted them or the operator's consent was there, and no consent is left.
  pub fetch_netbox_guarded :
      (fetched : Option (List IpRecord)) (prev : Baseline) (o : Override) (zones : ZoneMap)
      (now : Baseline)
      → (fetch_netbox d fetched prev o).0 ≡ some (zones, now)
      → (fetched ≢ none)
        × (now ≡ from_zone_counts (count_zone_records zones))
        × ((evaluate d.floats d.guard prev now).refuse && not o.armed ≡ false)
        × ((fetch_netbox d fetched prev o).1.armed ≡ false)
  unfolding fetch_netbox judge consume_if_armed
  fetch_netbox_guarded none prev o zones now h = ground (arith, h)
  fetch_netbox_guarded (some records) prev o zones now h =
      elim (Option-cases (discover d (enrich d records))) [
        | inl e ↦ ground (arith, e, h)
        | inr (found, e) ↦ ground (arith, e, h)
      ]

  -- A fetch that fails or is refused leaves the zones that are published next, the baseline they are
  -- judged against, the store and the manager as they are, so a shrunken set stays refused.
  pub failed_fetch_keeps :
      (r : Round) (s : Sidecar)
      → (do_fetch d r s).0 ≡ false
      → ((do_fetch d r s).1.last_netbox_zones ≡ s.last_netbox_zones)
        × ((do_fetch d r s).1.last_baseline ≡ s.last_baseline)
        × ((do_fetch d r s).1.store ≡ s.store)
        × ((do_fetch d r s).1.manager ≡ s.manager)
  unfolding do_fetch
  failed_fetch_keeps r s h =
      elim (Option-cases (fetch_netbox d r.fetched s.last_baseline s.override).0) [
        | inl e ↦ ground (arith, e)
        | inr (found, e) ↦ ground (arith, e, h)
      ]

  -- Where NetBox returns records and discovery finds no zone for them, consent publishes an empty
  -- set of zones, whatever was published before.
  pub consent_publishes_empty :
      (r : IpRecord) (rs : List IpRecord) (prev : Baseline) (o : Override)
      → discover d (enrich d (r ∷ rs)) ≡ some []
      → o.armed ≡ true
      → (fetch_netbox d (some (r ∷ rs)) prev o).0 ≡ some ([], from_zone_counts [])
  unfolding fetch_netbox empty_result judge consume_if_armed count_zone_records
  consent_publishes_empty r rs prev o e armed = ground (arith, e, armed)
