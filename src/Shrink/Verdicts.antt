-- ===== src/Shrink/Verdicts.antt =====
-- When the guard of internal/shrinkguard/shrinkguard.go refuses, and which zone it names.
use coredns_netbox.Base.{
  ℕ, ◌-◌, ◌≤◌, ◌<◌, ◌≡◌, refl, true, false, not, ◌&&◌, ◌||◌, List, [], ◌∷◌, arith, ◌==◌, nat_eq,
  any, contains,
}
use coredns_netbox.Base.Text.{Text, text_eq, text_lt}
use coredns_netbox.Base.Dict.{keys, lookup_or}
use coredns_netbox.Zonegen.Order.{sort_by}
use coredns_netbox.Zonegen.Order.Members.{contains-sort_by, any-sort_by}
use coredns_netbox.Shrink.{
  Floats, Config, Baseline, Scope, Verdict, no_verdict, empty_result, trips, zone_verdict,
  zone_trips, worse, worst_zone, global_verdict, global_trips, evaluate,
}

module _ {F : Type 0} (fl : Floats F) (cfg : Config F) (prev now : Baseline) where
  -- The records that a zone has lost.
  abbrev pub lost : Text → ℕ
  lost z = lookup_or 0 z prev.zones - lookup_or 0 z now.zones

  lost_positive : (z : Text) → zone_trips fl cfg prev now z ≡ true → 0 < lost z
  unfolding zone_trips trips
  lost_positive z h = ground arith

  -- A verdict names a zone that trips, with its loss, or does not refuse.
  record IsHonest (v : Verdict F) : Type 0 where
    silent : v.refuse ≡ false → v.dropped ≡ 0
    loss : v.refuse ≡ true → v.dropped ≡ lost v.in_zone
    scoped : v.scope ≡ Scope.zone → v.refuse ≡ true
    trip : v.refuse ≡ true → zone_trips fl cfg prev now v.in_zone ≡ true

  worse-IsHonest : (z : Text) (v : Verdict F) → IsHonest v → IsHonest (worse fl cfg prev now z v)
  unfolding worse zone_verdict
  worse-IsHonest z v h = ground (arith, h.silent, h.loss, h.scoped, h.trip)

  refuse-worse :
      (z : Text) (v : Verdict F)
      → IsHonest v
      → ((worse fl cfg prev now z v).refuse ≡ (v.refuse || zone_trips fl cfg prev now z))
        × (v.dropped ≤ (worse fl cfg prev now z v).dropped)
        × (zone_trips fl cfg prev now z ≡ true → lost z ≤ (worse fl cfg prev now z v).dropped)
  unfolding worse zone_verdict
  refuse-worse z v h = ground (arith, h.silent, lost_positive z)

  worst_zone-IsHonest :
      (zs : List Text) (v : Verdict F) → IsHonest v → IsHonest (worst_zone fl cfg prev now zs v)
  unfolding worst_zone
  worst_zone-IsHonest [] v h = h
  worst_zone-IsHonest (z ∷ zs) v h =
      worst_zone-IsHonest zs (worse fl cfg prev now z v) (worse-IsHonest z v h)

  refuse-worst_zone :
      (zs : List Text) (v : Verdict F)
      → IsHonest v
      → ((worst_zone fl cfg prev now zs v).refuse
          ≡ (v.refuse || any (zone_trips fl cfg prev now) zs))
        × (v.dropped ≤ (worst_zone fl cfg prev now zs v).dropped)
  unfolding worst_zone
  refuse-worst_zone [] v h = ground arith
  refuse-worst_zone (z ∷ zs) v h = ground (
    arith,
    refuse-worse z v h,
    refuse-worst_zone zs (worse fl cfg prev now z v) (worse-IsHonest z v h),
  )

  lost-worst_zone :
      (zs : List Text) (v : Verdict F) (z : Text)
      → IsHonest v
      → contains zs z ≡ true
      → zone_trips fl cfg prev now z ≡ true
      → lost z ≤ (worst_zone fl cfg prev now zs v).dropped
  unfolding worst_zone
  lost-worst_zone [] v z h m t = ground (arith, m)
  lost-worst_zone (y ∷ ys) v z h m t = ground (
    arith,
    m,
    t,
    refuse-worse y v h,
    refuse-worst_zone ys (worse fl cfg prev now y v) (worse-IsHonest y v h),
    lost-worst_zone ys (worse fl cfg prev now y v) z (worse-IsHonest y v h),
  )

  no_verdict-IsHonest : IsHonest (no_verdict fl)
  no_verdict-IsHonest = record {
    silent = λ h. refl;
    loss = λ h. ground (arith, h);
    scoped = λ h. ground (arith, h);
    trip = λ h. ground (arith, h);
  }

  -- The guard refuses exactly where a set without records would replace a published one or the zones of
  -- an earlier run, or where the thresholds are enabled, something was published, and the loss of all
  -- records or the loss of one zone that was published trips its threshold.
  pub refuse-evaluate : (evaluate fl cfg prev now).refuse ≡ (
      (now.total == 0 && (not (prev.total == 0) || prev.zones_on_disk))
      || (not (prev.total == 0)
          && cfg.enabled
          && (global_trips fl cfg prev now || any (zone_trips fl cfg prev now) (keys prev.zones))))
  unfolding evaluate empty_result global_verdict
  refuse-evaluate = ground (
    arith,
    refuse-worst_zone (sort_by text_lt (keys prev.zones)) (no_verdict fl) no_verdict-IsHonest,
    any-sort_by text_lt (zone_trips fl cfg prev now) (keys prev.zones),
  )

  -- A refusal for a zone names a zone whose loss trips its threshold.
  pub evaluate_names_tripping :
      (evaluate fl cfg prev now).scope ≡ Scope.zone
      → zone_trips fl cfg prev now (evaluate fl cfg prev now).in_zone ≡ true
  unfolding evaluate empty_result global_verdict
  evaluate_names_tripping h =
      let v =
        worst_zone-IsHonest (sort_by text_lt (keys prev.zones)) (no_verdict fl)
          no_verdict-IsHonest in
      ground (arith, h, v.scoped, v.trip)

  -- A refusal for a zone names one that has lost at least as many records as any other published zone
  -- whose loss trips its threshold.
  pub evaluate_names_worst :
      (z : Text)
      → (evaluate fl cfg prev now).scope ≡ Scope.zone
      → contains (keys prev.zones) z ≡ true
      → zone_trips fl cfg prev now z ≡ true
      → lost z ≤ lost (evaluate fl cfg prev now).in_zone
  unfolding evaluate empty_result global_verdict
  evaluate_names_worst z h m t =
      let zs = sort_by text_lt (keys prev.zones) in
      let v = worst_zone-IsHonest zs (no_verdict fl) no_verdict-IsHonest in
      ground (
        arith,
        h,
        v.scoped,
        v.loss,
        m,
        t,
        contains-sort_by text_lt z (keys prev.zones),
        lost-worst_zone zs (no_verdict fl) z no_verdict-IsHonest,
      )
