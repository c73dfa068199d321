-- ===== src/Shrink.antt =====
-- internal/shrinkguard/shrinkguard.go: whether a fetch may replace the published records. The counts
-- are never negative, so a difference is positive exactly where the native one is.
pub mod Verdicts
mod Tests
use coredns_netbox.Base.{
  ℕ, ◌+◌, ◌-◌, Bool, true, false, not, ◌||◌, List, [], ◌∷◌, arith, if◌then◌else◌, ltb, leb, ◌==◌,
  nat_eq,
}
use coredns_netbox.Base.Text.{Text, text_eq, text_lt}
use coredns_netbox.Base.Dict.{Dict, keys, lookup_or}
use coredns_netbox.Zonegen.Order.{sort_by}

-- What the guard uses of `float64`.
pub record Floats (F : Type 0) : Type 0 where
  pub zero_share : F
  pub one_share : F
  -- `x > 0` and `x > y`.
  pub is_positive : F → Bool
  pub exceeds : F → F → Bool
  -- `float64(m) / float64(n)`
  pub quotient : ℕ → ℕ → F

pub record Config (F : Type 0) : Type 0 where
  pub enabled : Bool
  pub global_drop_fraction : F
  pub global_min_records : ℕ
  pub zone_drop_fraction : F
  pub zone_min_records : ℕ

pub record Baseline : Type 0 where
  pub total : ℕ
  pub zones : Dict Text ℕ
  pub zones_on_disk : Bool

-- `none_scope` is the zero value of the string `Scope`.
pub data Scope : Type 0 where
  none_scope empty_set global zone : Scope

pub record Verdict (F : Type 0) : Type 0 where
  pub refuse : Bool
  pub scope : Scope
  pub in_zone : Text
  pub prev : ℕ
  pub now : ℕ
  pub dropped : ℕ
  pub drop_fraction : F

-- The loop of `FromZoneCounts`.
unfoldable pub sum_counts : Dict Text ℕ → ℕ
sum_counts [] = 0
sum_counts ((_, n) ∷ rest) = n + sum_counts rest

unfoldable pub from_zone_counts : Dict Text ℕ → Baseline
from_zone_counts zones = record { total = sum_counts zones; zones = zones; zones_on_disk = false }

module _ {F : Type 0} (fl : Floats F) where
  -- `Verdict{}`
  abbrev pub no_verdict : Verdict F
  no_verdict = record {
    refuse = false;
    scope = Scope.none_scope;
    in_zone = [];
    prev = 0;
    now = 0;
    dropped = 0;
    drop_fraction = fl.zero_share;
  }

  unfoldable pub empty_result : Baseline → ℕ → Verdict F
  empty_result prev now_total =
      if ltb 0 now_total
      then no_verdict
      else if ltb 0 prev.total
      then record no_verdict {
        refuse = true;
        scope = Scope.empty_set;
        prev = prev.total;
        dropped = prev.total;
        drop_fraction = fl.one_share;
      }
      else if prev.zones_on_disk
      then record no_verdict { refuse = true; scope = Scope.empty_set }
      else no_verdict

  unfoldable pub trips : ℕ → ℕ → F → ℕ → Bool
  trips dropped was fraction min_records =
      if not (fl.is_positive fraction)
      then false
      else if leb dropped 0 || leb was 0
      then false
      else if leb dropped min_records
      then false
      else fl.exceeds (fl.quotient dropped was) fraction

  -- The verdict on one zone, and the loop that keeps the worst one.
  unfoldable pub zone_verdict : Text → ℕ → ℕ → Verdict F
  zone_verdict z was is = record {
    refuse = true;
    scope = Scope.zone;
    in_zone = z;
    prev = was;
    now = is;
    dropped = was - is;
    drop_fraction = fl.quotient (was - is) was;
  }

  unfoldable pub zone_trips : Config F → Baseline → Baseline → Text → Bool
  zone_trips cfg prev now z =
      let was = lookup_or 0 z prev.zones in
      trips (was - lookup_or 0 z now.zones) was cfg.zone_drop_fraction cfg.zone_min_records

  unfoldable pub worse : Config F → Baseline → Baseline → Text → Verdict F → Verdict F
  worse cfg prev now z worst =
      let was = lookup_or 0 z prev.zones in
      let is = lookup_or 0 z now.zones in
      if not (zone_trips cfg prev now z)
      then worst
      else if ltb worst.dropped (was - is)
      then zone_verdict z was is
      else worst

  unfoldable pub worst_zone : Config F → Baseline → Baseline → List Text → Verdict F → Verdict F
  worst_zone cfg prev now [] worst = worst
  worst_zone cfg prev now (z ∷ zs) worst = worst_zone cfg prev now zs (worse cfg prev now z worst)

  unfoldable pub global_verdict : Baseline → Baseline → Verdict F
  global_verdict prev now = record {
    refuse = true;
    scope = Scope.global;
    in_zone = [];
    prev = prev.total;
    now = now.total;
    dropped = prev.total - now.total;
    drop_fraction = fl.quotient (prev.total - now.total) prev.total;
  }

  unfoldable pub global_trips : Config F → Baseline → Baseline → Bool
  global_trips cfg prev now =
      trips (prev.total - now.total) prev.total cfg.global_drop_fraction cfg.global_min_records

  unfoldable pub evaluate : Config F → Baseline → Baseline → Verdict F
  evaluate cfg prev now =
      if (empty_result prev now.total).refuse
      then empty_result prev now.total
      else if prev.total == 0
      then no_verdict
      else if not cfg.enabled
      then no_verdict
      else if global_trips cfg prev now
      then global_verdict prev now
      else worst_zone cfg prev now (sort_by text_lt (keys prev.zones)) no_verdict

-- `Override`: the consent, and what `ConsumeIfArmed` returns and leaves.
pub record Override : Type 0 where
  pub armed : Bool

unfoldable pub arm : Override → Override
arm o = record { armed = true }

unfoldable pub consume_if_armed : Override → Bool × Override
consume_if_armed o = (o.armed, record { armed = false })
