-- ===== src/Sidecar/Tests.antt =====
-- Runs of the poll and the loop of cmd/sidecar/main.go.
use coredns_netbox.Base.{
  ℕ, ◌*◌, ◌≡◌, refl, ◌≢◌, true, false, not, ◌&&◌, none, some, List, [], ◌∷◌, ltb, nat_eq,
}
use coredns_netbox.Base.Text.{text_eq}
use coredns_netbox.Manager.Tests.{settings, healthy, over_old}
use coredns_netbox.Shrink.{
  Floats, Config, Baseline, Override, evaluate, from_zone_counts, empty_result, sum_counts,
  consume_if_armed,
}
use coredns_netbox.Sidecar.{
  Deployment, Round, Trigger, Sidecar, discover, enrich, fetch_netbox, judge, with_names,
  without_names, do_fetch, count_zone_records, qualify_dns_name,
}
use coredns_netbox.Sidecar.Consent.{
  fetch_netbox_guarded, failed_fetch_keeps, consent_publishes_empty,
}
use coredns_netbox.Samples.{lab, web_by_hand, sample_store, sample_sha}

-- A fraction as a pair of numbers, and a guard whose thresholds are disabled.
abbrev fractions : Floats (ℕ × ℕ)
fractions = record {
  zero_share = (0, 1);
  one_share = (1, 1);
  is_positive = λ x. ltb 0 x.0;
  exceeds = λ x y. ltb (y.0 * x.1) (x.0 * y.1);
  quotient = λ m n. (m, n);
}

abbrev no_guard : Config (ℕ × ℕ)
no_guard = record {
  enabled = false;
  global_drop_fraction = (0, 1);
  global_min_records = 0;
  zone_drop_fraction = (0, 1);
  zone_min_records = 0;
}

-- Every record belongs to one zone.
abbrev deployment : Deployment (ℕ × ℕ)
deployment = record {
  floats = fractions;
  guard = no_guard;
  settings = settings;
  domain_suffix = [];
  device_records = λ rs. [];
  forward = λ rs. some ((lab, rs) ∷ []);
  reverse = none;
  strip = λ rs. rs;
  webhook_poll_min_interval = 30;
  sha = sample_sha;
}

-- Discovery finds no zone.
abbrev zoneless : Deployment (ℕ × ℕ)
zoneless = record deployment { forward = λ rs. some [] }

abbrev armed : Override
armed = record { armed = true }

abbrev two_records : Baseline
two_records = record { total = 2; zones = (lab, 2) ∷ []; zones_on_disk = false }

fetch_netbox_guarded_example :
    (some (web_by_hand ∷ []) ≢ none)
    × (from_zone_counts ((lab, 1) ∷ [])
        ≡ from_zone_counts (count_zone_records ((lab, web_by_hand ∷ []) ∷ [])))
    × ((evaluate fractions no_guard two_records (from_zone_counts ((lab, 1) ∷ []))).refuse
          && not true
        ≡ false)
    × ((fetch_netbox deployment (some (web_by_hand ∷ [])) two_records armed).1.armed ≡ false)
unfolding fetch_netbox judge empty_result enrich discover with_names without_names qualify_dns_name
    consume_if_armed count_zone_records nat_eq text_eq evaluate sum_counts from_zone_counts
fetch_netbox_guarded_example =
    fetch_netbox_guarded deployment (some (web_by_hand ∷ [])) two_records armed
      ((lab, web_by_hand ∷ []) ∷ []) (from_zone_counts ((lab, 1) ∷ [])) refl

consent_publishes_empty_run :
    (fetch_netbox zoneless (some (web_by_hand ∷ [])) two_records armed).0
    ≡ some ([], from_zone_counts [])
unfolding discover
consent_publishes_empty_run =
    consent_publishes_empty zoneless web_by_hand [] two_records armed refl refl

abbrev started : Sidecar
started = record {
  store = sample_store;
  manager = over_old;
  last_baseline = record { total = 0; zones = []; zones_on_disk = true };
  fetch_succeeded_once = false;
  last_netbox_zones = [];
  override = record { armed = false };
  ready = true;
  last_success = 100;
  last_webhook_poll = none;
  reloads = 0;
}

abbrev down : Round
down = record { fetched = none; fetch_start = 200; now = 201; world = healthy; store_write = none }

abbrev rounds : List (Trigger × Round)
rounds = (Trigger.tick, down) ∷ (Trigger.merge, down) ∷ (Trigger.webhook_poll, down) ∷ []

-- NetBox returns nothing, while zone files of an earlier run are served.
abbrev nothing : Round
nothing = record down { fetched = some [] }

failed_fetch_keeps_run :
    ((do_fetch deployment nothing started).1.last_netbox_zones ≡ [])
    × ((do_fetch deployment nothing started).1.last_baseline ≡ started.last_baseline)
    × ((do_fetch deployment nothing started).1.store ≡ sample_store)
    × ((do_fetch deployment nothing started).1.manager ≡ over_old)
unfolding do_fetch fetch_netbox empty_result nat_eq
failed_fetch_keeps_run = failed_fetch_keeps deployment nothing started refl
