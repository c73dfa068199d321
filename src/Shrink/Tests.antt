-- ===== src/Shrink/Tests.antt =====
-- Runs of the shrink guard of internal/shrinkguard, with a fraction as a pair of numbers.
use coredns_netbox.Base.{ℕ, ◌*◌, ◌≤◌, ◌≡◌, refl, true, false, [], ◌∷◌, ltb, nat_eq}
use coredns_netbox.Base.Text.{codes, text_eq, text_lt}
use coredns_netbox.Shrink.{
  Floats, Config, Baseline, zone_trips, global_trips, evaluate, trips, empty_result, worst_zone,
  worse, zone_verdict, global_verdict,
}
use coredns_netbox.Zonegen.Order.{sort_by, insert_by}
use coredns_netbox.Shrink.Verdicts.{lost, refuse-evaluate, evaluate_names_worst}

abbrev fractions : Floats (ℕ × ℕ)
fractions = record {
  zero_share = (0, 1);
  one_share = (1, 1);
  is_positive = λ x. ltb 0 x.0;
  exceeds = λ x y. ltb (y.0 * x.1) (x.0 * y.1);
  quotient = λ m n. (m, n);
}

-- More than a half of all records, or of a zone.
abbrev policy : Config (ℕ × ℕ)
policy = record {
  enabled = true;
  global_drop_fraction = (50, 100);
  global_min_records = 5;
  zone_drop_fraction = (50, 100);
  zone_min_records = 2;
}

abbrev before : Baseline
before = record {
  total = 22;
  zones = (codes "a.", 10) ∷ (codes "b.", 12) ∷ [];
  zones_on_disk = false;
}

abbrev after : Baseline
after = record {
  total = 13;
  zones = (codes "a.", 2) ∷ (codes "b.", 11) ∷ [];
  zones_on_disk = false;
}

refuse-evaluate_example : (evaluate fractions policy before after).refuse ≡ true
unfolding text_eq nat_eq zone_trips global_trips trips
refuse-evaluate_example = refuse-evaluate fractions policy before after

evaluate_names_worst_run :
    lost fractions policy before after (codes "a.")
    ≤ lost fractions policy before after (evaluate fractions policy before after).in_zone
unfolding text_eq nat_eq zone_trips global_trips trips evaluate empty_result worst_zone worse
    zone_verdict global_verdict sort_by insert_by text_lt
evaluate_names_worst_run =
    evaluate_names_worst fractions policy before after (codes "a.") refl refl refl
