-- ===== src/Discovery/Longest.antt =====
-- longestMatchingZone of internal/zonediscovery/netbox_dns.go.
use coredns_netbox.Base.{
  ◌≤◌, ◌≡◌, refl, sym, ◌≢◌, ◌⊎◌, inl, inr, true, ◌&&◌, List, [], ◌∷◌, arith, if◌then◌else◌, ltb,
  Bool-cases, Option-cases, ◌==◌, nat_eq, ==_iff, ==_refl, length, contains,
}
use coredns_netbox.Base.Text.{Text, text_eq, before_suffix, has_suffix, dot}
use coredns_netbox.Base.Words.{IsUnder, before_suffix-eq-some, before_suffix-append}
use coredns_netbox.Discovery.{undot, zone_matches, best_zone, longest_matching_zone}

-- No zone of the list that the name lies under is longer, and the result is one of them or nothing.
pub record IsLongest (fqdn : Text) (zones : List Text) (best : Text) : Type 0 where
  pub longest :
      (z : Text)
      → contains zones z ≡ true
      → zone_matches fqdn (undot z) ≡ true
      → length (undot z) ≤ length best
  pub listed :
      (best ≡ [])
      ⊎ ((z : Text) × (contains zones z ≡ true)
          × (undot z ≡ best)
          × (zone_matches fqdn best ≡ true))

abbrev next_best : Text → Text → Text → Text
next_best fqdn z best =
    if zone_matches fqdn (undot z) && ltb (length best) (length (undot z)) then undot z else best

best_zone_grows :
    (fqdn : Text) (zones : List Text) (best : Text)
    → length best ≤ length (best_zone fqdn zones best)
unfolding best_zone
best_zone_grows fqdn [] best = omega arith
best_zone_grows fqdn (z ∷ zones) best =
    ground (arith, best_zone_grows fqdn zones (next_best fqdn z best))

best_zone_longest :
    (fqdn : Text) (zones : List Text) (best z : Text)
    → contains zones z ≡ true
    → zone_matches fqdn (undot z) ≡ true
    → length (undot z) ≤ length (best_zone fqdn zones best)
unfolding best_zone
best_zone_longest fqdn [] best z h m = absurd (ground (arith, h))
best_zone_longest fqdn (y ∷ zones) best z h m = elim (Bool-cases (z == y)) [
  | inl e ↦
      let same : z ≡ y = (==_iff z y).0 e in
      let grows = best_zone_grows fqdn zones (next_best fqdn y best) in
      let here : length (undot z) ≤ length (next_best fqdn y best) =
        rw same (ground (arith, rw same at m)) in
      omega (arith, grows, here)
  | inr e ↦ best_zone_longest fqdn zones (next_best fqdn y best) z (ground (arith, e, h)) m
]

best_zone_listed :
    (fqdn : Text) (zones : List Text) (best : Text)
    → (best_zone fqdn zones best ≡ best)
      ⊎ ((z : Text) × (contains zones z ≡ true)
          × (undot z ≡ best_zone fqdn zones best)
          × (zone_matches fqdn (undot z) ≡ true))
unfolding best_zone
best_zone_listed fqdn [] best = inl refl
best_zone_listed fqdn (z ∷ zones) best =
    elim (best_zone_listed fqdn zones (next_best fqdn z best)) [
      | inr (y, hy, ey, my) ↦ inr (y, ground (arith, hy), ey, my)
      | inl e ↦
          elim (Bool-cases (zone_matches fqdn (undot z) && ltb (length best) (length (undot z)))) [
            | inr no_ ↦ inl (ground (arith, e, no_))
            | inl yes_ ↦
                inr (z, ground (arith, ==_refl z), ground (arith, e, yes_), ground (arith, yes_))
          ]
    ]

-- A name is put in the longest zone that it matches, whatever the order of the list, and in none
-- only where no zone with a label matches.
pub longest_matching_zone-IsLongest :
    (name : Text) (zones : List Text)
    → IsLongest (undot name) zones (longest_matching_zone name zones)
unfolding longest_matching_zone
longest_matching_zone-IsLongest name zones = record {
  longest = best_zone_longest (undot name) zones [];
  listed = elim (best_zone_listed (undot name) zones []) [
    | inl e ↦ inl e
    | inr (z, h, e, m) ↦ inr (z, h, e, rw (sym e) m)
  ];
}

pub zone_matches-IsUnder : (name z : Text) → z ≢ [] → zone_matches name z ≡ true → IsUnder z name
unfolding IsUnder has_suffix
zone_matches-IsUnder name z some_ h = elim (Bool-cases (name == z)) [
  | inl e ↦ inl ((==_iff name z).0 e)
  | inr e ↦ elim (Option-cases (before_suffix name (dot ∷ z))) [
    | inl e2 ↦ absurd (ground (arith, e, e2, h))
    | inr (p, e2) ↦ inr (p, before_suffix-eq-some name (dot ∷ z) p e2, some_)
  ]
]

pub IsUnder-zone_matches : (name z : Text) → IsUnder z name → zone_matches name z ≡ true
unfolding IsUnder has_suffix
IsUnder-zone_matches name z (inl e) = ground (arith, e)
IsUnder-zone_matches name z (inr (p, e, _)) = ground (arith, before_suffix-append p (dot ∷ z), e)
