-- ===== src/Discovery/Reverse/Found.antt =====
-- What reverseIPv4 and reverseIPv6 of internal/zonediscovery/reverse.go return.
use coredns_netbox.Base.{
  ℕ, ◌-◌, ◌≤◌, ◌≡◌, refl, sym, ap, ◌∙◌, ◌≢◌, ◌↔◌, ◌⊎◌, inl, inr, Bool, true, false, none, some,
  List, [], ◌∷◌, ◌++◌, append_assoc, arith, ltb, Bool-cases, Option-cases, ◌==◌, nat_eq, ==_iff,
  length, take, contains, All, length-append,
}
use coredns_netbox.Base.Text.{
  Text, text_eq, before_suffix, has_suffix, trim_suffix, split, join, dot,
}
use mathlib.Core.List.{reverse}
use coredns_netbox.Base.Words.{before_suffix-eq-some, join-append, join-split, split-ne-nil}
use coredns_netbox.Discovery.Reverse.{
  Match, zone_labels, match_v4, match_v6, ptr_of, octets_of, nibbles_of, reverse_ipv4, reverse_ipv6,
  v4, v6, in_addr_arpa, ip6_arpa,
}
use coredns_netbox.Discovery.Reverse.Names.{
  Ends, match_by, match_by_found, match_by_deepest, test_v4, test_v6, test_v4_iff, test_v6_iff,
  match_v4-eq-match_by, match_v6-eq-match_by,
}

-- The zone is a configured one, the name in it and the zone make the whole reverse name of the
-- address, and no configured zone whose labels end that name has more of them.
pub record PtrIn (suffix : Text) (full zones : List Text) (zone ptr : Text) : Type 0 where
  pub listed : contains zones zone ≡ true
  pub whole :
      (join full dot ++ suffix ≡ ptr ++ dot ∷ zone) ⊎ (ptr ≡ []) × (join full dot ++ suffix ≡ zone)
  pub deepest :
      (z : Text) (labels found : List Text)
      → contains zones z ≡ true
      → zone_labels suffix z ≡ some labels
      → Ends full labels
      → zone_labels suffix zone ≡ some found
      → length labels ≤ length found

All-contained :
    (P : Text → Bool) (zones : List Text) (z : Text)
    → All (λ y. P y ≡ true) zones
    → contains zones z ≡ true
    → P z ≡ true
All-contained P [] z a h = absurd (ground (arith, h))
All-contained P (y ∷ zones) z a h = elim (Bool-cases (z == y)) [
  | inl e ↦ rw ((==_iff z y).0 e) a.0
  | inr e ↦ All-contained P zones z a.1 (ground (arith, e, h))
]

labels_whole :
    (suffix z : Text) (labels : List Text)
    → has_suffix z suffix ≡ true
    → zone_labels suffix z ≡ some labels
    → (z ≡ join labels dot ++ suffix) × (labels ≢ [])
unfolding has_suffix trim_suffix
labels_whole suffix z labels s h = elim (Option-cases (before_suffix z suffix)) [
  | inl e ↦ absurd (ground (arith, e, s))
  | inr (p, e) ↦
      let cut : split p dot ≡ labels = ground (arith, e, h) in
      (
        before_suffix-eq-some z suffix p e
            ∙ ap (λ t. t ++ suffix) (sym (join-split p dot) ∙ ap (λ l. join l dot) cut),
        λ n. split-ne-nil p dot (cut ∙ n),
      )
]

take-append_left : (t l : List Text) → take (length (t ++ l) - length l) (t ++ l) ≡ t
take-append_left t l = ap (λ k. take k (t ++ l)) (size t l) ∙ prefix t l
  where
    size : (a b : List Text) → length (a ++ b) - length b ≡ length a
    size a b = omega (arith, length-append a b)

    prefix : (a b : List Text) → take (length a) (a ++ b) ≡ a
    prefix [] b = refl
    prefix (x ∷ a) b = ap (λ l. x ∷ l) (prefix a b)

some_inj {ℓ} : {A : Type ℓ} (a b : A) → some a ≡ some b → a ≡ b
some_inj a b h = cc

join_whole :
    (t labels : List Text) (suffix : Text)
    → labels ≢ []
    → (join (t ++ labels) dot ++ suffix ≡ join t dot ++ dot ∷ (join labels dot ++ suffix))
      ⊎ (join t dot ≡ []) × (join (t ++ labels) dot ++ suffix ≡ join labels dot ++ suffix)
unfolding join
join_whole [] labels suffix h = inr (refl, refl)
join_whole (x ∷ t) labels suffix h = inl (
    ap (λ s. s ++ suffix) (join-append (x ∷ t) labels dot (λ n. cc) h)
    ∙ append_assoc (join (x ∷ t) dot) (dot ∷ join labels dot) suffix)

module _ (test : List Text → Bool) (suffix : Text) (full zones : List Text)
    (test-iff : (labels : List Text) → (test labels ≡ true) ↔ Ends full labels)
    (arpa : All (λ z. has_suffix z suffix ≡ true) zones) where
  -- A match, with the name that is cut from the whole one.
  ptr_of-PtrIn :
      (m : Match) (zone ptr : Text)
      → match_by test suffix zones ([], 0) ≡ m
      → ptr_of full m ≡ some (zone, ptr)
      → PtrIn suffix full zones zone ptr
  unfolding Ends
  ptr_of-PtrIn (z, d) zone ptr em h =
      let zone_same : z ≡ zone = ground (arith, h) in
      let ptr_same : join (take (length full - d) full) dot ≡ ptr = ground (arith, h) in
      elim (match_by_found test suffix zones ([], 0)) [
        | inl e ↦ absurd (ground (arith, h, sym em ∙ e))
        | inr (listed, labels, el, t, ed) ↦
            let at_z = ap (λ (m : Match). m.0) em ∙ zone_same in
            let at_d = sym (ap (λ (m : Match). m.1) em) ∙ ed in
            let (front, ef) = (test-iff labels).0 t in
            let here = rw at_z at listed in
            let labels_here = rw at_z at el in
            let (ez, some_) =
              labels_whole suffix zone labels
                (All-contained (λ y. has_suffix y suffix) zones zone arpa here) labels_here in
            let cut =
              ap (λ n. take (length full - n) full) at_d
              ∙ ap (λ f. take (length f - length labels) f) ef
              ∙ take-append_left front labels in
            let ptr_front : join front dot ≡ ptr = sym (ap (λ l. join l dot) cut) ∙ ptr_same in
            let name = ap (λ f. join f dot ++ suffix) ef in
            record {
              listed = here;
              whole = elim (join_whole front labels suffix some_) [
                | inl e ↦ inl (
                    name
                    ∙ e
                    ∙ ap (λ p. p ++ dot ∷ (join labels dot ++ suffix)) ptr_front
                    ∙ ap (λ s. ptr ++ dot ∷ s) (sym ez))
                | inr (n, e) ↦ inr (sym ptr_front ∙ n, name ∙ e ∙ sym ez)
              ];
              deepest = λ y l found hy ey ends ef2.
                  let bound =
                    match_by_deepest test suffix zones ([], 0) y l hy ey ((test-iff l).1 ends) in
                  let one : found ≡ labels = some_inj found labels (sym ef2 ∙ labels_here) in
                  omega (arith, bound, ed, ap (length {A = Text}) one);
            }
      ]

-- Where every configured zone ends with in-addr.arpa behind a dot, the zone and the name that an
-- IPv4 address gets make its whole reverse name, and no configured zone that ends this name has
-- more labels.
pub reverse_ipv4-PtrIn :
    (zones : List Text) (a b c d : ℕ) (zone ptr : Text)
    → All (λ z. has_suffix z in_addr_arpa ≡ true) zones
    → reverse_ipv4 zones (v4 a b c d) ≡ some (zone, ptr)
    → PtrIn in_addr_arpa (reverse (octets_of a b c d)) zones zone ptr
unfolding reverse_ipv4
reverse_ipv4-PtrIn zones a b c d zone ptr arpa h =
    let octets = octets_of a b c d in
    ptr_of-PtrIn (test_v4 octets) in_addr_arpa (reverse octets) zones (test_v4_iff octets) arpa
      (match_v4 octets zones ([], 0)) zone ptr (sym (match_v4-eq-match_by octets zones ([], 0))) h

-- Where every configured zone ends with ip6.arpa behind a dot, and the code comes to a result, the
-- zone and the name that an IPv6 address gets make its whole reverse name of nibbles, and no
-- configured zone that ends this name has more labels.
pub reverse_ipv6-PtrIn :
    (zones : List Text) (bytes : List ℕ) (zone ptr : Text)
    → All (λ z. has_suffix z ip6_arpa ≡ true) zones
    → reverse_ipv6 zones (v6 bytes) ≡ some (some (zone, ptr))
    → PtrIn ip6_arpa (reverse (nibbles_of bytes)) zones zone ptr
unfolding reverse_ipv6
reverse_ipv6-PtrIn zones bytes zone ptr arpa h =
    let nibbles = reverse (nibbles_of bytes) in
    elim (Option-cases (match_v6 nibbles zones ([], 0))) [
      | inl e ↦ absurd (ground (arith, e, h))
      | inr (m, e) ↦
          ptr_of-PtrIn (test_v6 nibbles) ip6_arpa nibbles zones (test_v6_iff nibbles) arpa m zone
            ptr (sym (match_v6-eq-match_by nibbles zones ([], 0) m e))
            (some_inj (ptr_of nibbles m) (some (zone, ptr)) (sym (got m e) ∙ h))
    ]
  where
    got :
        (m : Match)
        → match_v6 (reverse (nibbles_of bytes)) zones ([], 0) ≡ some m
        → reverse_ipv6 zones (v6 bytes) ≡ some (ptr_of (reverse (nibbles_of bytes)) m)
    got m e = rw (reverse_ipv6, e) refl

short_zones_fit :
    (nibbles zones : List Text) (best : Match)
    → All (λ z. length (split (trim_suffix z ip6_arpa) dot) ≤ length nibbles) zones
    → match_v6 nibbles zones best ≢ none
unfolding match_v6
short_zones_fit nibbles [] best a = λ h. cc
short_zones_fit nibbles (zone ∷ zones) best a = elim (Option-cases (zone_labels ip6_arpa zone)) [
  | inl e ↦ rw (e, match_v6) (short_zones_fit nibbles zones best a.1)
  | inr (labels, e) ↦
      let fits : ltb (length nibbles) (length labels) ≡ false = ground (arith, e, a.0) in
      rw (e, fits, match_v6) (short_zones_fit nibbles zones _ a.1)
]

-- Where no configured zone has more labels than an IPv6 address has nibbles, `reverseIPv6` does not
-- index out of range.
pub reverse_ipv6_fits :
    (zones : List Text) (bytes : List ℕ)
    → All
        (λ z. length (split (trim_suffix z ip6_arpa) dot) ≤ length (reverse (nibbles_of bytes)))
        zones
    → reverse_ipv6 zones (v6 bytes) ≢ none
unfolding reverse_ipv6
reverse_ipv6_fits zones bytes a =
    elim (Option-cases (match_v6 (reverse (nibbles_of bytes)) zones ([], 0))) [
      | inl e ↦ absurd (short_zones_fit (reverse (nibbles_of bytes)) zones ([], 0) a e)
      | inr (m, e) ↦ rw (reverse_ipv6, e) (λ h. cc)
    ]
