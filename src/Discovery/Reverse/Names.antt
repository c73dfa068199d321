-- ===== src/Discovery/Reverse/Names.antt =====
-- The loops of reverseIPv4 and reverseIPv6 of internal/zonediscovery/reverse.go over the zones.
use coredns_netbox.Base.{
  ◌-◌, ◌≤◌, ◌≡◌, refl, sym, ap, ◌∙◌, ◌↔◌, ◌⊎◌, inl, inr, Bool, true, ◌&&◌, none, some, List, [],
  ◌∷◌, ◌++◌, append-nil, arith, ltb, leb, Bool-cases, Option-cases, ◌==◌, nat_eq, ==_iff, ==_refl,
  length, take, drop, contains, length-append, length-drop, take-append-drop,
}
use coredns_netbox.Base.Text.{Text, text_eq}
use mathlib.Core.List.{reverse, reverse-append, reverse-reverse}
use coredns_netbox.Discovery.Reverse.{
  Match, deeper, zone_labels, begins, match_v4, match_v6, in_addr_arpa, ip6_arpa,
}

-- The labels are the last ones of a name.
unfoldable pub Ends : List Text → List Text → Type 0
Ends full labels = (t : List Text) × (full ≡ t ++ labels)

-- Both loops, over their test.
unfoldable pub match_by : (List Text → Bool) → Text → List Text → Match → Match
match_by test suffix [] best = best
match_by test suffix (zone ∷ zones) best = elim (zone_labels suffix zone) [
  | none ↦ match_by test suffix zones best
  | some labels ↦ match_by test suffix zones (deeper (test labels) zone (length labels) best)
]

match_by_grows :
    (test : List Text → Bool) (suffix : Text) (zones : List Text) (best : Match)
    → best.1 ≤ (match_by test suffix zones best).1
unfolding match_by
match_by_grows test suffix [] best = omega arith
match_by_grows test suffix (zone ∷ zones) best = elim (Option-cases (zone_labels suffix zone)) [
  | inl e ↦ rw (e, match_by) (match_by_grows test suffix zones best)
  | inr (labels, e) ↦
      ground (
        arith,
        e,
        match_by_grows test suffix zones (deeper (test labels) zone (length labels) best),
      )
]

pub match_by_deepest :
    (test : List Text → Bool) (suffix : Text) (zones : List Text) (best : Match) (z : Text)
    (labels : List Text)
    → contains zones z ≡ true
    → zone_labels suffix z ≡ some labels
    → test labels ≡ true
    → length labels ≤ (match_by test suffix zones best).1
unfolding match_by
match_by_deepest test suffix [] best z labels h e t = absurd (ground (arith, h))
match_by_deepest test suffix (y ∷ zones) best z labels h e t = elim (Bool-cases (z == y)) [
  | inl s ↦
      let here = rw ((==_iff z y).0 s) at e in
      let grows = match_by_grows test suffix zones (deeper (test labels) y (length labels) best) in
      ground (arith, here, grows, t)
  | inr s ↦ elim (Option-cases (zone_labels suffix y)) [
    | inl e2 ↦
        rw (e2, match_by)
          (match_by_deepest test suffix zones best z labels (ground (arith, s, h)) e t)
    | inr (l2, e2) ↦
        rw (e2, match_by)
          (match_by_deepest test suffix zones (deeper (test l2) y (length l2) best) z labels
            (ground (arith, s, h)) e t)
  ]
]

pub match_by_found :
    (test : List Text → Bool) (suffix : Text) (zones : List Text) (best : Match)
    → (match_by test suffix zones best ≡ best)
      ⊎ ((contains zones (match_by test suffix zones best).0 ≡ true)
          × (labels : List Text) × (zone_labels suffix (match_by test suffix zones best).0
              ≡ some labels)
          × (test labels ≡ true)
          × ((match_by test suffix zones best).1 ≡ length labels))
unfolding match_by
match_by_found test suffix [] best = inl refl
match_by_found test suffix (y ∷ zones) best = elim (Option-cases (zone_labels suffix y)) [
  | inl e ↦
      rw (e, match_by)
        (elim (match_by_found test suffix zones best) [
          | inl s ↦ inl s
          | inr (h, l, el, t, d) ↦ inr (ground (arith, h), l, el, t, d)
        ])
  | inr (labels, e) ↦
      rw (e, match_by)
        (elim (match_by_found test suffix zones (deeper (test labels) y (length labels) best)) [
          | inr (h, l, el, t, d) ↦ inr (ground (arith, h), l, el, t, d)
          | inl s ↦ elim (Bool-cases (test labels && ltb best.1 (length labels))) [
            | inr off ↦ inl (s ∙ rw off refl)
            | inl on ↦
                let same : match_by test suffix zones (deeper (test labels) y (length labels) best)
                    ≡ (y, length labels) =
                  s ∙ rw on refl in
                inr (
                  rw same (ground (arith, ==_refl y)),
                  labels,
                  rw same e,
                  ground (arith, on),
                  rw same refl,
                )
          ]
        ])
]

begins-eq : (p o : List Text) → begins p o ≡ true → (r : List Text) × (o ≡ p ++ r)
unfolding begins
begins-eq [] o h = (o, refl)
begins-eq (z ∷ p) [] h = absurd (ground (arith, h))
begins-eq (z ∷ p) (a ∷ o) h =
    let same : z ≡ a = ground (arith, h) in
    let (r, e) = begins-eq p o (ground (arith, h)) in
    (r, ap (λ x. x ∷ o) (sym same) ∙ ap (λ l. z ∷ l) e)

begins-append : (p r : List Text) → begins p (p ++ r) ≡ true
unfolding begins
begins-append [] r = refl
begins-append (z ∷ p) r = ground (arith, begins-append p r, ==_refl z)

drop-append : (t l : List Text) → drop (length t) (t ++ l) ≡ l
drop-append [] l = refl
drop-append (x ∷ t) l = drop-append t l

nil_of_length : (l : List Text) → length l ≡ 0 → l ≡ []
nil_of_length [] h = refl
nil_of_length (x ∷ l) h = absurd (omega (arith, h))

-- The test of `reverseIPv4`
abbrev pub test_v4 : List Text → List Text → Bool
test_v4 octets labels = begins (reverse labels) octets

-- The test of `reverseIPv6`, behind the guard against an index below 0
abbrev pub test_v6 : List Text → List Text → Bool
test_v6 nibbles labels =
    leb (length labels) (length nibbles)
    && begins labels (drop (length nibbles - length labels) nibbles)

pub test_v4_iff :
    (octets labels : List Text) → (test_v4 octets labels ≡ true) ↔ Ends (reverse octets) labels
unfolding Ends
test_v4_iff octets labels = (
  λ h.
      let (r, e) = begins-eq (reverse labels) octets h in
      (
        reverse r,
        ap reverse e
            ∙ reverse-append (reverse labels) r
            ∙ ap (λ l. reverse r ++ l) (reverse-reverse labels),
      ),
  λ (t, e).
      let whole = sym (reverse-reverse octets) ∙ ap reverse e ∙ reverse-append t labels in
      rw whole (begins-append (reverse labels) (reverse t)),
)

pub test_v6_iff :
    (nibbles labels : List Text) → (test_v6 nibbles labels ≡ true) ↔ Ends nibbles labels
unfolding Ends
test_v6_iff nibbles labels = (
  λ h.
      let n = length nibbles - length labels in
      let (r, e) = begins-eq labels (drop n nibbles) (ground (arith, h)) in
      let size : length labels ≤ length nibbles = ground (arith, h) in
      let rest : length r ≡ 0 =
        omega
          (arith, length-drop n nibbles, ap (length {A = Text}) e, length-append labels r, size) in
      (
        take n nibbles,
        sym (take-append-drop n nibbles)
            ∙ ap (λ l. take n nibbles ++ l)
                (e ∙ ap (λ l. labels ++ l) (nil_of_length r rest) ∙ append-nil labels),
      ),
  λ (t, e).
      let size = ap (length {A = Text}) e ∙ length-append t labels in
      let n : length nibbles - length labels ≡ length t = omega (arith, size) in
      let same : drop (length nibbles - length labels) nibbles ≡ labels =
        ap (λ k. drop k nibbles) n ∙ ap (λ l. drop (length t) l) e ∙ drop-append t labels in
      let fits : leb (length labels) (length nibbles) ≡ true = ground (arith, size) in
      rw (fits, same) (rw (append-nil labels) at (begins-append labels [])),
)

pub match_v4-eq-match_by :
    (octets zones : List Text) (best : Match)
    → match_v4 octets zones best ≡ match_by (test_v4 octets) in_addr_arpa zones best
unfolding match_v4 match_by
match_v4-eq-match_by octets [] best = refl
match_v4-eq-match_by octets (zone ∷ zones) best =
    elim (Option-cases (zone_labels in_addr_arpa zone)) [
      | inl e ↦ rw (e, match_v4, match_by) (match_v4-eq-match_by octets zones best)
      | inr (labels, e) ↦
          rw (e, match_v4, match_by)
            (match_v4-eq-match_by octets zones
              (deeper (test_v4 octets labels) zone (length labels) best))
    ]

pub match_v6-eq-match_by :
    (nibbles zones : List Text) (best m : Match)
    → match_v6 nibbles zones best ≡ some m
    → m ≡ match_by (test_v6 nibbles) ip6_arpa zones best
unfolding match_v6 match_by
match_v6-eq-match_by nibbles [] best m h = ground (arith, h)
match_v6-eq-match_by nibbles (zone ∷ zones) best m h =
    elim (Option-cases (zone_labels ip6_arpa zone)) [
      | inl e ↦
          rw (e, match_by)
            (match_v6-eq-match_by nibbles zones best m (rw (sym h, match_v6, e) refl))
      | inr (labels, e) ↦ elim (Bool-cases (ltb (length nibbles) (length labels))) [
        | inl e2 ↦ absurd (ground (arith, e, e2, h))
        | inr e2 ↦
            let n = length nibbles - length labels in
            let same : test_v6 nibbles labels ≡ begins labels (drop n nibbles) =
              ground (arith, e2) in
            let next = deeper (begins labels (drop n nibbles)) zone (length labels) best in
            rw (e, match_by)
              (rw same
                (match_v6-eq-match_by nibbles zones next m (rw (sym h, match_v6, e, e2) refl)))
      ]
    ]
