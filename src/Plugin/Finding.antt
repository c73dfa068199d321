-- ===== src/Plugin/Finding.antt =====
-- findZone of coredns/plugins/netboxreload/plugin.go: which zone a name belongs to.
use coredns_netbox.Base.{
  ℕ, ◌≤◌, ◌<◌, ◌≡◌, refl, sym, ap, ◌≢◌, ◌⊎◌, inl, inr, Option, none, some, [], ◌∷◌, ◌++◌, arith,
  Bool-cases, Option-cases, ◌==◌, nat_eq, ==_iff, length, length-append,
}
use coredns_netbox.Base.Text.{Text, text_eq, dot}
use coredns_netbox.Base.Dict.{Dict, lookup}
use coredns_netbox.Base.Words.{IsUnder}
use coredns_netbox.Plugin.{Zone, find_parent, find_zone}

-- The zone found has an origin that the name lies under, and no served origin under which the name
-- lies is longer; where none is found, the name lies under no served origin.
unfoldable pub Finds : Dict Text Zone → Text → Option Zone → Type 0
Finds zones name none = (o : Text) → IsUnder o name → lookup o zones ≡ none
Finds zones name (some z) =
    (o : Text) × IsUnder o name
    × (lookup o zones ≡ some z)
    × ((j : Text) (y : Zone) → IsUnder j name → lookup j zones ≡ some y → length j ≤ length o)

-- The parents of a name: what stands behind a dot.
IsBelow : Text → Text → Type 0
IsBelow origin name = (p : Text) × (name ≡ p ++ dot ∷ origin) × (origin ≢ [])

IsBelow-or_self : (o n : Text) → IsUnder o n → (n ≡ o) ⊎ IsBelow o n
unfolding IsUnder IsBelow
IsBelow-or_self o n h = h

below_shorter : (o n : Text) → IsBelow o n → length o < length n
unfolding IsBelow
below_shorter o n (p, e, _) = rw e (omega (arith, length-append p (dot ∷ o)))

IsBelow-cons : (o n : Text) (c : ℕ) → IsBelow o n → IsBelow o (c ∷ n)
unfolding IsBelow
IsBelow-cons o n c (p, e, h) = (c ∷ p, ap (λ s. c ∷ s) e, h)

IsBelow-cases :
    (o n : Text) (c : ℕ) → IsBelow o (c ∷ n) → ((c ≡ dot) × (n ≡ o) × (o ≢ [])) ⊎ IsBelow o n
unfolding IsBelow
IsBelow-cases o n c ([], e, h) = inl (ground (arith, e, h))
IsBelow-cases o n c (d ∷ p, e, h) = inr (p, ground (arith, e), h)

FindsBelow : Dict Text Zone → Text → Option Zone → Type 0
FindsBelow zones name none = (o : Text) → IsBelow o name → lookup o zones ≡ none
FindsBelow zones name (some z) =
    (o : Text) × IsBelow o name
    × (lookup o zones ≡ some z)
    × ((j : Text) (y : Zone) → IsBelow j name → lookup j zones ≡ some y → length j ≤ length o)

IsBelow-nil : (o : Text) → ¬ IsBelow o []
unfolding IsBelow
IsBelow-nil o ([], e, h) = cc
IsBelow-nil o (d ∷ p, e, h) = cc

-- No origin stands behind the first dot of a label, and what stands behind a later one stays.
FindsBelow-more :
    (zones : Dict Text Zone) (n : Text) (c : ℕ) (r : Option Zone)
    → ((o : Text) → (c ≡ dot) × (n ≡ o) × (o ≢ []) → lookup o zones ≡ none)
    → FindsBelow zones n r
    → FindsBelow zones (c ∷ n) r
unfolding FindsBelow
FindsBelow-more zones n c none first h =
    λ o b. elim (IsBelow-cases o n c b) [ inl e ↦ first o e | inr later ↦ h o later ]
FindsBelow-more zones n c (some z) first (o, b, e, longest) = (
  o,
  IsBelow-cons o n c b,
  e,
  λ j y bj ey. elim (IsBelow-cases j n c bj) [
    | inl s ↦ absurd (ground (arith, first j s, ey))
    | inr later ↦ longest j y later ey
  ],
)

FindsBelow-here :
    (zones : Dict Text Zone) (n : Text) (z : Zone)
    → n ≢ []
    → lookup n zones ≡ some z
    → FindsBelow zones (dot ∷ n) (some z)
unfolding FindsBelow
FindsBelow-here zones n z h e = (
  n,
  (unfold IsBelow in ([], refl, h)),
  e,
  λ j y bj ey. elim (IsBelow-cases j n dot bj) [
    | inl (_, same, _) ↦ omega (arith, ap (length {A = ℕ}) same)
    | inr later ↦ omega (arith, below_shorter j n later)
  ],
)

find_parent-FindsBelow :
    (zones : Dict Text Zone) (n : Text) → FindsBelow zones n (find_parent zones n)
unfolding find_parent
find_parent-FindsBelow zones [] = unfold FindsBelow in λ o b. absurd (IsBelow-nil o b)
find_parent-FindsBelow zones (c ∷ n) =
    let later = find_parent-FindsBelow zones n in
    elim (Bool-cases (c == dot)) [
      | inr e ↦
          rw e (FindsBelow-more zones n c (find_parent zones n) (λ o s. ground (arith, e, s)) later)
      | inl e ↦ elim (Bool-cases (n == [])) [
        | inl e2 ↦
            rw (e, e2)
              (unfold FindsBelow in
                λ o b. elim (IsBelow-cases o n c b) [
                  | inl s ↦ absurd (ground (arith, e2, s))
                  | inr b2 ↦ absurd (IsBelow-nil o (rw (sym ((==_iff n []).0 e2)) b2))
                ])
        | inr e2 ↦ elim (Option-cases (lookup n zones)) [
          | inl e3 ↦
              rw (e, e2, e3)
                (FindsBelow-more zones n c (find_parent zones n) (λ o s. ground (arith, e3, s))
                  later)
          | inr (z, e3) ↦
              rw (e, e2, e3)
                (rw ((==_iff c dot).0 e)
                  (FindsBelow-here zones n z (λ h. ground (arith, e2, h)) e3))
        ]
      ]
    ]

Finds-parent :
    (zones : Dict Text Zone) (name : Text) (r : Option Zone)
    → lookup name zones ≡ none
    → FindsBelow zones name r
    → Finds zones name r
unfolding FindsBelow Finds
Finds-parent zones name none e h =
    λ o u. elim (IsBelow-or_self o name u) [ inl s ↦ rw (sym s) e | inr b ↦ h o b ]
Finds-parent zones name (some z) e (o, b, eo, longest) = (
  o,
  (unfold IsUnder IsBelow in inr b),
  eo,
  λ j y u ey. elim (IsBelow-or_self j name u) [
    | inl s ↦ absurd (ground (arith, e, ey, s))
    | inr bj ↦ longest j y bj ey
  ],
)

-- The zone that a query is answered from is the one with the longest origin that the name lies
-- under, and where the name lies under no origin there is none.
pub find_zone-Finds :
    (zones : Dict Text Zone) (name : Text) → Finds zones name (find_zone zones name)
unfolding find_zone
find_zone-Finds zones name = elim (Option-cases (lookup name zones)) [
  | inr (z, e) ↦
      rw (e, find_zone)
        (unfold Finds IsUnder in
          (
            name,
            inl refl,
            e,
            λ j y u ey. elim (IsBelow-or_self j name u) [
              | inl s ↦ omega (arith, ap (length {A = ℕ}) s)
              | inr b ↦ omega (arith, below_shorter j name b)
            ],
          ))
  | inl e ↦
      rw (e, find_zone)
        (Finds-parent zones name (find_parent zones name) e (find_parent-FindsBelow zones name))
]
