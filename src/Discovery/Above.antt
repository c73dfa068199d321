-- ===== src/Discovery/Above.antt =====
-- commonSuffix of internal/zonediscovery/common_suffix.go: the zone is above the names of the group.
use coredns_netbox.Base.{
  ℕ, zero, suc, ◌-◌, ◌≤◌, ◌<◌, ◌≡◌, refl, sym, ap, ◌∙◌, inl, inr, Bool, true, false, ◌&&◌, List, [],
  ◌∷◌, arith, ltb, Bool-cases, ◌==◌, nat_eq, ==_iff, length, take, drop, all, All, length-append,
  length-drop, length-take, take-append-drop,
}
use coredns_netbox.Base.Text.{Text, text_eq, split, join, dot}
use coredns_netbox.Record.{IpRecord}
use mathlib.Core.List.{reverse, reverse-append, reverse-reverse, reverse-cons}
use coredns_netbox.Base.Words.{IsUnder, join-split, join-append-IsUnder, join-drop-IsUnder}
use coredns_netbox.Discovery.{undot, labels_of}
use coredns_netbox.Discovery.CommonSuffix.{
  reversed_labels, agreeing, common_len, zone_of, cut_zone, common_suffix,
}

agreeing-take :
    (a b : List Text) (k : ℕ) → k ≤ agreeing a b → (take k a ≡ take k b) × (k ≤ length a)
unfolding agreeing
agreeing-take a b zero h = (refl, omega arith)
agreeing-take [] b (suc k) h = absurd (omega (arith, h))
agreeing-take (x ∷ a) [] (suc k) h = absurd (omega (arith, h))
agreeing-take (x ∷ a) (y ∷ b) (suc k) h = elim (Bool-cases (x == y)) [
  | inr e ↦ absurd (ground (arith, e, h))
  | inl e ↦
      let (same, le) = agreeing-take a b k (ground (arith, e, h)) in
      (ap (λ z. z ∷ take k a) ((==_iff x y).0 e) ∙ ap (λ l. y ∷ l) same, omega (arith, le))
]

take-take : (k n : ℕ) (l : List Text) → k ≤ n → take k (take n l) ≡ take k l
take-take zero n l h = refl
take-take (suc k) zero l h = absurd (omega (arith, h))
take-take (suc k) (suc n) [] h = refl
take-take (suc k) (suc n) (x ∷ l) h = ap (λ t. x ∷ t) (take-take k n l (omega (arith, h)))

length-take-le : (n : ℕ) (l : List Text) → (length (take n l) ≤ n) × (length (take n l) ≤ length l)
length-take-le zero l = omega arith
length-take-le (suc n) [] = omega arith
length-take-le (suc n) (x ∷ l) = omega (arith, length-take-le n l)

abbrev Shares : List Text → ℕ → IpRecord → Type 0
Shares ref n r = (take n (reversed_labels r) ≡ take n ref) × (n ≤ length (reversed_labels r))

common_len-le : (ref : List Text) (rs : List IpRecord) (n : ℕ) → common_len ref rs n ≤ n
unfolding common_len
common_len-le ref [] n = omega arith
common_len-le ref (r ∷ rs) n =
    let a = take n (reversed_labels r) in
    let k = agreeing a (take n ref) in
    omega (
      arith,
      common_len-le ref rs k,
      (agreeing-take a (take n ref) k (omega arith)).1,
      (length-take-le n (reversed_labels r)).0,
    )

-- All records share the labels that are counted.
common_len-Shares :
    (ref : List Text) (rs : List IpRecord) (n k : ℕ)
    → k ≤ common_len ref rs n
    → All (Shares ref k) rs
unfolding common_len
common_len-Shares ref [] n k h = tt
common_len-Shares ref (r ∷ rs) n k h =
    let a = take n (reversed_labels r) in
    let j = agreeing a (take n ref) in
    let fewer : k ≤ j = omega (arith, common_len-le ref rs j, h) in
    let (same, le) = agreeing-take a (take n ref) k fewer in
    let (lo, hi) = length-take-le n (reversed_labels r) in
    let kn : k ≤ n = omega (arith, le, lo) in
    (
      (
        sym (take-take k n (reversed_labels r) kn) ∙ same ∙ take-take k n ref kn,
        omega (arith, le, hi),
      ),
      common_len-Shares ref rs j k h,
    )

length-reverse : (l : List Text) → length (reverse l) ≡ length l
length-reverse [] = refl
length-reverse (x ∷ l) =
    ap (length {A = Text}) (reverse-cons x l)
    ∙ length-append (reverse l) (x ∷ [])
    ∙ omega (arith, length-reverse l)

-- The zone of labels that a record shares is above its name.
Shares-IsUnder :
    (ref : List Text) (n : ℕ) (r : IpRecord)
    → 2 ≤ n
    → Shares ref n r
    → IsUnder (zone_of ref n) (undot r.dns_name)
Shares-IsUnder ref n r lo (same, le) =
    let labels = labels_of r.dns_name in
    let rev = reversed_labels r in
    let whole =
      sym (join-split (undot r.dns_name) dot)
      ∙ ap (λ l. join l dot)
          (sym (reverse-reverse labels)
            ∙ ap reverse (sym (take-append-drop n rev))
            ∙ reverse-append (take n rev) (drop n rev)) in
    let size : 2 ≤ length (reverse (take n rev)) =
      omega (arith, lo, le, length-reverse (take n rev), length-take n rev le) in
    let under = join-append-IsUnder (reverse (drop n rev)) (reverse (take n rev)) size in
    rw (sym whole, same) at under

all-All :
    (p : IpRecord → Bool) (Q : IpRecord → Type 0) (rs : List IpRecord)
    → ((r : IpRecord) → p r ≡ true → Q r)
    → all p rs ≡ true
    → All Q rs
all-All p Q [] q h = tt
all-All p Q (r ∷ rs) q h = (q r (ground (arith, h)), all-All p Q rs q (ground (arith, h)))

cut_zone-IsUnder :
    (records : List IpRecord) (zone : Text)
    → All (λ r. IsUnder zone (undot r.dns_name)) records
    → All (λ r. IsUnder (cut_zone records zone) (undot r.dns_name)) records
unfolding cut_zone
cut_zone-IsUnder records zone h =
    let labels = split zone dot in
    let n = length labels - 2 in
    elim (Bool-cases (all (λ r. undot r.dns_name == zone) records && ltb 2 (length labels))) [
      | inr e ↦ rw (e, cut_zone) h
      | inl e ↦
          let deep : 2 < length labels = ground (arith, e) in
          let size : 2 ≤ length (drop n labels) = omega (arith, deep, length-drop n labels) in
          let under = join-drop-IsUnder zone n size in
          rw (e, cut_zone)
            (all-All (λ r. undot r.dns_name == zone)
              (λ r. IsUnder (join (drop n labels) dot) (undot r.dns_name)) records
              (λ r same. rw ((==_iff (undot r.dns_name) zone).0 same) under) (ground (arith, e)))
    ]

Shares-All :
    (ref : List Text) (n : ℕ) (rs : List IpRecord)
    → 2 ≤ n
    → All (Shares ref n) rs
    → All (λ r. IsUnder (zone_of ref n) (undot r.dns_name)) rs
Shares-All ref n [] lo h = tt
Shares-All ref n (r ∷ rs) lo h = (Shares-IsUnder ref n r lo h.0, Shares-All ref n rs lo h.1)

IsUnder-same :
    (z w : Text) (rs : List IpRecord)
    → z ≡ w
    → All (λ s. IsUnder w (undot s.dns_name)) rs
    → All (λ s. IsUnder z (undot s.dns_name)) rs
IsUnder-same z w rs e h = rw e h

-- A group whose names have two labels or more in common at the end gets a zone that all its names
-- lie under.
pub common_suffix-IsUnder :
    (r : IpRecord) (rs : List IpRecord)
    → 2 ≤ common_len (reversed_labels r) rs (length (reversed_labels r))
    → All (λ s. IsUnder (common_suffix (r ∷ rs)) (undot s.dns_name)) (r ∷ rs)
unfolding common_suffix
common_suffix-IsUnder r rs h =
    let ref = reversed_labels r in
    let n = common_len ref rs (length ref) in
    let wide : ltb n 2 ≡ false = ground (arith, h) in
    let first : Shares ref n r = (refl, common_len-le ref rs (length ref)) in
    let rest = common_len-Shares ref rs (length ref) n (omega arith) in
    let same : common_suffix (r ∷ rs) ≡ cut_zone (r ∷ rs) (zone_of ref n) =
      rw (wide, common_suffix) refl in
    IsUnder-same (common_suffix (r ∷ rs)) (cut_zone (r ∷ rs) (zone_of ref n)) (r ∷ rs) same
      (cut_zone-IsUnder (r ∷ rs) (zone_of ref n) (Shares-All ref n (r ∷ rs) h (first, rest)))
