-- ===== src/Base/Words.antt =====
-- Laws of the functions of Base/Text.antt.
use mathlib.Core.Path.{◌≡◌, refl, ap, sym, ◌∙◌}
use mathlib.Core.Logic.{◌≢◌, ◌⊎◌, inl, inr}
use mathlib.Core.Option.{some}
use mathlib.Core.List.{List, [], ◌∷◌, ◌++◌, append_assoc}
use Prim.Native.Nat.{ℕ, ◌≤◌}
use native.Mathlib.Omega.{arith}
use coredns_netbox.Base.Tests.{nat_eq}
use coredns_netbox.Base.Lists.{length, length-append, drop, take, take-append-drop}
use coredns_netbox.Base.Text.{Text, text_eq, before_suffix, onto_head, split, join, dot}

-- A text that ends with the suffix is what stands before it, and the suffix.
pub before_suffix-eq-some : (s suffix p : Text) → before_suffix s suffix ≡ some p → s ≡ p ++ suffix
unfolding before_suffix
before_suffix-eq-some [] suffix p h = ground arith
before_suffix-eq-some (c ∷ s) suffix [] h = ground (arith, before_suffix-eq-some s suffix [])
before_suffix-eq-some (c ∷ s) suffix (d ∷ p) h = ground (arith, before_suffix-eq-some s suffix p)

append_longer : (c : ℕ) (p suffix : Text) → (c ∷ (p ++ suffix)) ≢ suffix
append_longer c p suffix e = absurd (omega (arith, ap (length {A = ℕ}) e, length-append p suffix))

pub before_suffix-append : (p suffix : Text) → before_suffix (p ++ suffix) suffix ≡ some p
unfolding before_suffix
before_suffix-append [] [] = ground arith
before_suffix-append [] (c ∷ s) = ground arith
before_suffix-append (c ∷ p) suffix =
    ground (arith, before_suffix-append p suffix, append_longer c p suffix)

pub join-onto_head :
    (c sep : ℕ) (ps : List Text) → ps ≢ [] → join (onto_head c ps) sep ≡ c ∷ join ps sep
unfolding join
join-onto_head c sep [] h = absurd (h refl)
join-onto_head c sep (p ∷ []) h = refl
join-onto_head c sep (p ∷ q ∷ ps) h = refl

onto_head-ne-nil : (c : ℕ) (ps : List Text) → onto_head c ps ≢ []
onto_head-ne-nil c [] h = cc
onto_head-ne-nil c (p ∷ ps) h = cc

pub split-ne-nil : (s : Text) (sep : ℕ) → split s sep ≢ []
unfolding split
split-ne-nil [] sep h = cc
split-ne-nil (c ∷ s) sep h = ground (arith, onto_head-ne-nil c (split s sep))

join-nil_part : (sep : ℕ) (ps : List Text) → ps ≢ [] → join ([] ∷ ps) sep ≡ sep ∷ join ps sep
unfolding join
join-nil_part sep [] h = absurd (h refl)
join-nil_part sep (p ∷ ps) h = refl

-- The parts of a text, joined, are the text.
pub join-split : (s : Text) (sep : ℕ) → join (split s sep) sep ≡ s
unfolding split join
join-split [] sep = refl
join-split (c ∷ s) sep = ground (
  arith,
  join-split s sep,
  join-onto_head c sep (split s sep) (split-ne-nil s sep),
  join-nil_part sep (split s sep) (split-ne-nil s sep),
)

-- A name lies at the origin or below it: the labels before it end with a dot.
unfoldable pub IsUnder : Text → Text → Type 0
IsUnder origin name = (name ≡ origin) ⊎ ((p : Text) × (name ≡ p ++ dot ∷ origin) × (origin ≢ []))

pub join-append :
    (ps qs : List Text) (sep : ℕ)
    → ps ≢ []
    → qs ≢ []
    → join (ps ++ qs) sep ≡ join ps sep ++ sep ∷ join qs sep
unfolding join
join-append [] qs sep hp hq = absurd (hp refl)
join-append (p ∷ []) [] sep hp hq = absurd (hq refl)
join-append (p ∷ []) (q ∷ qs) sep hp hq = refl
join-append (p ∷ r ∷ ps) qs sep hp hq =
    ap (λ s. p ++ sep ∷ s) (join-append (r ∷ ps) qs sep (λ h. cc) hq)
    ∙ sym (append_assoc p (sep ∷ join (r ∷ ps) sep) (sep ∷ join qs sep))

-- Two labels or more make a text with a separator.
join-ne-nil : (ps : List Text) (sep : ℕ) → 2 ≤ length ps → join ps sep ≢ []
unfolding join
join-ne-nil [] sep h = absurd (omega (arith, h))
join-ne-nil (p ∷ []) sep h = absurd (omega (arith, h))
join-ne-nil ([] ∷ q ∷ ps) sep h = λ e. cc
join-ne-nil ((c ∷ p) ∷ q ∷ ps) sep h = λ e. cc

-- The last labels of a name, two at least, make an origin that the name lies under.
pub join-append-IsUnder :
    (ps qs : List Text) → 2 ≤ length qs → IsUnder (join qs dot) (join (ps ++ qs) dot)
unfolding IsUnder join
join-append-IsUnder [] qs h = inl refl
join-append-IsUnder (p ∷ ps) qs h = inr (
  join (p ∷ ps) dot,
  join-append (p ∷ ps) qs dot (λ e. cc) (λ e. absurd (omega (arith, h, ap (length {A = Text}) e))),
  join-ne-nil qs dot h,
)

pub join-drop-IsUnder :
    (name : Text) (n : ℕ)
    → 2 ≤ length (drop n (split name dot))
    → IsUnder (join (drop n (split name dot)) dot) name
join-drop-IsUnder name n h =
    let labels = split name dot in
    rw (ap (λ l. join l dot) (take-append-drop n labels) ∙ join-split name dot) at
      (join-append-IsUnder (take n labels) (drop n labels) h)
