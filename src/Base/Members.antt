-- ===== src/Base/Members.antt =====
-- The elements of a list.
use mathlib.Core.Path.{◌≡◌}
use mathlib.Core.Logic.{◌↔◌, ◌⊎◌, inl, inr}
use mathlib.Core.Bool.{Bool, true}
use mathlib.Core.List.{List, [], ◌∷◌, ◌++◌}
use native.Mathlib.Omega.{arith}
use coredns_netbox.Base.Tests.{Bool-cases}
use coredns_netbox.Base.Lists.{keep}

module _ {A : Type 0} where
  abbrev pub In : A → List A → Type 0
  In r [] = ⊥
  In r (x ∷ l) = (r ≡ x) ⊎ In r l

  pub In-keep : (p : A → Bool) (l : List A) (r : A) → In r (keep p l) ↔ (In r l × (p r ≡ true))
  In-keep p [] r = (λ h. absurd h, λ h. h.0)
  In-keep p (x ∷ l) r = elim (Bool-cases (p x)) [
    | inl e ↦ rw e (
      λ h. elim h [
        | inl s ↦ (inl s, rw s e)
        | inr m ↦ let (m2, k) = (In-keep p l r).0 m in (inr m2, k)
      ],
      λ (h, k). elim h [ inl s ↦ inl s | inr m ↦ inr ((In-keep p l r).1 (m, k)) ],
    )
    | inr e ↦ rw e (
      λ m. let (m2, k) = (In-keep p l r).0 m in (inr m2, k),
      λ (h, k). elim h [
        | inl s ↦ absurd (ground (arith, e, k, s))
        | inr m ↦ (In-keep p l r).1 (m, k)
      ],
    )
  ]

  pub In-append : (k l : List A) (r : A) → In r (k ++ l) ↔ (In r k ⊎ In r l)
  In-append [] l r = (λ h. inr h, λ h. elim h [ inl n ↦ absurd n | inr m ↦ m ])
  In-append (x ∷ k) l r = (
    λ h. elim h [
      | inl e ↦ inl (inl e)
      | inr m ↦ elim ((In-append k l r).0 m) [ inl a ↦ inl (inr a) | inr b ↦ inr b ]
    ],
    λ h. elim h [
      | inl a ↦ elim a [ inl e ↦ inl e | inr m ↦ inr ((In-append k l r).1 (inl m)) ]
      | inr b ↦ inr ((In-append k l r).1 (inr b))
    ],
  )
