-- ===== src/Device/Rendered.antt =====
-- What Format and BMCName of internal/nameformat/formatter.go give.
use coredns_netbox.Base.{
  ℕ, ◌+◌, ◌≡◌, refl, sym, ap, ◌≢◌, inl, inr, true, Option, none, some, List, [], ◌∷◌, ◌++◌, arith,
  Bool-cases, Option-cases, ◌==◌, nat_eq, length, All,
}
use coredns_netbox.Base.Text.{Text, codes, text_eq, to_lower, dot}
use coredns_netbox.Base.Dict.{Dict, insert}
use coredns_netbox.Device.{
  Names, Parser, Template, Formatter, is_rendered_name, match_vars, render, render_aliases, format,
  match_from, match_index, bmc_name,
}

to_lower_twice : (s : Text) → to_lower (to_lower s) ≡ to_lower s
unfolding to_lower
to_lower_twice [] = refl
to_lower_twice (c ∷ s) = ground (arith, to_lower_twice s)

-- A name as the zone files may have it: in lower case and of valid labels.
abbrev pub IsPublishable : Text → Type 0
IsPublishable s = (to_lower s ≡ s) × (is_rendered_name s ≡ true)

render-IsPublishable :
    (t : Template) (vars : Dict Text Text) (s : Text) → render t vars ≡ some s → IsPublishable s
unfolding render
render-IsPublishable t vars s h = elim (Option-cases (t vars)) [
  | inl e ↦ absurd (ground (arith, e, h))
  | inr (r, e) ↦ elim (Bool-cases (is_rendered_name (to_lower r))) [
    | inr e2 ↦ absurd (ground (arith, e, e2, h))
    | inl e2 ↦
        let same : to_lower r ≡ s = ground (arith, e, e2, h) in rw (sym same) (to_lower_twice r, e2)
  ]
]

render_aliases-All :
    (canonical : Text) (ts : List Template) (vars : Dict Text Text)
    → All (λ a. IsPublishable a × (a ≢ canonical)) (render_aliases canonical ts vars)
unfolding render_aliases
render_aliases-All canonical [] vars = tt
render_aliases-All canonical (t ∷ ts) vars =
    let rest = render_aliases-All canonical ts vars in
    elim (Option-cases (render t vars)) [
      | inl e ↦ rw (e, render_aliases) rest
      | inr (a, e) ↦ elim (Bool-cases (a == canonical)) [
        | inl e2 ↦ rw (e, e2, render_aliases) rest
        | inr e2 ↦
            rw (e, e2, render_aliases)
              ((render-IsPublishable t vars a e, λ same. ground (arith, e2, same)), rest)
      ]
    ]

-- What `Format` returns is in lower case and made of valid labels, the canonical name and every
-- alias, and no alias is the canonical name, whatever the parsers and the templates do.
pub format-IsPublishable :
    (f : Option Formatter) (device : Text) (n : Names)
    → format f device ≡ some n
    → IsPublishable n.canonical × All (λ a. IsPublishable a × (a ≢ n.canonical)) n.aliases
unfolding format
format-IsPublishable none device n h = absurd (ground (arith, h))
format-IsPublishable (some f) device n h =
    elim (Option-cases (match_vars f.parsers f.groups (to_lower device))) [
      | inl e ↦ absurd (ground (arith, e, h))
      | inr (found, e) ↦
          let vars =
            insert (codes "domain") f.domain (insert (codes "name") (to_lower device) found) in
          elim (Option-cases (render f.canonical vars)) [
            | inl e2 ↦ absurd (ground (arith, e, e2, h))
            | inr (c, e2) ↦
                let same : record { canonical = c; aliases = render_aliases c f.aliases vars } ≡ n =
                  ground (arith, e, e2, h) in
                rw (sym same)
                  (render-IsPublishable f.canonical vars c e2, render_aliases-All c f.aliases vars)
          ]
    ]

match_from-some :
    (parsers : List Parser) (groups : List Text) (name : Text) (i : ℕ)
    → match_from parsers name i ≡ none
    → match_vars parsers groups name ≡ none
unfolding match_from match_vars
match_from-some [] groups name i h = refl
match_from-some (p ∷ parsers) groups name i h = elim (Option-cases (p name)) [
  | inl e ↦ ground (arith, e, h, match_from-some parsers groups name (i + 1))
  | inr (v, e) ↦ absurd (ground (arith, e, h))
]

-- A device that `MatchIndex` finds no parser for keeps its legacy name.
pub match_index-format :
    (f : Option Formatter) (device : Text) → match_index f device ≡ none → format f device ≡ none
unfolding format match_index
match_index-format none device h = refl
match_index-format (some f) device h =
    let none_ = match_from-some f.parsers f.groups (to_lower device) 0 h in rw (none_, format) refl

length-bmc_name : (a : Text) → length (bmc_name a) ≡ length a + 4
unfolding bmc_name
length-bmc_name [] = refl
length-bmc_name (c ∷ s) = ground (arith, length-bmc_name s)

-- The BMC form does not begin with a dot, and a first byte other than the dash is the name's own.
bmc_name_first : (t x : Text) → bmc_name t ≢ dot ∷ x
unfolding bmc_name
bmc_name_first [] x h = ground (arith, h)
bmc_name_first (c ∷ t) x h = ground (arith, h)

bmc_name_own : (t x : Text) (c : ℕ) → c ≢ b'-' → bmc_name t ≡ c ∷ x → (u : Text) × (bmc_name u ≡ x)
unfolding bmc_name
bmc_name_own [] x c ne h = absurd (ground (arith, ne, h))
bmc_name_own (d ∷ t) x c ne h = (t, ground (arith, ne, h))

bmc_name_no_tail : (t x : Text) → bmc_name t ≢ codes "bmc" ++ dot ∷ x
bmc_name_no_tail t x h =
    let (u, e) = bmc_name_own t (codes "mc" ++ dot ∷ x) b'b' (λ n. ground (arith, n)) h in
    let (v, e2) = bmc_name_own u (codes "c" ++ dot ∷ x) b'm' (λ n. ground (arith, n)) e in
    let (w, e3) = bmc_name_own v (dot ∷ x) b'c' (λ n. ground (arith, n)) e2 in bmc_name_first w x e3

-- Different names have different BMC names.
pub bmc_name_inj : (a b : Text) → bmc_name a ≡ bmc_name b → a ≡ b
unfolding bmc_name
bmc_name_inj [] [] h = refl
bmc_name_inj [] (d ∷ b) h = absurd (omega (arith, ap (length {A = ℕ}) h, length-bmc_name (d ∷ b)))
bmc_name_inj (c ∷ a) [] h = absurd (omega (arith, ap (length {A = ℕ}) h, length-bmc_name (c ∷ a)))
bmc_name_inj (c ∷ a) (d ∷ b) h =
    ground (arith, h, bmc_name_inj a b, bmc_name_no_tail a b, bmc_name_no_tail b a)
