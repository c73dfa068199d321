-- ===== src/Config/Statuses.antt =====
-- ParsePublishStatuses of internal/config/config.go, with SetPublishStatuses of the NetBox client.
use coredns_netbox.Base.{
  ◌≡◌, ◌≢◌, sym, ◌⊎◌, inl, inr, refl, Bool, true, false, ◌||◌, Option, none, some, List, [], ◌∷◌,
  ◌++◌, arith, if◌then◌else◌, ◌==◌, nat_eq, Bool-cases, Option-cases, contains,
}
use coredns_netbox.Base.Text.{Text, codes, text_eq, split}
use coredns_netbox.Client.{Client, set_publish_statuses}
use coredns_netbox.Config.{
  trim_space, comma, valid_publish_statuses, status_of, collect_statuses, unless_empty,
  parse_publish_statuses,
}

abbrev pub EachOnce : List Text → Type 0
EachOnce [] = Unit
EachOnce (x ∷ l) = (contains l x ≡ false) × EachOnce l

contains-append : (x : Text) (k l : List Text) → contains (k ++ l) x ≡ contains k x || contains l x
contains-append x [] l = refl
contains-append x (y ∷ k) l = ground (arith, contains-append x k l)

append-EachOnce :
    (l : List Text) (x : Text) → EachOnce l → contains l x ≡ false → EachOnce (l ++ x ∷ [])
append-EachOnce [] x _ h = (refl, tt)
append-EachOnce (y ∷ l) x (fresh, u) h = (
  ground (arith, contains-append y l (x ∷ []), fresh, h),
  append-EachOnce l x u (ground (arith, h)),
)

-- The statuses that a list of parts names.
abbrev pub named_by : List Text → Text → Bool
named_by [] x = false
named_by (p ∷ parts) x =
    let rest = named_by parts x in if status_of p == [] then rest else x == status_of p || rest

record Collected (parts out l : List Text) : Type 0 where
  each_once : EachOnce l
  valid : (x : Text) → contains l x ≡ true → contains valid_publish_statuses x ≡ true
  named : (x : Text) → contains l x ≡ contains out x || named_by parts x

collect_statuses-Collected :
    (parts out l : List Text)
    → EachOnce out
    → ((x : Text) → contains out x ≡ true → contains valid_publish_statuses x ≡ true)
    → collect_statuses parts out ≡ some l
    → Collected parts out l
unfolding collect_statuses
collect_statuses-Collected [] out l u v h = record {
  each_once = ground (arith, u, h);
  valid = λ x. ground (arith, v x, h);
  named = λ x. ground (arith, h);
}
collect_statuses-Collected (p ∷ parts) out l u v h = elim (Bool-cases (status_of p == [])) [
  | inl blank ↦
      let rest = collect_statuses-Collected parts out l u v (rw (blank, collect_statuses) at h) in
      record {
        each_once = rest.each_once;
        valid = rest.valid;
        named = λ x. ground (arith, rest.named x, blank);
      }
  | inr text ↦ elim (Bool-cases (contains valid_publish_statuses (status_of p))) [
    | inr bad ↦ absurd (ground (arith, rw (text, bad, collect_statuses) at h))
    | inl good ↦ elim (Bool-cases (contains out (status_of p))) [
      | inl seen ↦
          let rest =
            collect_statuses-Collected parts out l u v
              (rw (text, good, seen, collect_statuses) at h) in
          record {
            each_once = rest.each_once;
            valid = rest.valid;
            named = λ x. ground (arith, rest.named x, text, seen);
          }
      | inr new ↦
          let both = λ (x : Text). contains-append x out (status_of p ∷ []) in
          let rest =
            collect_statuses-Collected parts (out ++ status_of p ∷ []) l
              (append-EachOnce out (status_of p) u new) (λ x. ground (arith, v x, both x, good))
              (rw (text, good, new, collect_statuses) at h) in
          record {
            each_once = rest.each_once;
            valid = rest.valid;
            named = λ x. ground (arith, rest.named x, both x, text);
          }
    ]
  ]
]

-- The statuses that the operator names: those of the value, or "active" where it is blank.
unfoldable pub is_named : Text → Text → Bool
is_named s x = if trim_space s == [] then x == codes "active" else named_by (split s comma) x

-- The statuses `l` are some, each once and valid, and those that the value `s` names.
pub record Requested (s : Text) (l : List Text) : Type 0 where
  nonempty : l ≢ []
  each_once : EachOnce l
  valid : (x : Text) → contains l x ≡ true → contains valid_publish_statuses x ≡ true
  named : (x : Text) → contains l x ≡ is_named s x

unless_empty-some :
    (o : Option (List Text)) (l : List Text) → unless_empty o ≡ some l → (o ≡ some l) × (l ≢ [])
unless_empty-some none l h = absurd (ground (arith, h))
unless_empty-some (some []) l h = absurd (ground (arith, h))
unless_empty-some (some (x ∷ out)) l h = (h, λ e. ground (arith, h, e))

default-Requested : (s : Text) → trim_space s == [] ≡ true → Requested s (codes "active" ∷ [])
unfolding is_named
default-Requested s blank = record {
  nonempty = λ e. ground (arith, e);
  each_once = (refl, tt);
  valid = λ x. ground arith;
  named = λ x. ground (arith, blank);
}

parse_publish_statuses-Requested :
    (s : Text) (l : List Text) → parse_publish_statuses s ≡ some l → Requested s l
unfolding parse_publish_statuses is_named
parse_publish_statuses-Requested s l h = elim (Bool-cases (trim_space s == [])) [
  | inl blank ↦
      let active : codes "active" ∷ [] ≡ l = ground (arith, h, blank) in
      rw (sym active) (default-Requested s blank)
  | inr text ↦
      let (taken, some_) =
        unless_empty-some (collect_statuses (split s comma) []) l
          (rw (text, parse_publish_statuses) at h) in
      let rest =
        collect_statuses-Collected (split s comma) [] l tt (λ x p. ground (arith, p)) taken in
      record {
        nonempty = some_;
        each_once = rest.each_once;
        valid = rest.valid;
        named = λ x. ground (arith, rest.named x, text);
      }
]

-- A status that the parts name and that is not valid.
abbrev pub Unknown : (Text → Bool) → Type 0
Unknown named = (x : Text) × (named x ≡ true) × (contains valid_publish_statuses x ≡ false)

cons-Unknown :
    (p : Text) (parts : List Text) → Unknown (named_by parts) → Unknown (named_by (p ∷ parts))
cons-Unknown p parts (x, named, bad) = (x, ground (arith, named), bad)

collect_statuses-Unknown :
    (parts out : List Text) → collect_statuses parts out ≡ none → Unknown (named_by parts)
unfolding collect_statuses
collect_statuses-Unknown [] out h = absurd (ground (arith, h))
collect_statuses-Unknown (p ∷ parts) out h = elim (Bool-cases (status_of p == [])) [
  | inl blank ↦
      cons-Unknown p parts (collect_statuses-Unknown parts out (rw (blank, collect_statuses) at h))
  | inr text ↦ elim (Bool-cases (contains valid_publish_statuses (status_of p))) [
    | inr bad ↦ (status_of p, ground (arith, text), bad)
    | inl good ↦ elim (Bool-cases (contains out (status_of p))) [
      | inl seen ↦
          cons-Unknown p parts
            (collect_statuses-Unknown parts out (rw (text, good, seen, collect_statuses) at h))
      | inr new ↦ cons-Unknown p parts (
          collect_statuses-Unknown parts (out ++ status_of p ∷ [])
            (rw (text, good, new, collect_statuses) at h))
    ]
  ]
]

-- What is to be said of each outcome, for the client `c`.
unfoldable pub Judged : Text → Client → Option (List Text) → Type 0
Judged s c (some l) = Requested s (set_publish_statuses l c).publish_statuses
Judged s c none = Unknown (is_named s) ⊎ ((x : Text) → is_named s x ≡ false)

accepted-Judged :
    (s : Text) (l : List Text) (c : Client)
    → parse_publish_statuses s ≡ some l
    → Requested s (set_publish_statuses l c).publish_statuses
unfolding set_publish_statuses
accepted-Judged s [] c h = absurd ((parse_publish_statuses-Requested s [] h).nonempty refl)
accepted-Judged s (x ∷ l) c h = parse_publish_statuses-Requested s (x ∷ l) h

unless_empty-none : (l : List Text) → unless_empty (some l) ≡ none → l ≡ []
unless_empty-none [] h = refl
unless_empty-none (x ∷ l) h = absurd (ground (arith, h))

refused :
    (s : Text)
    → parse_publish_statuses s ≡ none
    → Unknown (is_named s) ⊎ ((x : Text) → is_named s x ≡ false)
unfolding parse_publish_statuses is_named
refused s h = elim (Bool-cases (trim_space s == [])) [
  | inl blank ↦ absurd (ground (arith, h, blank))
  | inr text ↦ elim (Option-cases (collect_statuses (split s comma) [])) [
    | inl e ↦
        let (x, named, bad) = collect_statuses-Unknown (split s comma) [] e in
        inl (x, ground (arith, named, text), bad)
    | inr (l, e) ↦
        let rest =
          collect_statuses-Collected (split s comma) [] l tt (λ x p. ground (arith, p)) e in
        let empty = unless_empty-none l (rw (text, e, parse_publish_statuses) at h) in
        inr (λ x. ground (arith, rest.named x, text, empty))
  ]
]

-- `ParsePublishStatuses` accepts a value or refuses it. Where it accepts it, the client that is given
-- the result asks for some statuses, each once and valid, and those that the value names: `active`
-- where it is blank. Where it refuses it, the value names one that is not valid, or none.
pub set_publish_statuses-Judged : (s : Text) (c : Client) → Judged s c (parse_publish_statuses s)
unfolding Judged
set_publish_statuses-Judged s c = elim (Option-cases (parse_publish_statuses s)) [
  | inl e ↦ rw e (refused s e)
  | inr (l, e) ↦ rw e (accepted-Judged s l c e)
]
