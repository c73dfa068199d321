-- ===== src/Base/Text.antt =====
-- Go strings as lists of bytes, with the functions of package `strings` that the program calls.
use Prim.Native.Char.{code}
use Prim.Native.String.{String}
use Prim.Native.Nat.{ℕ, ◌+◌}
use mathlib.Core.Path.{refl}
use mathlib.Core.Bool.{Bool, true, false, ◌&&◌}
use mathlib.Core.Option.{Option, none, some}
use mathlib.Core.List.{List, [], ◌∷◌, ◌++◌, map}
use native.Mathlib.Decide.{ℕ_discrete}
use coredns_netbox.Base.Tests.{if◌then◌else◌, Eq, ◌==◌, nat_eq, ltb, leb}

abbrev pub Text : Type 0
Text = List ℕ

-- The bytes of an ASCII literal. `String` has its own `[]` and `∷`.
abbrev pub codes : String → Text
codes String.[] = []
codes (String.◌∷◌ c s) = code c ∷ codes s

text_dec : Discrete Text
text_dec [] [] = yes refl
text_dec [] (b ∷ t) = no (λ h. cc)
text_dec (a ∷ s) [] = no (λ h. cc)
text_dec (a ∷ s) (b ∷ t) = elim (ℕ_discrete a b) [
  | yes p ↦ elim (text_dec s t) [ yes q ↦ yes (cc) | no n ↦ no (λ h. n (cc)) ]
  | no n ↦ no (λ h. n (cc))
]

instance unfoldable pub text_eq : Eq Text
unfolding text_dec ℕ_discrete
text_eq = record { dec = text_dec }

-- `s < t` on strings: byte by byte.
unfoldable pub text_lt : Text → Text → Bool
text_lt s [] = false
text_lt [] (b ∷ t) = true
text_lt (a ∷ s) (b ∷ t) =
    let rest = text_lt s t in if ltb a b then true else if ltb b a then false else rest

abbrev pub push : ℕ → Option Text → Option Text
push c none = none
push c (some p) = some (c ∷ p)

-- What stands before the suffix, if the text ends with it.
unfoldable pub before_suffix : Text → Text → Option Text
before_suffix [] suffix = if [] == suffix then some [] else none
before_suffix (c ∷ s) suffix =
    let rest = before_suffix s suffix in if (c ∷ s) == suffix then some [] else push c rest

unfoldable pub has_suffix : Text → Text → Bool
unfolding before_suffix
has_suffix s suffix = elim (before_suffix s suffix) [ none ↦ false | some _ ↦ true ]

unfoldable pub trim_suffix : Text → Text → Text
unfolding before_suffix
trim_suffix s suffix = elim (before_suffix s suffix) [ none ↦ s | some p ↦ p ]

unfoldable pub after_prefix : Text → Text → Option Text
after_prefix s [] = some s
after_prefix [] (b ∷ prefix) = none
after_prefix (a ∷ s) (b ∷ prefix) =
    let rest = after_prefix s prefix in if a == b then rest else none

unfoldable pub has_prefix : Text → Text → Bool
unfolding after_prefix
has_prefix s prefix = elim (after_prefix s prefix) [ none ↦ false | some _ ↦ true ]

unfoldable pub trim_prefix : Text → Text → Text
unfolding after_prefix
trim_prefix s prefix = elim (after_prefix s prefix) [ none ↦ s | some p ↦ p ]

-- A byte at the head of the first part.
abbrev pub onto_head : ℕ → List Text → List Text
onto_head c [] = (c ∷ []) ∷ []
onto_head c (p ∷ ps) = (c ∷ p) ∷ ps

-- `strings.Split(s, sep)` at a separator of one byte.
unfoldable pub split : Text → ℕ → List Text
split [] sep = [] ∷ []
split (c ∷ s) sep = let parts = split s sep in if c == sep then [] ∷ parts else onto_head c parts

unfoldable pub join : List Text → ℕ → Text
join [] sep = []
join (p ∷ []) sep = p
join (p ∷ q ∷ ps) sep = p ++ sep ∷ join (q ∷ ps) sep

-- `strings.ToLower` on ASCII.
unfoldable pub to_lower : Text → Text
to_lower = map (λ c. if leb b'A' c && leb c b'Z' then c + 32 else c)

abbrev pub dot : ℕ
dot = b'.'
