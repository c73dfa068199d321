-- ===== src/Zonegen/Names/Safe.antt =====
-- What a zone file can hold after the filter of names.
use coredns_netbox.Base.{
  ℕ, suc, ◌≤◌, ◌≡◌, refl, sym, ap, ◌≢◌, ◌⊎◌, inl, inr, true, false, not, ◌||◌, List, [], ◌∷◌, ◌++◌,
  append_assoc, append-nil, arith, ◌==◌, nat_eq, length, take, keep, all, All, All-append,
  length-append,
}
use coredns_netbox.Base.Text.{Text, text_eq, trim_suffix, split, join, dot}
use coredns_netbox.Record.{IpRecord}
use mathlib.Core.Path.{subst}
use coredns_netbox.Base.Words.{before_suffix-eq-some, join-split}
use coredns_netbox.Zonegen.Names.{
  is_word, label_tail, is_label, matches_safe_name, safe_zone_name, is_bad, drop_loop,
  drop_unsafe_names,
}

-- The bytes of a safe name: no space, quote, semicolon, parenthesis or control character.
abbrev pub Plain : ℕ → Type 0
Plain c = (is_word c || c == b'-' || c == dot) ≡ true

label_tail-Plain : (s : Text) → label_tail s ≡ true → All Plain s
unfolding label_tail
label_tail-Plain [] h = tt
label_tail-Plain (c ∷ []) h = (ground arith, tt)
label_tail-Plain (c ∷ d ∷ s) h = (ground arith, label_tail-Plain (d ∷ s) (ground arith))

is_label-Plain : (s : Text) → is_label s ≡ true → All Plain s
unfolding is_label
is_label-Plain [] h = tt
is_label-Plain (c ∷ s) h = (ground arith, label_tail-Plain s (ground arith))

join-Plain : (ps : List Text) → all is_label ps ≡ true → All Plain (join ps dot)
unfolding join
join-Plain [] h = tt
join-Plain (p ∷ []) h = is_label-Plain p (ground arith)
join-Plain (p ∷ q ∷ ps) h =
    All-append Plain p (dot ∷ join (q ∷ ps) dot) (is_label-Plain p (ground arith))
      (ground arith, join-Plain (q ∷ ps) (ground arith))

labels-Plain : (s : Text) → all is_label (split s dot) ≡ true → All Plain s
labels-Plain s h = rw join-split at (join-Plain (split s dot) h)

trim_suffix-cases :
    (s suffix : Text) → (trim_suffix s suffix ≡ s) ⊎ (s ≡ trim_suffix s suffix ++ suffix)
unfolding trim_suffix
trim_suffix-cases s suffix = ground (arith, before_suffix-eq-some s suffix (trim_suffix s suffix))

trimmed-Plain : (name : Text) → matches_safe_name name ≡ true → All Plain name
unfolding matches_safe_name
trimmed-Plain name h = elim (trim_suffix-cases name (dot ∷ [])) [
  | inl e ↦ subst (All Plain) e (labels-Plain (trim_suffix name (dot ∷ [])) h)
  | inr e ↦ subst (All Plain) (sym e) (
      All-append Plain (trim_suffix name (dot ∷ [])) (dot ∷ [])
        (labels-Plain (trim_suffix name (dot ∷ [])) h) (ground arith, tt))
]

safe_matches : (name : Text) → safe_zone_name name ≡ true → matches_safe_name name ≡ true
unfolding safe_zone_name
safe_matches name h = ground arith

safe_size : (name : Text) → safe_zone_name name ≡ true → (name ≢ []) × (length name ≤ 253)
unfolding safe_zone_name
safe_size name h = (ground arith, ground arith)

-- Every byte of a safe name is a letter, a digit, an underscore, a hyphen or a dot, the name is not
-- empty and has at most 253 bytes.
pub safe_zone_name-Plain :
    (name : Text)
    → safe_zone_name name ≡ true
    → All Plain name × ((name ≢ []) × (length name ≤ 253))
safe_zone_name-Plain name h = (trimmed-Plain name (safe_matches name h), safe_size name h)

take-append : (xs ys : List IpRecord) → take (length xs) (xs ++ ys) ≡ xs
take-append [] [] = refl
take-append [] (y ∷ ys) = refl
take-append (x ∷ xs) ys = ap (◌∷◌ x) (take-append xs ys)

drop_loop_copied :
    (records : List IpRecord) (i : ℕ) (rest kept : List IpRecord)
    → drop_loop records i rest kept true ≡ kept ++ keep (λ r. not (is_bad r)) rest
unfolding drop_loop
drop_loop_copied records i [] kept = sym (append-nil kept)
drop_loop_copied records i (r ∷ rest) kept = ground (
  arith,
  drop_loop_copied records (suc i) rest kept,
  drop_loop_copied records (suc i) rest (kept ++ r ∷ []),
  append_assoc kept (r ∷ []) (keep (λ (s : IpRecord). not (is_bad s)) rest),
)

drop_loop_lem :
    (before rest : List IpRecord)
    → drop_loop (before ++ rest) (length before) rest (before ++ rest) false
      ≡ before ++ keep (λ r. not (is_bad r)) rest
unfolding drop_loop
drop_loop_lem before [] = refl
drop_loop_lem before (r ∷ rest) = ground (
  arith,
  drop_loop_copied (before ++ r ∷ rest) (suc (length before)) rest before,
  take-append before (r ∷ rest),
  drop_loop_lem (before ++ r ∷ []) rest,
  append_assoc before (r ∷ []) rest,
  append_assoc before (r ∷ []) (keep (λ (s : IpRecord). not (is_bad s)) rest),
  length-append before (r ∷ []),
)

-- The loop, which copies the slice only when it meets the first unsafe record, drops exactly the
-- records that have an unsafe name, or are CNAMEs with an unsafe target, and keeps the order.
pub drop_unsafe_names-keep :
    (records : List IpRecord) → drop_unsafe_names records ≡ keep (λ r. not (is_bad r)) records
unfolding drop_unsafe_names
drop_unsafe_names-keep records = drop_loop_lem [] records
