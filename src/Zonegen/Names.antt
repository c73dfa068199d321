-- ===== src/Zonegen/Names.antt =====
-- Which names internal/zonegen/generator.go writes into a zone file: `safeZoneName` and
-- `dropUnsafeNames`. The regular expression is read off as a test on labels.
pub mod Safe
use coredns_netbox.Base.{
  ℕ, suc, ◌+◌, ◌-◌, Bool, true, false, not, ◌&&◌, ◌||◌, List, [], ◌∷◌, ◌++◌, arith, if◌then◌else◌,
  ltb, leb, ◌==◌, nat_eq, length, take, all,
}
use coredns_netbox.Base.Text.{Text, text_eq, trim_suffix, split, dot}
use coredns_netbox.Record.{IpRecord, is_cname}

abbrev pub is_word : ℕ → Bool
is_word c =
    leb b'a' c && leb c b'z' || leb b'A' c && leb c b'Z' || leb b'0' c && leb c b'9' || c == b'_'

-- `[word]([word-]*[word])?`, from the second byte on: the last byte is a word byte.
unfoldable pub label_tail : Text → Bool
label_tail [] = true
label_tail (c ∷ []) = is_word c
label_tail (c ∷ d ∷ s) = (is_word c || c == b'-') && label_tail (d ∷ s)

unfoldable pub is_label : Text → Bool
unfolding label_tail
is_label [] = false
is_label (c ∷ s) = is_word c && label_tail s

-- `safeZoneNameRE.MatchString(name)`
unfoldable pub matches_safe_name : Text → Bool
unfolding is_label
matches_safe_name name = all is_label (split (trim_suffix name (dot ∷ [])) dot)

unfoldable pub safe_zone_name : Text → Bool
unfolding matches_safe_name
safe_zone_name name =
    if name == [] || ltb 253 (length name)
    then false
    else if not (matches_safe_name name)
    then false
    else all (λ label. leb (length label) 63) (split (trim_suffix name (dot ∷ [])) dot)

-- The test of the loop of `dropUnsafeNames`.
abbrev pub is_bad : IpRecord → Bool
is_bad r = not (safe_zone_name r.dns_name) || is_cname r && not (safe_zone_name r.cname_target)

-- The loop from index `i` on: `kept` is all of `records` until the first bad one is met.
unfoldable pub drop_loop : List IpRecord → ℕ → List IpRecord → List IpRecord → Bool → List IpRecord
drop_loop records i [] kept copied = kept
drop_loop records i (r ∷ rest) kept copied =
    drop_loop records (suc i) rest
      (if is_bad r
        then (if copied then kept else take i records)
        else if copied
        then kept ++ r ∷ []
        else kept)
      (if is_bad r then true else copied)

unfoldable pub drop_unsafe_names : List IpRecord → List IpRecord
unfolding drop_loop
drop_unsafe_names records = drop_loop records 0 records records false
