-- ===== src/Store/Names.antt =====
-- The loops of internal/dynamicstore/file_store.go that keep some records, seen from one name.
use coredns_netbox.Base.{
  ◌≡◌, refl, Bool, not, Option, none, some, List, [], ◌∷◌, arith, if◌then◌else◌, nat_eq, keep,
  contains,
}
use coredns_netbox.Base.Text.{Text, text_eq}
use coredns_netbox.Record.{IpRecord}
use coredns_netbox.Store.Upsert.{find_name, NodupNames}

-- `keep` by a test on records, read name by name.
pub find_name-keep-none :
    (n : Text) (p : IpRecord → Bool) (es : List IpRecord)
    → find_name n es ≡ none
    → find_name n (keep p es) ≡ none
find_name-keep-none n p [] h = refl
find_name-keep-none n p (r ∷ es) h = ground (arith, find_name-keep-none n p es)

unfoldable pub filter_option : (IpRecord → Bool) → Option IpRecord → Option IpRecord
filter_option p none = none
filter_option p (some r) = if p r then some r else none

pub find_name-keep :
    (n : Text) (p : IpRecord → Bool) (es : List IpRecord)
    → NodupNames es
    → find_name n (keep p es) ≡ filter_option p (find_name n es)
unfolding filter_option
find_name-keep n p [] h = refl
find_name-keep n p (r ∷ es) (fresh, h) =
    ground (arith, find_name-keep n p es h, find_name-keep-none r.dns_name p es fresh)

pub keep-NodupNames :
    (p : IpRecord → Bool) (es : List IpRecord) → NodupNames es → NodupNames (keep p es)
keep-NodupNames p [] h = tt
keep-NodupNames p (r ∷ es) (fresh, h) =
    ground (arith, keep-NodupNames p es h, find_name-keep-none r.dns_name p es fresh)

pub filter_named :
    (n : Text) (ns : List Text) (es : List IpRecord)
    → filter_option (λ r. not (contains ns r.dns_name)) (find_name n es)
      ≡ (if contains ns n then none else find_name n es)
unfolding filter_option
filter_named n ns [] = ground arith
filter_named n ns (r ∷ es) = ground (arith, filter_named n ns es)
