-- ===== src/Store/Upsert.antt =====
-- The indexed merge of `upsert` against writing each record in place by its name.
use coredns_netbox.Base.{
  ℕ, zero, suc, ◌+◌, ◌≤◌, ◌≡◌, refl, sym, ◌∙◌, Option, none, some, List, [], ◌∷◌, ◌++◌, arith,
  if◌then◌else◌, ◌==◌, nat_eq, length, set,
}
use coredns_netbox.Base.Text.{Text, text_eq}
use coredns_netbox.Base.Dict.{Dict, lookup, insert, lookup-insert}
use coredns_netbox.Record.{IpRecord}
use coredns_netbox.Store.{index_names, write_record, note_name, merge_records}

-- The record of a name.
abbrev pub find_name : Text → List IpRecord → Option IpRecord
find_name n [] = none
find_name n (r ∷ rs) = if n == r.dns_name then some r else find_name n rs

-- No name stands twice.
abbrev pub NodupNames : List IpRecord → Type 0
NodupNames [] = Unit
NodupNames (r ∷ rs) = (find_name r.dns_name rs ≡ none) × NodupNames rs

-- The record of the same name is replaced where it stands; a new name goes to the end.
unfoldable pub put_record : IpRecord → List IpRecord → List IpRecord
put_record r [] = r ∷ []
put_record r (s ∷ rs) = if r.dns_name == s.dns_name then r ∷ rs else s ∷ put_record r rs

unfoldable pub put_records : List IpRecord → List IpRecord → List IpRecord
put_records [] rs = rs
put_records (r ∷ new) rs = put_records new (put_record r rs)

pub find_name-put_record :
    (n : Text) (r : IpRecord) (rs : List IpRecord)
    → find_name n (put_record r rs) ≡ (if n == r.dns_name then some r else find_name n rs)
unfolding put_record
find_name-put_record n r [] = refl
find_name-put_record n r (s ∷ rs) = ground (arith, find_name-put_record n r rs)

pub put_record-NodupNames :
    (r : IpRecord) (rs : List IpRecord) → NodupNames rs → NodupNames (put_record r rs)
unfolding put_record
put_record-NodupNames r [] h = (refl, tt)
put_record-NodupNames r (s ∷ rs) (fresh, h) =
    ground (arith, put_record-NodupNames r rs h, find_name-put_record s.dns_name r rs)

-- Where a name stands, counted from `i`.
position : ℕ → Text → List IpRecord → Option ℕ
position i n [] = none
position i n (r ∷ rs) = if n == r.dns_name then some i else position (suc i) n rs

position-none :
    (i : ℕ) (n : Text) (rs : List IpRecord) → find_name n rs ≡ none → position i n rs ≡ none
unfolding position
position-none i n [] h = refl
position-none i n (r ∷ rs) h = ground (arith, position-none (suc i) n rs)

abbrev pub or_else : Option ℕ → Option ℕ → Option ℕ
or_else (some a) o = some a
or_else none o = o

lookup-index_names :
    (i : ℕ) (n : Text) (rs : List IpRecord) (idx : Dict Text ℕ)
    → NodupNames rs
    → lookup n (index_names i rs idx) ≡ or_else (position i n rs) (lookup n idx)
unfolding index_names position
lookup-index_names i n [] idx h = refl
lookup-index_names i n (r ∷ rs) idx (fresh, h) = ground (
  arith,
  lookup-index_names (suc i) n rs (insert r.dns_name i idx) h,
  lookup-insert n r.dns_name i idx,
  position-none (suc i) n rs,
)

position-ge : (i j : ℕ) (n : Text) (rs : List IpRecord) → position i n rs ≡ some j → i ≤ j
unfolding position
position-ge i j n [] h = cc
position-ge i j n (r ∷ rs) h = ground (arith, position-ge (suc i) j n rs)

position_found :
    (i : ℕ) (n : Text) (rs : List IpRecord) → position i n rs ≡ none → find_name n rs ≡ none
unfolding position
position_found i n [] h = refl
position_found i n (r ∷ rs) h = ground (arith, position_found (suc i) n rs)

put_record_absent :
    (r : IpRecord) (rs : List IpRecord)
    → find_name r.dns_name rs ≡ none
    → put_record r rs ≡ rs ++ r ∷ []
unfolding put_record
put_record_absent r [] h = refl
put_record_absent r (s ∷ rs) h = ground (arith, put_record_absent r rs)

position-append :
    (i : ℕ) (m : Text) (r : IpRecord) (rs : List IpRecord)
    → position i m (rs ++ r ∷ [])
      ≡ or_else (position i m rs) (if m == r.dns_name then some (i + length rs) else none)
unfolding position
position-append i m r [] = ground arith
position-append i m r (s ∷ rs) = ground (arith, position-append (suc i) m r rs)

position-put_record :
    (i j : ℕ) (m : Text) (r : IpRecord) (rs : List IpRecord)
    → position i r.dns_name rs ≡ some j
    → position i m (put_record r rs) ≡ position i m rs
unfolding position put_record
position-put_record i j m r [] h = cc
position-put_record i j m r (s ∷ rs) h = ground (arith, position-put_record (suc i) j m r rs)

set-eq-put_record :
    (i k : ℕ) (r : IpRecord) (rs : List IpRecord)
    → position i r.dns_name rs ≡ some (i + k)
    → set rs k r ≡ put_record r rs
unfolding position put_record
set-eq-put_record i k r [] h = cc
set-eq-put_record i zero r (s ∷ rs) h = ground (arith, position-ge (suc i) (i + 0) r.dns_name rs)
set-eq-put_record i (suc k) r (s ∷ rs) h = ground (arith, set-eq-put_record (suc i) k r rs)

-- `idx` holds the place of every name.
abbrev IsIndex : Dict Text ℕ → List IpRecord → Type 0
IsIndex idx es = (n : Text) → lookup n idx ≡ position 0 n es

write_record_lem :
    (o : Option ℕ) (r : IpRecord) (es : List IpRecord)
    → o ≡ position 0 r.dns_name es
    → write_record o r es ≡ put_record r es
unfolding write_record
write_record_lem none r es h = sym (put_record_absent r es (position_found 0 r.dns_name es (sym h)))
write_record_lem (some k) r es h = set-eq-put_record 0 k r es (ground arith)

note_name-IsIndex :
    (o : Option ℕ) (r : IpRecord) (es : List IpRecord) (idx : Dict Text ℕ)
    → o ≡ position 0 r.dns_name es
    → IsIndex idx es
    → IsIndex (note_name o r.dns_name (length es) idx) (put_record r es)
unfolding note_name
note_name-IsIndex none r es idx h g n =
    rw (put_record_absent r es (position_found 0 r.dns_name es (sym h)))
      (ground (arith, position-append 0 n r es, lookup-insert n r.dns_name (length es) idx, g n))
note_name-IsIndex (some k) r es idx h g n = ground (arith, position-put_record 0 k n r es, g n)

merge_records_lem :
    (rs es : List IpRecord) (idx : Dict Text ℕ)
    → IsIndex idx es
    → merge_records rs es idx ≡ put_records rs es
unfolding merge_records put_records
merge_records_lem [] es idx h = refl
merge_records_lem (r ∷ rs) es idx h =
    rw (write_record_lem (lookup r.dns_name idx) r es (h r.dns_name)) (
      merge_records_lem rs (put_record r es) _
        (note_name-IsIndex (lookup r.dns_name idx) r es idx (h r.dns_name) h))

or_else-none : (o : Option ℕ) → or_else o none ≡ o
or_else-none none = refl
or_else-none (some a) = refl

-- The merge through the index writes each record in turn at its name.
pub merge_records-eq-put_records :
    (rs es : List IpRecord)
    → NodupNames es
    → merge_records rs es (index_names 0 es []) ≡ put_records rs es
merge_records-eq-put_records rs es h =
    merge_records_lem rs es (index_names 0 es [])
      (λ n. lookup-index_names 0 n es [] h ∙ or_else-none (position 0 n es))
