-- ===== src/Store/Effects.antt =====
-- What the pure parts of internal/dynamicstore/file_store.go do to the record of each name.
use coredns_netbox.Base.{
  ℕ, ◌≡◌, refl, ap, ◌∙◌, not, ◌&&◌, Option, none, some, List, [], ◌∷◌, arith, if◌then◌else◌, ◌==◌,
  nat_eq, if_of_both, keep, contains,
}
use coredns_netbox.Base.Text.{Text, text_eq}
use coredns_netbox.Base.Dict.{
  Dict, lookup, insert, erase, lookup_or, NodupKeys, lookup-insert, lookup-erase, insert-NodupKeys,
}
use coredns_netbox.Record.{IpRecord}
use coredns_netbox.Store.{
  Zones, upsert, delete_by_names, upsert_all, is_superseded, reconcile_zones,
}
use coredns_netbox.Store.Names.{filter_option, find_name-keep, keep-NodupNames, filter_named}
use coredns_netbox.Store.Upsert.{
  find_name, NodupNames, put_record, put_records, find_name-put_record, put_record-NodupNames,
  merge_records-eq-put_records,
}

-- What a client reads: the record of name `n` in zone `z`.
abbrev pub view : Zones → Text → Text → Option IpRecord
view zones z n = find_name n (lookup_or [] z zones)

-- No zone stands twice, and no name twice in a zone.
pub record IsWellFormed (zones : Zones) : Type 0 where
  pub zones_once : NodupKeys zones
  pub names_once : (z : Text) → NodupNames (lookup_or [] z zones)

-- The last record of a batch that has the name, or what there was.
abbrev pub newest : Text → List IpRecord → Option IpRecord → Option IpRecord
newest n [] old = old
newest n (r ∷ rs) old = newest n rs (if n == r.dns_name then some r else old)

abbrev pub newest_all : Text → Text → Dict Text (List IpRecord) → Option IpRecord → Option IpRecord
newest_all z n [] old = old
newest_all z n ((zone, rs) ∷ rest) old =
    newest_all z n rest (if z == zone then newest n rs old else old)

-- The record that survives the reconciliation.
abbrev pub unless_superseded : ℕ → Option IpRecord → Option IpRecord
unless_superseded cutoff none = none
unless_superseded cutoff (some r) = if is_superseded cutoff r then none else some r

find_name-put_records :
    (n : Text) (rs es : List IpRecord)
    → find_name n (put_records rs es) ≡ newest n rs (find_name n es)
unfolding put_records
find_name-put_records n [] es = refl
find_name-put_records n (r ∷ rs) es =
    find_name-put_records n rs (put_record r es) ∙ ap (newest n rs) (find_name-put_record n r es)

put_records-NodupNames : (rs es : List IpRecord) → NodupNames es → NodupNames (put_records rs es)
unfolding put_records
put_records-NodupNames [] es h = h
put_records-NodupNames (r ∷ rs) es h =
    put_records-NodupNames rs (put_record r es) (put_record-NodupNames r es h)

module _ (zone : Text) (es : List IpRecord) (zones : Zones) where
  pub lookup_or-insert :
      (z : Text)
      → lookup_or [] z (insert zone es zones) ≡ (if z == zone then es else lookup_or [] z zones)
  lookup_or-insert z = ground (arith, lookup-insert z zone es zones)

  pub insert-IsWellFormed : NodupNames es → IsWellFormed zones → IsWellFormed (insert zone es zones)
  insert-IsWellFormed h w = record {
    zones_once = insert-NodupKeys zone es zones w.zones_once;
    names_once =
        λ z. rw (lookup_or-insert z) (if_of_both NodupNames (z == zone) h (w.names_once z));
  }

upsert-eq-insert :
    (zone : Text) (rs : List IpRecord) (zones : Zones)
    → IsWellFormed zones
    → upsert zone rs zones ≡ insert zone (put_records rs (lookup_or [] zone zones)) zones
unfolding upsert
upsert-eq-insert zone rs zones w =
    ap (λ es. insert zone es zones) (merge_records-eq-put_records rs _ (w.names_once zone))

pub upsert-IsWellFormed :
    (zone : Text) (rs : List IpRecord) (zones : Zones)
    → IsWellFormed zones
    → IsWellFormed (upsert zone rs zones)
upsert-IsWellFormed zone rs zones w =
    rw (upsert-eq-insert zone rs zones w)
      (insert-IsWellFormed zone _ zones (put_records-NodupNames rs _ (w.names_once zone)) w)

pub view-upsert :
    (zone : Text) (rs : List IpRecord) (zones : Zones) (z n : Text)
    → IsWellFormed zones
    → view (upsert zone rs zones) z n
      ≡ (if z == zone then newest n rs (view zones z n) else view zones z n)
view-upsert zone rs zones z n w =
    rw (upsert-eq-insert zone rs zones w, lookup_or-insert zone _ zones z)
      (ground (arith, find_name-put_records n rs (lookup_or [] zone zones)))

pub delete_by_names-IsWellFormed :
    (zone : Text) (ns : List Text) (zones : Zones)
    → IsWellFormed zones
    → IsWellFormed (delete_by_names zone ns zones)
unfolding delete_by_names
delete_by_names-IsWellFormed zone ns zones w =
    insert-IsWellFormed zone _ zones (keep-NodupNames _ _ (w.names_once zone)) w

pub view-delete_by_names :
    (zone : Text) (ns : List Text) (zones : Zones) (z n : Text)
    → IsWellFormed zones
    → view (delete_by_names zone ns zones) z n
      ≡ (if z == zone && contains ns n then none else view zones z n)
unfolding delete_by_names
view-delete_by_names zone ns zones z n w = rw (lookup_or-insert zone _ zones z) (
    ground (
      arith,
      find_name-keep n (λ r. not (contains ns r.dns_name)) (lookup_or [] zone zones)
          (w.names_once zone),
      filter_named n ns (lookup_or [] zone zones),
    ))

pub upsert_all-IsWellFormed :
    (zrs : Dict Text (List IpRecord)) (zones : Zones)
    → IsWellFormed zones
    → IsWellFormed (upsert_all zrs zones)
unfolding upsert_all
upsert_all-IsWellFormed [] zones w = w
upsert_all-IsWellFormed ((zone, rs) ∷ rest) zones w =
    upsert_all-IsWellFormed rest (upsert zone rs zones) (upsert-IsWellFormed zone rs zones w)

pub view-upsert_all :
    (zrs : Dict Text (List IpRecord)) (zones : Zones) (z n : Text)
    → IsWellFormed zones
    → view (upsert_all zrs zones) z n ≡ newest_all z n zrs (view zones z n)
unfolding upsert_all
view-upsert_all [] zones z n w = refl
view-upsert_all ((zone, rs) ∷ rest) zones z n w =
    view-upsert_all rest (upsert zone rs zones) z n (upsert-IsWellFormed zone rs zones w)
    ∙ ap (newest_all z n rest) (view-upsert zone rs zones z n w)

lookup-reconcile_zones :
    (cutoff : ℕ) (zones : Zones) (z : Text)
    → lookup_or [] z (reconcile_zones cutoff zones)
      ≡ keep (λ r. not (is_superseded cutoff r)) (lookup_or [] z zones)
unfolding reconcile_zones
lookup-reconcile_zones cutoff [] z = refl
lookup-reconcile_zones cutoff ((zone, rs) ∷ rest) z =
    ground (arith, lookup-reconcile_zones cutoff rest z)

lookup-reconcile_zones-none :
    (cutoff : ℕ) (zones : Zones) (z : Text)
    → lookup z zones ≡ none
    → lookup z (reconcile_zones cutoff zones) ≡ none
unfolding reconcile_zones
lookup-reconcile_zones-none cutoff [] z h = refl
lookup-reconcile_zones-none cutoff ((zone, rs) ∷ rest) z h =
    ground (arith, lookup-reconcile_zones-none cutoff rest z)

reconcile_zones-NodupKeys :
    (cutoff : ℕ) (zones : Zones) → NodupKeys zones → NodupKeys (reconcile_zones cutoff zones)
unfolding reconcile_zones
reconcile_zones-NodupKeys cutoff [] h = tt
reconcile_zones-NodupKeys cutoff ((zone, rs) ∷ rest) (fresh, h) =
    (lookup-reconcile_zones-none cutoff rest zone fresh, reconcile_zones-NodupKeys cutoff rest h)

pub reconcile_zones-IsWellFormed :
    (cutoff : ℕ) (zones : Zones) → IsWellFormed zones → IsWellFormed (reconcile_zones cutoff zones)
reconcile_zones-IsWellFormed cutoff zones w = record {
  zones_once = reconcile_zones-NodupKeys cutoff zones w.zones_once;
  names_once =
      λ z. rw (lookup-reconcile_zones cutoff zones z) (keep-NodupNames _ _ (w.names_once z));
}

filter_superseded :
    (cutoff : ℕ) (o : Option IpRecord)
    → filter_option (λ r. not (is_superseded cutoff r)) o ≡ unless_superseded cutoff o
unfolding filter_option
filter_superseded cutoff none = refl
filter_superseded cutoff (some r) = ground arith

pub view-reconcile_zones :
    (cutoff : ℕ) (zones : Zones) (z n : Text)
    → IsWellFormed zones
    → view (reconcile_zones cutoff zones) z n ≡ unless_superseded cutoff (view zones z n)
view-reconcile_zones cutoff zones z n w =
    rw (lookup-reconcile_zones cutoff zones z)
      (find_name-keep n _ _ (w.names_once z) ∙ filter_superseded cutoff _)

lookup-erase-none :
    (k z : Text) (zones : Zones) → lookup z zones ≡ none → lookup z (erase k zones) ≡ none
lookup-erase-none k z zones h = ground (arith, lookup-erase z k zones)

erase-NodupKeys : (k : Text) (zones : Zones) → NodupKeys zones → NodupKeys (erase k zones)
erase-NodupKeys k [] h = tt
erase-NodupKeys k ((zone, rs) ∷ rest) (fresh, h) =
    ground (arith, erase-NodupKeys k rest h, lookup-erase-none k zone rest fresh)

pub lookup_or-erase :
    (k z : Text) (zones : Zones)
    → lookup_or [] z (erase k zones) ≡ (if z == k then [] else lookup_or [] z zones)
lookup_or-erase k z zones = ground (arith, lookup-erase z k zones)

pub erase-IsWellFormed :
    (k : Text) (zones : Zones) → IsWellFormed zones → IsWellFormed (erase k zones)
erase-IsWellFormed k zones w = record {
  zones_once = erase-NodupKeys k zones w.zones_once;
  names_once =
      λ z. rw (lookup_or-erase k z zones) (if_of_both NodupNames (z == k) tt (w.names_once z));
}
