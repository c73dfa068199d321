-- ===== src/Plugin/Reload.antt =====
-- coredns/plugins/netboxreload: parseZoneContent, cachedZone and loadZoneDir of zones.go, fetch.go,
-- reloadZones of plugin.go and serialChangedZones of notify.go.
use coredns_netbox.Base.{
  ℕ, ◌+◌, Bool, not, ◌||◌, Option, none, some, List, [], ◌∷◌, ◌++◌, if◌then◌else◌, ◌==◌, nat_eq,
}
use coredns_netbox.Base.Text.{Text, codes, text_eq, has_prefix, trim_prefix, to_lower}
use coredns_netbox.Base.Dict.{Dict, lookup, insert, lookup_or}
use coredns_netbox.Plugin.{Rr, Zone, Dns}

abbrev pub file_prefix : Text
file_prefix = codes "db."

-- The origin of the zone that a file holds.
unfoldable pub origin_of : Dns → Text → Text
origin_of dns filename = dns.fqdn (trim_prefix filename file_prefix)

unfoldable pub add_rr : Rr → Dict Text (List Rr) → Dict Text (List Rr)
add_rr rr d = let name = to_lower rr.owner in insert name (lookup_or [] name d ++ rr ∷ []) d

unfoldable pub index_records : List Rr → Dict Text (List Rr) → Dict Text (List Rr)
index_records [] d = d
index_records (rr ∷ rrs) d = index_records rrs (add_rr rr d)

pub record CachedZone : Type 0 where
  pub validator : Text
  pub zone : Zone

-- The maps that a load builds, and the number that the next zone in memory gets.
pub record Loaded : Type 0 where
  pub zones : Dict Text Zone
  pub cache : Dict Text CachedZone
  pub next : ℕ

-- What a load comes to: an error, or the use of a zone that is nil, which stops the process.
pub data Result {ℓ} (A : Type ℓ) : Type ℓ where
  done : A → Result A
  load_failed nil_zone : Result A

infixl 5 ◌>>=◌
abbrev pub ◌>>=◌ {ℓ κ} : {A : Type ℓ} {B : Type κ} → Result A → (A → Result B) → Result B
done a >>= f = f a
load_failed >>= f = load_failed
nil_zone >>= f = nil_zone

abbrev pub or_failed {ℓ} : {A : Type ℓ} → Option A → Result A
or_failed none = load_failed
or_failed (some a) = done a

-- An entry of the directory: its modification time and size in one text, and its bytes.
pub record DirEntry : Type 0 where
  pub name : Text
  pub is_dir : Bool
  pub info : Option Text
  pub content : Option Text

-- An answer to a request for a zone file; a body that cannot be read has no bytes.
pub data FileResponse : Type 0 where
  unreachable not_modified bad_status : FileResponse
  ok : (etag : Text) (body : Option Text) → FileResponse

-- The zone server: its list of files, and what it answers with and without If-None-Match.
pub record Server : Type 0 where
  pub filenames : Option (List Text)
  pub get : Text → Option Text → FileResponse

pub data Source : Type 0 where
  directory : Option (List DirEntry) → Source
  url : Server → Source

-- `zones[c.z.origin] = c.z; cache[name] = c`
unfoldable pub keep_zone : Text → CachedZone → Loaded → Loaded
keep_zone name c l = record {
  zones = insert c.zone.origin c.zone l.zones;
  cache = insert name c l.cache;
  next = l.next;
}

-- The validator that a request carries.
abbrev pub condition : Option CachedZone → Option Text
condition none = none
condition (some c) = if c.validator == [] then none else some c.validator

module _ (dns : Dns) where
  -- The new zone is at a new address.
  unfoldable pub parse_zone_content : ℕ → Text → Text → Option Zone
  parse_zone_content pointer filename data_ =
      if has_prefix filename file_prefix
      then elim (dns.parse (origin_of dns filename) filename data_) [
        | none ↦ none
        | some rrs ↦ some (record {
          pointer = pointer;
          origin = origin_of dns filename;
          records = index_records rrs [];
        })
      ]
      else none

  -- A zone that is parsed from the bytes, stored with its validator.
  unfoldable pub store_parsed : Text → Text → Text → Loaded → Result Loaded
  store_parsed name validator data_ l = elim (parse_zone_content l.next name data_) [
    | none ↦ load_failed
    | some z ↦ done (
        keep_zone name (record { validator = validator; zone = z })
          (record l { next = l.next + 1 }))
  ]

  -- The body of the loop of `loadZoneDir`, for a zone file.
  unfoldable pub load_file : Dict Text CachedZone → DirEntry → Text → Loaded → Result Loaded
  load_file prev e validator l =
      let read = or_failed e.content >>= λ data_. store_parsed e.name validator data_ l in
      elim (lookup e.name prev) [
        | none ↦ read
        | some c ↦ if c.validator == validator then done (keep_zone e.name c l) else read
      ]

  unfoldable pub load_entry : Dict Text CachedZone → DirEntry → Loaded → Result Loaded
  load_entry prev e l =
      if e.is_dir || not (has_prefix e.name file_prefix)
      then done l
      else or_failed e.info >>= λ v. load_file prev e v l

  unfoldable pub load_entries : Dict Text CachedZone → List DirEntry → Loaded → Result Loaded
  load_entries prev [] l = done l
  load_entries prev (e ∷ es) l = load_entry prev e l >>= load_entries prev es

  -- `fetchZoneFile`, with the use of its result
  unfoldable pub fetch_zone_file : Server → Text → Option CachedZone → Loaded → Result Loaded
  fetch_zone_file server name prev l = elim (server.get name (condition prev)) [
    | unreachable ↦ load_failed
    | not_modified ↦ elim prev [ none ↦ nil_zone | some c ↦ done (keep_zone name c l) ]
    | bad_status ↦ load_failed
    | ok etag body ↦ or_failed body >>= λ data_. store_parsed name etag data_ l
  ]

  unfoldable pub fetch_one : Server → Dict Text CachedZone → Text → Loaded → Result Loaded
  fetch_one server prev name l =
      if has_prefix name file_prefix
      then fetch_zone_file server name (lookup name prev) l
      else done l

  unfoldable pub fetch_files : Server → Dict Text CachedZone → List Text → Loaded → Result Loaded
  fetch_files server prev [] l = done l
  fetch_files server prev (name ∷ names) l =
      fetch_one server prev name l >>= fetch_files server prev names

  -- The choice at the head of `reloadZones`.
  unfoldable pub load : Source → Dict Text CachedZone → ℕ → Result Loaded
  load (directory entries) prev next =
      let empty : Loaded = record { zones = []; cache = []; next = next } in
      or_failed entries >>= λ es. load_entries prev es empty
  load (url server) prev next =
      let empty : Loaded = record { zones = []; cache = []; next = next } in
      or_failed server.filenames >>= λ names. fetch_files server prev names empty
