-- ===== src/Zonegen/Generator.antt =====
-- The generator of internal/zonegen/generator.go: its fingerprints, `Generate`, and what it reads
-- back from a zone file. `sha` stands for the hexadecimal digest of crypto/sha256.
use coredns_netbox.Base.{
  ℕ, Bool, true, false, not, ◌&&◌, ◌||◌, Option, none, some, List, [], ◌∷◌, ◌++◌, map,
  if◌then◌else◌, leb, ◌==◌, nat_eq, length, keep, all,
}
use coredns_netbox.Base.Text.{Text, codes, text_eq, after_prefix, has_prefix}
use coredns_netbox.Record.{IpRecord}
use coredns_netbox.Zonegen.Serial.{next_serial}
use coredns_netbox.Zonegen.Names.{drop_unsafe_names}
use coredns_netbox.Zonegen.Collisions.{resolve_cname_collisions}
use coredns_netbox.Zonegen.Order.{sort_records}
use coredns_netbox.Zonegen.Render.{decimal, ZoneType, ZoneConfig, zone_lines}

pub record Generator : Type 0 where
  pub config : ZoneConfig
  pub last_hash : Text
  pub serial : ℕ
  pub hash_from_file : Bool

-- One line of the text that `hashRecords` digests.
unfoldable pub hash_line : IpRecord → Text
hash_line r =
    r.dns_name
    ++ codes "|"
    ++ r.address
    ++ codes "|"
    ++ decimal r.family
    ++ codes "|"
    ++ decimal r.ttl
    ++ codes "|"
    ++ r.type
    ++ codes "|"
    ++ r.cname_target

newline : ℕ
newline = 10

unfoldable pub unlines : List Text → Text
unfolding newline
unlines [] = []
unlines (l ∷ ls) = l ++ newline ∷ unlines ls

abbrev pub is_hex : ℕ → Bool
is_hex c = leb b'0' c && leb c b'9' || leb b'a' c && leb c b'f'

-- `([0-9a-f]{64})$`
unfoldable pub is_digest : Text → Bool
is_digest s = length s == 64 && all is_hex s

abbrev pub content_prefix : Text
content_prefix = codes "; content-hash: "

abbrev pub body_prefix : Text
body_prefix = codes "; body-hash: "

abbrev pub digest_if : Option Text → Option Text
digest_if none = none
digest_if (some h) = if is_digest h then some h else none

-- `FindStringSubmatch` of `contentHashRE` and `bodyHashRE`: the digest that the line records.
unfoldable pub content_hash_of : Text → Option Text
unfolding is_digest
content_hash_of line = digest_if (after_prefix line content_prefix)

unfoldable pub body_hash_of : Text → Option Text
unfolding is_digest
body_hash_of line = digest_if (after_prefix line body_prefix)

abbrev pub is_some {ℓ} : {A : Type ℓ} → Option A → Bool
is_some none = false
is_some (some _) = true

-- The lines that `hashBody` digests.
unfoldable pub body_lines : List Text → List Text
unfolding content_hash_of body_hash_of
body_lines = keep (λ line. not (is_some (content_hash_of line) || is_some (body_hash_of line)))

-- The loop of `readVerifiedContentHash`: the content hash and the body hash, "" where there is none.
unfoldable pub read_hashes : List Text → Text → Text → Text × Text
unfolding content_hash_of body_hash_of
read_hashes [] content body = (content, body)
read_hashes (line ∷ rest) content body =
    let content' : Text = elim (content_hash_of line) [ none ↦ content | some h ↦ h ] in
    let body' : Text = elim (body_hash_of line) [ none ↦ body | some h ↦ h ] in
    let more = read_hashes rest content' body' in
    if not (content' == []) && not (body' == []) then (content', body') else more

module _ (sha : Text → Text) where
  unfoldable pub hash_records : List IpRecord → Text
  unfolding hash_line unlines
  hash_records records = sha (unlines (map hash_line (sort_records records)))

  unfoldable pub fingerprint : ZoneConfig → List IpRecord → Text
  unfolding hash_records unlines
  fingerprint c records = sha (
      unlines (
        (codes "records:" ++ hash_records records)
        ∷ (codes "ns:" ++ c.primary_ns)
        ∷ (codes "nsip:" ++ c.primary_ns_ip)
        ∷ (codes "admin:" ++ c.admin_email)
        ∷ (codes "ttl:" ++ decimal c.ttl)
        ∷ (codes "soa:"
            ++ decimal c.soa.refresh
            ++ codes "/"
            ++ decimal c.soa.retry
            ++ codes "/"
            ++ decimal c.soa.expire
            ++ codes "/"
            ++ decimal c.soa.minimum)
        ∷ []))

  unfoldable pub hash_body : List Text → Text
  unfolding body_lines unlines
  hash_body lines = sha (unlines (body_lines lines))

  -- The loop of `withFingerprints`: `done` holds the lines up to here.
  unfoldable pub stamp : List Text → List Text → Text → List Text
  unfolding hash_body
  stamp done [] content_hash = done
  stamp done (line ∷ rest) content_hash =
      let more = stamp (done ++ line ∷ []) rest content_hash in
      if has_prefix line (codes "$TTL ")
      then done
        ++ line
          ∷ (content_prefix ++ content_hash)
          ∷ (body_prefix ++ hash_body (done ++ line ∷ rest))
          ∷ rest
      else more

  unfoldable pub with_fingerprints : List Text → Text → List Text
  unfolding stamp
  with_fingerprints content content_hash = stamp [] content content_hash

  -- `none` stands for "" and for a file that cannot be read.
  unfoldable pub read_verified_content_hash : List Text → Option Text
  unfolding read_hashes hash_body
  read_verified_content_hash lines =
      let (content, body) = read_hashes lines [] [] in
      if content == [] || body == []
      then none
      else if hash_body lines == body
      then some content
      else none

  -- The records that `Generate` renders and fingerprints.
  abbrev pub published : ZoneConfig → List IpRecord → List IpRecord
  published c records =
      let safe = drop_unsafe_names records in
      elim c.type [
        | ZoneType.forward ↦ resolve_cname_collisions safe c.origin
        | ZoneType.reverse ↦ safe
      ]

  -- The content, whether it changed, the number of records, and the generator after the call.
  unfoldable pub generate : ℕ → List IpRecord → Generator → List Text × Bool × ℕ × Generator
  generate now records g =
      let kept = published g.config records in
      let hash = fingerprint g.config kept in
      let serial = next_serial now g.serial in
      if hash == g.last_hash then ([], false, length kept, g) else (
        with_fingerprints (zone_lines g.config serial kept (sort_records kept)) hash,
        true,
        length kept,
        record g { serial = serial; last_hash = hash; hash_from_file = false },
      )
