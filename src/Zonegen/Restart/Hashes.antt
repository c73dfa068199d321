-- ===== src/Zonegen/Restart/Hashes.antt =====
-- The fingerprints of a rendered zone are read back, and only from a file that is as it was written.
use coredns_netbox.Base.{
  ◌≡◌, refl, ap, ◌∙◌, ◌≢◌, true, none, some, List, [], ◌∷◌, ◌++◌, arith, if◌then◌else◌, ◌==◌,
  nat_eq,
}
use coredns_netbox.Base.Text.{Text, text_eq, after_prefix, has_prefix}
use coredns_netbox.Zonegen.Render.{ZoneConfig, origin_line, ttl_line}
use coredns_netbox.Zonegen.Generator.{
  unlines, is_digest, content_prefix, body_prefix, content_hash_of, body_hash_of, body_lines,
  read_hashes, hash_body, with_fingerprints, read_verified_content_hash,
}

pub is_digest-ne-nil : (h : Text) → is_digest h ≡ true → h ≢ []
unfolding is_digest
is_digest-ne-nil [] h e = ground arith
is_digest-ne-nil (c ∷ s) h e = cc

content_hash_of-comment :
    (h : Text) → is_digest h ≡ true → content_hash_of (content_prefix ++ h) ≡ some h
unfolding content_hash_of after_prefix nat_eq
content_hash_of-comment h d = ground arith

body_hash_of-comment : (h : Text) → is_digest h ≡ true → body_hash_of (body_prefix ++ h) ≡ some h
unfolding body_hash_of after_prefix nat_eq
body_hash_of-comment h d = ground arith

body_hash_of-content : (h : Text) → body_hash_of (content_prefix ++ h) ≡ none
unfolding body_hash_of after_prefix nat_eq
body_hash_of-content h = refl

content_hash_of-body : (h : Text) → content_hash_of (body_prefix ++ h) ≡ none
unfolding content_hash_of after_prefix nat_eq
content_hash_of-body h = refl

-- A line that begins with `$` records no digest.
dollar_line : (s : Text) → (content_hash_of (b'$' ∷ s) ≡ none) × (body_hash_of (b'$' ∷ s) ≡ none)
unfolding content_hash_of body_hash_of after_prefix nat_eq
dollar_line s = (refl, refl)

read_hashes_plain :
    (line : Text) (rest : List Text)
    → (content_hash_of line ≡ none) × (body_hash_of line ≡ none)
    → read_hashes (line ∷ rest) [] [] ≡ read_hashes rest [] []
unfolding read_hashes
read_hashes_plain line rest h = ground arith

read_hashes_body :
    (rest : List Text) (h b : Text)
    → is_digest h ≡ true
    → is_digest b ≡ true
    → read_hashes ((body_prefix ++ b) ∷ rest) h [] ≡ (h, b)
unfolding read_hashes
read_hashes_body rest h b d e =
    rw (content_hash_of-body b, body_hash_of-comment b e)
      (ground (arith, is_digest-ne-nil h d, is_digest-ne-nil b e))

read_hashes_content :
    (rest : List Text) (h : Text)
    → is_digest h ≡ true
    → read_hashes ((content_prefix ++ h) ∷ rest) [] [] ≡ read_hashes rest h []
unfolding read_hashes
read_hashes_content rest h d =
    rw (content_hash_of-comment h d, body_hash_of-content h) (ground arith)

read_hashes_comments :
    (rest : List Text) (h b : Text)
    → is_digest h ≡ true
    → is_digest b ≡ true
    → read_hashes ((content_prefix ++ h) ∷ (body_prefix ++ b) ∷ rest) [] [] ≡ (h, b)
read_hashes_comments rest h b d e =
    read_hashes_content ((body_prefix ++ b) ∷ rest) h d ∙ read_hashes_body rest h b d e

module _ (sha : Text → Text) where
  -- The text that `Generate` returns, with the comments in their place.
  unfoldable pub stamped : List Text → Text → ZoneConfig → List Text → List Text
  stamped plain h c rest =
      origin_line c
      ∷ ttl_line c
      ∷ (content_prefix ++ h)
      ∷ (body_prefix ++ hash_body sha plain)
      ∷ rest

  -- The comments stand behind the `$TTL` line.
  pub with_fingerprints-zone :
      (c : ZoneConfig) (rest : List Text) (h : Text)
      → with_fingerprints sha (origin_line c ∷ ttl_line c ∷ rest) h
        ≡ stamped (origin_line c ∷ ttl_line c ∷ rest) h c rest
  unfolding with_fingerprints stamped has_prefix nat_eq
  with_fingerprints-zone c rest h = refl

  -- The comments are not part of the body that is digested.
  pub body_lines-stamped :
      (c : ZoneConfig) (plain rest : List Text) (h : Text)
      → is_digest h ≡ true
      → is_digest (hash_body sha plain) ≡ true
      → body_lines (stamped plain h c rest) ≡ body_lines (origin_line c ∷ ttl_line c ∷ rest)
  unfolding body_lines stamped
  body_lines-stamped c plain rest h d e =
      ground (arith, content_hash_of-comment h d, body_hash_of-comment (hash_body sha plain) e)

  pub read_hashes-stamped :
      (c : ZoneConfig) (plain rest : List Text) (h : Text)
      → is_digest h ≡ true
      → is_digest (hash_body sha plain) ≡ true
      → read_hashes (stamped plain h c rest) [] [] ≡ (h, hash_body sha plain)
  unfolding stamped
  read_hashes-stamped c plain rest h d e =
      read_hashes_plain _ _ (dollar_line _)
      ∙ read_hashes_plain _ _ (dollar_line _)
      ∙ read_hashes_comments rest h (hash_body sha plain) d e

  -- The hypothesis on the digest: it is 64 hexadecimal digits.
  abbrev pub GivesDigests : Type 0
  GivesDigests = (t : Text) → is_digest (sha t) ≡ true

  read_verified_stamped :
      (c : ZoneConfig) (plain rest : List Text) (h : Text)
      → is_digest h ≡ true
      → is_digest (hash_body sha plain) ≡ true
      → read_verified_content_hash sha (stamped plain h c rest)
        ≡ (if hash_body sha (stamped plain h c rest) == hash_body sha plain then some h else none)
  unfolding read_verified_content_hash
  read_verified_stamped c plain rest h d e =
      rw (read_hashes-stamped c plain rest h d e)
        (ground (arith, is_digest-ne-nil h d, is_digest-ne-nil (hash_body sha plain) e))

  -- Where SHA-256 gives digests of 64 hexadecimal digits, a file that begins with the comments of a
  -- content hash `h` and of the body `plain` is trusted to have `h` if its own body has the digest of
  -- `plain`, whatever lines stand behind the comments, and is not trusted otherwise.
  pub read_verified_exact :
      (c : ZoneConfig) (plain rest : List Text) (h : Text)
      → GivesDigests
      → is_digest h ≡ true
      → read_verified_content_hash sha (stamped plain h c rest) ≡ (
          if hash_body sha (origin_line c ∷ ttl_line c ∷ rest) == hash_body sha plain
          then some h
          else none)
  read_verified_exact c plain rest h g d =
      read_verified_stamped c plain rest h d (unfold hash_body in g _)
      ∙ ap (λ b. if b == hash_body sha plain then some h else none)
          (unfold hash_body in
            ap (λ ls. sha (unlines ls)) (body_lines-stamped c plain rest h d (g _)))

  -- Where SHA-256 gives digests of 64 hexadecimal digits, a zone that was written with the content hash
  -- `h` is read back as trusted to have `h`.
  pub read_verified_written :
      (c : ZoneConfig) (rest : List Text) (h : Text)
      → GivesDigests
      → is_digest h ≡ true
      → read_verified_content_hash sha (with_fingerprints sha (origin_line c ∷ ttl_line c ∷ rest) h)
        ≡ some h
  read_verified_written c rest h g d =
      ap (read_verified_content_hash sha) (with_fingerprints-zone c rest h)
      ∙ read_verified_exact c (origin_line c ∷ ttl_line c ∷ rest) rest h g d
      ∙ (ground arith)
