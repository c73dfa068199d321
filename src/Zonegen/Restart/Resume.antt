-- ===== src/Zonegen/Restart/Resume.antt =====
-- A generator that starts over the file of another one goes on where that one stopped.
use coredns_netbox.Base.{
  ℕ, ◌^◌, ◌≤◌, ◌<◌, ◌≡◌, sym, ap, ◌∙◌, true, false, some, List, [], ◌∷◌, ◌++◌, arith, nat_eq,
}
use coredns_netbox.Base.Text.{Text, text_eq}
use coredns_netbox.Record.{IpRecord}
use coredns_netbox.Zonegen.Serial.{u32_mod, next_serial}
use coredns_netbox.Zonegen.Render.{
  ZoneConfig, zone_lines, origin_line, ttl_line, soa_line, soa_tail, ns_lines, record_lines,
  serial_line, ensure_trailing_dot,
}
use coredns_netbox.Zonegen.Order.{sort_records}
use coredns_netbox.Zonegen.Generator.{
  Generator, is_digest, content_prefix, body_prefix, fingerprint, hash_body, with_fingerprints,
  read_verified_content_hash, published, generate,
}
use coredns_netbox.Zonegen.Restart.{read_serial, is_zero_soa, new_generator}
use coredns_netbox.Zonegen.Restart.Serials.{scan_quiet}
use coredns_netbox.Zonegen.Restart.Hashes.{
  stamped, with_fingerprints-zone, GivesDigests, read_verified_written, is_digest-ne-nil,
}
use coredns_netbox.Zonegen.Restart.Scan.{
  content-IsQuiet, body-IsQuiet, ttl-IsQuiet, scan_soa, scan_first,
}

module _ (sha : Text → Text) where
  read_serial-stamped :
      (c : ZoneConfig) (plain : List Text) (s : ℕ) (rest : List Text) (h : Text)
      → GivesDigests sha
      → is_digest h ≡ true
      → 10 ^ 9 ≤ s
      → s < u32_mod
      → read_serial (stamped sha plain h c (soa_line c ∷ serial_line s ∷ rest)) ≡ some s
  unfolding read_serial stamped
  read_serial-stamped c plain s rest h g d lo hi =
      let soa : List Text = soa_line c ∷ serial_line s ∷ rest in
      let body : List Text = (body_prefix ++ hash_body sha plain) ∷ soa in
      let content : List Text = (content_prefix ++ h) ∷ body in
      scan_first (origin_line c) (ttl_line c ∷ content) s (
        scan_quiet (ttl_line c) content s (ttl-IsQuiet c) (
          scan_quiet (content_prefix ++ h) body s (content-IsQuiet h d) (
            scan_quiet (body_prefix ++ hash_body sha plain) soa s
              (body-IsQuiet _ (unfold hash_body in g _)) (λ b. scan_soa c s rest b lo hi))))

  -- The file that `generate` has just returned.
  abbrev pub restarted : ℕ → List IpRecord → Generator → Generator
  restarted now records g = new_generator sha g.config (some (generate sha now records g).0)

  -- The fingerprint of what `Generate` would publish.
  abbrev current_hash : List IpRecord → Generator → Text
  current_hash records g = fingerprint sha g.config (published sha g.config records)

  zone_body : ℕ → List IpRecord → Generator → List Text
  zone_body now records g =
      let kept = published sha g.config records in
      let origin = ensure_trailing_dot g.config.origin in
      soa_tail g.config
      ++ (ns_lines g.config.type g.config kept origin
          ++ record_lines g.config.type origin (sort_records kept))

  -- What `Generate` returns when it does not find the fingerprint of last time.
  generate_changed :
      (now : ℕ) (records : List IpRecord) (g : Generator)
      → (generate sha now records g).1 ≡ true
      → ((generate sha now records g).3 ≡ record g {
        serial = next_serial now g.serial;
        last_hash = current_hash records g;
        hash_from_file = false;
      })
        × ((generate sha now records g).0
            ≡ with_fingerprints sha
                (origin_line g.config
                  ∷ ttl_line g.config
                  ∷ soa_line g.config
                  ∷ serial_line (next_serial now g.serial)
                  ∷ zone_body now records g)
                (current_hash records g))
  unfolding generate zone_lines zone_body
  generate_changed now records g h = (ground arith, ground arith)

  fingerprint-is_digest :
      (c : ZoneConfig) (rs : List IpRecord)
      → GivesDigests sha
      → is_digest (fingerprint sha c rs) ≡ true
  unfolding fingerprint
  fingerprint-is_digest c rs d = d _

  -- A generator that has published nothing and has read no fingerprint finds its zone changed.
  pub generate_new :
      (now : ℕ) (rs : List IpRecord) (g : Generator)
      → GivesDigests sha
      → g.last_hash ≡ []
      → (generate sha now rs g).1 ≡ true
  unfolding generate
  generate_new now rs g d h = ground (
    arith,
    h,
    is_digest-ne-nil (current_hash rs g)
        (fingerprint-is_digest g.config (published sha g.config rs) d),
  )

  new_generator_over :
      (c : ZoneConfig) (lines : List Text) (s : ℕ) (h : Text)
      → is_zero_soa c.soa ≡ false
      → read_serial lines ≡ some s
      → read_verified_content_hash sha lines ≡ some h
      → ((new_generator sha c (some lines)).serial ≡ s)
        × ((new_generator sha c (some lines)).last_hash ≡ h)
        × ((new_generator sha c (some lines)).config ≡ c)
  unfolding new_generator
  new_generator_over c lines s h z read trusted = (ground arith, ground arith, ground arith)

  restarted_over :
      (now : ℕ) (g : Generator) (tail : List Text) (h : Text)
      → GivesDigests sha
      → is_digest h ≡ true
      → is_zero_soa g.config.soa ≡ false
      → 10 ^ 9 ≤ next_serial now g.serial
      → next_serial now g.serial < u32_mod
      → let lines =
          with_fingerprints sha
            (origin_line g.config
              ∷ ttl_line g.config
              ∷ soa_line g.config
              ∷ serial_line (next_serial now g.serial)
              ∷ tail)
            h in
        ((new_generator sha g.config (some lines)).serial ≡ next_serial now g.serial)
        × ((new_generator sha g.config (some lines)).last_hash ≡ h)
        × ((new_generator sha g.config (some lines)).config ≡ g.config)
  restarted_over now g tail h d hd z lo hi =
      new_generator_over g.config _ (next_serial now g.serial) h z
        (ap read_serial (with_fingerprints-zone sha g.config _ h)
          ∙ read_serial-stamped g.config _ (next_serial now g.serial) tail h d hd lo hi)
        (read_verified_written sha g.config _ h d hd)

  -- When `Generate` has returned a changed zone, a generator that a restarted process makes over that
  -- file has the same serial, the same fingerprint and the same configuration, where SHA-256 gives
  -- digests of 64 hexadecimal digits, the SOA timers are not all zero and the serial has ten digits and
  -- fits in 32 bits.
  pub restart_resumes :
      (now : ℕ) (records : List IpRecord) (g : Generator)
      → GivesDigests sha
      → is_zero_soa g.config.soa ≡ false
      → 10 ^ 9 ≤ next_serial now g.serial
      → next_serial now g.serial < u32_mod
      → (generate sha now records g).1 ≡ true
      → ((restarted now records g).serial ≡ (generate sha now records g).3.serial)
        × ((restarted now records g).last_hash ≡ (generate sha now records g).3.last_hash)
        × ((restarted now records g).config ≡ g.config)
  restart_resumes now records g d z lo hi changed =
      let (state, content) = generate_changed now records g changed in
      rw (state, content)
        (restarted_over now g (zone_body now records g) (current_hash records g) d
          (fingerprint-is_digest g.config (published sha g.config records) d) z lo hi)

  generate_same :
      (now : ℕ) (records : List IpRecord) (g : Generator)
      → g.last_hash ≡ current_hash records g
      → (generate sha now records g).1 ≡ false
  unfolding generate
  generate_same now records g h = ground arith

  -- Where SHA-256 gives digests of 64 hexadecimal digits, the SOA timers are not all zero and the next
  -- serial has ten digits and fits in 32 bits, a generator that a restarted process makes over a file
  -- that `Generate` has returned finds the zone unchanged, for the same records and at any time.
  pub restart_unchanged :
      (now later : ℕ) (records : List IpRecord) (g : Generator)
      → GivesDigests sha
      → is_zero_soa g.config.soa ≡ false
      → 10 ^ 9 ≤ next_serial now g.serial
      → next_serial now g.serial < u32_mod
      → (generate sha now records g).1 ≡ true
      → (generate sha later records (restarted now records g)).1 ≡ false
  restart_unchanged now later records g d z lo hi changed =
      let resumed = restart_resumes now records g d z lo hi changed in
      let (state, content) = generate_changed now records g changed in
      generate_same later records (restarted now records g) (
        resumed.1
        ∙ ap (λ (r : Generator). r.last_hash) state
        ∙ sym (ap (λ c. fingerprint sha c (published sha c records)) resumed.2))
