-- ===== src/Zonegen/Tests.antt =====
-- Runs of the zone generator of internal/zonegen.
use coredns_netbox.Base.{
  ◌+◌, ◌%◌, ◌≤◌, ◌<◌, ◌≡◌, refl, ◌≢◌, ◌⊎◌, true, false, none, some, List, [], ◌∷◌, map, arith,
  nat_eq, length, All,
}
use coredns_netbox.Base.Text.{
  codes, text_eq, has_suffix, trim_suffix, after_prefix, split, to_lower,
}
use coredns_netbox.Record.{IpRecord}
use mathlib.Core.List.{Permᴰ}
use coredns_netbox.Zonegen.Serial.{
  u32_mod, max_serial_drift, next_serial, Newer, next_serial-Newer, next_serial_drift,
}
use coredns_netbox.Zonegen.Names.{safe_zone_name, drop_unsafe_names}
use coredns_netbox.Zonegen.Names.Safe.{Plain, safe_zone_name-Plain, drop_unsafe_names-keep}
use coredns_netbox.Zonegen.Collisions.{key, resolve_cname_collisions}
use coredns_netbox.Zonegen.Collisions.Aliases.{
  aliases_at, has_address, aliases_at-resolve, resolve_coherent,
}
use coredns_netbox.Zonegen.Order.{sort_records}
use coredns_netbox.Zonegen.Order.Sort.{shown, sort_records-perm}
use coredns_netbox.Zonegen.Render.{origin_line, ttl_line, ensure_trailing_dot, decimal}
use coredns_netbox.Zonegen.Generator.{
  hash_body, with_fingerprints, read_verified_content_hash, generate,
}
use coredns_netbox.Zonegen.Restart.Hashes.{stamped, read_verified_exact, read_verified_written}
use coredns_netbox.Zonegen.Restart.Resume.{
  restarted, generate_new, restart_resumes, restart_unchanged,
}
use coredns_netbox.Samples.{
  lab, web_name, db_name, host, alias, web_by_hand, db_hooked, sample_sha, sample_sha-is_digest,
  sample_config, sample_generator,
}

next_serial-Newer_example : Newer 1700000005 (next_serial 1700000000 1700000005)
next_serial-Newer_example =
    next_serial-Newer 1700000000 1700000005 (omega arith) (omega arith) (omega arith)

next_serial_drift_run :
    ((1700000000 % u32_mod + max_serial_drift < 2024010101)
      × (next_serial 1700000000 2024010101 ≡ 1700000000 % u32_mod))
    ⊎ ((2024010101 < next_serial 1700000000 2024010101)
        × ((next_serial 1700000000 2024010101 ≡ 2024010101 + 1)
            ⊎ (next_serial 1700000000 2024010101 ≡ 1700000000 % u32_mod)))
next_serial_drift_run = next_serial_drift 1700000000 2024010101 (omega arith)

safe_zone_name-Plain_run : All Plain web_name × ((web_name ≢ []) × (length web_name ≤ 253))
unfolding safe_zone_name nat_eq text_eq split trim_suffix
safe_zone_name-Plain_run = safe_zone_name-Plain web_name refl

-- Its name has a space.
abbrev unsafe_host : IpRecord
unsafe_host = host (codes "a b.lab.") (codes "10.0.0.3")

drop_unsafe_names-keep_run :
    drop_unsafe_names (web_by_hand ∷ unsafe_host ∷ db_hooked ∷ []) ≡ web_by_hand ∷ db_hooked ∷ []
unfolding safe_zone_name nat_eq text_eq split trim_suffix
drop_unsafe_names-keep_run = drop_unsafe_names-keep (web_by_hand ∷ unsafe_host ∷ db_hooked ∷ [])

-- An alias with a host at its name, and one with none.
abbrev aliased : List IpRecord
aliased =
    web_by_hand
    ∷ alias web_name db_name
    ∷ alias (codes "www.lab.") web_name
    ∷ alias (codes "WWW.lab.") web_name
    ∷ []

aliases_at-resolve_example : aliases_at (codes "www.lab") (resolve_cname_collisions aliased lab) ≡ 1
unfolding key nat_eq text_eq to_lower trim_suffix
aliases_at-resolve_example = aliases_at-resolve aliased lab (codes "www.lab")

resolve_coherent_example :
    (aliases_at (codes "web.lab") (resolve_cname_collisions aliased lab) ≤ 1)
    × ((aliases_at (codes "web.lab") (resolve_cname_collisions aliased lab) ≡ 0)
        ⊎ (has_address (codes "web.lab") (resolve_cname_collisions aliased lab) ≡ false))
resolve_coherent_example = resolve_coherent aliased lab (codes "web.lab")

sort_records-perm_example :
    map shown (sort_records (web_by_hand ∷ db_hooked ∷ []))
    ≡ map shown (sort_records (db_hooked ∷ web_by_hand ∷ []))
sort_records-perm_example = sort_records-perm (Permᴰ.swap refl refl)

-- A line that was changed behind the comments makes the file untrusted.
read_verified_exact_run :
    read_verified_content_hash sample_sha (
      stamped sample_sha
        (origin_line sample_config ∷ ttl_line sample_config ∷ codes "a" ∷ [])
        (sample_sha lab)
        sample_config
        (codes "ab" ∷ []))
    ≡ none
unfolding sample_sha nat_eq text_eq hash_body after_prefix ensure_trailing_dot has_suffix decimal
read_verified_exact_run =
    read_verified_exact sample_sha sample_config
      (origin_line sample_config ∷ ttl_line sample_config ∷ codes "a" ∷ []) (codes "ab" ∷ [])
      (sample_sha lab) sample_sha-is_digest (sample_sha-is_digest lab)

read_verified_written_run :
    read_verified_content_hash sample_sha (
      with_fingerprints sample_sha
        (origin_line sample_config ∷ ttl_line sample_config ∷ codes "a" ∷ [])
        (sample_sha lab))
    ≡ some (sample_sha lab)
read_verified_written_run =
    read_verified_written sample_sha sample_config (codes "a" ∷ []) (sample_sha lab)
      sample_sha-is_digest (sample_sha-is_digest lab)

is_changed : (generate sample_sha 1700000100 (web_by_hand ∷ []) sample_generator).1 ≡ true
is_changed =
    generate_new sample_sha 1700000100 (web_by_hand ∷ []) sample_generator sample_sha-is_digest refl

restart_resumes_example :
    ((restarted sample_sha 1700000100 (web_by_hand ∷ []) sample_generator).serial
      ≡ (generate sample_sha 1700000100 (web_by_hand ∷ []) sample_generator).3.serial)
    × ((restarted sample_sha 1700000100 (web_by_hand ∷ []) sample_generator).last_hash
        ≡ (generate sample_sha 1700000100 (web_by_hand ∷ []) sample_generator).3.last_hash)
    × ((restarted sample_sha 1700000100 (web_by_hand ∷ []) sample_generator).config ≡ sample_config)
restart_resumes_example =
    restart_resumes sample_sha 1700000100 (web_by_hand ∷ []) sample_generator sample_sha-is_digest
      (unfold nat_eq in refl) (unfold next_serial in ground arith)
      (unfold next_serial in ground arith) is_changed

restart_unchanged_example :
    (generate sample_sha 1800000000
      (web_by_hand ∷ [])
      (restarted sample_sha 1700000100 (web_by_hand ∷ []) sample_generator)).1
    ≡ false
restart_unchanged_example =
    restart_unchanged sample_sha 1700000100 1800000000 (web_by_hand ∷ []) sample_generator
      sample_sha-is_digest (unfold nat_eq in refl) (unfold next_serial in ground arith)
      (unfold next_serial in ground arith) is_changed
