-- ===== src/Manager/Lost.antt =====
-- What becomes of a zone whose file could not be written, in internal/zonemanager/manager.go.
use coredns_netbox.Base.{
  ℕ, ◌≡◌, ◌≢◌, refl, ap, ◌∙◌, inl, inr, true, false, some, List, [], ◌∷◌, arith, ◌==◌, nat_eq,
  Bool-cases, contains,
}
use coredns_netbox.Base.Text.{Text, text_eq, text_lt}
use coredns_netbox.Base.Dict.{keys, lookup, lookup_or, has_key, lookup-insert}
use coredns_netbox.Record.{IpRecord}
use coredns_netbox.Merge.{ZoneMap}
use coredns_netbox.Zonegen.Order.{sort_by}
use coredns_netbox.Zonegen.Order.Members.{contains-sort_by}
use coredns_netbox.Zonegen.Generator.{Generator, generate}
use coredns_netbox.Manager.{
  Settings, no_stats, Manager, World, generator_for, store_zone, update_zone, update_zones,
  remove_orphans, update,
}
use coredns_netbox.Manager.Turns.{
  generate_again, generator_for_same, generator_for_held, other_kept, written_fine,
}
use coredns_netbox.Manager.Loops.{
  IsHealthy, remove_orphans-KeepsZone, remove_orphans-has_key, contains-keys,
}

module _ (sha : Text → Text) (cfg : Settings) (zone : Text) where
  module _ (zones : ZoneMap) where
    abbrev records : List IpRecord
    records = lookup_or [] zone zones

    loop_stops :
        (w : World) (y : Text) (ys : List Text) (m : Manager)
        → (update_zone sha cfg w y (lookup_or [] y zones) m).failed ≡ true
        → update_zones sha cfg w zones (y ∷ ys) m ≡ update_zone sha cfg w y (lookup_or [] y zones) m
    unfolding update_zones
    loop_stops w y ys m h = ground (arith, h)

    loop_goes_on :
        (w : World) (y : Text) (ys : List Text) (m : Manager)
        → (update_zone sha cfg w y (lookup_or [] y zones) m).failed ≡ false
        → update_zones sha cfg w zones (y ∷ ys) m
          ≡ update_zones sha cfg w zones ys (update_zone sha cfg w y (lookup_or [] y zones) m)
    unfolding update_zones
    loop_goes_on w y ys m h = ground (arith, h)

    abbrev started : Manager → Manager
    started m = record m { stats = no_stats; failed = false }

    abbrev updated : World → Manager → Manager
    updated w m = update_zones sha cfg w zones (sort_by text_lt (keys zones)) (started m)

    update_stops :
        (w : World) (m : Manager)
        → (updated w m).failed ≡ true
        → update sha cfg w zones m ≡ updated w m
    unfolding update
    update_stops w m h = ground (arith, h)

    update_cleans :
        (w : World) (m : Manager)
        → (updated w m).failed ≡ false
        → update sha cfg w zones m ≡ remove_orphans w zones (updated w m)
    unfolding update
    update_cleans w m h = ground (arith, h)

    -- The zone's own turn in the first call: the write fails.
    failing_turn :
        (w : World) (m : Manager)
        → w.write_fails zone ≡ true
        → (generate sha (w.now zone) records (generator_for sha cfg zone m)).1 ≡ true
        → let m' = update_zone sha cfg w zone records m in
          (m'.failed ≡ true)
          × (lookup zone m'.files ≡ lookup zone m.files)
          × (lookup zone m'.generators
              ≡ some (generate sha (w.now zone) records (generator_for sha cfg zone m)).3)
    unfolding update_zone store_zone
    failing_turn w m fails changed =
        let g = generator_for sha cfg zone m in
        ground (
          arith,
          fails,
          changed,
          lookup-insert zone zone (generate sha (w.now zone) records g).3 m.generators,
        )

    -- Its turn in the second call: it is found unchanged.
    unchanged_turn :
        (w : World) (m : Manager) (now : ℕ) (g : Generator)
        → lookup zone m.generators ≡ some (generate sha now records g).3
        → let m' = update_zone sha cfg w zone records m in
          (m'.failed ≡ m.failed)
          × (lookup zone m'.files ≡ lookup zone m.files)
          × (lookup zone m'.generators
              ≡ some (generate sha (w.now zone) records (generate sha now records g).3).3)
    unfolding update_zone store_zone
    unchanged_turn w m now g held =
        let g' = (generate sha now records g).3 in
        ground (
          arith,
          generator_for_held sha cfg zone m g' held,
          generate_again sha now (w.now zone) records g,
          lookup-insert zone zone (generate sha (w.now zone) records g').3 m.generators,
        )

    first_loop :
        (w : World) (ys : List Text) (m : Manager)
        → w.write_fails zone ≡ true
        → ((y : Text) → y ≢ zone → w.write_fails y ≡ false)
        → (generate sha (w.now zone) records (generator_for sha cfg zone m)).1 ≡ true
        → m.failed ≡ false
        → contains ys zone ≡ true
        → let m' = update_zones sha cfg w zones ys m in
          (m'.failed ≡ true)
          × (lookup zone m'.files ≡ lookup zone m.files)
          × (lookup zone m'.generators
              ≡ some (generate sha (w.now zone) records (generator_for sha cfg zone m)).3)
    first_loop w [] m fails others changed fine listed = absurd (ground (arith, listed))
    first_loop w (y ∷ ys) m fails others changed fine listed = elim (Bool-cases (zone == y)) [
      | inl e ↦
          let same : y ≡ zone = ground (arith, e) in
          let turn = failing_turn w m fails changed in
          let stop = loop_stops w zone ys m turn.0 in
          rw (ap (λ x. update_zones sha cfg w zones (x ∷ ys) m) same ∙ stop) turn
      | inr e ↦
          let rs = lookup_or [] y zones in
          let m1 = update_zone sha cfg w y rs m in
          let (files, generators) = other_kept sha cfg zone w y rs m e in
          let go : m1.failed ≡ false =
            written_fine sha cfg zone w y rs m (others y (λ s. ground (arith, e, s))) ∙ fine in
          let same = generator_for_same sha cfg zone m m1 files generators in
          let rest =
            first_loop w ys m1 fails others (rw same changed) go (ground (arith, e, listed)) in
          rw (loop_goes_on w y ys m go) (
            rest.0,
            rest.1 ∙ files,
            rest.2 ∙ ap (λ g. some (generate sha (w.now zone) records g).3) same,
          )
    ]

    second_loop :
        (w : World) (ok : IsHealthy w) (ys : List Text) (m : Manager) (now : ℕ) (g : Generator)
        → lookup zone m.generators ≡ some (generate sha now records g).3
        → m.failed ≡ false
        → let m' = update_zones sha cfg w zones ys m in
          (m'.failed ≡ false) × (lookup zone m'.files ≡ lookup zone m.files)
    unfolding update_zones
    second_loop w ok [] m now g held fine = (fine, refl)
    second_loop w ok (y ∷ ys) m now g held fine = elim (Bool-cases (zone == y)) [
      | inl e ↦
          let same : y ≡ zone = ground (arith, e) in
          let (failed, files, generator) = unchanged_turn w m now g held in
          let m1 = update_zone sha cfg w zone records m in
          let go : m1.failed ≡ false = failed ∙ fine in
          let rest =
            second_loop w ok ys m1 (w.now zone) (generate sha now records g).3 generator go in
          let on = loop_goes_on w zone ys m go in
          rw (ap (λ x. update_zones sha cfg w zones (x ∷ ys) m) same ∙ on) (rest.0, rest.1 ∙ files)
      | inr e ↦
          let rs = lookup_or [] y zones in
          let m1 = update_zone sha cfg w y rs m in
          let (files, generators) = other_kept sha cfg zone w y rs m e in
          let go : m1.failed ≡ false = written_fine sha cfg zone w y rs m (ok.writes y) ∙ fine in
          let rest = second_loop w ok ys m1 now g (generators ∙ held) go in
          rw (loop_goes_on w y ys m go) (rest.0, rest.1 ∙ files)
    ]

    -- A zone of the map that `Generate` finds changed and whose file is the only one that cannot be
    -- written makes `Update` fail. When `Update` is called again for the same map, with nothing in
    -- between, and no file operation fails, it reports success, and the zone's file is what it was at
    -- first.
    pub failed_write_is_lost :
        (w w' : World) (m : Manager)
        → IsHealthy w'
        → has_key zone zones ≡ true
        → w.write_fails zone ≡ true
        → ((y : Text) → y ≢ zone → w.write_fails y ≡ false)
        → (generate sha (w.now zone) records (generator_for sha cfg zone m)).1 ≡ true
        → let first = update sha cfg w zones m in
          let second = update sha cfg w' zones first in
          (first.failed ≡ true)
          × (second.failed ≡ false)
          × (lookup zone second.files ≡ lookup zone m.files)
    failed_write_is_lost w w' m ok active fails others changed =
        let ys = sort_by text_lt (keys zones) in
        let listed : contains ys zone ≡ true =
          contains-sort_by text_lt zone (keys zones) ∙ contains-keys zone zones ∙ active in
        let same = generator_for_same sha cfg zone m (started m) refl refl in
        let first = first_loop w ys (started m) fails others (rw same changed) refl listed in
        let m1 = updated w m in
        let g = generator_for sha cfg zone (started m) in
        let second = second_loop w' ok ys (started m1) (w.now zone) g first.2 refl in
        let m2 = updated w' m1 in
        let kept = remove_orphans-KeepsZone w' zones zone active m2 in
        let clean = remove_orphans-has_key w' zones ok zone m2 second.0 in
        rw (update_stops w m first.0)
          (rw (update_cleans w' m1 second.0) (first.0, clean.2, kept.file ∙ second.1 ∙ first.1))
