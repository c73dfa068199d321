-- ===== src/Manager/Tests.antt =====
-- Runs of the zone manager of internal/zonemanager/manager.go.
use coredns_netbox.Base.{◌≡◌, refl, true, false, [], ◌∷◌, arith, ◌==◌, ==_refl, nat_eq}
use coredns_netbox.Base.Text.{Text, codes, text_eq}
use coredns_netbox.Base.Dict.{lookup, has_key}
use coredns_netbox.Merge.{ZoneMap}
use coredns_netbox.Zonegen.Render.{default_soa_timers}
use coredns_netbox.Zonegen.Generator.{generate}
use coredns_netbox.Manager.{Settings, Manager, World, generator_for, update, new_manager}
use coredns_netbox.Manager.Loops.{IsHealthy}
use coredns_netbox.Manager.Published.{IsBacked, update_publishes, generator_for_new}
use coredns_netbox.Zonegen.Restart.Resume.{generate_new}
use coredns_netbox.Manager.Lost.{failed_write_is_lost}
use coredns_netbox.Samples.{lab, web_by_hand, db_hooked, sample_sha, sample_sha-is_digest}

abbrev pub settings : Settings
settings = record {
  primary_ns = codes "ns1.lab.";
  primary_ns_ip = [];
  admin_email = codes "admin.lab.";
  ttl = 60;
  soa = default_soa_timers;
}

abbrev pub healthy : World
healthy = record {
  now = λ z. 1700000000;
  write_fails = λ z. false;
  remove_fails = λ z. false;
  read_dir_fails = false;
}

-- The disk is full.
abbrev full_disk : World
full_disk = record healthy { write_fails = λ z. true }

pub healthy-IsHealthy : IsHealthy healthy
healthy-IsHealthy = record { writes = λ z. refl; removes = λ z. refl; reads = refl }

abbrev old_zone : Text
old_zone = codes "old.lab."

-- A process that starts over the file of a zone that is gone.
abbrev pub over_old : Manager
over_old = new_manager ((old_zone, codes "$ORIGIN old.lab." ∷ []) ∷ [])

abbrev pub polled : ZoneMap
polled = (lab, web_by_hand ∷ db_hooked ∷ []) ∷ []

pub over_old-IsBacked : IsBacked over_old
over_old-IsBacked = record { backed = λ z. refl }

update_publishes_example :
    ((update sample_sha settings healthy polled over_old).failed ≡ false)
    × ((z : Text)
        → has_key z (update sample_sha settings healthy polled over_old).files ≡ has_key z polled)
    × ((z : Text)
        → has_key z (update sample_sha settings healthy polled over_old).generators
          ≡ has_key z polled)
update_publishes_example =
    update_publishes sample_sha settings sample_sha-is_digest healthy healthy-IsHealthy polled
      over_old over_old-IsBacked

is_new :
    (generate sample_sha 1700000000
      (web_by_hand ∷ [])
      (generator_for sample_sha settings lab over_old)).1
    ≡ true
unfolding text_eq
is_new =
    generate_new sample_sha 1700000000 (web_by_hand ∷ [])
      (generator_for sample_sha settings lab over_old) sample_sha-is_digest
      (generator_for_new sample_sha settings sample_sha-is_digest lab over_old refl refl)

abbrev two_zones : ZoneMap
two_zones = (old_zone, db_hooked ∷ []) ∷ (lab, web_by_hand ∷ []) ∷ []

-- The file of one zone cannot be written.
abbrev one_stuck : World
one_stuck = record healthy { write_fails = λ z. z == lab }

failed_write_is_lost_example :
    let first = update sample_sha settings one_stuck two_zones over_old in
    let second = update sample_sha settings healthy two_zones first in
    (first.failed ≡ true)
    × (second.failed ≡ false)
    × (lookup lab second.files ≡ lookup lab over_old.files)
unfolding text_eq
failed_write_is_lost_example =
    failed_write_is_lost sample_sha settings lab two_zones one_stuck healthy over_old
      healthy-IsHealthy refl (==_refl lab) (λ y h. ground (arith, h)) is_new
