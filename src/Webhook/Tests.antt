-- ===== src/Webhook/Tests.antt =====
-- Runs of the webhook receiver of internal/netboxwebhook.
use coredns_netbox.Base.{
  ◌≡◌, refl, ◌≢◌, inl, false, Option, none, some, [], ◌∷◌, ◌++◌, arith, if◌then◌else◌, ◌==◌, nat_eq,
}
use coredns_netbox.Base.Text.{Text, codes, text_eq}
use coredns_netbox.Record.{IpRecord}
use coredns_netbox.Record.{IpItem, ip_item_to_record, strip_cidr}
use coredns_netbox.Merge.{Discoverer}
use coredns_netbox.Store
use coredns_netbox.Store.{Fault, get_records}
use coredns_netbox.Webhook
use coredns_netbox.Webhook.{
  Payload, Handler, Shared, Faults, ApplyOutcome, is_manually_pinned, admits, delete_name, zone_for,
  renamed_from, is_published, apply, respond, write_published, serve_http, verify_signature,
  record_from_payload, status_of, pinned_in,
}
use coredns_netbox.Webhook.Settled.{seen, IsSound}
use coredns_netbox.Webhook.Events.{apply_keeps_manual}
use coredns_netbox.Webhook.Promise.{apply-settles}
use coredns_netbox.Webhook.Redelivery.{SameOrNone, apply_twice}
use coredns_netbox.Webhook.Signals.{
  unsigned_changes_nothing, change_is_signalled, rename_without_signal,
}
use coredns_netbox.Samples.{lab, web_name, db_name, hooked, web_by_hand, sample_store}

abbrev one_zone : Discoverer
one_zone rs = some ((lab, rs) ∷ [])

-- The JSON of the tests is the name itself.
abbrev named_item : Text → Option IpItem
named_item name =
    some
      record { address = codes "10.0.0.9/24"; dns_name = name; vrf = none; assigned_object = none }

abbrev no_status : Text → Option Text
no_status t = none

abbrev receiver : Handler
receiver = record { secret = codes "s"; published = codes "active" ∷ [] }

abbrev shared : Shared
shared = record { store = sample_store; merge_signal = false; poll_signal = false }

abbrev all_well : Faults
all_well n = none

shared-IsSound : IsSound shared
unfolding text_eq
shared-IsSound = record { zones_once = (refl, tt); names_once = λ z. ground arith }

abbrev event : Text → Text → Option Text → Payload
event kind name pre = record {
  event = kind;
  timestamp = 9;
  object_type = codes "ipam.ipaddress";
  raw_data = name;
  pre_change = pre;
}

abbrev deletes_web : Payload
deletes_web = event (codes "deleted") [] (some web_name)

abbrev updates_db : Payload
updates_db = event (codes "updated") db_name (some db_name)

abbrev ntp_name : Text
ntp_name = codes "ntp.lab."

abbrev renames_db : Payload
renames_db = event (codes "updated") ntp_name (some db_name)

abbrev new_record : Text → IpRecord
new_record name = hooked name (codes "10.0.0.9") 9

apply_keeps_manual_example :
    seen
      (apply one_zone named_item no_status no_status receiver all_well deletes_web shared).0
      lab
      web_name
    ≡ some web_by_hand
unfolding text_eq
apply_keeps_manual_example =
    apply_keeps_manual one_zone all_well named_item no_status no_status receiver deletes_web shared
      lab web_name web_by_hand shared-IsSound refl refl

apply-settles_example :
    seen
      (apply one_zone named_item no_status no_status receiver all_well updates_db shared).0
      lab
      db_name
    ≡ some (new_record db_name)
unfolding text_eq nat_eq zone_for is_published status_of record_from_payload ip_item_to_record
    strip_cidr renamed_from
apply-settles_example =
    apply-settles one_zone named_item no_status no_status receiver all_well (λ n. refl) updates_db
      shared lab db_name shared-IsSound

-- NetBox cannot be reached at the second delivery.
abbrev unreachable : Discoverer
unreachable rs = none

unreachable-SameOrNone : SameOrNone one_zone unreachable
unfolding SameOrNone zone_for
unreachable-SameOrNone = λ name. inl refl

apply_twice_example :
    seen
      (apply unreachable named_item no_status no_status receiver all_well renames_db
        (apply one_zone named_item no_status no_status receiver all_well renames_db shared).0).0
      lab
      db_name
    ≡ seen
        (apply one_zone named_item no_status no_status receiver all_well renames_db shared).0
        lab
        db_name
apply_twice_example =
    apply_twice one_zone unreachable unreachable-SameOrNone named_item no_status no_status receiver
      all_well renames_db shared lab db_name (λ n. refl) shared-IsSound

-- It stands for HMAC-SHA512.
abbrev joined : Text → Text → Text
joined secret body = secret ++ body

abbrev parse_any : Text → Option Payload
parse_any body = some renames_db

not_signed : (b : Text) → some (codes "x") ≡ some b → joined (codes "s") b ≢ codes "tx"
not_signed [] e k = ground arith
not_signed (c ∷ b) e k = ground arith

unsigned_changes_nothing_example :
    (serve_http one_zone named_item no_status no_status receiver joined parse_any all_well
      (some (codes "x"))
      (codes "tx")
      shared).0
    ≡ shared
unsigned_changes_nothing_example =
    unsigned_changes_nothing one_zone all_well named_item no_status no_status receiver joined
      parse_any (some (codes "x")) (codes "tx") shared not_signed

-- The name has a record that was added by hand, so nothing is written.
abbrev updates_web : Payload
updates_web = event (codes "updated") web_name (some web_name)

abbrev parse_pinned : Text → Option Payload
parse_pinned body = some updates_web

change_is_signalled_example :
    (serve_http one_zone named_item no_status no_status receiver joined parse_pinned all_well
      (some (codes "x"))
      (codes "sx")
      shared).0.store
    ≡ sample_store
unfolding text_eq nat_eq zone_for is_published status_of record_from_payload ip_item_to_record
    strip_cidr renamed_from serve_http verify_signature respond Webhook.route apply
    Webhook.apply_upsert write_published Webhook.drop_renamed Webhook.write_new
    Webhook.upsert_guarded admits get_records
change_is_signalled_example =
    change_is_signalled one_zone all_well named_item no_status no_status receiver joined
      parse_pinned (some (codes "x")) (codes "sx") shared refl refl

-- The second write of the rename finds no room.
abbrev full_later : Faults
full_later n = if n == ntp_name then some (Fault.write false) else none

rename_without_signal_run :
    ((respond (write_published one_zone full_later renames_db (new_record ntp_name) shared)).1.0
      ≡ 500)
    × ((respond (
          write_published one_zone full_later renames_db
            (new_record ntp_name)
            shared)).0.merge_signal
        ≡ false)
    × (seen
          (respond (write_published one_zone full_later renames_db (new_record ntp_name) shared)).0
          lab
          db_name
        ≡ none)
unfolding text_eq nat_eq zone_for renamed_from is_manually_pinned pinned_in admits get_records
    delete_name Store.delete_records Store.persist Store.delete_by_names
rename_without_signal_run =
    rename_without_signal one_zone full_later renames_db (new_record ntp_name) shared db_name lab
      lab (Fault.write false) shared-IsSound refl refl refl refl refl refl refl refl
