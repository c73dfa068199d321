-- ===== src/WebhookEvent.antt =====
-- The events that internal/netboxwebhook receives, the state that its handler changes, and the parts of
-- the handler that do not touch the store.
use coredns_netbox.Base.{
  ℕ, Bool, true, false, ◌||◌, Option, none, some, List, [], ◌∷◌, if◌then◌else◌, ◌==◌, nat_eq,
  contains,
}
use coredns_netbox.Base.Text.{Text, codes, text_eq, to_lower}
use coredns_netbox.Record.{IpRecord, source_webhook}
use coredns_netbox.Record.{IpItem, ip_item_to_record}
use coredns_netbox.Store.{Fault, FileStore}

pub record Payload : Type 0 where
  pub event : Text
  pub timestamp : ℕ
  pub object_type : Text
  pub raw_data : Text
  -- `Snapshots.PreChange`, of which only the name is read.
  pub pre_change : Option Text

-- `handler` without what it points to.
pub record Handler : Type 0 where
  pub secret : Text
  pub published : List Text

-- What the handler changes: the store, and the two signal channels, each of which holds one signal.
pub record Shared : Type 0 where
  pub store : FileStore
  pub merge_signal : Bool
  pub poll_signal : Bool

pub data ApplyOutcome : Type 0 where
  noop applied poll_triggered : ApplyOutcome

pub data HookError : Type 0 where
  bad_data : HookError
  storage : Fault → HookError

-- What a step returns: the shared state, an outcome and an error.
abbrev pub Handled : Type 0
Handled = Shared × ApplyOutcome × Option HookError

-- The result of the write to disk that the change of one name makes. An event changes a name once.
abbrev pub Faults : Type 0
Faults = Text → Option Fault

abbrev pub storage_error : Option Fault → Option HookError
storage_error none = none
storage_error (some e) = some (HookError.storage e)

-- `Register`: no route without a secret.
unfoldable pub register : Text → List Text → Option Handler
register secret statuses =
    if secret == []
    then none
    else some record {
      secret = secret;
      published = elim statuses [ [] ↦ codes "active" ∷ [] | status ∷ rest ↦ status ∷ rest ];
    }

-- `verifySignature`
unfoldable pub verify_signature : (Text → Text → Text) → Text → Text → Text → Bool
verify_signature hmac secret body header =
    if header == [] then false else hmac secret body == header

unfoldable pub trigger_poll : Shared → Shared
trigger_poll s = record s { poll_signal = true }

-- `statusFromData`, from what the two decodings give.
unfoldable pub status_of : Option Text → Option Text → Text
status_of nested flat = elim nested [
  | some v ↦ if v == [] then elim flat [ some t ↦ to_lower t | none ↦ [] ] else to_lower v
  | none ↦ elim flat [ some t ↦ to_lower t | none ↦ [] ]
]

-- The old name of a rename.
unfoldable pub renamed_from : Payload → Text → Option Text
renamed_from p name = elim p.pre_change [
  | none ↦ none
  | some old ↦ if old == [] || old == name then none else some old
]

abbrev pub outcome_of : Bool → ApplyOutcome
outcome_of changed = if changed then ApplyOutcome.applied else ApplyOutcome.noop

-- `recordFromPayload`, over `RecordFromJSON` of internal/netboxclient/client.go.
unfoldable pub record_from_payload : (Text → Option IpItem) → Payload → Option IpRecord
record_from_payload item p = elim (item p.raw_data) [
  | none ↦ none
  | some i ↦ some record (ip_item_to_record i) { source = source_webhook; applied_at = p.timestamp }
]

-- An event without a status is published.
unfoldable pub is_published : (Text → Option Text) → (Text → Option Text) → Handler → Payload → Bool
is_published nested flat h p =
    let status = status_of (nested p.raw_data) (flat p.raw_data) in
    status == [] || contains h.published status

-- The status code of the response, and the label that `WebhookRequestsTotal` counts.
abbrev pub Response : Type 0
Response = ℕ × Text

-- The end of `ServeHTTP`.
unfoldable pub respond : Handled → Shared × Response
respond (s, _, some e) = (s, (500, codes "error"))
respond (s, ApplyOutcome.applied, none) = (record s { merge_signal = true }, (200, codes "ok"))
respond (s, ApplyOutcome.poll_triggered, none) = (s, (200, codes "poll_triggered"))
respond (s, ApplyOutcome.noop, none) = (s, (200, codes "stale"))
