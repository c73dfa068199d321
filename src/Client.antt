-- ===== src/Client.antt =====
-- internal/netboxclient/client.go: the query, the pages, the retries and their delays. The HTTP
-- server and the random numbers are parameters.
pub mod Pages
pub mod Retries
mod Tests
use coredns_netbox.Base.{
  ℕ, zero, suc, ◌+◌, ◌-◌, ◌*◌, ◌/◌, ◌%◌, ◌^◌, Bool, true, false, not, ◌&&◌, Option, none, some,
  List, [], ◌∷◌, ◌++◌, map, arith, if◌then◌else◌, ltb, leb, ◌==◌, nat_eq, any,
}
use coredns_netbox.Base.Text.{Text, codes, text_eq}
use coredns_netbox.Record.{IpRecord}
use coredns_netbox.Record.{IpItem, ip_item_to_record, auth_header}

-- `Client`, but for the HTTP client and the counter; durations are in nanoseconds.
pub record Client : Type 0 where
  pub base_url : Text
  pub token : Text
  pub page_size : ℕ
  pub retry_count : ℕ
  pub retry_base_delay : ℕ
  pub retry_max_delay : ℕ
  pub publish_statuses : List Text

-- `strings.TrimRight` by a slash
unfoldable pub trim_slashes : Text → Text
trim_slashes [] = []
trim_slashes (c ∷ s) = let rest = trim_slashes s in if rest == [] && c == b'/' then [] else c ∷ rest

-- `New`, over url.Parse: the text of the URL, or none for its error
unfoldable pub new_client : (Text → Option Text) → Text → Text → ℕ → ℕ → ℕ → ℕ → Option Client
new_client parse base_url token page_size retry_count retry_base_delay retry_max_delay =
    elim (parse base_url) [
      | none ↦ none
      | some url ↦ some (record {
        base_url = trim_slashes url;
        token = token;
        page_size = page_size;
        retry_count = retry_count;
        retry_base_delay = retry_base_delay;
        retry_max_delay = retry_max_delay;
        publish_statuses = codes "active" ∷ [];
      })
    ]

unfoldable pub set_publish_statuses : List Text → Client → Client
set_publish_statuses [] c = c
set_publish_statuses (s ∷ statuses) c = record c { publish_statuses = s ∷ statuses }

-- A page as it is decoded.
pub record IpListResponse : Type 0 where
  pub count : ℕ
  pub results : List IpItem

-- A request: the URL without its query, the values of the query and the header Authorization.
pub record Query : Type 0 where
  pub url : Text
  pub authorization : Text
  pub statuses : List Text
  pub limit : ℕ
  pub offset : ℕ

-- `fetchPage`: what the server answers to the request, or none for any of the errors.
unfoldable pub fetch_page : (Query → Option IpListResponse) → Client → ℕ → ℕ → Option IpListResponse
fetch_page server c offset limit = server (record {
  url = c.base_url ++ codes "/api/ipam/ip-addresses/";
  authorization = auth_header c.token;
  statuses = c.publish_statuses;
  limit = limit;
  offset = offset;
})

-- `math.Ceil` of the quotient, which float64 has exactly for totals below 2 ^ 52.
unfoldable pub total_pages : ℕ → ℕ → ℕ
total_pages total page_size = (total + page_size - 1) / page_size

-- The pages from number `page` on, in their order: each has its own place in `results`, so that it
-- does not matter in which order the requests end. One that fails fails the fetch.
unfoldable pub collect : (ℕ → Option IpListResponse) → ℕ → ℕ → ℕ → Option (List IpRecord)
collect get page_size zero page = some []
collect get page_size (suc left) page = elim (get (page * page_size)) [
  | none ↦ none
  | some resp ↦ elim (collect get page_size left (suc page)) [
    | none ↦ none
    | some rest ↦ some (map ip_item_to_record resp.results ++ rest)
  ]
]

-- `fetchIPAddressesOnce`
unfoldable pub fetch_once : (Query → Option IpListResponse) → Client → Option (List IpRecord)
fetch_once server c = elim (fetch_page server c 0 1) [
  | none ↦ none
  | some probe ↦
      if probe.count == 0
      then some []
      else collect (λ offset. fetch_page server c offset c.page_size) c.page_size
          (total_pages probe.count c.page_size) 0
]

abbrev pub int64_max : ℕ
int64_max = 2 ^ 63

-- `retryDelay`; a duration is a signed number of 64 bits, negative from 2 ^ 63 on. `rand n` is the
-- number of rand.Int63n(n).
unfoldable pub shift_of : ℕ → ℕ
shift_of attempt = if ltb 62 (attempt - 1) then 62 else attempt - 1

unfoldable pub backoff : Client → ℕ → ℕ
backoff c attempt =
    let exp = c.retry_base_delay * 2 ^ shift_of attempt % 2 ^ 64 in
    if ltb exp int64_max && ltb c.retry_max_delay exp then c.retry_max_delay else exp

unfoldable pub retry_delay : (ℕ → ℕ) → Client → ℕ → ℕ
retry_delay rand c attempt =
    let exp = backoff c attempt in
    if leb int64_max exp
    then 0
    else if ltb 0 (exp / 2)
    then (let delay = exp - exp / 4 + rand (exp / 2) in if leb int64_max delay then 0 else delay)
    else exp

-- What happens during one call: what the server answers in each attempt, and whether the context
-- is done before the delay of an attempt is over.
pub record Calls : Type 0 where
  pub server : ℕ → Query → Option IpListResponse
  pub cancelled : ℕ → Bool

pub data Fetched : Type 0 where
  records : List IpRecord → Fetched
  failed cancelled_ : Fetched

-- The loop of `FetchIPAddresses`, with the attempts that are left.
unfoldable pub attempts : Calls → Client → ℕ → ℕ → Fetched
attempts w c zero attempt = failed
attempts w c (suc left) attempt = elim (ltb 0 attempt && w.cancelled attempt) [
  | true ↦ cancelled_
  | false ↦ elim (fetch_once (w.server attempt) c) [
    | some l ↦ records l
    | none ↦ attempts w c left (suc attempt)
  ]
]

unfoldable pub fetch_ip_addresses : Calls → Client → Fetched
fetch_ip_addresses w c = attempts w c (c.retry_count + 1) 0
