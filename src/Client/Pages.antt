-- ===== src/Client/Pages.antt =====
-- fetchIPAddressesOnce of internal/netboxclient/client.go over a server that pages a list.
use coredns_netbox.Base.{
  ℕ, zero, suc, ◌+◌, ◌*◌, ◌≤◌, ◌≡◌, refl, sym, ap, ◌∙◌, inl, inr, Option, some, List, [], ◌∷◌, ◌++◌,
  map, arith, Bool-cases, ◌==◌, nat_eq, length, take, drop, take-append-drop,
}
use coredns_netbox.Base.Text.{codes, text_eq}
use coredns_netbox.Record.{IpItem, ip_item_to_record, auth_header}
use coredns_netbox.Client.{
  Client, Query, IpListResponse, fetch_page, total_pages, collect, fetch_once,
}

-- To the requests of the client, the server answers with the number of the items and those from the
-- offset on, as many as the limit allows.
unfoldable pub Pages : List IpItem → (Query → Option IpListResponse) → Client → Type 0
Pages items server c =
    (offset limit : ℕ)
    → server (record {
      url = c.base_url ++ codes "/api/ipam/ip-addresses/";
      authorization = auth_header c.token;
      statuses = c.publish_statuses;
      limit = limit;
      offset = offset;
    })
      ≡ some (record { count = length items; results = take limit (drop offset items) })

drop-nil : (n : ℕ) → drop {A = IpItem} n [] ≡ []
drop-nil zero = refl
drop-nil (suc n) = refl

drop-drop : (m n : ℕ) (l : List IpItem) → drop m (drop n l) ≡ drop (n + m) l
drop-drop m zero l = let same : m ≡ 0 + m = omega arith in ap (λ k. drop k l) same
drop-drop m (suc n) [] = drop-nil m ∙ sym (drop-nil (suc n + m))
drop-drop m (suc n) (x ∷ l) =
    let shifted : suc (n + m) ≡ suc n + m = omega arith in
    drop-drop m n l ∙ ap (λ k. drop k (x ∷ l)) shifted

map-append :
    (k l : List IpItem)
    → map ip_item_to_record (k ++ l) ≡ map ip_item_to_record k ++ map ip_item_to_record l
map-append [] l = refl
map-append (x ∷ k) l = ap (λ t. ip_item_to_record x ∷ t) (map-append k l)

drop_all : (n : ℕ) (l : List IpItem) → length l ≤ n → drop n l ≡ []
drop_all zero [] h = refl
drop_all zero (x ∷ l) h = absurd (omega (arith, h))
drop_all (suc n) [] h = refl
drop_all (suc n) (x ∷ l) h = drop_all n l (omega (arith, h))

collect-drop :
    (items : List IpItem) (get : ℕ → Option IpListResponse) (size left page : ℕ)
    → ((o : ℕ) → get o ≡ some (record { count = length items; results = take size (drop o items) }))
    → length items ≤ (page + left) * size
    → collect get size left page ≡ some (map ip_item_to_record (drop (page * size) items))
unfolding collect
collect-drop items get size zero page h enough =
    let none_left : page + 0 ≡ page = omega arith in
    ap (λ l. some (map ip_item_to_record l))
      (sym (drop_all (page * size) items (rw none_left at enough)))
collect-drop items get size (suc left) page h enough =
    let shifted : page + suc left ≡ suc page + left = omega arith in
    let rest = collect-drop items get size left (suc page) h (rw shifted at enough) in
    let next : suc page * size ≡ page * size + size = grind arith in
    let l = drop (page * size) items in
    let behind = ap (λ k. drop k items) next ∙ sym (drop-drop size (page * size) items) in
    rw (h (page * size), rest, collect)
      (ap some (
        ap (λ t. map ip_item_to_record (take size l) ++ map ip_item_to_record t) behind
        ∙ sym (map-append (take size l) (drop size l))
        ∙ ap (λ t. map ip_item_to_record t) (take-append-drop size l)))

total_pages_enough : (n size : ℕ) → 1 ≤ size → n ≤ (0 + total_pages n size) * size
unfolding total_pages
total_pages_enough n size h = grind arith

-- Over a server that pages a list without change for the token and the published statuses of the
-- client, and with pages of one item or more, one attempt returns the records of all items, once
-- each and in their order.
pub fetch_once-Pages :
    (items : List IpItem) (server : Query → Option IpListResponse) (c : Client)
    → 1 ≤ c.page_size
    → Pages items server c
    → fetch_once server c ≡ some (map ip_item_to_record items)
unfolding fetch_once fetch_page Pages
fetch_once-Pages items server c h paged =
    let n = length items in
    let at_start : 0 * c.page_size ≡ 0 = omega arith in
    let all_ =
      collect-drop items (λ offset. fetch_page server c offset c.page_size) c.page_size
        (total_pages n c.page_size) 0 (λ o. paged o c.page_size)
        (total_pages_enough n c.page_size h) in
    elim (Bool-cases (n == 0)) [
      | inr e ↦
          rw (paged 0 1, e, fetch_once)
            (all_ ∙ ap (λ k. some (map ip_item_to_record (drop k items))) at_start)
      | inl e ↦
          let empty = drop_all 0 items (ground (arith, e)) in
          rw (paged 0 1, e, fetch_once) (ap (λ l. some (map ip_item_to_record l)) (sym empty))
    ]
