-- ===== src/Client/Retries.antt =====
-- FetchIPAddresses and retryDelay of internal/netboxclient/client.go.
use coredns_netbox.Base.{
  ℕ, zero, suc, ◌+◌, ◌-◌, ◌*◌, ◌/◌, ◌%◌, ◌^◌, ◌≤◌, ◌<◌, ◌≡◌, refl, inl, inr, true, false, ◌&&◌,
  Option, none, some, List, arith, dec_lt, if◌then◌else◌, ltb, leb, Bool-cases, nat_eq,
}
use coredns_netbox.Base.Text.{text_eq}
use coredns_netbox.Record.{IpRecord}
use coredns_netbox.Client.{
  Client, fetch_once, Calls, records, failed, attempts, fetch_ip_addresses, retry_delay, backoff,
  shift_of, int64_max,
}

module _ (w : Calls) (c : Client) where
  abbrev pub outcome : ℕ → Option (List IpRecord)
  outcome k = fetch_once (w.server k) c

  attempts-records :
      (left a k : ℕ) (l : List IpRecord)
      → a ≤ k
      → k < a + left
      → ((j : ℕ) → a ≤ j → j < k → outcome j ≡ none)
      → ((j : ℕ) → 0 < j → j ≤ k → w.cancelled j ≡ false)
      → outcome k ≡ some l
      → attempts w c left a ≡ records l
  unfolding attempts
  attempts-records zero a k l lo hi bad going good = absurd (omega (arith, lo, hi))
  attempts-records (suc left) a k l lo hi bad going good =
      let go : ltb 0 a && w.cancelled a ≡ false = elim (dec_lt 0 a) [
        | yes late ↦ ground (arith, going a late lo)
        | no early ↦ ground (arith, early)
      ] in
      elim (dec_lt a k) [
        | yes more ↦
            rw (go, bad a (omega arith) more, attempts)
              (attempts-records left (suc a) k l (omega (arith, more)) (omega (arith, hi))
                (λ j p q. bad j (omega (arith, p)) q) going good)
        | no last ↦ let here : a ≡ k = omega (arith, lo, last) in rw (go, here, good, attempts) refl
      ]

  attempts-failed :
      (left a : ℕ)
      → ((j : ℕ) → outcome j ≡ none)
      → ((j : ℕ) → w.cancelled j ≡ false)
      → attempts w c left a ≡ failed
  unfolding attempts
  attempts-failed zero a bad going = refl
  attempts-failed (suc left) a bad going =
      let go : ltb 0 a && w.cancelled a ≡ false = ground (arith, going a) in
      rw (go, bad a, attempts) (attempts-failed left (suc a) bad going)

  -- The records that are returned are those of the first attempt that succeeds, if it is within the
  -- retries and the context is not done before.
  pub fetch-first_success :
      (k : ℕ) (l : List IpRecord)
      → k ≤ c.retry_count
      → ((j : ℕ) → j < k → outcome j ≡ none)
      → ((j : ℕ) → 0 < j → j ≤ k → w.cancelled j ≡ false)
      → outcome k ≡ some l
      → fetch_ip_addresses w c ≡ records l
  unfolding fetch_ip_addresses
  fetch-first_success k l h bad going good =
      attempts-records (c.retry_count + 1) 0 k l (omega arith) (omega (arith, h)) (λ j p q. bad j q)
        going good

  -- If every attempt fails and the context is never done, the call fails, after one attempt more
  -- than the retries.
  pub fetch_fails :
      ((j : ℕ) → outcome j ≡ none)
      → ((j : ℕ) → w.cancelled j ≡ false)
      → fetch_ip_addresses w c ≡ failed
  unfolding fetch_ip_addresses
  fetch_fails bad going = attempts-failed (c.retry_count + 1) 0 bad going

abbrev pub capped : Client → ℕ → ℕ
capped c attempt =
    let exp = c.retry_base_delay * 2 ^ shift_of attempt in
    if ltb c.retry_max_delay exp then c.retry_max_delay else exp

backoff-capped :
    (c : Client) (attempt : ℕ)
    → c.retry_base_delay * 2 ^ shift_of attempt < 2 ^ 63
    → backoff c attempt ≡ capped c attempt
unfolding backoff
backoff-capped c attempt h =
    let exp = c.retry_base_delay * 2 ^ shift_of attempt in
    let same : exp % 2 ^ 64 ≡ exp = omega (arith, h) in rw (same, backoff) (ground (arith, h))

jitter_bounds :
    (rand : ℕ → ℕ) (e : ℕ)
    → ((n : ℕ) → 0 < n → rand n < n)
    → 0 < e / 2
    → (e - e / 4 ≤ e - e / 4 + rand (e / 2)) × (e - e / 4 + rand (e / 2) ≤ e + e / 4)
jitter_bounds rand e r h = omega (arith, r (e / 2) h)

-- Where the doubled delay still fits in 63 bits, the longest delay is below 2 ^ 62 and the random
-- number is below its bound, the delay is the doubled one, or the longest one if that is shorter,
-- give or take a quarter.
pub retry_delay_bounds :
    (rand : ℕ → ℕ) (c : Client) (attempt : ℕ)
    → ((n : ℕ) → 0 < n → rand n < n)
    → c.retry_base_delay * 2 ^ shift_of attempt < 2 ^ 63
    → c.retry_max_delay < 2 ^ 62
    → (capped c attempt - capped c attempt / 4 ≤ retry_delay rand c attempt)
      × (retry_delay rand c attempt ≤ capped c attempt + capped c attempt / 4)
unfolding retry_delay
retry_delay_bounds rand c attempt r fits short =
    let e = capped c attempt in
    let small : e < 2 ^ 62 = ground (arith, short) in
    rw (backoff-capped c attempt fits, retry_delay)
      (elim (Bool-cases (ltb 0 (e / 2))) [
        | inl big ↦
            let (lo, hi) = jitter_bounds rand e r (ground (arith, big)) in
            let below : leb int64_max e ≡ false = ground (arith, small) in
            let still : leb int64_max (e - e / 4 + rand (e / 2)) ≡ false =
              ground (arith, small, hi) in
            rw (below, big, still) (lo, hi)
        | inr tiny ↦
            let below : leb int64_max e ≡ false = ground (arith, small) in
            rw (below, tiny) (omega arith)
      ])

-- Where the doubled delay, cut to 64 bits, is negative, the retry comes without a delay.
pub retry_delay_overflow :
    (rand : ℕ → ℕ) (c : Client) (attempt : ℕ)
    → 2 ^ 63 ≤ c.retry_base_delay * 2 ^ shift_of attempt % 2 ^ 64
    → retry_delay rand c attempt ≡ 0
unfolding retry_delay backoff
retry_delay_overflow rand c attempt h =
    let exp = c.retry_base_delay * 2 ^ shift_of attempt % 2 ^ 64 in
    let negative : ltb exp int64_max ≡ false = ground (arith, h) in
    let stops : leb int64_max exp ≡ true = ground (arith, h) in rw (backoff, negative, stops) refl
