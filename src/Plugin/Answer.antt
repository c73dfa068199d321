-- ===== src/Plugin/Answer.antt =====
-- zone.answer of coredns/plugins/netboxreload/zones.go: the loop ends, and what it returns.
use coredns_netbox.Base.{
  ℕ, zero, suc, ◌+◌, ◌≤◌, ◌<◌, ◌≡◌, refl, sym, ap, ◌∙◌, ◌≢◌, ◌⊎◌, inl, inr, Bool, true, false, not,
  ◌||◌, Option, none, some, List, [], ◌∷◌, arith, if◌then◌else◌, Bool-cases, Option-cases, ◌==◌,
  nat_eq, length, contains,
}
use coredns_netbox.Base.Text.{Text, text_eq, to_lower}
use coredns_netbox.Base.Dict.{Dict, lookup}
use coredns_netbox.Plugin.{
  Rr, Dns, Zone, Question, Rdata, soa, cname, other, target_of, records_at, matches, matching,
  type_cname, type_any, last_cname, is_empty, before, follow, answer, serve_dns, find_zone,
}

-- How many owners of the zone the loop has not come to.
unvisited : List Text → Dict Text (List Rr) → ℕ
unvisited visited [] = 0
unvisited visited ((k, _) ∷ d) =
    let rest = unvisited visited d in if contains visited k then rest else suc rest

unvisited-le-length : (v : List Text) (d : Dict Text (List Rr)) → unvisited v d ≤ length d
unfolding unvisited
unvisited-le-length v [] = omega arith
unvisited-le-length v (_ ∷ d) = ground (arith, unvisited-le-length v d)

unvisited-cons-le :
    (c : Text) (v : List Text) (d : Dict Text (List Rr)) → unvisited (c ∷ v) d ≤ unvisited v d
unfolding unvisited
unvisited-cons-le c v [] = omega arith
unvisited-cons-le c v (_ ∷ d) = ground (arith, unvisited-cons-le c v d)

-- A round at a new owner of records leaves fewer of them.
unvisited_falls :
    (c : Text) (v : List Text) (d : Dict Text (List Rr)) (rrs : List Rr)
    → contains v c ≡ false
    → lookup c d ≡ some rrs
    → unvisited (c ∷ v) d < unvisited v d
unfolding unvisited
unvisited_falls c v [] rrs new h = absurd (ground arith)
unvisited_falls c v (_ ∷ d) rrs new h =
    ground (arith, unvisited_falls c v d rrs new, unvisited-cons-le c v d)

abbrev stops : Zone → ℕ → Text → Bool
stops z qtype cur =
    not (is_empty (matching qtype (records_at z cur))) || qtype == type_cname || qtype == type_any

-- A name with a CNAME is an owner of the zone.
owner_of_cname :
    (z : Zone) (qtype : ℕ) (cur : Text) (c : Rr × Text)
    → last_cname qtype (records_at z cur) ≡ some c
    → (rrs : List Rr) × (lookup cur z.records ≡ some rrs)
unfolding last_cname
owner_of_cname z qtype cur c h = elim (Option-cases (lookup cur z.records)) [
  | inl e ↦ absurd (ground (arith, e, h))
  | inr found ↦ found
]

module _ (dns : Dns) where
  follow_ends :
      (z : Zone) (qtype fuel : ℕ) (v : List Text) (cur : Text)
      → unvisited v z.records < fuel
      → follow dns z qtype fuel v cur ≢ none
  unfolding follow
  follow_ends z qtype zero v cur h = absurd (omega arith)
  follow_ends z qtype (suc fuel) v cur h = elim (Bool-cases (contains v cur)) [
    | inl e ↦ rw (e, follow) (λ n. cc)
    | inr e ↦ elim (Option-cases (last_cname qtype (records_at z cur))) [
      | inl e3 ↦ rw (e, e3, follow) (λ n. cc)
      | inr ((rr, t), e3) ↦ elim (Bool-cases (stops z qtype cur)) [
        | inl e4 ↦ rw (e, e3, e4, follow) (λ n. cc)
        | inr e4 ↦
            let (rrs, e2) = owner_of_cname z qtype cur (rr, t) e3 in
            let falls = unvisited_falls cur v z.records rrs e e2 in
            let ih =
              follow_ends z qtype fuel (cur ∷ v) (to_lower (dns.fqdn t))
                (omega (arith, falls, h)) in
            rw (e, e3, e4, follow) (λ n. ih (ground (arith, n)))
      ]
    ]
  ]

  answer_ends : (z : Zone) (name : Text) (qtype : ℕ) → answer dns z name qtype ≢ none
  unfolding answer
  answer_ends z name qtype =
      follow_ends z qtype (length z.records + 1) [] name
        (omega (arith, unvisited-le-length [] z.records))

  -- The record stands at the name, is a CNAME to the target that the query does not ask for, and
  -- behind it there is no other one.
  pub data IsAlias (qtype : ℕ) (rr : Rr) (t : Text) : List Rr → Type 0 where
    last :
        {rest : List Rr}
        → rr.rdata ≡ cname t
        → matches qtype rr ≡ false
        → last_cname qtype rest ≡ none
        → IsAlias qtype rr t (rr ∷ rest)
    later : {r : Rr} {rest : List Rr} → IsAlias qtype rr t rest → IsAlias qtype rr t (r ∷ rest)

  -- The chain of CNAMEs from a name, past the names already met: it ends at a name with records of
  -- the type, at one without a CNAME to follow, or at one that was met before; of a name where it does
  -- not end it has the CNAME that stands there, and goes on at the target.
  pub data Chain (z : Zone) (qtype : ℕ) : List Text → Text → List Rr → Type 0 where
    ends :
        {met : List Text} {cur : Text}
        → contains met cur ≡ false
        → (stops z qtype cur ≡ true) ⊎ (last_cname qtype (records_at z cur) ≡ none)
        → Chain z qtype met cur (matching qtype (records_at z cur))
    alias :
        {met : List Text} {cur : Text} {rr : Rr} {t : Text} {l : List Rr}
        → contains met cur ≡ false
        → stops z qtype cur ≡ false
        → IsAlias qtype rr t (records_at z cur)
        → Chain z qtype (cur ∷ met) (to_lower (dns.fqdn t)) l
        → Chain z qtype met cur (rr ∷ l)
    loops : {met : List Text} {cur : Text} → contains met cur ≡ true → Chain z qtype met cur []

  target_of-eq-some : (d : Rdata) (t : Text) → target_of d ≡ some t → d ≡ cname t
  target_of-eq-some (soa s) t h = cc
  target_of-eq-some (cname s) t h = cc
  target_of-eq-some (other n) t h = cc

  last_cname-IsAlias :
      (qtype : ℕ) (rrs : List Rr) (rr : Rr) (t : Text)
      → last_cname qtype rrs ≡ some (rr, t)
      → IsAlias qtype rr t rrs
  unfolding last_cname
  last_cname-IsAlias qtype [] rr t h = absurd (ground (arith, h))
  last_cname-IsAlias qtype (r ∷ rrs) rr t h = elim (Option-cases (last_cname qtype rrs)) [
    | inr (c, e) ↦ later (last_cname-IsAlias qtype rrs rr t (ground (arith, e, h)))
    | inl e ↦ elim (Bool-cases (matches qtype r)) [
      | inl asked ↦ absurd (ground (arith, e, asked, h))
      | inr other_type ↦ elim (Option-cases (target_of r.rdata)) [
        | inl none_ ↦ absurd (ground (arith, e, other_type, none_, h))
        | inr (t', e2) ↦
            let same : r ≡ rr = ground (arith, e, other_type, e2, h) in
            let target : t' ≡ t = ground (arith, e, other_type, e2, h) in
            let here = target_of-eq-some r.rdata t (e2 ∙ ap some target) in
            rw (sym same) (last here other_type e)
      ]
    ]
  ]

  chain_first :
      (rr : Rr) (o : Option (List Rr)) (l : List Rr)
      → before rr o ≡ some l
      → (m : List Rr) × (o ≡ some m) × (l ≡ rr ∷ m)
  chain_first rr none l h = cc
  chain_first rr (some m) l h = (m, refl, ground (arith, h))

  follow-Chain :
      (z : Zone) (qtype fuel : ℕ) (v : List Text) (cur : Text) (l : List Rr)
      → follow dns z qtype fuel v cur ≡ some l
      → Chain z qtype v cur l
  unfolding follow
  follow-Chain z qtype zero v cur l h = absurd (ground (arith, h))
  follow-Chain z qtype (suc fuel) v cur l h = elim (Bool-cases (contains v cur)) [
    | inl e ↦ let same : l ≡ [] = ground (arith, e, h) in rw same (loops e)
    | inr e ↦ elim (Option-cases (last_cname qtype (records_at z cur))) [
      | inl e3 ↦
          let same : l ≡ matching qtype (records_at z cur) = ground (arith, e, e3, h) in
          rw same (ends e (inr e3))
      | inr ((rr, t), e3) ↦ elim (Bool-cases (stops z qtype cur)) [
        | inl e4 ↦
            let same : l ≡ matching qtype (records_at z cur) = ground (arith, e, e3, e4, h) in
            rw same (ends e (inl e4))
        | inr e4 ↦
            let next = to_lower (dns.fqdn t) in
            let (m, em, el) =
              chain_first rr (follow dns z qtype fuel (cur ∷ v) next) l
                (ground (arith, e, e3, e4, h)) in
            rw el (
              alias e e4 (last_cname-IsAlias qtype (records_at z cur) rr t e3)
                (follow-Chain z qtype fuel (cur ∷ v) next m em))
      ]
    ]
  ]

  -- For every zone, also one with loops of CNAMEs, `answer` returns, and what it returns is the chain
  -- from the name: at each name where it goes on, the CNAME that stands there, and at the last name the
  -- records that match, or nothing where that name was met before.
  pub answer-Chain :
      (z : Zone) (name : Text) (qtype : ℕ)
      → (l : List Rr) × (answer dns z name qtype ≡ some l) × Chain z qtype [] name l
  answer-Chain z name qtype = elim (Option-cases (answer dns z name qtype)) [
    | inl e ↦ absurd (answer_ends z name qtype e)
    | inr (l, e) ↦ (l, e, unfold answer in follow-Chain z qtype (length z.records + 1) [] name l e)
  ]

  -- `ServeDNS` always comes to an outcome, whatever zones are loaded.
  pub serve_dns_returns :
      (zones : Dict Text Zone) (q : Option Question) → serve_dns dns zones q ≢ none
  unfolding serve_dns
  serve_dns_returns zones none = λ h. cc
  serve_dns_returns zones (some q) = λ h. elim (Option-cases (find_zone zones (to_lower q.name))) [
    | inl e ↦ ground (arith, e, h)
    | inr (z, e) ↦ ground (arith, e, h, answer_ends z (to_lower q.name) q.qtype)
  ]
