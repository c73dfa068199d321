-- ===== src/Discovery/Served.antt =====
-- internal/zonediscovery/netbox_dns.go with coredns/plugins/netboxreload/plugin.go: a name is served
-- from the zone that discovery put it in.
use coredns_netbox.Base.{
  ℕ, ◌+◌, ◌≤◌, ◌≡◌, refl, sym, ap, ◌∙◌, ◌≢◌, inl, inr, true, some, List, [], ◌∷◌, ◌++◌,
  append_assoc, arith, Option-cases, nat_eq, length, contains, length-append, List-cases,
}
use coredns_netbox.Base.Text.{Text, text_eq, before_suffix, to_lower, dot}
use coredns_netbox.Base.Dict.{Dict, lookup}
use coredns_netbox.Base.Words.{IsUnder, before_suffix-append}
use coredns_netbox.Discovery.{undot, longest_matching_zone}
use coredns_netbox.Discovery.Longest.{
  IsLongest, longest_matching_zone-IsLongest, zone_matches-IsUnder, IsUnder-zone_matches,
}
use coredns_netbox.Plugin.{Dns, Rr, Zone, Question, answer, find_zone, written, reply, serve_dns}
use coredns_netbox.Plugin.Answer.{answer-Chain}
use coredns_netbox.Plugin.Finding.{Finds, find_zone-Finds}

-- The origin of a zone: its name with one dot at the end.
abbrev pub origin : Text → Text
origin z = undot z ++ dot ∷ []

same_end : (p q o j : Text) → p ++ o ≡ q ++ j → length o ≡ length j → o ≡ j
same_end [] [] o j e h = e
same_end [] (c ∷ q) o j e h = absurd (omega (arith, ap (length {A = ℕ}) e, length-append q j, h))
same_end (c ∷ p) [] o j e h = absurd (omega (arith, ap (length {A = ℕ}) e, length-append p o, h))
same_end (c ∷ p) (d ∷ q) o j e h = same_end p q o j (ground (arith, e)) h

IsEnd : Text → Text → Type 0
IsEnd o n = (p : Text) × (n ≡ p ++ o)

IsUnder-IsEnd : (o n : Text) → IsUnder o n → IsEnd o n
unfolding IsUnder IsEnd
IsUnder-IsEnd o n (inl e) = ([], e)
IsUnder-IsEnd o n (inr (p, e, _)) = (p ++ dot ∷ [], e ∙ sym (append_assoc p (dot ∷ []) o))

-- Of the origins that a name lies under, each length has one.
under_inj : (o j n : Text) → IsUnder o n → IsUnder j n → length o ≡ length j → o ≡ j
unfolding IsEnd
under_inj o j n ho hj h =
    let (p, ep) = IsUnder-IsEnd o n ho in
    let (q, eq_) = IsUnder-IsEnd j n hj in same_end p q o j (sym ep ∙ eq_) h

-- With the final dot, a zone that is not empty is above the same names.
IsUnder-dotted : (z n : Text) → IsUnder z n → IsUnder (z ++ dot ∷ []) (n ++ dot ∷ [])
unfolding IsUnder
IsUnder-dotted z n (inl e) = inl (ap (λ s. s ++ dot ∷ []) e)
IsUnder-dotted z n (inr (p, e, h)) = inr (
  p,
  ap (λ s. s ++ dot ∷ []) e ∙ append_assoc p (dot ∷ z) (dot ∷ []),
  λ e2. absurd (omega (arith, ap (length {A = ℕ}) e2, length-append z (dot ∷ []))),
)

undo_dotted : (p n s : Text) → n ++ dot ∷ [] ≡ p ++ (s ++ dot ∷ []) → n ≡ p ++ s
undo_dotted p n s e =
    let whole = e ∙ sym (append_assoc p s (dot ∷ [])) in
    ground (
      arith,
      before_suffix-append n (dot ∷ []),
      before_suffix-append (p ++ s) (dot ∷ []),
      ap (λ t. before_suffix t (dot ∷ [])) whole,
    )

IsUnder-undotted : (z n : Text) → z ≢ [] → IsUnder (z ++ dot ∷ []) (n ++ dot ∷ []) → IsUnder z n
unfolding IsUnder
IsUnder-undotted z n h (inl e) = inl (undo_dotted [] n z e)
IsUnder-undotted z n h (inr (p, e, _)) = inr (p, undo_dotted p n (dot ∷ z) e, h)

-- A map that has a zone at an origin exactly if the origin is that of a zone of the list.
unfoldable pub Serves : List Text → Dict Text Zone → Type 0
Serves zones served =
    ((z : Text) → contains zones z ≡ true → (y : Zone) × (lookup (origin z) served ≡ some y))
    × ((o : Text) (y : Zone)
        → lookup o served ≡ some y
        → (z : Text) × (contains zones z ≡ true) × (origin z ≡ o))

length-dotted : (s : Text) → length (s ++ dot ∷ []) ≡ length s + 1
length-dotted s = length-append s (dot ∷ [])

-- No served origin above the name is longer than the zone of discovery.
served_shorter :
    (zones : List Text) (best o z name : Text)
    → IsLongest (undot name) zones best
    → contains zones z ≡ true
    → origin z ≡ o
    → IsUnder o (undot name ++ dot ∷ [])
    → length o ≤ length (best ++ dot ∷ [])
served_shorter zones best o z name i h e under =
    let same = sym e in
    let short : length (undot z) ≤ length best = elim (List-cases (undot z)) [
      | inl none_ ↦ rw none_ (omega arith)
      | inr (c, s, e2) ↦ i.longest z h (
          IsUnder-zone_matches (undot name) (undot z) (
            IsUnder-undotted (undot z) (undot name) (λ e3. ground (arith, e2, e3))
              (rw same at under)))
    ] in
    omega (arith, ap (length {A = ℕ}) same, length-dotted (undot z), length-dotted best, short)

-- The zone that is found for the name as discovery has it, with a final dot.
pub find_zone-longest_matching_zone :
    (zones : List Text) (served : Dict Text Zone) (name : Text)
    → Serves zones served
    → longest_matching_zone name zones ≢ []
    → (y : Zone) × (find_zone served (undot name ++ dot ∷ []) ≡ some y)
      × (lookup (longest_matching_zone name zones ++ dot ∷ []) served ≡ some y)
unfolding Serves Finds
find_zone-longest_matching_zone zones served name (all_served, only_served) some_ =
    let best = longest_matching_zone name zones in
    let n = undot name ++ dot ∷ [] in
    let i = longest_matching_zone-IsLongest name zones in
    elim i.listed [
      | inl e ↦ absurd (some_ e)
      | inr (z, hz, ez, mz) ↦
          let (y0, ey0) = all_served z hz in
          let key = ap (λ s. s ++ dot ∷ []) ez in
          let at_best = ap (λ s. lookup s served) (sym key) ∙ ey0 in
          let under_best =
            IsUnder-dotted best (undot name) (zone_matches-IsUnder (undot name) best some_ mz) in
          elim (Option-cases (find_zone served n)) [
            | inl e ↦
                let f = rw e at (find_zone-Finds served n) in
                absurd (ground (arith, at_best, f (best ++ dot ∷ []) under_best))
            | inr (y, ey) ↦
                let (o, under, eo, longest) = rw ey at (find_zone-Finds served n) in
                let (z1, h1, e1) = only_served o y eo in
                let short = served_shorter zones best o z1 name i h1 e1 under in
                let long = longest (best ++ dot ∷ []) y0 under_best at_best in
                let same =
                  under_inj o (best ++ dot ∷ []) n under under_best (omega (arith, short, long)) in
                (y, ey, ap (λ s. lookup s served) (sym same) ∙ eo)
          ]
    ]

-- Where the plugin serves exactly the zones of the NetBox DNS plugin, and discovery puts a name without
-- upper-case letters in one of them, `ServeDNS` answers a query for that name, in any case of its
-- letters, from that zone.
pub serve_dns-longest_matching_zone :
    (dns : Dns) (zones : List Text) (served : Dict Text Zone) (name : Text) (q : Question)
    → Serves zones served
    → longest_matching_zone name zones ≢ []
    → to_lower q.name ≡ undot name ++ dot ∷ []
    → (y : Zone) × (l : List Rr) × (lookup (longest_matching_zone name zones ++ dot ∷ []) served
        ≡ some y)
      × (answer dns y (to_lower q.name) q.qtype ≡ some l)
      × (serve_dns dns served (some q) ≡ some (written (reply y (to_lower q.name) l)))
unfolding serve_dns
serve_dns-longest_matching_zone dns zones served name q exact some_ asked =
    let (y, found, at_zone) = find_zone-longest_matching_zone zones served name exact some_ in
    let here = ap (find_zone served) asked ∙ found in
    let (l, returned, _) = answer-Chain dns y (to_lower q.name) q.qtype in
    (y, l, at_zone, returned, rw (here, returned, serve_dns) refl)
