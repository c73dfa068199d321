-- ===== src/Plugin/Sync.antt =====
-- What a load of coredns/plugins/netboxreload leaves in its two maps.
pub mod Loading
pub mod Serving
pub mod Casing
use coredns_netbox.Base.{
  ◌+◌, ◌-◌, ◌<◌, ◌≡◌, sym, ap, ◌∙◌, ◌≢◌, ◌⊎◌, inl, inr, true, false, not, some, [], ◌∷◌, ◌++◌, map,
  arith, Bool-cases, Option-cases, nat_eq,
}
use coredns_netbox.Base.Text.{
  Text, text_eq, before_suffix, has_suffix, after_prefix, has_prefix, trim_prefix, dot,
}
use coredns_netbox.Base.Dict.{Dict, lookup, insert, NodupKeys, lookup-insert, insert-NodupKeys}
use coredns_netbox.Plugin.{Dns, Zone}
use coredns_netbox.Plugin.Reload.{CachedZone, Loaded, keep_zone, origin_of, file_prefix}
use coredns_netbox.Base.Words.{before_suffix-append}

-- A name of a zone file that does not end with a dot.
pub record IsPlain (filename : Text) : Type 0 where
  pub zone_file : has_prefix filename file_prefix ≡ true
  pub undotted : has_suffix filename (dot ∷ []) ≡ false

-- The two maps agree: a cached zone is served at the origin that its file name gives, and a served
-- zone is cached. The zones have numbers below the next one.
pub record InStep (dns : Dns) (l : Loaded) : Type 0 where
  pub once : NodupKeys l.cache
  pub cached :
      (f : Text) (c : CachedZone)
      → lookup f l.cache ≡ some c
      → IsPlain f × (c.zone.origin ≡ origin_of dns f) × (c.zone.pointer < l.next)
  pub served :
      (f : Text) (c : CachedZone)
      → lookup f l.cache ≡ some c
      → lookup c.zone.origin l.zones ≡ some c.zone
  pub from_file :
      (o : Text) (z : Zone)
      → lookup o l.zones ≡ some z
      → (f : Text) × (c : CachedZone) × (lookup f l.cache ≡ some c) × (c.zone ≡ z) × (z.origin ≡ o)

-- What Fqdn is documented to do with a name that is not fully qualified.
unfoldable pub Documented : Dns → Type 0
Documented dns = (s : Text) → has_suffix s (dot ∷ []) ≡ false → dns.fqdn s ≡ s ++ dot ∷ []

after_prefix-eq-some : (s p r : Text) → after_prefix s p ≡ some r → s ≡ p ++ r
unfolding after_prefix
after_prefix-eq-some s [] r h = ground (arith, h)
after_prefix-eq-some [] (b ∷ p) r h = absurd (ground (arith, h))
after_prefix-eq-some (a ∷ s) (b ∷ p) r h = ground (arith, h, after_prefix-eq-some s p r)

before_suffix-append_longer :
    (p s suffix : Text) → has_suffix s suffix ≡ true → has_suffix (p ++ s) suffix ≡ true
unfolding has_suffix before_suffix
before_suffix-append_longer [] s suffix h = h
before_suffix-append_longer (c ∷ p) s suffix h =
    ground (arith, before_suffix-append_longer p s suffix h)

dotted-append :
    (p s : Text) → has_suffix (p ++ s) (dot ∷ []) ≡ false → has_suffix s (dot ∷ []) ≡ false
dotted-append p s h = elim (Bool-cases (has_suffix s (dot ∷ []))) [
  | inl e ↦ absurd (ground (arith, h, before_suffix-append_longer p s (dot ∷ []) e))
  | inr e ↦ e
]

-- The name of a plain file, from its origin.
plain_name :
    (dns : Dns) (f : Text)
    → Documented dns
    → IsPlain f
    → (r : Text) × (f ≡ file_prefix ++ r) × (origin_of dns f ≡ r ++ dot ∷ [])
unfolding origin_of trim_prefix Documented
plain_name dns f doc h = elim (Option-cases (after_prefix f file_prefix)) [
  | inl e ↦ absurd (unfold has_prefix in ground (arith, e, h.zone_file))
  | inr (r, e) ↦
      let name = after_prefix-eq-some f file_prefix r e in
      let open_end = dotted-append file_prefix r (rw (sym name) h.undotted) in
      let cut : trim_prefix f file_prefix ≡ r = ground (arith, e) in
      (r, name, ap dns.fqdn cut ∙ doc r open_end)
]

snoc_inj : (r s : Text) → r ++ dot ∷ [] ≡ s ++ dot ∷ [] → r ≡ s
snoc_inj r s h = ground (
  arith,
  before_suffix-append r (dot ∷ []),
  before_suffix-append s (dot ∷ []),
  ap (λ t. before_suffix t (dot ∷ [])) h,
)

-- Plain files have origins of their own.
pub origin_inj :
    (dns : Dns) (f g : Text)
    → Documented dns
    → IsPlain f
    → IsPlain g
    → origin_of dns f ≡ origin_of dns g
    → f ≡ g
origin_inj dns f g doc hf hg e =
    let (r, ef, or_) = plain_name dns f doc hf in
    let (s, eg, os) = plain_name dns g doc hg in
    ef ∙ ap (λ t. file_prefix ++ t) (snoc_inj r s (sym or_ ∙ e ∙ os)) ∙ sym eg

-- What a written map has is the new entry or an old one under another key.
lookup-insert_cases {κ} :
    {V : Type κ} (j k : Text) (v w : V) (d : Dict Text V)
    → lookup j (insert k v d) ≡ some w
    → ((j ≡ k) × (v ≡ w)) ⊎ ((j ≢ k) × (lookup j d ≡ some w))
lookup-insert_cases j k v w d h = ground (arith, h, lookup-insert j k v d)

lookup-insert_same {κ} :
    {V : Type κ} (k : Text) (v : V) (d : Dict Text V) → lookup k (insert k v d) ≡ some v
lookup-insert_same k v d = ground (arith, lookup-insert k k v d)

lookup-insert_other {κ} :
    {V : Type κ} (j k : Text) (v : V) (d : Dict Text V)
    → j ≢ k
    → lookup j (insert k v d) ≡ lookup j d
lookup-insert_other j k v d h = ground (arith, h, lookup-insert j k v d)

pub InStep-keep_zone :
    (dns : Dns) (f : Text) (c : CachedZone) (l : Loaded)
    → Documented dns
    → IsPlain f
    → c.zone.origin ≡ origin_of dns f
    → c.zone.pointer < l.next
    → InStep dns l
    → InStep dns (keep_zone f c l)
unfolding keep_zone
InStep-keep_zone dns f c l doc plain eo lt i = record {
  once = insert-NodupKeys f c l.cache i.once;
  cached = λ g d h. elim (lookup-insert_cases g f c d l.cache h) [
    | inl (e, ec) ↦ rw (e, sym ec) (plain, eo, lt)
    | inr (_, old) ↦ i.cached g d old
  ];
  served = λ g d h. elim (lookup-insert_cases g f c d l.cache h) [
    | inl (_, ec) ↦ rw (sym ec) (lookup-insert_same c.zone.origin c.zone l.zones)
    | inr (ne, old) ↦
        let (pg, og, _) = i.cached g d old in
        lookup-insert_other d.zone.origin c.zone.origin c.zone l.zones
          (λ e. ne (origin_inj dns g f doc pg plain (sym og ∙ e ∙ eo)))
        ∙ i.served g d old
  ];
  from_file = λ o z h. elim (lookup-insert_cases o c.zone.origin c.zone z l.zones h) [
    | inl (e, ez) ↦
        (f, c, lookup-insert_same f c l.cache, ez, ap (λ (y : Zone). y.origin) (sym ez) ∙ sym e)
    | inr (ne, old) ↦
        let (g, d, hd, ez, ego) = i.from_file o z old in
        let (pg, og, _) = i.cached g d hd in
        let other_file : g ≢ f = (λ e.
          ne (
            sym ego ∙ ap (λ (y : Zone). y.origin) (sym ez) ∙ og ∙ ap (origin_of dns) e ∙ sym eo)) in
        (g, d, lookup-insert_other g f c l.cache other_file ∙ hd, ez, ego)
  ];
}
