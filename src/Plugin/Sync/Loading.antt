-- ===== src/Plugin/Sync/Loading.antt =====
-- The loops of loadZoneDir and fetchZonesFromURL of coredns/plugins/netboxreload: both maps stay in
-- step, and a zone that was not cached gets a new number.
use coredns_netbox.Base.{
  ℕ, ◌+◌, ◌≤◌, ◌<◌, ◌≡◌, refl, sym, ◌⊎◌, inl, inr, false, not, ◌||◌, Option, none, some, List, [],
  ◌∷◌, arith, Bool-cases, Option-cases, ◌==◌, nat_eq, All,
}
use coredns_netbox.Base.Text.{Text, text_eq, has_suffix, has_prefix, dot}
use coredns_netbox.Base.Dict.{Dict, lookup}
use coredns_netbox.Plugin.{Dns, Zone}
use coredns_netbox.Plugin.Reload.{
  CachedZone, Loaded, Result, done, load_failed, nil_zone, or_failed, ◌>>=◌, DirEntry, FileResponse,
  unreachable, not_modified, bad_status, ok, Server, Source, directory, url, load, keep_zone,
  store_parsed, parse_zone_content, load_file, load_entry, load_entries, condition, fetch_zone_file,
  fetch_one, fetch_files, origin_of, file_prefix, index_records,
}
use coredns_netbox.Plugin.Sync.{IsPlain, Documented, InStep, InStep-keep_zone, lookup-insert_cases}

-- No name of a source ends with a dot.
unfoldable pub IsUndotted : Source → Type 0
IsUndotted (directory none) = Unit
IsUndotted (directory (some es)) = All (λ e. has_suffix e.name (dot ∷ []) ≡ false) es
IsUndotted (url server) = elim server.filenames [
  | none ↦ Unit
  | some names ↦ All (λ n. has_suffix n (dot ∷ []) ≡ false) names
]

bind_done {ℓ κ} :
    {A : Type ℓ} {B : Type κ} (r : Result A) (f : A → Result B) (b : B)
    → (r >>= f) ≡ done b
    → (a : A) × (r ≡ done a) × (f a ≡ done b)
bind_done (done a) f b h = (a, refl, h)
bind_done load_failed f b h = cc
bind_done nil_zone f b h = cc

done_inj {ℓ} : {A : Type ℓ} (a b : A) → done a ≡ done b → a ≡ b
done_inj a b h = cc

bad_result : (a : Loaded) → ¬ (load_failed ≡ done a)
bad_result a h = cc

nil_result : (a : Loaded) → ¬ (nil_zone ≡ done a)
nil_result a h = cc

module _ (dns : Dns) (doc : Documented dns) (prev : Dict Text CachedZone) (first : ℕ)
    (known : (f : Text) (c : CachedZone)
      → lookup f prev ≡ some c
      → IsPlain f × (c.zone.origin ≡ origin_of dns f) × (c.zone.pointer < first)) where
  -- The state of a load that began at the number `first`.
  pub record Loading (l : Loaded) : Type 0 where
    pub in_step : InStep dns l
    pub later : first ≤ l.next
    pub fresh :
        (f : Text) (c : CachedZone)
        → lookup f l.cache ≡ some c
        → (lookup f prev ≡ some c) ⊎ (first ≤ c.zone.pointer)

  Loading-reuse :
      (f : Text) (c : CachedZone) (l : Loaded)
      → lookup f prev ≡ some c
      → Loading l
      → Loading (keep_zone f c l)
  unfolding keep_zone
  Loading-reuse f c l h i =
      let (plain, eo, lt) = known f c h in
      record {
        in_step = InStep-keep_zone dns f c l doc plain eo (omega (arith, lt, i.later)) i.in_step;
        later = i.later;
        fresh = λ g d hd. elim (lookup-insert_cases g f c d l.cache hd) [
          | inl (e, ec) ↦ rw (e, sym ec) (inl h)
          | inr (_, old) ↦ i.fresh g d old
        ];
      }

  InStep-next : (l : Loaded) → InStep dns l → InStep dns (record l { next = l.next + 1 })
  InStep-next l i = record {
    once = i.once;
    cached = λ f c h. let (p, e, lt) = i.cached f c h in (p, e, omega (arith, lt));
    served = i.served;
    from_file = i.from_file;
  }

  Loading-new :
      (f : Text) (c : CachedZone) (l : Loaded)
      → IsPlain f
      → c.zone.origin ≡ origin_of dns f
      → c.zone.pointer ≡ l.next
      → Loading l
      → Loading (keep_zone f c (record l { next = l.next + 1 }))
  unfolding keep_zone
  Loading-new f c l plain eo ep i = record {
    in_step =
        InStep-keep_zone dns f c (record l { next = l.next + 1 }) doc plain eo (omega (arith, ep))
          (InStep-next l i.in_step);
    later = omega (arith, i.later);
    fresh = λ g d hd. elim (lookup-insert_cases g f c d l.cache hd) [
      | inl (_, ec) ↦ rw (sym ec) (inr (omega (arith, ep, i.later)))
      | inr (_, old) ↦ i.fresh g d old
    ];
  }

  Loading-parsed :
      (f validator data_ : Text) (l m : Loaded)
      → has_suffix f (dot ∷ []) ≡ false
      → Loading l
      → store_parsed dns f validator data_ l ≡ done m
      → Loading m
  unfolding store_parsed parse_zone_content
  Loading-parsed f validator data_ l m undotted i h = elim (Bool-cases (has_prefix f file_prefix)) [
    | inr e ↦ absurd (ground (arith, e, h))
    | inl e ↦ elim (Option-cases (dns.parse (origin_of dns f) f data_)) [
      | inl e2 ↦ absurd (ground (arith, e, e2, h))
      | inr (rrs, e2) ↦
          let z : Zone = record {
            pointer = l.next;
            origin = origin_of dns f;
            records = index_records rrs [];
          } in
          let c : CachedZone = record { validator = validator; zone = z } in
          let same : keep_zone f c (record l { next = l.next + 1 }) ≡ m =
            done_inj (keep_zone f c (record l { next = l.next + 1 })) m
              (ground (arith, e, e2, h)) in
          let plain : IsPlain f = record { zone_file = e; undotted = undotted } in
          rw (sym same) (Loading-new f c l plain refl refl i)
    ]
  ]

  Loading-read :
      (f validator : Text) (body : Option Text) (l m : Loaded)
      → has_suffix f (dot ∷ []) ≡ false
      → Loading l
      → (or_failed body >>= λ data_. store_parsed dns f validator data_ l) ≡ done m
      → Loading m
  Loading-read f validator none l m undotted i h = cc
  Loading-read f validator (some data_) l m undotted i h =
      Loading-parsed f validator data_ l m undotted i h

  Loading-load_file :
      (e : DirEntry) (v : Text) (l m : Loaded)
      → has_suffix e.name (dot ∷ []) ≡ false
      → Loading l
      → load_file dns prev e v l ≡ done m
      → Loading m
  unfolding load_file
  Loading-load_file e v l m undotted i h = elim (Option-cases (lookup e.name prev)) [
    | inl e3 ↦ Loading-read e.name v e.content l m undotted i (rw (sym h, load_file, e3) refl)
    | inr (c, e3) ↦ elim (Bool-cases (c.validator == v)) [
      | inl e4 ↦
          let same = done_inj (keep_zone e.name c l) m (rw (sym h, load_file, e3, e4) refl) in
          rw (sym same) (Loading-reuse e.name c l e3 i)
      | inr e4 ↦ Loading-read e.name v e.content l m undotted i (rw (sym h, load_file, e3, e4) refl)
    ]
  ]

  Loading-load_entry :
      (e : DirEntry) (l m : Loaded)
      → has_suffix e.name (dot ∷ []) ≡ false
      → Loading l
      → load_entry dns prev e l ≡ done m
      → Loading m
  unfolding load_entry
  Loading-load_entry e l m undotted i h =
      elim (Bool-cases (e.is_dir || not (has_prefix e.name file_prefix))) [
        | inl skip ↦ rw (sym (done_inj l m (rw (sym h, load_entry, skip) refl))) i
        | inr read ↦
            let (v, _, hv) =
              bind_done (or_failed e.info) (λ v. load_file dns prev e v l) m
                (rw (sym h, load_entry, read) refl) in
            Loading-load_file e v l m undotted i hv
      ]

  Loading-load_entries :
      (es : List DirEntry) (l m : Loaded)
      → All (λ e. has_suffix e.name (dot ∷ []) ≡ false) es
      → Loading l
      → load_entries dns prev es l ≡ done m
      → Loading m
  unfolding load_entries
  Loading-load_entries [] l m plain i h = rw (sym (done_inj l m h)) i
  Loading-load_entries (e ∷ es) l m plain i h =
      let (k, ek, em) = bind_done (load_entry dns prev e l) (load_entries dns prev es) m h in
      Loading-load_entries es k m plain.1 (Loading-load_entry e l k plain.0 i ek) em

  Loading-fetch_zone_file :
      (server : Server) (f : Text) (l m : Loaded) (r : FileResponse)
      → server.get f (condition (lookup f prev)) ≡ r
      → has_suffix f (dot ∷ []) ≡ false
      → Loading l
      → fetch_zone_file dns server f (lookup f prev) l ≡ done m
      → Loading m
  unfolding fetch_zone_file
  Loading-fetch_zone_file server f l m unreachable er undotted i h =
      absurd (bad_result m (rw (sym h, fetch_zone_file, er) refl))
  Loading-fetch_zone_file server f l m bad_status er undotted i h =
      absurd (bad_result m (rw (sym h, fetch_zone_file, er) refl))
  Loading-fetch_zone_file server f l m (ok etag body) er undotted i h =
      Loading-read f etag body l m undotted i (rw (sym h, fetch_zone_file, er) refl)
  Loading-fetch_zone_file server f l m not_modified er undotted i h =
      elim (Option-cases (lookup f prev)) [
        | inl e ↦ absurd (nil_result m (rw (sym h, fetch_zone_file, er, e) refl))
        | inr (c, e) ↦
            let same = done_inj (keep_zone f c l) m (rw (sym h, fetch_zone_file, er, e) refl) in
            rw (sym same) (Loading-reuse f c l e i)
      ]

  Loading-fetch_one :
      (server : Server) (f : Text) (l m : Loaded)
      → has_suffix f (dot ∷ []) ≡ false
      → Loading l
      → fetch_one dns server prev f l ≡ done m
      → Loading m
  unfolding fetch_one
  Loading-fetch_one server f l m undotted i h = elim (Bool-cases (has_prefix f file_prefix)) [
    | inr e ↦ rw (sym (done_inj l m (rw (sym h, fetch_one, e) refl))) i
    | inl e ↦
        Loading-fetch_zone_file server f l m (server.get f (condition (lookup f prev))) refl
          undotted i (rw (sym h, fetch_one, e) refl)
  ]

  Loading-fetch_files :
      (server : Server) (names : List Text) (l m : Loaded)
      → All (λ n. has_suffix n (dot ∷ []) ≡ false) names
      → Loading l
      → fetch_files dns server prev names l ≡ done m
      → Loading m
  unfolding fetch_files
  Loading-fetch_files server [] l m plain i h = rw (sym (done_inj l m h)) i
  Loading-fetch_files server (f ∷ names) l m plain i h =
      let (k, ek, em) =
        bind_done (fetch_one dns server prev f l) (fetch_files dns server prev names) m h in
      Loading-fetch_files server names k m plain.1 (Loading-fetch_one server f l k plain.0 i ek) em

  Loading-empty : Loading (record { zones = []; cache = []; next = first })
  Loading-empty = record {
    in_step = record {
      once = tt;
      cached = λ f c h. absurd (ground (arith, h));
      served = λ f c h. absurd (ground (arith, h));
      from_file = λ o z h. absurd (ground (arith, h));
    };
    later = omega arith;
    fresh = λ f c h. absurd (ground (arith, h));
  }

  pub load-Loading :
      (s : Source) (m : Loaded) → IsUndotted s → load dns s prev first ≡ done m → Loading m
  unfolding load IsUndotted
  load-Loading (directory none) m u h = absurd (bad_result m h)
  load-Loading (directory (some es)) m u h =
      Loading-load_entries es (record { zones = []; cache = []; next = first }) m u Loading-empty h
  load-Loading (url server) m u h = elim (Option-cases server.filenames) [
    | inl e ↦ absurd (bad_result m (rw (sym h, load, e) refl))
    | inr (names, e) ↦
        Loading-fetch_files server names (record { zones = []; cache = []; next = first }) m
          (rw e at u) Loading-empty (rw (sym h, load, e) refl)
  ]
