-- ===== src/Modelpool/Resolves.antt =====
-- What `Resolve` makes of the endpoints.
use ipsupport_airllm.Base.{
  ℕ, ◌≡◌, refl, sym, subst, ◌∙◌, ◌⊎◌, inl, inr, Bool, true, false, ◌&&◌, Bool-cases, Option-cases,
  Option, none, some, List, [], ◌∷◌, ◌++◌, length, All, All-append, All-weaken, Some, nat_eqb,
  if◌then◌else◌, ◌==◌, arith,
}
use ipsupport_airllm.Base.Bytes.{Bytes, bytes_eq, bytes_equal_iff}
use ipsupport_airllm.Modelpool.{
  Endpoint, Pool, new_endpoint, Url, Net, by_url, is_seen, add, reuse, keep_host, base_of, add_ips,
  ips_of, resolve_url, resolve_urls, resolve,
}

-- No two endpoints have one URL.
abbrev pub Distinct : List Endpoint → Type 0
Distinct [] = Unit
Distinct (e ∷ es) = (is_seen e.base_url es ≡ false) × Distinct es

-- An endpoint of that URL with the cap
abbrev pub fits : Bytes → ℕ → Endpoint → Bool
fits url max_conc c = c.base_url == url && nat_eqb c.max_conc max_conc

module _ (net : Net) (look_up : Bytes → Option (List Bytes)) where
  -- A host that is no address and that does not resolve
  abbrev pub Unresolved : Bytes → Type 0
  Unresolved host = (net.is_ip host ≡ false) × ((look_up host ≡ none) ⊎ (look_up host ≡ some []))

  -- An endpoint that was in the pool, with its calls in flight: it has the cap, or its host does not
  -- resolve. Or a new one with the cap and no call, where the pool had none of its URL with the cap.
  abbrev pub Comes : List Endpoint → ℕ → Endpoint → Type 0
  Comes cur max_conc e =
      (Some (λ c. c ≡ e) cur × ((e.max_conc ≡ max_conc) ⊎ Unresolved e.host))
      ⊎ ((e.sem ≡ 0)
          × (e.inflight ≡ 0)
          × (e.max_conc ≡ max_conc)
          × All (λ c. fits e.base_url max_conc c ≡ false) cur)

  ips_of-Unresolved : (host : Bytes) → ips_of net look_up host ≡ none → Unresolved host
  unfolding ips_of
  ips_of-Unresolved host h = elim (Bool-cases (net.is_ip host)) [
    | inl address ↦ absurd (ground arith)
    | inr name ↦ (name, looked_up (look_up host) refl)
  ]
    where
      looked_up :
          (o : Option (List Bytes))
          → look_up host ≡ o
          → (look_up host ≡ none) ⊎ (look_up host ≡ some [])
      looked_up none e = inl e
      looked_up (some []) e = inr e
      looked_up (some (ip ∷ ips)) e = absurd (ground arith)

is_seen-append :
    (url : Bytes) (es : List Endpoint) (e : Endpoint)
    → is_seen url es ≡ false
    → (e.base_url == url) ≡ false
    → is_seen url (es ++ e ∷ []) ≡ false
unfolding is_seen
is_seen-append url [] e h differs = rw differs refl
is_seen-append url (x ∷ es) e h differs = elim (Bool-cases (x.base_url == url)) [
  | inl same ↦ absurd (ground arith)
  | inr other ↦ rw other (is_seen-append url es e (ground arith) differs)
]

unseen_other :
    (url : Bytes) (x : Endpoint) (es : List Endpoint)
    → is_seen url (x ∷ es) ≡ false
    → ((url == x.base_url) ≡ false) × (is_seen url es ≡ false)
unfolding is_seen
unseen_other url x es h =
    (ground (arith, bytes_equal_iff url x.base_url, bytes_equal_iff x.base_url url), ground arith)

Distinct-append :
    (es : List Endpoint) (e : Endpoint)
    → Distinct es
    → is_seen e.base_url es ≡ false
    → Distinct (es ++ e ∷ [])
unfolding is_seen
Distinct-append [] e d h = (refl, tt)
Distinct-append (x ∷ es) e d h =
    let (other, rest) = unseen_other e.base_url x es h in
    (is_seen-append x.base_url es e d.0 other, Distinct-append es e d.1 rest)

module _ (P : Endpoint → Type 0) where
  abbrev pub Good : List Endpoint → Type 0
  Good es = Distinct es × All P es

  add-Good : (e : Endpoint) (next : List Endpoint) → P e → Good next → Good (add e next)
  unfolding add
  add-Good e next p g = elim (Bool-cases (is_seen e.base_url next)) [
    | inl seen ↦ rw seen g
    | inr unseen ↦
        rw unseen (Distinct-append next e g.0 unseen, All-append P next (e ∷ []) g.1 (p, tt))
  ]

  keep_host-Good :
      (host : Bytes) (cur next : List Endpoint)
      → All (λ e. (e.host == host) ≡ true → P e) cur
      → Good next
      → Good (keep_host host cur next)
  unfolding keep_host
  keep_host-Good host [] next ps g = g
  keep_host-Good host (e ∷ cur) next ps g = elim (Bool-cases (e.host == host)) [
    | inl same ↦ rw same (keep_host-Good host cur (add e next) ps.1 (add-Good e next (ps.0 same) g))
    | inr other ↦ rw other (keep_host-Good host cur next ps.1 g)
  ]

by_url-Some :
    (url : Bytes) (cur : List Endpoint) (e : Endpoint)
    → by_url url cur ≡ some e
    → Some (λ c. c ≡ e) cur
unfolding by_url
by_url-Some url [] e h = absurd (ground arith)
by_url-Some url (c ∷ cur) e h = elim (Option-cases (by_url url cur)) [
  | inr (later, found) ↦ inr (by_url-Some url cur e (found ∙ ground arith))
  | inl absent ↦ inl (ground arith)
]

abbrev Differs : Bytes → Endpoint → Type 0
Differs url c = (c.base_url == url) ≡ false

is_seen-Differs : (url : Bytes) (es : List Endpoint) → is_seen url es ≡ false → All (Differs url) es
unfolding is_seen
is_seen-Differs url [] h = tt
is_seen-Differs url (e ∷ es) h = (ground arith, is_seen-Differs url es (ground arith))

by_url-Differs : (url : Bytes) (es : List Endpoint) → by_url url es ≡ none → All (Differs url) es
unfolding by_url
by_url-Differs url [] h = tt
by_url-Differs url (e ∷ es) h = elim (Option-cases (by_url url es)) [
  | inl absent ↦ (ground arith, by_url-Differs url es absent)
  | inr (later, found) ↦ absurd (ground arith)
]

by_url-absent : (url : Bytes) (es : List Endpoint) → All (Differs url) es → by_url url es ≡ none
unfolding by_url
by_url-absent url [] h = refl
by_url-absent url (e ∷ es) h = ground (arith, by_url-absent url es h.1, h.0)

-- In a pool of distinct URLs, the endpoint that is found is the only one of its URL.
found_other :
    (url : Bytes) (max_conc : ℕ) (es : List Endpoint) (e : Endpoint)
    → Distinct es
    → by_url url es ≡ some e
    → nat_eqb e.max_conc max_conc ≡ false
    → All (λ c. fits url max_conc c ≡ false) es
unfolding by_url
found_other url max_conc [] e d h cap = tt
found_other url max_conc (c ∷ es) e d h cap = elim (Bool-cases (c.base_url == url)) [
  | inr other ↦
      let found : by_url url es ≡ some e = elim (Option-cases (by_url url es)) [
        | inl absent ↦ absurd (ground arith)
        | inr (later, it) ↦ ground arith
      ] in
      (rw other refl, found_other url max_conc es e d.1 found cap)
  | inl same ↦
      let others : All (Differs url) es =
        subst (λ u. All (Differs u) es) ((bytes_equal_iff c.base_url url).0 same)
          (is_seen-Differs c.base_url es d.0) in
      let absent = by_url-absent url es others in
      let it : c ≡ e = ground arith in
      (
        rw same (subst (λ x. nat_eqb x.max_conc max_conc ≡ false) (sym it) cap),
        All-weaken (λ x differs. rw differs refl) es others,
      )
]

in_pool : (cur : List Endpoint) → All (λ e. Some (λ c. c ≡ e) cur) cur
in_pool [] = tt
in_pool (e ∷ cur) = (inl refl, All-weaken (λ x here. inr here) cur (in_pool cur))

module _ (net : Net) (look_up : Bytes → Option (List Bytes)) where
  reuse-Comes :
      (cur : List Endpoint) (base host : Bytes) (max_conc : ℕ)
      → Distinct cur
      → Comes net look_up cur max_conc (reuse cur base host max_conc)
  unfolding reuse new_endpoint
  reuse-Comes cur base host max_conc d = by_lookup (by_url base cur) refl
    where
      by_lookup :
          (o : Option Endpoint)
          → by_url base cur ≡ o
          → Comes net look_up cur max_conc (elim o as (λ _. Endpoint) [
            | none ↦ new_endpoint base host max_conc
            | some e ↦ if nat_eqb e.max_conc max_conc then e else new_endpoint base host max_conc
          ])
      by_lookup none h = inr (
        refl,
        refl,
        refl,
        All-weaken (λ x differs. rw differs refl) cur (by_url-Differs base cur h),
      )
      by_lookup (some e) h = elim (Bool-cases (nat_eqb e.max_conc max_conc)) [
        | inl same ↦ rw same (inl (by_url-Some base cur e h, inl (ground arith)))
        | inr other ↦ rw other (inr (refl, refl, refl, found_other base max_conc cur e d h other))
      ]

module _ (net : Net) (look_up : Bytes → Option (List Bytes)) (cur : List Endpoint) (max_conc : ℕ)
    (distinct : Distinct cur) where
  abbrev Fine : List Endpoint → Type 0
  Fine = Good (Comes net look_up cur max_conc)

  add_ips-Fine :
      (u : Url) (ips : List Bytes) (next : List Endpoint)
      → Fine next
      → Fine (add_ips net cur u max_conc ips next)
  unfolding add_ips
  add_ips-Fine u [] next g = g
  add_ips-Fine u (ip ∷ ips) next g =
      let e = reuse cur (base_of net u ip) u.hostname max_conc in
      add_ips-Fine u ips (add e next) (
        add-Good (Comes net look_up cur max_conc) e next
          (reuse-Comes net look_up cur (base_of net u ip) u.hostname max_conc distinct) g)

  resolve_url-Fine :
      (raw : Bytes) (next : List Endpoint)
      → Fine next
      → Fine (resolve_url net look_up cur max_conc raw next)
  unfolding resolve_url
  resolve_url-Fine raw next g = parsed (net.parse raw)
    where
      addressed :
          (u : Url) (o : Option (List Bytes))
          → ips_of net look_up u.hostname ≡ o
          → Fine (elim o as (λ _. List Endpoint) [
            | some ips ↦ add_ips net cur u max_conc ips next
            | none ↦ keep_host u.hostname cur next
          ])
      addressed u none h =
          keep_host-Good (Comes net look_up cur max_conc) u.hostname cur next
            (All-weaken
              (λ e here same. inl (
                here,
                inr (
                    subst (Unresolved net look_up)
                      (sym ((bytes_equal_iff e.host u.hostname).0 same))
                      (ips_of-Unresolved net look_up u.hostname h)),
              ))
              cur (in_pool cur))
            g
      addressed u (some ips) h = add_ips-Fine u ips next g

      parsed :
          (o : Option Url)
          → Fine (elim o as (λ _. List Endpoint) [
            | none ↦ next
            | some u ↦
                if nat_eqb (length u.hostname) 0
                then next
                else elim (ips_of net look_up u.hostname) as (λ _. List Endpoint) [
                  | some ips ↦ add_ips net cur u max_conc ips next
                  | none ↦ keep_host u.hostname cur next
                ]
          ])
      parsed none = g
      parsed (some u) = elim (Bool-cases (nat_eqb (length u.hostname) 0)) [
        | inl empty ↦ rw empty g
        | inr named ↦ rw named (addressed u (ips_of net look_up u.hostname) refl)
      ]

  resolve_urls-Fine :
      (urls : List Bytes) (next : List Endpoint)
      → Fine next
      → Fine (resolve_urls net look_up cur max_conc urls next)
  unfolding resolve_urls
  resolve_urls-Fine [] next g = g
  resolve_urls-Fine (raw ∷ urls) next g =
      resolve_urls-Fine urls (resolve_url net look_up cur max_conc raw next)
        (resolve_url-Fine raw next g)

-- After a resolution of a pool whose URLs are distinct, they still are, and each endpoint is one that was
-- in the pool, with the calls it has in flight, and that has the cap or a host that does not resolve;
-- or it is a new one with the cap and no call in flight, and the pool had none of its URL with the cap.
pub resolve-Good :
    (net : Net) (look_up : Bytes → Option (List Bytes)) (urls : List Bytes) (max_conc : ℕ)
    (p : Pool)
    → Distinct p.eps
    → Distinct (resolve net look_up urls max_conc p).eps
      × All (Comes net look_up p.eps max_conc) (resolve net look_up urls max_conc p).eps
unfolding resolve
resolve-Good net look_up urls max_conc p distinct =
    resolve_urls-Fine net look_up p.eps max_conc distinct urls [] (tt, tt)
