-- ===== src/Modelpool.antt =====
-- internal/modelpool/pool.go: the endpoints that a hostname resolves to, and which of them scans a text.
-- What Go's library does with URLs and addresses is a parameter, `Net`, and the resolver is too. An
-- endpoint is told by its URL, of which a pool has one; `Inflight` and `Start` only read or call these.
pub mod Picks
pub mod Resolves
use ipsupport_airllm.Base.{
  ℕ, zero, suc, ◌+◌, ◌-◌, ◌%◌, ◌^◌, Bool, true, false, ◌&&◌, ◌||◌, not, Option, none, some, List,
  [], ◌∷◌, ◌++◌, length, ltb, nat_eqb, if◌then◌else◌, ◌==◌,
}
use ipsupport_airllm.Base.Bytes.{Bytes, ascii, bytes_eq}

-- `sem` is the number of elements of the channel; there is no channel when `max_conc` is 0.
pub record Endpoint : Type 0 where
  pub base_url : Bytes
  pub host : Bytes
  pub max_conc : ℕ
  pub sem : ℕ
  pub inflight : ℕ

unfoldable pub new_endpoint : Bytes → Bytes → ℕ → Endpoint
new_endpoint base_url host max_conc = record {
  base_url = base_url;
  host = host;
  max_conc = max_conc;
  sem = 0;
  inflight = 0;
}

unfoldable pub acquire : Endpoint → Option Endpoint
acquire e =
    if nat_eqb e.max_conc 0
    then some (record e { inflight = e.inflight + 1 })
    else if ltb e.sem e.max_conc
    then some (record e { sem = e.sem + 1; inflight = e.inflight + 1 })
    else none

unfoldable pub release : Endpoint → Endpoint
release e =
    if nat_eqb e.max_conc 0
    then record e { inflight = e.inflight - 1 }
    else record e { sem = e.sem - 1; inflight = e.inflight - 1 }

pub record Pool : Type 0 where
  pub eps : List Endpoint
  pub rr : ℕ
  pub resolved : Bool

abbrev pub new : Pool
new = record { eps = []; rr = 0; resolved = false }

unfoldable pub nth : ℕ → List Endpoint → Option Endpoint
nth n [] = none
nth zero (e ∷ es) = some e
nth (suc n) (e ∷ es) = nth n es

unfoldable pub put_nth : ℕ → Endpoint → List Endpoint → List Endpoint
put_nth n x [] = []
put_nth zero x (e ∷ es) = x ∷ es
put_nth (suc n) x (e ∷ es) = e ∷ put_nth n x es

-- The loop of `pick` from `i` on, with so many turns left: the index that was taken, and the endpoints
unfoldable pub pick_from : ℕ → ℕ → ℕ → List Endpoint → Option (ℕ × List Endpoint)
unfolding acquire nth put_nth
pick_from zero start i eps = none
pick_from (suc left) start i eps =
    let at = (start + i) % length eps in
    let later = pick_from left start (i + 1) eps in
    elim (nth at eps) [
      | none ↦ none
      | some e ↦ elim (acquire e) [ none ↦ later | some e' ↦ some (at, put_nth at e' eps) ]
    ]

unfoldable pub pick : Pool → Option ℕ × Pool
unfolding pick_from
pick p =
    let rr = (p.rr + 1) % 2 ^ 64 in
    let n = length p.eps in
    if nat_eqb n 0 then (none, p) else elim (pick_from n (rr % n) 0 p.eps) [
      | none ↦ (none, record p { rr = rr })
      | some (at, eps) ↦ (some at, record p { rr = rr; eps = eps })
    ]

pub record Url : Type 0 where
  pub scheme : Bytes
  pub hostname : Bytes
  pub port : Bytes

pub record Net : Type 0 where
  -- `url.Parse`
  pub parse : Bytes → Option Url
  -- `net.ParseIP(host) != nil`
  pub is_ip : Bytes → Bool
  -- `net.JoinHostPort`
  pub join_host_port : Bytes → Bytes → Bytes

-- `strings.Contains(ip, ":")`
unfoldable pub has_colon : Bytes → Bool
has_colon [] = false
has_colon (c ∷ s) = let rest = has_colon s in if nat_eqb c 58 then true else rest

-- `byURL`: the last of the endpoints with that URL
unfoldable pub by_url : Bytes → List Endpoint → Option Endpoint
by_url url [] = none
by_url url (e ∷ es) = elim (by_url url es) [
  | some later ↦ some later
  | none ↦ if e.base_url == url then some e else none
]

-- `add`: `seen` holds the URLs of `next`.
unfoldable pub is_seen : Bytes → List Endpoint → Bool
is_seen url [] = false
is_seen url (e ∷ es) = let rest = is_seen url es in if e.base_url == url then true else rest

unfoldable pub add : Endpoint → List Endpoint → List Endpoint
unfolding is_seen
add e next = if is_seen e.base_url next then next else next ++ e ∷ []

-- The endpoint of the URL with its calls in flight, if its cap is the same
unfoldable pub reuse : List Endpoint → Bytes → Bytes → ℕ → Endpoint
unfolding by_url new_endpoint
reuse cur base host max_conc = elim (by_url base cur) [
  | none ↦ new_endpoint base host max_conc
  | some e ↦ if nat_eqb e.max_conc max_conc then e else new_endpoint base host max_conc
]

-- The last-good endpoints of a host
unfoldable pub keep_host : Bytes → List Endpoint → List Endpoint → List Endpoint
unfolding add
keep_host host [] next = next
keep_host host (e ∷ cur) next = keep_host host cur (if e.host == host then add e next else next)

module _ (net : Net) where
  unfoldable pub base_of : Url → Bytes → Bytes
  unfolding has_colon
  base_of u ip =
      u.scheme
      ++ ascii "://"
      ++ (if not (nat_eqb (length u.port) 0)
          then net.join_host_port ip u.port
          else if has_colon ip
          then ascii "[" ++ ip ++ ascii "]"
          else ip)

  unfoldable pub add_ips : List Endpoint → Url → ℕ → List Bytes → List Endpoint → List Endpoint
  unfolding add reuse base_of
  add_ips cur u max_conc [] next = next
  add_ips cur u max_conc (ip ∷ ips) next =
      add_ips cur u max_conc ips (add (reuse cur (base_of u ip) u.hostname max_conc) next)

  module _ (look_up : Bytes → Option (List Bytes)) where
    -- The addresses of a host, none if it is to keep its last-good endpoints
    unfoldable pub ips_of : Bytes → Option (List Bytes)
    ips_of host = if net.is_ip host then some (host ∷ []) else elim (look_up host) [
      | none ↦ none
      | some [] ↦ none
      | some (ip ∷ ips) ↦ some (ip ∷ ips)
    ]

    unfoldable pub resolve_url : List Endpoint → ℕ → Bytes → List Endpoint → List Endpoint
    unfolding ips_of add_ips keep_host
    resolve_url cur max_conc raw next = elim (net.parse raw) [
      | none ↦ next
      | some u ↦ if nat_eqb (length u.hostname) 0 then next else elim (ips_of u.hostname) [
        | some ips ↦ add_ips cur u max_conc ips next
        | none ↦ keep_host u.hostname cur next
      ]
    ]

    unfoldable pub resolve_urls : List Endpoint → ℕ → List Bytes → List Endpoint → List Endpoint
    unfolding resolve_url
    resolve_urls cur max_conc [] next = next
    resolve_urls cur max_conc (raw ∷ urls) next =
        resolve_urls cur max_conc urls (resolve_url cur max_conc raw next)

    unfoldable pub resolve : List Bytes → ℕ → Pool → Pool
    unfolding resolve_urls
    resolve urls max_conc p = record p {
      eps = resolve_urls p.eps max_conc urls [];
      resolved = true;
    }
