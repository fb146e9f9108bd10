-- ===== src/Tests/Pools.antt =====
-- Runs of the pool of endpoints.
use ipsupport_airllm.Base.{
  true, false, ◌≡◌, refl, Option, none, some, List, [], ◌∷◌, All, if◌then◌else◌,
}
use ipsupport_airllm.Base.Bytes.{Bytes, ascii, bytes_equal}
use ipsupport_airllm.Modelpool.{Endpoint, Pool, Net, pick, resolve, new_endpoint, is_seen}
use ipsupport_airllm.Modelpool.Picks.{Picks, pick-Picks}
use ipsupport_airllm.Modelpool.Resolves.{Distinct, Comes, resolve-Good}

abbrev full : Endpoint
full = record { base_url = ascii "http://a"; host = ascii "a"; max_conc = 1; sem = 1; inflight = 1 }

abbrev idle : Endpoint
idle = record { base_url = ascii "http://b"; host = ascii "b"; max_conc = 1; sem = 0; inflight = 0 }

abbrev pool : Pool
pool = record { eps = full ∷ idle ∷ []; rr = 1; resolved = true }

pick-Picks_example : Picks pool (pick pool)
pick-Picks_example = pick-Picks pool

skips_full : (pick pool).0 ≡ some 1
unfolding pick
skips_full = refl

abbrev bare : Net
bare = record {
  parse = λ raw. some (record { scheme = ascii "http"; hostname = raw; port = [] });
  is_ip = λ host. false;
  join_host_port = λ ip port. ip;
}

-- Of the hosts, only `b` resolves.
finds_b : Bytes → Option (List Bytes)
unfolding bytes_equal
finds_b host = if bytes_equal host (ascii "b") then some (ascii "b" ∷ []) else none

pool-Distinct : Distinct pool.eps
unfolding is_seen bytes_equal
pool-Distinct = (refl, (refl, tt))

resolve-Good_example :
    Distinct (resolve bare finds_b (ascii "b" ∷ ascii "a" ∷ []) 2 pool).eps
    × All
        (Comes bare finds_b pool.eps 2)
        (resolve bare finds_b (ascii "b" ∷ ascii "a" ∷ []) 2 pool).eps
resolve-Good_example = resolve-Good bare finds_b (ascii "b" ∷ ascii "a" ∷ []) 2 pool pool-Distinct

-- The cap of `b` has changed, and `a` is kept though it did not resolve.
resolved_eps :
    (resolve bare finds_b (ascii "b" ∷ ascii "a" ∷ []) 2 pool).eps
    ≡ new_endpoint (ascii "http://b") (ascii "b") 2 ∷ full ∷ []
unfolding resolve finds_b
resolved_eps = refl
