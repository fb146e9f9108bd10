-- ===== src/Limits/Buckets.antt =====
-- internal/limits/limits.go: the buckets of one key's hash, and their sums. A field is the bucket's stamp
-- in Unix seconds and its value a whole number: the decimal texts that Redis holds are not modelled, nor
-- a wrap-round of int64.
use ipsupport_airllm.Base.{
  ℕ, ◌+◌, ◌-◌, ◌*◌, ◌/◌, List, [], ◌∷◌, map, String, ltb, if◌then◌else◌, ◌==◌, nat_eq,
}
use ipsupport_airllm.Base.Clock.{Time, Duration, second, minute}
use ipsupport_airllm.Base.Dict.{Dict, delete}
use ipsupport_airllm.Base.Ints.{ℤ, pos, ◌+ℤ◌}

abbrev pub bucket_size : Duration
bucket_size = 5 * minute

pub record Window : Type 0 where
  pub name : String
  pub dur : Duration

abbrev pub windows : List Window
windows =
    record { name = "5h"; dur = 300 * minute }
    ∷ record { name = "24h"; dur = 1440 * minute }
    ∷ record { name = "7d"; dur = 10080 * minute }
    ∷ []

abbrev pub max_window : Duration
max_window = 10080 * minute

-- `t.Unix()`
abbrev pub unix : Time → ℕ
unix t = t / second

-- `BucketStamp`
unfoldable pub bucket_stamp : Time → ℕ
bucket_stamp t = unix t / 300 * 300

abbrev pub Hash : Type 0
Hash = Dict ℕ ℤ

-- HINCRBY: the field is raised where it stands, or made.
unfoldable pub incr_by : ℕ → ℤ → Hash → Hash
incr_by stamp n [] = (stamp, pos 0 +ℤ n) ∷ []
incr_by stamp n ((s, v) ∷ h) =
    let others = incr_by stamp n h in if stamp == s then (s, v +ℤ n) ∷ h else (s, v) ∷ others

-- The loop of `SumWindows` over the fields
unfoldable pub sum_from : ℕ → Hash → ℤ
sum_from cutoff [] = pos 0
sum_from cutoff ((s, v) ∷ h) =
    let others = sum_from cutoff h in if ltb s cutoff then others else v +ℤ others

unfoldable pub sum_window : Time → Window → Hash → ℤ
unfolding sum_from
sum_window now win h = sum_from (unix (now - win.dur)) h

-- `SumWindows`
unfoldable pub sum_windows : Time → Hash → Dict String ℤ
unfolding sum_window
sum_windows now h = map (λ win. (win.name, sum_window now win h)) windows

unfoldable pub expired_fields : ℕ → Hash → List ℕ
expired_fields cutoff [] = []
expired_fields cutoff ((s, v) ∷ h) =
    let others = expired_fields cutoff h in if ltb s cutoff then s ∷ others else others

-- HDEL of the fields
unfoldable pub delete_all : List ℕ → Hash → Hash
delete_all [] h = h
delete_all (s ∷ ss) h = delete_all ss (delete s h)

-- What `prune` does to one hash
unfoldable pub prune : Time → Hash → Hash
unfolding expired_fields delete_all
prune now h = delete_all (expired_fields (unix (now - (max_window + bucket_size))) h) h
