-- ===== src/Tests/Logins.antt =====
-- Runs of the login limiter.
use ipsupport_airllm.Base.{
  ℕ, string_eq, ◌+◌, ◌*◌, ◌≡◌, ◌<◌, refl, true, false, ◌&&◌, none, List, [], ◌∷◌, ltb, leb, arith,
}
use ipsupport_airllm.Base.Clock.{minute}
use ipsupport_airllm.Base.Dict.{lookup}
use ipsupport_airllm.Login.{Access, LoginLimiter, login_lockout, locked, record_login}
use ipsupport_airllm.Login.Lockout.{
  failed_logins, locked-failed_logins, locked-unexpired, locked-record_login,
}

abbrev at_minute : ℕ → Access
at_minute n = record { now = n * minute; answers = true; expires = true }

abbrev fresh : LoginLimiter
fresh = record { has_redis = true; counters = [] }

-- Nine more failures, at the given minute.
abbrev nine : ℕ → List Access
nine n =
    at_minute n
    ∷ at_minute n
    ∷ at_minute n
    ∷ at_minute n
    ∷ at_minute n
    ∷ at_minute n
    ∷ at_minute n
    ∷ at_minute n
    ∷ at_minute n
    ∷ []

fresh-none : lookup "root" fresh.counters ≡ none
unfolding lookup
fresh-none = refl

locked-failed_logins_example :
    locked "root" (at_minute 8) (failed_logins "root" (at_minute 1 ∷ nine 2) fresh)
    ≡ (leb 10 10 && ltb (8 * minute) (minute + login_lockout))
locked-failed_logins_example =
    let two : ((at_minute 2).answers ≡ true) × ((at_minute 2).now < minute + login_lockout) =
      (refl, omega arith) in
    locked-failed_logins "root" (at_minute 1) (at_minute 8) (nine 2) fresh refl fresh-none refl refl
      (two, (two, (two, (two, (two, (two, (two, (two, (two, tt))))))))) refl

abbrev unheard : Access
unheard = record (at_minute 1) { expires = false }

locked-unexpired_example :
    locked "root" (at_minute 999999) (failed_logins "root" (unheard ∷ nine 2000) fresh) ≡ leb 10 10
locked-unexpired_example =
    locked-unexpired "root" unheard (at_minute 999999) (nine 2000) fresh refl fresh-none refl refl
      (refl, (refl, (refl, (refl, (refl, (refl, (refl, (refl, (refl, tt))))))))) refl

locked-record_login_test :
    locked "root" (at_minute 3) (record_login "root" (at_minute 2) fresh) ≡ false
locked-record_login_test = locked-record_login "root" (at_minute 2) (at_minute 3) fresh refl
