-- ===== src/Login/Lockout.antt =====
-- When a username is locked out, and for how long.
use ipsupport_airllm.Base.{
  ℕ, suc, String, string_eq, ◌+◌, ◌<◌, ◌≡◌, subst, ◌∙◌, true, false, ◌&&◌, Option, none, some, List,
  [], ◌∷◌, All, length, ltb, leb, if◌then◌else◌, arith,
}
use ipsupport_airllm.Base.Clock.{Time}
use ipsupport_airllm.Base.Dict.{lookup, lookup-insert_self, lookup-delete_self}
use ipsupport_airllm.Login.{
  Access, LoginLimiter, login_lockout, login_max_attempts, live, count_of, locked, incremented,
  record_failed_login, record_login,
}

module _ (name : String) where
  -- Failed logins one after another, all of them counted.
  unfoldable pub failed_logins : List Access → LoginLimiter → LoginLimiter
  failed_logins [] l = l
  failed_logins (a ∷ accesses) l = failed_logins accesses (record_failed_login name a l)

  -- The counter holds `n` failures, and expires when the given time says.
  abbrev Holds : ℕ → Option Time → LoginLimiter → Type 0
  Holds n until l =
      (l.has_redis ≡ true) × (lookup name l.counters ≡ some (record { count = n; until = until }))

  -- An access that Redis answers before the expiry.
  abbrev pub Within : Option Time → Access → Type 0
  Within none a = a.answers ≡ true
  Within (some until) a = (a.answers ≡ true) × (a.now < until)

  record_failed_login-Holds :
      (n : ℕ) (until : Option Time) (a : Access) (l : LoginLimiter)
      → 0 < n
      → Within until a
      → Holds n until l
      → Holds (n + 1) until (record_failed_login name a l)
  unfolding record_failed_login
  record_failed_login-Holds n none a l pos h held = ground (
    arith,
    lookup-insert_self name (incremented name a (live a.now (lookup name l.counters))) l.counters,
  )
  record_failed_login-Holds n (some until) a l pos h held = ground (
    arith,
    lookup-insert_self name (incremented name a (live a.now (lookup name l.counters))) l.counters,
  )

  failed_logins-Holds :
      (n : ℕ) (until : Option Time) (accesses : List Access) (l : LoginLimiter)
      → 0 < n
      → All (Within until) accesses
      → Holds n until l
      → Holds (n + length accesses) until (failed_logins accesses l)
  unfolding failed_logins
  failed_logins-Holds n until [] l pos h held =
      let e : n ≡ n + 0 = omega arith in subst (λ m. Holds m until l) e held
  failed_logins-Holds n until (a ∷ accesses) l pos h held =
      let e : n + 1 + length accesses ≡ n + suc (length accesses) = omega arith in
      subst (λ m. Holds m until (failed_logins accesses (record_failed_login name a l))) e
        (failed_logins-Holds (n + 1) until accesses (record_failed_login name a l) (omega arith) h.1
          (record_failed_login-Holds n until a l pos h.0 held))

  -- The first failure.
  first-Holds :
      (a : Access) (l : LoginLimiter)
      → l.has_redis ≡ true
      → lookup name l.counters ≡ none
      → a.answers ≡ true
      → Holds 1
          (if a.expires then some (a.now + login_lockout) else none)
          (record_failed_login name a l)
  unfolding record_failed_login
  first-Holds a l redis fresh ok = ground (
    arith,
    lookup-insert_self name (incremented name a (live a.now (lookup name l.counters))) l.counters,
  )

  locked-Holds :
      (n : ℕ) (until : Option Time) (a : Access) (l : LoginLimiter)
      → a.answers ≡ true
      → Holds n until l
      → locked name a l ≡ (
          leb login_max_attempts
            (count_of (live a.now (some (record { count = n; until = until })))))
  unfolding locked
  locked-Holds n until a l ok held = ground arith

  failed_logins-Holds_after :
      (until : Option Time) (a : Access) (rest : List Access) (l : LoginLimiter)
      → Holds 1 until (record_failed_login name a l)
      → All (Within until) rest
      → Holds (1 + length rest) until (failed_logins (a ∷ rest) l)
  unfolding failed_logins
  failed_logins-Holds_after until a rest l first within =
      failed_logins-Holds 1 until rest (record_failed_login name a l) (omega arith) within first

  -- A name with no failures on record is locked out from its tenth failure in a row on, and only until
  -- the lockout time after the first of them is over, not after the tenth, when Redis counts them all
  -- within that time: a tenth failure late in that time locks the name out for what is left of it.
  pub locked-failed_logins :
      (a later : Access) (rest : List Access) (l : LoginLimiter)
      → l.has_redis ≡ true
      → lookup name l.counters ≡ none
      → a.answers ≡ true
      → a.expires ≡ true
      → All (Within (some (a.now + login_lockout))) rest
      → later.answers ≡ true
      → locked name later (failed_logins (a ∷ rest) l)
        ≡ (leb 10 (1 + length rest) && ltb later.now (a.now + login_lockout))
  locked-failed_logins a later rest l redis fresh ok expires within asks =
      let first =
        subst
          (λ b.
            Holds 1 (if b then some (a.now + login_lockout) else none)
              (record_failed_login name a l))
          expires (first-Holds a l redis fresh ok) in
      let told =
        locked-Holds (1 + length rest) (some (a.now + login_lockout)) later
          (failed_logins (a ∷ rest) l) asks
          (failed_logins-Holds_after (some (a.now + login_lockout)) a rest l first within) in
      told ∙ ground arith

  -- When the EXPIRE of the first failure gets no answer, the lockout has no end: from the tenth failure
  -- on, however far apart they are, the name is locked out at every later time.
  pub locked-unexpired :
      (a later : Access) (rest : List Access) (l : LoginLimiter)
      → l.has_redis ≡ true
      → lookup name l.counters ≡ none
      → a.answers ≡ true
      → a.expires ≡ false
      → All (Within none) rest
      → later.answers ≡ true
      → locked name later (failed_logins (a ∷ rest) l) ≡ leb 10 (1 + length rest)
  locked-unexpired a later rest l redis fresh ok unanswered within asks =
      let first =
        subst
          (λ b.
            Holds 1 (if b then some (a.now + login_lockout) else none)
              (record_failed_login name a l))
          unanswered (first-Holds a l redis fresh ok) in
      locked-Holds (1 + length rest) none later (failed_logins (a ∷ rest) l) asks
        (failed_logins-Holds_after none a rest l first within)

  -- A login that succeeds, and that Redis hears of, ends the lockout at once.
  pub locked-record_login :
      (a later : Access) (l : LoginLimiter)
      → a.answers ≡ true
      → locked name later (record_login name a l) ≡ false
  unfolding locked record_login
  locked-record_login a later l ok = ground (arith, lookup-delete_self name l.counters)
