-- ===== src/Pricing/Installs.antt =====
-- What `Replace` leaves in the table.
use ipsupport_airllm.Base.{
  ℕ, ◌≡◌, refl, sym, ap, subst, All, Some, ◌∙◌, inl, inr, Bool-cases, Option, none, some, List, [],
  ◌∷◌, ◌==◌,
}
use ipsupport_airllm.Base.Bytes.{Bytes, bytes_eq, bytes_equal_iff}
use ipsupport_airllm.Pricing.{Price, Row, Table, new, build, written, fingerprint, replace, set}
use ipsupport_airllm.Pricing.Prints.{Fits, written-injective}

-- A change of the table: a poll's rows, or an administrator's price
pub data Change (F : Type 0) : Type 0 where
  replaced : List (Row F) → Change F
  set_price : Bytes → Bytes → Price F → Change F

module _ {F : Type 0} (bits : F → ℕ) (sha256 : Bytes → Bytes) where
  unfoldable pub change : Change F → Table F → Table F
  change (replaced rows) t = (replace bits sha256 rows t).1
  change (set_price provider model price) t = set provider model price t

  unfoldable pub changes : List (Change F) → Table F → Table F
  unfolding change
  changes [] t = t
  changes (c ∷ cs) t = changes cs (change c t)

  -- The rows that polls read, the latest first, before those read earlier
  abbrev pub given : List (List (Row F)) → List (Change F) → List (List (Row F))
  given log [] = log
  given log (replaced rows ∷ cs) = given (rows ∷ log) cs
  given log (set_price provider model price ∷ cs) = given log cs

  -- A fingerprint that is kept is that of rows which were read, and the prices are theirs.
  abbrev IsCurrent : List (List (Row F)) → Option Bytes → Table F → Type 0
  IsCurrent log none t = Unit
  IsCurrent log (some fp) t =
      Some (λ rows. (fingerprint bits sha256 rows ≡ fp) × (build [] rows ≡ t.prices)) log

  longer :
      (rows : List (Row F)) (log : List (List (Row F))) (o : Option Bytes) (t : Table F)
      → IsCurrent log o t
      → IsCurrent (rows ∷ log) o t
  longer rows log none t c = c
  longer rows log (some fp) t c = inr c

  replace-IsCurrent :
      (rows : List (Row F)) (log : List (List (Row F))) (o : Option Bytes) (t : Table F)
      → IsCurrent log o t
      → let t' = (replace bits sha256 rows (record t { fp = o })).1 in
        IsCurrent (rows ∷ log) t'.fp t'
  unfolding replace
  replace-IsCurrent rows log none t c = inl (refl, refl)
  replace-IsCurrent rows log (some old) t c =
      elim (Bool-cases (fingerprint bits sha256 rows == old)) [
        | inl same ↦ rw same (inr c)
        | inr differs ↦ rw differs (inl (refl, refl))
      ]

  changes-IsCurrent :
      (cs : List (Change F)) (log : List (List (Row F))) (t : Table F)
      → IsCurrent log t.fp t
      → IsCurrent (given log cs) (changes cs t).fp (changes cs t)
  unfolding changes set
  changes-IsCurrent [] log t c = c
  changes-IsCurrent (replaced rows ∷ cs) log t c =
      changes-IsCurrent cs (rows ∷ log) (replace bits sha256 rows t).1
        (replace-IsCurrent rows log t.fp t c)
  changes-IsCurrent (set_price provider model price ∷ cs) log t c =
      changes-IsCurrent cs log (set provider model price t) tt

  -- SHA-256 gives what is written of two lists of rows one digest only where it is the same.
  abbrev pub NoCollision : List (Row F) → List (Row F) → Type 0
  NoCollision rows rs =
      sha256 (written bits rs) ≡ sha256 (written bits rows) → written bits rs ≡ written bits rows

  abbrev TellsApart : List (Row F) → List (Row F) → Type 0
  TellsApart rows rs =
      fingerprint bits sha256 rs ≡ fingerprint bits sha256 rows → build [] rs ≡ build [] rows

  replace-prices :
      (rows : List (Row F)) (log : List (List (Row F))) (o : Option Bytes) (t : Table F)
      → All (TellsApart rows) log
      → IsCurrent log o t
      → (replace bits sha256 rows (record t { fp = o })).1.prices ≡ build [] rows
  unfolding replace
  replace-prices rows log none t apart c = refl
  replace-prices rows log (some old) t apart c =
      elim (Bool-cases (fingerprint bits sha256 rows == old)) [
        | inr differs ↦ rw differs refl
        | inl same ↦ rw same (
            found log apart (
              subst
                (λ fp.
                  Some (λ rs. (fingerprint bits sha256 rs ≡ fp) × (build [] rs ≡ t.prices)) log)
                (sym ((bytes_equal_iff (fingerprint bits sha256 rows) old).0 same)) c))
      ]
    where
      found :
          (log : List (List (Row F)))
          → All (TellsApart rows) log
          → Some
              (λ rs.
                (fingerprint bits sha256 rs ≡ fingerprint bits sha256 rows)
                × (build [] rs ≡ t.prices))
              log
          → t.prices ≡ build [] rows
      found [] apart h = absurd h
      found (rs ∷ log) apart (inl here) = sym here.1 ∙ apart.0 here.0
      found (rs ∷ log) apart (inr later) = found log apart.1 later

  apart :
      (tells : (x y : F) → bits x ≡ bits y → x ≡ y)
      → (rows : List (Row F)) (log : List (List (Row F))) → All (Fits bits) rows
      → All (All (Fits bits)) log
      → All (NoCollision rows) log
      → All (TellsApart rows) log
  unfolding fingerprint
  apart tells rows [] fits log_fits h = tt
  apart tells rows (rs ∷ log) fits log_fits h = (
    λ same. ap (build []) (written-injective bits tells rs rows log_fits.0 fits (h.0 same)),
    apart tells rows log fits log_fits.1 h.1,
  )

  -- After any changes, a poll leaves in the table just what it read, also when it leaves the table alone
  -- because the rows are those it installed last: a price set in between makes it install them again.
  -- This is of rows that hold values of the machine's sizes, for a `math.Float64bits` that tells two
  -- values apart and a SHA-256 without a collision between these rows and earlier ones, as they are
  -- written out.
  pub replace-changes :
      (tells : (x y : F) → bits x ≡ bits y → x ≡ y)
      → (cs : List (Change F)) (rows : List (Row F)) → All (Fits bits) rows
      → All (All (Fits bits)) (given [] cs)
      → All (NoCollision rows) (given [] cs)
      → (replace bits sha256 rows (changes cs new)).1.prices ≡ build [] rows
  replace-changes tells cs rows fits log_fits no_collision =
      let t = changes cs new in
      replace-prices rows (given [] cs) t.fp t
        (apart tells rows (given [] cs) fits log_fits no_collision) (changes-IsCurrent cs [] new tt)
