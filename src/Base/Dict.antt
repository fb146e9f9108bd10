-- ===== src/Base/Dict.antt =====
-- A Go map as an association list with one entry for each key.
use mathlib.Core.Path.{◌≡◌}
use mathlib.Core.Option.{Option, none, some}
use mathlib.Core.List.{List, [], ◌∷◌}
use native.Mathlib.Omega.{arith}
use ipsupport_airllm.Base.Tests.{if◌then◌else◌}
use ipsupport_airllm.Base.Keys.{Eq, ◌==◌}

abbrev pub Dict {ℓ κ} : Type ℓ → Type κ → Type (ℓ ⊔ κ)
Dict K V = List (K × V)

module _ {ℓ κ} {K : Type ℓ} {V : Type κ} ⦃e : Eq K⦄ where
  -- `delete(m, k)`
  unfoldable pub delete : K → Dict K V → Dict K V
  delete key [] = []
  delete key ((k, v) ∷ d) =
      let others = delete key d in if key == k then others else (k, v) ∷ others

  -- `m[k] = v`: the entry of the key is replaced where it stands, or put last.
  unfoldable pub insert : K → V → Dict K V → Dict K V
  insert key value [] = (key, value) ∷ []
  insert key value ((k, v) ∷ d) =
      let others = insert key value d in if key == k then (key, value) ∷ d else (k, v) ∷ others

  -- `m[k]` with its `ok`
  unfoldable pub lookup : K → Dict K V → Option V
  lookup key [] = none
  lookup key ((k, v) ∷ d) = let later = lookup key d in if key == k then some v else later

  pub lookup-delete :
      (key other : K) (d : Dict K V)
      → lookup other (delete key d) ≡ (if key == other then none else lookup other d)
  unfolding lookup delete
  lookup-delete key other [] = ground arith
  lookup-delete key other ((k, v) ∷ d) = ground (
    arith,
    lookup-delete key other d,
    e.equal_iff key k,
    e.equal_iff other k,
    e.equal_iff key other,
  )

  pub lookup-delete_self : (key : K) (d : Dict K V) → lookup key (delete key d) ≡ none
  lookup-delete_self key d = ground (arith, lookup-delete key key d, e.equal_iff key key)

  pub lookup-insert :
      (key other : K) (value : V) (d : Dict K V)
      → lookup other (insert key value d) ≡ (if key == other then some value else lookup other d)
  unfolding lookup insert
  lookup-insert key other value [] = ground (arith, e.equal_iff key other, e.equal_iff other key)
  lookup-insert key other value ((k, v) ∷ d) = ground (
    arith,
    lookup-insert key other value d,
    e.equal_iff key k,
    e.equal_iff other k,
    e.equal_iff key other,
    e.equal_iff other key,
  )

  pub lookup-insert_self :
      (key : K) (value : V) (d : Dict K V) → lookup key (insert key value d) ≡ some value
  lookup-insert_self key value d =
      ground (arith, lookup-insert key key value d, e.equal_iff key key)
