-- ===== src/Prelude/Dicts.antt =====
-- Python's dictionaries, as lists of keys with their values, and what a lookup sees of a change. (The parent
-- passes the names on.)
use mathlib.Core.Path.{◌≡◌, refl}
use mathlib.Core.Option.{Option, none, some}
use mathlib.Core.List.{List, [], ◌∷◌}
use native.Mathlib.Omega.{arith}
use harmonist.Prelude.Tests.{if◌then◌else◌}
use harmonist.Prelude.Eq.{Compared, ◌==◌, beq_iff}

module _ {ℓ κ} {K : Type ℓ} {V : Type κ} ⦃e : Compared K⦄ where
  -- `d.get(k)`
  abbrev pub dict_get : List (K × V) → K → Option V
  dict_get [] k = none
  dict_get ((j, v) ∷ d) k = let rest = dict_get d k in if j == k then some v else rest

  -- `d[k] = v`
  abbrev pub dict_set : List (K × V) → K → V → List (K × V)
  dict_set [] k v = (k, v) ∷ []
  dict_set ((j, w) ∷ d) k v =
      let rest = dict_set d k v in if j == k then (j, v) ∷ d else (j, w) ∷ rest

  -- `d.pop(k, None)`
  abbrev pub dict_pop : List (K × V) → K → List (K × V)
  dict_pop [] k = []
  dict_pop ((j, v) ∷ d) k = let rest = dict_pop d k in if j == k then rest else (j, v) ∷ rest

  pub get-set :
      (d : List (K × V)) (k q : K) (v : V)
      → dict_get (dict_set d k v) q ≡ (if k == q then some v else dict_get d q)
  get-set [] k q v = refl
  get-set ((j, w) ∷ d) k q v =
      ground (arith, beq_iff j k, beq_iff j q, beq_iff k q, get-set d k q v)

  pub get-pop :
      (d : List (K × V)) (k q : K)
      → dict_get (dict_pop d k) q ≡ (if k == q then none else dict_get d q)
  get-pop [] k q = ground arith
  get-pop ((j, w) ∷ d) k q = ground (arith, beq_iff j k, beq_iff j q, beq_iff k q, get-pop d k q)
