-- ===== src/Dict.antt =====
-- Python's `dict` and `OrderedDict`: the entries in insertion order, the oldest first.
pub mod Laws
pub mod Order
use expert_sniper.Prelude.{
  Eq, ◌==◌, Bool, true, false, Option, none, some, List, [], ◌∷◌, ◌++◌, if◌then◌else◌,
}

abbrev pub Dict {ℓ κ} : Type ℓ → Type κ → Type (ℓ ⊔ κ)
Dict K V = List (K × V)

module _ {ℓ κ} {K : Type ℓ} {V : Type κ} where
  -- `d.popitem(last=False)`, which raises a KeyError (`none`) on an empty dictionary
  unfoldable pub pop_first : Dict K V → Option ((K × V) × Dict K V)
  pop_first [] = none
  pop_first (e ∷ d) = some (e, d)

module _ {ℓ κ} {K : Type ℓ} {V : Type κ} ⦃e : Eq K⦄ where
  -- `d.get(k)`
  unfoldable pub get? : K → Dict K V → Option V
  get? k [] = none
  get? k ((j, v) ∷ d) = if j == k then some v else get? k d

  -- `k in d`
  abbrev pub contains : K → Dict K V → Bool
  contains k d = elim (get? k d) [ none ↦ false | some _ ↦ true ]

  -- `d[k] = v`: an old key keeps its place, a new one goes to the end
  unfoldable pub set : K → V → Dict K V → Dict K V
  set k v [] = (k, v) ∷ []
  set k v ((j, w) ∷ d) = let rest = set k v d in if j == k then (j, v) ∷ d else (j, w) ∷ rest

  -- `d.pop(k, None)`, `del d[k]`
  unfoldable pub remove : K → Dict K V → Dict K V
  remove k [] = []
  remove k ((j, v) ∷ d) = let rest = remove k d in if j == k then rest else (j, v) ∷ rest

  -- `d.move_to_end(k)`; every call in the program has just found or stored `k`
  unfoldable pub move_to_end : K → Dict K V → Dict K V
  move_to_end k d = elim (get? k d) [ none ↦ d | some v ↦ remove k d ++ (k, v) ∷ [] ]
