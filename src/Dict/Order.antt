-- ===== src/Dict/Order.antt =====
-- The order of the entries: removal and lookup over a split dictionary, and its last entries.
use expert_sniper.Prelude.{
  ==_refl, ℕ, ◌-◌, Eq, ◌≡◌, refl, none, some, List, [], ◌∷◌, ◌++◌, arith, length, drop,
}
use expert_sniper.Dict.{Dict, get?, set, remove, move_to_end}
use expert_sniper.Dict.Laws.{get?-remove, Distinct}

-- The `n` newest entries.
abbrev pub last_n {ℓ} : {A : Type ℓ} → ℕ → List A → List A
last_n n l = drop (length l - n) l

pub drop-length-append {ℓ} : {A : Type ℓ} (xs ys : List A) → drop (length xs) (xs ++ ys) ≡ ys
drop-length-append [] ys = refl
drop-length-append (x ∷ xs) ys = drop-length-append xs ys

module _ {ℓ κ} {K : Type ℓ} {V : Type κ} ⦃e : Eq K⦄ where
  pub remove-append : (k : K) (c d : Dict K V) → remove k (c ++ d) ≡ remove k c ++ remove k d
  unfolding remove
  remove-append k [] d = refl
  remove-append k ((i, w) ∷ c) d = ground (arith, remove-append k c d)

  pub get?-append :
      (k : K) (c d : Dict K V)
      → get? k (c ++ d) ≡ elim (get? k c) [ none ↦ get? k d | some v ↦ some v ]
  unfolding get?
  get?-append k [] d = refl
  get?-append k ((i, w) ∷ c) d = ground (arith, get?-append k c d)

  -- A key of the newer part does not stand in the older part.
  pub get?-older :
      (k : K) (c d : Dict K V) (v : V) → Distinct (c ++ d) → get? k d ≡ some v → get? k c ≡ none
  unfolding get?
  get?-older k [] d v u h = refl
  get?-older k ((i, w) ∷ c) d v u h =
      ground (arith, get?-append i c d, get?-older k c d v u.1, e.same_iff i k)

  -- A key that is found or stored last stands at the end.
  abbrev pub touch : K → V → Dict K V → Dict K V
  touch k v d = remove k d ++ (k, v) ∷ []

  pub set_absent-touch : (k : K) (v : V) (d : Dict K V) → get? k d ≡ none → set k v d ≡ touch k v d
  unfolding get? set remove
  set_absent-touch k v [] h = refl
  set_absent-touch k v ((i, w) ∷ d) h = ground (arith, set_absent-touch k v d)

  set_last :
      (k : K) (v w : V) (d : Dict K V)
      → get? k d ≡ none
      → set k v (d ++ (k, w) ∷ []) ≡ d ++ (k, v) ∷ []
  unfolding get? set
  set_last k v w [] h = ground (arith, ==_refl k)
  set_last k v w ((i, x) ∷ d) h = ground (arith, set_last k v w d)

  pub move_to_end-touch :
      (k : K) (v : V) (d : Dict K V) → get? k d ≡ some v → move_to_end k d ≡ touch k v d
  unfolding move_to_end
  move_to_end-touch k v d h = rw (h, move_to_end)

  pub set-move_to_end :
      (k : K) (v w : V) (d : Dict K V) → get? k d ≡ some w → set k v (move_to_end k d) ≡ touch k v d
  set-move_to_end k v w d h =
      rw (move_to_end-touch k w d h)
        (set_last k v w (remove k d) (ground (arith, get?-remove k k d, ==_refl k)))
