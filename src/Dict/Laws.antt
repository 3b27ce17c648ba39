-- ===== src/Dict/Laws.antt =====
-- What a dictionary holds at each key after each operation, and that keys stay distinct.
use expert_sniper.Prelude.{
  ◌≤◌, ◌+◌, Eq, ◌==◌, ==_refl, ◌≡◌, refl, inl, inr, Option-cases, none, some, [], ◌∷◌, ◌++◌, arith,
  length, length-append, if◌then◌else◌,
}
use expert_sniper.Dict.{Dict, get?, set, remove, move_to_end}

module _ {ℓ κ} {K : Type ℓ} {V : Type κ} ⦃e : Eq K⦄ where
  abbrev pub Distinct : Dict K V → Type κ
  Distinct [] = Unit
  Distinct ((k, v) ∷ d) = (get? k d ≡ none) × Distinct d

  pub get?-set :
      (k j : K) (v : V) (d : Dict K V) → get? j (set k v d) ≡ (if k == j then some v else get? j d)
  unfolding get? set
  get?-set k j v [] = refl
  get?-set k j v ((i, w) ∷ d) =
      ground (arith, e.same_iff k j, e.same_iff i k, e.same_iff i j, get?-set k j v d)

  pub get?-remove :
      (k j : K) (d : Dict K V) → get? j (remove k d) ≡ (if k == j then none else get? j d)
  unfolding get? remove
  get?-remove k j [] = ground arith
  get?-remove k j ((i, w) ∷ d) =
      ground (arith, e.same_iff k j, e.same_iff i k, e.same_iff i j, get?-remove k j d)

  pub get?-append_last :
      (j k : K) (v : V) (d : Dict K V)
      → get? j (d ++ (k, v) ∷ [])
        ≡ elim (get? j d) [ none ↦ if k == j then some v else none | some w ↦ some w ]
  unfolding get?
  get?-append_last j k v [] = ground arith
  get?-append_last j k v ((i, w) ∷ d) = ground (arith, get?-append_last j k v d)

  pub get?-move_to_end : (k j : K) (d : Dict K V) → get? j (move_to_end k d) ≡ get? j d
  unfolding move_to_end
  get?-move_to_end k j d = elim (Option-cases (get? k d)) [
    | inl p ↦ ground arith
    | inr (v, p) ↦
        ground (arith, get?-append_last j k v (remove k d), get?-remove k j d, e.same_iff k j)
  ]

  pub remove_absent : (k : K) (d : Dict K V) → get? k d ≡ none → remove k d ≡ d
  unfolding get? remove
  remove_absent k [] h = refl
  remove_absent k ((i, w) ∷ d) h = ground (arith, remove_absent k d)

  pub length-remove :
      (k : K) (d : Dict K V)
      → Distinct d
      → (v : V) → get? k d ≡ some v
      → length (remove k d) + 1 ≡ length d
  unfolding get? remove
  length-remove k [] u v h = ground arith
  length-remove k ((i, w) ∷ d) u v h =
      ground (arith, e.same_iff i k, length-remove k d u.1 v, remove_absent k d)

  pub length-remove-le : (k : K) (d : Dict K V) → length (remove k d) ≤ length d
  unfolding remove
  length-remove-le k [] = omega arith
  length-remove-le k ((i, w) ∷ d) = ground (arith, length-remove-le k d)

  pub length-set_new :
      (k : K) (v : V) (d : Dict K V) → get? k d ≡ none → length (set k v d) ≡ length d + 1
  unfolding get? set
  length-set_new k v [] h = omega arith
  length-set_new k v ((i, w) ∷ d) h = ground (arith, length-set_new k v d)

  pub length-set_old :
      (k : K) (v : V) (d : Dict K V) (w : V) → get? k d ≡ some w → length (set k v d) ≡ length d
  unfolding get? set
  length-set_old k v [] w h = ground arith
  length-set_old k v ((i, x) ∷ d) w h = ground (arith, length-set_old k v d w)

  pub set-Distinct : (k : K) (v : V) (d : Dict K V) → Distinct d → Distinct (set k v d)
  unfolding get? set
  set-Distinct k v [] u = (refl, tt)
  set-Distinct k v ((i, w) ∷ d) u =
      ground (arith, get?-set k i v d, set-Distinct k v d u.1, e.same_iff i k, e.same_iff k i)

  pub remove-Distinct : (k : K) (d : Dict K V) → Distinct d → Distinct (remove k d)
  unfolding get? remove
  remove-Distinct k [] u = u
  remove-Distinct k ((i, w) ∷ d) u = ground (arith, get?-remove k i d, remove-Distinct k d u.1)

  pub append_last-Distinct :
      (k : K) (v : V) (d : Dict K V) → Distinct d → get? k d ≡ none → Distinct (d ++ (k, v) ∷ [])
  unfolding get?
  append_last-Distinct k v [] u h = (refl, tt)
  append_last-Distinct k v ((i, w) ∷ d) u h = ground (
    arith,
    get?-append_last i k v d,
    append_last-Distinct k v d u.1,
    e.same_iff i k,
    e.same_iff k i,
  )

  pub move_to_end-Distinct : (k : K) (d : Dict K V) → Distinct d → Distinct (move_to_end k d)
  unfolding move_to_end
  move_to_end-Distinct k d u = elim (Option-cases (get? k d)) [
    | inl p ↦ ground arith
    | inr (v, p) ↦ ground (
      arith,
      append_last-Distinct k v (remove k d) (remove-Distinct k d u),
      get?-remove k k d,
      ==_refl k,
    )
  ]

  pub length-move_to_end : (k : K) (d : Dict K V) → Distinct d → length (move_to_end k d) ≡ length d
  unfolding move_to_end
  length-move_to_end k d u = elim (Option-cases (get? k d)) [
    | inl p ↦ ground arith
    | inr (v, p) ↦ ground (arith, length-append (remove k d) ((k, v) ∷ []), length-remove k d u v p)
  ]
