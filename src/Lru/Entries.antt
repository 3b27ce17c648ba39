-- ===== src/Lru/Entries.antt =====
-- A property of the entries of a cache, and its preservation.
use mathlib.Core.Path.{subst}
use expert_sniper.Prelude.{
  ℕ, some, [], ◌∷◌, ◌++◌, leb, length, ◌≡◌, sym, inl, inr, Option-cases, Bool-cases, pair_eq,
  nat_eq, arith,
}
use expert_sniper.Dict.{Dict, get?, set, remove, move_to_end, pop_first}
use expert_sniper.Lru.{Cache, Key, get, put, make_room, store_new, evict}
use expert_sniper.Prelude.Keys.{same_pair, same_pair_iff}

module _ {ℓ κ} {V : Type ℓ} (Fits : Key → V → Type κ) where
  -- Each entry has the property.
  abbrev pub Entries : Dict Key V → Type κ
  Entries [] = Unit
  Entries ((k, v) ∷ d) = Fits k v × Entries d

  pub get?-Entries :
      (l e : ℕ) (v : V) (d : Dict Key V) → Entries d → get? (l, e) d ≡ some v → Fits (l, e) v
  unfolding get?
  get?-Entries l e v [] a h = absurd cc
  get?-Entries l e v ((k, u) ∷ d) a h = elim (Bool-cases (same_pair k (l, e))) [
    | inl same ↦
        let q : k ≡ (l, e) = (same_pair_iff k (l, e)).0 same in
        let r : u ≡ v = let h' = rw same at h in cc in
        subst (λ j. Fits j v) q (subst (Fits k) r a.0)
    | inr other ↦ get?-Entries l e v d a.1 (rw other at h)
  ]

  pub set-Entries :
      (l e : ℕ) (v : V) (d : Dict Key V) → Entries d → Fits (l, e) v → Entries (set (l, e) v d)
  unfolding set
  set-Entries l e v [] a h = (h, tt)
  set-Entries l e v ((k, u) ∷ d) a h = elim (Bool-cases (same_pair k (l, e))) [
    | inl same ↦
        let q : k ≡ (l, e) = (same_pair_iff k (l, e)).0 same in
        rw same (subst (λ j. Fits j v) (sym q) h, a.1)
    | inr other ↦ rw other (a.0, set-Entries l e v d a.1 h)
  ]

  pub remove-Entries : (k : Key) (d : Dict Key V) → Entries d → Entries (remove k d)
  unfolding remove
  remove-Entries k [] a = tt
  remove-Entries k ((j, u) ∷ d) a = ground (arith, remove-Entries k d a.1)

  append_last-Entries :
      (l e : ℕ) (v : V) (d : Dict Key V)
      → Entries d
      → Fits (l, e) v
      → Entries (d ++ ((l, e), v) ∷ [])
  append_last-Entries l e v [] a h = (h, tt)
  append_last-Entries l e v ((j, u) ∷ d) a h = (a.0, append_last-Entries l e v d a.1 h)

  pub move_to_end-Entries : (l e : ℕ) (d : Dict Key V) → Entries d → Entries (move_to_end (l, e) d)
  unfolding move_to_end
  move_to_end-Entries l e d a = elim (Option-cases (get? (l, e) d)) [
    | inl p ↦ let q : move_to_end (l, e) d ≡ d = ground arith in subst Entries (sym q) a
    | inr (v, p) ↦
        let q : move_to_end (l, e) d ≡ remove (l, e) d ++ ((l, e), v) ∷ [] = ground arith in
        subst Entries (sym q) (
          append_last-Entries l e v (remove (l, e) d) (remove-Entries (l, e) d a)
            (get?-Entries l e v d a p))
  ]

  pop-Entries :
      (k : Key) (v : V) (d rest : Dict Key V)
      → pop_first d ≡ some ((k, v), rest)
      → Entries d
      → Entries rest
  unfolding pop_first
  pop-Entries k v [] rest p a = cc
  pop-Entries k v (x ∷ d) rest p a = let q : d ≡ rest = cc in subst Entries q a.1

  make_room-Entries : (c c' : Cache V) → make_room c ≡ some c' → Entries c.cache → Entries c'.cache
  unfolding make_room evict
  make_room-Entries c c' made a = elim (Bool-cases (leb c.max_experts (length c.cache))) [
    | inr room ↦ let q : c ≡ c' = ground arith in subst (λ (x : Cache V). Entries x.cache) q a
    | inl full ↦ elim (Option-cases (pop_first c.cache)) [
      | inl p ↦ ground arith
      | inr (((k, v), rest), p) ↦
          let q : evict c k rest ≡ c' = ground arith in
          subst (λ (x : Cache V). Entries x.cache) q (pop-Entries k v c.cache rest p a)
    ]
  ]

  pub put-Entries :
      (l e : ℕ) (v : V) (c c' : Cache V)
      → put l e v c ≡ some c'
      → Fits (l, e) v
      → Entries c.cache
      → Entries c'.cache
  unfolding put
  put-Entries l e v c c' made h a = elim (Option-cases (get? (l, e) c.cache)) [
    | inr (w, p) ↦
        let q : record c { cache = set (l, e) v (move_to_end (l, e) c.cache) } ≡ c' =
          ground arith in
        subst (λ (x : Cache V). Entries x.cache) q
          (set-Entries l e v (move_to_end (l, e) c.cache) (move_to_end-Entries l e c.cache a) h)
    | inl p ↦ elim (Option-cases (make_room c)) [
      | inl full ↦ ground arith
      | inr (c1, room) ↦
          let q : store_new l e v c1 ≡ c' = ground arith in
          subst (λ (x : Cache V). Entries x.cache) q
            (unfold store_new in set-Entries l e v c1.cache (make_room-Entries c c1 room a) h)
    ]
  ]

  pub get-Entries : (l e : ℕ) (c : Cache V) → Entries c.cache → Entries (get l e c).0.cache
  unfolding get
  get-Entries l e c a = elim (Option-cases (get? (l, e) c.cache)) [
    | inl p ↦ let q : (get l e c).0.cache ≡ c.cache = ground arith in subst Entries (sym q) a
    | inr (v, p) ↦
        let q : (get l e c).0.cache ≡ move_to_end (l, e) c.cache = ground arith in
        subst Entries (sym q) (move_to_end-Entries l e c.cache a)
  ]

  pub get-Fits :
      (l e : ℕ) (v : V) (c : Cache V) → Entries c.cache → (get l e c).1 ≡ some v → Fits (l, e) v
  unfolding get
  get-Fits l e v c a h = elim (Option-cases (get? (l, e) c.cache)) [
    | inl p ↦ ground arith
    | inr (w, p) ↦
        get?-Entries l e v (move_to_end (l, e) c.cache) (move_to_end-Entries l e c.cache a)
          (ground arith)
  ]
