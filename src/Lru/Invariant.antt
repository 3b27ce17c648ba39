-- ===== src/Lru/Invariant.antt =====
-- The invariant of `LRUExpertCache` and its preservation by `get` and `put`.
use expert_sniper.Prelude.{
  ℕ, ◌≤◌, ◌<◌, true, not, ◌&&◌, ◌||◌, ◌≡◌, refl, inl, inr, Bool-cases, Option-cases, none, some,
  List, [], ◌∷◌, ◌++◌, length, nat_beq, leb, if◌then◌else◌, pair_eq, nat_eq, arith,
}
use expert_sniper.Dict.{Dict, pop_first, get?, contains, set, move_to_end}
use expert_sniper.Dict.Laws.{
  Distinct, get?-set, get?-move_to_end, set-Distinct, move_to_end-Distinct, length-set_new,
  length-set_old, length-move_to_end,
}
use expert_sniper.Lru.{
  Cache, Key, evict, member, add, discard, layer_ids, init, get, make_room, store_new, put,
}

pub record IsValid {ℓ} {V : Type ℓ} (c : Cache V) : Type ℓ where
  pub positive : 0 < c.max_experts
  pub bounded : length c.cache ≤ c.max_experts
  pub distinct : Distinct c.cache
  pub indexed : (l e : ℕ) → member e (layer_ids l c.by_layer) ≡ contains (l, e) c.cache

member-append_last : (e x : ℕ) (s : List ℕ) → member e (s ++ x ∷ []) ≡ (member e s || nat_beq x e)
member-append_last e x [] = ground arith
member-append_last e x (y ∷ s) = ground (arith, member-append_last e x s)

pub member-add : (e x : ℕ) (s : List ℕ) → member e (add x s) ≡ (nat_beq x e || member e s)
unfolding add
member-add e x s = ground (arith, member-append_last e x s)

pub member-discard :
    (e x : ℕ) (s : List ℕ) → member e (discard x s) ≡ (not (nat_beq x e) && member e s)
unfolding discard
member-discard e x [] = ground arith
member-discard e x (y ∷ s) = ground (arith, member-discard e x s)

layer_ids-set :
    (l m : ℕ) (s : List ℕ) (d : Dict ℕ (List ℕ))
    → layer_ids m (set l s d) ≡ (if nat_beq l m then s else layer_ids m d)
unfolding layer_ids
layer_ids-set l m s d = ground (arith, get?-set l m s d)

module _ {ℓ} {V : Type ℓ} where
  pub init-IsValid : (n : ℕ) → 0 < n → IsValid (init {V = V} n)
  unfolding init layer_ids get?
  init-IsValid n h = record {
    positive = h;
    bounded = omega arith;
    distinct = tt;
    indexed = λ l e. refl;
  }

  pub get-IsValid : (l e : ℕ) (c : Cache V) → IsValid c → IsValid (get l e c).0
  unfolding get
  get-IsValid l e c v = record {
    positive = ground (arith, v.positive);
    bounded = ground (arith, length-move_to_end (l, e) c.cache v.distinct);
    distinct = ground (arith, move_to_end-Distinct (l, e) c.cache v.distinct);
    indexed = λ m x. ground (arith, v.indexed m x, get?-move_to_end (l, e) (m, x) c.cache);
  }

  evict-IsValid :
      (c : Cache V) (k : Key) (w : V) (d : Dict Key V)
      → c.cache ≡ (k, w) ∷ d
      → IsValid c
      → IsValid (evict c k d)
  unfolding evict get?
  evict-IsValid c (l, e) w d p v = record {
    positive = v.positive;
    bounded = ground (arith, v.bounded);
    distinct = ground (arith, v.distinct);
    indexed = λ m x. ground (
      arith,
      v.indexed m x,
      v.distinct,
      layer_ids-set l m (discard e (layer_ids l c.by_layer)) c.by_layer,
      member-discard x e (layer_ids l c.by_layer),
    );
  }

  -- A valid cache makes room: `popitem` does not fail, the result is valid, has a free place and
  -- holds no key that the cache did not hold.
  pub record HasRoom (c c' : Cache V) : Type ℓ where
    pub valid : IsValid c'
    pub free : length c'.cache < c'.max_experts
    pub capacity : c'.max_experts ≡ c.max_experts
    pub still_absent : (k : Key) → get? k c.cache ≡ none → get? k c'.cache ≡ none

  evict-HasRoom :
      (c : Cache V) (d : Dict Key V)
      → c.cache ≡ d
      → leb c.max_experts (length c.cache) ≡ true
      → IsValid c
      → (c' : Cache V) × (elim (pop_first d) [
        | none ↦ none
        | some ((k, _), rest) ↦ some (evict c k rest)
      ]
          ≡ some c')
        × HasRoom c c'
  unfolding pop_first
  evict-HasRoom c [] p full v = absurd (ground (arith, v.positive))
  evict-HasRoom c ((k, w) ∷ d) p full v = (
    evict c k d,
    refl,
    record {
      valid = evict-IsValid c k w d p v;
      free = unfold evict in ground (arith, v.bounded);
      capacity = unfold evict in refl;
      still_absent = λ j h. unfold evict get? in ground arith;
    },
  )

  pub make_room-HasRoom :
      (c : Cache V) → IsValid c → (c' : Cache V) × (make_room c ≡ some c') × HasRoom c c'
  unfolding make_room
  make_room-HasRoom c v = elim (Bool-cases (leb c.max_experts (length c.cache))) [
    | inl full ↦ rw full (evict-HasRoom c c.cache refl full v)
    | inr room ↦ (
      c,
      rw room,
      record { valid = v; free = ground arith; capacity = refl; still_absent = λ k h. h },
    )
  ]

  store_new-IsValid :
      (l e : ℕ) (w : V) (c : Cache V)
      → get? (l, e) c.cache ≡ none
      → length c.cache < c.max_experts
      → IsValid c
      → IsValid (store_new l e w c)
  unfolding store_new
  store_new-IsValid l e w c h free v = record {
    positive = v.positive;
    bounded = omega (arith, length-set_new (l, e) w c.cache h);
    distinct = set-Distinct (l, e) w c.cache v.distinct;
    indexed = λ m x. ground (
      arith,
      v.indexed m x,
      layer_ids-set l m (add e (layer_ids l c.by_layer)) c.by_layer,
      member-add x e (layer_ids l c.by_layer),
      get?-set (l, e) (m, x) w c.cache,
    );
  }

  refresh-IsValid :
      (l e : ℕ) (w old : V) (c : Cache V)
      → get? (l, e) c.cache ≡ some old
      → IsValid c
      → IsValid (record c { cache = set (l, e) w (move_to_end (l, e) c.cache) })
  refresh-IsValid l e w old c h v = record {
    positive = v.positive;
    bounded = ground (
      arith,
      length-set_old (l, e) w (move_to_end (l, e) c.cache) old,
      get?-move_to_end (l, e) (l, e) c.cache,
      length-move_to_end (l, e) c.cache v.distinct,
      v.bounded,
    );
    distinct = set-Distinct (l, e) w _ (move_to_end-Distinct (l, e) c.cache v.distinct);
    indexed = λ m x. ground (
      arith,
      v.indexed m x,
      get?-set (l, e) (m, x) w (move_to_end (l, e) c.cache),
      get?-move_to_end (l, e) (m, x) c.cache,
    );
  }

  -- On a valid cache `put` never raises, and it keeps the cache valid.
  pub put-IsValid :
      (l e : ℕ) (w : V) (c : Cache V)
      → IsValid c
      → (c' : Cache V) × (put l e w c ≡ some c') × IsValid c'
  unfolding put
  put-IsValid l e w c v = elim (Option-cases (get? (l, e) c.cache)) [
    | inr (old, h) ↦ (_, ground arith, refresh-IsValid l e w old c h v)
    | inl h ↦
        let (c', made, r) = make_room-HasRoom c v in
        (
          store_new l e w c',
          ground arith,
          store_new-IsValid l e w c' (r.still_absent (l, e) h) r.free r.valid,
        )
  ]
