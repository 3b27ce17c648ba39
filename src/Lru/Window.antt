-- ===== src/Lru/Window.antt =====
-- The cache as a window on the history of uses: its entries are the newest of the history.
use expert_sniper.Prelude.{
  pair_eq, ℕ, ◌-◌, ◌≤◌, ◌<◌, ◌≡◌, refl, sym, none, some, [], ◌∷◌, ◌++◌, length, length-append,
  arith, pair_eq, ==_refl,
}
use mathlib.Core.List.{append_assoc}
use expert_sniper.Dict.{Dict, get?, set, remove}
use expert_sniper.Dict.Laws.{
  Distinct, get?-remove, remove_absent, length-remove, remove-Distinct, append_last-Distinct,
  length-set_new,
}
use expert_sniper.Dict.Order.{
  last_n, drop-length-append, remove-append, get?-older, touch, set_absent-touch,
}
use expert_sniper.Lru.{Key}

module _ {ℓ} {V : Type ℓ} where
  -- The entries of the cache are the newer part of the history, and the older part is empty unless
  -- the cache is full.
  pub record Splits (n : ℕ) (d h : Dict Key V) : Type ℓ where
    pub distinct : Distinct h
    pub bounded : length d ≤ n
    pub older : Dict Key V
    pub split : h ≡ older ++ d
    pub full : length d < n → older ≡ []

  touch-Distinct : (k : Key) (v : V) (h : Dict Key V) → Distinct h → Distinct (touch k v h)
  touch-Distinct k v h u =
      append_last-Distinct k v (remove k h) (remove-Distinct k h u)
        (ground (arith, get?-remove k k h, ==_refl k))

  last_n-append :
      (n : ℕ) (older d : Dict Key V)
      → length d ≤ n
      → (length d < n → older ≡ [])
      → last_n n (older ++ d) ≡ d
  last_n-append n [] d b f = let e : length d - n ≡ 0 = omega arith in rw e
  last_n-append n (x ∷ older) d b f =
      let e : length ((x ∷ older) ++ d) - n ≡ length (x ∷ older) =
        ground (arith, length-append (x ∷ older) d) in
      rw e (drop-length-append (x ∷ older) d)

  pub Splits-last_n : (n : ℕ) (d h : Dict Key V) → Splits n d h → last_n n h ≡ d
  Splits-last_n n d h s = rw s.split (last_n-append n s.older d s.bounded s.full)

  Distinct-newer : (c d : Dict Key V) → Distinct (c ++ d) → Distinct d
  Distinct-newer [] d u = u
  Distinct-newer (x ∷ c) d u = Distinct-newer c d u.1

  touch-append :
      (k : Key) (v : V) (c d : Dict Key V) → touch k v (c ++ d) ≡ remove k c ++ touch k v d
  touch-append k v c d = rw (remove-append k c d) (append_assoc (remove k c) (remove k d) _)

  length-touch :
      (k : Key) (v w : V) (d : Dict Key V)
      → Distinct d
      → get? k d ≡ some w
      → length (touch k v d) ≡ length d
  length-touch k v w d u h =
      omega (arith, length-append (remove k d) ((k, v) ∷ []), length-remove k d u w h)

  pub Splits-hit :
      (n : ℕ) (k : Key) (v w : V) (d h : Dict Key V)
      → get? k d ≡ some w
      → Splits n d h
      → Splits n (touch k v d) (touch k v h)
  Splits-hit n k v w d h found s =
      let u : Distinct (s.older ++ d) = rw s.split at s.distinct in
      let l : length (touch k v d) ≡ length d =
        length-touch k v w d (Distinct-newer s.older d u) found in
      record {
        distinct = touch-Distinct k v h s.distinct;
        bounded = omega (arith, s.bounded);
        older = s.older;
        split = rw (
          s.split,
          touch-append k v s.older d,
          remove_absent k s.older (get?-older k s.older d w u found),
        );
        full = λ p. s.full (omega arith);
      }

  pub Splits-free :
      (n : ℕ) (k : Key) (v : V) (d h : Dict Key V)
      → get? k d ≡ none
      → length d < n
      → Splits n d h
      → Splits n (set k v d) (touch k v h)
  Splits-free n k v d h absent free s = record {
    distinct = touch-Distinct k v h s.distinct;
    bounded = omega (arith, length-set_new k v d absent);
    older = [];
    split = rw (s.split, s.full free, set_absent-touch k v d absent);
    full = λ p. refl;
  }

  pub Splits-evict :
      (n : ℕ) (k : Key) (v : V) (x : Key × V) (d h : Dict Key V)
      → get? k (x ∷ d) ≡ none
      → n ≤ length (x ∷ d)
      → Splits n (x ∷ d) h
      → Splits n (set k v d) (touch k v h)
  Splits-evict n k v x d h absent full s =
      let absent' : get? k d ≡ none = unfold get? in ground arith in
      record {
        distinct = touch-Distinct k v h s.distinct;
        bounded = omega (arith, length-set_new k v d absent', s.bounded);
        older = remove k s.older ++ x ∷ [];
        split =
            rw
              (
                s.split,
                touch-append k v s.older (x ∷ d),
                remove_absent k (x ∷ d) absent,
                set_absent-touch k v d absent',
                remove_absent k d absent',
              )
              (sym (append_assoc (remove k s.older) (x ∷ []) _));
        full = λ p. absurd (omega (arith, length-set_new k v d absent'));
      }
