-- ===== src/Rows/Bounded.antt =====
-- The row cache never holds more rows than it was made for.
use expert_sniper.Prelude.{
  ℕ, ◌+◌, ◌≤◌, Option, none, some, List, [], ◌∷◌, length, pair_eq, nat_eq, ◌≡◌, inl, inr, arith,
  Option-cases, List-cases, some-pair,
}
use mathlib.Core.Path.{subst}
use expert_sniper.Dict.{Dict, get?, set, move_to_end, pop_first}
use expert_sniper.Dict.Laws.{
  Distinct, set-Distinct, move_to_end-Distinct, length-move_to_end, length-set_new, length-set_old,
}
use expert_sniper.Rows.{RowLru, find, drop_oldest, keep, look_up, miss_ids, fill, raw_rows}

module _ {ℓ} {V : Type ℓ} (n : ℕ) where
  -- The keys are distinct, and there are at most `n` = `max_rows` of them.
  pub record IsBounded (c : RowLru V) : Type ℓ where
    pub distinct : Distinct c.entries
    pub bounded : length c.entries ≤ n
    pub limit : c.max_rows ≡ n

  drop_oldest-Distinct : (d : Dict (ℕ × ℕ) V) → Distinct d → Distinct (drop_oldest d)
  unfolding drop_oldest pop_first
  drop_oldest-Distinct [] u = u
  drop_oldest-Distinct (e ∷ d) u = u.1

  length-drop_oldest : (d : Dict (ℕ × ℕ) V) → length d ≤ n + 1 → length (drop_oldest d) ≤ n
  unfolding drop_oldest pop_first
  length-drop_oldest [] h = omega arith
  length-drop_oldest (e ∷ d) h = omega (arith, h)

  length-set-le : (k : ℕ × ℕ) (v : V) (d : Dict (ℕ × ℕ) V) → length (set k v d) ≤ length d + 1
  length-set-le k v d = elim (Option-cases (get? k d)) [
    | inl p ↦ omega (arith, length-set_new k v d p)
    | inr (w, p) ↦ omega (arith, length-set_old k v d w p)
  ]

  keep-IsBounded : (k : ℕ × ℕ) (v : V) (c : RowLru V) → IsBounded c → IsBounded (keep k v c)
  unfolding keep
  keep-IsBounded k v c h =
      let grown = set k v c.entries in
      let unique = set-Distinct k v c.entries h.distinct in
      let unique' = move_to_end-Distinct k grown unique in
      let size : length (move_to_end k grown) ≤ n + 1 =
        omega (arith, length-move_to_end k grown unique, length-set-le k v c.entries, h.bounded) in
      let popped = length-drop_oldest (move_to_end k grown) size in
      let distinct' = drop_oldest-Distinct (move_to_end k grown) unique' in
      record {
        distinct = ground (arith, unique', distinct');
        bounded = ground (arith, popped, h.limit);
        limit = h.limit;
      }

  find-IsBounded : (k : ℕ × ℕ) (c : RowLru V) → IsBounded c → IsBounded (find k c).1
  unfolding find
  find-IsBounded k c h = elim (Option-cases (get? k c.entries)) [
    | inl p ↦ rw (find, p) (record { distinct = h.distinct; bounded = h.bounded; limit = h.limit })
    | inr (v, p) ↦
        rw (find, p)
          (record {
            distinct = move_to_end-Distinct k c.entries h.distinct;
            bounded = omega (arith, length-move_to_end k c.entries h.distinct, h.bounded);
            limit = h.limit;
          })
  ]

  look_up-IsBounded :
      (s : ℕ) (uniq : List ℕ) (c : RowLru V) → IsBounded c → IsBounded (look_up s uniq c).1
  unfolding look_up
  look_up-IsBounded s [] c h = h
  look_up-IsBounded s (r ∷ uniq) c h =
      look_up-IsBounded s uniq (find (s, r) c).1 (find-IsBounded (s, r) c h)

  fill-IsBounded :
      (s : ℕ) (raw : List (ℕ × Option V)) (read : List V) (c c' : RowLru V) (out : List V)
      → IsBounded c
      → fill s raw read c ≡ some (out, c')
      → IsBounded c'
  unfolding fill
  fill-IsBounded s [] read c c' out h q = subst IsBounded (some-pair q).1 h
  fill-IsBounded s ((r, some v) ∷ raw) read c c' out h q = elim (Option-cases (fill s raw read c)) [
    | inl p ↦ absurd (let never = rw (fill, p) at q in cc)
    | inr ((rows, c1), p) ↦
        let ends : some (v ∷ rows, c1) ≡ some (out, c') = rw (fill, p) at q in
        subst IsBounded (some-pair ends).1 (fill-IsBounded s raw read c c1 rows h p)
  ]
  fill-IsBounded s ((r, none) ∷ raw) [] c c' out h q = absurd cc
  fill-IsBounded s ((r, none) ∷ raw) (v ∷ read) c c' out h q =
      elim (Option-cases (fill s raw read (keep (s, r) v c))) [
        | inl p ↦ absurd (let never = rw (fill, p) at q in cc)
        | inr ((rows, c1), p) ↦
            let ends : some (v ∷ rows, c1) ≡ some (out, c') = rw (fill, p) at q in
            subst IsBounded (some-pair ends).1
              (fill-IsBounded s raw read (keep (s, r) v c) c1 rows (keep-IsBounded (s, r) v c h) p)
      ]

  -- Whatever the reader answers: from a cache with distinct keys that holds at most the `max_rows`
  -- rows it was made for, a lookup that raises nothing leaves such a cache with the same `max_rows`.
  pub raw_rows-IsBounded :
      (read_rows : ℕ → List ℕ → Option (List V)) (s : ℕ) (uniq : List ℕ) (c c' : RowLru V)
      (out : List V)
      → IsBounded c
      → raw_rows read_rows s uniq c ≡ some (out, c')
      → IsBounded c'
  unfolding raw_rows
  raw_rows-IsBounded read_rows s uniq c c' out h q =
      let found = (look_up s uniq c).0 in
      let c1 = (look_up s uniq c).1 in
      let kept = look_up-IsBounded s uniq c h in
      elim (List-cases (miss_ids found)) [
        | inl p ↦ fill-IsBounded s found [] c1 c' out kept (rw (raw_rows, p) at q)
        | inr ((r, rs), p) ↦ elim (Option-cases (read_rows s (r ∷ rs))) [
          | inl e ↦ absurd (let never = rw (raw_rows, p, e) at q in cc)
          | inr (read, e) ↦ fill-IsBounded s found read c1 c' out kept (rw (raw_rows, p, e) at q)
        ]
      ]
