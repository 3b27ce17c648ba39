-- ===== src/Rows/Exact.antt =====
-- The row cache answers as the table does, and it stays within its bound.
use expert_sniper.Prelude.{
  ℕ, ◌+◌, Option, none, some, List, [], ◌∷◌, ◌++◌, map, pair_eq, nat_eq, ◌≡◌, refl, inl, inr, arith,
  Option-cases, List-cases, sym, ◌∙◌, ap,
}
use mathlib.Core.Path.{subst}
use expert_sniper.Prelude.Sorted.{AllBelow}
use expert_sniper.Dict.{Dict, get?, set, remove, move_to_end, pop_first}
use expert_sniper.Rows.{RowLru, find, drop_oldest, keep, look_up, miss_ids, fill, raw_rows}

module _ {ℓ} {V : Type ℓ} (table : ℕ → ℕ → V) where
  abbrev pub AllRows : Dict (ℕ × ℕ) V → Type ℓ
  AllRows [] = Unit
  AllRows (((s, r), v) ∷ d) = (v ≡ table s r) × AllRows d

  get?-AllRows :
      (s r : ℕ) (v : V) (d : Dict (ℕ × ℕ) V) → AllRows d → get? (s, r) d ≡ some v → v ≡ table s r
  unfolding get?
  get?-AllRows s r v [] all h = absurd cc
  get?-AllRows s r v (((t, q), w) ∷ d) all h =
      ground (arith, get?-AllRows s r v d all.1, pair_eq.same_iff (t, q) (s, r), all.0)

  set-AllRows :
      (s r : ℕ) (v : V) (d : Dict (ℕ × ℕ) V) → v ≡ table s r → AllRows d → AllRows (set (s, r) v d)
  unfolding set
  set-AllRows s r v [] e all = (e, tt)
  set-AllRows s r v (((t, q), w) ∷ d) e all =
      ground (arith, set-AllRows s r v d e all.1, pair_eq.same_iff (t, q) (s, r), all.0, all.1, e)

  remove-AllRows : (k : ℕ × ℕ) (d : Dict (ℕ × ℕ) V) → AllRows d → AllRows (remove k d)
  unfolding remove
  remove-AllRows k [] all = tt
  remove-AllRows k ((j, w) ∷ d) all = ground (arith, remove-AllRows k d all.1, all)

  append-AllRows :
      (s r : ℕ) (v : V) (d : Dict (ℕ × ℕ) V)
      → v ≡ table s r
      → AllRows d
      → AllRows (d ++ ((s, r), v) ∷ [])
  append-AllRows s r v [] e all = (e, tt)
  append-AllRows s r v (((t, q), w) ∷ d) e all = (all.0, append-AllRows s r v d e all.1)

  move_to_end-AllRows : (s r : ℕ) (d : Dict (ℕ × ℕ) V) → AllRows d → AllRows (move_to_end (s, r) d)
  unfolding move_to_end
  move_to_end-AllRows s r d all = elim (Option-cases (get? (s, r) d)) [
    | inl p ↦ rw (move_to_end, p) all
    | inr (v, p) ↦
        rw (move_to_end, p)
          (append-AllRows s r v (remove (s, r) d) (get?-AllRows s r v d all p)
            (remove-AllRows (s, r) d all))
  ]

  drop_oldest-AllRows : (d : Dict (ℕ × ℕ) V) → AllRows d → AllRows (drop_oldest d)
  unfolding drop_oldest pop_first
  drop_oldest-AllRows [] all = tt
  drop_oldest-AllRows (((s, r), v) ∷ d) all = all.1

  keep-AllRows :
      (s r : ℕ) (v : V) (c : RowLru V)
      → v ≡ table s r
      → AllRows c.entries
      → AllRows (keep (s, r) v c).entries
  unfolding keep
  keep-AllRows s r v c e all =
      let d = move_to_end (s, r) (set (s, r) v c.entries) in
      let good =
        move_to_end-AllRows s r (set (s, r) v c.entries) (set-AllRows s r v c.entries e all) in
      ground (arith, good, drop_oldest-AllRows d good)

  -- What the loop over the ids found: the cached rows are right, and the rest is asked for.
  abbrev AllFound : ℕ → List (ℕ × Option V) → Type ℓ
  AllFound s [] = Unit
  AllFound s ((r, none) ∷ raw) = AllFound s raw
  AllFound s ((r, some v) ∷ raw) = (v ≡ table s r) × AllFound s raw

  look_up-AllFound :
      (s : ℕ) (uniq : List ℕ) (c : RowLru V)
      → AllRows c.entries
      → AllFound s (look_up s uniq c).0
        × AllRows (look_up s uniq c).1.entries
        × (map (λ e. e.0) (look_up s uniq c).0 ≡ uniq)
  unfolding look_up find
  look_up-AllFound s [] c all = (tt, all, refl)
  look_up-AllFound s (r ∷ uniq) c all = elim (Option-cases (get? (s, r) c.entries)) [
    | inl p ↦
        let c1 : RowLru V = record c { misses = c.misses + 1 } in
        let (f, good, ids) = look_up-AllFound s uniq c1 all in
        rw (find, p) (f, good, ap (λ rs. r ∷ rs) ids)
    | inr (v, p) ↦
        let c1 : RowLru V = record c {
          entries = move_to_end (s, r) c.entries;
          hits = c.hits + 1;
        } in
        let (f, good, ids) = look_up-AllFound s uniq c1 (move_to_end-AllRows s r c.entries all) in
        let right = get?-AllRows s r v c.entries all p in
        rw (find, p) ((right, f), good, ap (λ rs. r ∷ rs) ids)
  ]

  fill-row :
      (s : ℕ) (raw : List (ℕ × Option V)) (c : RowLru V)
      → AllFound s raw
      → AllRows c.entries
      → (c' : RowLru V) × (fill s raw (map (table s) (miss_ids raw)) c
          ≡ some (map (table s) (map (λ e. e.0) raw), c'))
        × AllRows c'.entries
  unfolding fill miss_ids
  fill-row s [] c found all = (c, refl, all)
  fill-row s ((r, none) ∷ raw) c found all =
      let (c', q, good) =
        fill-row s raw (keep (s, r) (table s r) c) found
          (keep-AllRows s r (table s r) c refl all) in
      (c', rw q refl, good)
  fill-row s ((r, some v) ∷ raw) c (e, found) all =
      let (c', q, good) = fill-row s raw c found all in (c', rw (q, e) refl, good)

  miss_ids-AllBelow :
      (n : ℕ) (raw : List (ℕ × Option V))
      → AllBelow n (map (λ e. e.0) raw)
      → AllBelow n (miss_ids raw)
  unfolding miss_ids
  miss_ids-AllBelow n [] b = tt
  miss_ids-AllBelow n ((r, none) ∷ raw) (h, b) = (h, miss_ids-AllBelow n raw b)
  miss_ids-AllBelow n ((r, some v) ∷ raw) (h, b) = miss_ids-AllBelow n raw b

  -- When the reader answers a list of ids of the table with the rows of the table in their order, and every row in
  -- the cache is a row of the table: a lookup of ids of the table raises nothing, answers each of its ids with its row of
  -- the table, whatever of it was cached, and again leaves only rows of the table in the cache.
  pub raw_rows-row :
      (read_rows : ℕ → List ℕ → Option (List V)) (n : ℕ)
      (honest : (s : ℕ) (ids : List ℕ)
        → AllBelow n ids
        → read_rows s ids ≡ some (map (table s) ids))
      (s : ℕ) (uniq : List ℕ) (c : RowLru V)
      → AllBelow n uniq
      → AllRows c.entries
      → (c' : RowLru V) × (raw_rows read_rows s uniq c ≡ some (map (table s) uniq, c'))
        × AllRows c'.entries
  unfolding raw_rows
  raw_rows-row read_rows n honest s uniq c below all =
      let (found, kept, ids) = look_up-AllFound s uniq c all in
      let (c', q, good) = fill-row s (look_up s uniq c).0 (look_up s uniq c).1 found kept in
      let asked = miss_ids-AllBelow n (look_up s uniq c).0 (subst (AllBelow n) (sym ids) below) in
      let q' = q ∙ ap (λ x. some (map (table s) x, c')) ids in
      elim (List-cases (miss_ids (look_up s uniq c).0)) [
        | inl p ↦ (c', rw (raw_rows, p) (rw p at q'), good)
        | inr ((r, rs), p) ↦
            (c', rw (raw_rows, p, honest s (r ∷ rs) (rw p at asked)) (rw p at q'), good)
      ]
