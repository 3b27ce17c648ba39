-- ===== src/Rows.antt =====
-- `RowLRU`, and the gathering of the raw rows in `rows` of `RowNGramSource`, of
-- src/mlx_expert_sniper/ngram_source.py. `_read_rows` of all kinds together is a parameter.
-- The counter `reads` is left out.
pub mod Exact
pub mod Bounded
mod Tests
use expert_sniper.Prelude.{
  ℕ, ◌+◌, ◌*◌, ltb, true, false, Option, none, some, List, [], ◌∷◌, length, if◌then◌else◌, pair_eq,
  nat_eq,
}
use expert_sniper.Dict.{Dict, get?, set, move_to_end, pop_first}

pub record RowLru {ℓ} (V : Type ℓ) : Type ℓ where
  pub max_rows : ℕ
  pub entries : Dict (ℕ × ℕ) V
  pub hits : ℕ
  pub misses : ℕ

module _ {ℓ} {V : Type ℓ} where
  unfoldable pub find : ℕ × ℕ → RowLru V → Option V × RowLru V
  find key c = elim (get? key c.entries) [
    | none ↦ (none, record c { misses = c.misses + 1 })
    | some v ↦ (some v, record c { entries = move_to_end key c.entries; hits = c.hits + 1 })
  ]

  -- `popitem(last=False)` of a dictionary that has just grown.
  unfoldable pub drop_oldest : Dict (ℕ × ℕ) V → Dict (ℕ × ℕ) V
  drop_oldest d = elim (pop_first d) [ none ↦ d | some (_, rest) ↦ rest ]

  unfoldable pub keep : ℕ × ℕ → V → RowLru V → RowLru V
  keep key v c =
      let d = move_to_end key (set key v c.entries) in
      record c { entries = if ltb c.max_rows (length d) then drop_oldest d else d }

  -- The loop over `uniq`: what the cache holds of each row.
  unfoldable pub look_up : ℕ → List ℕ → RowLru V → List (ℕ × Option V) × RowLru V
  look_up shard [] c = ([], c)
  look_up shard (r ∷ uniq) c =
      let (v, c1) = find (shard, r) c in let (raw, c2) = look_up shard uniq c1 in ((r, v) ∷ raw, c2)

  -- `miss_ids`
  unfoldable pub miss_ids : List (ℕ × Option V) → List ℕ
  miss_ids [] = []
  miss_ids ((r, none) ∷ raw) = r ∷ miss_ids raw
  miss_ids ((r, some v) ∷ raw) = miss_ids raw

  -- The loop over `missing`: each row that was read goes to its place and into the cache. `none` is
  -- the IndexError when fewer rows came than were asked for.
  unfoldable pub fill : ℕ → List (ℕ × Option V) → List V → RowLru V → Option (List V × RowLru V)
  fill shard [] read c = some ([], c)
  fill shard ((r, some v) ∷ raw) read c = elim (fill shard raw read c) [
    | none ↦ none
    | some (rows, c') ↦ some (v ∷ rows, c')
  ]
  fill shard ((r, none) ∷ raw) [] c = none
  fill shard ((r, none) ∷ raw) (v ∷ read) c = elim (fill shard raw read (keep (shard, r) v c)) [
    | none ↦ none
    | some (rows, c') ↦ some (v ∷ rows, c')
  ]

  -- The raw rows of the distinct ids of one lookup. `none` is an exception. Without a missing row
  -- nothing is read.
  unfoldable pub raw_rows :
      (ℕ → List ℕ → Option (List V)) → ℕ → List ℕ → RowLru V → Option (List V × RowLru V)
  raw_rows read_rows shard uniq c =
      let (raw, c1) = look_up shard uniq c in
      elim (miss_ids raw) [
        | [] ↦ fill shard raw [] c1
        | r ∷ ids ↦ elim (read_rows shard (r ∷ ids)) [
          | none ↦ none
          | some read ↦ fill shard raw read c1
        ]
      ]
