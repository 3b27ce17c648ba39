-- ===== src/Ngram.antt =====
-- `HFNGramSource` and `DiskNGramSource` of src/mlx_expert_sniper/ngram_source.py: the rows of one
-- lookup, by coalesced HTTP ranges or from the disk. The range request is a parameter.
pub mod Cut
pub mod Ranges
pub mod Exact
pub mod Disk
mod Tests
use expert_sniper.Prelude.{
  length, nat_beq, ℕ, zero, suc, ◌+◌, ◌-◌, ◌*◌, max, Bool, true, false, Option, none, some, List,
  [], ◌∷◌, take, drop, leb, nat_eq,
}
use expert_sniper.Prelude.Sorted.{sorted}
use expert_sniper.Dict.{Dict, get?, set}

-- (b, bytes): the last row of a range, and its bytes. The key in `blobs` is its first row.
abbrev pub Blob : Type 0
Blob = ℕ × List ℕ

module _ (coalesce rb : ℕ) where
  -- The loop over the sorted rows; (a, b) is `ranges[-1]`. The difference r - b - 1 is cut at 0,
  -- where Python's is -1 for a repeated row, and so within `coalesce` as well.
  unfoldable pub extend : ℕ → ℕ → List ℕ → List (ℕ × ℕ)
  extend a b [] = (a, b) ∷ []
  extend a b (r ∷ rs) = elim (leb ((r - b - 1) * rb) coalesce) [
    | true ↦ extend a (max b r) rs
    | false ↦ (a, b) ∷ extend r r rs
  ]

  unfoldable pub ranges : List ℕ → List (ℕ × ℕ)
  ranges [] = []
  ranges (r ∷ rs) = extend r r rs

-- `max(k for k in starts if k <= r)`; `none` is the ValueError where there is none.
unfoldable pub last_start : ℕ → Dict ℕ Blob → Option ℕ
last_start r [] = none
last_start r ((k, blob) ∷ d) =
    let later = last_start r d in
    elim (leb k r) [ false ↦ later | true ↦ elim later [ none ↦ some k | some m ↦ some (max k m) ] ]

-- The loop over the results: `blobs[a] = (b, bytes)`.
unfoldable pub store_all : List (ℕ × Blob) → Dict ℕ Blob → Dict ℕ Blob
store_all [] blobs = blobs
store_all ((a, blob) ∷ results) blobs = store_all results (set a blob blobs)

-- `read_range(shard, start, end)` gives the bytes from `start` to `end`, both included, or raises.
module _ (read_range : ℕ → ℕ → Option (List ℕ)) (base rb : ℕ) where
  -- `pool.map(fetch, ranges)`, in the order of the ranges
  unfoldable pub fetch_all : List (ℕ × ℕ) → Option (List (ℕ × Blob))
  fetch_all [] = some []
  fetch_all ((a, b) ∷ rgs) = elim (read_range (base + a * rb) (base + (b + 1) * rb - 1)) [
    | none ↦ none
    | some bytes ↦ elim (fetch_all rgs) [
      | none ↦ none
      | some results ↦ some ((a, (b, bytes)) ∷ results)
    ]
  ]

  -- The row `r` from the blob that starts at row `j`.
  abbrev pub row_of : ℕ → ℕ → Blob → List ℕ
  row_of r j (b, bytes) = take rb (drop ((r - j) * rb) bytes)

  unfoldable pub find_row : Dict ℕ Blob → ℕ → Option (List ℕ)
  find_row blobs r = elim (last_start r blobs) [
    | none ↦ none
    | some j ↦ elim (get? j blobs) [ none ↦ none | some blob ↦ some (row_of r j blob) ]
  ]

  unfoldable pub find_rows : Dict ℕ Blob → List ℕ → Option (List (List ℕ))
  find_rows blobs [] = some []
  find_rows blobs (r ∷ ids) = elim (find_row blobs r) [
    | none ↦ none
    | some row ↦ elim (find_rows blobs ids) [ none ↦ none | some rows ↦ some (row ∷ rows) ]
  ]

  -- `_read_rows`
  unfoldable pub read_rows : ℕ → List ℕ → Option (List (List ℕ))
  read_rows coalesce ids = elim (fetch_all (ranges coalesce rb (sorted ids))) [
    | none ↦ none
    | some results ↦ find_rows (store_all results []) ids
  ]

-- `_read_rows` of `DiskNGramSource`: row by row from the file of the tensor. `none` is the IOError for
-- a short row.
unfoldable pub disk_rows : List ℕ → ℕ → List ℕ → Option (List (List ℕ))
disk_rows file rb [] = some []
disk_rows file rb (r ∷ ids) = elim (nat_beq (length (take rb (drop (r * rb) file))) rb) [
  | false ↦ none
  | true ↦ elim (disk_rows file rb ids) [
    | none ↦ none
    | some rows ↦ some (take rb (drop (r * rb) file) ∷ rows)
  ]
]
