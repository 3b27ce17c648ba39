-- ===== src/Ngram/Tests.antt =====
-- A run of the coalesced reads, and an instance of their theorem.
use expert_sniper.Prelude.{
  ℕ, ◌+◌, ◌-◌, ◌*◌, Option, some, List, [], ◌∷◌, map, take, drop, ◌≡◌, refl, nat_eq, arith,
}
use expert_sniper.Prelude.Sorted.{insert, sorted}
use expert_sniper.Dict.{get?, set}
use expert_sniper.Ngram.{
  extend, ranges, last_start, store_all, fetch_all, find_row, find_rows, read_rows, disk_rows,
}
use expert_sniper.Ngram.Cut.{row}
use expert_sniper.Ngram.Disk.{disk_rows-eq-read_rows}
use expert_sniper.Ngram.Exact.{read_rows-row}

program : Unit {0}
unfolding insert sorted get? set extend ranges last_start store_all fetch_all find_row find_rows
    read_rows
program = tt

-- A header of one byte, and six rows of two bytes.
abbrev file : List ℕ
file = 0 ∷ 10 ∷ 11 ∷ 20 ∷ 21 ∷ 30 ∷ 31 ∷ 40 ∷ 41 ∷ 50 ∷ 51 ∷ 60 ∷ 61 ∷ []

abbrev from_file : ℕ → ℕ → Option (List ℕ)
from_file s e = some (take (e + 1 - s) (drop s file))

-- Rows 0 and 1 share a request, row 5 has its own.
two_requests : ranges 1 2 (sorted (5 ∷ 0 ∷ 1 ∷ [])) ≡ (0, 1) ∷ (5, 5) ∷ []
unfolding program
two_requests = refl

read_rows-row_example :
    read_rows from_file 1 2 1 (5 ∷ 0 ∷ 1 ∷ []) ≡ some (map (row 1 2 file) (5 ∷ 0 ∷ 1 ∷ []))
read_rows-row_example =
    read_rows-row from_file 1 2 file (omega arith) (λ s e p q. refl) 6 (omega arith) 1
      (5 ∷ 0 ∷ 1 ∷ []) (omega arith, (omega arith, (omega arith, tt)))

disk_rows-eq-read_rows_example :
    (out : List (List ℕ)) × (disk_rows (take (6 * 2) (drop 1 file)) 2 (5 ∷ 0 ∷ 1 ∷ []) ≡ some out)
    × (read_rows from_file 1 2 1 (5 ∷ 0 ∷ 1 ∷ []) ≡ some out)
disk_rows-eq-read_rows_example =
    disk_rows-eq-read_rows from_file 1 2 file 6 1 (5 ∷ 0 ∷ 1 ∷ []) (omega arith) (λ s e p q. refl)
      (omega arith) (omega arith, (omega arith, (omega arith, tt)))
