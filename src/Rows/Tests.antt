-- ===== src/Rows/Tests.antt =====
-- Lookups of a row source with a cache of two rows, and instances of its theorems.
use expert_sniper.Prelude.{
  ℕ, ◌*◌, Option, some, List, [], ◌∷◌, map, take, drop, pair_eq, nat_eq, ◌≡◌, refl, arith,
}
use expert_sniper.Dict.{get?, set, remove, move_to_end, pop_first}
use expert_sniper.Ngram.{disk_rows}
use expert_sniper.Ngram.Disk.{disk_rows-row}
use expert_sniper.Rows.{RowLru, find, drop_oldest, keep, look_up, miss_ids, fill, raw_rows}
use expert_sniper.Rows.Exact.{AllRows, raw_rows-row}
use expert_sniper.Rows.Bounded.{IsBounded, raw_rows-IsBounded}

program : Unit {0}
unfolding get? set remove move_to_end pop_first disk_rows find drop_oldest keep look_up miss_ids
    fill raw_rows
program = tt

-- Four rows of two bytes, the same in every shard.
abbrev shard_file : List ℕ
shard_file = 10 ∷ 11 ∷ 20 ∷ 21 ∷ 30 ∷ 31 ∷ 40 ∷ 41 ∷ []

abbrev from_disk : ℕ → List ℕ → Option (List (List ℕ))
from_disk shard ids = disk_rows shard_file 2 ids

abbrev table : ℕ → ℕ → List ℕ
table shard r = take 2 (drop (r * 2) shard_file)

abbrev one_cached : RowLru (List ℕ)
one_cached = record { max_rows = 2; entries = ((7, 1), 20 ∷ 21 ∷ []) ∷ []; hits = 0; misses = 0 }

abbrev after : RowLru (List ℕ)
after = record {
  max_rows = 2;
  entries = ((7, 0), 10 ∷ 11 ∷ []) ∷ ((7, 3), 40 ∷ 41 ∷ []) ∷ [];
  hits = 1;
  misses = 2;
}

-- Row 1 is a hit, and it leaves the cache when rows 0 and 3 have been read.
reads_two :
    raw_rows from_disk 7 (0 ∷ 1 ∷ 3 ∷ []) one_cached
    ≡ some ((10 ∷ 11 ∷ []) ∷ (20 ∷ 21 ∷ []) ∷ (40 ∷ 41 ∷ []) ∷ [], after)
unfolding program
reads_two = refl

raw_rows-row_example :
    (c' : RowLru (List ℕ)) × (raw_rows from_disk 7 (0 ∷ 1 ∷ 3 ∷ []) one_cached
      ≡ some (map (table 7) (0 ∷ 1 ∷ 3 ∷ []), c'))
    × AllRows table c'.entries
raw_rows-row_example =
    raw_rows-row table from_disk 4
      (λ s ids below. disk_rows-row shard_file 2 4 ids (omega arith) below) 7 (0 ∷ 1 ∷ 3 ∷ [])
      one_cached (omega arith, (omega arith, (omega arith, tt))) (refl, tt)

one_cached-IsBounded : IsBounded 2 one_cached
unfolding program
one_cached-IsBounded = record { distinct = (refl, tt); bounded = omega arith; limit = refl }

raw_rows-IsBounded_example : IsBounded 2 after
raw_rows-IsBounded_example =
    raw_rows-IsBounded 2 from_disk 7 (0 ∷ 1 ∷ 3 ∷ []) one_cached after
      ((10 ∷ 11 ∷ []) ∷ (20 ∷ 21 ∷ []) ∷ (40 ∷ 41 ∷ []) ∷ []) one_cached-IsBounded reads_two
