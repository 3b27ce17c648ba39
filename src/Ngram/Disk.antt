-- ===== src/Ngram/Disk.antt =====
-- Both n-gram sources give the same rows.
use expert_sniper.Prelude.{
  ℕ, ◌+◌, ◌-◌, ◌*◌, ◌≤◌, ◌<◌, Option, some, List, [], ◌∷◌, map, take, drop, length, length-take,
  length-drop, nat_beq_iff, ◌≡◌, refl, ap, ◌∙◌, arith,
}
use expert_sniper.Prelude.Sorted.{AllBelow}
use expert_sniper.Prelude.Slices.{drop-drop, slice-take}
use expert_sniper.Ngram.{read_rows, disk_rows}
use expert_sniper.Ngram.Cut.{row}
use expert_sniper.Ngram.Exact.{read_rows-row}

pub row_end : (r rows rb : ℕ) → r < rows → r * rb + rb ≤ rows * rb
row_end r rows rb h =
    let k = rows - r - 1 in let p : rows ≡ r + 1 + k = omega (arith, h) in rw p (grind arith)

pub disk_rows-row :
    (table : List ℕ) (rb rows : ℕ) (ids : List ℕ)
    → rows * rb ≤ length table
    → AllBelow rows ids
    → disk_rows table rb ids ≡ some (map (λ r. take rb (drop (r * rb) table)) ids)
unfolding disk_rows
disk_rows-row table rb rows [] fits below = refl
disk_rows-row table rb rows (r ∷ ids) fits (here, below) =
    let size : length (take rb (drop (r * rb) table)) ≡ rb =
      length-take rb (drop (r * rb) table)
        (omega (arith, length-drop (r * rb) table, row_end r rows rb here, fits)) in
    let whole = (nat_beq_iff (length (take rb (drop (r * rb) table))) rb).1 size in
    rw (disk_rows, whole, disk_rows-row table rb rows ids fits below) refl

same_rows :
    (base rb rows : ℕ) (file ids : List ℕ)
    → AllBelow rows ids
    → map (λ r. take rb (drop (r * rb) (take (rows * rb) (drop base file)))) ids
      ≡ map (row base rb file) ids
same_rows base rb rows file [] below = refl
same_rows base rb rows file (r ∷ ids) (here, below) =
    let one : take rb (drop (r * rb) (take (rows * rb) (drop base file))) ≡ row base rb file r =
      slice-take (r * rb) rb (rows * rb) (drop base file) (row_end r rows rb here)
      ∙ ap (take rb) (drop-drop (r * rb) base file) in
    rw (one, same_rows base rb rows file ids below) refl

-- Suppose that range requests within the checkpoint answer with its bytes, that the table lies in the
-- checkpoint from `base` on, and that the disk holds a copy of the table. Then for ids of the table the
-- two sources answer the same rows, and neither fails.
pub disk_rows-eq-read_rows :
    (read_range : ℕ → ℕ → Option (List ℕ)) (base rb : ℕ) (file : List ℕ) (rows coalesce : ℕ)
    (ids : List ℕ)
    → 0 < rb
    → ((s e : ℕ) → s ≤ e → e < length file → read_range s e ≡ some (take (e + 1 - s) (drop s file)))
    → base + rows * rb ≤ length file
    → AllBelow rows ids
    → (out : List (List ℕ)) × (disk_rows (take (rows * rb) (drop base file)) rb ids ≡ some out)
      × (read_rows read_range base rb coalesce ids ≡ some out)
disk_rows-eq-read_rows read_range base rb file rows coalesce ids pos honest fits below =
    let table = take (rows * rb) (drop base file) in
    let size : length table ≡ rows * rb =
      length-take (rows * rb) (drop base file) (omega (arith, length-drop base file, fits)) in
    let from_disk = disk_rows-row table rb rows ids (omega (arith, size)) below in
    (
      map (row base rb file) ids,
      from_disk ∙ ap some (same_rows base rb rows file ids below),
      read_rows-row read_range base rb file pos honest rows fits coalesce ids below,
    )
