-- ===== src/Ngram/Cut.antt =====
-- Cutting one row out of the bytes of several, as `HFNGramSource` does.

use expert_sniper.Prelude.Slices.{drop-drop, drop-take}
use expert_sniper.Prelude.{
  ℕ, ◌+◌, ◌-◌, ◌*◌, ◌<◌, List, take, drop, nat_eq, ◌≡◌, ap, ◌∙◌, arith, take-take,
}

size :
    (base rb s d g : ℕ)
    → 0 < rb
    → base + (s + d + g + 1) * rb - 1 + 1 - (base + s * rb) ≡ d * rb + (g + 1) * rb
size base rb s d g h = grind arith

module _ (base rb : ℕ) (file : List ℕ) where
  -- Row `r` of the table.
  abbrev pub row : ℕ → List ℕ
  row r = take rb (drop (base + r * rb) file)

  -- What a request for the rows `s` to `t` gives.
  abbrev pub rows_between : ℕ → ℕ → List ℕ
  rows_between s t =
      take (base + (t + 1) * rb - 1 + 1 - (base + s * rb)) (drop (base + s * rb) file)

  pub row-rows_between :
      (s d g : ℕ) → 0 < rb → take rb (drop (d * rb) (rows_between s (s + d + g))) ≡ row (s + d)
  row-rows_between s d g h =
      let start : base + (s + d) * rb ≡ base + s * rb + d * rb = grind arith in
      rw
        (size base rb s d g h, start, drop-take (d * rb) ((g + 1) * rb) (drop (base + s * rb) file))
        (take-take rb ((g + 1) * rb) (drop (d * rb) (drop (base + s * rb) file)) (grind arith)
          ∙ ap (take rb) (drop-drop (d * rb) (base + s * rb) file))
