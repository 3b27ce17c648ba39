-- ===== src/Ngram/Exact.antt =====
-- `_read_rows` of `HFNGramSource` as a whole.
use mathlib.Core.Path.{subst}
use expert_sniper.Prelude.{
  ℕ, suc, ◌+◌, ◌-◌, ◌*◌, ◌≤◌, ◌<◌, true, Option, List-cases, some, List, [], ◌∷◌, map, take, drop,
  length, nat_eq, ◌≡◌, refl, sym, ap, ◌∙◌, inl, inr, arith,
}
use expert_sniper.Prelude.Sorted.{
  sorted, AllBelow, Ascending, is_in, sorted_lem, sorted-AllBelow, is_in-sorted,
}
use expert_sniper.Dict.{Dict}
use expert_sniper.Ngram.{Blob, extend, ranges, store_all, fetch_all, find_row, find_rows, read_rows}
use expert_sniper.Ngram.Cut.{row, rows_between, row-rows_between}
use expert_sniper.Ngram.Ranges.{
  Increasing, Located, is_first, results, extend-Increasing, extend-Located, store_all-results,
}

module _ (read_range : ℕ → ℕ → Option (List ℕ)) (base rb : ℕ) (file : List ℕ) (pos : 0 < rb) where
  find_row-Located :
      (r x : ℕ) (blobs : Dict ℕ Blob)
      → Located (rows_between base rb file) r x blobs
      → find_row read_range base rb blobs r ≡ some (row base rb file r)
  unfolding find_row
  find_row-Located r x blobs l =
      let d = r - l.start in
      let g = l.end - r in
      let at_r : l.start + d ≡ r = omega (arith, l.before) in
      let at_end : l.start + d + g ≡ l.end = omega (arith, l.before, l.until) in
      let cut = row-rows_between base rb file l.start d g pos in
      ground (arith, l.found, l.held, rw (at_end, at_r) at cut)

  find_rows-Located :
      (ids : List ℕ) (x : ℕ) (blobs : Dict ℕ Blob)
      → ((r : ℕ) → is_in r ids ≡ true → Located (rows_between base rb file) r x blobs)
      → find_rows read_range base rb blobs ids ≡ some (map (row base rb file) ids)
  unfolding find_rows
  find_rows-Located [] x blobs h = refl
  find_rows-Located (r ∷ ids) x blobs h =
      let here = find_row-Located r x blobs (h r (ground arith)) in
      let there = find_rows-Located ids x blobs (λ q p. h q (ground arith)) in
      rw (find_rows, here, there) refl

  module _
      (honest : (s e : ℕ)
        → s ≤ e
        → e < length file
        → read_range s e ≡ some (take (e + 1 - s) (drop s file)))
      (rows : ℕ) (fits : base + rows * rb ≤ length file) where
    scale : (a b : ℕ) → a ≤ b → a * rb ≤ b * rb
    scale a b h = let k = b - a in let e : b ≡ a + k = omega arith in rw e (grind arith)

    ends_after : (a b : ℕ) → a ≤ b → base + a * rb ≤ base + (b + 1) * rb - 1
    ends_after a b h =
        let m = scale a b h in
        let n : (b + 1) * rb ≡ b * rb + rb = grind arith in omega (arith, m, n, pos)

    ends_inside : (b : ℕ) → b < rows → base + (b + 1) * rb - 1 < length file
    ends_inside b h =
        let m = scale (b + 1) rows (omega arith) in
        let n : (b + 1) * rb ≡ b * rb + rb = grind arith in omega (arith, m, n, pos, fits)

    fetch_all-results :
        (x : ℕ) (rgs : List (ℕ × ℕ))
        → Increasing rows x rgs
        → fetch_all read_range base rb rgs ≡ some (results (rows_between base rb file) rgs)
    unfolding fetch_all
    fetch_all-results x [] i = refl
    fetch_all-results x ((a, b) ∷ rgs) (p, q, below, i) =
        let e =
          honest (base + a * rb) (base + (b + 1) * rb - 1) (ends_after a b q)
            (ends_inside b below) in
        rw (fetch_all, e, fetch_all-results (suc a) rgs i) refl

    -- Every range request within the file answers with its bytes, the rows lie in the file from
    -- `base` on, and the ids that are asked for are rows of the table. Then `_read_rows` fails nowhere,
    -- and it answers each id, in the order of the ids, with the bytes of its row, whatever the bound
    -- under which neighbours share a request.
    pub read_rows-row :
        (coalesce : ℕ) (ids : List ℕ)
        → AllBelow rows ids
        → read_rows read_range base rb coalesce ids ≡ some (map (row base rb file) ids)
    unfolding read_rows ranges
    read_rows-row coalesce ids below = elim (List-cases (sorted ids)) [
      | inl p ↦
          let none_asked : (r : ℕ)
              → is_in r ids ≡ true
              → Located (rows_between base rb file) r 0 [] =
            λ r m.
              absurd
                (let q : is_in r [] ≡ true = ap (is_in r) (sym p) ∙ is_in-sorted r ids ∙ m in cc) in
          rw (read_rows, p) (unfold fetch_all store_all in find_rows-Located ids 0 [] none_asked)
      | inr ((a, rs), p) ↦
          let up = subst Ascending p (sorted_lem ids) in
          let b = subst (AllBelow rows) p (sorted-AllBelow rows ids below) in
          let i = extend-Increasing coalesce rb rows a a rs (omega arith) b.0 up.0 up.1 b.1 in
          let rgs = extend coalesce rb a a rs in
          let content = rows_between base rb file in
          let fetched = fetch_all-results a rgs i in
          let stored = store_all-results content rows a rgs [] i tt in
          let all : (r : ℕ) → is_in r ids ≡ true → Located content r a (results content rgs) =
            λ r m.
              extend-Located coalesce rb content rows a a r rs (omega arith) up.0 up.1 b.1
                (is_first coalesce rb a r rs (ap (is_in r) (sym p) ∙ is_in-sorted r ids ∙ m)) in
          rw (read_rows, p, fetched, stored) (find_rows-Located ids a (results content rgs) all)
    ]
