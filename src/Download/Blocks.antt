-- ===== src/Download/Blocks.antt =====
-- The file that `write_blocks` writes is the header and then the blocks of the experts, so that a block is
-- read where it stands.
use mathlib.Core.List.{append_assoc, append-nil}
use expert_sniper.Prelude.{
  ltb, Bool-cases, ltb→lt, ℕ, zero, suc, ◌-◌, ◌<◌, ◌≤◌, none, some, List, [], ◌∷◌, ◌++◌, length,
  map, get_elem?, ◌≡◌, refl, sym, ap, ◌∙◌, inl, inr, arith, length-append,
}
use expert_sniper.Hrw.{range}
use expert_sniper.Prelude.Sorted.{AllBelow}
use expert_sniper.Fetch.{Bytes, zeros, length-zeros}
use expert_sniper.Reader.Blocks.{AllLong, concat}
use expert_sniper.HfSource.Layout.{tensor_order}
use expert_sniper.Download.{LayerTensors, expert_data, write_blocks}

-- The block of an expert.
abbrev pub padded : ℕ → Bytes → Bytes
padded block_size bytes = bytes ++ zeros (block_size - length bytes)

pub length-padded : (n : ℕ) (bytes : Bytes) → length bytes ≤ n → length (padded n bytes) ≡ n
length-padded n bytes h =
    length-append bytes (zeros (n - length bytes))
    ∙ omega (arith, h, length-zeros (n - length bytes))

module _ (lt : LayerTensors) (num_experts block_size : ℕ)
    (data_of : (e : ℕ)
      → e < num_experts
      → (bytes : Bytes) × (expert_data lt tensor_order e ≡ some bytes)
        × (length bytes ≤ block_size)) where
  unfoldable pub block_of : ℕ → Bytes
  block_of e = elim (expert_data lt tensor_order e) [
    | none ↦ []
    | some bytes ↦ padded block_size bytes
  ]

  pub block_of-padded :
      (e : ℕ) (bytes : Bytes)
      → expert_data lt tensor_order e ≡ some bytes
      → block_of e ≡ padded block_size bytes
  unfolding block_of
  block_of-padded e bytes joined = rw (block_of, joined) refl

  pub write_blocks-concat :
      (ids : List ℕ) (file : Bytes)
      → AllBelow num_experts ids
      → (write_blocks lt block_size ids file ≡ some (file ++ concat (map block_of ids)))
        × AllLong block_size (map block_of ids)
  unfolding write_blocks
  write_blocks-concat [] file h =
      (ap some (let e : file ++ [] ≡ file = append-nil file in sym e), tt)
  write_blocks-concat (e ∷ ids) file (below, h) =
      let (bytes, joined, fits) = data_of e below in
      let (rest, long) = write_blocks-concat ids (file ++ padded block_size bytes) h in
      let here = block_of-padded e bytes joined in
      let moved : (file ++ padded block_size bytes) ++ concat (map block_of ids)
          ≡ file ++ (padded block_size bytes ++ concat (map block_of ids)) =
        simp append_assoc in
      (
        rw (write_blocks, joined)
            (rest
              ∙ ap some moved
              ∙ ap (λ b. some (file ++ (b ++ concat (map block_of ids)))) (sym here)),
        (ap length here ∙ length-padded block_size bytes fits, long),
      )

get_elem?-map :
    (f : ℕ → Bytes) (xs : List ℕ) (e x : ℕ)
    → get_elem? xs e ≡ some x
    → get_elem? (map f xs) e ≡ some (f x)
get_elem?-map f [] e x h = absurd cc
get_elem?-map f (y ∷ xs) zero x h = let same : y ≡ x = cc in ap (λ z. some (f z)) same
get_elem?-map f (y ∷ xs) (suc e) x h = get_elem?-map f xs e x h

get_elem?-left : (xs ys : List ℕ) (e : ℕ) → e < length xs → get_elem? (xs ++ ys) e ≡ get_elem? xs e
get_elem?-left [] ys e h = absurd (omega (arith, h))
get_elem?-left (x ∷ xs) ys zero h = refl
get_elem?-left (x ∷ xs) ys (suc e) h = get_elem?-left xs ys e (omega (arith, h))

get_elem?-last : (xs : List ℕ) (y : ℕ) → get_elem? (xs ++ y ∷ []) (length xs) ≡ some y
get_elem?-last [] y = refl
get_elem?-last (x ∷ xs) y = get_elem?-last xs y

length-range : (n : ℕ) → length (range n) ≡ n
length-range zero = refl
length-range (suc n) = length-append (range n) (n ∷ []) ∙ omega (arith, length-range n)

get_elem?-range : (n e : ℕ) → e < n → get_elem? (range n) e ≡ some e
get_elem?-range zero e h = absurd (omega (arith, h))
get_elem?-range (suc n) e h = elim (Bool-cases (ltb e n)) [
  | inl before ↦
      let below = ltb→lt e n before in
      get_elem?-left (range n) (n ∷ []) e (omega (arith, below, length-range n))
      ∙ get_elem?-range n e below
  | inr last ↦
      let at_end : e ≡ length (range n) = ground (arith, h, last, length-range n) in
      ap (get_elem? (range n ++ n ∷ [])) at_end
      ∙ get_elem?-last (range n) n
      ∙ ap some (sym (length-range n) ∙ sym at_end)
]

length-map : (f : ℕ → Bytes) (xs : List ℕ) → length (map f xs) ≡ length xs
length-map f [] = refl
length-map f (x ∷ xs) = ap suc (length-map f xs)

pub get_elem?-map-range :
    (f : ℕ → Bytes) (n e : ℕ) → e < n → get_elem? (map f (range n)) e ≡ some (f e)
get_elem?-map-range f n e h = get_elem?-map f (range n) e e (get_elem?-range n e h)

AllBelow-snoc : (n : ℕ) (xs : List ℕ) → AllBelow n xs → AllBelow (suc n) (xs ++ n ∷ [])
AllBelow-snoc n [] h = (omega arith, tt)
AllBelow-snoc n (x ∷ xs) (below, h) = (omega (arith, below), AllBelow-snoc n xs h)

pub range-AllBelow : (n : ℕ) → AllBelow n (range n)
range-AllBelow zero = tt
range-AllBelow (suc n) = AllBelow-snoc n (range n) (range-AllBelow n)

pub length-map-range : (f : ℕ → Bytes) (n : ℕ) → length (map f (range n)) ≡ n
length-map-range f n = length-map f (range n) ∙ length-range n
