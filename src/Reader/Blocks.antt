-- ===== src/Reader/Blocks.antt =====
-- Where `_read_expert` reads: the layer file is a header and the blocks of the experts, one after
-- the other.
use expert_sniper.Prelude.{
  ℕ, zero, suc, ◌+◌, ◌*◌, some, List, [], ◌∷◌, ◌++◌, length, take, get_elem?, ◌≡◌, ap, ◌∙◌, arith,
  take-append, drop-append,
}
use expert_sniper.Reader.Format.{Files, pread, read_expert}

-- `b"".join(blocks)`
abbrev pub concat : List (List ℕ) → List ℕ
concat [] = []
concat (b ∷ blocks) = b ++ concat blocks

abbrev pub AllLong : ℕ → List (List ℕ) → Type 0
AllLong n [] = Unit
AllLong n (b ∷ blocks) = (length b ≡ n) × AllLong n blocks

pread-block :
    (n e : ℕ) (blocks : List (List ℕ)) (b : List ℕ)
    → AllLong n blocks
    → get_elem? blocks e ≡ some b
    → pread n (e * n) (concat blocks) ≡ b
pread-block n e [] b all h = absurd cc
pread-block n zero (c ∷ blocks) b all h =
    let q : c ≡ b = cc in
    let z : 0 * n ≡ 0 = omega arith in
    rw z (take-append n c (concat blocks) (omega (arith, all.0)) ∙ q)
pread-block n (suc e) (c ∷ blocks) b all h =
    let z : suc e * n ≡ length c + e * n = rw all.0 (grind arith) in
    rw z (ap (take n) (drop-append c (concat blocks) (e * n)) ∙ pread-block n e blocks b all.1 h)

module _ {ℓ} {A : Type ℓ} (f : Files A) where
  -- If a layer file is a header of `data_start` bytes and then one block of `expert_block_size` bytes
  -- per expert, then `_read_expert` reads exactly the block of its expert.
  pub read_expert-block :
      (l e : ℕ) (header : List ℕ) (blocks : List (List ℕ)) (b : List ℕ)
      → f.file l ≡ some (header ++ concat blocks)
      → length header ≡ f.data_start
      → AllLong f.expert_block_size blocks
      → get_elem? blocks e ≡ some b
      → read_expert f l e ≡ some b
  unfolding read_expert
  read_expert-block l e header blocks b file start all at =
      rw (read_expert, file, ← start)
        (ap (λ rest. some (take f.expert_block_size rest))
            (drop-append header (concat blocks) (e * f.expert_block_size))
          ∙ ap some (pread-block f.expert_block_size e blocks b all at))
