-- ===== src/Reader/Loaded.antt =====
-- Entries of a cache of `MoEExpertReader` that are what the disk has.

use expert_sniper.Prelude.{
  ℕ, ◌≤◌, some, [], ◌∷◌, ltb, length, ◌≡◌, inl, inr, Bool-cases, pair_eq, nat_eq, arith,
}
use expert_sniper.Dict.{Dict}
use expert_sniper.Lru.{Key}
use expert_sniper.Reader.Demand.{shrink}
use expert_sniper.Reader.Format.{Files, Expert, load}
use expert_sniper.Lru.Entries.{Entries}

module _ {ℓ} {A : Type ℓ} (f : Files A) where
  -- The parse of its block.
  abbrev pub IsLoad : Key → Expert f → Type ℓ
  IsLoad (l, e) v = load f l e ≡ some v

  abbrev pub Loaded : Dict Key (Expert f) → Type ℓ
  Loaded = Entries IsLoad

  pub shrink-Loaded : (cap : ℕ) (d : Dict Key (Expert f)) → Loaded d → Loaded (shrink f cap d)
  unfolding shrink
  shrink-Loaded cap [] a = tt
  shrink-Loaded cap (x ∷ d) a = elim (Bool-cases (ltb cap (length (x ∷ d)))) [
    | inl more ↦ rw more (shrink-Loaded cap d a.1)
    | inr fits ↦ rw fits a
  ]

  pub length-shrink : (cap : ℕ) (d : Dict Key (Expert f)) → length (shrink f cap d) ≤ cap
  unfolding shrink
  length-shrink cap [] = omega arith
  length-shrink cap (x ∷ d) = ground (arith, length-shrink cap d)
