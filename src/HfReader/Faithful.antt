-- ===== src/HfReader/Faithful.antt =====
-- What the reader may rely on: the disk and the checkpoint have the blocks of one model.
use expert_sniper.Prelude.{
  ℕ, ◌⊎◌, Option, none, some, List, [], ◌∷◌, ◌≡◌, nat_eq, pair_eq, string_eq,
}
use expert_sniper.Dict.{Dict, get?}
use expert_sniper.Lru.{Key}
use expert_sniper.Lru.Entries.{Entries}
use expert_sniper.Lru.Invariant.{IsValid}
use expert_sniper.Fetch.{Bytes}
use expert_sniper.Reader.Format.{Info}
use expert_sniper.HfSource.Layout.{Layout}
use expert_sniper.Node.{LayerLayout, Expert, parse_expert_block}
use expert_sniper.HfReader.{Sources, Fetched, HfReader, local_block}

-- The model: the layout and the blocks of its layers, and the headers that layer files of it have.
pub record Truth : Type 0 where
  pub layout : ℕ → Layout
  pub header : ℕ → LayerLayout
  pub block : ℕ → ℕ → Bytes

module _ {ℓ} {A : Type ℓ} (listed : List (ℕ × ℕ)) (view : Info → Bytes → Option A)
    (truth : Truth) where
  -- What a source answers is of the model. It need not answer.
  pub record IsFaithful (src : Sources) : Type 0 where
    pub layouts : (l : ℕ) (lay : Layout) → src.expert_layout l ≡ some lay → lay ≡ truth.layout l
    pub blocks :
        (l e : ℕ) (raw : Bytes)
        → src.fetch_expert_block l e (truth.layout l) ≡ some raw
        → raw ≡ truth.block l e
    pub headers :
        (l : ℕ) (header : LayerLayout)
        → src.layer_header l ≡ some (some header)
        → header ≡ truth.header l
    pub same_tensors : (l : ℕ) → (truth.header l).tensors ≡ (truth.layout l).tensors
    pub local_blocks :
        (l e : ℕ) (raw : Bytes)
        → local_block listed view src (some (truth.header l)) l e ≡ some raw
        → raw ≡ truth.block l e

  abbrev pub true_expert : ℕ → ℕ → Option (Expert A)
  true_expert l e = parse_expert_block view (truth.block l e) (truth.layout l).tensors

  abbrev pub IsTrue : Key → Expert A → Type ℓ
  IsTrue (l, e) expert = true_expert l e ≡ some expert

  -- Each fetch that did not fail has the block of its expert.
  abbrev pub AllTrue : ℕ → Dict ℕ Fetched → Type 0
  AllTrue l [] = Unit
  AllTrue l ((e, none) ∷ futs) = AllTrue l futs
  AllTrue l ((e, some (is_local, raw)) ∷ futs) = (raw ≡ truth.block l e) × AllTrue l futs

  -- The state of a reader is right: its cache holds experts of the model, and so do its futures.
  pub record Right (r : HfReader A) : Type ℓ where
    pub cached : Entries IsTrue r.lru.cache
    pub valid : IsValid r.lru
    pub layouts : (l : ℕ) (lay : Layout) → get? l r.layouts ≡ some lay → lay ≡ truth.layout l
    pub headers :
        (l : ℕ) (header : LayerLayout)
        → get? l r.headers ≡ some (some header)
        → header ≡ truth.header l
    pub futures :
        (l : ℕ) (futs : Dict ℕ Fetched) → get? l r.prefetch_futures ≡ some futs → AllTrue l futs

  -- What the reader finds of a layer on the disk: what it found before, or else what there is now.
  abbrev pub Finds : Sources → HfReader A → ℕ → Option LayerLayout → Type 0
  Finds src r l header =
      (get? l r.headers ≡ some header)
      ⊎ ((get? l r.headers ≡ none) × (src.layer_header l ≡ some header))

  -- A source can answer with the block of an expert: from the disk, or from the checkpoint.
  abbrev pub IsAvailable : Sources → Option LayerLayout → ℕ → ℕ → Type 0
  IsAvailable src header l e =
      ((raw : Bytes) × (local_block listed view src header l e ≡ some raw))
      ⊎ ((src.expert_layout l ≡ some (truth.layout l))
          × (raw : Bytes) × (src.fetch_expert_block l e (truth.layout l) ≡ some raw))

  -- The block parses too.
  abbrev pub CanServe : Sources → Option LayerLayout → ℕ → ℕ → Type ℓ
  CanServe src header l e =
      IsAvailable src header l e × (expert : Expert A) × (true_expert l e ≡ some expert)
