-- ===== src/HfReader/History.antt =====
-- What the reader answers after any calls.
use expert_sniper.Prelude.{
  ℕ, ◌<◌, true, Option, none, some, List, [], ◌∷◌, ◌≡◌, ◌≢◌, nat_eq, pair_eq,
}
use expert_sniper.Dict.{Dict, get?}
use expert_sniper.Lru.{member, init}
use expert_sniper.Lru.Invariant.{init-IsValid}
use expert_sniper.Fetch.{Bytes}
use expert_sniper.Reader.Format.{Info}
use expert_sniper.Node.{LayerLayout, Expert}
use expert_sniper.HfReader.{
  Sources, HfReader, Call, prefetch, reset, experts, make, run, new_reader, futures_at,
  reset_prefetch, get_experts,
}
use expert_sniper.HfReader.Faithful.{Truth, IsFaithful, true_expert, Right, Finds, CanServe}
use expert_sniper.HfReader.Right.{prefetch_experts-Right, get_experts-Right}
use expert_sniper.HfReader.Serves.{get_experts-serves}

module _ {ℓ} {A : Type ℓ} (listed : List (ℕ × ℕ)) (view : Info → Bytes → Option A)
    (truth : Truth) where
  -- Whatever the sources were, what they answered was of the model.
  abbrev pub AllFaithful : List (Sources × Call) → Type 0
  AllFaithful [] = Unit
  AllFaithful ((src, call) ∷ history) = IsFaithful listed view truth src × AllFaithful history

  make-Right :
      (src : Sources) (call : Call) (r : HfReader A)
      → IsFaithful listed view truth src
      → Right listed view truth r
      → Right listed view truth (make listed view src call r)
  unfolding make reset_prefetch get?
  make-Right src (prefetch l ids) r f k = prefetch_experts-Right listed view truth src f l ids r k
  make-Right src reset r f k = record {
    cached = k.cached;
    valid = k.valid;
    layouts = k.layouts;
    headers = k.headers;
    futures = λ l futs never. absurd cc;
  }
  make-Right src (experts l ids) r f k = get_experts-Right listed view truth src f l ids r k

  run-Right :
      (history : List (Sources × Call)) (r : HfReader A)
      → AllFaithful history
      → Right listed view truth r
      → Right listed view truth (run listed view history r)
  unfolding run
  run-Right [] r f k = k
  run-Right ((src, call) ∷ history) r (here, f) k =
      run-Right history (make listed view src call r) f (make-Right src call r here k)

  new_reader-Right :
      (cache_size : ℕ) → 0 < cache_size → Right listed view truth (new_reader cache_size)
  unfolding new_reader init get?
  new_reader-Right cache_size h = record {
    cached = tt;
    valid = init-IsValid cache_size h;
    layouts = λ l lay never. absurd cc;
    headers = λ l header never. absurd cc;
    futures = λ l futs never. absurd cc;
  }

  -- A new reader with room in its cache has served any calls, some of which may have failed, each with the
  -- disk and the checkpoint as they were then; whatever these answered was of one model. Of the layer that is
  -- asked now, the reader finds `header` on the disk, or found it when it first looked. If the block of each
  -- expert that is asked for can be had now, from the disk under that header or from the checkpoint, and
  -- parses, and no prefetch of one of them that failed is still held, then the call answers with the expert
  -- of the model for each of them. A prefetch that succeeded is used, even if its source is gone or the
  -- block was fetched long ago.
  pub get_experts-true_expert :
      (history : List (Sources × Call)) (cache_size : ℕ) (src : Sources) (l : ℕ) (ids : List ℕ)
      (header : Option LayerLayout)
      → 0 < cache_size
      → AllFaithful history
      → IsFaithful listed view truth src
      → Finds listed view truth src (run listed view history (new_reader cache_size)) l header
      → ((e : ℕ) → member e ids ≡ true → CanServe listed view truth src header l e)
      → ((e : ℕ)
          → member e ids ≡ true
          → get? e (futures_at l (run listed view history (new_reader cache_size))) ≢ some none)
      → (e : ℕ) → member e ids ≡ true
      → (out : Dict ℕ (Expert A)) × ((get_experts listed view src l ids
            (run listed view history (new_reader cache_size))).1
          ≡ some out)
        × (x : Expert A) × (get? e out ≡ some x)
        × (true_expert listed view truth l e ≡ some x)
  get_experts-true_expert history cache_size src l ids header room all_faithful faithful finds can
        kept_well e asked =
      let k =
        run-Right history (new_reader cache_size) all_faithful (new_reader-Right cache_size room) in
      get_experts-serves listed view truth l src faithful header ids
        (run listed view history (new_reader cache_size)) k finds can kept_well e asked
