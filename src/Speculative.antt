-- ===== src/Speculative.antt =====
-- `spec_generate_stream` of src/mlx_expert_sniper/speculative.py, at routing bias 0, for any draft.
pub mod Lookup
pub mod Accept
pub mod Emit
pub mod OneRound
pub mod Exact
pub mod Cached
pub mod Drafts
mod Tests
use expert_sniper.Prelude.{
  ℕ, zero, suc, ◌+◌, ◌-◌, ◌<◌, Bool, true, false, Option, none, some, List, [], ◌∷◌, ◌++◌, String,
  ltb, leb, if◌then◌else◌, nat_eq, ◌==◌, length, take, get_elem?,
}
use expert_sniper.Generate.{Tokenizer, elem, any_in, stop_tokens, split_last}
use expert_sniper.Generate.Model.{Target}

-- A draft: a callable with a state of its own. `trim` and `reset` do nothing where the draft has no
-- such method.
pub record Draft : Type 1 where
  pub State : Type 0
  pub propose : List ℕ → ℕ → State → State × List ℕ
  pub trim : ℕ → State → State
  pub reset : State → State

-- `while m < len(drafts) and drafts[m] == preds[m]: m += 1`
unfoldable pub matching : List ℕ → List ℕ → ℕ
matching [] preds = 0
matching (d ∷ drafts) [] = 0
matching (d ∷ drafts) (p ∷ preds) = let m = matching drafts preds in if d == p then suc m else 0

-- What the loop over `out_tokens` leaves: the yielded texts, `emitted`, `context` and `stop`.
pub record Emitted : Type 0 where
  pub chunks : List String
  pub emitted : ℕ
  pub context : List ℕ
  pub stop : Bool

abbrev pub after_chunk : String → Emitted → Emitted
after_chunk chunk r = record r { chunks = chunk ∷ r.chunks }

module _ (tok : Tokenizer) (max_tokens : ℕ) where
  -- The loop over `out_tokens`.
  unfoldable pub emit : List ℕ → ℕ → List ℕ → Emitted
  emit [] emitted context = record {
    chunks = [];
    emitted = emitted;
    context = context;
    stop = false;
  }
  emit (t ∷ ts) emitted context =
      let stopped : Emitted = record {
        chunks = [];
        emitted = emitted;
        context = context;
        stop = true;
      } in
      let last : Emitted = record {
        chunks = [];
        emitted = emitted + 1;
        context = context ++ t ∷ [];
        stop = true;
      } in
      let more = emit ts (emitted + 1) (context ++ t ∷ []) in
      if elem t tok.eos_ids
      then stopped
      else if any_in stop_tokens (tok.decode t)
      then stopped
      else after_chunk (tok.decode t) (if leb max_tokens (emitted + 1) then last else more)

-- `stats`
pub record Stats : Type 0 where
  pub drafted : ℕ
  pub accepted : ℕ
  pub forwards : ℕ

module _ (model : Target) (draft : Draft) where
  open model use {Kv, forward, trim}

  -- The variables of the loop.
  pub record Loop : Type 0 where
    pub kv : Kv
    pub drafter : draft.State
    pub context : List ℕ
    pub cur : ℕ
    pub emitted : ℕ
    pub stats : Stats

  pub record Round : Type 0 where
    pub chunks : List String
    pub stop : Bool
    pub loop : Loop

  -- `draft(context, k)`, and the draft's state after it
  abbrev pub drafts : ℕ → Loop → List ℕ
  drafts k s = (draft.propose s.context k s.drafter).1

  abbrev pub drafter_after : ℕ → Loop → draft.State
  drafter_after k s = (draft.propose s.context k s.drafter).0

  -- The forward pass over `[cur] + drafts`: the cache after it, and the argmax at each position.
  abbrev pub kv_after : ℕ → Loop → Kv
  kv_after k s = (forward (s.cur ∷ drafts k s) s.kv).0

  abbrev pub preds : ℕ → Loop → List ℕ
  preds k s = (forward (s.cur ∷ drafts k s) s.kv).1

  -- The KV cache and the draft are rolled back over the drafts that were not accepted.
  unfoldable pub roll_back : ℕ → Loop → Loop
  roll_back k s =
      let m = matching (drafts k s) (preds k s) in
      let rejected = length (drafts k s) - m in
      let any_rejected = ltb 0 rejected in
      record s {
        kv = if any_rejected then trim rejected (kv_after k s) else kv_after k s;
        drafter =
            if any_rejected then draft.trim rejected (drafter_after k s) else drafter_after k s;
        stats = record {
          drafted = s.stats.drafted + length (drafts k s);
          accepted = s.stats.accepted + m;
          forwards = s.stats.forwards + 1;
        };
      }

module _ (model : Target) (tok : Tokenizer) (draft : Draft) (k max_tokens : ℕ) where
  open model use {fresh, forward}

  -- The end of a round: `out_tokens` are emitted, and the last of them is the new `cur`, unless the
  -- round stops.
  unfoldable pub finish : Loop model draft → List ℕ → ℕ → Round model draft
  finish s out_tokens correction =
      let r = emit tok max_tokens out_tokens s.emitted s.context in
      record {
        chunks = r.chunks;
        stop = r.stop;
        loop = record s {
          context = r.context;
          emitted = r.emitted;
          cur = if r.stop then s.cur else correction;
        };
      }

  -- One round: draft, verify in one forward pass, accept, roll back, emit. `none` is the IndexError
  -- of `preds[m]`.
  unfoldable pub round : Loop model draft → Option (Round model draft)
  round s =
      let m = matching (drafts model draft k s) (preds model draft k s) in
      elim (get_elem? (preds model draft k s) m) [
        | none ↦ none
        | some p ↦
            some (finish (roll_back model draft k s) (take m (drafts model draft k s) ++ p ∷ []) p)
      ]

  -- `while emitted < max_tokens`, with fuel; `none` is an error, or the end of the fuel.
  unfoldable pub rounds : ℕ → Loop model draft → Option (List String × Loop model draft)
  rounds zero s = none
  rounds (suc fuel) s = elim (ltb s.emitted max_tokens) [
    | false ↦ some ([], s)
    | true ↦ elim (round s) [
      | none ↦ none
      | some r ↦ elim r.stop [
        | true ↦ some (r.chunks, r.loop)
        | false ↦ elim (rounds fuel r.loop) [
          | none ↦ none
          | some (more, s') ↦ some (r.chunks ++ more, s')
        ]
      ]
    ]
  ]

  -- The variables before the loop: all but the last token of the prompt are prefilled. The dictionary of the
  -- counters is a fresh one, as every caller passes.
  unfoldable pub start : List ℕ → List ℕ → ℕ → draft.State → Loop model draft
  start tokens init cur d =
      let prefilled = ltb 1 (length tokens) in
      record {
        kv = if prefilled then (forward init fresh).0 else fresh;
        drafter = draft.reset d;
        context = tokens;
        cur = cur;
        emitted = 0;
        stats = record { drafted = 0; accepted = 0; forwards = if prefilled then 1 else 0 };
      }

  -- The texts that are yielded, and the variables at the end. `max_tokens + 1` rounds of fuel are
  -- enough, since a round that does not stop emits a token. `none` is an error: a prompt of no
  -- tokens has no last one.
  unfoldable pub spec_generate_stream :
      List ℕ → draft.State → Option (List String × Loop model draft)
  spec_generate_stream tokens d = elim (split_last tokens) [
    | none ↦ none
    | some (init, cur) ↦ rounds (max_tokens + 1) (start tokens init cur d)
  ]
