-- ===== src/Reader/History.antt =====
-- Any history of calls on a `MoEExpertReader`, its backfill worker included.
use mathlib.Core.Path.{subst}
use expert_sniper.Prelude.{
  ℕ, ◌≤◌, Bool, true, false, ◌||◌, none, some, List, [], ◌∷◌, length, ◌≡◌, pair_eq, nat_eq,
  if◌then◌else◌,
}
use expert_sniper.Dict.{set, contains}
use expert_sniper.Lru.{Cache, peek}
use expert_sniper.Reader.{
  Reader, new_reader, Futures, run_backfill, futures_of, submit_all, in_lru, prefetch_experts,
  reset_prefetch,
}
use expert_sniper.Reader.Demand.{get_experts}
use expert_sniper.Reader.Format.{Files, Expert, load}
use expert_sniper.Reader.Pending.{PendingIn, set-PendingIn, set-Pending}
use expert_sniper.Reader.Coherent.{
  IsCoherent, CacheIsCoherent, new_reader-IsCoherent, run_backfill-IsCoherent,
}
use expert_sniper.Reader.Loaded.{IsLoad}
use expert_sniper.Lru.Entries.{get?-Entries}
use expert_sniper.Reader.Transparent.{load_all, get_experts-load_all, futures_of-PendingIn}

pub data Call : Type 0 where
  prefetch : ℕ → List ℕ → Call
  reset : Call
  serve : (ℕ → ℕ) → (ℕ → Bool) → ℕ → List ℕ → Call
  background : ℕ → Call

if-PendingIn :
    (l : ℕ) (test : Bool) (a b : Futures)
    → PendingIn l a
    → PendingIn l b
    → PendingIn l (if test then a else b)
if-PendingIn l true a b x y = x
if-PendingIn l false a b x y = y

module _ {ℓ} {A : Type ℓ} (f : Files A) where
  -- The reader after a call.
  unfoldable pub step : Reader f → Call → Reader f
  step r (prefetch l ids) = prefetch_experts f l ids r
  step r reset = reset_prefetch f r
  step r (serve pace done l ids) = (get_experts f pace done l ids r).0
  step r (background n) = run_backfill f n r

  unfoldable pub run : List Call → Reader f → Reader f
  run [] r = r
  run (call ∷ calls) r = run calls (step r call)

  submit_all-PendingIn :
      (l : ℕ) (ids : List ℕ) (r : Reader f) (pending : Futures)
      → PendingIn l pending
      → PendingIn l (submit_all f l ids r pending)
  unfolding submit_all
  submit_all-PendingIn l [] r pending p = p
  submit_all-PendingIn l (e ∷ ids) r pending p = submit_all-PendingIn l ids r _ (
      if-PendingIn l (contains e pending || in_lru f l e r) pending (set e (l, e) pending) p
        (set-PendingIn l e pending p))

  step-IsCoherent : (r : Reader f) (call : Call) → IsCoherent f r → IsCoherent f (step r call)
  unfolding step prefetch_experts reset_prefetch
  step-IsCoherent r (prefetch l ids) i = record {
    cached = i.cached;
    parked = i.parked;
    bounded = i.bounded;
    pending =
        set-Pending l (submit_all f l ids r (futures_of f l r)) r.prefetch_futures i.pending
          (submit_all-PendingIn l ids r (futures_of f l r) (futures_of-PendingIn f l r i));
  }
  step-IsCoherent r reset i = record {
    cached = i.cached;
    parked = i.parked;
    bounded = i.bounded;
    pending = tt;
  }
  step-IsCoherent r (serve pace done l ids) i = (get_experts-load_all f pace done l ids r i).0
  step-IsCoherent r (background n) i = run_backfill-IsCoherent f n r i

  run-IsCoherent : (calls : List Call) (r : Reader f) → IsCoherent f r → IsCoherent f (run calls r)
  unfolding run
  run-IsCoherent [] r i = i
  run-IsCoherent (call ∷ calls) r i = run-IsCoherent calls (step r call) (step-IsCoherent r call i)

  -- Without a fallback buffer, after any history of calls on a new reader of any cache size, and at
  -- any pace of the backfill worker, `get_experts` answers what reading the blocks of the experts
  -- one by one answers: their parses, or the error if one of them cannot be read or parsed. The
  -- victim buffer never exceeds its bound.
  pub get_experts-transparent :
      (cache_size : ℕ) (calls : List Call) (pace : ℕ → ℕ) (done : ℕ → Bool) (l : ℕ) (ids : List ℕ)
      → f.fallback ≡ none
      → ((get_experts f pace done l ids (run calls (new_reader f cache_size))).1
          ≡ load_all f l ids [])
        × (length (run calls (new_reader f cache_size)).victim
            ≤ (run calls (new_reader f cache_size)).victim_cap)
  get_experts-transparent cache_size calls pace done l ids off =
      let i = run-IsCoherent calls (new_reader f cache_size) (new_reader-IsCoherent f cache_size) in
      (
        (get_experts-load_all f pace done l ids (run calls (new_reader f cache_size)) i).1 off,
        i.bounded,
      )

  -- After any history of calls on a new reader, with a fallback buffer or without, every expert that
  -- the cache holds is the parse of its whole block: what is mixed from the fallback buffer is
  -- answered once and never kept.
  pub peek-eq-load :
      (cache_size : ℕ) (calls : List Call) (c : Cache (Expert f)) (l e : ℕ) (v : Expert f)
      → (run calls (new_reader f cache_size)).lru ≡ some c
      → peek l e c ≡ some v
      → load f l e ≡ some v
  unfolding peek
  peek-eq-load cache_size calls c l e v is_c held =
      let i = run-IsCoherent calls (new_reader f cache_size) (new_reader-IsCoherent f cache_size) in
      get?-Entries (IsLoad f) l e v c.cache (subst (CacheIsCoherent f) is_c i.cached).1 held
