-- ===== src/Speculative/Cached.antt =====
-- `ModelDraft` of src/mlx_expert_sniper/speculative.py: a draft model that keeps its KV cache from
-- round to round.
pub mod Stateless
pub mod Rollback
use expert_sniper.Prelude.{
  ℕ, zero, suc, ◌+◌, ◌-◌, Bool, true, false, ◌||◌, Option, none, some, List, [], ◌∷◌, ◌++◌, length,
  take, drop, nat_beq, leb, if◌then◌else◌, min,
}
use expert_sniper.Generate.{split_last}
use expert_sniper.Generate.Model.{Target}

-- `del xs[len(xs) - n:]`; for n > len(xs) the index is negative and counts from the end.
unfoldable pub del_last : ℕ → List ℕ → List ℕ
del_last n xs =
    if leb n (length xs) then take (length xs - n) xs else take (length xs - (n - length xs)) xs

-- The loop of `_sync`: the length of the common prefix.
unfoldable pub common : List ℕ → List ℕ → ℕ
common [] ys = 0
common (x ∷ xs) [] = 0
common (x ∷ xs) (y ∷ ys) = let n = common xs ys in if nat_beq x y then suc n else 0

module _ (model : Target) where
  open model use {Kv, fresh, forward, trim}

  pub record ModelDraft : Type 0 where
    pub kv : Kv
    pub cached : List ℕ
    pub pending : ℕ

  unfoldable pub reset : ModelDraft
  reset = record { kv = fresh; cached = []; pending = 0 }

  unfoldable pub trim_cache : ℕ → ModelDraft → ModelDraft
  trim_cache n s =
      if leb n 0 then s else record s { kv = trim n s.kv; cached = del_last n s.cached }

  unfoldable pub trim_draft : ℕ → ModelDraft → ModelDraft
  trim_draft n s =
      if leb n 0 || nat_beq s.pending 0
      then s
      else record (trim_cache (min s.pending (n - 1)) s) { pending = 0 }

  -- The state after `_sync`; its result is `common s.cached context`.
  unfoldable pub sync : List ℕ → ModelDraft → ModelDraft
  sync context s = record (trim_cache (length s.cached - common s.cached context) s) { pending = 0 }

  -- The loop over `range(k)`; `none` is the error on a forward pass over no tokens.
  unfoldable pub draft_loop : ℕ → List ℕ → ModelDraft → Option (List ℕ × ModelDraft)
  draft_loop zero feed s = some ([], s)
  draft_loop (suc k) feed s = elim (split_last (forward feed s.kv).1) [
    | none ↦ none
    | some (_, cur) ↦
        elim (draft_loop k (cur ∷ [])
          (record s { kv = (forward feed s.kv).0; cached = s.cached ++ feed })) [
            | none ↦ none
            | some (out, s') ↦ some (cur ∷ out, s')
          ]
  ]

  abbrev pub with_pending : ℕ → Option (List ℕ × ModelDraft) → Option (List ℕ × ModelDraft)
  with_pending k none = none
  with_pending k (some (out, s)) = some (out, record s { pending = k - 1 })

  -- `__call__`: only what the cache does not hold is fed; where it holds all, the last token again.
  unfoldable pub call : List ℕ → ℕ → ModelDraft → Option (List ℕ × ModelDraft)
  call context k s =
      let s1 = sync context s in
      elim (drop (common s.cached context) context) [
        | t ∷ new ↦ with_pending k (draft_loop k (t ∷ new) s1)
        | [] ↦ elim (split_last context) [
          | none ↦ none
          | some (_, last) ↦ with_pending k (draft_loop k (last ∷ []) (trim_cache 1 s1))
        ]
      ]
