-- ===== src/HfSource/Retry.antt =====
-- What the retries of `read_range` recover from.
use expert_sniper.Prelude.{
  ℕ, zero, suc, ◌+◌, ◌-◌, ◌<◌, true, ◌||◌, Option, none, some, String, length, take, drop, ◌≡◌,
  refl, ◌∙◌, inl, inr, arith, Option-cases, ==_refl, nat_beq, nat_beq_iff, string_eq, ap,
}
use mathlib.Core.Path.{subst}
use expert_sniper.Dict.{get?, remove}
use expert_sniper.Dict.Laws.{get?-remove}
use expert_sniper.Fetch.{Bytes}
use expert_sniper.HfSource.{Net, Cdn, cached_url, shard_url, accept, attempt, read_from, read_range}

-- In attempt `k` the shard redirects, and the server there answers with the whole range.
pub record Answers (net : Net) (shard : String) (s e k : ℕ) : Type 0 where
  pub url : String
  pub expires : Option ℕ
  pub redirects : net.redirect k shard ≡ some (url, expires)
  pub status : ℕ
  pub good : (nat_beq status 200 || nat_beq status 206) ≡ true
  pub body : Bytes
  pub replies : net.get k url s e ≡ some (status, body)
  pub whole : length body + s ≡ e + 1

accept-some :
    (s e status : ℕ) (body out : Bytes)
    → accept s e (status, body) ≡ some out
    → (out ≡ body) × (length body ≡ e + 1 - s)
unfolding accept
accept-some s e status body out h = ground (arith, nat_beq_iff (length body + s) (e + 1))

module _ (net : Net) (shard : String) (s e : ℕ) (file : Bytes)
    (honest : (i : ℕ) (url : String) (status : ℕ) (body : Bytes)
      → net.get i url s e ≡ some (status, body)
      → length body ≡ e + 1 - s
      → body ≡ take (e + 1 - s) (drop s file)) where
  attempt-slice :
      (i : ℕ) (cdn : Cdn) (out : Bytes)
      → (attempt net i shard s e cdn).0 ≡ some out
      → out ≡ take (e + 1 - s) (drop s file)
  unfolding attempt
  attempt-slice i cdn out h = elim (Option-cases (shard_url net i shard cdn)) [
    | inl p ↦ absurd (let never = rw (attempt, p) at h in cc)
    | inr ((url, cdn'), p) ↦ elim (Option-cases (net.get i url s e)) [
      | inl q ↦ absurd (let never = rw (attempt, p, q) at h in cc)
      | inr ((status, body), q) ↦
          let taken = accept-some s e status body out (rw (attempt, p, q) at h) in
          taken.0 ∙ honest i url status body q taken.1
    ]
  ]

  attempt-Answers :
      (i : ℕ) (cdn : Cdn)
      → get? shard cdn ≡ none
      → (a : Answers net shard s e i) → (attempt net i shard s e cdn).0 ≡ some a.body
  unfolding attempt shard_url cached_url accept
  attempt-Answers i cdn absent a =
      let whole = (nat_beq_iff (length a.body + s) (e + 1)).1 a.whole in
      rw (attempt, shard_url, cached_url, absent, a.redirects, a.replies, accept, a.good, whole)
        refl

  retry :
      (i tries : ℕ) (cdn : Cdn)
      → (attempt net i shard s e cdn).0 ≡ none
      → read_from net i (suc tries) shard s e cdn
        ≡ read_from net (i + 1) tries shard s e (remove shard (attempt net i shard s e cdn).1)
  unfolding read_from
  retry i tries cdn p = rw (read_from, p) refl

  succeed :
      (i tries : ℕ) (cdn : Cdn) (out : Bytes)
      → (attempt net i shard s e cdn).0 ≡ some out
      → (read_from net i (suc tries) shard s e cdn).0 ≡ some (take (e + 1 - s) (drop s file))
  unfolding read_from
  succeed i tries cdn out p = rw (read_from, p) (ap some (attempt-slice i cdn out p))

  removed : (cdn : Cdn) → get? shard (remove shard cdn) ≡ none
  removed cdn = rw (get?-remove shard shard cdn, ==_refl shard) refl

  -- With no cached URL, attempt `i + j` is reached if none before it succeeds.
  read_from-slice :
      (j i k tries : ℕ) (cdn : Cdn)
      → i + j ≡ k
      → get? shard cdn ≡ none
      → j < tries
      → Answers net shard s e k
      → (read_from net i tries shard s e cdn).0 ≡ some (take (e + 1 - s) (drop s file))
  read_from-slice j i k zero cdn q absent h a = absurd (omega (arith, h))
  read_from-slice zero i k (suc tries) cdn q absent h a =
      let here : k ≡ i = omega (arith, q) in
      let a' = subst (Answers net shard s e) here a in
      succeed i tries cdn a'.body (attempt-Answers i cdn absent a')
  read_from-slice (suc j) i k (suc tries) cdn q absent h a =
      elim (Option-cases (attempt net i shard s e cdn).0) [
        | inr (out, p) ↦ succeed i tries cdn out p
        | inl p ↦
            ap (λ r. r.0) (retry i tries cdn p)
            ∙ read_from-slice j (i + 1) k tries (remove shard (attempt net i shard s e cdn).1)
                (omega (arith, q)) (removed (attempt net i shard s e cdn).1) (omega (arith, h)) a
      ]

  -- A complete answer is the range of the shard's file. If then in some attempt after the first the
  -- shard redirects and the server there answers in full, `read_range` answers with the bytes of the
  -- range, whatever URL was cached and however the other attempts fail.
  pub read_range-recovers :
      (k : ℕ) (cdn : Cdn)
      → 0 < k
      → k < 5
      → Answers net shard s e k
      → (read_range net shard s e cdn).0 ≡ some (take (e + 1 - s) (drop s file))
  unfolding read_range
  read_range-recovers k cdn p q a = elim (Option-cases (attempt net 0 shard s e cdn).0) [
    | inr (out, r) ↦ succeed 0 4 cdn out r
    | inl r ↦
        ap (λ x. x.0) (retry 0 4 cdn r)
        ∙ read_from-slice (k - 1) (0 + 1) k 4 (remove shard (attempt net 0 shard s e cdn).1)
            (omega (arith, p)) (removed (attempt net 0 shard s e cdn).1) (omega (arith, p, q)) a
  ]
