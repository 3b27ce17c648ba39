-- ===== src/Fetch/Accepted.antt =====
-- A block that a peer's reply passes on is the block that was published.
use mathlib.Core.Path.{subst}
use expert_sniper.Prelude.{
  ℕ, zero, suc, ◌+◌, false, Option, none, some, List, [], ◌∷◌, String, length, ◌≡◌, inl, inr, arith,
  Bool-cases, Option-cases, some-pair, string_eq, get_elem?, ◌%◌,
}
use expert_sniper.Fetch.{Bytes, Stats, credit, rejected, fetch_block, probe, take_probe}

module _ (sha256 : Bytes → String) where
  pub fetch_block-accepted :
      (want : Option String) (order : List String) (reply : ℕ → String → Option Bytes)
      (attempt tries : ℕ) (block : Bytes) (peer : String)
      → fetch_block sha256 want order reply attempt tries ≡ some (block, peer)
      → rejected sha256 want block ≡ false
  unfolding fetch_block
  fetch_block-accepted want order reply attempt zero block peer h = absurd cc
  fetch_block-accepted want order reply attempt (suc tries) block peer h =
      elim (Option-cases (get_elem? order (attempt % length order))) [
        | inl p ↦ ground (arith, h)
        | inr (who, p) ↦ elim (Option-cases (reply attempt who)) [
          | inl q ↦
              fetch_block-accepted want order reply (attempt + 1) tries block peer
                (ground (arith, h))
          | inr (b, q) ↦ elim (Bool-cases (rejected sha256 want b)) [
            | inl r ↦
                fetch_block-accepted want order reply (attempt + 1) tries block peer
                  (rw (fetch_block, p, q, r) at h)
            | inr r ↦
                let (same, _) = some-pair {b = who} (rw (fetch_block, p, q, r) at h) in
                subst (λ c. rejected sha256 want c ≡ false) same r
          ]
        ]
      ]

  pub take_probe-accepted :
      (want : Option String) (replies : List (String × Option Bytes)) (got : Option Bytes)
      (s : Stats) (block : Bytes)
      → ((b : Bytes) → got ≡ some b → rejected sha256 want b ≡ false)
      → (take_probe (probe sha256 want replies) got s).0 ≡ some block
      → rejected sha256 want block ≡ false
  unfolding probe take_probe
  take_probe-accepted want [] got s block ok_got h = ok_got block h
  take_probe-accepted want ((peer, none) ∷ replies) got s block ok_got h =
      take_probe-accepted want replies got s block ok_got h
  take_probe-accepted want ((peer, some b) ∷ replies) got s block ok_got h =
      elim (Bool-cases (rejected sha256 want b)) [
        | inl bad ↦
            take_probe-accepted want replies got s block ok_got (rw (probe, take_probe, bad) at h)
        | inr good ↦
            take_probe-accepted want replies (some b) (credit peer (length b) s) block
              (λ c p. let q : b ≡ c = cc in subst (λ d. rejected sha256 want d ≡ false) q good)
              (rw (probe, take_probe, good) at h)
      ]
