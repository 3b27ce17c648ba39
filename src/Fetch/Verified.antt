-- ===== src/Fetch/Verified.antt =====
-- What lies on the disk after a pull is verified.
use mathlib.Core.Path.{subst}
use expert_sniper.Prelude.{
  ℕ, ◌+◌, ◌-◌, ◌*◌, ◌≤◌, ◌<◌, Bool, true, false, not, Option, none, some, List, [], ◌∷◌, String,
  length, ◌≡◌, ◌≢◌, refl, sym, ap, ◌∙◌, inl, inr, arith, Bool-cases, Option-cases, ==_refl, nat_beq,
  string_eq, ◌==◌,
}
use expert_sniper.Prelude.Sorted.{is_in}
use expert_sniper.Fetch.{
  Bytes, pwrite, Pull, Outcome, ok, file_of, credit, rejected, fetch_block, have_block, has_slot,
  store_block, pull_all,
}
use expert_sniper.Fetch.Accepted.{fetch_block-accepted}
use expert_sniper.Fetch.Slots.{length-pwrite, pread-pwrite, pread-pwrite_other}

-- Experts of the model whose hashes are published.
abbrev pub Published : (ℕ → Option String) → ℕ → List ℕ → Type 0
Published blocks num [] = Unit
Published blocks num (e ∷ mine) = (e < num) × (blocks e ≢ none) × Published blocks num mine

module _ (sha256 : Bytes → String) (page n : ℕ) (blocks : ℕ → Option String) where
  abbrev pub verified : ℕ → Bytes → Bool
  verified = has_slot sha256 page n blocks

  -- A file that has grown by verified blocks.
  pub record Progress (f f' : Bytes) : Type 0 where
    pub same_length : length f' ≡ length f
    pub keeps : (x : ℕ) → verified x f ≡ true → verified x f' ≡ true

  pub no-Progress : (f : Bytes) → Progress f f
  no-Progress f = record { same_length = refl; keeps = λ x h. h }

  pub then_Progress : (f g h : Bytes) → Progress f g → Progress g h → Progress f h
  then_Progress f g h a b = record {
    same_length = b.same_length ∙ a.same_length;
    keeps = λ x p. b.keeps x (a.keeps x p);
  }

  module _ (num : ℕ)
      (sized : (e : ℕ) (block : Bytes) → blocks e ≡ some (sha256 block) → length block ≡ n) where
    published :
        (e : ℕ) (block : Bytes)
        → blocks e ≢ none
        → rejected sha256 (blocks e) block ≡ false
        → blocks e ≡ some (sha256 block)
    published e block p h = elim (Option-cases (blocks e)) [
      | inl q ↦ absurd (p q)
      | inr (want, q) ↦
          let r : not (sha256 block == want) ≡ false = rw q at h in
          let same : sha256 block ≡ want =
            (string_eq.same_iff (sha256 block) want).0 (ground (arith, r)) in
          q ∙ ap some (sym same)
    ]

    pub write-Progress :
        (e : ℕ) (block f : Bytes)
        → length f ≡ page + num * n
        → e < num
        → blocks e ≢ none
        → rejected sha256 (blocks e) block ≡ false
        → Progress f (pwrite block (page + e * n) f)
          × (verified e (pwrite block (page + e * n) f) ≡ true)
    write-Progress e block f len below pub_e h =
        let is_hash = published e block pub_e h in
        let size = sized e block is_hash in
        let fits : page + e * n + n ≤ length f =
          let k = num - e - 1 in
          let p : num ≡ e + 1 + k = omega (arith, below) in rw (len, p) (grind arith) in
        let block_at = have_block sha256 page n blocks in
        let here : verified e (pwrite block (page + e * n) f) ≡ true =
          ap (block_at (blocks e))
            (pread-pwrite block (page + e * n) n f size (omega (arith, fits)))
          ∙ ap (λ w. block_at w block) is_hash
          ∙ ground (arith, size, ==_refl (sha256 block)) in
        (
          record {
            same_length = length-pwrite block (page + e * n) f (omega (arith, size, fits));
            keeps = λ x p. elim (Bool-cases (nat_beq x e)) [
              | inl same ↦
                  let q : e ≡ x = ground (arith, same) in
                  subst (λ y. verified y (pwrite block (page + e * n) f) ≡ true) q here
              | inr differs ↦
                  ap (block_at (blocks x)) (
                    pread-pwrite_other block page n e x f size (omega (arith, fits))
                      (λ q. ground (arith, differs)))
                  ∙ p
            ];
          },
          here,
        )

    -- What a pull of some blocks leaves: the file keeps what it had, and if no exception ended the
    -- pull, then all of them are there.
    pub record Pulled (todo : List ℕ) (f : Bytes) (o : Outcome) : Type 0 where
      pub progress : Progress f (file_of o)
      pub complete : (p : Pull) (x : ℕ) → o ≡ ok p → is_in x todo ≡ true → verified x p.file ≡ true

    pub pull_all-Pulled :
        (order : ℕ → List String) (reply : ℕ → ℕ → String → Option Bytes) (todo : List ℕ) (p : Pull)
        → length p.file ≡ page + num * n
        → Published blocks num todo
        → Pulled todo p.file (pull_all sha256 page n blocks order reply todo p)
    unfolding pull_all store_block
    pull_all-Pulled order reply [] p len pub_todo = record {
      progress = no-Progress p.file;
      complete = λ q x e h. absurd cc;
    }
    pull_all-Pulled order reply (e ∷ todo) p len (below, pub_e, pub_todo) =
        elim (Option-cases (fetch_block sha256 (blocks e) (order e) (reply e) 0 3)) [
          | inl q ↦
              rw (pull_all, q)
                (record { progress = no-Progress p.file; complete = λ p' x r h. absurd cc })
          | inr ((block, peer), q) ↦
              let accepted =
                fetch_block-accepted sha256 (blocks e) (order e) (reply e) 0 3 block peer q in
              let (grown, here) = write-Progress e block p.file len below pub_e accepted in
              let stored = store_block sha256 page n blocks e block p.stats p in
              let credited : Pull = record stored {
                stats = credit peer (length block) stored.stats;
              } in
              let rest =
                pull_all-Pulled order reply todo credited (grown.same_length ∙ len) pub_todo in
              rw (pull_all, q)
                (record {
                  progress = then_Progress _ _ _ grown rest.progress;
                  complete = λ p' x r h. elim (Bool-cases (nat_beq e x)) [
                    | inl same ↦
                        let at_x : e ≡ x = ground (arith, same) in
                        let stays = rest.progress.keeps e here in
                        let ends = subst (λ o. verified e (file_of o) ≡ true) r stays in
                        subst (λ y. verified y p'.file ≡ true) at_x ends
                    | inr other ↦ rest.complete p' x r (ground (arith, other, h))
                  ];
                })
        ]
