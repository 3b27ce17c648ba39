-- ===== src/Fetch/Layer.antt =====
-- One layer of `fetch_partition`: what is there is kept, and what is missing is verified or nothing.
use mathlib.Core.Path.{subst}
use expert_sniper.Prelude.{
  ℕ, ◌+◌, ◌*◌, true, Option, none, some, List, [], ◌∷◌, String, length, ◌≡◌, refl, sym, ap, ◌∙◌,
  inl, inr, ◌⊎◌, arith, Bool-cases, Option-cases, nat_beq,
}
use expert_sniper.Prelude.Sorted.{is_in}
use expert_sniper.Fetch.{
  Bytes, pwrite, Pull, ok, file_of, has_slot, probe, take_probe, missing, store_block, first_block,
  pull_all, pull_layer,
}
use expert_sniper.Fetch.Accepted.{take_probe-accepted}
use expert_sniper.Fetch.Verified.{
  verified, Progress, no-Progress, then_Progress, Published, write-Progress, pull_all-Pulled,
}

module _ (sha256 : Bytes → String) (page n : ℕ) (blocks : ℕ → Option String) (num : ℕ)
    (sized : (e : ℕ) (block : Bytes) → blocks e ≡ some (sha256 block) → length block ≡ n) where
  abbrev Wanted : List ℕ → Type 0
  Wanted = Published blocks num

  record Missing (mine : List ℕ) (p : Pull) (out : List ℕ × Pull) : Type 0 where
    same_file : out.1.file ≡ p.file
    still_wanted : Wanted out.0
    covers :
        (x : ℕ)
        → is_in x mine ≡ true
        → (is_in x out.0 ≡ true) ⊎ (verified sha256 page n blocks x p.file ≡ true)

  missing-Missing :
      (mine : List ℕ) (p : Pull)
      → Wanted mine
      → Missing mine p (missing sha256 page n blocks mine p)
  unfolding missing
  missing-Missing [] p w = record { same_file = refl; still_wanted = tt; covers = λ x h. absurd cc }
  missing-Missing (e ∷ mine) p (below, pub_e, w) =
      elim (Bool-cases (verified sha256 page n blocks e p.file)) [
        | inl held ↦
            let skip : Pull = record p {
              stats = record p.stats { skipped = p.stats.skipped + 1 };
            } in
            let m = missing-Missing mine skip w in
            rw (missing, held)
              (record {
                same_file = m.same_file;
                still_wanted = m.still_wanted;
                covers = λ x h. elim (Bool-cases (nat_beq e x)) [
                  | inl same ↦
                      let q : e ≡ x = ground (arith, same) in
                      inr (subst (λ y. verified sha256 page n blocks y p.file ≡ true) q held)
                  | inr other ↦ m.covers x (ground (arith, other, h))
                ];
              })
        | inr absent ↦
            let m = missing-Missing mine p w in
            rw (missing, absent)
              (record {
                same_file = m.same_file;
                still_wanted = (below, pub_e, m.still_wanted);
                covers = λ x h. elim (Bool-cases (nat_beq e x)) [
                  | inl same ↦ inl (ground (arith, same))
                  | inr other ↦ elim (m.covers x (ground (arith, other, h))) [
                    | inl later ↦ inl (ground (arith, later))
                    | inr held ↦ inr held
                  ]
                ];
              })
      ]

  record First (todo : List ℕ) (p : Pull) (out : List ℕ × Pull) : Type 0 where
    grown : Progress sha256 page n blocks p.file out.1.file
    still_wanted : Wanted out.0
    covers :
        (x : ℕ)
        → is_in x todo ≡ true
        → (is_in x out.0 ≡ true) ⊎ (verified sha256 page n blocks x out.1.file ≡ true)

  first_block-First :
      (replies : ℕ → List (String × Option Bytes)) (todo : List ℕ) (p : Pull)
      → length p.file ≡ page + num * n
      → Wanted todo
      → First todo p (first_block sha256 page n blocks replies todo p)
  unfolding first_block store_block
  first_block-First replies [] p len w = record {
    grown = no-Progress sha256 page n blocks p.file;
    still_wanted = tt;
    covers = λ x h. absurd cc;
  }
  first_block-First replies (e ∷ todo) p len (below, pub_e, w) = elim (Bool-cases p.probed) [
    | inl done ↦
        rw (first_block, done)
          (record {
            grown = no-Progress sha256 page n blocks p.file;
            still_wanted = (below, pub_e, w);
            covers = λ x h. inl h;
          })
    | inr fresh ↦
        elim (Option-cases (take_probe (probe sha256 (blocks e) (replies e)) none p.stats).0) [
          | inl q ↦
              rw (first_block, fresh, q)
                (record {
                  grown = no-Progress sha256 page n blocks p.file;
                  still_wanted = (below, pub_e, w);
                  covers = λ x h. inl h;
                })
          | inr (block, q) ↦
              let accepted =
                take_probe-accepted sha256 (blocks e) (replies e) none p.stats block
                  (λ b r. absurd cc) q in
              let (grown, here) =
                write-Progress sha256 page n blocks num sized e block p.file len below pub_e
                  accepted in
              rw (first_block, fresh, q)
                (record {
                  grown = grown;
                  still_wanted = w;
                  covers = λ x h. elim (Bool-cases (nat_beq e x)) [
                    | inl same ↦
                        let at_x : e ≡ x = ground (arith, same) in
                        inr (
                          subst
                            (λ y.
                              verified sha256 page n blocks y (pwrite block (page + e * n) p.file)
                              ≡ true)
                            at_x here)
                    | inr other ↦ inl (ground (arith, other, h))
                  ];
                })
        ]
  ]

  layer-Progress :
      (replies : ℕ → List (String × Option Bytes)) (order : ℕ → List String)
      (reply : ℕ → ℕ → String → Option Bytes) (mine : List ℕ) (p : Pull)
      → length p.file ≡ page + num * n
      → Wanted mine
      → Progress sha256 page n blocks p.file
          (file_of (pull_layer sha256 page n blocks replies order reply mine p))
        × ((p' : Pull) (x : ℕ)
            → pull_layer sha256 page n blocks replies order reply mine p ≡ ok p'
            → is_in x mine ≡ true
            → verified sha256 page n blocks x p'.file ≡ true)
  unfolding pull_layer
  layer-Progress replies order reply mine p len w =
      let (todo, p1) = missing sha256 page n blocks mine p in
      let m = missing-Missing mine p w in
      let len1 = ap length m.same_file ∙ len in
      let f = first_block-First replies todo p1 len1 m.still_wanted in
      let (todo', p2) = first_block sha256 page n blocks replies todo p1 in
      let r =
        pull_all-Pulled sha256 page n blocks num sized order reply todo' p2
          (f.grown.same_length ∙ len1) f.still_wanted in
      let to_end = then_Progress sha256 page n blocks _ _ _ f.grown r.progress in
      (
        subst
            (λ g.
              Progress sha256 page n blocks g
                (file_of (pull_all sha256 page n blocks order reply todo' p2)))
            m.same_file to_end,
        λ p' x done h. elim (m.covers x h) [
          | inr held ↦
              let held1 =
                subst (λ g. verified sha256 page n blocks x g ≡ true) (sym m.same_file) held in
              subst (λ o. verified sha256 page n blocks x (file_of o) ≡ true) done
                (to_end.keeps x held1)
          | inl asked ↦ elim (f.covers x asked) [
            | inl later ↦ r.complete p' x done later
            | inr held ↦
                subst (λ o. verified sha256 page n blocks x (file_of o) ≡ true) done
                  (r.progress.keeps x held)
          ]
        ],
      )

  -- Suppose that the published hashes are of blocks of the right size, that the layer file has room
  -- for all experts, and that all of this machine's experts are published. If the pull of a layer
  -- ends without an exception, then every block of this machine verifies on the disk, whatever the
  -- peers replied and in whatever order they were asked.
  pub pull_layer-verified :
      (replies : ℕ → List (String × Option Bytes)) (order : ℕ → List String)
      (reply : ℕ → ℕ → String → Option Bytes) (mine : List ℕ) (p p' : Pull) (x : ℕ)
      → length p.file ≡ page + num * n
      → Published blocks num mine
      → pull_layer sha256 page n blocks replies order reply mine p ≡ ok p'
      → is_in x mine ≡ true
      → has_slot sha256 page n blocks x p'.file ≡ true
  pull_layer-verified replies order reply mine p p' x len w done h =
      (layer-Progress replies order reply mine p len w).1 p' x done h

  -- Under the same conditions a block of any expert that verifies before the pull verifies after it,
  -- even if an exception ends the pull, and the file keeps its size.
  pub pull_layer-keeps :
      (replies : ℕ → List (String × Option Bytes)) (order : ℕ → List String)
      (reply : ℕ → ℕ → String → Option Bytes) (mine : List ℕ) (p : Pull) (x : ℕ)
      → length p.file ≡ page + num * n
      → Published blocks num mine
      → has_slot sha256 page n blocks x p.file ≡ true
      → (has_slot sha256 page n blocks x
            (file_of (pull_layer sha256 page n blocks replies order reply mine p))
          ≡ true)
        × (length (file_of (pull_layer sha256 page n blocks replies order reply mine p))
            ≡ length p.file)
  pull_layer-keeps replies order reply mine p x len w h =
      let (all, _) = layer-Progress replies order reply mine p len w in
      (all.keeps x h, all.same_length)
