-- ===== src/FromHf/Writes.antt =====
-- One layer of `fetch_from_hf`: what its two loops leave on the disk and in the hashes.
use mathlib.Core.Path.{subst}
use expert_sniper.Prelude.{
  ℕ, ◌+◌, ◌*◌, ◌<◌, true, Option, some, List, [], ◌∷◌, String, length, ◌≡◌, refl, ap, ◌∙◌, inl, inr,
  ◌⊎◌, arith, Bool-cases, Option-cases, nat_beq, nat_beq_iff, pair_eq,
}
use expert_sniper.Prelude.Sorted.{is_in, AllBelow}
use expert_sniper.Dict.{set}
use expert_sniper.HfSource.Layout.{page_size}
use expert_sniper.Ngram.Disk.{row_end}
use expert_sniper.Fetch.{Bytes, rejected, has_slot}
use expert_sniper.FromHf.{Take, ok, wanted, sort_out, write_block, write_all, take_layer}
use expert_sniper.FromHf.Held.{Held, Keeps, no-Keeps, then_Keeps, skip-Keeps, write-Keeps}

module _ (sha256 : Bytes → String) (want : ℕ × ℕ → Option String) (bs : ℕ) (layer : ℕ) where
  record SortedOut (mine : List ℕ) (t : Take) (out : List ℕ × Take) : Type 0 where
    same_file : out.1.file ≡ t.file
    keeps : Keeps sha256 want bs layer t out.1
    covers :
        (x : ℕ)
        → is_in x mine ≡ true
        → (is_in x out.0 ≡ true) ⊎ Held sha256 want bs layer x out.1.file out.1.hashes
    below : (n : ℕ) → AllBelow n mine → AllBelow n out.0
    counts : out.1.fetched + out.1.skipped + length out.0 ≡ t.fetched + t.skipped + length mine

  skipped_lem :
      (e : ℕ) (w : String) (mine : List ℕ) (t : Take) (out : List ℕ × Take)
      → want (layer, e) ≡ some w
      → has_slot sha256 page_size bs (wanted sha256 want bs layer) e t.file ≡ true
      → SortedOut mine
          (record t { skipped = t.skipped + 1; hashes = set (layer, e) w t.hashes })
          out
      → SortedOut (e ∷ mine) t out
  skipped_lem e w mine t out published slot s =
      let next : Take = record t { skipped = t.skipped + 1; hashes = set (layer, e) w t.hashes } in
      let (keeps, here) = skip-Keeps sha256 want bs layer e w t published slot in
      record {
        same_file = s.same_file;
        keeps = then_Keeps sha256 want bs layer t next out.1 keeps s.keeps;
        covers = λ x h. elim (Bool-cases (nat_beq e x)) [
          | inl same ↦
              let q : e ≡ x = (nat_beq_iff e x).0 same in
              inr (
                subst (λ y. Held sha256 want bs layer y out.1.file out.1.hashes) q
                  (s.keeps.held e here))
          | inr other ↦ s.covers x (ground (arith, other, h))
        ];
        below = λ n b. s.below n b.1;
        counts = omega (arith, s.counts);
      }

  kept_lem :
      (e : ℕ) (mine : List ℕ) (t : Take) (out : List ℕ × Take)
      → SortedOut mine t out
      → SortedOut (e ∷ mine) t (e ∷ out.0, out.1)
  kept_lem e mine t out s = record {
    same_file = s.same_file;
    keeps = s.keeps;
    covers = λ x h. elim (Bool-cases (nat_beq e x)) [
      | inl same ↦ inl (ground (arith, same))
      | inr other ↦ elim (s.covers x (ground (arith, other, h))) [
        | inl todo ↦ inl (ground (arith, todo))
        | inr held ↦ inr held
      ]
    ];
    below = λ n b. (b.0, s.below n b.1);
    counts = omega (arith, s.counts);
  }

  sort_out-SortedOut :
      (mine : List ℕ) (t : Take) → SortedOut mine t (sort_out sha256 want bs layer mine t)
  unfolding sort_out
  sort_out-SortedOut [] t = record {
    same_file = refl;
    keeps = no-Keeps sha256 want bs layer t;
    covers = λ x h. absurd cc;
    below = λ n b. tt;
    counts = refl;
  }
  sort_out-SortedOut (e ∷ mine) t =
      let rest =
        kept_lem e mine t (sort_out sha256 want bs layer mine t) (sort_out-SortedOut mine t) in
      elim (Option-cases (want (layer, e))) [
        | inl p ↦ rw (sort_out, p) rest
        | inr (w, p) ↦
            elim (Bool-cases
              (has_slot sha256 page_size bs (wanted sha256 want bs layer) e t.file)) [
                | inr q ↦ rw (sort_out, p, q) rest
                | inl q ↦
                    rw (sort_out, p, q)
                      (skipped_lem e w mine t
                        (sort_out sha256 want bs layer mine (record t {
                          skipped = t.skipped + 1;
                          hashes = set (layer, e) w t.hashes;
                        }))
                        p q
                        (sort_out-SortedOut mine (record t {
                          skipped = t.skipped + 1;
                          hashes = set (layer, e) w t.hashes;
                        })))
              ]
      ]

  pub record Written (todo : List ℕ) (t t' : Take) : Type 0 where
    pub keeps : Keeps sha256 want bs layer t t'
    pub holds : (x : ℕ) → is_in x todo ≡ true → Held sha256 want bs layer x t'.file t'.hashes
    pub counts : t'.fetched + t'.skipped ≡ t.fetched + t.skipped + length todo

  write_block-counted :
      (e : ℕ) (block : Bytes) (t : Take)
      → (write_block sha256 want bs layer e block t).fetched
          + (write_block sha256 want bs layer e block t).skipped
        ≡ t.fetched + t.skipped + 1
  unfolding write_block
  write_block-counted e block t = omega arith

  module _ (num : ℕ) (source : ℕ → Option Bytes)
      (sized : (e : ℕ) (block : Bytes) → e < num → source e ≡ some block → length block ≡ bs) where
    write_all-Written :
        (todo : List ℕ) (t t' : Take)
        → length t.file ≡ page_size + num * bs
        → AllBelow num todo
        → write_all sha256 want bs layer source todo t ≡ ok t'
        → Written todo t t'
    unfolding write_all
    write_all-Written [] t t' len b h =
        let same : t ≡ t' = cc in
        subst (Written [] t) same (record {
          keeps = no-Keeps sha256 want bs layer t;
          holds = λ x m. absurd cc;
          counts = omega arith;
        })
    write_all-Written (e ∷ todo) t t' len (below, b) h = elim (Option-cases (source e)) [
      | inl p ↦ absurd (let never = rw (write_all, p) at h in cc)
      | inr (block, p) ↦ elim (Bool-cases (rejected sha256 (want (layer, e)) block)) [
        | inl q ↦ absurd (let never = rw (write_all, p, q) at h in cc)
        | inr q ↦
            let size = sized e block below p in
            let room = row_end e num bs below in
            let (keeps, here) =
              write-Keeps sha256 want bs layer e block t size (omega (arith, len, room)) q in
            let next = write_block sha256 want bs layer e block t in
            let rest =
              write_all-Written todo next t' (keeps.same_length ∙ len) b
                (rw (write_all, p, q) at h) in
            record {
              keeps = then_Keeps sha256 want bs layer t next t' keeps rest.keeps;
              holds = λ x m. elim (Bool-cases (nat_beq e x)) [
                | inl same ↦
                    let r : e ≡ x = (nat_beq_iff e x).0 same in
                    subst (λ y. Held sha256 want bs layer y t'.file t'.hashes) r
                      (rest.keeps.held e here)
                | inr other ↦ rest.holds x (ground (arith, other, m))
              ];
              counts = omega (arith, rest.counts, write_block-counted e block t);
            }
      ]
    ]

    -- All of `mine` is on the disk with its hash, and counted once.
    pub take_layer-Written :
        (mine : List ℕ) (t t' : Take)
        → length t.file ≡ page_size + num * bs
        → AllBelow num mine
        → take_layer sha256 want bs layer source mine t ≡ ok t'
        → Written mine t t'
    unfolding take_layer
    take_layer-Written mine t t' len below h =
        let out = sort_out sha256 want bs layer mine t in
        let s = sort_out-SortedOut mine t in
        let w =
          write_all-Written out.0 out.1 t' (ap length s.same_file ∙ len) (s.below num below) h in
        record {
          keeps = then_Keeps sha256 want bs layer t out.1 t' s.keeps w.keeps;
          holds = λ x m. elim (s.covers x m) [
            | inl todo ↦ w.holds x todo
            | inr held ↦ w.keeps.held x held
          ];
          counts = omega (arith, w.counts, s.counts);
        }
