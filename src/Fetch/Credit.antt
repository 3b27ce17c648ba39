-- ===== src/Fetch/Credit.antt =====
-- The counters of a pull: every block is counted once, and every byte is credited to a peer.
use mathlib.Core.Path.{subst}
use expert_sniper.Prelude.{
  ap, ℕ, ◌+◌, Bool, true, false, Option, none, some, List, [], ◌∷◌, ◌++◌, String, length, ◌≡◌, refl,
  inl, inr, arith, Bool-cases, Option-cases, string_eq, ◌==◌, if◌then◌else◌,
}
use expert_sniper.Dict.{Dict, get?, set}
use expert_sniper.Dict.Laws.{get?-set}
use expert_sniper.Fetch.{
  Bytes, Stats, Pull, ok, rejected, delivered_by, credit, fetch_block, probe, take_probe, has_slot,
  missing, store_block, first_block, pull_all, pull_layer,
}

-- All that the peers delivered.
abbrev pub delivered_sum : Dict String ℕ → ℕ
delivered_sum [] = 0
delivered_sum ((node, n) ∷ d) = n + delivered_sum d

sum-set :
    (node : String) (v : ℕ) (d : Dict String ℕ)
    → delivered_sum (set node v d) + delivered_by node d ≡ delivered_sum d + v
unfolding get? set
sum-set node v [] = omega arith
sum-set node v ((who, m) ∷ d) = ground (arith, sum-set node v d)

-- What the peers delivered is what arrived.
record IsBalanced (s : Stats) : Type 0 where
  pub balanced : delivered_sum s.delivered ≡ s.bytes

credit-IsBalanced :
    (node : String) (n : ℕ) (s : Stats) → IsBalanced s → IsBalanced (credit node n s)
unfolding credit
credit-IsBalanced node n s b = record {
  balanced =
      omega (arith, sum-set node (delivered_by node s.delivered + n) s.delivered, b.balanced);
}

-- The blocks that arrive, told apart by the peer that sends them, with their lengths.
abbrev pub total : List (String × ℕ) → ℕ
total [] = 0
total ((peer, n) ∷ arrivals) = n + total arrivals

-- What one peer sent of them.
abbrev pub sent_by : String → List (String × ℕ) → ℕ
sent_by node [] = 0
sent_by node ((peer, n) ∷ arrivals) = (if peer == node then n else 0) + sent_by node arrivals

total-append : (xs ys : List (String × ℕ)) → total (xs ++ ys) ≡ total xs + total ys
total-append [] ys = omega arith
total-append ((peer, n) ∷ xs) ys = omega (arith, total-append xs ys)

sent_by-append :
    (node : String) (xs ys : List (String × ℕ))
    → sent_by node (xs ++ ys) ≡ sent_by node xs + sent_by node ys
sent_by-append node [] ys = omega arith
sent_by-append node ((peer, n) ∷ xs) ys = omega (arith, sent_by-append node xs ys)

delivered_by-set :
    (node peer : String) (v : ℕ) (d : Dict String ℕ)
    → delivered_by node (set peer v d) ≡ (if peer == node then v else delivered_by node d)
delivered_by-set node peer v d = elim (Bool-cases (peer == node)) [
  | inl same ↦ rw (delivered_by, get?-set peer node v d, same) refl
  | inr other ↦ rw (delivered_by, get?-set peer node v d, other) refl
]

-- From one state of the counters to the next, these blocks are credited, and no others.
record Pays (arrivals : List (String × ℕ)) (s s' : Stats) : Type 0 where
  pub keeps : IsBalanced s → IsBalanced s'
  pub bytes : s'.bytes ≡ s.bytes + total arrivals
  pub credits :
      (node : String)
      → delivered_by node s'.delivered ≡ delivered_by node s.delivered + sent_by node arrivals

no-Pays : (s : Stats) → Pays [] s s
no-Pays s = record { keeps = λ b. b; bytes = omega arith; credits = λ node. omega arith }

credit-Pays : (peer : String) (n : ℕ) (s : Stats) → Pays ((peer, n) ∷ []) s (credit peer n s)
unfolding credit
credit-Pays peer n s = record {
  keeps = λ b. credit-IsBalanced peer n s b;
  bytes = omega arith;
  credits = λ node. elim (Bool-cases (peer == node)) [
    | inl same ↦
        let at_node : peer ≡ node = (string_eq.same_iff peer node).0 same in
        let q : delivered_by peer s.delivered ≡ delivered_by node s.delivered =
          ap (λ x. delivered_by x s.delivered) at_node in
        rw (delivered_by-set node peer (delivered_by peer s.delivered + n) s.delivered, same)
          (omega (arith, q))
    | inr other ↦
        rw (delivered_by-set node peer (delivered_by peer s.delivered + n) s.delivered, other)
          (omega arith)
  ];
}

then_Pays :
    (xs ys : List (String × ℕ)) (s s' s'' : Stats)
    → Pays xs s s'
    → Pays ys s' s''
    → Pays (xs ++ ys) s s''
then_Pays xs ys s s' s'' first rest = record {
  keeps = λ b. rest.keeps (first.keeps b);
  bytes = omega (arith, first.bytes, rest.bytes, total-append xs ys);
  credits = λ node. omega (arith, first.credits node, rest.credits node, sent_by-append node xs ys);
}

-- Some deliveries: they are paid, and no block is counted.
record Credited (arrivals : List (String × ℕ)) (s s' : Stats) : Type 0 where
  pays : Pays arrivals s s'
  same_fetched : s'.fetched ≡ s.fetched
  same_skipped : s'.skipped ≡ s.skipped

abbrev pub counted : Pull → ℕ
counted p = p.stats.fetched + p.stats.skipped

module _ (sha256 : Bytes → String) where
  -- The replies to the probe that pass the check, whatever the loops of the program do with them.
  abbrev pub verified_replies : Option String → List (String × Option Bytes) → List (String × ℕ)
  verified_replies want [] = []
  verified_replies want ((peer, none) ∷ replies) = verified_replies want replies
  verified_replies want ((peer, some block) ∷ replies) =
      if rejected sha256 want block
      then verified_replies want replies
      else (peer, length block) ∷ verified_replies want replies

  take_probe-Credited :
      (want : Option String) (replies : List (String × Option Bytes)) (got : Option Bytes)
      (s : Stats)
      → Credited (verified_replies want replies) s (take_probe (probe sha256 want replies) got s).1
  unfolding take_probe probe credit
  take_probe-Credited want [] got s = record {
    pays = no-Pays s;
    same_fetched = refl;
    same_skipped = refl;
  }
  take_probe-Credited want ((peer, none) ∷ replies) got s = take_probe-Credited want replies got s
  take_probe-Credited want ((peer, some block) ∷ replies) got s =
      elim (Bool-cases (rejected sha256 want block)) [
        | inl bad ↦ rw (probe, bad) (take_probe-Credited want replies got s)
        | inr good ↦
            let paid = credit peer (length block) s in
            let rest = take_probe-Credited want replies (some block) paid in
            rw (probe, good)
              (record {
                pays =
                    then_Pays ((peer, length block) ∷ []) (verified_replies want replies) s paid
                      (take_probe (probe sha256 want replies) (some block) paid).1
                      (credit-Pays peer (length block) s) rest.pays;
                same_fetched = rest.same_fetched;
                same_skipped = rest.same_skipped;
              })
      ]

module _ (sha256 : Bytes → String) (blocks : ℕ → Option String) where
  -- What arrives in the probe: each peer that answers the first missing block with a good one.
  abbrev pub probe_arrivals : (ℕ → List (String × Option Bytes)) → List ℕ → Bool → List (String × ℕ)
  probe_arrivals replies [] probed = []
  probe_arrivals replies (e ∷ todo) true = []
  probe_arrivals replies (e ∷ todo) false = verified_replies sha256 (blocks e) (replies e)

  -- What arrives after it: of each block to do, the one that the peers deliver.
  unfoldable pub fetch_arrivals :
      (ℕ → List String) → (ℕ → ℕ → String → Option Bytes) → List ℕ → List (String × ℕ)
  fetch_arrivals order reply [] = []
  fetch_arrivals order reply (e ∷ todo) =
      elim (fetch_block sha256 (blocks e) (order e) (reply e) 0 3) [
        | none ↦ []
        | some (block, peer) ↦ (peer, length block) ∷ fetch_arrivals order reply todo
      ]

  fetch_arrivals_cons :
      (order : ℕ → List String) (reply : ℕ → ℕ → String → Option Bytes) (e : ℕ) (todo : List ℕ)
      (block : Bytes) (peer : String)
      → fetch_block sha256 (blocks e) (order e) (reply e) 0 3 ≡ some (block, peer)
      → fetch_arrivals order reply (e ∷ todo)
        ≡ (peer, length block) ∷ fetch_arrivals order reply todo
  unfolding fetch_arrivals
  fetch_arrivals_cons order reply e todo block peer q = rw (fetch_arrivals, q) refl

module _ (sha256 : Bytes → String) (page n : ℕ) (blocks : ℕ → Option String) where
  abbrev pub arrivals :
      (ℕ → List (String × Option Bytes))
      → (ℕ → List String)
      → (ℕ → ℕ → String → Option Bytes)
      → List ℕ
      → Pull
      → List (String × ℕ)
  arrivals replies order reply mine p =
      let (todo, p1) = missing sha256 page n blocks mine p in
      probe_arrivals sha256 blocks replies todo p1.probed
      ++ fetch_arrivals sha256 blocks order reply
          (first_block sha256 page n blocks replies todo p1).0

  -- A step from one pull to the next: what was to do is counted or still to do, and what arrived is paid.
  record Accounts (sent : List (String × ℕ)) (todo : List ℕ) (p : Pull) (todo' : List ℕ) (p' : Pull)
      : Type 0 where
    counts : counted p' + length todo' ≡ counted p + length todo
    pays : Pays sent p.stats p'.stats

  missing-Accounts :
      (mine : List ℕ) (p : Pull)
      → Accounts [] mine p
          (missing sha256 page n blocks mine p).0
          (missing sha256 page n blocks mine p).1
  unfolding missing
  missing-Accounts [] p = record { counts = refl; pays = no-Pays p.stats }
  missing-Accounts (e ∷ mine) p = elim (Bool-cases (has_slot sha256 page n blocks e p.file)) [
    | inl held ↦
        let skip : Pull = record p { stats = record p.stats { skipped = p.stats.skipped + 1 } } in
        let rest = missing-Accounts mine skip in
        rw (missing, held)
          (record {
            counts = omega (arith, rest.counts);
            pays = record {
              keeps = λ b. rest.pays.keeps (record { balanced = b.balanced });
              bytes = rest.pays.bytes;
              credits = rest.pays.credits;
            };
          })
    | inr absent ↦
        let rest = missing-Accounts mine p in
        rw (missing, absent) (record { counts = omega (arith, rest.counts); pays = rest.pays })
  ]

  first_block-Accounts :
      (replies : ℕ → List (String × Option Bytes)) (todo : List ℕ) (p : Pull)
      → Accounts
          (probe_arrivals sha256 blocks replies todo p.probed)
          todo
          p
          (first_block sha256 page n blocks replies todo p).0
          (first_block sha256 page n blocks replies todo p).1
  unfolding first_block store_block
  first_block-Accounts replies [] p = record { counts = refl; pays = no-Pays p.stats }
  first_block-Accounts replies (e ∷ todo) p =
      let results = probe sha256 (blocks e) (replies e) in
      let c = take_probe-Credited sha256 (blocks e) (replies e) none p.stats in
      elim (Bool-cases p.probed) [
        | inl done ↦ rw (first_block, done) (record { counts = refl; pays = no-Pays p.stats })
        | inr fresh ↦ elim (Option-cases (take_probe results none p.stats).0) [
          | inl q ↦
              rw (first_block, fresh, q)
                (record { counts = omega (arith, c.same_fetched, c.same_skipped); pays = c.pays })
          | inr (block, q) ↦
              rw (first_block, fresh, q)
                (record {
                  counts = omega (arith, c.same_fetched, c.same_skipped);
                  pays = record {
                    keeps = λ b. record { balanced = (c.pays.keeps b).balanced };
                    bytes = c.pays.bytes;
                    credits = c.pays.credits;
                  };
                })
        ]
      ]

  pull_all-Accounts :
      (order : ℕ → List String) (reply : ℕ → ℕ → String → Option Bytes) (todo : List ℕ)
      (p p' : Pull)
      → pull_all sha256 page n blocks order reply todo p ≡ ok p'
      → Accounts (fetch_arrivals sha256 blocks order reply todo) todo p [] p'
  unfolding pull_all store_block credit fetch_arrivals
  pull_all-Accounts order reply [] p p' h =
      let same : p ≡ p' = cc in
      subst (Accounts [] [] p []) same (record { counts = refl; pays = no-Pays p.stats })
  pull_all-Accounts order reply (e ∷ todo) p p' h =
      elim (Option-cases (fetch_block sha256 (blocks e) (order e) (reply e) 0 3)) [
        | inl q ↦ absurd (let never = rw (pull_all, q) at h in cc)
        | inr ((block, peer), q) ↦
            let stored = store_block sha256 page n blocks e block p.stats p in
            let next : Pull = record stored { stats = credit peer (length block) stored.stats } in
            let rest = pull_all-Accounts order reply todo next p' (rw (pull_all, q) at h) in
            let pays =
              then_Pays ((peer, length block) ∷ []) (fetch_arrivals sha256 blocks order reply todo)
                stored.stats next.stats p'.stats (credit-Pays peer (length block) stored.stats)
                rest.pays in
            rw (fetch_arrivals_cons sha256 blocks order reply e todo block peer q) (record {
              counts = omega (arith, rest.counts);
              pays = record {
                keeps = λ b. pays.keeps (record { balanced = b.balanced });
                bytes = pays.bytes;
                credits = pays.credits;
              };
            })
      ]

  -- If the pull of a layer ends without an exception, each block of this machine was counted once, as
  -- fetched or as skipped. Of what arrived, the good replies to the probe and then the block that was
  -- accepted for each that was left, the bytes are counted once, and each peer is credited with exactly
  -- the bytes that it sent, whatever the peers replied. So if the bytes that arrived before were all
  -- credited, then so are those that arrived since.
  pub pull_layer-counted :
      (replies : ℕ → List (String × Option Bytes)) (order : ℕ → List String)
      (reply : ℕ → ℕ → String → Option Bytes) (mine : List ℕ) (p p' : Pull) (node : String)
      → pull_layer sha256 page n blocks replies order reply mine p ≡ ok p'
      → delivered_sum p.stats.delivered ≡ p.stats.bytes
      → (counted p' ≡ counted p + length mine)
        × (p'.stats.bytes ≡ p.stats.bytes + total (arrivals replies order reply mine p))
        × (delivered_by node p'.stats.delivered
            ≡ delivered_by node p.stats.delivered
              + sent_by node (arrivals replies order reply mine p))
        × (delivered_sum p'.stats.delivered ≡ p'.stats.bytes)
  unfolding pull_layer
  pull_layer-counted replies order reply mine p p' node h b =
      let (todo, p1) = missing sha256 page n blocks mine p in
      let (todo', p2) = first_block sha256 page n blocks replies todo p1 in
      let m = missing-Accounts mine p in
      let f = first_block-Accounts replies todo p1 in
      let r = pull_all-Accounts order reply todo' p2 p' h in
      let probed = probe_arrivals sha256 blocks replies todo p1.probed in
      let fetched = fetch_arrivals sha256 blocks order reply todo' in
      let pays =
        then_Pays [] (probed ++ fetched) p.stats p1.stats p'.stats m.pays
          (then_Pays probed fetched p1.stats p2.stats p'.stats f.pays r.pays) in
      (
        omega (arith, m.counts, f.counts, r.counts),
        pays.bytes,
        pays.credits node,
        (pays.keeps (record { balanced = b })).balanced,
      )
