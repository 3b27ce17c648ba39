-- ===== src/HfReader/Serves.antt =====
-- `get_experts` answers with the experts of the model.
use mathlib.Core.Path.{subst}
use expert_sniper.Prelude.{
  ℕ, ◌+◌, Bool, true, ◌||◌, ◌⊎◌, Option, none, some, List, [], ◌∷◌, String, length, ◌≡◌, ◌≢◌, refl,
  sym, ap, ◌∙◌, inl, inr, arith, Option-cases, Bool-cases, nat_beq, nat_beq_iff, nat_eq, pair_eq,
  string_eq, if◌then◌else◌,
}
use expert_sniper.Dict.{Dict, get?, set, remove, contains}
use expert_sniper.Dict.Laws.{get?-set}
use expert_sniper.Lru.{member, get}
use expert_sniper.Lru.Entries.{get-Fits}
use expert_sniper.Fetch.{Bytes}
use expert_sniper.Reader.Format.{Info}
use expert_sniper.Node.{LayerLayout, Expert}
use expert_sniper.HfReader.{
  Sources, Fetched, HfReader, local_block, layer_of, tensors_of, futures_at, future_for, look_up,
  consume, get_experts,
}
use expert_sniper.HfReader.Faithful.{
  Truth, IsFaithful, true_expert, IsTrue, AllTrue, Right, Finds, IsAvailable, CanServe,
}
use expert_sniper.HfReader.Fetched.{
  hf_layout-finds, parsed-true, put-Right, tensors_of-TensorsTrue, layer_of-Right,
}
use expert_sniper.HfReader.Ready.{layer_of-Finds, future_for-Ready}
use expert_sniper.HfReader.Right.{
  futures_at-AllTrue, get-Right, popped-Right, future_for-FetchTrue, look_up-Right,
}

module _ {ℓ} {A : Type ℓ} (listed : List (ℕ × ℕ)) (view : Info → Bytes → Option A) (truth : Truth)
    (l : ℕ) where
  -- What was answered so far is of the model.
  abbrev AnswersTrue : Dict ℕ (Expert A) → Type ℓ
  AnswersTrue out =
      (e : ℕ) (x : Expert A) → get? e out ≡ some x → true_expert listed view truth l e ≡ some x

  -- The expert is pending with a result, or answered.
  abbrev Covered : ℕ → Dict ℕ Fetched → Dict ℕ (Expert A) → Type ℓ
  Covered e pending out = (contains e pending ≡ true) ⊎ ((x : Expert A) × (get? e out ≡ some x))

  -- Each pending fetch was asked for, and did not fail.
  abbrev AllDone : (ℕ → Type ℓ) → Dict ℕ Fetched → Type ℓ
  AllDone Served [] = Unit
  AllDone Served ((e, none) ∷ pending) = Served e × ⊥
  AllDone Served ((e, some got) ∷ pending) = Served e × AllDone Served pending

  set-AnswersTrue :
      (e : ℕ) (x : Expert A) (out : Dict ℕ (Expert A))
      → AnswersTrue out
      → true_expert listed view truth l e ≡ some x
      → AnswersTrue (set e x out)
  set-AnswersTrue e x out right is_true j y h = elim (Bool-cases (nat_beq e j)) [
    | inl same ↦
        let q : some x ≡ some y = rw (get?-set e j x out, same) at h in
        ap (λ i. true_expert listed view truth l i) (sym ((nat_beq_iff e j).0 same)) ∙ is_true ∙ q
    | inr other ↦ right j y (rw (get?-set e j x out, other) at h)
  ]

  kept :
      (e j : ℕ) (x y : Expert A) (out : Dict ℕ (Expert A))
      → get? j out ≡ some y
      → (z : Expert A) × (get? j (set e x out) ≡ some z)
  kept e j x y out h = elim (Bool-cases (nat_beq e j)) [
    | inl same ↦ (x, get?-set e j x out ∙ rw same refl)
    | inr other ↦ (y, get?-set e j x out ∙ rw other h)
  ]

  nothing : AnswersTrue []
  unfolding get?
  nothing e x h = absurd cc

  contains-set :
      (e j : ℕ) (got : Fetched) (futs : Dict ℕ Fetched)
      → contains j (set e got futs) ≡ (nat_beq e j || contains j futs)
  contains-set e j got futs = elim (Bool-cases (nat_beq e j)) [
    | inl same ↦ rw (contains, get?-set e j got futs, same) refl
    | inr other ↦ rw (contains, get?-set e j got futs, other) refl
  ]

  contains_cons :
      (e j : ℕ) (got : Fetched) (futs : Dict ℕ Fetched)
      → contains j ((e, got) ∷ futs) ≡ (nat_beq e j || contains j futs)
  unfolding get?
  contains_cons e j got futs = elim (Bool-cases (nat_beq e j)) [
    | inl same ↦ rw (contains, same) refl
    | inr other ↦ rw (contains, other) refl
  ]

  set-AllDone :
      (Served : ℕ → Type ℓ) (e : ℕ) (got : Bool × Bytes) (futs : Dict ℕ Fetched)
      → Served e
      → AllDone Served futs
      → AllDone Served (set e (some got) futs)
  unfolding set
  set-AllDone Served e got [] here all = (here, tt)
  set-AllDone Served e got ((j, none) ∷ futs) here (_, never) = absurd never
  set-AllDone Served e got ((j, some old) ∷ futs) here (first, all) =
      elim (Bool-cases (nat_beq j e)) [
        | inl same ↦ rw (set, same) (first, all)
        | inr other ↦ rw (set, other) (first, set-AllDone Served e got futs here all)
      ]

  abbrev Parses : ℕ → Type ℓ
  Parses e = (x : Expert A) × (true_expert listed view truth l e ≡ some x)

  module _ (src : Sources) (faithful : IsFaithful listed view truth src)
      (header : Option LayerLayout) where
    -- After the loop over the ids: each is pending or answered, and what is pending did not fail.
    record Looked (ids : List ℕ) (pending : Dict ℕ Fetched) (out : Dict ℕ (Expert A))
        (result : HfReader A × (Dict ℕ (Expert A) × Dict ℕ Fetched)) : Type ℓ where
      covers :
          (e : ℕ) → (member e ids ≡ true) ⊎ Covered e pending out → Covered e result.1.1 result.1.0
      all_done : AllDone Parses result.1.1
      answers : AnswersTrue result.1.0
      finds : Finds listed view truth src result.0 l header

    look_up-Looked :
        (futs : Dict ℕ Fetched) (ids : List ℕ) (pending : Dict ℕ Fetched) (out : Dict ℕ (Expert A))
        (r : HfReader A)
        → AllTrue listed view truth l futs
        → AllDone Parses pending
        → Right listed view truth r
        → Finds listed view truth src r l header
        → AnswersTrue out
        → ((e : ℕ) → member e ids ≡ true → CanServe listed view truth src header l e)
        → ((e : ℕ) → member e ids ≡ true → get? e futs ≢ some none)
        → Looked ids pending out (look_up listed view src l futs ids out pending r)
    unfolding look_up
    look_up-Looked futs [] pending out r held all k finds right can kept_well = record {
      covers = λ e h. elim h [ inl never ↦ absurd cc | inr c ↦ c ];
      all_done = all;
      answers = right;
      finds = finds;
    }
    look_up-Looked futs (e ∷ ids) pending out r held all k finds right can kept_well =
        let r' : HfReader A = record r { lru = (get l e r.lru).0 } in
        let k' = get-Right listed view truth l e r k in
        let first : member e (e ∷ ids) ≡ true = ground (arith, (nat_beq_iff e e).1 refl) in
        let (available, x, is_true) = can e first in
        elim (Option-cases (get l e r.lru).1) [
          | inl p ↦
              let f = future_for-FetchTrue listed view truth src faithful l futs e r' held k' in
              let ready =
                future_for-Ready listed view truth l src faithful header futs e r' k' finds
                  available (kept_well e first) in
              let (r'', got) = future_for listed view src l futs e r' in
              let rest =
                look_up-Looked futs ids (set e (some ready.got) pending) out r'' held
                  (set-AllDone Parses e ready.got pending (x, is_true) all) f.right ready.finds
                  right (λ j m. can j (ground (arith, m)))
                  (λ j m. kept_well j (ground (arith, m))) in
              rw (look_up, p, ready.answered)
                (record {
                  covers = λ j h. elim h [
                    | inl m ↦ elim (Bool-cases (nat_beq e j)) [
                      | inl same ↦
                          rest.covers j
                            (inr (inl (contains-set e j (some ready.got) pending ∙ rw same refl)))
                      | inr other ↦ rest.covers j (inl (ground (arith, m, other)))
                    ]
                    | inr c ↦ elim c [
                      | inl m ↦
                          rest.covers j (
                            inr
                              (inl (ground (arith, m, contains-set e j (some ready.got) pending))))
                      | inr found ↦ rest.covers j (inr (inr found))
                    ]
                  ];
                  all_done = rest.all_done;
                  answers = rest.answers;
                  finds = rest.finds;
                })
          | inr (y, p) ↦
              let y_true = get-Fits (IsTrue listed view truth) l e y r.lru k.cached p in
              let rest =
                look_up-Looked futs ids pending (set e y out) r' held all k' finds
                  (set-AnswersTrue e y out right y_true) (λ j m. can j (ground (arith, m)))
                  (λ j m. kept_well j (ground (arith, m))) in
              rw (look_up, p)
                (record {
                  covers = λ j h. elim h [
                    | inl m ↦ elim (Bool-cases (nat_beq e j)) [
                      | inl same ↦ rest.covers j (inr (inr (y, get?-set e j y out ∙ rw same refl)))
                      | inr other ↦ rest.covers j (inl (ground (arith, m, other)))
                    ]
                    | inr c ↦ elim c [
                      | inl m ↦ rest.covers j (inr (inl m))
                      | inr (z, found) ↦ rest.covers j (inr (inr (kept e j y z out found)))
                    ]
                  ];
                  all_done = rest.all_done;
                  answers = rest.answers;
                  finds = rest.finds;
                })
        ]

    -- After the loop over `pending`: every expert that was covered is answered.
    record Consumed (pending : Dict ℕ Fetched) (out : Dict ℕ (Expert A))
        (result : HfReader A × Option (Dict ℕ (Expert A))) : Type ℓ where
      out' : Dict ℕ (Expert A)
      answered : result.1 ≡ some out'
      answers : AnswersTrue out'
      covers : (e : ℕ) → Covered e pending out → (x : Expert A) × (get? e out' ≡ some x)

    consume-Consumed :
        (tensors : Dict String Info) (pending : Dict ℕ Fetched) (out : Dict ℕ (Expert A))
        (r : HfReader A)
        → tensors ≡ (truth.layout l).tensors
        → AllTrue listed view truth l pending
        → AllDone Parses pending
        → Right listed view truth r
        → AnswersTrue out
        → Consumed pending out (consume listed view l tensors pending out r)
    unfolding consume get?
    consume-Consumed tensors [] out r t all is_done k right = record {
      out' = out;
      answered = refl;
      answers = right;
      covers = λ e h. elim h [ inl never ↦ absurd cc | inr found ↦ found ];
    }
    consume-Consumed tensors ((e, none) ∷ pending) out r t all (_, never) k right = absurd never
    consume-Consumed tensors ((e, some (is_local, raw)) ∷ pending) out r t (b, all)
          ((x, is_true), is_done) k right =
        let q = parsed-true listed view truth l e raw tensors t b ∙ is_true in
        let (lru, stored, cached, valid) = put-Right listed view truth l e x r k is_true in
        let r' : HfReader A = record r {
          lru = lru;
          bytes_read = r.bytes_read + length raw;
          local_hits = r.local_hits + (if is_local then 1 else 0);
          hf_reads = r.hf_reads + (if is_local then 0 else 1);
        } in
        let k' : Right listed view truth r' = record {
          cached = cached;
          valid = valid;
          layouts = k.layouts;
          headers = k.headers;
          futures = k.futures;
        } in
        let rest =
          consume-Consumed tensors pending (set e x out) r' t all is_done k'
            (set-AnswersTrue e x out right is_true) in
        rw (consume, q, stored)
          (record {
            out' = rest.out';
            answered = rest.answered;
            answers = rest.answers;
            covers = λ j h. elim h [
              | inl m ↦ elim (Bool-cases (nat_beq e j)) [
                | inl same ↦ rest.covers j (inr (x, get?-set e j x out ∙ rw same refl))
                | inr other ↦ rest.covers j (
                    inl
                      (sym (contains_cons e j (some (is_local, raw)) pending ∙ rw other refl) ∙ m))
              ]
              | inr (y, found) ↦ rest.covers j (inr (kept e j x y out found))
            ];
          })

    tensors-found :
        (e : ℕ) (r : HfReader A)
        → Right listed view truth r
        → Finds listed view truth src r l header
        → IsAvailable listed view truth src header l e
        → (tensors : Dict String Info) × ((tensors_of listed view src l r).1 ≡ some tensors)
    unfolding tensors_of local_block
    tensors-found e r k finds available =
        let (p, known) = layer_of-Finds listed view truth l src faithful header r finds in
        let r' = (layer_of listed view src l r).0 in
        let k' = layer_of-Right listed view truth src faithful l r k in
        elim (Option-cases header) [
          | inr (h, q) ↦ let here = p ∙ ap some q in (h.tensors, rw (tensors_of, here) refl)
          | inl q ↦ elim available [
            | inl (raw, b) ↦
                let never = subst (λ x. local_block listed view src x l e ≡ some raw) q b in
                absurd cc
            | inr (layout, raw, block) ↦
                let absent = p ∙ ap some q in
                let found = hf_layout-finds listed view truth src faithful l r' k' layout in
                ((truth.layout l).tensors, rw (tensors_of, absent, found) refl)
          ]
        ]

    -- The sources are faithful to a model, the state of the reader is right, and `header` is what it finds of
    -- the layer on the disk. The block of each expert that is asked for can be fetched, from the disk or from
    -- the checkpoint, and parses, and no prefetch of one that is still held has failed. Then the call
    -- answers with the expert of the model for each of them, whatever is cached or prefetched.
    pub get_experts-serves :
        (ids : List ℕ) (r : HfReader A)
        → Right listed view truth r
        → Finds listed view truth src r l header
        → ((e : ℕ) → member e ids ≡ true → CanServe listed view truth src header l e)
        → ((e : ℕ) → member e ids ≡ true → get? e (futures_at l r) ≢ some none)
        → (e : ℕ) → member e ids ≡ true
        → (out : Dict ℕ (Expert A)) × ((get_experts listed view src l ids r).1 ≡ some out)
          × (x : Expert A) × (get? e out ≡ some x)
          × (true_expert listed view truth l e ≡ some x)
    unfolding get_experts
    get_experts-serves ids r k finds can kept_well e asked =
        let popped : HfReader A = record r { prefetch_futures = remove l r.prefetch_futures } in
        let k0 = popped-Right listed view truth l r k in
        let futs = futures_at l r in
        let held = futures_at-AllTrue listed view truth l r k in
        let first = look_up listed view src l futs ids [] [] popped in
        let looked = look_up-Looked futs ids [] [] popped held tt k0 finds nothing can kept_well in
        let (k1, all) =
          look_up-Right listed view truth src faithful l futs ids [] [] popped held tt k0 in
        let t = tensors_of-TensorsTrue listed view truth src faithful l first.0 k1 in
        let r2 = (tensors_of listed view src l first.0).0 in
        let (tensors, p) = tensors-found e first.0 k1 looked.finds (can e asked).0 in
        let consumed =
          consume-Consumed tensors first.1.1 first.1.0 r2 (t.same tensors p) all looked.all_done
            t.right looked.answers in
        let (x, found) = consumed.covers e (looked.covers e (inl asked)) in
        (
          consumed.out',
          rw (get_experts, p, consumed.answered) refl,
          x,
          found,
          consumed.answers e x found,
        )
