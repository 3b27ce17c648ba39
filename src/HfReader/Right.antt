-- ===== src/HfReader/Right.antt =====
-- Every operation leaves the reader right, whether it answers or fails.
use mathlib.Core.Path.{subst}
use expert_sniper.Prelude.{
  ℕ, ◌+◌, ◌||◌, Option, none, some, List, [], ◌∷◌, String, length, ◌≡◌, sym, ◌∙◌, inl, inr,
  Option-cases, Bool-cases, nat_beq, nat_beq_iff, nat_eq, pair_eq, string_eq, if◌then◌else◌,
}
use expert_sniper.Dict.{Dict, get?, set, remove, contains}
use expert_sniper.Dict.Laws.{get?-set, get?-remove}
use expert_sniper.Lru.{get, has}
use expert_sniper.Lru.Entries.{get-Entries}
use expert_sniper.Lru.Invariant.{get-IsValid}
use expert_sniper.Fetch.{Bytes}
use expert_sniper.Reader.Format.{Info}
use expert_sniper.Node.{Expert, parse_expert_block}
use expert_sniper.HfReader.{
  Sources, Fetched, HfReader, tensors_of, fetch, submit, futures_at, prefetch_experts, future_for,
  look_up, consume, store_rest, keep_rest, get_experts,
}
use expert_sniper.HfReader.Faithful.{Truth, IsFaithful, IsTrue, AllTrue, Right}
use expert_sniper.HfReader.Fetched.{
  some_inj, TrueBlock, set-AllTrue, get?-AllTrue, tensors_of-TensorsTrue, FetchTrue,
  fetch-FetchTrue, parsed-true, put-Right,
}

module _ {ℓ} {A : Type ℓ} (listed : List (ℕ × ℕ)) (view : Info → Bytes → Option A)
    (truth : Truth) where
  abbrev Good : HfReader A → Type ℓ
  Good r = Right listed view truth r

  pub futures_at-AllTrue :
      (l : ℕ) (r : HfReader A) → Good r → AllTrue listed view truth l (futures_at l r)
  unfolding futures_at
  futures_at-AllTrue l r k = elim (Option-cases (get? l r.prefetch_futures)) [
    | inl p ↦ rw (futures_at, p) tt
    | inr (futs, p) ↦ rw (futures_at, p) (k.futures l futs p)
  ]

  -- What was looked for leaves the rest of the cache right.
  pub get-Right : (l e : ℕ) (r : HfReader A) → Good r → Good (record r { lru = (get l e r.lru).0 })
  get-Right l e r k = record {
    cached = get-Entries (IsTrue listed view truth) l e r.lru k.cached;
    valid = get-IsValid l e r.lru k.valid;
    layouts = k.layouts;
    headers = k.headers;
    futures = k.futures;
  }

  pub popped-Right :
      (l : ℕ) (r : HfReader A)
      → Good r
      → Good (record r { prefetch_futures = remove l r.prefetch_futures })
  popped-Right l r k = record {
    cached = k.cached;
    valid = k.valid;
    layouts = k.layouts;
    headers = k.headers;
    futures = λ j futs h. elim (Bool-cases (nat_beq l j)) [
      | inl here ↦ absurd (let never = rw (get?-remove l j r.prefetch_futures, here) at h in cc)
      | inr away ↦ k.futures j futs (rw (get?-remove l j r.prefetch_futures, away) at h)
    ];
  }

  module _ (l : ℕ) (tensors : Dict String Info) (t : tensors ≡ (truth.layout l).tensors) where
    store_rest-Right :
        (e : ℕ) (got : Fetched) (r : HfReader A)
        → TrueBlock listed view truth l e got
        → Good r
        → Good (store_rest listed view l tensors e got r)
    unfolding store_rest
    store_rest-Right e none r b k = k
    store_rest-Right e (some (is_local, raw)) r (b, _) k =
        let parsed = parsed-true listed view truth l e raw tensors t b in
        elim (Option-cases (parse_expert_block view raw tensors)) [
          | inl q ↦ rw (store_rest, q) k
          | inr (expert, q) ↦
              let (lru, stored, cached, valid) =
                put-Right listed view truth l e expert r k (sym parsed ∙ q) in
              rw (store_rest, q, stored)
                (record {
                  cached = cached;
                  valid = valid;
                  layouts = k.layouts;
                  headers = k.headers;
                  futures = k.futures;
                })
        ]

    pub keep_rest-Right :
        (pending futs : Dict ℕ Fetched) (r : HfReader A)
        → AllTrue listed view truth l futs
        → Good r
        → Good (keep_rest listed view l tensors pending futs r)
    unfolding keep_rest store_rest
    keep_rest-Right pending [] r all k = k
    keep_rest-Right pending ((e, none) ∷ futs) r all k =
        elim (Bool-cases (contains e pending || has l e r.lru)) [
          | inl skip ↦ rw skip (keep_rest-Right pending futs r all k)
          | inr store ↦ rw store (keep_rest-Right pending futs r all k)
        ]
    keep_rest-Right pending ((e, some got) ∷ futs) r (b, all) k =
        elim (Bool-cases (contains e pending || has l e r.lru)) [
          | inl skip ↦ rw skip (keep_rest-Right pending futs r all k)
          | inr store ↦ rw store (
              keep_rest-Right pending futs (store_rest listed view l tensors e (some got) r) all
                (store_rest-Right e (some got) r (b, tt) k))
        ]

    pub consume-Right :
        (pending : Dict ℕ Fetched) (out : Dict ℕ (Expert A)) (r : HfReader A)
        → AllTrue listed view truth l pending
        → Good r
        → Good (consume listed view l tensors pending out r).0
    unfolding consume
    consume-Right [] out r all k = k
    consume-Right ((e, none) ∷ pending) out r all k = k
    consume-Right ((e, some (is_local, raw)) ∷ pending) out r (b, all) k =
        let parsed = parsed-true listed view truth l e raw tensors t b in
        elim (Option-cases (parse_expert_block view raw tensors)) [
          | inl q ↦ rw (consume, q) k
          | inr (expert, q) ↦
              let (lru, stored, cached, valid) =
                put-Right listed view truth l e expert r k (sym parsed ∙ q) in
              rw (consume, q, stored)
                (consume-Right pending (set e expert out)
                  (record r {
                    lru = lru;
                    bytes_read = r.bytes_read + length raw;
                    local_hits = r.local_hits + (if is_local then 1 else 0);
                    hf_reads = r.hf_reads + (if is_local then 0 else 1);
                  })
                  all
                  (record {
                    cached = cached;
                    valid = valid;
                    layouts = k.layouts;
                    headers = k.headers;
                    futures = k.futures;
                  }))
        ]

  module _ (src : Sources) (faithful : IsFaithful listed view truth src) where
    submit-Right :
        (l : ℕ) (ids : List ℕ) (futs : Dict ℕ Fetched) (r : HfReader A)
        → AllTrue listed view truth l futs
        → Good r
        → Good (submit listed view src l ids futs r).0
          × AllTrue listed view truth l (submit listed view src l ids futs r).1
    unfolding submit
    submit-Right l [] futs r all k = (k, all)
    submit-Right l (e ∷ ids) futs r all k = elim (Bool-cases (contains e futs || has l e r.lru)) [
      | inl skip ↦ rw (submit, skip) (submit-Right l ids futs r all k)
      | inr new ↦
          let f = fetch-FetchTrue listed view truth src faithful l e r k in
          let (r', got) = fetch listed view src l e r in
          rw (submit, new)
            (submit-Right l ids (set e got futs) r'
              (set-AllTrue listed view truth l e got futs f.is_true all) f.right)
    ]

    pub prefetch_experts-Right :
        (l : ℕ) (ids : List ℕ) (r : HfReader A)
        → Good r
        → Good (prefetch_experts listed view src l ids r)
    unfolding prefetch_experts
    prefetch_experts-Right l ids r k =
        let (k', all) = submit-Right l ids (futures_at l r) r (futures_at-AllTrue l r k) k in
        let (r', futs) = submit listed view src l ids (futures_at l r) r in
        record {
          cached = k'.cached;
          valid = k'.valid;
          layouts = k'.layouts;
          headers = k'.headers;
          futures = λ j other h. elim (Bool-cases (nat_beq l j)) [
            | inl here ↦
                let at_j : l ≡ j = (nat_beq_iff l j).0 here in
                let same = some_inj (rw (get?-set l j futs r'.prefetch_futures, here) at h) in
                subst (AllTrue listed view truth j) same
                  (subst (λ i. AllTrue listed view truth i futs) at_j all)
            | inr away ↦ k'.futures j other (rw (get?-set l j futs r'.prefetch_futures, away) at h)
          ];
        }

    pub future_for-FetchTrue :
        (l : ℕ) (futs : Dict ℕ Fetched) (e : ℕ) (r : HfReader A)
        → AllTrue listed view truth l futs
        → Good r
        → FetchTrue listed view truth src faithful l e (future_for listed view src l futs e r)
    unfolding future_for
    future_for-FetchTrue l futs e r all k = elim (Option-cases (get? e futs)) [
      | inl p ↦ rw (future_for, p) (fetch-FetchTrue listed view truth src faithful l e r k)
      | inr (got, p) ↦
          rw (future_for, p)
            (record { right = k; is_true = get?-AllTrue listed view truth l e got futs all p })
    ]

    pub look_up-Right :
        (l : ℕ) (futs : Dict ℕ Fetched) (ids : List ℕ) (out : Dict ℕ (Expert A))
        (pending : Dict ℕ Fetched) (r : HfReader A)
        → AllTrue listed view truth l futs
        → AllTrue listed view truth l pending
        → Good r
        → Good (look_up listed view src l futs ids out pending r).0
          × AllTrue listed view truth l (look_up listed view src l futs ids out pending r).1.1
    unfolding look_up
    look_up-Right l futs [] out pending r held all k = (k, all)
    look_up-Right l futs (e ∷ ids) out pending r held all k =
        let r' : HfReader A = record r { lru = (get l e r.lru).0 } in
        let k' = get-Right l e r k in
        elim (Option-cases (get l e r.lru).1) [
          | inl p ↦
              let f = future_for-FetchTrue l futs e r' held k' in
              let (r'', got) = future_for listed view src l futs e r' in
              rw (look_up, p)
                (look_up-Right l futs ids out (set e got pending) r'' held
                  (set-AllTrue listed view truth l e got pending f.is_true all) f.right)
          | inr (expert, p) ↦
              rw (look_up, p) (look_up-Right l futs ids (set e expert out) pending r' held all k')
        ]

    pub get_experts-Right :
        (l : ℕ) (ids : List ℕ) (r : HfReader A)
        → Good r
        → Good (get_experts listed view src l ids r).0
    unfolding get_experts
    get_experts-Right l ids r k =
        let popped : HfReader A = record r { prefetch_futures = remove l r.prefetch_futures } in
        let futs = futures_at l r in
        let held = futures_at-AllTrue l r k in
        let looked = look_up listed view src l futs ids [] [] popped in
        let (k1, all) = look_up-Right l futs ids [] [] popped held tt (popped-Right l r k) in
        let t = tensors_of-TensorsTrue listed view truth src faithful l looked.0 k1 in
        let r2 = (tensors_of listed view src l looked.0).0 in
        elim (Option-cases (tensors_of listed view src l looked.0).1) [
          | inl p ↦ rw (get_experts, p) t.right
          | inr (tensors, p) ↦
              let same = t.same tensors p in
              let k3 = consume-Right l tensors same looked.1.1 looked.1.0 r2 all t.right in
              let r3 = (consume listed view l tensors looked.1.1 looked.1.0 r2).0 in
              elim (Option-cases (consume listed view l tensors looked.1.1 looked.1.0 r2).1) [
                | inl q ↦ rw (get_experts, p, q) k3
                | inr (out, q) ↦
                    let k4 = keep_rest-Right l tensors same looked.1.1 futs r3 held k3 in
                    rw (get_experts, p, q)
                      (record {
                        cached = k4.cached;
                        valid = k4.valid;
                        layouts = k4.layouts;
                        headers = k4.headers;
                        futures = k4.futures;
                      })
              ]
        ]
