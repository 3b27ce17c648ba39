-- ===== src/Driver/Parts.antt =====
-- The loop over the plan: each part that it computes is the part of its node.
use mathlib.Core.Path.{subst}
use expert_sniper.Prelude.{
  some-pair, ℕ, true, ◌&&◌, Option, some, List, [], ◌∷◌, ◌++◌, String, ◌≡◌, refl, sym, ap, ◌∙◌, inl,
  inr, ◌⊎◌, arith, Option-cases, Bool-cases, nat_beq_iff, nat_eq, pair_eq, string_eq, ◌==◌,
}
use expert_sniper.Prelude.Sorted.{is_in}
use expert_sniper.Dict.{Dict, get?, set}
use expert_sniper.Dict.Laws.{get?-set}
use expert_sniper.Node.Agree.{filter_same, is_in-filter}
use expert_sniper.Driver.{Driver, owner_of, is_known, owned_by}
use expert_sniper.Driver.Compute.{
  all_known, owned, take_hot, Answer, part, evicted, Request, partial, local_partial, Parts,
  run_plan, add_all, is_local, plan,
}
use expert_sniper.Driver.Knows.{Nodes, Has, Knows}
use expert_sniper.Driver.TakenHot.{take_hot-TakenHot, take_hot-Entries}
use expert_sniper.Driver.Local.{
  no_part-zeros, some_part, owner_exact, owned_by-known, all_known-is_known,
}

pub known-all_known :
    (owner : Dict ℕ (Option String)) (ids : List ℕ)
    → ((x : ℕ) → is_in x ids ≡ true → is_known (owner_of x owner) ≡ true)
    → all_known owner ids ≡ true
known-all_known owner [] h = refl
known-all_known owner (e ∷ ids) h =
    let here = h e (ground (arith, (nat_beq_iff e e).1 refl)) in
    let rest = known-all_known owner ids (λ x m. h x (ground (arith, m))) in
    ground (arith, here, rest)

module _ {ℓ κ μ} {A : Type ℓ} {W : Type κ} {P : Type μ} (nodes : Nodes A) (q : Request A W P)
    (asked : (x : ℕ) → is_in x q.inds ≡ true → is_in x q.active ≡ true)
    (disjoint : (e : ℕ) (u v : String) → Has nodes e u → Has nodes e v → u ≡ v)
    (urls : List String) where
  -- What the node at `url` itself answers.
  abbrev pub Computes : String → P → Type μ
  Computes url out =
      (n : ℕ) × (partial q (nodes.experts url) (nodes.partition url) (nodes.num_experts url)
        ≡ some (n, out))

  -- The answer of `_local_partial` is the node's part or `None`, and what the driver knows stays right.
  record LocalIsRight (out : P) (d : Driver A) (result : Driver A × Answer P) : Type (ℓ ⊔ μ) where
    answer : (result.1 ≡ part out) ⊎ (result.1 ≡ evicted)
    knows : Knows nodes urls result.0
    same_owner : result.0.owner ≡ d.owner

  hot-Knows :
      (l : ℕ) (mine : List ℕ) (d : Driver A)
      → Knows nodes urls d
      → Knows nodes urls (record d { hot = (take_hot l mine [] d.hot).0 })
  hot-Knows l mine d k = record {
    same_urls = k.same_urls;
    owners = k.owners;
    parts = k.parts;
    hot = take_hot-Entries nodes l mine [] d.hot k.hot;
  }

  local_partial-LocalIsRight :
      (url : String) (out : P) (mine : List ℕ) (d : Driver A)
      → Computes url out
      → Knows nodes urls d
      → all_known d.owner q.active ≡ true
      → owned d.owner url q.active ≡ mine
      → LocalIsRight out d (local_partial q url mine d)
  unfolding local_partial
  local_partial-LocalIsRight url out [] d (n, computes) k known mine_is =
      let zeros = no_part-zeros nodes q asked disjoint urls d k known url n out mine_is computes in
      record { answer = inl (ap (λ p. part p) (sym zeros)); knows = k; same_owner = refl }
  local_partial-LocalIsRight url out (e ∷ mine) d (n, computes) k known mine_is =
      let k' = hot-Knows q.layer (e ∷ mine) d k in
      elim (Option-cases (take_hot q.layer (e ∷ mine) [] d.hot).1) [
        | inl p ↦
            rw (local_partial, p) (record { answer = inr refl; knows = k'; same_owner = refl })
        | inr (experts, p) ↦
            let taken = take_hot-TakenHot nodes q.layer (e ∷ mine) [] experts d.hot k.hot p in
            let self : is_in e (e ∷ mine) ≡ true = ground (arith, (nat_beq_iff e e).1 refl) in
            let both : (is_in e q.active && owned_by url (owner_of e d.owner)) ≡ true =
              sym (is_in-filter (λ x. owned_by url (owner_of x d.owner)) e q.active)
              ∙ ap (is_in e) mine_is
              ∙ self in
            let (ids, at_url, m) =
              owned_by-known nodes disjoint urls d k url e
                (all_known-is_known d.owner e q.active known (ground (arith, both)))
                (ground (arith, both)) in
            let s =
              some_part nodes q asked disjoint urls d k known url e mine experts ids n out mine_is
                taken at_url computes in
            rw (local_partial, p, at_url, s)
              (record { answer = inl refl; knows = k'; same_owner = refl })
      ]

  -- Whatever the driver has learnt in between, an expert of the request has the same owner.
  owned_same :
      (url : String) (d d' : Driver A)
      → Knows nodes urls d
      → Knows nodes urls d'
      → all_known d.owner q.active ≡ true
      → all_known d'.owner q.active ≡ true
      → owned d'.owner url q.active ≡ owned d.owner url q.active
  owned_same url d d' k k' known known' =
      filter_same (λ e. owned_by url (owner_of e d'.owner)) (λ e. owned_by url (owner_of e d.owner))
        q.active
        (λ x m.
          sym (
            owner_exact nodes disjoint urls d' k' url x
              (all_known-is_known d'.owner x q.active known' m))
          ∙ owner_exact nodes disjoint urls d k url x
              (all_known-is_known d.owner x q.active known m))

  -- Each part that was computed is the node's.
  abbrev pub LocalParts : Dict String P → Type μ
  LocalParts local =
      (url : String) (p : P) → get? url local ≡ some p → (out : P) → Computes url out → p ≡ out

  -- The plan was made when the driver knew the owners of all active experts.
  abbrev pub Planned : Driver A → Dict String (List ℕ) → Type 0
  Planned d [] = Unit
  Planned d ((url, mine) ∷ rest) =
      (all_known d.owner q.active ≡ true) × (owned d.owner url q.active ≡ mine) × Planned d rest

  pub record PartsAreRight (s : Parts q) : Type (ℓ ⊔ μ) where
    pub knows : Knows nodes urls s.driver
    pub local_right : LocalParts s.local

  set-LocalParts :
      (url : String) (out : P) (local : Dict String P)
      → Computes url out
      → LocalParts local
      → LocalParts (set url out local)
  set-LocalParts url out local c h u p got out' c' = elim (Bool-cases (url == u)) [
    | inl same ↦
        let q' : some out ≡ some p = rw (get?-set url u out local, same) at got in
        let at_u : url ≡ u = (string_eq.same_iff url u).0 same in
        let c'' = subst (λ v. Computes v out) at_u c in
        let both = sym c''.1 ∙ c'.1 in
        let same_out : out ≡ p = cc in sym same_out ∙ (some-pair both).1
    | inr other ↦ h u p (rw (get?-set url u out local, other) at got) out' c'
  ]

  -- `lands` are fetches that end before a node's turn.
  module _ (lands : String → Driver A → Driver A)
      (lands_Knows : (u : String) (d : Driver A)
        → Knows nodes urls d
        → Knows nodes urls (lands u d))
      (lands_known : (u : String) (d : Driver A)
        → all_known d.owner q.active ≡ true
        → all_known (lands u d).owner q.active ≡ true)
      (answers : (u : String) → (out : P) × Computes u out) (d0 : Driver A)
      (k0 : Knows nodes urls d0) where
    pub run_plan-right :
        (p : Dict String (List ℕ)) (s : Parts q)
        → Planned d0 p
        → PartsAreRight s
        → (all_known d0.owner q.active ≡ true → all_known s.driver.owner q.active ≡ true)
        → (s' : Parts q) × (run_plan q lands p s ≡ some s') × PartsAreRight s'
    unfolding run_plan
    run_plan-right [] s planned right keeps = (s, refl, right)
    run_plan-right ((url, mine) ∷ p) s (known, mine_is, planned) right keeps =
        let d = lands url s.driver in
        let k = lands_Knows url s.driver right.knows in
        let known' = lands_known url s.driver (keeps known) in
        let (out, computes) = answers url in
        let mine_is' = owned_same url d0 d k0 k known known' ∙ mine_is in
        let r = local_partial-LocalIsRight url out mine d computes k known' mine_is' in
        let result = local_partial q url mine d in
        let keeps' : all_known d0.owner q.active ≡ true → all_known result.0.owner q.active ≡ true =
          λ h. ap (λ o. all_known o q.active) r.same_owner ∙ known' in
        elim r.answer [
          | inl done ↦
              let s1 : Parts q = record s {
                driver = result.0;
                local = set url out s.local;
                cached = add_all mine s.cached;
              } in
              let right1 : PartsAreRight s1 = record {
                knows = r.knows;
                local_right = set-LocalParts url out s.local computes right.local_right;
              } in
              rw (run_plan, done) (run_plan-right p s1 planned right1 keeps')
          | inr gone ↦
              let s1 : Parts q = record s { driver = result.0; remote = s.remote ++ url ∷ [] } in
              let right1 : PartsAreRight s1 = record {
                knows = r.knows;
                local_right = right.local_right;
              } in
              rw (run_plan, gone) (run_plan-right p s1 planned right1 keeps')
        ]

  set-Planned :
      (d : Driver A) (url : String) (local : Dict String (List ℕ))
      → all_known d.owner q.active ≡ true
      → Planned d local
      → Planned d (set url (owned d.owner url q.active) local)
  unfolding set
  set-Planned d url [] known h = (known, refl, tt)
  set-Planned d url ((u, mine) ∷ local) known (k, m, h) = elim (Bool-cases (u == url)) [
    | inl same ↦
        let q' = (string_eq.same_iff u url).0 same in
        rw same (known, ap (λ v. owned d.owner v q.active) q', h)
    | inr other ↦ rw other (k, m, set-Planned d url local known h)
  ]

  is_local-known :
      (d : Driver A) (url : String)
      → is_local d q.layer q.active url ≡ true
      → all_known d.owner q.active ≡ true
  unfolding is_local
  is_local-known d url h = elim (Bool-cases (all_known d.owner q.active)) [
    | inl known ↦ known
    | inr some_unknown ↦ absurd (let never = rw some_unknown at h in cc)
  ]

  pub plan-Planned :
      (d : Driver A) (us : List String) (local : Dict String (List ℕ)) (remote : List String)
      → Planned d local
      → Planned d (plan d q.layer q.active us local remote).0
  unfolding plan
  plan-Planned d [] local remote h = h
  plan-Planned d (url ∷ us) local remote h = elim (Bool-cases (is_local d q.layer q.active url)) [
    | inl here ↦
        let known : all_known d.owner q.active ≡ true = is_local-known d url here in
        rw (plan, here)
          (plan-Planned d us (set url (owned d.owner url q.active) local) remote
            (set-Planned d url local known h))
    | inr away ↦ rw (plan, away) (plan-Planned d us local (remote ++ url ∷ []) h)
  ]
