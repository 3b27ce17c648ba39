-- ===== src/Driver/Compute.antt =====
-- `_plan`, `_local_partial` and `compute_distributed` of src/expert_network/reader.py.
use expert_sniper.Prelude.{
  ℕ, ◌+◌, Bool, true, false, not, ◌&&◌, Option, none, some, List, [], ◌∷◌, ◌++◌, String, length,
  max, nat_eq, pair_eq, string_eq,
}
use expert_sniper.Prelude.Sorted.{is_in}
use expert_sniper.Dict.{Dict, get?, set, contains}
use expert_sniper.Hrw.{filter}
use expert_sniper.Lru.{Cache, add, get, has}
use expert_sniper.Node.{Expert, Experts, compute_partial}
use expert_sniper.Driver.{Driver, owner_of, is_known, owned_by, warm_all}

abbrev pub all_known : Dict ℕ (Option String) → List ℕ → Bool
all_known owner [] = true
all_known owner (e ∷ ids) = is_known (owner_of e owner) && all_known owner ids

-- `[e for e in active_ids if owners[e] == url]`
abbrev pub owned : Dict ℕ (Option String) → String → List ℕ → List ℕ
owned owner url active = filter (λ e. owned_by url (owner_of e owner)) active

module _ {ℓ} {A : Type ℓ} where
  abbrev pub all_hot : ℕ → List ℕ → Cache (Expert A) → Bool
  all_hot l [] hot = true
  all_hot l (e ∷ ids) hot = has l e hot && all_hot l ids hot

  -- The two tests of `_plan` for one node: it is local if the owner of every active expert is known, and
  -- either all its active experts are cached, or it has none and its partition is known.
  unfoldable pub is_local : Driver A → ℕ → List ℕ → String → Bool
  is_local d l active url =
      let mine = owned d.owner url active in
      all_known d.owner active
      && elim mine [ [] ↦ contains url d.partition | e ∷ ids ↦ all_hot l (e ∷ ids) d.hot ]

  -- `_plan`: the nodes to compute here with their experts, and those to ask.
  unfoldable pub plan :
      Driver A
      → ℕ
      → List ℕ
      → List String
      → Dict String (List ℕ)
      → List String
      → Dict String (List ℕ) × List String
  plan d l active [] local remote = (local, remote)
  plan d l active (url ∷ urls) local remote = elim (is_local d l active url) [
    | true ↦ plan d l active urls (set url (owned d.owner url active) local) remote
    | false ↦ plan d l active urls local (remote ++ url ∷ [])
  ]

  -- The loop of `_local_partial` over `mine`; `none` if an expert was evicted since the plan.
  unfoldable pub take_hot :
      ℕ → List ℕ → Experts A → Cache (Expert A) → Cache (Expert A) × Option (Experts A)
  take_hot l [] experts hot = (hot, some experts)
  take_hot l (e ∷ mine) experts hot =
      let (hot', found) = get l e hot in
      elim found [
        | none ↦ (hot', none)
        | some expert ↦ take_hot l mine (set (l, e) expert experts) hot'
      ]

-- `max(xs)` of a list of ids, 0 if it is empty.
abbrev pub maximum : List ℕ → ℕ
maximum [] = 0
maximum (x ∷ xs) = max x (maximum xs)

-- The answer of `_local_partial`: a part, `None`, or an exception.
pub data Answer {ℓ} (P : Type ℓ) : Type ℓ where
  part : P → Answer P
  evicted : Answer P
  exception : Answer P

-- A request after it is unpacked: `masked` and `ffn` are the numeric kernel on its hidden state.
pub record Request {ℓ κ μ} (A : Type ℓ) (W : Type κ) (P : Type μ) : Type (ℓ ⊔ κ ⊔ μ) where
  pub layer : ℕ
  pub active : List ℕ
  pub inds : List ℕ
  pub weights : List W
  pub masked : Bool → W → W
  pub ffn : List (ℕ × Expert A) → List ℕ → List W → P
  pub zeros : P

abbrev pub add_all : List ℕ → List ℕ → List ℕ
add_all [] s = s
add_all (e ∷ ids) s = add_all ids (add e s)

unfoldable pub missing : List ℕ → List ℕ → List ℕ
missing cached active = filter (λ e. not (is_in e cached)) active

module _ {ℓ κ μ} {A : Type ℓ} {W : Type κ} {P : Type μ} (q : Request A W P) where
  -- What `compute_partial` makes of the request on a node with these experts.
  abbrev pub partial : Experts A → List ℕ → ℕ → Option (ℕ × P)
  partial experts partition num_experts =
      compute_partial q.masked q.ffn q.zeros experts partition num_experts q.layer q.active q.inds
        q.weights

  unfoldable pub local_partial : String → List ℕ → Driver A → Driver A × Answer P
  local_partial url [] d = (d, part q.zeros)
  local_partial url (e ∷ mine) d =
      let (hot, found) = take_hot q.layer (e ∷ mine) [] d.hot in
      let d' : Driver A = record d { hot = hot } in
      elim found [
        | none ↦ (d', evicted)
        | some experts ↦ elim (get? url d.partition) [
          | none ↦ (d', exception)
          | some known ↦
              let num_experts = max (max (maximum q.inds) (maximum q.active)) (maximum known) + 1 in
              elim (partial experts known num_experts) [
                | none ↦ (d', exception)
                | some (n, out) ↦ (d', part out)
              ]
        ]
      ]

  -- The state of the loop over the plan: `local` and `remote`, and the set `cached`.
  pub record Parts : Type (ℓ ⊔ μ) where
    pub driver : Driver A
    pub local : Dict String P
    pub remote : List String
    pub cached : List ℕ

  -- Before each node, the fetches that `lands` lists for it end. `none` is an exception.
  unfoldable pub run_plan :
      (String → Driver A → Driver A) → Dict String (List ℕ) → Parts → Option Parts
  run_plan lands [] s = some s
  run_plan lands ((url, mine) ∷ plan) s =
      let (d, out) = local_partial url mine (lands url s.driver) in
      elim out [
        | part p ↦
            run_plan lands plan
              (record s { driver = d; local = set url p s.local; cached = add_all mine s.cached })
        | evicted ↦ run_plan lands plan (record s { driver = d; remote = s.remote ++ url ∷ [] })
        | exception ↦ none
      ]

  -- `total` over the nodes in their order: the part computed here, or the node's answer.
  unfoldable pub collect : Dict String P → (String → Option P) → List String → Option (List P)
  collect local post [] = some []
  collect local post (url ∷ urls) =
      elim (elim (get? url local) as (λ _. Option P) [ some p ↦ some p | none ↦ post url ]) [
        | none ↦ none
        | some p ↦ elim (collect local post urls) [ none ↦ none | some parts ↦ some (p ∷ parts) ]
      ]

  -- The counters, and the fetches of what was missing.
  unfoldable pub account : Parts → Driver A
  account s =
      let d = s.driver in
      let absent = missing s.cached q.active in
      warm_all q.layer absent (record d {
        hot_hits = d.hot_hits + length s.cached;
        hot_misses = d.hot_misses + length absent;
        hot_skipped = d.hot_skipped + length s.local;
        requests_sent = d.requests_sent + length s.remote;
      })

  -- The parts that are summed, in the order of the nodes, and the driver afterwards. `none` is an
  -- exception.
  unfoldable pub compute_distributed :
      (String → Driver A → Driver A) → (String → Option P) → Driver A → Option (List P × Driver A)
  compute_distributed lands post d =
      let (local, remote) = plan d q.layer q.active d.node_urls [] [] in
      elim (run_plan lands local
        (record { driver = d; local = []; remote = remote; cached = [] })) [
          | none ↦ none
          | some s ↦ elim (collect s.local post d.node_urls) [
            | none ↦ none
            | some parts ↦ some (parts, account s)
          ]
        ]

  -- Without the hot cache every node is asked.
  unfoldable pub broadcast : (String → Option P) → List String → Option (List P)
  broadcast post node_urls = collect [] post node_urls
