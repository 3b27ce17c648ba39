-- ===== src/Driver/Knows.antt =====
-- What the driver knows of the nodes is right, and learning keeps it so.

use expert_sniper.Prelude.{
  ltb, nat_beq_iff, ◌⊎◌, ℕ, true, false, ◌||◌, Option, none, some, List, [], ◌∷◌, String, ◌≡◌, refl,
  ap, inl, inr, arith, Option-cases, Bool-cases, nat_beq, nat_eq, pair_eq, string_eq, ◌==◌, ==_refl,
  if◌then◌else◌,
}
use expert_sniper.Prelude.Sorted.{is_in}
use expert_sniper.Dict.{Dict, get?, set}
use expert_sniper.Dict.Laws.{get?-set}
use expert_sniper.Lru.{Key, add, member}
use expert_sniper.Lru.Invariant.{member-add}
use expert_sniper.Lru.Entries.{Entries}
use expert_sniper.Node.{Expert, Experts}
use expert_sniper.Driver.{Driver, World, Owner, unknown, nobody, node, owner_of, add_to, ask_nodes}

-- The nodes as they are: which experts each has, and their weights. The model has `num_layers` layers.
pub record Nodes {ℓ} (A : Type ℓ) : Type ℓ where
  pub partition : String → List ℕ
  pub experts : String → Experts A
  pub num_experts : String → ℕ
  pub num_layers : ℕ

module _ {ℓ} {A : Type ℓ} (nodes : Nodes A) where
  abbrev pub Has : ℕ → String → Type 0
  Has e url = is_in e (nodes.partition url) ≡ true

  -- No two nodes have the same expert. A node names its whole partition and serves its own blocks, and
  -- where no node serves a block of a layer of the model, none has the expert.
  pub record IsHonest (parse : List ℕ → Option (Expert A)) (urls : List String) (block_size : ℕ)
      (world : World) : Type ℓ where
    pub disjoint : (e : ℕ) (u v : String) → Has e u → Has e v → u ≡ v
    pub names :
        (u : String) (ids : List ℕ)
        → world.partition_of u ≡ some ids
        → (x : ℕ) → is_in x ids ≡ is_in x (nodes.partition u)
    pub serves :
        (u : String) (l e : ℕ) (raw : List ℕ)
        → world.block_of u l e ≡ some raw
        → Has e u × (parse raw ≡ get? (l, e) (nodes.experts u))
    pub reachable :
        (l e : ℕ)
        → ltb l nodes.num_layers ≡ true
        → ask_nodes world block_size l e urls ≡ none
        → (u : String) → is_in e (nodes.partition u) ≡ false

  -- The fetches are of layers of the model.
  abbrev pub InModel : List (ℕ × ℕ) → Type 0
  InModel [] = Unit
  InModel ((l, e) ∷ keys) = (ltb l nodes.num_layers ≡ true) × InModel keys

  -- The weights of the node that has the expert.
  abbrev pub IsRight : Key → Expert A → Type ℓ
  IsRight (l, e) x = (u : String) → Has e u → get? (l, e) (nodes.experts u) ≡ some x

  -- The owner of an expert has it, and it is in what is known of the owner's partition.
  abbrev pub OwnerIsRight : Dict String (List ℕ) → ℕ → Owner → Type 0
  OwnerIsRight partition e unknown = Unit
  OwnerIsRight partition e nobody = (u : String) → is_in e (nodes.partition u) ≡ false
  OwnerIsRight partition e (node url) =
      (known : List ℕ) × (get? url partition ≡ some known) × (is_in e known ≡ true) × Has e url

  pub record Knows (urls : List String) (d : Driver A) : Type ℓ where
    pub same_urls : d.node_urls ≡ urls
    pub owners : (e : ℕ) → OwnerIsRight d.partition e (owner_of e d.owner)
    pub parts :
        (u : String) (known : List ℕ)
        → get? u d.partition ≡ some known
        → (x : ℕ) → is_in x known ≡ true
        → Has x u
    pub hot : Entries IsRight d.hot.cache

pub owner_of-set :
    (e j : ℕ) (o : Option String) (owner : Dict ℕ (Option String))
    → owner_of j (set e o owner)
      ≡ (if nat_beq e j then owner_of j ((j, o) ∷ []) else owner_of j owner)
unfolding owner_of get?
owner_of-set e j o owner = elim (Bool-cases (nat_beq e j)) [
  | inl same ↦ rw (owner_of, get?-set e j o owner, same, ==_refl j) refl
  | inr other ↦ rw (owner_of, get?-set e j o owner, other) refl
]

pub owner_of-here : (j : ℕ) (url : String) → owner_of j ((j, some url) ∷ []) ≡ node url
unfolding owner_of get?
owner_of-here j url = rw (owner_of, ==_refl j) refl

pub owner_of-nobody : (j : ℕ) → owner_of j ((j, none) ∷ []) ≡ nobody
unfolding owner_of get?
owner_of-nobody j = rw (owner_of, ==_refl j) refl

is_in-member : (x : ℕ) (s : List ℕ) → member x s ≡ is_in x s
is_in-member x [] = refl
is_in-member x (y ∷ s) = ap (λ b. nat_beq y x || b) (is_in-member x s)

pub is_in-add : (x e : ℕ) (s : List ℕ) → is_in x (add e s) ≡ (is_in x s || nat_beq e x)
is_in-add x e s = ground (arith, member-add x e s, is_in-member x s, is_in-member x (add e s))

-- What is known of a partition after `setdefault(...).add(...)`.
abbrev pub with_added : ℕ → Option (List ℕ) → List ℕ
with_added e none = e ∷ []
with_added e (some ids) = add e ids

pub get?-add_to :
    (u v : String) (e : ℕ) (partition : Dict String (List ℕ))
    → get? v (add_to u e partition)
      ≡ (if u == v then some (with_added e (get? u partition)) else get? v partition)
unfolding add_to
get?-add_to u v e partition = elim (Option-cases (get? u partition)) [
  | inl p ↦ rw (add_to, p) (get?-set u v (e ∷ []) partition)
  | inr (ids, p) ↦ rw (add_to, p) (get?-set u v (add e ids) partition)
]

pub is_in-with_added :
    (x e : ℕ) (known : Option (List ℕ))
    → is_in x (with_added e known) ≡ true
    → (e ≡ x) ⊎ ((ids : List ℕ) × (known ≡ some ids) × (is_in x ids ≡ true))
is_in-with_added x e none h = inl (ground (arith, h))
is_in-with_added x e (some ids) h = elim (Bool-cases (nat_beq e x)) [
  | inl same ↦ inl ((nat_beq_iff e x).0 same)
  | inr other ↦ inr (ids, refl, ground (arith, h, is_in-add x e ids, other))
]

pub with_added_self :
    (x e : ℕ) (known : Option (List ℕ)) → e ≡ x → is_in x (with_added e known) ≡ true
with_added_self x e none h = ground (arith, h)
with_added_self x e (some ids) h = ground (arith, is_in-add x e ids, h)

pub with_added_keeps : (x e : ℕ) (ids : List ℕ) → is_in x ids ≡ true → is_in x (add e ids) ≡ true
with_added_keeps x e ids h = ground (arith, is_in-add x e ids, h)
