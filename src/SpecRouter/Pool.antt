-- ===== src/SpecRouter/Pool.antt =====
-- `ServerPool` of src/sniper-router/spec_router.py: the servers are asked in turn. Whether a server is healthy
-- is a function of the number of the probe.
use native.Mathlib.Nat.{mod_self, mod-add-mod, add-mod-mod, mod-eq_of_lt, mod-lt}
use expert_sniper.Prelude.{
  ℕ, zero, suc, ◌+◌, ◌-◌, ◌%◌, ◌<◌, Bool, true, false, Option, none, some, List, [], ◌∷◌, length,
  get_elem?, ◌≡◌, refl, sym, ap, ◌∙◌, inl, inr, arith, Bool-cases, leb, leb→le,
}

pub record ServerPool {ℓ} (S : Type ℓ) : Type ℓ where
  pub servers : List S
  pub idx : ℕ

module _ {ℓ} {S : Type ℓ} (healthy : ℕ → S → Bool) where
  -- The loop of `next` over `range(len(self.servers))`. `none` is the RuntimeError.
  unfoldable pub probe_servers : ℕ → ServerPool S → ServerPool S × Option S
  probe_servers zero pool = (pool, none)
  probe_servers (suc n) pool = elim (get_elem? pool.servers (pool.idx % length pool.servers)) [
    | none ↦ (pool, none)
    | some server ↦
        let pool' : ServerPool S = record pool { idx = pool.idx + 1 } in
        elim (healthy pool.idx server) [
          | true ↦ (pool', some server)
          | false ↦ probe_servers n pool'
        ]
  ]

  unfoldable pub next : ServerPool S → ServerPool S × Option S
  next pool = probe_servers (length pool.servers) pool

item_at {ℓ} :
    {S : Type ℓ} (xs : List S) (i : ℕ) → i < length xs → (x : S) × (get_elem? xs i ≡ some x)
item_at [] i h = absurd (omega (arith, h))
item_at (x ∷ xs) zero h = (x, refl)
item_at (x ∷ xs) (suc i) h = item_at xs i (omega (arith, h))

-- Counting on from `idx`, every place comes within one turn.
reaches : (idx i n : ℕ) → i < n → (m : ℕ) × (m < n) × ((idx + m) % n ≡ i)
reaches idx i n below = elim (Bool-cases (leb (idx % n) i)) [
  | inl ahead ↦
      let le = leb→le (idx % n) i ahead in
      (
        i - idx % n,
        omega (arith, below),
        sym (mod-add-mod idx n (i - idx % n))
            ∙ ap (λ x. x % n) (let e : idx % n + (i - idx % n) ≡ i = omega (arith, le) in e)
            ∙ mod-eq_of_lt below,
      )
  | inr behind ↦
      let lt : i < idx % n = ground (arith, behind) in
      let small : idx % n < n = mod-lt idx (omega (arith, below)) in
      (
        i + n - idx % n,
        omega (arith, lt, small),
        sym (mod-add-mod idx n (i + n - idx % n))
            ∙ ap (λ x. x % n)
                (let e : idx % n + (i + n - idx % n) ≡ i + n = omega (arith, small) in e)
            ∙ sym (add-mod-mod i n n)
            ∙ ap (λ z. (i + z) % n) (mod_self n)
            ∙ ap (λ x. x % n) (let e : i + 0 ≡ i = omega arith in e)
            ∙ mod-eq_of_lt below,
      )
]

module _ {ℓ} {S : Type ℓ} (healthy : ℕ → S → Bool) (up : S)
    (always : (t : ℕ) → healthy t up ≡ true) where
  -- A healthy server was found after `k` others, and the next turn starts behind it.
  pub record Finds (n : ℕ) (pool : ServerPool S) (result : ServerPool S × Option S) : Type ℓ where
    pub server : S
    pub skipped : ℕ
    pub within : skipped < n
    pub found : result ≡ (record pool { idx = pool.idx + skipped + 1 }, some server)
    pub in_turn : get_elem? pool.servers ((pool.idx + skipped) % length pool.servers) ≡ some server
    pub is_healthy : healthy (pool.idx + skipped) server ≡ true

  probe_servers-Finds :
      (n m : ℕ) (pool : ServerPool S)
      → m < n
      → 0 < length pool.servers
      → get_elem? pool.servers ((pool.idx + m) % length pool.servers) ≡ some up
      → Finds n pool (probe_servers healthy n pool)
  unfolding probe_servers
  probe_servers-Finds zero m pool below some_server at = absurd (omega (arith, below))
  probe_servers-Finds (suc n) m pool below some_server at =
      let (server, here) =
        item_at pool.servers (pool.idx % length pool.servers) (mod-lt pool.idx some_server) in
      let first : get_elem? pool.servers ((pool.idx + 0) % length pool.servers) ≡ some server =
        ap (λ x. get_elem? pool.servers (x % length pool.servers))
          (let e : pool.idx + 0 ≡ pool.idx = omega arith in e)
        ∙ here in
      elim (Bool-cases (healthy pool.idx server)) [
        | inl good ↦
            rw (probe_servers, here, good)
              (record {
                server = server;
                skipped = 0;
                within = omega arith;
                found = ap (λ x. (record pool { idx = x }, some server)) (omega arith);
                in_turn = first;
                is_healthy =
                    ap (λ x. healthy x server) (let e : pool.idx + 0 ≡ pool.idx = omega arith in e)
                    ∙ good;
              })
        | inr bad ↦ elim (Bool-cases (leb m 0)) [
          | inl none_left ↦
              let zero_is : pool.idx ≡ pool.idx + m = ground (arith, none_left) in
              let same : some server ≡ some up =
                sym here
                ∙ ap (λ x. get_elem? pool.servers (x % length pool.servers)) zero_is
                ∙ at in
              let at_up : server ≡ up = cc in
              absurd (
                let never : true ≡ false =
                  sym (always pool.idx) ∙ ap (healthy pool.idx) (sym at_up) ∙ bad in
                cc)
          | inr more ↦
              let some_left : 0 < m = ground (arith, more) in
              let pool' : ServerPool S = record pool { idx = pool.idx + 1 } in
              let on : pool.idx + m ≡ pool.idx + 1 + (m - 1) = omega (arith, some_left) in
              let rest =
                probe_servers-Finds n (m - 1) pool' (omega (arith, some_left, below)) some_server
                  (ap (λ x. get_elem? pool.servers (x % length pool.servers)) (sym on) ∙ at) in
              let later : pool.idx + 1 + rest.skipped ≡ pool.idx + (rest.skipped + 1) =
                omega arith in
              rw (probe_servers, here, bad)
                (record {
                  server = rest.server;
                  skipped = rest.skipped + 1;
                  within = omega (arith, rest.within);
                  found =
                      rest.found ∙ ap (λ x. (record pool { idx = x + 1 }, some rest.server)) later;
                  in_turn =
                      ap (λ x. get_elem? pool.servers (x % length pool.servers)) (sym later)
                      ∙ rest.in_turn;
                  is_healthy = ap (λ x. healthy x rest.server) (sym later) ∙ rest.is_healthy;
                })
        ]
      ]

  -- If some server of the pool is healthy at every probe, then `next` finds a healthy one, wherever the last
  -- turn ended and whatever the others do: the one whose turn it is after at most all others, and the next
  -- turn starts behind it.
  pub next-Finds :
      (pool : ServerPool S) (i : ℕ)
      → get_elem? pool.servers i ≡ some up
      → i < length pool.servers
      → Finds (length pool.servers) pool (next healthy pool)
  unfolding next
  next-Finds pool i at below =
      let (m, within, there) = reaches pool.idx i (length pool.servers) below in
      probe_servers-Finds (length pool.servers) m pool within (omega (arith, below))
        (ap (get_elem? pool.servers) there ∙ at)
