-- ===== src/OgImage/Seeds.antt =====
-- The generator of gen-og-image.js, and the nodes that are made from it.
use tabulum.Prelude.{
  get_elem?-some, ℕ, zero, suc, ◌+◌, ◌-◌, ◌*◌, ◌<◌, ◌^◌, List, [], ◌∷◌, ◌++◌, some, length, ◌≡◌,
  refl, arith, length-append,
}
use tabulum.Prelude.Floats.{Floats, IsExact, whole, ◌⊗◌}
use tabulum.OgImage.Config.{Cluster, clusters}
use tabulum.OgImage.Random.{modulus, next_seed, random_of, random}
use tabulum.OgImage.Nodes.{Node, pick_cluster, place, spawn, spawn_all}

-- The seeds that the generator goes through.
abbrev pub IsSeed : ℕ → Type 0
IsSeed s = (0 < s) × (s < modulus)

-- A seed is followed by a seed, never by 0; the product that is reduced is exact in a double; and no
-- two seeds are followed by the same one.
pub next_seed_lem :
    (s t : ℕ)
    → IsSeed s
    → IsSeed t
    → IsSeed (next_seed s) × (s * 16807 < 2 ^ 53) × (next_seed s ≡ next_seed t → s ≡ t)
unfolding next_seed
next_seed_lem s t h k = ((omega arith, omega arith), omega arith, λ e. omega arith)

next-IsSeed : (s : ℕ) → IsSeed s → IsSeed (next_seed s)
next-IsSeed s h = (next_seed_lem s s h h).0

module _ {R : Type 0} ⦃f : Floats R⦄ (exact : IsExact R) where
  random_index : (s n : ℕ) → IsSeed s → 0 < n → n < 65536 → f.floor (random_of s ⊗ whole n) < n
  unfolding random_of
  random_index s n h p l =
      rw (exact.sub-whole s 1 (omega arith) (omega arith))
        (exact.floor-lt (s - 1) 2147483646 n (omega arith) (omega arith) p l)

  place-IsSeed : (c : Cluster R) (s : ℕ) → IsSeed s → IsSeed (place c s).1
  unfolding place random
  place-IsSeed c s h =
      next-IsSeed _ (next-IsSeed _ (next-IsSeed _ (next-IsSeed _ (next-IsSeed s h))))

  spawn-some : (s : ℕ) → IsSeed s → (n : Node R) × (s' : ℕ) × (spawn s ≡ some (n, s')) × IsSeed s'
  unfolding spawn random pick_cluster
  spawn-some s h =
      let t : ℕ = next_seed s in
      let k : IsSeed t = next-IsSeed s h in
      let (c, e) =
        get_elem?-some clusters (f.floor (random_of t ⊗ whole 3))
          (random_index t 3 k (omega arith) (omega arith)) in
      ((place c t).0, (place c t).1, rw (e, spawn, pick_cluster) refl, place-IsSeed c t k)

  -- However many nodes are made, from whatever seed, no cluster is missing, and there are as many
  -- nodes as were asked for.
  pub spawn_all-some :
      (left : ℕ) (nodes : List (Node R)) (s : ℕ)
      → IsSeed s
      → (nodes' : List (Node R)) × (s' : ℕ) × (spawn_all left nodes s ≡ some (nodes', s'))
        × (length nodes' ≡ length nodes + left)
        × IsSeed s'
  unfolding spawn_all
  spawn_all-some zero nodes s h = (nodes, s, refl, omega arith, h)
  spawn_all-some (suc left) nodes s h =
      let (n, s', e, h') = spawn-some s h in
      let (nodes', t, e', l, k) = spawn_all-some left (nodes ++ n ∷ []) s' h' in
      (nodes', t, rw (e, spawn_all) e', omega (arith, l, length-append {0} nodes (n ∷ [])), k)
