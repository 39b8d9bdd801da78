-- ===== src/OgImage/Nodes.antt =====
-- The nodes of gen-og-image.js, and how they are made.
use tabulum.Prelude.{ℕ, zero, suc, List, [], ◌∷◌, ◌++◌, Option, none, some, length, get_elem?}
use tabulum.Prelude.Floats.{Floats, ◌⊕◌, ◌⊖◌, ◌⊗◌, whole, dec}
use tabulum.OgImage.Config.{Cluster, clusters, width, height}
use tabulum.OgImage.Random.{random}

pub record Node (R : Type 0) : Type 0 where
  pub x : R
  pub y : R
  pub cluster : Cluster R
  pub vx : R
  pub vy : R
  pub glow : R

module _ {R : Type 0} ⦃f : Floats R⦄ where
  -- `clusters[Math.floor(random() * clusters.length)]`
  unfoldable pub pick_cluster : R → Option (Cluster R)
  pick_cluster r = get_elem? clusters (f.floor (r ⊗ whole (length (clusters {R = R}))))

  unfoldable pub place : Cluster R → ℕ → Node R × ℕ
  unfolding random
  place c seed =
      let (r1, s1) = random seed in
      let (r2, s2) = random s1 in
      let (r3, s3) = random s2 in
      let (r4, s4) = random s3 in
      let (r5, s5) = random s4 in
      let angle = r1 ⊗ f.pi ⊗ whole 2 in
      let radius = (r2 ⊕ r3) ⊗ dec 5 10 ⊗ c.spread in
      (
        record {
          x = (c.cx ⊕ f.cos angle ⊗ radius) ⊗ width;
          y = (c.cy ⊕ f.sin angle ⊗ radius) ⊗ height;
          cluster = c;
          vx = (r4 ⊖ dec 5 10) ⊗ dec 5 10;
          vy = (r5 ⊖ dec 5 10) ⊗ dec 5 10;
          glow = whole 0;
        },
        s5,
      )

  -- One round of the loop; it throws if there is no such cluster.
  unfoldable pub spawn : ℕ → Option (Node R × ℕ)
  unfolding random pick_cluster place
  spawn seed =
      let (r, s) = random seed in elim (pick_cluster r) [ none ↦ none | some c ↦ some (place c s) ]

  -- The rounds left, with the nodes so far.
  unfoldable pub spawn_all : ℕ → List (Node R) → ℕ → Option (List (Node R) × ℕ)
  unfolding spawn
  spawn_all zero nodes seed = some (nodes, seed)
  spawn_all (suc left) nodes seed = elim (spawn seed) [
    | none ↦ none
    | some (n, s) ↦ spawn_all left (nodes ++ n ∷ []) s
  ]
