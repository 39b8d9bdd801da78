-- ===== src/OgImage/Drawn.antt =====
-- Every connection and every pulse of gen-og-image.js joins nodes that exist, so that all are drawn.
use tabulum.Prelude.{
  ℕ, suc, ◌+◌, ◌≤◌, ◌<◌, List, [], ◌∷◌, ◌++◌, some, Bool, true, length, get_elem?, ◌≡◌, refl, ◌∙◌,
  arith, leb, ltb, ◌||◌, All, All-append, Bool-cases, Option-cases, inl, inr, length-set,
  get_elem?-some,
}
use tabulum.Prelude.Floats.{Floats, less}
use tabulum.Drawing.{Command}
use tabulum.OgImage.Config.{connection_dist}
use tabulum.OgImage.Nodes.{Node}
use tabulum.OgImage.Edges.{Connection, distance, connect, connect_from, connections}
use tabulum.OgImage.Lights.{
  elem, Pulse, Scene, free_end, set_glow, try_pulse, try_pulses, send_pulses, add_glow,
  pulse_candidates,
}
use tabulum.OgImage.Painting.{draw_edge, draw_edges, draw_trail, draw_trails}
use tabulum.OgImage.Flights.{linked}

module _ {R : Type 0} ⦃f : Floats R⦄ where
  -- Both ends have an index below `n`.
  abbrev pub AreWithin : ℕ → List (Connection R) → Type 0
  AreWithin n cs = All (λ c. (c.i < n) × (c.j < n)) cs

  abbrev pub FlyWithin : ℕ → List (Pulse R) → Type 0
  FlyWithin n ps = All (λ p. (p.src < n) × (p.dst < n)) ps

  connect-AreWithin :
      (n i : ℕ) (a : Node R) (j : ℕ) (ns : List (Node R))
      → i < n
      → j + length ns ≤ n
      → AreWithin n (connect i a j ns)
  unfolding connect
  connect-AreWithin n i a j [] h l = tt
  connect-AreWithin n i a j (b ∷ bs) h l =
      let rest = connect-AreWithin n i a (suc j) bs h (omega arith) in
      elim (Bool-cases (less (distance a b) connection_dist)) [
        | inl e ↦ rw (e, connect) ((h, omega arith), rest)
        | inr e ↦ rw (e, connect) rest
      ]

  connect_from-AreWithin :
      (n i : ℕ) (ns : List (Node R)) → i + length ns ≤ n → AreWithin n (connect_from i ns)
  unfolding connect_from
  connect_from-AreWithin n i [] l = tt
  connect_from-AreWithin n i (a ∷ others) l =
      All-append (λ c. (c.i < n) × (c.j < n)) (connect i a (suc i) others)
        (connect_from (suc i) others)
        (connect-AreWithin n i a (suc i) others (omega arith) (omega arith))
        (connect_from-AreWithin n (suc i) others (omega arith))

  pub connections-AreWithin : (nodes : List (Node R)) → AreWithin (length nodes) (connections nodes)
  unfolding connections
  connections-AreWithin nodes = connect_from-AreWithin (length nodes) 0 nodes (omega arith)

  linked-within :
      (n s d : ℕ) (cs : List (Connection R))
      → AreWithin n cs
      → linked s d cs ≡ true
      → (s < n) × (d < n)
  unfolding linked
  linked-within n s d [] w e = cc
  linked-within n s d (c ∷ cs) w e = ground (arith, linked-within n s d cs w.1, w.0)

  pub linked-FlyWithin :
      (n : ℕ) (cs : List (Connection R)) (ps : List (Pulse R))
      → AreWithin n cs
      → All (λ p. linked p.src p.dst cs ≡ true) ps
      → FlyWithin n ps
  linked-FlyWithin n cs [] w l = tt
  linked-FlyWithin n cs (p ∷ ps) w l =
      (linked-within n p.src p.dst cs w l.0, linked-FlyWithin n cs ps w l.1)

  -- The lights leave as many nodes as there were.
  length-set_glow :
      (r : R) (i : ℕ) (nodes : List (Node R)) → length (set_glow r i nodes) ≡ length nodes
  unfolding set_glow
  length-set_glow r i nodes = elim (Option-cases (get_elem? nodes i)) [
    | inl e ↦ rw (e, set_glow) refl
    | inr (n, e) ↦ rw (e, set_glow) (length-set nodes i (record n { glow = r }))
  ]

  length-try_pulse :
      (conns : List (Connection R)) (src : ℕ) (progress : R) (s : Scene R)
      → length (try_pulse conns src progress s).nodes ≡ length s.nodes
  unfolding try_pulse
  length-try_pulse conns src progress s =
      elim (Bool-cases (leb (length s.nodes) src || elem src s.used)) [
        | inl out ↦ rw (out, try_pulse) refl
        | inr new ↦ elim (Option-cases (free_end src s.used conns)) [
          | inl e ↦ rw (new, try_pulse) (rw (e, try_pulse) refl)
          | inr (dst, e) ↦ rw (new, try_pulse) (rw (e, try_pulse) (length-set_glow _ src s.nodes))
        ]
      ]

  length-try_pulses :
      (conns : List (Connection R)) (cands : List (ℕ × R)) (s : Scene R)
      → length (try_pulses conns cands s).nodes ≡ length s.nodes
  unfolding try_pulses
  length-try_pulses conns [] s = refl
  length-try_pulses conns ((src, progress) ∷ more) s =
      length-try_pulses conns more (try_pulse conns src progress s)
      ∙ length-try_pulse conns src progress s

  pub length-send_pulses :
      (conns : List (Connection R)) (nodes : List (Node R))
      → length (send_pulses conns nodes).nodes ≡ length nodes
  unfolding send_pulses
  length-send_pulses conns nodes =
      length-try_pulses conns pulse_candidates (record { nodes = nodes; pulses = []; used = [] })

  pub length-add_glow :
      (ks : List ℕ) (nodes : List (Node R)) (seed : ℕ)
      → length (add_glow ks nodes seed).0 ≡ length nodes
  unfolding add_glow
  length-add_glow [] nodes seed = refl
  length-add_glow (k ∷ ks) nodes seed = elim (Bool-cases (ltb k (length nodes))) [
    | inl e ↦ rw (e, add_glow) (length-add_glow ks _ _ ∙ length-set_glow _ k nodes)
    | inr e ↦ rw (e, add_glow) (length-add_glow ks nodes seed)
  ]

  draw_edge-some :
      (nodes : List (Node R)) (chosen : Bool) (c : Connection R)
      → c.i < length nodes
      → c.j < length nodes
      → (ds : List (Command R)) × (draw_edge nodes chosen c ≡ some ds)
  unfolding draw_edge
  draw_edge-some nodes chosen c h k =
      let (a, e) = get_elem?-some nodes c.i h in
      let (b, e') = get_elem?-some nodes c.j k in
      elim (Option-cases (draw_edge nodes chosen c)) [
        | inl n ↦ absurd (cc (rw (e, e', draw_edge) at n))
        | inr drawn ↦ drawn
      ]

  pub draw_edges-some :
      (nodes : List (Node R)) (chosen : List ℕ) (ci : ℕ) (cs : List (Connection R))
      → AreWithin (length nodes) cs
      → (ds : List (Command R)) × (draw_edges nodes chosen ci cs ≡ some ds)
  unfolding draw_edges
  draw_edges-some nodes chosen ci [] w = ([], refl)
  draw_edges-some nodes chosen ci (c ∷ cs) w =
      let (ds, e) = draw_edge-some nodes (elem ci chosen) c w.0.0 w.0.1 in
      let (es, e') = draw_edges-some nodes chosen (suc ci) cs w.1 in
      (ds ++ es, rw (e, e', draw_edges) refl)

  draw_trail-some :
      (nodes : List (Node R)) (p : Pulse R)
      → p.src < length nodes
      → p.dst < length nodes
      → (ds : List (Command R)) × (draw_trail nodes p ≡ some ds)
  unfolding draw_trail
  draw_trail-some nodes p h k =
      let (a, e) = get_elem?-some nodes p.src h in
      let (b, e') = get_elem?-some nodes p.dst k in
      elim (Option-cases (draw_trail nodes p)) [
        | inl n ↦ absurd (cc (rw (e, e', draw_trail) at n))
        | inr drawn ↦ drawn
      ]

  pub draw_trails-some :
      (nodes : List (Node R)) (ps : List (Pulse R))
      → FlyWithin (length nodes) ps
      → (ds : List (Command R)) × (draw_trails nodes ps ≡ some ds)
  unfolding draw_trails
  draw_trails-some nodes [] w = ([], refl)
  draw_trails-some nodes (p ∷ ps) w =
      let (ds, e) = draw_trail-some nodes p w.0.0 w.0.1 in
      let (es, e') = draw_trails-some nodes ps w.1 in (ds ++ es, rw (e, e', draw_trails) refl)
