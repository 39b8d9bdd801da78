-- ===== src/OgImage/Flights.antt =====
-- The pulses of gen-og-image.js: which nodes they join.
use tabulum.Prelude.{
  ℕ, suc, ◌+◌, ◌≤◌, ◌<◌, List, [], ◌∷◌, ◌++◌, some, Bool, true, false, ◌&&◌, ◌||◌, length, ◌≡◌,
  refl, arith, leb, ◌==◌, Bool-cases, Option-cases, inl, inr, ◌∙◌, ap, sym, All, All-append,
  append_assoc, length-append,
}
use tabulum.Prelude.Floats.{Floats}
use tabulum.Prelude.{subst}
use tabulum.Prelude.Floats.{less}
use tabulum.OgImage.Config.{connection_dist}
use tabulum.OgImage.Nodes.{Node}
use tabulum.OgImage.Edges.{Connection, distance, connect, connect_from, connections}
use tabulum.OgImage.Lights.{
  elem, add, Pulse, Scene, other_end, free_end, try_pulse, try_pulses, send_pulses,
  pulse_candidates,
}

-- No number stands in the list twice.
abbrev pub Distinct : List ℕ → Type 0
Distinct [] = Unit
Distinct (x ∷ xs) = (elem x xs ≡ false) × Distinct xs

elem-append : (k x : ℕ) (xs : List ℕ) → elem k (xs ++ x ∷ []) ≡ (elem k xs || x == k)
unfolding elem
elem-append k x [] = ground arith
elem-append k x (y ∷ ys) = ground (arith, elem-append k x ys)

Distinct-append : (x : ℕ) (xs : List ℕ) → elem x xs ≡ false → Distinct xs → Distinct (xs ++ x ∷ [])
unfolding elem
Distinct-append x [] e d = (refl, tt)
Distinct-append x (y ∷ ys) e d =
    (ground (arith, elem-append y x ys), Distinct-append x ys (ground arith) d.1)

-- Both ends of a pair of new numbers are put behind.
add-add :
    (s d : ℕ) (used : List ℕ)
    → elem s used ≡ false
    → elem d used ≡ false
    → (s == d) ≡ false
    → (add d (add s used) ≡ used ++ s ∷ d ∷ []) × (Distinct used → Distinct (used ++ s ∷ d ∷ []))
unfolding add
add-add s d used e k n =
    let q : elem d (used ++ s ∷ []) ≡ false = ground (arith, elem-append d s used) in
    let joined : (used ++ s ∷ []) ++ d ∷ [] ≡ used ++ s ∷ d ∷ [] =
      append_assoc used (s ∷ []) (d ∷ []) in
    (
      rw e (rw q joined),
      λ h.
          subst Distinct joined (Distinct-append d (used ++ s ∷ []) q (Distinct-append s used e h)),
    )

module _ {R : Type 0} ⦃f : Floats R⦄ where
  pub ends : List (Pulse R) → List ℕ
  ends [] = []
  ends (p ∷ ps) = p.src ∷ p.dst ∷ ends ps

  -- Whether a connection joins the two nodes, in either direction.
  unfoldable pub linked : ℕ → ℕ → List (Connection R) → Bool
  linked s d [] = false
  linked s d (c ∷ cs) = (c.i == s && c.j == d) || (c.j == s && c.i == d) || linked s d cs

  abbrev Ascending : List (Connection R) → Type 0
  Ascending cs = All (λ c. c.i < c.j) cs

  connect-Ascending :
      (i : ℕ) (a : Node R) (j : ℕ) (ns : List (Node R)) → i < j → Ascending (connect i a j ns)
  unfolding connect
  connect-Ascending i a j [] h = tt
  connect-Ascending i a j (b ∷ bs) h =
      let rest = connect-Ascending i a (suc j) bs (omega arith) in
      elim (Bool-cases (less (distance a b) connection_dist)) [
        | inl e ↦ rw (e, connect) (h, rest)
        | inr e ↦ rw (e, connect) rest
      ]

  connect_from-Ascending : (i : ℕ) (ns : List (Node R)) → Ascending (connect_from i ns)
  unfolding connect_from
  connect_from-Ascending i [] = tt
  connect_from-Ascending i (a ∷ others) =
      All-append (λ c. c.i < c.j) (connect i a (suc i) others) (connect_from (suc i) others)
        (connect-Ascending i a (suc i) others (omega arith)) (connect_from-Ascending (suc i) others)

  free_end_lem :
      (s : ℕ) (used : List ℕ) (cs : List (Connection R)) (d : ℕ)
      → Ascending cs
      → free_end s used cs ≡ some d
      → (elem d used ≡ false) × (linked s d cs ≡ true) × ((s == d) ≡ false)
  unfolding free_end linked other_end
  free_end_lem s used [] d a e = cc
  free_end_lem s used (c ∷ cs) d a e = ground (arith, free_end_lem s used cs d a.1)

  -- What holds between the candidates.
  pub record IsLit (conns : List (Connection R)) (s : Scene R) : Type 0 where
    pub listed : ends s.pulses ≡ s.used
    pub distinct : Distinct s.used
    pub along : All (λ p. linked p.src p.dst conns ≡ true) s.pulses

  ends-append :
      (ps : List (Pulse R)) (p : Pulse R) → ends (ps ++ p ∷ []) ≡ ends ps ++ p.src ∷ p.dst ∷ []
  unfolding ends
  ends-append [] p = refl
  ends-append (q ∷ ps) p = ap (λ t. q.src ∷ q.dst ∷ t) (ends-append ps p)

  try_pulse-IsLit :
      (conns : List (Connection R)) (src : ℕ) (progress : R) (s : Scene R)
      → Ascending conns
      → IsLit conns s
      → IsLit conns (try_pulse conns src progress s)
        × (length (try_pulse conns src progress s).pulses ≤ suc (length s.pulses))
  unfolding try_pulse
  try_pulse-IsLit conns src progress s a v =
      elim (Bool-cases (leb (length s.nodes) src || elem src s.used)) [
        | inl out ↦ rw (out, try_pulse) (v, omega arith)
        | inr new ↦ elim (Option-cases (free_end src s.used conns)) [
          | inl e ↦ rw (new, try_pulse) (rw (e, try_pulse) (v, omega arith))
          | inr (dst, e) ↦
              let p : Pulse R = record { src = src; dst = dst; progress = progress } in
              let (free, link, apart) = free_end_lem src s.used conns dst a e in
              let (u, more) = add-add src dst s.used (ground arith) free apart in
              rw (new, try_pulse)
                (rw (e, try_pulse)
                  (
                    record {
                      listed =
                          ends-append s.pulses p ∙ ap (λ t. t ++ src ∷ dst ∷ []) v.listed ∙ sym u;
                      distinct = subst Distinct (sym u) (more v.distinct);
                      along =
                          All-append (λ q. linked q.src q.dst conns ≡ true) s.pulses (p ∷ [])
                            v.along (link, tt);
                    },
                    omega (arith, length-append {0} s.pulses (p ∷ [])),
                  ))
        ]
      ]

  try_pulses-IsLit :
      (conns : List (Connection R)) (cands : List (ℕ × R)) (s : Scene R)
      → Ascending conns
      → IsLit conns s
      → IsLit conns (try_pulses conns cands s)
        × (length (try_pulses conns cands s).pulses ≤ length cands + length s.pulses)
  unfolding try_pulses
  try_pulses-IsLit conns [] s a v = (v, omega arith)
  try_pulses-IsLit conns ((src, progress) ∷ more) s a v =
      let (w, l) = try_pulse-IsLit conns src progress s a v in
      let (w', l') = try_pulses-IsLit conns more (try_pulse conns src progress s) a w in
      (w', omega arith)

  -- At most four pulses are sent, each along a connection, and no node is an end of two of them.
  pub send_pulses_lem :
      (nodes : List (Node R))
      → let ps = (send_pulses (connections nodes) nodes).pulses in
        (length ps ≤ 4)
        × Distinct (ends ps)
        × All (λ p. linked p.src p.dst (connections nodes) ≡ true) ps
  unfolding send_pulses connections ends
  send_pulses_lem nodes =
      let start : Scene R = record { nodes = nodes; pulses = []; used = [] } in
      let conns = connections nodes in
      let (v, l) =
        try_pulses-IsLit conns pulse_candidates start (connect_from-Ascending 0 nodes)
          (record { listed = refl; distinct = tt; along = tt }) in
      (l, rw v.listed v.distinct, v.along)
