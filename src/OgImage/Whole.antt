-- ===== src/OgImage/Whole.antt =====
-- The script gen-og-image.js as a whole.
use tabulum.Prelude.{
  ap, ℕ, String, List, [], ◌∷◌, ◌++◌, some, true, Bool, length, ◌≡◌, ◌∙◌, sym, refl, arith, subst,
  All,
}
use tabulum.Prelude.Floats.{dec, Floats, IsExact, whole}
use tabulum.Drawing.{line_width, Command, fill_style, fill_rect, plain}
use tabulum.OgImage.Config.{max_nodes, width, height, background}
use tabulum.OgImage.Nodes.{Node}
use tabulum.OgImage.Painting.{
  picture_of, picture, draw_ripples, draw_nodes, paint, typography, image,
}
use tabulum.OgImage.Script.{Font, fonts, out_path, Platform, register_fonts, script}
use tabulum.OgImage.Seeds.{spawn_all-some}
use tabulum.OgImage.Edges.{Connection, connections}
use tabulum.OgImage.Lights.{Scene, send_pulses, add_glow, glowing, highlight_edges}
use tabulum.OgImage.Physics.{simulate}
use tabulum.OgImage.Drawn.{
  AreWithin, FlyWithin, connections-AreWithin, linked-FlyWithin, length-send_pulses,
  length-add_glow, draw_edges-some, draw_trails-some,
}
use tabulum.OgImage.Flights.{send_pulses_lem}

register_fonts-true :
    (registers : Font → Bool) (fs : List Font)
    → All (λ g. registers g ≡ true) fs
    → register_fonts registers fs ≡ true
unfolding register_fonts
register_fonts-true registers [] a = refl
register_fonts-true registers (g ∷ fs) a = ground (arith, a.0, register_fonts-true registers fs a.1)

module _ {R : Type 0} ⦃f : Floats R⦄ where
  -- The picture begins with the background over all of the canvas and ends with the texts.
  abbrev pub framed : (String → R) → List (Command R) → List (Command R)
  framed measure rest =
      (fill_style (plain background) ∷ fill_rect (whole 0) (whole 0) width height ∷ rest)
      ++ typography measure

  paint-framed :
      (measure : String → R) (conns : List (Connection R)) (s : Scene R) (nodes : List (Node R))
      → AreWithin (length nodes) conns
      → FlyWithin (length nodes) s.pulses
      → (rest : List (Command R)) × (paint measure conns s nodes ≡ some (framed measure rest))
  unfolding paint
  paint-framed measure conns s nodes w v =
      let (edges, e) = draw_edges-some nodes (highlight_edges conns) 0 conns w in
      let (trails, e') = draw_trails-some nodes s.pulses v in
      (
        line_width (dec 8 10) ∷ edges
            ++ trails
            ++ draw_ripples nodes (15 ∷ 24 ∷ [])
            ++ draw_nodes nodes,
        rw (e, e', paint) refl,
      )

  picture-framed :
      (measure : String → R) (spawned : List (Node R)) (seed : ℕ)
      → (rest : List (Command R)) × (picture measure spawned seed ≡ some (framed measure rest))
  unfolding picture
  picture-framed measure spawned seed =
      let (nodes, s) = simulate 500 spawned seed in
      let conns = connections nodes in
      let scene = send_pulses conns nodes in
      let lit = (add_glow glowing scene.nodes s).0 in
      let n : length nodes ≡ length lit =
        sym (length-add_glow glowing scene.nodes s ∙ length-send_pulses conns nodes) in
      let within = connections-AreWithin nodes in
      let flying =
        linked-FlyWithin (length nodes) conns scene.pulses within (send_pulses_lem nodes).2 in
      paint-framed measure conns scene lit (subst (λ m. AreWithin m conns) n within)
        (subst (λ m. FlyWithin m scene.pulses) n flying)

  image-framed :
      IsExact R
      → (measure : String → R)
      → (rest : List (Command R)) × (image measure ≡ some (framed measure rest))
  unfolding image picture_of
  image-framed exact measure =
      let (spawned, seed, made, count, k) = spawn_all-some exact max_nodes [] 42 (omega arith) in
      let (rest, drawn) = picture-framed measure spawned seed in
      (rest, ap (picture_of measure) made ∙ drawn)

  -- The fonts can be read, the library encodes every picture, and the file can be written.
  pub record IsReady (p : Platform R) : Type 0 where
    pub registered : All (λ g. p.registers g ≡ true) fonts
    pub encodes :
        (commands : List (Command R)) → (bytes : List ℕ) × (p.to_buffer commands ≡ some bytes)
    pub writable : (bytes : List ℕ) → p.writes out_path bytes ≡ true

  -- Where the fonts can be read, the library encodes what is drawn and the file can be written, the
  -- script ends without throwing: no cluster is missing, and every edge and every pulse is drawn between
  -- nodes that exist. It writes the encoding of one picture, which begins with the background over all
  -- of the canvas and ends with the texts.
  pub script-some :
      (p : Platform R)
      → IsExact R
      → IsReady p
      → (rest : List (Command R)) × (bytes : List ℕ) × (p.to_buffer (framed p.measure rest)
          ≡ some bytes)
        × (script p ≡ some (out_path, bytes))
  unfolding script
  script-some p exact ready =
      let (rest, drawn) = image-framed exact p.measure in
      let (bytes, encoded) = ready.encodes (framed p.measure rest) in
      let fonts_there = register_fonts-true p.registers fonts ready.registered in
      (rest, bytes, encoded, rw (fonts_there, drawn, encoded, ready.writable bytes, script) refl)
