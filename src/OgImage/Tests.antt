-- ===== src/OgImage/Tests.antt =====
-- Runs of gen-og-image.js in thousandths, and its theorems at them.
use tabulum.Prelude.{ℕ, ◌*◌, List, [], ◌∷◌, some, true, length, String, codes, ◌≤◌, ◌≡◌, refl, All}
use tabulum.Prelude.Int.{ℤ, pos, negsuc}
use tabulum.Prelude.Thousandths.{thousandths, thousandths-IsExact, square_root}
use tabulum.OgImage.Random.{next_seed, random_of, random}
use tabulum.OgImage.Nodes.{Node, pick_cluster, place, spawn, spawn_all}
use tabulum.OgImage.Physics.{pull_of, gather, cohere, wrap, move, move_from, simulate}
use tabulum.OgImage.Edges.{distance, connect, connect_from, connections}
use tabulum.OgImage.Lights.{
  elem, add, other_end, free_end, set_glow, try_pulse, try_pulses, send_pulses, add_glow, highlight,
  highlight_edges,
}
use tabulum.Drawing.{Command}
use tabulum.OgImage.Script.{Platform, out_path, script}
use tabulum.OgImage.Whole.{framed, IsReady, script-some}
use tabulum.OgImage.Pairs.{kept, near, kept-connections}
use tabulum.OgImage.Flights.{Distinct, ends, linked, send_pulses_lem}

images : Unit {0}
unfolding next_seed random_of random pick_cluster place spawn spawn_all pull_of gather cohere wrap
    move move_from simulate distance connect connect_from connections elem add other_end free_end
    set_glow try_pulse try_pulses send_pulses add_glow highlight highlight_edges square_root
images = tt

seeds : (next_seed 42 ≡ 705894) × (next_seed 705894 ≡ 1126542223)
unfolding images
seeds = (refl, refl)

-- A node at rest, at whole coordinates.
abbrev at : ℕ → ℕ → Node ℤ
at x y = record {
  x = pos (x * 1000);
  y = pos (y * 1000);
  cluster = record { cx = pos 550; cy = pos 550; spread = pos 150 };
  vx = pos 0;
  vy = pos 0;
  glow = pos 0;
}

-- Four nodes, of which the last is too far from the first two.
abbrev square : List (Node ℤ)
square = at 100 100 ∷ at 400 100 ∷ at 400 400 ∷ at 700 400 ∷ []

square-connections :
    connections square
    ≡ record { i = 0; j = 1; dist = pos 300000 }
      ∷ record { i = 1; j = 2; dist = pos 300000 }
      ∷ record { i = 2; j = 3; dist = pos 300000 }
      ∷ []
unfolding images
square-connections = refl

square_pulses :
    (send_pulses (connections square) square).pulses
    ≡ record { src = 2; dst = 1; progress = pos 550 } ∷ []
unfolding images
square_pulses = refl

-- A node beyond the right margin comes back at the left one.
wrapped_round : (move 0 [] (at 1260 300) 42).0.x ≡ negsuc 49999
unfolding images
wrapped_round = refl

-- Every character has the same width.
abbrev even_width : String → ℤ
even_width s = pos (length (codes s) * 30000)

-- A machine that has the fonts, with an encoder that writes the number of commands.
abbrev machine : Platform ℤ
machine = record {
  registers = λ g. true;
  measure = even_width;
  to_buffer = λ commands. some (length commands ∷ []);
  writes = λ path bytes. true;
}

machine-IsReady : IsReady machine
machine-IsReady = record {
  registered = (refl, (refl, (refl, (refl, tt))));
  encodes = λ commands. (length commands ∷ [], refl);
  writable = λ bytes. refl;
}

script-some_example :
    (rest : List (Command ℤ)) × (bytes : List ℕ) × (machine.to_buffer (framed machine.measure rest)
      ≡ some bytes)
    × (script machine ≡ some (out_path, bytes))
script-some_example = script-some machine thousandths-IsExact machine-IsReady

kept-connections_example : kept 1 2 (connections square) ≡ near 1 2 square
kept-connections_example = kept-connections square 1 2

send_pulses_lem_example :
    (length (send_pulses (connections square) square).pulses ≤ 4)
    × Distinct (ends (send_pulses (connections square) square).pulses)
    × All
        (λ p. linked p.src p.dst (connections square) ≡ true)
        (send_pulses (connections square) square).pulses
send_pulses_lem_example = send_pulses_lem square
