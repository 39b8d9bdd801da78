-- ===== src/BackgroundCanvas/Tests.antt =====
-- Runs of BackgroundCanvas.jsx in thousandths, and its theorems at them.
use tabulum.Prelude.{
  refl, false, ◌%◌, true, some, map, [], All, ◌≡◌, ◌∷◌, ◌*◌, arith, List, Bool, ℕ,
}
use tabulum.Prelude.Floats.{dec}
use tabulum.Prelude.Int.{ℤ, pos, negsuc}
use tabulum.Prelude.Thousandths.{
  thousandths, thousandths-IsOrdered, thousandths-IsExact, square_root,
}
use tabulum.BackgroundCanvas.Nodes.{Node, Pulse, Scene, Outcome, done, thrown, place, spawn_node}
use tabulum.BackgroundCanvas.Motion.{pull_of, gather, cohere, repel, wrap, move}
use tabulum.BackgroundCanvas.Messages.{candidates, set_glow, send_pulse, answer, message}
use tabulum.BackgroundCanvas.Update.{
  maybe_spawn, move_from, fly, ends, advance, advance_all, remove_old, finish, update,
}
use tabulum.BackgroundCanvas.Loop.{
  Event, mount, unmount, resize, point_at, leave, frame, remove, is_requested, initial, request,
  set_size, set_mouse, show, render, loop, step, run,
}
use tabulum.BackgroundCanvas.Aiming.{IsUnit, IsSound}
use tabulum.BackgroundCanvas.Soundness.{update-run}
use tabulum.BackgroundCanvas.Places.{IsInside}
use tabulum.BackgroundCanvas.Window.{update-Inside}
use tabulum.BackgroundCanvas.Frames.{IsScheduled, run-initial-IsScheduled, run-unmounted}

animation : Unit {0}
unfolding place spawn_node pull_of gather cohere repel wrap move candidates set_glow send_pulse
    answer message maybe_spawn move_from fly ends advance advance_all remove_old finish update
    remove is_requested initial request set_size set_mouse show render loop step run square_root
animation = tt

-- Random numbers that go round.
abbrev rolls : ℕ → ℤ
rolls k = dec (k * 37 % 100) 100

rolls-IsUnit : IsUnit rolls
rolls-IsUnit k n p l =
    thousandths-IsExact.floor-lt (k * 37 % 100) 100 n (omega arith) (omega arith) p l

-- A node that has been there for 300 frames.
abbrev at : ℕ → ℕ → Node ℤ
at x y = record {
  x = pos (x * 1000);
  y = pos (y * 1000);
  cluster = record { cx = pos 500; cy = pos 900; spread = pos 150 };
  vx = pos 0;
  vy = pos 0;
  age = 300;
  glow = pos 0;
}

abbrev pulse : ℕ → ℕ → Bool → ℕ → Pulse ℤ
pulse i j alive age = record {
  from_node = i;
  to_node = some j;
  x = pos 0;
  y = pos 0;
  progress = pos 0;
  alive = alive;
  age = age;
}

-- Two nodes far outside a window of 800 by 600, a pulse on its way, and one that is over.
abbrev outside : Scene ℤ
outside = record {
  width = pos 800000;
  height = pos 600000;
  mouse_x = negsuc 999999;
  mouse_y = negsuc 999999;
  nodes = at 2000 100 ∷ at 300 3000 ∷ [];
  pulses = pulse 0 1 true 0 ∷ pulse 1 0 false 51 ∷ [];
  tick = 0;
  drawn = 5;
}

-- The pulses after a frame: the dead one is removed, the other moves on.
ages : Outcome ℤ → List (ℕ × Bool)
ages (done s) = map (λ p. (p.age, p.alive)) s.pulses
ages (thrown s) = []

outside_pulses : ages (update rolls outside) ≡ (1, true) ∷ []
unfolding animation ages
outside_pulses = refl

-- The page is opened, a frame runs, and the window is made smaller.
abbrev visit : List (Event ℤ)
visit =
    mount (pos 800000) (pos 600000)
    ∷ frame 1 (pos 40000)
    ∷ point_at (pos 10000) (pos 20000)
    ∷ frame 2 (pos 50000)
    ∷ frame 3 (pos 80000)
    ∷ resize (pos 300000) (pos 200000)
    ∷ []

visit_requested : (run rolls visit initial).requested ≡ 4 ∷ []
unfolding animation
visit_requested = refl

run-initial-IsScheduled_example : IsScheduled rolls (run rolls visit initial)
run-initial-IsScheduled_example = run-initial-IsScheduled rolls visit

abbrev afterwards : List (Event ℤ)
afterwards = frame 4 (pos 120000) ∷ leave ∷ resize (pos 1000) (pos 1000) ∷ []

run-unmounted_example :
    run rolls afterwards (step rolls unmount (run rolls visit initial))
    ≡ step rolls unmount (run rolls visit initial)
run-unmounted_example = run-unmounted rolls visit afterwards tt

update-run_example :
    (s' : Scene ℤ) × (update rolls (run rolls visit initial).scene ≡ done s') × IsSound s'
update-run_example = update-run rolls rolls-IsUnit visit

outside-IsSound : IsSound outside
outside-IsSound = ground arith

update-Inside_example :
    (s' : Scene ℤ) × (update rolls outside ≡ done s')
    × All (IsInside outside.width outside.height) s'.nodes
update-Inside_example =
    update-Inside thousandths-IsOrdered rolls outside rolls-IsUnit outside-IsSound refl refl
