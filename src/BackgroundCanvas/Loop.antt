-- ===== src/BackgroundCanvas/Loop.antt =====
-- The effect of BackgroundCanvas.jsx: the loop of frames, the listeners and the cleanup.
use tabulum.Prelude.{ℕ, suc, List, [], ◌∷◌, Bool, true, false, if◌then◌else◌, ◌==◌}
use tabulum.Prelude.Floats.{Floats, ◌⊖◌, less, whole}
use tabulum.Drawing.{Command}
use tabulum.BackgroundCanvas.Config.{away}
use tabulum.BackgroundCanvas.Nodes.{Scene, Outcome, done, thrown}
use tabulum.BackgroundCanvas.Update.{update}
use tabulum.BackgroundCanvas.Painting.{draw}

-- The variables of the effect, and the frames that the browser has been asked for.
pub record Background (R : Type 0) : Type 0 where
  pub scene : Scene R
  pub last_frame : R
  pub raf_id : ℕ
  pub requested : List ℕ
  pub next_id : ℕ
  pub mounted : Bool
  -- what the last frame has drawn
  pub picture : List (Command R)

pub data Event (R : Type 0) : Type 0 where
  -- with the size of the window
  mount : R → R → Event R
  unmount : Event R
  resize : R → R → Event R
  -- the mouse, or the first touch, is at a point
  point_at : R → R → Event R
  -- the mouse leaves, or a touch ends
  leave : Event R
  -- the browser runs a frame, with its timestamp
  frame : ℕ → R → Event R

unfoldable pub remove : ℕ → List ℕ → List ℕ
remove id [] = []
remove id (j ∷ js) = if j == id then js else j ∷ remove id js

unfoldable pub is_requested : ℕ → List ℕ → Bool
is_requested id [] = false
is_requested id (j ∷ js) = if j == id then true else is_requested id js

module _ {R : Type 0} ⦃f : Floats R⦄ where
  unfoldable pub initial : Background R
  initial = record {
    scene = record {
      width = whole 0;
      height = whole 0;
      mouse_x = away;
      mouse_y = away;
      nodes = [];
      pulses = [];
      tick = 0;
      drawn = 0;
    };
    last_frame = whole 0;
    raf_id = 0;
    requested = [];
    next_id = 1;
    mounted = false;
    picture = [];
  }

  -- `rafId = requestAnimationFrame(loop)`
  unfoldable pub request : Background R → Background R
  request b = record b {
    raf_id = b.next_id;
    requested = b.next_id ∷ b.requested;
    next_id = suc b.next_id;
  }

  -- `resize()`; setting the size of a canvas clears it.
  unfoldable pub set_size : R → R → Background R → Background R
  set_size w h b = record b { scene = record b.scene { width = w; height = h }; picture = [] }

  unfoldable pub set_mouse : R → R → Background R → Background R
  set_mouse x y b = record b { scene = record b.scene { mouse_x = x; mouse_y = y } }

  -- What `update()` has come to is drawn; where it threw, `draw()` is not called and the picture stays.
  unfoldable pub show : Outcome R → Background R → Background R
  unfolding draw
  show (done s) b = record b { scene = s; picture = draw s }
  show (thrown s) b = record b { scene = s }

  -- `update(); draw()`
  unfoldable pub render : (ℕ → R) → Background R → Background R
  unfolding update show
  render rand b = show (update rand b.scene) b

  unfoldable pub loop : (ℕ → R) → R → Background R → Background R
  unfolding request render
  loop rand time b =
      if less (time ⊖ b.last_frame) (whole 32)
      then request b
      else render rand (record (request b) { last_frame = time })

  unfoldable pub step : (ℕ → R) → Event R → Background R → Background R
  unfolding request set_size set_mouse loop initial
  step rand (mount w h) b =
      if b.mounted
      then b
      else request (
          set_size w h (record initial {
            scene = record initial.scene { drawn = b.scene.drawn };
            mounted = true;
            next_id = b.next_id;
            requested = b.requested;
          }))
  step rand unmount b =
      if b.mounted then record b { mounted = false; requested = remove b.raf_id b.requested } else b
  step rand (resize w h) b = if b.mounted then set_size w h b else b
  step rand (point_at x y) b = if b.mounted then set_mouse x y b else b
  step rand leave b = if b.mounted then set_mouse away away b else b
  step rand (frame id time) b =
      if is_requested id b.requested
      then loop rand time (record b { requested = remove id b.requested })
      else b

  unfoldable pub run : (ℕ → R) → List (Event R) → Background R → Background R
  unfolding step
  run rand [] b = b
  run rand (e ∷ es) b = run rand es (step rand e b)
