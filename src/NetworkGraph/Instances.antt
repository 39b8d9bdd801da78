-- ===== src/NetworkGraph/Instances.antt =====
-- The life of the renderer's instance: `instanceRef`, the instances that are running, and the 3D
-- renderers whose promise has not resolved yet.
use tabulum.Prelude.{
  ℕ, suc, List, [], ◌∷◌, Option, none, some, Bool, true, false, ◌==◌, if◌then◌else◌,
}

pub data Mode : Type 0 where
  flat deep : Mode

pub record Canvas : Type 0 where
  pub mode : Mode
  -- whether there is data with nodes
  pub filled : Bool
  -- whether the component is mounted, and so has its containers
  pub mounted : Bool
  pub instance_ref : Option ℕ
  pub running : List ℕ
  pub pending : List ℕ
  pub next_id : ℕ

unfoldable pub remove : ℕ → List ℕ → List ℕ
remove id [] = []
remove id (j ∷ js) = if j == id then js else j ∷ remove id js

unfoldable pub is_pending : ℕ → List ℕ → Bool
is_pending id [] = false
is_pending id (j ∷ js) = if j == id then true else is_pending id js

-- `instanceRef.current.destroy(); instanceRef.current = null`, if there is one
unfoldable pub destroy : Canvas → Canvas
unfolding remove
destroy c = elim c.instance_ref [
  | none ↦ c
  | some id ↦ record c { instance_ref = none; running = remove id c.running }
]

-- The two renderers: the first returns its instance, the second a promise for it.
unfoldable pub start : Mode → Canvas → Canvas
start flat c = record c {
  instance_ref = some c.next_id;
  running = c.next_id ∷ c.running;
  next_id = suc c.next_id;
}
start deep c = record c { pending = c.next_id ∷ c.pending; next_id = suc c.next_id }

unfoldable pub render_graph : Canvas → Canvas
unfolding destroy start
render_graph c = if c.filled then (if c.mounted then start c.mode (destroy c) else destroy c) else c

pub data Event : Type 0 where
  mount unmount : Event
  -- new data, with nodes or without; a click on one of the mode buttons; the window changes its size
  refresh : Bool → Event
  choose : Mode → Event
  resize : Event
  -- a promise of the 3D renderer resolves
  resolve : ℕ → Event

abbrev pub same_mode : Mode → Mode → Bool
same_mode flat flat = true
same_mode deep deep = true
same_mode flat deep = false
same_mode deep flat = false

unfoldable pub step : Event → Canvas → Canvas
unfolding render_graph destroy is_pending remove
step mount c = if c.mounted then c else render_graph (record c { mounted = true })
step unmount c = if c.mounted then record (destroy c) { mounted = false } else c
step (refresh filled) c =
    if c.mounted then render_graph (record (destroy c) { filled = filled }) else c
step (choose m) c =
    if same_mode m c.mode
    then c
    else if c.mounted
    then render_graph (record (destroy c) { mode = m })
    else c
step resize c = if c.mounted then render_graph c else c
step (resolve id) c =
    if is_pending id c.pending
    then record c {
      instance_ref = some id;
      running = id ∷ c.running;
      pending = remove id c.pending;
    }
    else c

unfoldable pub run : List Event → Canvas → Canvas
run [] c = c
run (e ∷ es) c = run es (step e c)

unfoldable pub initial : Canvas
initial = record {
  mode = flat;
  filled = false;
  mounted = false;
  instance_ref = none;
  running = [];
  pending = [];
  next_id = 1;
}
