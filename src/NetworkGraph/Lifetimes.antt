-- ===== src/NetworkGraph/Lifetimes.antt =====
-- Which instances of the renderers are running.
use tabulum.Prelude.{
  Bool, ◌&&◌, ℕ, List, [], ◌∷◌, Option, none, some, true, false, ◌≡◌, ◌≢◌, refl, arith,
}
use tabulum.NetworkGraph.Instances.{
  flat, deep, Canvas, render_graph, Event, mount, unmount, refresh, choose, resize, resolve, step,
  run, initial,
}

-- The running instances are the one that the ref holds.
abbrev pub Held : Option ℕ → List ℕ → Type 0
Held none [] = Unit
Held none (i ∷ is) = ⊥
Held (some id) [] = ⊥
Held (some id) (i ∷ []) = i ≡ id
Held (some id) (i ∷ j ∷ is) = ⊥

abbrev pub is_some : Option ℕ → Bool
is_some none = false
is_some (some id) = true

pub record IsFlat (c : Canvas) : Type 0 where
  pub held : Held c.instance_ref c.running
  pub mode : c.mode ≡ flat
  pub settled : c.pending ≡ []
  pub idle : c.mounted ≡ false → c.running ≡ []
  pub drawn : is_some c.instance_ref ≡ (c.mounted && c.filled)

-- The 3D mode is not chosen.
abbrev pub Flat : List Event → Type 0
Flat [] = Unit
Flat (choose m ∷ es) = (m ≡ flat) × Flat es
Flat (e ∷ es) = Flat es

pub step-IsFlat : (e : Event) (c : Canvas) → Flat (e ∷ []) → IsFlat c → IsFlat (step e c)
unfolding step render_graph
step-IsFlat mount c f v = ground arith
step-IsFlat unmount c f v = ground arith
step-IsFlat (refresh b) c f v = ground arith
step-IsFlat (choose m) c f v = ground arith
step-IsFlat resize c f v = ground arith
step-IsFlat (resolve id) c f v = ground arith

run-IsFlat : (es : List Event) (c : Canvas) → Flat es → IsFlat c → IsFlat (run es c)
unfolding run
run-IsFlat [] c f v = v
run-IsFlat (mount ∷ es) c f v = run-IsFlat es (step mount c) f (step-IsFlat mount c tt v)
run-IsFlat (unmount ∷ es) c f v = run-IsFlat es (step unmount c) f (step-IsFlat unmount c tt v)
run-IsFlat (refresh b ∷ es) c f v =
    run-IsFlat es (step (refresh b) c) f (step-IsFlat (refresh b) c tt v)
run-IsFlat (choose m ∷ es) c f v =
    run-IsFlat es (step (choose m) c) f.1 (step-IsFlat (choose m) c (f.0, tt) v)
run-IsFlat (resize ∷ es) c f v = run-IsFlat es (step resize c) f (step-IsFlat resize c tt v)
run-IsFlat (resolve id ∷ es) c f v =
    run-IsFlat es (step (resolve id) c) f (step-IsFlat (resolve id) c tt v)

-- While the 3D mode is not chosen, whatever is mounted, refreshed, resized or unmounted, the running
-- instances are exactly the one that the ref holds, or none; and one runs exactly while the component
-- is mounted and its data has nodes.
pub run-initial-IsFlat : (es : List Event) → Flat es → IsFlat (run es initial)
unfolding initial
run-initial-IsFlat es f =
    run-IsFlat es initial f
      (record { held = tt; mode = refl; settled = refl; idle = λ e. refl; drawn = refl })

-- In the 3D mode, a render that comes while an earlier renderer is still loading: when both have
-- loaded, the earlier instance is held by nothing, and goes on running after the component has been
-- unmounted.
pub deep_leak :
    (a : ℕ) (c : Canvas)
    → c.mode ≡ deep
    → c.filled ≡ true
    → c.mounted ≡ true
    → c.instance_ref ≡ none
    → c.running ≡ []
    → c.pending ≡ a ∷ []
    → a ≢ c.next_id
    → ((run (resize ∷ resolve a ∷ resolve c.next_id ∷ unmount ∷ []) c).running ≡ a ∷ [])
      × ((run (resize ∷ resolve a ∷ resolve c.next_id ∷ unmount ∷ []) c).mounted ≡ false)
      × ((run (resize ∷ resolve a ∷ resolve c.next_id ∷ unmount ∷ []) c).instance_ref ≡ none)
unfolding run step render_graph
deep_leak a c m f o r g p n = ground arith
