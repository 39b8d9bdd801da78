-- ===== src/NetworkGraph/Component.antt =====
-- NetworkGraph.jsx as a whole: its switches, the hook that it polls with, and the renderer's instance,
-- which is made anew when the hook has new data.
use tabulum.Prelude.{[], some, ◌∷◌, none, false, true, if◌then◌else◌, List, Bool, ℕ}
use tabulum.UsePolling
use tabulum.NetworkGraph.Instances
use tabulum.NetworkGraph.Instances.{Mode, Canvas}
use tabulum.NetworkGraph.View.{Network, Panel, has_nodes, poll_options}

pub record Graph : Type 0 where
  pub auto_refresh : Bool
  pub hook : UsePolling.Hook Network
  pub canvas : Canvas

-- What the component renders.
unfoldable pub panel_of : Graph → Panel
panel_of g = record {
  auto_refresh = g.auto_refresh;
  mode = g.canvas.mode;
  network = g.hook.resource;
  loading = g.hook.loading;
  error = g.hook.error;
}

unfoldable pub first_render : Graph
unfolding poll_options UsePolling.initial Instances.initial
first_render =
    let panel : Panel = record {
      auto_refresh = true;
      mode = Instances.flat;
      network = none;
      loading = true;
      error = none;
    } in
    record {
      auto_refresh = true;
      hook = UsePolling.initial (poll_options panel);
      canvas = Instances.initial;
    }

pub data Action : Type 0 where
  mount unmount : Action
  -- the checkbox, the mode buttons, and the size of the window
  refresh : Bool → Action
  choose : Mode → Action
  resize : Action
  -- a promise of the 3D renderer resolves
  resolve : ℕ → Action
  -- what happens to the polling hook, but for its renders
  tick : ℕ → Action
  reply : ℕ → UsePolling.Outcome Network → Action

-- Whether the reply sets new data, an object of its own.
unfoldable pub sets_data : ℕ → UsePolling.Outcome Network → UsePolling.Hook Network → Bool
unfolding UsePolling.find
sets_data id (UsePolling.thrown m) h = false
sets_data id (UsePolling.http n) h = false
sets_data id (UsePolling.json d) h = elim (UsePolling.find id h.requests) [
  | none ↦ false
  | some q ↦ h.mounted
]

unfoldable pub act : Action → Graph → Graph
unfolding panel_of poll_options sets_data
act mount g = record g {
  hook = UsePolling.step UsePolling.mount g.hook;
  canvas = Instances.step Instances.mount g.canvas;
}
act unmount g = record g {
  hook = UsePolling.step UsePolling.unmount g.hook;
  canvas = Instances.step Instances.unmount g.canvas;
}
act (refresh on) g =
    let g' = record g { auto_refresh = on } in
    record g' { hook = UsePolling.step (UsePolling.render (poll_options (panel_of g'))) g.hook }
act (choose m) g = record g { canvas = Instances.step (Instances.choose m) g.canvas }
act resize g = record g { canvas = Instances.step Instances.resize g.canvas }
act (resolve id) g = record g { canvas = Instances.step (Instances.resolve id) g.canvas }
act (tick id) g = record g { hook = UsePolling.step (UsePolling.tick id) g.hook }
act (reply id r) g =
    let hook' = UsePolling.step (UsePolling.reply id r) g.hook in
    record g {
      hook = hook';
      canvas =
          if sets_data id r g.hook
          then Instances.step (Instances.refresh (has_nodes hook'.resource)) g.canvas
          else g.canvas;
    }

unfoldable pub run : List Action → Graph → Graph
unfolding act
run [] g = g
run (a ∷ more) g = run more (act a g)
