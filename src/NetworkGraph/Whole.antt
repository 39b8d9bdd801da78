-- ===== src/NetworkGraph/Whole.antt =====
-- The renderer of NetworkGraph.jsx has the data of the hook.
use tabulum.Prelude.{
  some, Option, ◌&&◌, if◌then◌else◌, length, ap, Bool, ℕ, List, [], ◌∷◌, true, false, ◌≡◌, none,
  refl, arith, if_cases, ◌∙◌, sym,
}
use tabulum.UsePolling
use tabulum.UsePolling.Attached
use tabulum.NetworkGraph.Instances
use tabulum.NetworkGraph.Lifetimes.{is_some, Held, IsFlat, Flat, step-IsFlat}
use tabulum.NetworkGraph.View.{poll_options, Network, has_nodes}
use tabulum.NetworkGraph.Component.{
  Graph, Action, mount, unmount, refresh, choose, resize, resolve, tick, reply, sets_data, act, run,
  first_render,
}

-- The renderer is mounted with the hook, and knows whether there are nodes to draw.
pub record IsWhole (g : Graph) : Type 0 where
  pub flat : IsFlat g.canvas
  pub mounted : g.canvas.mounted ≡ g.hook.attached
  pub filled : g.hook.attached ≡ true → g.canvas.filled ≡ has_nodes g.hook.resource

-- An instance of the component is mounted once; and the 3D mode is not chosen.
abbrev pub IsLife : List Action → Type 0
IsLife [] = Unit
IsLife (mount ∷ more) = ⊥
IsLife (unmount ∷ more) = IsLife more
IsLife (refresh on ∷ more) = IsLife more
IsLife (choose m ∷ more) = (m ≡ Instances.flat) × IsLife more
IsLife (resize ∷ more) = IsLife more
IsLife (resolve id ∷ more) = IsLife more
IsLife (tick id ∷ more) = IsLife more
IsLife (reply id r ∷ more) = IsLife more

abbrev IsQuiet : Instances.Event → Type 0
IsQuiet (Instances.choose m) = Unit
IsQuiet Instances.resize = Unit
IsQuiet (Instances.resolve id) = Unit
IsQuiet Instances.mount = ⊥
IsQuiet Instances.unmount = ⊥
IsQuiet (Instances.refresh b) = ⊥

-- A step of the renderer but for new data and mounting.
canvas-filled :
    (e : Instances.Event) (c : Instances.Canvas)
    → Flat (e ∷ [])
    → IsQuiet e
    → IsFlat c
    → ((Instances.step e c).filled ≡ c.filled) × ((Instances.step e c).mounted ≡ c.mounted)
unfolding Instances.step Instances.render_graph Instances.destroy Instances.start
canvas-filled (Instances.choose m) c f q v = ground arith
canvas-filled Instances.resize c f q v = ground arith
canvas-filled (Instances.resolve id) c f q v = ground arith
canvas-filled Instances.mount c f q v = absurd q
canvas-filled Instances.unmount c f q v = absurd q
canvas-filled (Instances.refresh b) c f q v = absurd q

quiet-IsWhole :
    (e : Instances.Event) (g : Graph)
    → Flat (e ∷ [])
    → IsQuiet e
    → IsWhole g
    → IsWhole (record g { canvas = Instances.step e g.canvas })
quiet-IsWhole e g f q v =
    let (filled, mounted) = canvas-filled e g.canvas f q v.flat in
    record {
      flat = step-IsFlat e g.canvas f v.flat;
      mounted = mounted ∙ v.mounted;
      filled = λ a. filled ∙ v.filled a;
    }

unmount-canvas : (c : Instances.Canvas) → (Instances.step Instances.unmount c).mounted ≡ false
unfolding Instances.step Instances.destroy
unmount-canvas c = ground arith

refresh-canvas :
    (b : Bool) (c : Instances.Canvas)
    → ((Instances.step (Instances.refresh b) c).mounted ≡ c.mounted)
      × (c.mounted ≡ true → (Instances.step (Instances.refresh b) c).filled ≡ b)
unfolding Instances.step Instances.render_graph Instances.destroy Instances.start
refresh-canvas b c = (ground arith, λ m. ground arith)

-- A reply that sets no data leaves the resource.
reply-resource :
    (id : ℕ) (r : UsePolling.Outcome Network) (h : UsePolling.Hook Network)
    → sets_data id r h ≡ false
    → (UsePolling.step (UsePolling.reply id r) h).resource ≡ h.resource
unfolding sets_data UsePolling.step UsePolling.on_reply UsePolling.settle
reply-resource id (UsePolling.thrown m) h e = ground arith
reply-resource id (UsePolling.http n) h e = ground arith
reply-resource id (UsePolling.json d) h e = ground arith

-- The renderer untouched, and the hook's resource and mounting too.
hook-IsWhole :
    (g : Graph) (h : UsePolling.Hook Network) (on : Bool)
    → h.attached ≡ g.hook.attached
    → h.resource ≡ g.hook.resource
    → IsWhole g
    → IsWhole (record g { auto_refresh = on; hook = h })
hook-IsWhole g h on a r v = record {
  flat = v.flat;
  mounted = v.mounted ∙ sym a;
  filled = λ e. v.filled (sym a ∙ e) ∙ ap has_nodes (sym r);
}

reply-IsWhole :
    (id : ℕ) (r : UsePolling.Outcome Network) (g : Graph) → IsWhole g → IsWhole (act (reply id r) g)
unfolding act
reply-IsWhole id r g v =
    let hook' = UsePolling.step (UsePolling.reply id r) g.hook in
    let full = has_nodes hook'.resource in
    let same = Attached.reply-attached id r g.hook in
    if_cases (λ c. IsWhole (record g { hook = hook'; canvas = c })) (sets_data id r g.hook)
      (λ _.
        let (mounted, filled) = refresh-canvas full g.canvas in
        record {
          flat = step-IsFlat (Instances.refresh full) g.canvas tt v.flat;
          mounted = mounted ∙ v.mounted ∙ sym same;
          filled = λ a. filled (v.mounted ∙ sym same ∙ a);
        })
      (λ quiet. hook-IsWhole g hook' g.auto_refresh same (reply-resource id r g.hook quiet) v)

act-IsWhole : (a : Action) (g : Graph) → IsLife (a ∷ []) → IsWhole g → IsWhole (act a g)
unfolding act
act-IsWhole mount g l v = absurd l
act-IsWhole unmount g l v = record {
  flat = step-IsFlat Instances.unmount g.canvas tt v.flat;
  mounted = unmount-canvas g.canvas ∙ sym (Attached.unmount-attached g.hook);
  filled = λ a. cc (Attached.unmount-attached g.hook);
}
act-IsWhole (refresh on) g l v =
    hook-IsWhole g _ on (Attached.render-attached _ g.hook) (Attached.render-resource _ g.hook) v
act-IsWhole (choose m) g l v = quiet-IsWhole (Instances.choose m) g (l.0, tt) tt v
act-IsWhole resize g l v = quiet-IsWhole Instances.resize g tt tt v
act-IsWhole (resolve id) g l v = quiet-IsWhole (Instances.resolve id) g tt tt v
act-IsWhole (tick id) g l v =
    hook-IsWhole g _ g.auto_refresh (Attached.tick-attached id g.hook)
      (Attached.tick-resource id g.hook) v
act-IsWhole (reply id r) g l v = reply-IsWhole id r g v

run-IsWhole : (es : List Action) (g : Graph) → IsLife es → IsWhole g → IsWhole (run es g)
unfolding run
run-IsWhole [] g l v = v
run-IsWhole (mount ∷ es) g l v = absurd l
run-IsWhole (unmount ∷ es) g l v = run-IsWhole es (act unmount g) l (act-IsWhole unmount g tt v)
run-IsWhole (refresh on ∷ es) g l v =
    run-IsWhole es (act (refresh on) g) l (act-IsWhole (refresh on) g tt v)
run-IsWhole (choose m ∷ es) g l v =
    run-IsWhole es (act (choose m) g) l.1 (act-IsWhole (choose m) g (l.0, tt) v)
run-IsWhole (resize ∷ es) g l v = run-IsWhole es (act resize g) l (act-IsWhole resize g tt v)
run-IsWhole (resolve id ∷ es) g l v =
    run-IsWhole es (act (resolve id) g) l (act-IsWhole (resolve id) g tt v)
run-IsWhole (tick id ∷ es) g l v = run-IsWhole es (act (tick id) g) l (act-IsWhole (tick id) g tt v)
run-IsWhole (reply id r ∷ es) g l v =
    run-IsWhole es (act (reply id r) g) l (act-IsWhole (reply id r) g tt v)

mounted-IsWhole : IsWhole (act mount first_render)
unfolding act first_render UsePolling.step UsePolling.effect UsePolling.fetch_data
    UsePolling.initial Instances.step Instances.render_graph Instances.initial poll_options
    UsePolling.build_url
mounted-IsWhole = record {
  flat = record { held = tt; mode = refl; settled = refl; idle = λ e. cc; drawn = refl };
  mounted = refl;
  filled = λ e. refl;
}

Held-length :
    (ref : Option ℕ) (running : List ℕ)
    → Held ref running
    → length running ≡ (if is_some ref then 1 else 0)
Held-length none [] h = refl
Held-length none (i ∷ is) h = absurd h
Held-length (some id) [] h = absurd h
Held-length (some id) (i ∷ []) h = refl
Held-length (some id) (i ∷ j ∷ is) h = absurd h

whole-one :
    (g : Graph)
    → IsWhole g
    → Held g.canvas.instance_ref g.canvas.running
      × (length g.canvas.running ≡ (if g.hook.attached && has_nodes g.hook.resource then 1 else 0))
whole-one g v =
    let count = Held-length g.canvas.instance_ref g.canvas.running v.flat.held in
    (v.flat.held, ground (arith, count, v.flat.drawn, v.mounted, v.filled))

-- Whatever happens to the component once it has been mounted, while the 3D mode is not chosen:
-- exactly one renderer is running while the component is mounted and the resource that its hook
-- holds has nodes, and none is running otherwise; and the ref holds the one that is running.
pub run-mount-running :
    (es : List Action)
    → IsLife es
    → Held
        (run es (act mount first_render)).canvas.instance_ref
        (run es (act mount first_render)).canvas.running
      × (length (run es (act mount first_render)).canvas.running ≡ (
          if (run es (act mount first_render)).hook.attached
            && has_nodes (run es (act mount first_render)).hook.resource
          then 1
          else 0))
run-mount-running es l =
    whole-one (run es (act mount first_render))
      (run-IsWhole es (act mount first_render) l mounted-IsWhole)
