-- ===== src/UsePolling/Handlers.antt =====
-- The callbacks of usePolling.js, each as a function of the hook's state.
use tabulum.Prelude.{
  ℕ, suc, List, [], ◌∷◌, Option, none, some, true, false, ◌||◌, not, if◌then◌else◌, ◌==◌, ◌<>◌,
  show,
}
use tabulum.UsePolling.State.{
  Options, Url, build_url, same_deps, Outcome, thrown, http, json, Task, Hook, Event, mount,
  unmount, render, tick, reply, refetch,
}

unfoldable pub find : ℕ → List Task → Option Task
find id [] = none
find id (t ∷ ts) = if t.id == id then some t else find id ts

unfoldable pub remove : ℕ → List Task → List Task
remove id [] = []
remove id (t ∷ ts) = if t.id == id then ts else t ∷ remove id ts

module _ {ℓ} {J : Type ℓ} where
  -- `fetchData`, up to its `await fetch(url)`
  unfoldable pub fetch_data : Url → Hook J → Hook J
  fetch_data url h = record h {
    requests = record { id = h.next_id; url = url } ∷ h.requests;
    next_id = suc h.next_id;
  }

  -- the rest of `fetchData`, its `catch` included, once the component is known to be mounted
  unfoldable pub settle : Outcome J → Hook J → Hook J
  unfolding show
  settle (thrown message) h = record h { error = some message; loading = false }
  settle (http status) h = record h { error = some ("HTTP " <> show status); loading = false }
  settle (json j) h = record h { resource = some j; error = none; loading = false }

  unfoldable pub on_reply : ℕ → Outcome J → Hook J → Hook J
  unfolding settle
  on_reply id r h = elim (find id h.requests) [
    | none ↦ h
    | some q ↦
        if h.mounted
        then settle r (record h { requests = remove id h.requests })
        else record h { requests = remove id h.requests }
  ]

  -- The body of the effect: disabled, it returns before it fetches, and with no cleanup.
  unfoldable pub effect : Options → Hook J → Hook J
  unfolding fetch_data build_url
  effect o h =
      if not o.enabled
      then record h { mounted = true; options = o; cleared_by = none; attached = true }
      else fetch_data (build_url o) (record h {
        mounted = true;
        options = o;
        cleared_by = some h.next_id;
        attached = true;
        intervals = record { id = h.next_id; url = build_url o } ∷ h.intervals;
        next_id = suc h.next_id;
      })

  -- the function that the effect returned, if it returned one
  unfoldable pub cleanup : Hook J → Hook J
  cleanup h = elim h.cleared_by [
    | none ↦ h
    | some id ↦ record h { mounted = false; intervals = remove id h.intervals; cleared_by = none }
  ]

  unfoldable pub on_render : Options → Hook J → Hook J
  unfolding effect cleanup
  on_render o h = if not h.attached || same_deps h.options o then h else effect o (cleanup h)

  -- the callback of `setInterval`
  unfoldable pub on_tick : ℕ → Hook J → Hook J
  unfolding fetch_data
  on_tick id h = elim (find id h.intervals) [ none ↦ h | some i ↦ fetch_data i.url h ]

  unfoldable pub step : Event J → Hook J → Hook J
  unfolding fetch_data build_url
  step mount h = if h.attached then h else effect h.options h
  step unmount h = if h.attached then record (cleanup h) { attached = false } else h
  step (render o) h = on_render o h
  step (tick id) h = on_tick id h
  step (reply id r) h = on_reply id r h
  step refetch h = fetch_data (build_url h.options) h

  unfoldable pub run : List (Event J) → Hook J → Hook J
  run [] h = h
  run (e ∷ es) h = run es (step e h)
