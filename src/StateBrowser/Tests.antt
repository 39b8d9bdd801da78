-- ===== src/StateBrowser/Tests.antt =====
-- Runs of StateBrowser.jsx, and its theorems at concrete sessions.
use tabulum.Prelude.{eq_iff, String, [], ◌∷◌, none, some, true, false, ◌≡◌, ◌≢◌, refl, arith}
use tabulum.UsePolling
use tabulum.UsePolling.Ticking.{run-initial-IsTicking}
use tabulum.StateBrowser.Format.{format_bytes}
use tabulum.StateBrowser.State.{
  Keys, Browser, search, refresh, click, answer, mount, reply, json, text, Entry, entry_of,
  fetch_value, on_answer, find, remove, poll_options, rerender, act, run, initial,
}
use tabulum.StateBrowser.View.{rows, panel, open_panel, waiting, content, count_label, notice}
use tabulum.StateBrowser.Panels.{waiting-IsFetching, click-answer, crossed_answers}
use tabulum.StateBrowser.Search.{search_off}

machine : Unit {0}
unfolding act run initial find remove rerender panel rows count_label notice format_bytes
    fetch_value on_answer poll_options UsePolling.step UsePolling.run UsePolling.initial
    UsePolling.find UsePolling.remove UsePolling.on_reply UsePolling.on_tick UsePolling.on_render
    UsePolling.same_deps UsePolling.build_url
machine = tt

sizes :
    (format_bytes none ≡ "—")
    × (format_bytes (some 1023) ≡ "1023 B")
    × (format_bytes (some 1024) ≡ "1.0 KB")
    × (format_bytes (some 1587) ≡ "1.5 KB")
    × (format_bytes (some 1588) ≡ "1.6 KB")
unfolding machine
sizes = (refl, refl, refl, refl, refl)

abbrev found : Entry
found = record { redacted = false; value = text "v"; error = none }

abbrev other_found : Entry
other_found = record { redacted = false; value = text "w"; error = none }

abbrev answered : UsePolling.Outcome Keys
answered = UsePolling.json (record {
  keys = some (
      record {
        key = "a";
        last_modified_by = none;
        last_modified_at = some "";
        value_length = some 3;
      }
      ∷ []);
  total = some 1;
})

page :
    (rows
        (λ t. none)
        (run (mount ∷ reply 2 answered ∷ click "a" ∷ answer 1 (json found) ∷ []) initial)
      ≡ record {
        key = "a";
        agent = "—";
        time = "—";
        size = "3 B";
        opened = some (content (some "v"));
      }
        ∷ [])
    × (count_label (run (mount ∷ reply 2 answered ∷ []) initial) ≡ "1 keys")
    × (notice (run (mount ∷ []) initial) ≡ some "Loading...")
unfolding machine
page = (refl, refl, refl)

waiting-IsFetching_example : (run (mount ∷ click "a" ∷ []) initial).requests ≢ []
unfolding machine
waiting-IsFetching_example = waiting-IsFetching (mount ∷ click "a" ∷ []) "a" refl

click-answer_example :
    (panel "a" (act (click "a") initial) ≡ some waiting)
    × (panel "a" (run (click "a" ∷ answer 1 (json found) ∷ []) initial)
        ≡ some (open_panel (entry_of (json found))))
    × (◌≢◌ {A = String} "b" "a"
        → panel "b" (run (click "a" ∷ answer 1 (json found) ∷ []) initial) ≡ none)
unfolding machine
click-answer_example = click-answer "a" "b" (json found) initial refl refl

b_not_a : ◌≢◌ {A = String} "b" "a"
b_not_a = ground (arith, eq_iff "b" "a")

crossed_answers_example :
    panel "b" (
      run
        (click "a" ∷ click "b" ∷ answer 2 (json other_found) ∷ answer 1 (json found) ∷ [])
        initial)
    ≡ some (open_panel (entry_of (json found)))
unfolding machine
crossed_answers_example =
    crossed_answers "a" "b" (json found) (json other_found) initial b_not_a refl refl

abbrev still : Browser
still = run (mount ∷ refresh false ∷ []) initial

search_off_example :
    ((act (search "p") still).hook.resource ≡ still.hook.resource)
    × ((act (search "p") still).hook.loading ≡ still.hook.loading)
    × ((act (search "p") still).hook.error ≡ still.hook.error)
    × ((act (search "p") still).hook.requests ≡ still.hook.requests)
unfolding machine
search_off_example =
    search_off "p" still
      (run-initial-IsTicking (UsePolling.mount ∷ UsePolling.render (poll_options "" false) ∷ [])
        (poll_options "" true))
      refl refl
