-- ===== src/UsePolling/Tests.antt =====
-- Runs of usePolling.js, and its theorems at concrete sessions.
use tabulum.Prelude.{String, List, [], ◌∷◌, none, some, true, false, ◌≡◌, refl}
use tabulum.UsePolling.State.{
  Options, http, json, Hook, Event, mount, unmount, render, tick, reply, initial, build_url,
  same_deps,
}
use tabulum.UsePolling.Handlers.{
  find, remove, fetch_data, settle, on_reply, effect, cleanup, on_render, on_tick, step, run,
}
use tabulum.UsePolling.Ticking.{IsTicking, run-initial-IsTicking}
use tabulum.UsePolling.Loading.{IsShown, Same, run-initial-IsShown}
use tabulum.UsePolling.Stale.{unmount_silences, stale_reply}

machine : Unit {0}
unfolding find remove fetch_data settle on_reply effect cleanup on_render on_tick step run initial
    build_url same_deps
machine = tt

abbrev all_keys : Options
all_keys = record {
  path = "/observe/state";
  interval = 10000;
  enabled = true;
  params = ("limit", "100") ∷ [];
}

abbrev some_keys : Options
some_keys = record all_keys { params = ("prefix", "a") ∷ ("limit", "100") ∷ [] }

abbrev start : Hook String
start = initial all_keys

abbrev session : List (Event String)
session = mount ∷ reply 2 (http 503) ∷ tick 1 ∷ reply 3 (json "keys") ∷ []

session_shows :
    ((run session start).resource ≡ some "keys")
    × ((run session start).error ≡ none)
    × ((run (mount ∷ reply 2 (http 503) ∷ []) start).error ≡ some "HTTP 503")
unfolding machine
session_shows = (refl, refl, refl)

run-initial-IsTicking_example : IsTicking (run session start)
run-initial-IsTicking_example = run-initial-IsTicking session all_keys

run-initial-IsShown_example : IsShown (run session start)
run-initial-IsShown_example = run-initial-IsShown session all_keys

unmount_silences_example :
    Same (run session start) (run (unmount ∷ reply 3 (json "late") ∷ []) (run session start))
unfolding machine
unmount_silences_example =
    unmount_silences (reply 3 (json "late") ∷ []) (run session start)
      (run-initial-IsTicking session all_keys) refl refl tt

stale_reply_example :
    ((run (render some_keys ∷ reply 2 (json "all") ∷ []) (run (mount ∷ []) start)).resource
      ≡ some "all")
    × ((run (render some_keys ∷ reply 2 (json "all") ∷ []) (run (mount ∷ []) start)).options
        ≡ some_keys)
unfolding machine
stale_reply_example =
    stale_reply some_keys 2 (record { id = 2; url = build_url all_keys }) "all"
      (run (mount ∷ []) start) refl refl refl

abbrev off : Options
off = record all_keys { enabled = false }
