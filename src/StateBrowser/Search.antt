-- ===== src/StateBrowser/Search.antt =====
-- The search field of StateBrowser.jsx and the polling behind it.
use tabulum.Prelude.{suc, String, ◌∷◌, true, false, ◌≡◌, arith}
use tabulum.UsePolling
use tabulum.UsePolling.Ticking.{IsTicking}
use tabulum.UsePolling.Stale.{disabled_render}
use tabulum.StateBrowser.State.{Browser, search, poll_options, act}

-- A mounted page whose auto-refresh is off: typing in the search field sends no request, and changes
-- neither the list of keys nor anything else that the hook shows.
pub search_off :
    (p : String) (b : Browser)
    → IsTicking b.hook
    → b.hook.options.enabled ≡ false
    → b.auto_refresh ≡ false
    → ((act (search p) b).hook.resource ≡ b.hook.resource)
      × ((act (search p) b).hook.loading ≡ b.hook.loading)
      × ((act (search p) b).hook.error ≡ b.hook.error)
      × ((act (search p) b).hook.requests ≡ b.hook.requests)
unfolding act poll_options
search_off p b v d off =
    let (same, quiet, _) = disabled_render (poll_options p b.auto_refresh) b.hook v d off in
    (same.0, same.1, same.2, quiet)

-- With auto-refresh on, typing another prefix into a mounted page sends one fetch, for that prefix.
pub search_on :
    (p : String) (b : Browser)
    → b.hook.attached ≡ true
    → b.auto_refresh ≡ true
    → UsePolling.same_deps b.hook.options (poll_options p true) ≡ false
    → (act (search p) b).hook.requests
      ≡ record {
        id = suc (UsePolling.cleanup b.hook).next_id;
        url = UsePolling.build_url (poll_options p true);
      }
        ∷ b.hook.requests
unfolding act poll_options UsePolling.step UsePolling.on_render UsePolling.effect UsePolling.cleanup
search_on p b a on d = ground arith
