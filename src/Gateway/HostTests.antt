-- ===== src/Gateway/HostTests.antt =====
-- The owner of the runtime at concrete interleavings.
use lucy.Prelude.{
  ℕ, ◌+◌, ◌≤◌, ◌≡◌, ◌≢◌, ◌↔◌, refl, true, false, some, none, List, [], ◌∷◌, arith, length,
}
use lucy.Gateway.Host.{
  Host, Action, looks, enters, finishes, connects, disconnects, new_host, serve_all, may_reap,
}
use lucy.Gateway.Host.Shared.{OneRuntime, new_host-OneRuntime}
use lucy.Gateway.Host.Reaper.{connects_then_takes, may_reap-races}

-- Two requests look before either loads; the first build fails.
abbrev together : List Action
together =
    looks 1 100 true
    ∷ looks 2 100 true
    ∷ enters 1 101
    ∷ enters 2 101
    ∷ finishes 1 102 false
    ∷ enters 2 102
    ∷ connects 103
    ∷ finishes 2 104 true
    ∷ enters 1 105
    ∷ disconnects 106
    ∷ []

new_host-OneRuntime_example : OneRuntime (serve_all together (new_host 99))
new_host-OneRuntime_example =
    new_host-OneRuntime together 99
      (refl, (refl, (refl, (refl, (refl, (refl, (refl, (refl, (refl, (refl, tt))))))))))

both_answered : (serve_all together (new_host 99)).answers ≡ (1, 0) ∷ (2, 0) ∷ []
unfolding serve_all new_host
both_answered = refl

abbrev idle : Host
idle = record {
  runtime = some 0;
  loading = none;
  last_active = 106;
  clients = 0;
  loaded_ever = true;
  builds = 1;
  answers = [];
}

abbrev timeout : ℕ
timeout = 300

may_reap-races_example :
    ((may_reap timeout 500 idle ≡ true) ↔ (
      (timeout ≢ 0)
      × (idle.clients ≡ 0)
      × ((rt : ℕ) × (idle.runtime ≡ some rt))
      × (idle.last_active + timeout ≤ 500)))
    × (may_reap timeout 500 idle ≡ true
        → (ts : List ℕ)
        → ((serve_all (connects_then_takes ts) idle).runtime ≡ none)
          × ((serve_all (connects_then_takes ts) idle).clients ≡ length ts))
may_reap-races_example = may_reap-races timeout 500 idle (omega arith)
