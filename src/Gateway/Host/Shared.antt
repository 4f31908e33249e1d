-- ===== src/Gateway/Host/Shared.antt =====
-- Requests that arrive together share one runtime.
use lucy.Prelude.{ℕ, ◌≡◌, refl, Bool, true, false, ◌⊎◌, inl, none, some, List, [], ◌∷◌, arith, All}
use lucy.Gateway.Host.{
  Host, Action, looks, enters, finishes, connects, disconnects, touches, takes, new_host, serve,
  serve_all, look, enter, finish_build, client_connected, client_disconnected,
}

abbrev pub is_take : Action → Bool
is_take takes = true
is_take a = false

-- no runtime yet and none handed out, or the one runtime, which every answer names
abbrev pub OneRuntime : Host → Type 0
OneRuntime h =
    ((h.builds ≡ 0) × (h.runtime ≡ none) × (h.answers ≡ []))
    ⊎ ((h.builds ≡ 1) × (h.runtime ≡ some 0) × (h.loading ≡ none) × All (λ a. a.1 ≡ 0) h.answers)

serve-OneRuntime :
    (a : Action) (h : Host) → is_take a ≡ false → OneRuntime h → OneRuntime (serve a h)
unfolding serve look enter finish_build client_connected client_disconnected
serve-OneRuntime (looks i now free) h n o = ground arith
serve-OneRuntime (enters i now) h n o = ground arith
serve-OneRuntime (finishes i now succeeds) h n o = ground arith
serve-OneRuntime (connects now) h n o = o
serve-OneRuntime (disconnects now) h n o = o
serve-OneRuntime (touches now) h n o = o
serve-OneRuntime takes h n o = ground arith

serve_all-OneRuntime :
    (actions : List Action) (h : Host)
    → All (λ a. is_take a ≡ false) actions
    → OneRuntime h
    → OneRuntime (serve_all actions h)
unfolding serve_all
serve_all-OneRuntime [] h n o = o
serve_all-OneRuntime (a ∷ rest) h n o =
    serve_all-OneRuntime rest (serve a h) n.1 (serve-OneRuntime a h n.0 o)

-- However the requests for the runtime interleave with each other and with the clients that come and go,
-- and whether or not a build fails, as long as nothing takes the runtime away it is built at most once,
-- and every request that is answered gets the same one.
pub new_host-OneRuntime :
    (actions : List Action) (now : ℕ)
    → All (λ a. is_take a ≡ false) actions
    → OneRuntime (serve_all actions (new_host now))
unfolding new_host
new_host-OneRuntime actions now n =
    serve_all-OneRuntime actions (new_host now) n (inl (refl, refl, refl))
