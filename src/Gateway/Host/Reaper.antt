-- ===== src/Gateway/Host/Reaper.antt =====
-- What the reaper of the idle runtime sees, and what it does not.
use lucy.Prelude.{
  ℕ, ◌+◌, ◌-◌, ◌==◌, ltb, not, ◌&&◌, ◌||◌, ◌≤◌, ◌≡◌, ◌≢◌, ◌↔◌, refl, true, Option, none, some, List,
  [], ◌∷◌, arith, length,
}
use lucy.Gateway.Host.{
  Host, is_some, may_reap, take_runtime, client_connected, Action, connects, takes, serve_all,
}

reap_tests :
    (timeout now last clients : ℕ) (o : Option ℕ)
    → last ≤ now
    → ((not (timeout == 0 || ltb 0 clients || not (is_some o)) && not (ltb (now - last) timeout))
        ≡ true)
      ↔ ((timeout ≢ 0) × (clients ≡ 0) × ((rt : ℕ) × (o ≡ some rt)) × (last + timeout ≤ now))
reap_tests timeout now last clients none l = (λ h. ground (arith, h), λ h. ground (arith, h.2.1))
reap_tests timeout now last clients (some rt) l =
    (λ h. (ground (arith, h), ground (arith, h), (rt, refl), ground (arith, h)), λ h. ground arith)

-- clients connect at these times, and then the reaper has the lock
abbrev pub connects_then_takes : List ℕ → List Action
connects_then_takes [] = takes ∷ []
connects_then_takes (t ∷ ts) = connects t ∷ connects_then_takes ts

taken-connects :
    (ts : List ℕ) (h : Host)
    → ((serve_all (connects_then_takes ts) h).runtime ≡ none)
      × ((serve_all (connects_then_takes ts) h).clients ≡ h.clients + length ts)
unfolding serve_all client_connected take_runtime
taken-connects [] h = (refl, omega arith)
taken-connects (t ∷ ts) h =
    let (gone, left) = taken-connects ts (client_connected t h) in (gone, omega (arith, left))

-- The reaper goes on to wait for the lock exactly where unloading is on, no client is connected, a
-- runtime is there, and the last activity is as long ago as the timeout. Clients that connect while it
-- waits do not stop it: when it has the lock the runtime is gone, and all of them are connected.
pub may_reap-races :
    (timeout now : ℕ) (h : Host)
    → h.last_active ≤ now
    → ((may_reap timeout now h ≡ true) ↔ (
        (timeout ≢ 0)
        × (h.clients ≡ 0)
        × ((rt : ℕ) × (h.runtime ≡ some rt))
        × (h.last_active + timeout ≤ now)))
      × (may_reap timeout now h ≡ true
          → (ts : List ℕ)
          → ((serve_all (connects_then_takes ts) h).runtime ≡ none)
            × ((serve_all (connects_then_takes ts) h).clients ≡ length ts))
unfolding may_reap
may_reap-races timeout now h l =
    let exact = reap_tests timeout now h.last_active h.clients h.runtime l in
    (
      exact,
      λ e ts. let (gone, left) = taken-connects ts h in (gone, omega (arith, left, (exact.0 e).1)),
    )
