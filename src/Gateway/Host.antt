-- ===== src/Gateway/Host.antt =====
-- The owner of the runtime, crates/lucy-gateway/src/host.rs. Requests run at the same time: a step is
-- what one of them does between two points where it waits. A runtime is the number of its build.
pub mod Shared
pub mod Reaper
use lucy.Prelude.{
  ℕ, zero, suc, ◌+◌, ◌-◌, Bool, true, false, ◌&&◌, ◌||◌, not, Option, none, some, List, [], ◌∷◌,
  ◌==◌, ltb, leb, if◌then◌else◌,
}

pub record Host : Type 0 where
  pub runtime : Option ℕ
  -- the request that holds `loading` while it builds
  pub loading : Option ℕ
  pub last_active : ℕ
  pub clients : ℕ
  pub loaded_ever : Bool
  -- how many runtimes have been built, and which request got which: no part of the program
  pub builds : ℕ
  pub answers : List (ℕ × ℕ)

unfoldable pub new_host : ℕ → Host
new_host now = record {
  runtime = none;
  loading = none;
  last_active = now;
  clients = 0;
  loaded_ever = false;
  builds = 0;
  answers = [];
}

abbrev pub mark_active : ℕ → Host → Host
mark_active now h = record h { last_active = now }

unfoldable pub client_connected : ℕ → Host → Host
client_connected now h = mark_active now (record h { clients = suc h.clients })

unfoldable pub client_disconnected : ℕ → Host → Host
client_disconnected now h = mark_active now (record h { clients = h.clients - 1 })

abbrev pub given_to : ℕ → ℕ → ℕ → Host → Host
given_to i rt now h = mark_active now (record h { answers = (i, rt) ∷ h.answers })

-- the first look of `ensure`, which fails also where the lock is taken
abbrev look_by : ℕ → ℕ → Host → Option ℕ → Host
look_by i now h none = h
look_by i now h (some rt) = given_to i rt now h

unfoldable pub look : ℕ → ℕ → Bool → Host → Host
look i now free h = if free then look_by i now h h.runtime else h

-- the second look, with the lock of `loading`: a build starts where there is no runtime
abbrev enter_by : ℕ → ℕ → Host → Option ℕ → Option ℕ → Host
enter_by i now h (some j) o = h
enter_by i now h none (some rt) = given_to i rt now h
enter_by i now h none none = record h { loading = some i }

unfoldable pub enter : ℕ → ℕ → Host → Host
enter i now h = enter_by i now h h.loading h.runtime

abbrev loaded : ℕ → ℕ → Host → Host
loaded i now h = given_to i h.builds now (record h {
  runtime = some h.builds;
  loaded_ever = true;
  builds = suc h.builds;
  loading = none;
})

-- the end of the build of the request that holds the lock
abbrev finish_by : ℕ → ℕ → Bool → Host → Option ℕ → Host
finish_by i now succeeds h none = h
finish_by i now succeeds h (some j) =
    if j == i then (if succeeds then loaded i now h else record h { loading = none }) else h

unfoldable pub finish_build : ℕ → ℕ → Bool → Host → Host
finish_build i now succeeds h = finish_by i now succeeds h h.loading

abbrev pub is_some {ℓ} : {A : Type ℓ} → Option A → Bool
is_some none = false
is_some (some a) = true

-- the tests of `reap_if_idle`, before it waits for the lock
unfoldable pub may_reap : ℕ → ℕ → Host → Bool
may_reap timeout now h =
    not (timeout == 0 || ltb 0 h.clients || not (is_some h.runtime))
    && not (ltb (now - h.last_active) timeout)

-- what it does with the lock; `unload` does the same
unfoldable pub take_runtime : Host → Bool × Host
take_runtime h = (is_some h.runtime, record h { runtime = none })

pub data Action : Type 0 where
  looks : ℕ → ℕ → Bool → Action
  enters : ℕ → ℕ → Action
  finishes : ℕ → ℕ → Bool → Action
  connects disconnects touches : ℕ → Action
  takes : Action

unfoldable pub serve : Action → Host → Host
unfolding look enter finish_build client_connected client_disconnected take_runtime
serve (looks i now free) h = look i now free h
serve (enters i now) h = enter i now h
serve (finishes i now succeeds) h = finish_build i now succeeds h
serve (connects now) h = client_connected now h
serve (disconnects now) h = client_disconnected now h
serve (touches now) h = mark_active now h
serve takes h = (take_runtime h).1

unfoldable pub serve_all : List Action → Host → Host
unfolding serve
serve_all [] h = h
serve_all (a ∷ rest) h = serve_all rest (serve a h)
