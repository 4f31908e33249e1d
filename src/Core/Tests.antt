-- ===== src/Core/Tests.antt =====
-- The stop signal, the gate and the shortening at concrete inputs.
use lucy.Prelude.{ℕ, ◌<◌, ◌≡◌, ◌≢◌, refl, true, false, some, List, [], ◌∷◌, arith, inl, ◌⊎◌, All}
use lucy.Prelude.Maps.{lookup, insert, remove}
use lucy.Text.Equality.{text_key}
use lucy.Text.{Text, codes}
use lucy.Core.Interrupt.{Action, fire_epoch, fire_flag, reset_next, run, start}
use lucy.Core.Interrupt.Stop.{reset_if_epoch_keeps_stop}
use lucy.Core.Approval.{
  ApprovalGate, allow_once, deny, write_mode, ask_wake, ask_cancellable_wake, poll, open_prompt,
  decided, resolve, by_channel, discard_prompt,
}
use lucy.Core.Approval.Prompts.{Use, opens, resolves, use_all, use_gate, IsFresh, SparesId}
use lucy.Core.Approval.Answers.{later, unanswered_denies, ask_cancellable_timeout_leaves_prompt}

-- A stop arrives between the first check and the clearing.
abbrev raced : List Action
raced = reset_next ∷ fire_epoch ∷ fire_flag ∷ reset_next ∷ reset_next ∷ reset_next ∷ []

reset_if_epoch_keeps_stop_example :
    ((0 < (run 7 raced (start 7 true)).fired) × ((run 7 raced (start 7 true)).flag ≡ true))
    ⊎ (((run 7 raced (start 7 true)).fired ≡ 0)
        × (false ≡ true)
        × ((run 7 raced (start 7 true)).flag ≡ false))
unfolding run
reset_if_epoch_keeps_stop_example =
    reset_if_epoch_keeps_stop 7 true false raced (omega arith) (omega arith) refl refl

abbrev new_gate : ApprovalGate
new_gate = record {
  mode = write_mode;
  always_allow = [];
  pending = [];
  sent = [];
  next_channel = 0;
  published = [];
}

new_gate-empty : (i : Text) (c : ℕ) → lookup i new_gate.pending ≡ some c → c < 0
unfolding lookup
new_gate-empty i c h = cc

new_gate-IsFresh : IsFresh new_gate
new_gate-IsFresh = record { pending_below = new_gate-empty; unsent = unfold lookup in refl }

-- Another call is prompted for and answered meanwhile.
abbrev other_call : List Use
other_call = opens (codes "b") ∷ resolves (codes "b") allow_once ∷ []

abbrev asked_gate : ApprovalGate
asked_gate = later (codes "a") other_call new_gate

b_ne_a : codes "b" ≢ codes "a"
b_ne_a = ground arith

abbrev spared : All (SparesId (codes "a")) other_call
spared = (b_ne_a, (tt, tt))

-- a second call under the same id drops the first one's sender
abbrev same_id : List Use
same_id = opens (codes "a") ∷ other_call

unanswered_denies_example : deny ≡ deny
unfolding use_all use_gate open_prompt resolve poll ask_wake lookup remove insert discard_prompt
unanswered_denies_example =
    unanswered_denies (codes "a") (codes "bash") new_gate same_id false (by_channel false) deny
      new_gate-IsFresh (tt, (tt, (b_ne_a, tt))) (inl refl)

ask_cancellable_timeout_leaves_prompt_example :
    ((ask_wake (codes "a") (codes "bash") true (poll (codes "a") 0 asked_gate) asked_gate).0
      ≡ decided deny)
    × ((resolve
          (codes "a")
          allow_once
          (ask_wake (codes "a") (codes "bash") true (poll (codes "a") 0 asked_gate) asked_gate).1).1
        ≡ false)
    × ((ask_cancellable_wake
          (codes "a")
          (codes "bash")
          (by_channel true)
          (poll (codes "a") 0 asked_gate)
          asked_gate).0
        ≡ decided deny)
    × ((resolve
          (codes "a")
          allow_once
          (ask_cancellable_wake
            (codes "a")
            (codes "bash")
            (by_channel true)
            (poll (codes "a") 0 asked_gate)
            asked_gate).1).1
        ≡ true)
ask_cancellable_timeout_leaves_prompt_example =
    ask_cancellable_timeout_leaves_prompt (codes "a") (codes "bash") new_gate other_call
      new_gate-IsFresh spared allow_once (tt, (b_ne_a, tt))
