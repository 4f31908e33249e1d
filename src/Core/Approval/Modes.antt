-- ===== src/Core/Approval/Modes.antt =====
-- When a call is prompted for, and what changes that.
use lucy.Prelude.{
  ◌≡◌, ◌≢◌, ◌↔◌, refl, ◌⊎◌, inl, inr, Bool, true, false, List, arith, any, if◌then◌else◌,
  Bool-cases,
}
use lucy.Text.{Text, codes, text_eq, trim}
use lucy.Text.Equality.{eq_of_text_eq, text_eq_iff}
use lucy.Core.Approval.{
  ApprovalGate, ApprovalDecision, allow_once, allow_always, deny, current_mode, is_always_allowed,
  needs_approval, record_always_allow, add_tool,
}

-- The mode is one of three, and anything else counts as `write`.
pub current_mode_cases :
    (g : ApprovalGate)
    → (current_mode g ≡ codes "never")
      ⊎ ((current_mode g ≡ codes "write") ⊎ (current_mode g ≡ codes "always"))
unfolding current_mode
current_mode_cases g = ground (
  arith,
  eq_of_text_eq (trim g.mode) (codes "never"),
  eq_of_text_eq (trim g.mode) (codes "write"),
  eq_of_text_eq (trim g.mode) (codes "always"),
)

-- A prompt is needed exactly when the mode is not `never`, the tool is not on the list of tools always
-- allowed, and the mode is `always` or the tool itself requires approval.
pub needs_approval_exact :
    (g : ApprovalGate) (tool : Text) (requires : Bool)
    → (needs_approval g tool requires ≡ true) ↔ (
        (current_mode g ≢ codes "never")
        × (is_always_allowed g tool ≡ false)
        × ((current_mode g ≡ codes "always") ⊎ (requires ≡ true)))
unfolding needs_approval
needs_approval_exact g tool requires = (there, back)
  where
    never : (text_eq (current_mode g) (codes "never") ≡ true) ↔ (current_mode g ≡ codes "never")
    never = text_eq_iff (current_mode g) (codes "never")

    always : (text_eq (current_mode g) (codes "always") ≡ true) ↔ (current_mode g ≡ codes "always")
    always = text_eq_iff (current_mode g) (codes "always")

    there :
        needs_approval g tool requires ≡ true
        → (current_mode g ≢ codes "never")
          × (is_always_allowed g tool ≡ false)
          × ((current_mode g ≡ codes "always") ⊎ (requires ≡ true))
    there h = ground (arith, never, always)

    back :
        (current_mode g ≢ codes "never")
          × (is_always_allowed g tool ≡ false)
          × ((current_mode g ≡ codes "always") ⊎ (requires ≡ true))
        → needs_approval g tool requires ≡ true
    back h = ground (arith, never, always)

any-add_tool :
    (s t : Text) (ts : List Text)
    → any (λ x. text_eq x s) (add_tool t ts)
      ≡ (if text_eq t s then true else any (λ x. text_eq x s) ts)
any-add_tool s t ts = elim (Bool-cases (any (λ x. text_eq x t) ts)) [
  | inl e ↦ rw e (elim (Bool-cases (text_eq t s)) [
    | inl q ↦ rw q (rw (eq_of_text_eq t s q) at e)
    | inr q ↦ rw q refl
  ])
  | inr e ↦ rw e refl
]

-- After a decision is recorded, a tool is always allowed exactly if it was before, or it is the tool
-- asked for and the decision is `allow_always`.
pub is_always_allowed-record_always_allow :
    (g : ApprovalGate) (name tool : Text) (d : ApprovalDecision)
    → (is_always_allowed (record_always_allow name d g) tool ≡ true)
      ↔ ((is_always_allowed g tool ≡ true) ⊎ ((d ≡ allow_always) × (name ≡ tool)))
unfolding is_always_allowed record_always_allow
is_always_allowed-record_always_allow g name tool allow_always =
    ground (arith, any-add_tool tool name g.always_allow, text_eq_iff name tool)
is_always_allowed-record_always_allow g name tool allow_once = ground arith
is_always_allowed-record_always_allow g name tool deny = ground arith
