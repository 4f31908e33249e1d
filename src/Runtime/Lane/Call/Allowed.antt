-- ===== src/Runtime/Lane/Call/Allowed.antt =====
-- Every tool that the fast lane executes went through the gate.
use lucy.Prelude.{
  ℕ, suc, ◌+◌, ◌≤◌, ◌≡◌, ◌≢◌, ◌⊎◌, refl, sym, ◌∙◌, Bool, true, false, not, ◌||◌, Option, none, some,
  List, [], ◌∷◌, ◌++◌, arith, length, All, Bool-cases, inl, inr,
}
use lucy.Text.{Text, codes, text_eq, strip_prefix}
use lucy.Text.Equality.{text_eq_self}
use lucy.Core.Approval.{
  ApprovalGate, ApprovalDecision, deny, allow_once, allow_always, current_mode, is_always_allowed,
  needs_approval,
}
use lucy.Runtime.Json.{Json}
use lucy.Runtime.Lane.Reply.{tool_reports_failure}
use lucy.Runtime.Lane.Call.{
  Tools, Executed, Lane, count, bare_name, is_in, is_destructive, approval_required, gate_asks,
  executes, after_answer, with_tool, call_fast,
}

-- the text is one of the list
pub data Member (t : Text) : List Text → Type 0 where
  here : (ts : List Text) → Member t (t ∷ ts)
  there : (u : Text) (ts : List Text) → Member t ts → Member t (u ∷ ts)

-- The list names the tool: as it is called, or by the name without the prefix of its server.
pub data Named (list : List Text) : Text → Type 0 where
  as_called : (t : Text) → Member t list → Named list t
  of_hyprfast : (t : Text) → Member t list → Named list (codes "mcp_hyprfast_" ++ t)
  of_computer_use : (t : Text) → Member t list → Named list (codes "mcp_computer_use_" ++ t)

Member-is_in : (t : Text) (ts : List Text) → Member t ts → is_in t ts ≡ true
Member-is_in t _ (here ts) = ground (arith, text_eq_self t)
Member-is_in t _ (there u ts h) = ground (arith, Member-is_in t ts h)

or_right : (a b : Bool) → b ≡ true → (a || b) ≡ true
or_right a b h = ground arith

or_left : (a b : Bool) → a ≡ true → (a || b) ≡ true
or_left a b h = ground arith

bare_hyprfast : (t : Text) → bare_name (codes "mcp_hyprfast_" ++ t) ≡ t
unfolding strip_prefix
bare_hyprfast t = refl

bare_computer_use : (t : Text) → bare_name (codes "mcp_computer_use_" ++ t) ≡ t
unfolding strip_prefix
bare_computer_use t = refl

Named-is_destructive :
    (list : List Text) (tool : Text) → Named list tool → is_destructive list tool ≡ true
unfolding is_destructive
Named-is_destructive list _ (as_called t h) = or_left (is_in t list) _ (Member-is_in t list h)
Named-is_destructive list _ (of_hyprfast t h) =
    or_right (is_in (codes "mcp_hyprfast_" ++ t) list) _
      (rw (bare_hyprfast t) (Member-is_in t list h))
Named-is_destructive list _ (of_computer_use t h) =
    or_right (is_in (codes "mcp_computer_use_" ++ t) list) _
      (rw (bare_computer_use t) (Member-is_in t list h))

needs_approval_required :
    (g : ApprovalGate) (tool : Text) (requires : Bool)
    → text_eq (current_mode g) (codes "never") ≡ false
    → is_always_allowed g tool ≡ false
    → (text_eq (current_mode g) (codes "always") ≡ true) ⊎ (requires ≡ true)
    → needs_approval g tool requires ≡ true
unfolding needs_approval
needs_approval_required g tool requires n a (inl h) = rw (n, a, h) refl
needs_approval_required g tool requires n a (inr h) = rw (n, a, h) (ground arith)

module _ {V : Type 0} (j : Json V) (tools : Tools V) where
  -- A gate stands at the tick, its mode is not "never", it does not always allow the tool, and its mode is
  -- "always", or the registry or the list of destructive tools names the tool.
  abbrev pub MustAsk : Executed → Type 0
  MustAsk e =
      (g : ApprovalGate) × (tools.gate e.at_tick ≡ some g)
      × (text_eq (current_mode g) (codes "never") ≡ false)
      × (is_always_allowed g e.tool ≡ false)
      × ((text_eq (current_mode g) (codes "always") ≡ true)
          ⊎ ((tools.requires_approval e.tool ≡ true) ⊎ Named tools.destructive_tools e.tool))

  required :
      (tool : Text)
      → (tools.requires_approval tool ≡ true) ⊎ Named tools.destructive_tools tool
      → approval_required j tools tool ≡ true
  unfolding approval_required
  required tool (inl h) = or_left (tools.requires_approval tool) _ h
  required tool (inr h) =
      or_right (tools.requires_approval tool) _
        (Named-is_destructive tools.destructive_tools tool h)

  mode_or_required :
      (g : ApprovalGate) (tool : Text)
      → (text_eq (current_mode g) (codes "always") ≡ true)
        ⊎ ((tools.requires_approval tool ≡ true) ⊎ Named tools.destructive_tools tool)
      → (text_eq (current_mode g) (codes "always") ≡ true) ⊎ (approval_required j tools tool ≡ true)
  mode_or_required g tool (inl h) = inl h
  mode_or_required g tool (inr h) = inr (required tool h)

  MustAsk-gate_asks : (e : Executed) → MustAsk e → gate_asks j tools e.at_tick e.tool ≡ true
  MustAsk-gate_asks e (g, at, n, a, why) = rw at (
      needs_approval_required g e.tool (approval_required j tools e.tool) n a
        (mode_or_required g e.tool why))

  -- where the user must be asked, the answer was not a refusal
  abbrev pub Permitted : Executed → Type 0
  Permitted e =
      MustAsk e → (d : ApprovalDecision) × (tools.ask e.at_tick e.tool ≡ some d) × (d ≢ deny)

  -- the tools that were executed were permitted, and each call was counted
  abbrev pub Sound : ℕ → Lane → Type 0
  Sound n s = All Permitted s.executed × (s.calls ≡ n) × (s.failures ≤ s.calls)

  count-Sound : (n : ℕ) (b : Bool) (s : Lane) → Sound n s → Sound (suc n) (count b s)
  count-Sound n true s h = (h.0, omega (arith, h.1), omega (arith, h.2))
  count-Sound n false s h = (h.0, omega (arith, h.1), omega (arith, h.2))

  executes-Sound :
      (n : ℕ) (tool : Text) (s : Lane)
      → Sound n s
      → Permitted (record { at_tick = s.tick; tool = tool })
      → Sound (suc n) (executes j tools tool s).1
  executes-Sound n tool s h p =
      count-Sound n (not (tool_reports_failure j (tools.execute s.tick tool)))
        (record s { executed = record { at_tick = s.tick; tool = tool } ∷ s.executed })
        ((p, h.0), h.1, h.2)

  after_answer-Sound :
      (n : ℕ) (tool : Text) (s : Lane) (o : Option ApprovalDecision)
      → Sound n s
      → tools.ask s.tick tool ≡ o
      → Sound (suc n) (after_answer j tools tool s o).1
  after_answer-Sound n tool s none h e = count-Sound n false s h
  after_answer-Sound n tool s (some deny) h e = count-Sound n false s h
  after_answer-Sound n tool s (some allow_once) h e =
      executes-Sound n tool s h (λ _. (allow_once, e, λ q. ground (arith, q)))
  after_answer-Sound n tool s (some allow_always) h e =
      executes-Sound n tool s h (λ _. (allow_always, e, λ q. ground (arith, q)))

  with_tool-Sound :
      (n : ℕ) (s : Lane) (o : Option Text) → Sound n s → Sound (suc n) (with_tool j tools s o).1
  with_tool-Sound n s none h = count-Sound n false s h
  with_tool-Sound n s (some tool) h = elim (Bool-cases (gate_asks j tools s.tick tool)) [
    | inl e ↦ rw e (after_answer-Sound n tool s (tools.ask s.tick tool) h refl)
    | inr e ↦ rw e (
        executes-Sound n tool s h (λ m. absurd (
          true-ne-false
            (sym (MustAsk-gate_asks (record { at_tick = s.tick; tool = tool }) m) ∙ e))))
  ]
    where
      true-ne-false : true ≢ false
      true-ne-false q = ground (arith, q)

  abbrev pub call_all : List Text → Lane → Lane
  call_all [] s = s
  call_all (tool ∷ more) s = call_all more (call_fast j tools tool s).1

  call_all-Sound :
      (n : ℕ) (calls : List Text) (s : Lane)
      → Sound n s
      → Sound (n + length calls) (call_all calls s)
  call_all-Sound n [] s h = (h.0, omega (arith, h.1), h.2)
  call_all-Sound n (tool ∷ more) s h =
      let next : Sound (suc n) (call_fast j tools tool s).1 =
        unfold call_fast in with_tool-Sound n s (tools.resolve tool) h in
      let rest = call_all-Sound (suc n) more (call_fast j tools tool s).1 next in
      (rest.0, omega (arith, rest.1), rest.2)

  -- After any sequence of fast calls from a lane that has made none, every tool that was executed was
  -- permitted: where a gate stands at that tick that is not in mode "never" and does not always allow the
  -- tool, and its mode is "always", the registry asks for approval of the tool, or the list of destructive
  -- tools names it, with or without the prefix of its server, the user was asked at that tick and gave an
  -- answer that is no refusal. Each call was counted once, those that were refused included, and no more
  -- failed than were made.
  pub call_all-Permitted :
      (calls : List Text) (s : Lane)
      → s.calls ≡ 0
      → s.failures ≡ 0
      → s.executed ≡ []
      → Sound (length calls) (call_all calls s)
  call_all-Permitted calls s c f e =
      let start : Sound 0 s = (rw e tt, c, omega (arith, f)) in
      let all = call_all-Sound 0 calls s start in (all.0, omega (arith, all.1), all.2)
