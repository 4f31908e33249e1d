-- ===== src/Runtime/Agent/Objectives.antt =====
-- `parse_objectives` of crates/lucy-runtime/src/agent_loop.rs: how a reply of the planner is read.
pub mod Usable
use lucy.Prelude.{
  ℕ, suc, Bool, true, false, ◌||◌, Option, none, some, List, [], ◌∷◌, ◌++◌, take, length, ltb,
  if◌then◌else◌,
}
use lucy.Text.{Text, codes, is_empty, trim, split_once, split_whitespace, to_lowercase}
use lucy.Text.Bytes.{byte_len}
use lucy.Runtime.Json.{Json, bind_option, or_else, text_at, written, first_written}
use lucy.Runtime.Lane.{ActKind, click, type_text, press, parse_act}
use lucy.Runtime.Agent.{Objective}
use lucy.Runtime.Agent.Probe.{sanitize_probe}

-- what stands between the first `open` and the next `close`
abbrev between : ℕ → Option (Text × Text) → Option Text
between close none = none
between close (some (before, after)) = inner (split_once close after)
  where
    inner : Option (Text × Text) → Option Text
    inner none = none
    inner (some (a, b)) = some a

abbrev first_span : List (ℕ × ℕ) → Text → Option Text
first_span [] s = none
first_span ((open_at, close) ∷ more) s =
    or_else (between close (split_once open_at s)) (first_span more s)

unfoldable pub quoted_span : Text → Option Text
unfolding split_once
quoted_span s = first_span ((39, 39) ∷ (34, 34) ∷ (96, 96) ∷ []) s

unfoldable pub quoted_span_of_any : Text → Option Text
unfolding split_once
quoted_span_of_any s = first_span ((0xAB, 0xAB) ∷ (0x201C, 0x201D) ∷ []) s

abbrev literal : Option Text → Option Text
literal none = none
literal (some quoted) =
    let text = trim quoted in
    if is_empty text || ltb 12 (length (split_whitespace text)) then none else some text

unfoldable pub extract_type_text : Text → Option Text
unfolding quoted_span quoted_span_of_any split_whitespace trim
extract_type_text s = literal (or_else (quoted_span s) (quoted_span_of_any s))

abbrev pub default_press_key : Text
default_press_key = codes "Enter"

abbrev pub description_keys : List Text
description_keys =
    codes "description"
    ∷ codes "goal"
    ∷ codes "objective"
    ∷ codes "step"
    ∷ codes "title"
    ∷ codes "action"
    ∷ []

abbrev pub check_keys : List Text
check_keys =
    codes "success_check"
    ∷ codes "success_condition"
    ∷ codes "verify"
    ∷ codes "done_when"
    ∷ codes "check"
    ∷ []

abbrev action_keys : List Text
action_keys =
    codes "suggested_action"
    ∷ codes "instruction"
    ∷ codes "action_instruction"
    ∷ codes "hint"
    ∷ codes "how"
    ∷ []

abbrev pub or_empty : Option Text → Text
or_empty none = []
or_empty (some s) = s

abbrev pub or_text : Option Text → Text → Text
or_text none d = d
or_text (some s) d = s

abbrev pub max_objectives : ℕ
max_objectives = 6

-- the text that a typed or pressed objective needs, where the planner left it out
abbrev pub text_for : ActKind → Text → Option Text → Option Text
text_for type_text action none = extract_type_text action
text_for press action none = some default_press_key
text_for k action t = t

module _ {V : Type 0} (j : Json V) (alnum : ℕ → Bool) where
  -- an entry that is a text is its own description and check
  abbrev pub named_entry : V → Option (Text × Text)
  named_entry v =
      let description = trim (or_empty (first_written j v description_keys)) in
      if is_empty description
      then none
      else some (description, trim (or_text (first_written j v check_keys) description))

  abbrev pub described : V → Option Text → Option (Text × Text)
  described v none = named_entry v
  described v (some s) = some (trim s, trim s)

  abbrev pub action_of : V → Text → Text
  action_of v raw_action =
      if ltb 24 (byte_len raw_action)
      then trim raw_action
      else trim (or_empty (first_written j v action_keys))

  abbrev pub probe_value : V → Option V
  probe_value v =
      or_else (j.get v (codes "success_probe"))
        (or_else (j.get v (codes "probe")) (j.get v (codes "done_when_js")))

  abbrev pub probe_of : V → Option Text
  probe_of v = bind_option (bind_option (probe_value v) j.as_str) (sanitize_probe alnum)

  abbrev pub objective_of : V → Option (Text × Text) → List Objective
  objective_of v none = []
  objective_of v (some (description, check)) =
      let raw_action = or_empty (text_at j v (codes "action")) in
      let action = parse_act raw_action in
      let suggested = action_of v raw_action in
      let text =
        written j
          (bind_option (or_else (j.get v (codes "text")) (j.get v (codes "key"))) j.as_str) in
      record {
        description = description;
        success_check = check;
        suggested_action = suggested;
        action = action;
        text = text_for action suggested text;
        success_probe = probe_of v;
      }
      ∷ []

  abbrev pub parse_entry : V → List Objective
  parse_entry v = objective_of v (described v (written j (j.as_str v)))

  abbrev pub parse_entries : List V → List Objective
  parse_entries [] = []
  parse_entries (v ∷ vs) = parse_entry v ++ parse_entries vs

  abbrev pub parse_list : Option (List V) → List Objective
  parse_list none = []
  parse_list (some vs) = parse_entries (take max_objectives vs)

  abbrev pub plan_list : V → Option (List V)
  plan_list v =
      let named =
        or_else (j.get v (codes "objectives"))
          (or_else (j.get v (codes "steps")) (j.get v (codes "plan"))) in
      or_else (bind_option named j.as_array) (j.as_array v)

  unfoldable pub parse_objectives : V → List Objective
  unfolding parse_act trim sanitize_probe extract_type_text byte_len
  parse_objectives v = parse_list (plan_list v)
