-- ===== src/Runtime/Agent/Objectives/Usable.antt =====
-- Every objective that is read from a reply can be acted on, and there are at most six.
use lucy.Prelude.{
  ℕ, ◌≤◌, ◌≡◌, ◌≢◌, ◌⊎◌, refl, Bool, false, Option, none, some, List, [], ◌∷◌, arith, take, length,
  length-append, length-take, All, Bool-cases, inl, inr,
}
use lucy.Text.{Text, codes, is_empty, trim}
use lucy.Text.Laws.{All-append}
use lucy.Text.Trim.{trim_idem}
use lucy.Runtime.Json.{Json, bind_option, or_else, text_at, written, first_written}
use lucy.Runtime.Lane.{ActKind, click, type_text, press, parse_act}
use lucy.Runtime.Agent.{Objective}
use lucy.Runtime.Agent.Probe.{sanitize_probe}
use lucy.Runtime.Agent.Probe.Clean.{IsSafe, sanitize_probe-IsSafe}
use lucy.Runtime.Agent.Objectives.{
  description_keys, check_keys, max_objectives, text_for, or_text, or_empty, action_of, probe_value,
  named_entry, described, objective_of, parse_entry, parse_entries, parse_list, plan_list,
  parse_objectives,
}

abbrev NotBlank : Text → Type 0
NotBlank s = is_empty (trim s) ≡ false

-- It says what it is, how to check it, a press names a key, and a probe is safe.
pub record Usable (o : Objective) : Type 0 where
  pub named : NotBlank o.description
  pub checked : NotBlank o.success_check
  pub pressed : o.action ≡ press → o.text ≢ none
  pub safe : (js : Text) → o.success_probe ≡ some js → IsSafe js

NotBlank-trim : (s : Text) → NotBlank s → NotBlank (trim s)
NotBlank-trim s h = rw (trim_idem s) h

text_for-press :
    (k : ActKind) (action : Text) (t : Option Text) → k ≡ press → text_for k action t ≢ none
text_for-press press action none h e = ground (arith, e)
text_for-press press action (some t) h e = ground (arith, e)
text_for-press click action t h e = ground (arith, h)
text_for-press type_text action t h e = ground (arith, h)

or_else-cases : (a b : Option Text) (s : Text) → or_else a b ≡ some s → (a ≡ some s) ⊎ (b ≡ some s)
or_else-cases none b s h = inr h
or_else-cases (some x) b s h = inl h

module _ {V : Type 0} (j : Json V) (alnum : ℕ → Bool) where
  written-NotBlank : (o : Option Text) (s : Text) → written j o ≡ some s → NotBlank s
  written-NotBlank none s h = ground (arith, h)
  written-NotBlank (some r) s h = elim (Bool-cases (is_empty (trim r))) [
    | inl e ↦ absurd (ground (arith, h, e))
    | inr e ↦ ground (arith, h, e)
  ]

  first_written-NotBlank :
      (v : V) (keys : List Text) (s : Text) → first_written j v keys ≡ some s → NotBlank s
  first_written-NotBlank v [] s h = ground (arith, h)
  first_written-NotBlank v (key ∷ keys) s h =
      elim (or_else-cases (written j (text_at j v key)) (first_written j v keys) s h) [
        | inl e ↦ written-NotBlank (text_at j v key) s e
        | inr e ↦ first_written-NotBlank v keys s e
      ]

  or_text-NotBlank :
      (o : Option Text) (d : Text)
      → ((s : Text) → o ≡ some s → NotBlank s)
      → NotBlank d
      → NotBlank (trim (or_text o d))
  or_text-NotBlank none d h k = NotBlank-trim d k
  or_text-NotBlank (some s) d h k = NotBlank-trim s (h s refl)

  -- a description and a check that are not blank
  abbrev Named : Option (Text × Text) → Type 0
  Named none = Unit
  Named (some (d, c)) = NotBlank d × NotBlank c

  named_entry-Named : (v : V) → Named (named_entry j alnum v)
  named_entry-Named v =
      let d = trim (or_empty (first_written j v description_keys)) in
      elim (Bool-cases (is_empty d)) [
        | inl e ↦ rw e tt
        | inr e ↦ rw e (
            let named : NotBlank d = rw trim_idem e in
            (
              named,
              or_text-NotBlank (first_written j v check_keys) d
                  (first_written-NotBlank v check_keys) named,
            ))
      ]

  described-Named :
      (v : V) (o : Option Text)
      → ((s : Text) → o ≡ some s → NotBlank s)
      → Named (described j alnum v o)
  described-Named v none h = named_entry-Named v
  described-Named v (some s) h = (NotBlank-trim s (h s refl), NotBlank-trim s (h s refl))

  sanitized :
      (o : Option Text) (js : Text) → bind_option o (sanitize_probe alnum) ≡ some js → IsSafe js
  sanitized none js h = ground (arith, h)
  sanitized (some raw) js h = sanitize_probe-IsSafe alnum raw js h

  objective_of-Usable :
      (v : V) (n : Option (Text × Text)) → Named n → All Usable (objective_of j alnum v n)
  objective_of-Usable v none h = tt
  objective_of-Usable v (some (d, c)) h =
      let raw_action = or_empty (text_at j v (codes "action")) in
      let text =
        written j
          (bind_option (or_else (j.get v (codes "text")) (j.get v (codes "key"))) j.as_str) in
      (
        record {
          named = h.0;
          checked = h.1;
          pressed = text_for-press (parse_act raw_action) (action_of j alnum v raw_action) text;
          safe = sanitized (bind_option (probe_value j alnum v) j.as_str);
        },
        tt,
      )

  parse_entries-Usable : (vs : List V) → All Usable (parse_entries j alnum vs)
  parse_entries-Usable [] = tt
  parse_entries-Usable (v ∷ vs) =
      All-append Usable (parse_entry j alnum v) (parse_entries j alnum vs)
        (objective_of-Usable v (described j alnum v (written j (j.as_str v)))
          (described-Named v (written j (j.as_str v)) (written-NotBlank (j.as_str v))))
        (parse_entries-Usable vs)

  length-objective_of : (v : V) (n : Option (Text × Text)) → length (objective_of j alnum v n) ≤ 1
  length-objective_of v none = omega arith
  length-objective_of v (some p) = omega arith

  length-parse_entries : (vs : List V) → length (parse_entries j alnum vs) ≤ length vs
  length-parse_entries [] = omega arith
  length-parse_entries (v ∷ vs) = omega (
    arith,
    length-append (parse_entry j alnum v) (parse_entries j alnum vs),
    length-objective_of v (described j alnum v (written j (j.as_str v))),
    length-parse_entries vs,
  )

  parse_list-Usable :
      (o : Option (List V))
      → (length (parse_list j alnum o) ≤ max_objectives) × All Usable (parse_list j alnum o)
  parse_list-Usable none = (omega arith, tt)
  parse_list-Usable (some vs) =
      let first = take max_objectives vs in
      (
        omega (arith, length-parse_entries first, length-take max_objectives vs),
        parse_entries-Usable first,
      )

  -- Of any reply, at most six objectives are read, and each of them can be acted on: its description and its
  -- check are not blank, a press names its key, and a probe is safe.
  pub parse_objectives-Usable :
      (v : V)
      → (length (parse_objectives j alnum v) ≤ max_objectives)
        × All Usable (parse_objectives j alnum v)
  unfolding parse_objectives
  parse_objectives-Usable v = parse_list-Usable (plan_list j alnum v)
