-- ===== src/Runtime/Lane/Reply.antt =====
-- How the replies of the fast tools are read, of crates/lucy-runtime/src/fast_perception.rs.
use lucy.Prelude.{
  Bool, true, false, not, ◌&&◌, ◌||◌, Option, none, some, List, [], ◌∷◌, any, if◌then◌else◌,
}
use lucy.Text.{Text, codes, text_eq, trim, trim_start, starts_with}
use lucy.Runtime.Json.{Json, bind_option, text_at}
use lucy.Runtime.Lane.{VerifyOutcome, satisfied, not_satisfied, uncertain, verdict_from_str}

abbrev is_some {ℓ} : {A : Type ℓ} → Option A → Bool
is_some none = false
is_some (some a) = true

abbrev is_false : Option Bool → Bool
is_false (some false) = true
is_false b = false

abbrev is_true : Option Bool → Bool
is_true (some true) = true
is_true b = false

abbrev by_bool : Bool → VerifyOutcome
by_bool true = satisfied
by_bool false = not_satisfied

abbrev verdict_keys : List Text
verdict_keys =
    codes "result" ∷ codes "verdict" ∷ codes "status" ∷ codes "outcome" ∷ codes "answer" ∷ []

module _ {V : Type 0} (j : Json V) where
  abbrev bool_at : V → Text → Option Bool
  bool_at v key = bind_option (j.get v key) j.as_bool

  abbrev reports_error : Option Text → Bool
  reports_error none = false
  reports_error (some m) = starts_with (codes "error:") (trim_start m)

  abbrev item_fails : V → Bool
  item_fails item = reports_error (text_at j item (codes "text"))

  abbrev any_fails : Option (List V) → Bool
  any_fails none = false
  any_fails (some items) = any item_fails items

  unfoldable pub tool_reports_failure : Option V → Bool
  unfolding starts_with trim_start
  tool_reports_failure none = true
  tool_reports_failure (some out) =
      if is_false (bool_at out (codes "success"))
      then true
      else any_fails (bind_option (j.get out (codes "content")) j.as_array)

  abbrev is_json_text : Text → Bool
  is_json_text s = starts_with (codes "{") s || starts_with (codes "[") s

  abbrev inner_of : Text → Option V → Option V
  inner_of s (some v) = some v
  inner_of s none = if is_json_text s then some (j.text_object s) else none

  abbrev item_inner : Option Text → Option V
  item_inner none = none
  item_inner (some text) = inner_of (trim text) (j.from_text (trim text))

  abbrev first_inner : V → List V → V
  first_inner out [] = out
  first_inner out (item ∷ items) =
      let rest = first_inner out items in
      elim (item_inner (text_at j item (codes "text"))) [ none ↦ rest | some v ↦ v ]

  abbrev unwrap_items : V → Option (List V) → V
  unwrap_items out none = out
  unwrap_items out (some items) = first_inner out items

  unfoldable pub unwrap_envelope : V → V
  unfolding trim starts_with
  unwrap_envelope out = unwrap_items out (bind_option (j.get out (codes "content")) j.as_array)

  -- the field `success` of `action_outcome_from_hint_act`
  unfoldable pub action_success : V → Bool
  unfolding unwrap_envelope trim_start starts_with
  action_success out =
      let root = unwrap_envelope out in
      is_true (bool_at root (codes "success"))
      && not (reports_error (text_at j root (codes "message")))

  abbrev is_set_field : Option V → Bool
  is_set_field none = false
  is_set_field (some v) = not (j.is_null v)

  -- the field `success` of `press_outcome`
  unfoldable pub press_success : V → Bool
  unfolding unwrap_envelope tool_reports_failure trim_start starts_with
  press_success out =
      let root = unwrap_envelope out in
      not (
        tool_reports_failure (some out)
        || is_true (bool_at root (codes "isError"))
        || is_true (bool_at root (codes "is_error"))
        || is_set_field (j.get root (codes "error"))
        || reports_error (text_at j root (codes "message")))

  abbrev or_root : V → Option V → V
  or_root root none = root
  or_root root (some v) = v

  abbrev truthy_text : Option Text → Bool
  truthy_text none = false
  truthy_text (some s) = text_eq s (codes "true")

  abbrev inner_value : Option V → Bool
  inner_value none = false
  inner_value (some v) = elim (j.as_bool v) [ some b ↦ b | none ↦ truthy_text (j.as_str v) ]

  abbrev plain_value : V → Option Text → Bool
  plain_value node (some s) = text_eq (trim s) (codes "true")
  plain_value node none = inner_value (j.get node (codes "value"))

  unfoldable pub probe_result_is_true : V → Bool
  unfolding unwrap_envelope trim
  probe_result_is_true out =
      let root = unwrap_envelope out in
      let node = or_root root (j.get root (codes "result")) in
      elim (j.as_bool node) [ some b ↦ b | none ↦ plain_value node (j.as_str node) ]

  -- `probe_verdict`, of what the call comes back with
  unfoldable pub probe_verdict : Option V → Option Bool
  unfolding probe_result_is_true
  probe_verdict none = none
  probe_verdict (some value) =
      if is_some (j.get value (codes "error")) && not (is_some (j.get value (codes "result")))
      then none
      else some (probe_result_is_true value)

  abbrev by_flags : V → VerifyOutcome
  by_flags root = elim (bool_at root (codes "satisfied")) [
    | some b ↦ by_bool b
    | none ↦ elim (bool_at root (codes "success")) [ some b ↦ by_bool b | none ↦ uncertain ]
  ]

  -- the first key that is there decides
  abbrev by_keys : V → List Text → VerifyOutcome
  by_keys root [] = by_flags root
  by_keys root (key ∷ keys) =
      let rest = by_keys root keys in
      elim (j.get root key) [ some v ↦ verdict_from_str (j.to_text v) | none ↦ rest ]

  unfoldable pub verify_outcome_from_payload : V → VerifyOutcome
  unfolding unwrap_envelope verdict_from_str trim_start starts_with
  verify_outcome_from_payload out =
      let root = unwrap_envelope out in
      if is_false (bool_at root (codes "success"))
        || reports_error (text_at j root (codes "message"))
      then not_satisfied
      else by_keys root verdict_keys

  -- `verify_step`, of what the call comes back with
  unfoldable pub verify_step : Option V → VerifyOutcome
  unfolding verify_outcome_from_payload
  verify_step none = uncertain
  verify_step (some v) = verify_outcome_from_payload v
