-- ===== src/Runtime/Json.antt =====
-- JSON values as the runtime reads them. serde_json is a parameter: what `Value` answers to the calls
-- that the code makes.
use lucy.Prelude.{Bool, Option, none, some, List, [], ◌∷◌, if◌then◌else◌}
use lucy.Text.{Text, trim, is_empty}

pub record Json (V : Type 0) : Type 0 where
  pub get : V → Text → Option V
  pub as_array : V → Option (List V)
  pub as_str : V → Option Text
  pub as_bool : V → Option Bool
  pub is_null : V → Bool
  -- `to_string()`, and `serde_json::from_str`
  pub to_text : V → Text
  pub from_text : Text → Option V
  -- `json!({ "text": .. })`
  pub text_object : Text → V

abbrev pub bind_option {ℓ κ} : {A : Type ℓ} {B : Type κ} → Option A → (A → Option B) → Option B
bind_option none f = none
bind_option (some a) f = f a

abbrev pub or_else {ℓ} : {A : Type ℓ} → Option A → Option A → Option A
or_else none o = o
or_else (some a) o = some a

module _ {V : Type 0} (j : Json V) where
  -- `get(key).and_then(Value::as_str)`
  abbrev pub text_at : V → Text → Option Text
  text_at v key = bind_option (j.get v key) j.as_str

  -- a text that is not blank
  abbrev pub written : Option Text → Option Text
  written none = none
  written (some s) = if is_empty (trim s) then none else some s

  -- the first of the keys that holds a text that is not blank
  abbrev pub first_written : V → List Text → Option Text
  first_written v [] = none
  first_written v (key ∷ keys) = or_else (written (text_at v key)) (first_written v keys)
