-- ===== src/Config.antt =====
-- crates/lucy-config/src/lib.rs: the tiers, the models bound to them, and the state that the settings
-- edit. Of the configuration, Settings has what providers and models are chosen by. `env::var` is a
-- parameter.
pub mod Providers
pub mod Fresh
pub mod Keys
pub mod Selection
pub mod Tiers
mod Tests
use lucy.Prelude.{
  ℕ, Bool, true, false, not, ◌&&◌, ◌||◌, Option, none, some, List, [], ◌∷◌, ◌++◌, any, find, ltb,
  if◌then◌else◌,
}
use lucy.Text.{
  Text, codes, text_eq, is_empty, is_digit, trim, starts_with, split, to_ascii_lowercase,
}
use lucy.Text.Search.{trim_end_matches}
use lucy.Text.Bytes.{byte_len}
use lucy.Runtime.Json.{or_else, bind_option}

-- `eq_ignore_ascii_case`
abbrev pub same_word : Text → Text → Bool
same_word s t = text_eq (to_ascii_lowercase s) (to_ascii_lowercase t)

pub data ProviderType : Type 0 where
  text_type : ProviderType
  voice_type : ProviderType

abbrev pub is_text : ProviderType → Bool
is_text text_type = true
is_text voice_type = false

pub record Provider : Type 0 where
  pub id : Text
  pub name : Text
  pub api_url : Text
  pub api_key : Text
  pub provider_type : ProviderType
  pub available_models : List Text
  pub deprecated_models : List Text

pub data ReasoningLevel : Type 0 where
  l1 : ReasoningLevel
  l2 : ReasoningLevel
  l3 : ReasoningLevel

abbrev pub all_levels : List ReasoningLevel
all_levels = l1 ∷ l2 ∷ l3 ∷ []

abbrev pub as_number : ReasoningLevel → ℕ
as_number l1 = 1
as_number l2 = 2
as_number l3 = 3

abbrev pub short_name : ReasoningLevel → Text
short_name l1 = codes "L1"
short_name l2 = codes "L2"
short_name l3 = codes "L3"

abbrev pub fallback_chain : ReasoningLevel → List ReasoningLevel
fallback_chain l1 = l1 ∷ l1 ∷ l1 ∷ []
fallback_chain l2 = l2 ∷ l1 ∷ l1 ∷ []
fallback_chain l3 = l3 ∷ l2 ∷ l1 ∷ []

pub record Levels : Type 0 where
  pub level1 : Text
  pub level2 : Text
  pub level3 : Text

abbrev pub get_level : ReasoningLevel → Levels → Text
get_level l1 ls = ls.level1
get_level l2 ls = ls.level2
get_level l3 ls = ls.level3

abbrev pub set_level : ReasoningLevel → Text → Levels → Levels
set_level l1 model ls = record ls { level1 = model }
set_level l2 model ls = record ls { level2 = model }
set_level l3 model ls = record ls { level3 = model }

pub record Settings : Type 0 where
  pub providers : List Provider
  -- `models.default_text`, `models.text_base_url`, `models.base_url`
  pub default_text : Text
  pub text_url : Option Text
  pub base_url : Option Text
  -- `chat.voice_model` and `voice.model`
  pub chat_voice : Text
  pub voice : Text
  pub levels : Levels

abbrev last_part : List Text → Text
last_part [] = []
last_part (p ∷ []) = p
last_part (p ∷ q ∷ ps) = last_part (q ∷ ps)

abbrev pub digits_from : Text → Bool
digits_from [] = true
digits_from (c ∷ s) = not (any (λ d. not (is_digit d)) s)

unfoldable pub is_versioned_base : Text → Bool
unfolding split starts_with byte_len is_digit
is_versioned_base base =
    let last = last_part (split 47 base) in
    ltb 1 (byte_len last) && starts_with (codes "v") last && digits_from last

unfoldable pub openai_base_url : Provider → Text
unfolding trim trim_end_matches is_versioned_base
openai_base_url p =
    let base = trim_end_matches 47 (trim p.api_url) in
    if is_empty base then [] else if is_versioned_base base then base else base ++ codes "/v1"

abbrev nonempty : Option Text → Option Text
nonempty none = none
nonempty (some s) = if is_empty s then none else some s

abbrev not_blank : Option Text → Option Text
not_blank none = none
not_blank (some s) = if is_empty (trim s) then none else some s

abbrev serves : Text → Provider → Bool
serves want p = is_text p.provider_type && same_word (trim_end_matches 47 (openai_base_url p)) want

abbrev serving : List Provider → Text → Option Provider
serving ps base =
    if is_empty base
    then none
    else find (serves (if is_versioned_base base then base else base ++ codes "/v1")) ps

abbrev pub is_deprecated_model : Provider → Text → Bool
is_deprecated_model p model = any (λ d. text_eq (trim d) (trim model)) p.deprecated_models

-- the first of `live_models`
abbrev first_live : Provider → Option Text
first_live p = find (λ model. not (is_deprecated_model p model)) p.available_models

abbrev or_default : Option Text → Text
or_default none = codes "gemini-web"
or_default (some model) = model

unfoldable pub level_model : Settings → ReasoningLevel → Text
unfolding trim
level_model c level = trim (get_level level c.levels)

abbrev pub is_bound : Settings → ReasoningLevel → Bool
is_bound c level = not (is_empty (level_model c level))

module _ (env : Text → Option Text) where
  -- the first variable that is set and not blank
  abbrev first_set : List Text → Option Text
  first_set [] = none
  first_set (key ∷ keys) = or_else (not_blank (env key)) (first_set keys)

  abbrev pub llm_base_url : Settings → Option Text
  llm_base_url c = or_else c.base_url (
      or_else (nonempty (env (codes "OPENAI_BASE_URL")))
        (or_else (env (codes "LLM_BASE_URL")) (env (codes "LUCY_BASE_URL"))))

  unfoldable pub text_base_url : Settings → Option Text
  unfolding trim
  text_base_url c = or_else (not_blank c.text_url) (
      or_else
        (first_set (
          codes "OPENCHAT_BASE_URL"
          ∷ codes "LUCY_MAIN_BASE_URL"
          ∷ codes "MAIN_BASE_URL"
          ∷ codes "OPENROUTER_BASE_URL"
          ∷ []))
        (or_else (not_blank c.base_url) (llm_base_url c)))

  unfoldable pub endpoint_provider : Settings → Option Provider
  unfolding text_base_url trim trim_end_matches
  endpoint_provider c =
      bind_option (text_base_url c) (λ base. serving c.providers (trim_end_matches 47 (trim base)))

  unfoldable pub default_text_model : Settings → Text
  unfolding trim endpoint_provider
  default_text_model c =
      let chosen = trim c.default_text in
      if is_empty chosen then or_default (bind_option (endpoint_provider c) first_live) else chosen

  abbrev first_bound : Settings → List ReasoningLevel → Text
  first_bound c [] = default_text_model c
  first_bound c (level ∷ more) =
      if is_empty (level_model c level) then first_bound c more else level_model c level

  unfoldable pub resolve_level_model : Settings → ReasoningLevel → Text
  unfolding default_text_model level_model
  resolve_level_model c level = first_bound c (fallback_chain level)

  abbrev landed_note : Settings → ReasoningLevel → Option ReasoningLevel → Text
  landed_note c level (some landed) =
      codes "no model bound to " ++ (short_name level ++ (codes " — using " ++ short_name landed))
  landed_note c level none =
      if any (is_bound c) all_levels
      then codes "no model bound to "
        ++ (short_name level
            ++ (codes " and no cheaper tier is bound — using the default "
                ++ (default_text_model c ++ codes " model")))
      else codes "no reasoning tier bound — using the default "
        ++ (default_text_model c ++ codes " model")

  unfoldable pub level_fallback_note : Settings → ReasoningLevel → Option Text
  unfolding default_text_model level_model
  level_fallback_note c level =
      if is_bound c level
      then none
      else some (landed_note c level (find (is_bound c) (fallback_chain level)))
