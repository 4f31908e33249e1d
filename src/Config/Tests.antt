-- ===== src/Config/Tests.antt =====
-- The tiers, the providers and their keys at concrete inputs.
use lucy.Prelude.{◌≡◌, refl, true, false, Option, none, some, [], ◌∷◌, ◌++◌, arith, ok}
use lucy.Text.{Text, codes, is_digit, trim}
use lucy.Config.{
  Provider, Settings, ReasoningLevel, l2, text_type, get_level, same_word, resolve_level_model,
  level_fallback_note,
}
use lucy.Config.Providers.{
  ensure_id, is_taken, save_provider, split_model_key, remove_provider, provider,
}
use lucy.Config.Tiers.{Routed, resolve_level_model-Routed}
use lucy.Config.Keys.{Names}
use lucy.Config.Fresh.{ensure_id-IsFresh}
use lucy.Config.Selection.{split_model_key-save_provider, remove_provider-Gone}

abbrev home : Provider
home = record {
  id = codes "home";
  name = [];
  api_url = codes "http://a.test";
  api_key = [];
  provider_type = text_type;
  available_models = codes "small" ∷ [];
  deprecated_models = [];
}

abbrev settings : Settings
settings = record {
  providers = home ∷ [];
  default_text = [];
  text_url = none;
  base_url = none;
  chat_voice = codes "Home/voice";
  voice = codes "Home/voice";
  levels = record { level1 = codes "home/small"; level2 = []; level3 = codes "far/big" };
}

abbrev unset : Text → Option Text
unset name = none

-- An unbound tier is answered by the cheaper one, and says so.
falls_to_l1 : resolve_level_model unset settings l2 ≡ codes "home/small"
unfolding resolve_level_model
falls_to_l1 = refl

says_so : level_fallback_note unset settings l2 ≡ some (codes "no model bound to L2 — using L1")
unfolding level_fallback_note
says_so = refl

resolve_level_model-Routed_example : Routed unset settings l2
resolve_level_model-Routed_example = resolve_level_model-Routed unset settings l2

abbrev blank : Provider
blank = record home { id = codes " "; name = codes "  -Home Box!" }

second : (ensure_id (codes "HOME-box" ∷ []) blank).id ≡ codes "home-box-2"
unfolding ensure_id is_digit
second = refl

ensure_id-IsFresh_example :
    is_taken (codes "HOME-box" ∷ []) (ensure_id (codes "HOME-box" ∷ []) blank).id ≡ false
unfolding trim
ensure_id-IsFresh_example = ensure_id-IsFresh (codes "HOME-box" ∷ []) blank refl (omega arith)

abbrev draft : Provider
draft = record home {
  id = codes " work ";
  api_url = codes "http://b.test/v1/ ";
  available_models = codes "b" ∷ codes "a" ∷ codes "b" ∷ codes " " ∷ [];
}

abbrev work : Provider
work = record home {
  id = codes "work";
  api_url = codes "http://b.test/v1";
  available_models = codes "a" ∷ codes "b" ∷ [];
}

abbrev with_work : Settings
with_work = record settings { providers = home ∷ work ∷ [] }

saves : save_provider draft settings ≡ ok (work, with_work)
unfolding save_provider
saves = refl

split_model_key-save_provider_example :
    split_model_key unset (codes "work" ++ 47 ∷ codes "b") with_work ≡ some (work, codes "b")
unfolding trim
split_model_key-save_provider_example =
    split_model_key-save_provider unset draft work settings with_work (codes "b") saves
      (λ e. absurd (ground arith), tt) (refl, (refl, (refl, (refl, tt)))) refl refl refl refl

abbrev left : Settings
left = record settings {
  providers = [];
  chat_voice = [];
  voice = [];
  levels = record { level1 = []; level2 = []; level3 = codes "far/big" };
}

removes : remove_provider (codes "HOME") settings ≡ (true, left)
unfolding remove_provider
removes = refl

remove_provider-Gone_example :
    (provider (codes "HOME") left.providers ≡ none)
    × ((level : ReasoningLevel) → ¬ Names (codes "HOME") (get_level level left.levels))
    × (¬ Names (codes "HOME") left.chat_voice)
    × ((level : ReasoningLevel)
        → ¬ Names (codes "HOME") (get_level level settings.levels)
        → get_level level left.levels ≡ get_level level settings.levels)
    × ((other : Text)
        → same_word (trim other) (codes "HOME") ≡ false
        → provider other left.providers ≡ provider other settings.providers)
unfolding trim
remove_provider-Gone_example = remove_provider-Gone (codes "HOME") settings left refl removes
