-- ===== src/Config/Providers.antt =====
-- The providers of crates/lucy-config/src/lib.rs: their ids, their storage and removal, and the keys
-- `provider_id/model` that select one of their models.
use lucy.Prelude.{
  ℕ, zero, suc, ◌+◌, Bool, true, false, not, ◌&&◌, ◌||◌, Option, none, some, List, [], ◌∷◌, ◌++◌,
  map, any, find, keep, length, ltb, ◌==◌, if◌then◌else◌, Result, ok, err,
}
use lucy.Text.{Text, codes, text_eq, is_empty, trim, split_once, to_ascii_lowercase}
use lucy.Text.Search.{trim_end_matches}
use lucy.Text.Decimal.{show_u32}
use lucy.Knowledge.Slugs.{is_ascii_alphanumeric}
use lucy.Runtime.Json.{or_else}
use lucy.Config.{
  Provider, Settings, Levels, ReasoningLevel, get_level, set_level, l1, l2, l3, same_word, is_text,
  endpoint_provider,
}

abbrev pub dash : ℕ
dash = 45

-- one character of a slug, after what ended with a dash or not
abbrev slug_from : Bool → Text → Text
slug_from after_dash [] = []
slug_from after_dash (c ∷ s) =
    let kept = c ∷ slug_from false s in
    let skipped = slug_from true s in
    if is_ascii_alphanumeric c then kept else if after_dash then skipped else dash ∷ skipped

abbrev trim_start_matches : ℕ → Text → Text
trim_start_matches d [] = []
trim_start_matches d (c ∷ s) = let rest = trim_start_matches d s in if c == d then rest else c ∷ s

unfoldable pub id_slug : Provider → Text
unfolding trim trim_end_matches
id_slug p =
    let seed = if is_empty (trim p.name) then p.api_url else p.name in
    let slug =
      trim_end_matches dash (trim_start_matches dash (slug_from false (to_ascii_lowercase seed))) in
    if is_empty slug then codes "provider" else slug

-- the names that are tried in turn: the slug, then the slug with 2, 3 and so on
unfoldable pub candidate_id : Text → ℕ → Text
unfolding show_u32
candidate_id base zero = base
candidate_id base (suc k) = base ++ dash ∷ show_u32 (k + 2)

unfoldable pub is_taken : List Text → Text → Bool
is_taken taken name = any (λ t. same_word t name) taken

unfoldable pub free_from : List Text → Text → ℕ → ℕ → Text
unfolding candidate_id is_taken
free_from taken base zero k = candidate_id base k
free_from taken base (suc f) k =
    let later = free_from taken base f (suc k) in
    if is_taken taken (candidate_id base k) then later else candidate_id base k

unfoldable pub ensure_id : List Text → Provider → Provider
unfolding trim id_slug free_from
ensure_id taken p =
    if is_empty (trim p.id)
    then record p { id = free_from taken (id_slug p) (length taken) 0 }
    else p

-- `Ord` of texts
abbrev text_leb : Text → Text → Bool
text_leb [] t = true
text_leb (c ∷ s) [] = false
text_leb (c ∷ s) (d ∷ t) = let rest = text_leb s t in ltb c d || c == d && rest

abbrev insert_text : Text → List Text → List Text
insert_text s [] = s ∷ []
insert_text s (t ∷ ts) =
    let rest = insert_text s ts in if text_leb s t then s ∷ t ∷ ts else t ∷ rest

abbrev sort_texts : List Text → List Text
sort_texts [] = []
sort_texts (s ∷ ss) = insert_text s (sort_texts ss)

-- `dedup`: the first of equal neighbours is kept
abbrev dedup_after : Text → List Text → List Text
dedup_after s [] = []
dedup_after s (t ∷ ts) =
    let same = dedup_after s ts in
    let next = t ∷ dedup_after t ts in if text_eq s t then same else next

abbrev dedup : List Text → List Text
dedup [] = []
dedup (s ∷ ss) = s ∷ dedup_after s ss

unfoldable pub tidy_provider : Provider → Provider
unfolding trim trim_end_matches
tidy_provider p = record p {
  id = trim p.id;
  name = trim p.name;
  api_url = trim_end_matches 47 (trim p.api_url);
  api_key = trim p.api_key;
}

abbrev with_models : Provider → Provider
with_models p = record p {
  available_models = dedup (sort_texts (keep (λ m. not (is_empty (trim m))) p.available_models));
}

-- the provider takes the place of the first with its id, or comes last
unfoldable pub store_provider : Provider → List Provider → List Provider
store_provider p [] = p ∷ []
store_provider p (q ∷ qs) =
    let rest = store_provider p qs in if text_eq q.id p.id then p ∷ qs else q ∷ rest

abbrev stored : Provider → Settings → Provider × Settings
stored p c = (p, record c { providers = store_provider p c.providers })

abbrev named_provider : Provider → Settings → Provider
named_provider p c =
    if is_empty p.id then ensure_id (map (λ (q : Provider). q.id) c.providers) p else p

unfoldable pub save_provider : Provider → Settings → Result Text (Provider × Settings)
unfolding tidy_provider ensure_id store_provider
save_provider p c =
    let tidied = tidy_provider p in
    if is_empty tidied.api_url
    then err (codes "provider API URL must not be empty")
    else ok (stored (named_provider (with_models tidied) c) c)

unfoldable pub provider : Text → List Provider → Option Provider
unfolding trim
provider id ps = find (λ p. same_word p.id (trim id)) ps

-- a model selection that names a provider
abbrev pub names_provider : Text → Option (Text × Text) → Bool
names_provider id none = false
names_provider id (some (p, model)) = same_word p id

unfoldable pub is_stale : Text → Text → Bool
unfolding trim split_once
is_stale id key = not (is_empty (trim key)) && names_provider id (split_once 47 key)

abbrev pub cleared : Text → ReasoningLevel → Levels → Levels
cleared id level ls = if is_stale id (get_level level ls) then set_level level [] ls else ls

abbrev clear_voice : Text → Settings → Settings
clear_voice id c = if is_stale id c.chat_voice then record c { chat_voice = []; voice = [] } else c

abbrev clear_levels : Text → Settings → Settings
clear_levels id c = record c { levels = cleared id l3 (cleared id l2 (cleared id l1 c.levels)) }

-- the providers without the one that is removed
abbrev pub others : Text → List Provider → List Provider
others id ps = keep (λ p. not (same_word p.id (trim id))) ps

abbrev pub after_removal : Text → Settings → Settings
after_removal id c =
    clear_levels id (clear_voice id (record c { providers = others id c.providers }))

unfoldable pub remove_provider : Text → Settings → Bool × Settings
unfolding trim is_stale
remove_provider id c =
    if length (others id c.providers) == length c.providers
    then (false, c)
    else (true, after_removal id c)

abbrev pick_model : Option Provider → Text → Option (Provider × Text)
pick_model none model = none
pick_model (some p) model = some (p, model)

abbrev pub full_key : Option (Text × Text) → List Provider → Option (Provider × Text)
full_key none ps = none
full_key (some (id, model)) ps =
    let found = pick_model (provider id ps) model in
    if is_empty id || is_empty model then none else found

abbrev first_provider : List Provider → Option Provider
first_provider [] = none
first_provider (p ∷ ps) = some p

abbrev lists_model : Text → Provider → Bool
lists_model key p = any (λ m. same_word (trim m) key) p.available_models

module _ (env : Text → Option Text) where
  abbrev bare_key : Text → Settings → Option (Provider × Text)
  bare_key key c =
      let texts = keep (λ (p : Provider). is_text p.provider_type) c.providers in
      pick_model
        (or_else (find (lists_model key) texts)
          (or_else (endpoint_provider env c) (first_provider texts)))
        key

  unfoldable pub split_model_key : Text → Settings → Option (Provider × Text)
  unfolding trim split_once provider endpoint_provider
  split_model_key raw c =
      let key = trim raw in
      if is_empty key
      then none
      else or_else (full_key (split_once 47 key) c.providers) (bare_key key c)
