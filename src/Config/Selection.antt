-- ===== src/Config/Selection.antt =====
-- What a selection of a model comes to after its provider is saved, and after it is removed.
use lucy.Prelude.{
  ◌≡◌, refl, Bool, true, false, not, Option, none, some, List, [], ◌∷◌, ◌++◌, arith, find, keep,
  if◌then◌else◌, All, Bool-cases, inl, inr, ok,
}
use lucy.Text.{Text, is_empty, trim, text_eq, to_ascii_lowercase}
use lucy.Text.Equality.{text_eq_self, eq_of_text_eq}
use lucy.Text.Laws.{Avoids, split_once-at}
use lucy.Config.{Provider, Settings, Levels, ReasoningLevel, l1, l2, l3, get_level, same_word}
use lucy.Config.Keys.{Names, not_stale-Names, unnamed_not_stale}
use lucy.Config.Providers.{
  provider, store_provider, save_provider, split_model_key, remove_provider, is_stale, full_key,
  cleared, others, after_removal,
}

-- providers whose ids differ, letter case aside, from the one of `p` or are the same
abbrev pub Apart : Provider → List Provider → Type 0
Apart p = All (λ (q : Provider). same_word q.id p.id ≡ true → q.id ≡ p.id)

find-store_provider :
    (p : Provider) (qs : List Provider)
    → Apart p qs
    → find (λ (q : Provider). same_word q.id p.id) (store_provider p qs) ≡ some p
unfolding store_provider
find-store_provider p [] h = rw (text_eq_self _) refl
find-store_provider p (q ∷ qs) h = elim (Bool-cases (text_eq q.id p.id)) [
  | inl e ↦ rw (e, text_eq_self _) refl
  | inr e ↦ rw (e, other e) (find-store_provider p qs h.1)
]
  where
    other : text_eq q.id p.id ≡ false → same_word q.id p.id ≡ false
    other e = elim (Bool-cases (same_word q.id p.id)) [
      | inl d ↦ ground (arith, h.0 d, text_eq_self p.id)
      | inr d ↦ d
    ]

save_provider-stores :
    (p q : Provider) (c d : Settings)
    → save_provider p c ≡ ok (q, d)
    → d.providers ≡ store_provider q c.providers
unfolding save_provider
save_provider-stores p q c d h = ground arith

provider-store :
    (q : Provider) (qs : List Provider)
    → Apart q qs
    → trim q.id ≡ q.id
    → provider q.id (store_provider q qs) ≡ some q
unfolding provider
provider-store q qs h e = rw e (find-store_provider q qs h)

full_key-found :
    (q : Provider) (model : Text) (ps : List Provider)
    → is_empty q.id ≡ false
    → is_empty model ≡ false
    → provider q.id ps ≡ some q
    → full_key (some (q.id, model)) ps ≡ some (q, model)
full_key-found q model ps named some_model h = rw (named, some_model, h) refl

-- The key of a model of a provider that was just saved splits into that provider, as it was stored, and
-- the model, where neither is empty, the id has no slash and no blanks around it, no other provider has the
-- id in other letters, and the key has no blanks around it.
pub split_model_key-save_provider :
    (env : Text → Option Text) (p q : Provider) (c d : Settings) (model : Text)
    → save_provider p c ≡ ok (q, d)
    → Apart q c.providers
    → Avoids 47 q.id
    → is_empty q.id ≡ false
    → is_empty model ≡ false
    → trim q.id ≡ q.id
    → trim (q.id ++ 47 ∷ model) ≡ q.id ++ 47 ∷ model
    → split_model_key env (q.id ++ 47 ∷ model) d ≡ some (q, model)
unfolding split_model_key
split_model_key-save_provider env p q c d model saved apart plain named some_model trimmed key =
    rw
      (
        key,
        key_ne q.id,
        split_once-at 47 q.id model plain,
        full_key-found q model d.providers named some_model found,
      )
      refl
  where
    key_ne : (s : Text) → is_empty (s ++ 47 ∷ model) ≡ false
    key_ne [] = refl
    key_ne (x ∷ s) = refl

    found : provider q.id d.providers ≡ some q
    found = rw (save_provider-stores p q c d saved) (provider-store q c.providers apart trimmed)

level-cleared :
    (id : Text) (level : ReasoningLevel) (ls : Levels)
    → get_level level (cleared id l3 (cleared id l2 (cleared id l1 ls)))
      ≡ (if is_stale id (get_level level ls) then [] else get_level level ls)
level-cleared id l1 ls = ground arith
level-cleared id l2 ls = ground arith
level-cleared id l3 ls = ground arith

module _ {A : Type 0} (p q : A → Bool) where
  find-keep :
      (xs : List A)
      → ((x : A) → p x ≡ true → q x ≡ false)
      → find q (keep (λ x. not (p x)) xs) ≡ find q xs
  find-keep [] apart = refl
  find-keep (x ∷ xs) apart = ground (arith, find-keep xs apart, apart x)

find-removed {ℓ} :
    {A : Type ℓ} (p : A → Bool) (xs : List A) → find p (keep (λ x. not (p x)) xs) ≡ none
find-removed p [] = refl
find-removed p (x ∷ xs) = elim (Bool-cases (p x)) [
  | inl e ↦ rw e (find-removed p xs)
  | inr e ↦ rw (e, e) (find-removed p xs)
]

is_stale-blank : (id : Text) → is_stale id [] ≡ false
unfolding is_stale
is_stale-blank id = refl

two_words : (s t u : Text) → same_word t u ≡ false → same_word s u ≡ true → same_word s t ≡ false
two_words s t u ne e = elim (Bool-cases (same_word s t)) [
  | inl d ↦ absurd (
      ground (
        arith,
        text_eq_self (to_ascii_lowercase t),
        eq_of_text_eq (to_ascii_lowercase s) (to_ascii_lowercase u) e,
        eq_of_text_eq (to_ascii_lowercase s) (to_ascii_lowercase t) d,
      ))
  | inr d ↦ d
]

removed : (id : Text) (c d : Settings) → remove_provider id c ≡ (true, d) → d ≡ after_removal id c
unfolding remove_provider
removed id c d h = ground arith

after_removal-providers :
    (id : Text) (c : Settings) → (after_removal id c).providers ≡ others id c.providers
after_removal-providers id c = ground arith

after_removal-voice :
    (id : Text) (c : Settings) → is_stale id (after_removal id c).chat_voice ≡ false
after_removal-voice id c = ground (arith, is_stale-blank id)

after_removal-level :
    (id : Text) (c : Settings) (level : ReasoningLevel)
    → get_level level (after_removal id c).levels
      ≡ (if is_stale id (get_level level c.levels) then [] else get_level level c.levels)
after_removal-level id c level = elim (Bool-cases (is_stale id c.chat_voice)) [
  | inl e ↦ rw e (level-cleared id level c.levels)
  | inr e ↦ rw e (level-cleared id level c.levels)
]

after_removal-not_stale :
    (id : Text) (c : Settings) (level : ReasoningLevel)
    → is_stale id (get_level level (after_removal id c).levels) ≡ false
after_removal-not_stale id c level =
    rw (after_removal-level id c level) (ground (arith, is_stale-blank id))

after_removal-gone :
    (id : Text) (c : Settings) → trim id ≡ id → provider id (after_removal id c).providers ≡ none
unfolding provider
after_removal-gone id c t =
    rw (after_removal-providers id c, t)
      (find-removed (λ (p : Provider). same_word p.id id) c.providers)

after_removal-others :
    (id other : Text) (c : Settings)
    → trim id ≡ id
    → same_word (trim other) id ≡ false
    → provider other (after_removal id c).providers ≡ provider other c.providers
unfolding provider
after_removal-others id other c t ne =
    rw (after_removal-providers id c, t)
      (find-keep (λ (p : Provider). same_word p.id id)
        (λ (p : Provider). same_word p.id (trim other)) c.providers
        (λ p. two_words p.id (trim other) id ne))

-- Once a provider is removed by an id without blanks around it, it is not found again, and no tier and no
-- voice selection begins with that id, in any letter case, and a slash; the tiers that did not, and the
-- lookups of all other ids, are as before.
pub remove_provider-Gone :
    (id : Text) (c d : Settings)
    → trim id ≡ id
    → remove_provider id c ≡ (true, d)
    → (provider id d.providers ≡ none)
      × ((level : ReasoningLevel) → ¬ Names id (get_level level d.levels))
      × (¬ Names id d.chat_voice)
      × ((level : ReasoningLevel)
          → ¬ Names id (get_level level c.levels)
          → get_level level d.levels ≡ get_level level c.levels)
      × ((other : Text)
          → same_word (trim other) id ≡ false
          → provider other d.providers ≡ provider other c.providers)
remove_provider-Gone id c d t h = rw (removed id c d h) (
  after_removal-gone id c t,
  λ level.
      not_stale-Names id (get_level level (after_removal id c).levels)
        (after_removal-not_stale id c level),
  not_stale-Names id (after_removal id c).chat_voice (after_removal-voice id c),
  λ level fresh.
      rw (after_removal-level id c level, unnamed_not_stale id (get_level level c.levels) fresh)
        refl,
  λ other ne. after_removal-others id other c t ne,
)
