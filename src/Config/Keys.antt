-- ===== src/Config/Keys.antt =====
-- The selections of crates/lucy-config/src/lib.rs that `remove_provider` clears, described by their texts.
use lucy.Prelude.{
  ℕ, ◌≡◌, ◌≢◌, refl, sym, ap, ◌∙◌, Bool, true, false, not, ◌&&◌, ◌==◌, Option, none, some, [], ◌∷◌,
  ◌++◌, arith, Bool-cases, inl, inr,
}
use mathlib.Core.Path.{subst}
use lucy.Text.{Text, is_empty, is_whitespace, trim, trim_start, trim_end, split_once, cons_before}
use lucy.Text.Laws.{Avoids, split_once-at}
use lucy.Config.{same_word}
use lucy.Config.Providers.{is_stale, names_provider}

-- The selection is an id, equal to the provider's but for letter case, a slash and a model.
abbrev pub Names : Text → Text → Type 0
Names id key =
    (p : Text) × (model : Text) × (key ≡ p ++ 47 ∷ model) × Avoids 47 p × (same_word p id ≡ true)

trim_end-slash : (p model : Text) → is_empty (trim_end (p ++ 47 ∷ model)) ≡ false
unfolding trim_end is_whitespace
trim_end-slash [] model = refl
trim_end-slash (c ∷ p) model = rw (trim_end-slash p model) (ground arith)

trim-slash : (p model : Text) → is_empty (trim (p ++ 47 ∷ model)) ≡ false
unfolding trim trim_start is_whitespace
trim-slash [] model = trim_end-slash [] model
trim-slash (c ∷ p) model = elim (Bool-cases (is_whitespace c)) [
  | inl e ↦ rw e (trim-slash p model)
  | inr e ↦ rw e (trim_end-slash (c ∷ p) model)
]

Names-is_stale : (id key : Text) → Names id key → is_stale id key ≡ true
unfolding is_stale
Names-is_stale id key (p, model, e, a, w) = rw (e, trim-slash p model, split_once-at 47 p model a) w

pair_eq : (p q : Text × Text) → some p ≡ some q → p ≡ q
pair_eq p q h = cc

split_once-parts :
    (d : ℕ) (s a b : Text) → split_once d s ≡ some (a, b) → (s ≡ a ++ d ∷ b) × Avoids d a
unfolding split_once
split_once-parts d [] a b h = absurd (ground (arith, h))
split_once-parts d (c ∷ s) a b h = elim (Bool-cases (c == d)) [
  | inl e ↦ ground (arith, h, e)
  | inr e ↦ after c s a b (split_once d s) e (split_once-parts d s) (rw e at h)
]
  where
    after :
        (c : ℕ) (s a b : Text) (o : Option (Text × Text))
        → (c == d) ≡ false
        → ((x y : Text) → o ≡ some (x, y) → (s ≡ x ++ d ∷ y) × Avoids d x)
        → cons_before c o ≡ some (a, b)
        → (c ∷ s ≡ a ++ d ∷ b) × Avoids d a
    after c s a b none e k h = absurd (ground (arith, h))
    after c s a b (some (x, y)) e k h =
        let (f, g) = k x y refl in
        subst (λ (q : Text × Text). (c ∷ s ≡ q.0 ++ d ∷ q.1) × Avoids d q.0)
          (pair_eq (c ∷ x, y) (a, b) h) (ap (λ r. c ∷ r) f, (e, g))

stale-Names :
    (id key : Text) (o : Option (Text × Text))
    → split_once 47 key ≡ o
    → names_provider id o ≡ true
    → Names id key
stale-Names id key none e h = absurd (ground (arith, h))
stale-Names id key (some (p, model)) e h =
    let (same, avoids) = split_once-parts 47 key p model e in (p, model, same, avoids, h)

is_stale-Names : (id key : Text) → is_stale id key ≡ true → Names id key
unfolding is_stale
is_stale-Names id key h =
    stale-Names id key (split_once 47 key) refl
      (and_right (not (is_empty (trim key))) (names_provider id (split_once 47 key)) h)
  where
    and_right : (a b : Bool) → (a && b) ≡ true → b ≡ true
    and_right a b e = ground arith

pub not_stale-Names : (id key : Text) → is_stale id key ≡ false → ¬ Names id key
not_stale-Names id key h n = true-ne-false (sym (Names-is_stale id key n) ∙ h)
  where
    true-ne-false : true ≢ false
    true-ne-false q = ground (arith, q)

pub unnamed_not_stale : (id key : Text) → ¬ Names id key → is_stale id key ≡ false
unnamed_not_stale id key h = elim (Bool-cases (is_stale id key)) [
  | inl e ↦ absurd (h (is_stale-Names id key e))
  | inr e ↦ e
]
