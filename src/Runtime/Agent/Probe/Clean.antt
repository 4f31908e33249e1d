-- ===== src/Runtime/Agent/Probe/Clean.antt =====
-- What a probe that is kept looks like, and that keeping it again changes nothing.
use lucy.Prelude.{
  ℕ, zero, suc, ◌≤◌, ◌≡◌, refl, sym, ap, ◌∙◌, Bool, true, false, Option, none, some, List, [], ◌∷◌,
  arith, length, Bool-cases, inl, inr, ◌==◌, ltb, All, any, if◌then◌else◌,
}
use mathlib.Core.Path.{subst}
use lucy.Text.{Text, is_empty, trim, contains_text, contains_char, to_ascii_lowercase}
use lucy.Text.Laws.{Avoids, contains_char-avoid}
use lucy.Text.Bytes.{byte_len}
use lucy.Text.Search.{trim_end_matches}
use lucy.Text.Trim.{trim_idem, trim_end_matches-avoid}
use lucy.Runtime.Agent.Probe.{
  probe_body, max_probe_bytes, has_comment, has_separator, has_lone_operator, forbidden, tests_of,
  is_rejected, accept, tidy, unwrapped, sanitize, kept, sanitize_probe,
}

if_none-some :
    (b : Bool) (x js : Text) → (if b then none else some x) ≡ some js → (x ≡ js) × (b ≡ false)
if_none-some true x js h = ground (arith, h)
if_none-some false x js h = ground (arith, h)

any-false {ℓ} :
    {A : Type ℓ} (p : A → Bool) (xs : List A) → any p xs ≡ false → All (λ x. p x ≡ false) xs
any-false p [] h = tt
any-false p (x ∷ xs) h = elim (Bool-cases (p x)) [
  | inl e ↦ absurd (ground (arith, h, e))
  | inr e ↦ (e, any-false p xs (ground (arith, h, e)))
]

contains_char-false : (d : ℕ) (s : Text) → contains_char d s ≡ false → Avoids d s
unfolding contains_char
contains_char-false d [] h = tt
contains_char-false d (c ∷ s) h = elim (Bool-cases (c == d)) [
  | inl e ↦ absurd (ground (arith, h, e))
  | inr e ↦ (e, contains_char-false d s (ground (arith, h, e)))
]

-- One line with no second statement, no comment, no lone `|` or `&`, none of the forbidden words in any
-- mix of cases, at most 600 bytes long.
pub record IsSafe (js : Text) : Type 0 where
  pub nonempty : is_empty js ≡ false
  pub short : byte_len js ≤ max_probe_bytes
  pub one_statement : Avoids 59 js × Avoids 10 js × Avoids 13 js
  pub no_comment : has_comment js ≡ false
  pub no_lone_operator : has_lone_operator js ≡ false
  pub no_verb : All (λ f. contains_text f (to_ascii_lowercase js) ≡ false) forbidden
  pub no_function : probe_body js ≡ none

le_max : (n : ℕ) → ltb max_probe_bytes n ≡ false → n ≤ max_probe_bytes
le_max n h = ground (arith, h)

separators : (js : Text) → has_separator js ≡ false → Avoids 59 js × Avoids 10 js × Avoids 13 js
separators js h =
    let (a, (b, (c, _))) = any-false (λ d. contains_char d js) (59 ∷ 10 ∷ 13 ∷ []) h in
    (contains_char-false 59 js a, contains_char-false 10 js b, contains_char-false 13 js c)

is_rejected-IsSafe :
    (alnum : ℕ → Bool) (js : Text) → is_rejected alnum js ≡ false → probe_body js ≡ none → IsSafe js
is_rejected-IsSafe alnum js h f =
    let (a, (b, (c, (d, (e, (g, _)))))) = any-false (λ t. t) (tests_of alnum js) h in
    record {
      nonempty = a;
      short = le_max (byte_len js) b;
      one_statement = separators js d;
      no_comment = c;
      no_lone_operator = e;
      no_verb = any-false (λ v. contains_text v (to_ascii_lowercase js)) forbidden g;
      no_function = f;
    }

-- what a run of the checks accepts: the tidied text of some expression that is no function
abbrev Accepted : (ℕ → Bool) → Text → Type 0
Accepted alnum js =
    (raw : Text) × (js ≡ tidy raw) × (is_rejected alnum js ≡ false) × (probe_body js ≡ none)

accept-Accepted :
    (alnum : ℕ → Bool) (raw js : Text)
    → accept alnum (tidy raw) ≡ some js
    → probe_body (tidy raw) ≡ none
    → Accepted alnum js
unfolding accept
accept-Accepted alnum raw js h f =
    let (e, r) = if_none-some (is_rejected alnum (tidy raw)) (tidy raw) js h in
    (raw, sym e, rw (sym e) r, rw (sym e) f)

sanitize-Accepted :
    (alnum : ℕ → Bool) (n : ℕ) (raw js : Text) (o : Option Text)
    → probe_body (tidy raw) ≡ o
    → unwrapped alnum (sanitize alnum n) (tidy raw) o ≡ some (some js)
    → Accepted alnum js
unfolding sanitize
sanitize-Accepted alnum n raw js none e h = accept-Accepted alnum raw js (cc) e
sanitize-Accepted alnum zero raw js (some s) e h = ground (arith, h)
sanitize-Accepted alnum (suc n) raw js (some s) e h =
    sanitize-Accepted alnum n s js (probe_body (tidy s)) refl h

kept-some : (o : Option (Option Text)) (js : Text) → kept o ≡ some js → o ≡ some (some js)
kept-some none js h = ground (arith, h)
kept-some (some r) js h = ap some h

sanitize_probe-Accepted :
    (alnum : ℕ → Bool) (raw js : Text) → sanitize_probe alnum raw ≡ some js → Accepted alnum js
unfolding sanitize_probe sanitize
sanitize_probe-Accepted alnum raw js h =
    sanitize-Accepted alnum (length raw) raw js (probe_body (tidy raw)) refl
      (kept-some (sanitize alnum (suc (length raw)) raw) js h)

-- A probe that is kept is safe: it is one line, with no second statement, no comment, no lone `|` or `&`
-- and none of the forbidden words in any mix of cases, it is not empty and at most 600 bytes long, and it
-- is no function that could be unwrapped further.
pub sanitize_probe-IsSafe :
    (alnum : ℕ → Bool) (raw js : Text) → sanitize_probe alnum raw ≡ some js → IsSafe js
sanitize_probe-IsSafe alnum raw js h =
    let (_, _, r, f) = sanitize_probe-Accepted alnum raw js h in is_rejected-IsSafe alnum js r f

tidy_same : (raw : Text) → contains_char 59 (tidy raw) ≡ false → tidy (tidy raw) ≡ tidy raw
tidy_same raw h =
    let js = tidy raw in
    let trimmed = trim_idem (trim_end_matches 59 (trim raw)) in
    ap (λ t. trim (trim_end_matches 59 t)) trimmed
    ∙ ap trim (trim_end_matches-avoid 59 js h)
    ∙ trimmed

sanitize_accepted :
    (alnum : ℕ → Bool) (js : Text)
    → tidy js ≡ js
    → is_rejected alnum js ≡ false
    → probe_body js ≡ none
    → sanitize_probe alnum js ≡ some js
unfolding sanitize_probe sanitize accept
sanitize_accepted alnum js t r f = rw (t, f, r) refl

-- A probe that is kept would be kept again, unchanged.
pub sanitize_probe_idem :
    (alnum : ℕ → Bool) (raw js : Text)
    → sanitize_probe alnum raw ≡ some js
    → sanitize_probe alnum js ≡ some js
sanitize_probe_idem alnum raw js h =
    let (r0, e, r, f) = sanitize_probe-Accepted alnum raw js h in
    let no_semi = contains_char-avoid 59 js (is_rejected-IsSafe alnum js r f).one_statement.0 in
    sanitize_accepted alnum js
      (ap tidy e ∙ tidy_same r0 (subst (λ t. contains_char 59 t ≡ false) e no_semi) ∙ sym e) r f
