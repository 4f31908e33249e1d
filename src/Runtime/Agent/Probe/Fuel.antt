-- ===== src/Runtime/Agent/Probe/Fuel.antt =====
-- Each function that `sanitize` unwraps is shorter, so that its fuel is enough.
use lucy.Prelude.{
  ℕ, zero, suc, ◌≤◌, ◌<◌, ◌≡◌, ◌⊎◌, refl, Bool, Option, none, some, arith, length, Option-cases,
  inl, inr,
}
use lucy.Text.{Text, codes, trim, strip_prefix}
use lucy.Text.Search.{strip_suffix, trim_end_matches}
use lucy.Text.Trim.{
  length-trim, length-trim_end_matches, length-strip_prefix, length-strip_prefix_lt,
  length-strip_suffix,
}
use lucy.Runtime.Agent.Probe.{
  or_else, and_then_strip, word_return, trim_matches, trim_start_matches, opened, closed, body_text,
  single_body, body_of, probe_body, accept, tidy, sanitize,
}

length-trim_matches : (n : ℕ) (p s : Text) → length (trim_matches n p s) ≤ length s
unfolding trim_matches
length-trim_matches zero p s = omega arith
length-trim_matches (suc n) p s = elim (Option-cases (strip_prefix p s)) [
  | inl e ↦ rw e (omega arith)
  | inr (r, e) ↦ rw e (omega (arith, length-trim_matches n p r, length-strip_prefix p s r e))
]

length-body_text : (s : Text) → length (body_text s) ≤ length s
unfolding trim_start_matches
length-body_text s =
    let a = trim s in
    let b = trim_start_matches word_return a in
    let c = trim b in
    let d = trim_end_matches 59 c in
    omega (
      arith,
      length-trim s,
      length-trim_matches (length a) word_return a,
      length-trim b,
      length-trim_end_matches 59 c,
      length-trim d,
    )

or_else-some : (a b : Option Text) (r : Text) → or_else a b ≡ some r → (a ≡ some r) ⊎ (b ≡ some r)
or_else-some none b r h = inr h
or_else-some (some x) b r h = inl h

length-opened : (js r : Text) → opened js ≡ some r → length r < length js
length-opened js r h =
    let p = strip_prefix (codes "(()=>{") js in
    let q = strip_prefix (codes "(function(){") js in
    elim (or_else-some (strip_prefix (codes "(() => {") js) (or_else p q) r h) [
      | inl e ↦ length-strip_prefix_lt 40 (codes "() => {") js r e
      | inr e ↦ elim (or_else-some p q r e) [
        | inl f ↦ length-strip_prefix_lt 40 (codes "()=>{") js r f
        | inr f ↦ length-strip_prefix_lt 40 (codes "function(){") js r f
      ]
    ]

length-closed : (s r : Text) → closed s ≡ some r → length r ≤ length s
length-closed s r h =
    let p = strip_suffix (codes "})();") s in
    let q = strip_suffix (codes "})") s in
    elim (or_else-some (strip_suffix (codes "})()") s) (or_else p q) r h) [
      | inl e ↦ length-strip_suffix (codes "})()") s r e
      | inr e ↦ elim (or_else-some p q r e) [
        | inl f ↦ length-strip_suffix (codes "})();") s r f
        | inr f ↦ length-strip_suffix (codes "})") s r f
      ]
    ]

length-and_then_strip :
    (js r : Text) (o : Option Text)
    → opened js ≡ o
    → and_then_strip o closed ≡ some r
    → length r < length js
length-and_then_strip js r none e h = ground (arith, h)
length-and_then_strip js r (some a) e h = omega (arith, length-opened js a e, length-closed a r h)

single_body-same : (s r : Text) → single_body s ≡ some r → r ≡ s
single_body-same s r h = ground arith

length-body_of :
    (n : ℕ) (o : Option Text) (r : Text)
    → ((s : Text) → o ≡ some s → length s < n)
    → body_of o ≡ some r
    → length r < n
length-body_of n none r k h = ground (arith, h)
length-body_of n (some s) r k h =
    rw (single_body-same (body_text s) r h) (omega (arith, length-body_text s, k s refl))

length-probe_body : (js r : Text) → probe_body js ≡ some r → length r < length js
unfolding probe_body
length-probe_body js r h =
    length-body_of (length js) (and_then_strip (opened js) closed) r
      (λ s. length-and_then_strip js s (opened js) refl) h

length-tidy : (raw : Text) → length (tidy raw) ≤ length raw
length-tidy raw =
    let a = trim raw in
    let b = trim_end_matches 59 a in
    omega (arith, length-trim raw, length-trim_end_matches 59 a, length-trim b)

-- a function is unwrapped as often as the text has characters, at most
pub sanitize-total :
    (alnum : ℕ → Bool) (n : ℕ) (raw : Text)
    → length raw < n
    → (r : Option Text) × (sanitize alnum n raw ≡ some r)
unfolding sanitize
sanitize-total alnum zero raw h = absurd (omega arith)
sanitize-total alnum (suc n) raw h = elim (Option-cases (probe_body (tidy raw))) [
  | inl e ↦ rw e (accept alnum (tidy raw), refl)
  | inr (s, e) ↦
      rw e (
        sanitize-total alnum n s (omega (arith, length-probe_body (tidy raw) s e, length-tidy raw)))
]
