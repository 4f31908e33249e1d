-- ===== src/Text/Laws.antt =====
-- Splitting, joining and trimming texts whose characters avoid the separators.
use lucy.Prelude.{
  ℕ, ◌≡◌, refl, ap, true, false, none, some, List, [], ◌∷◌, ◌++◌, arith, ◌==◌, All, Bool-cases, inl,
  inr, length, ◌≤◌,
}
use lucy.Text.{
  Text, is_empty, is_whitespace, trim, trim_start, trim_end, contains_char, split_once, split, join,
  split_ws, split_whitespace, drop_empty, cons_first,
}

-- The character `d` does not occur.
abbrev pub Avoids : ℕ → Text → Type 0
Avoids d = All (λ c. (c == d) ≡ false)

abbrev pub NoSpace : Text → Type 0
NoSpace = All (λ c. is_whitespace c ≡ false)

pub All-map {ℓ κ μ} :
    {A : Type ℓ} {P : A → Type κ} {Q : A → Type μ} (f : (a : A) → P a → Q a) (xs : List A)
    → All P xs
    → All Q xs
All-map f [] h = tt
All-map f (x ∷ xs) h = (f x h.0, All-map f xs h.1)

pub All-append {ℓ κ} :
    {A : Type ℓ} (P : A → Type κ) (xs ys : List A) → All P xs → All P ys → All P (xs ++ ys)
All-append P [] ys h k = k
All-append P (x ∷ xs) ys h k = (h.0, All-append P xs ys h.1 k)

pub split_once-none : (d : ℕ) (s : Text) → Avoids d s → split_once d s ≡ none
unfolding split_once
split_once-none d [] h = refl
split_once-none d (c ∷ s) h = rw (h.0, split_once-none d s h.1)

pub split_once-at : (d : ℕ) (a b : Text) → Avoids d a → split_once d (a ++ d ∷ b) ≡ some (a, b)
unfolding split_once
split_once-at d [] b h = ground arith
split_once-at d (c ∷ a) b h = rw (h.0, split_once-at d a b h.1)

pub contains_char-avoid : (d : ℕ) (s : Text) → Avoids d s → contains_char d s ≡ false
unfolding contains_char
contains_char-avoid d [] h = refl
contains_char-avoid d (c ∷ s) h = rw h.0 (contains_char-avoid d s h.1)

pub contains_char-at : (d : ℕ) (a b : Text) → contains_char d (a ++ d ∷ b) ≡ true
unfolding contains_char
contains_char-at d [] b = ground arith
contains_char-at d (c ∷ a) b = ground (arith, contains_char-at d a b)

pub split-avoid : (d : ℕ) (s : Text) → Avoids d s → split d s ≡ s ∷ []
unfolding split
split-avoid d [] h = refl
split-avoid d (c ∷ s) h = rw (h.0, split-avoid d s h.1)

pub split-at : (d : ℕ) (a b : Text) → Avoids d a → split d (a ++ d ∷ b) ≡ a ∷ split d b
unfolding split
split-at d [] b h = ground arith
split-at d (c ∷ a) b h = rw (h.0, split-at d a b h.1)

-- Parts that avoid the separator come back from their join.
pub split-join :
    (d : ℕ) (p : Text) (ps : List Text)
    → All (Avoids d) (p ∷ ps)
    → split d (join (d ∷ []) (p ∷ ps)) ≡ p ∷ ps
unfolding join
split-join d p [] h = split-avoid d p h.0
split-join d p (q ∷ ps) h =
    rw (split-at d p (join (d ∷ []) (q ∷ ps)) h.0) (ap (λ r. p ∷ r) (split-join d q ps h.1))

pub trim_start-NoSpace : (s : Text) → NoSpace s → trim_start s ≡ s
unfolding trim_start
trim_start-NoSpace [] h = refl
trim_start-NoSpace (c ∷ s) h = rw h.0

pub trim_end-NoSpace : (s : Text) → NoSpace s → trim_end s ≡ s
unfolding trim_end
trim_end-NoSpace [] h = refl
trim_end-NoSpace (c ∷ s) h = rw (h.0, trim_end-NoSpace s h.1)

-- A text with no white space is its own trim.
pub trim-NoSpace : (s : Text) → NoSpace s → trim s ≡ s
trim-NoSpace s h = unfold trim in rw (trim_start-NoSpace s h) (trim_end-NoSpace s h)

split_ws-NoSpace : (s : Text) → NoSpace s → split_ws s ≡ s ∷ []
unfolding split_ws
split_ws-NoSpace [] h = refl
split_ws-NoSpace (c ∷ s) h = rw (h.0, split_ws-NoSpace s h.1)

split_ws-at : (a b : Text) → NoSpace a → split_ws (a ++ 32 ∷ b) ≡ a ∷ split_ws b
unfolding split_ws is_whitespace
split_ws-at [] b h = refl
split_ws-at (c ∷ a) b h = rw (h.0, split_ws-at a b h.1)

-- Nonempty parts with no white space come back from their join by blanks.
pub split_ws-join :
    (p : Text) (ps : List Text) → All NoSpace (p ∷ ps) → split_ws (join (32 ∷ []) (p ∷ ps)) ≡ p ∷ ps
unfolding join
split_ws-join p [] h = split_ws-NoSpace p h.0
split_ws-join p (q ∷ ps) h =
    rw (split_ws-at p (join (32 ∷ []) (q ∷ ps)) h.0) (ap (λ r. p ∷ r) (split_ws-join q ps h.1))

drop_empty-ne : (ps : List Text) → All (λ p. is_empty p ≡ false) ps → drop_empty ps ≡ ps
drop_empty-ne [] h = refl
drop_empty-ne (p ∷ ps) h = rw (h.0, drop_empty-ne ps h.1)

pub split_whitespace-join :
    (p : Text) (ps : List Text)
    → All NoSpace (p ∷ ps)
    → All (λ q. is_empty q ≡ false) (p ∷ ps)
    → split_whitespace (join (32 ∷ []) (p ∷ ps)) ≡ p ∷ ps
split_whitespace-join p ps h k =
    unfold split_whitespace in rw (split_ws-join p ps h) (drop_empty-ne (p ∷ ps) k)

-- the parts between white space have none
cons_first-NoSpace :
    (c : ℕ) (ps : List Text)
    → is_whitespace c ≡ false
    → All NoSpace ps
    → All NoSpace (cons_first c ps)
cons_first-NoSpace c [] e h = ((e, tt), tt)
cons_first-NoSpace c (p ∷ ps) e h = ((e, h.0), h.1)

split_ws-parts : (s : Text) → All NoSpace (split_ws s)
unfolding split_ws
split_ws-parts [] = (tt, tt)
split_ws-parts (c ∷ s) = elim (Bool-cases (is_whitespace c)) [
  | inl e ↦ rw e (tt, split_ws-parts s)
  | inr e ↦ rw e (cons_first-NoSpace c (split_ws s) e (split_ws-parts s))
]

drop_empty-parts :
    (ps : List Text)
    → All NoSpace ps
    → All NoSpace (drop_empty ps) × All (λ p. is_empty p ≡ false) (drop_empty ps)
drop_empty-parts [] h = (tt, tt)
drop_empty-parts (p ∷ ps) h = elim (Bool-cases (is_empty p)) [
  | inl e ↦ rw e (drop_empty-parts ps h.1)
  | inr e ↦ let (a, b) = drop_empty-parts ps h.1 in rw e ((h.0, a), (e, b))
]

join_back :
    (ps : List Text)
    → All NoSpace ps
    → All (λ p. is_empty p ≡ false) ps
    → split_whitespace (join (32 ∷ []) ps) ≡ ps
join_back [] h k = unfold split_whitespace join in refl
join_back (p ∷ ps) h k = split_whitespace-join p ps h k

-- The words of a text come back from their join by blanks.
pub split_whitespace-words :
    (s : Text) → split_whitespace (join (32 ∷ []) (split_whitespace s)) ≡ split_whitespace s
unfolding split_whitespace
split_whitespace-words s =
    let (a, b) = drop_empty-parts (split_ws s) (split_ws-parts s) in
    join_back (drop_empty (split_ws s)) a b

cons_first-length : (c : ℕ) (ps : List Text) → 1 ≤ length (cons_first c ps)
cons_first-length c [] = omega arith
cons_first-length c (p ∷ ps) = omega arith

cons_first-same : (c : ℕ) (ps : List Text) → length ps ≤ length (cons_first c ps)
cons_first-same c [] = omega arith
cons_first-same c (p ∷ ps) = omega arith

split-one : (d : ℕ) (s : Text) → 1 ≤ length (split d s)
unfolding split
split-one d [] = omega arith
split-one d (c ∷ s) = ground (arith, split-one d s, cons_first-length c (split d s))

-- A text that has the separator has two parts at least.
pub split-two : (d : ℕ) (s : Text) → contains_char d s ≡ true → 2 ≤ length (split d s)
unfolding split contains_char
split-two d [] h = ground arith
split-two d (c ∷ s) h = elim (Bool-cases (c == d)) [
  | inl e ↦ rw e (omega (arith, split-one d s))
  | inr e ↦ rw e (omega (arith, cons_first-same c (split d s), split-two d s (rw e at h)))
]
