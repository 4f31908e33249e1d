-- ===== src/Text/Bytes/Ascii.antt =====
-- Texts of ASCII: every offset up to the length is a boundary.
use lucy.Prelude.{
  ℕ, zero, suc, ◌-◌, ◌≤◌, ◌<◌, ◌≡◌, refl, some, [], ◌∷◌, All, take, drop, length, arith, true, inl,
  inr, ltb, le→leb, Option-cases,
}
use lucy.Text.{Text}
use lucy.Text.Bytes.{byte_len, split_at, line_start, find_newline}

abbrev pub Ascii : Text → Type 0
Ascii = All (λ c. ltb c 0x80 ≡ true)

pub byte_len-Ascii : (s : Text) → Ascii s → byte_len s ≡ length s
unfolding byte_len
byte_len-Ascii [] h = refl
byte_len-Ascii (c ∷ s) h = rw h.0 (omega (arith, byte_len-Ascii s h.1))

sub_one : (n : ℕ) → suc n - 1 ≡ n
sub_one n = omega arith

pub split_at-Ascii :
    (n : ℕ) (s : Text) → Ascii s → n ≤ length s → split_at n s ≡ some (take n s, drop n s)
unfolding split_at
split_at-Ascii zero s h l = refl
split_at-Ascii (suc n) [] h l = absurd (omega arith)
split_at-Ascii (suc n) (c ∷ s) h l =
    rw (h.0, le→leb 1 (suc n) (omega arith), sub_one n, split_at-Ascii n s h.1 (omega (arith, l)))
      refl

pub Ascii-take : (n : ℕ) (s : Text) → Ascii s → Ascii (take n s)
Ascii-take zero s h = tt
Ascii-take (suc n) [] h = tt
Ascii-take (suc n) (c ∷ s) h = (h.0, Ascii-take n s h.1)

pub Ascii-drop : (n : ℕ) (s : Text) → Ascii s → Ascii (drop n s)
Ascii-drop zero s h = h
Ascii-drop (suc n) [] h = tt
Ascii-drop (suc n) (c ∷ s) h = Ascii-drop n s h.1

pub line_start-le : (s : Text) → line_start s ≤ byte_len s
unfolding line_start byte_len
line_start-le [] = omega arith
line_start-le (c ∷ s) = ground (arith, line_start-le s)

pub find_newline-lt : (s : Text) (n : ℕ) → find_newline s ≡ some n → n < byte_len s
unfolding find_newline byte_len
find_newline-lt [] n h = ground (arith, h)
find_newline-lt (c ∷ s) n h = elim (Option-cases (find_newline s)) [
  | inl e ↦ ground (arith, h, e)
  | inr (m, e) ↦ ground (arith, h, e, find_newline-lt s m e)
]
