-- ===== src/Text/Digits.antt =====
-- The characters of a printed number.
use lucy.Prelude.{ℕ, ◌≡◌, false, true, arith, ◌==◌}
use lucy.Text.{Text, is_digit, is_whitespace}
use lucy.Text.Decimal.{IsDigits, show_u32, show_u32-IsDigits}
use lucy.Text.Laws.{Avoids, NoSpace, All-map}

pub digit-ne : (d : ℕ) → is_digit d ≡ false → (c : ℕ) → is_digit c ≡ true → (c == d) ≡ false
unfolding is_digit
digit-ne d h c k = ground arith

digit-NoSpace : (c : ℕ) → is_digit c ≡ true → is_whitespace c ≡ false
unfolding is_digit is_whitespace
digit-NoSpace c h = ground arith

digits-avoid : (d : ℕ) → is_digit d ≡ false → (s : Text) → IsDigits s → Avoids d s
digits-avoid d h s k = All-map (digit-ne d h) s k

digits-NoSpace : (s : Text) → IsDigits s → NoSpace s
digits-NoSpace s h = All-map digit-NoSpace s h

pub show-NoSpace : (n : ℕ) → NoSpace (show_u32 n)
show-NoSpace n = digits-NoSpace (show_u32 n) (show_u32-IsDigits n)

pub show-avoid : (d : ℕ) → is_digit d ≡ false → (n : ℕ) → Avoids d (show_u32 n)
show-avoid d h n = digits-avoid d h (show_u32 n) (show_u32-IsDigits n)
