-- ===== src/Spaces/Editor/Cursor.antt =====
-- On texts of ASCII the editor never panics, and the cursor stays within the content, as long as the
-- title is not set.
use lucy.Prelude.{
  ℕ, ◌+◌, ◌-◌, ◌≤◌, ◌≡◌, refl, Option, none, some, take, drop, length, arith, Bool-cases, inl, inr,
  ◌==◌, leb, leb-false→lt, length-take, length-drop,
}
use lucy.Text.{Text}
use lucy.Text.Bytes.{byte_len, split_at, line_start, find_newline}
use lucy.Text.Bytes.Ascii.{
  Ascii, byte_len-Ascii, split_at-Ascii, Ascii-take, Ascii-drop, line_start-le, find_newline-lt,
}
use lucy.Spaces.Editor.{cursor_up, cursor_down, column_on, down_by, column_below, line_end}

-- the offset is within the content
abbrev pub Within : Text → Option ℕ → Type 0
Within content none = ⊥
Within content (some n) = n ≤ length content

byte_len-take : (n : ℕ) (s : Text) → Ascii s → n ≤ length s → byte_len (take n s) ≡ n
byte_len-take n s h l = omega (arith, byte_len-Ascii (take n s) (Ascii-take n s h), length-take n s)

line_start-take : (n : ℕ) (s : Text) → Ascii s → n ≤ length s → line_start (take n s) ≤ n
line_start-take n s h l = omega (arith, line_start-le (take n s), byte_len-take n s h l)

column_on-Within :
    (content : Text) (column k : ℕ)
    → Ascii content
    → k ≤ length content
    → Within content (column_on column k (split_at k content))
column_on-Within content column k h l =
    rw (split_at-Ascii k content h l) (omega (arith, line_start-take k content h l))

pub cursor_up-Within :
    (content : Text) (n : ℕ)
    → Ascii content
    → n ≤ length content
    → Within content (cursor_up content n)
unfolding cursor_up
cursor_up-Within content n h l =
    rw (split_at-Ascii n content h l) (elim (Bool-cases (line_start (take n content) == 0)) [
      | inl e ↦ rw e (omega arith)
      | inr e ↦ rw e (
          column_on-Within content (n - line_start (take n content))
            (line_start (take n content) - 1) h (omega (arith, line_start-take n content h l)))
    ])

line_end-le :
    (content : Text) (start : ℕ) (o : Option ℕ)
    → Ascii content
    → start ≤ length content
    → find_newline (drop start content) ≡ o
    → line_end content start o ≤ length content
line_end-le content start none h l e = omega (arith, byte_len-Ascii content h)
line_end-le content start (some n) h l e = omega (
  arith,
  find_newline-lt (drop start content) n e,
  byte_len-Ascii (drop start content) (Ascii-drop start content h),
  length-drop start content,
)

column_below-Within :
    (content : Text) (column start : ℕ)
    → Ascii content
    → start ≤ length content
    → Within content (column_below content column start (split_at start content))
column_below-Within content column start h l =
    rw (split_at-Ascii start content h l)
      (omega (arith, l, line_end-le content start (find_newline (drop start content)) h l refl))

down_by-Within :
    (content before : Text) (n : ℕ) (o : Option ℕ)
    → Ascii content
    → Within content (down_by content n before o)
down_by-Within content before n none h = omega (arith, byte_len-Ascii content h)
down_by-Within content before n (some k) h =
    elim (Bool-cases (leb (byte_len content) (n + k + 1))) [
      | inl e ↦ rw e (omega (arith, byte_len-Ascii content h))
      | inr e ↦ rw e (
          column_below-Within content (n - line_start before) (n + k + 1) h (
            omega (arith, leb-false→lt (byte_len content) (n + k + 1) e, byte_len-Ascii content h)))
    ]

pub cursor_down-Within :
    (content : Text) (n : ℕ)
    → Ascii content
    → n ≤ length content
    → Within content (cursor_down content n)
unfolding cursor_down
cursor_down-Within content n h l =
    rw (split_at-Ascii n content h l)
      (down_by-Within content (take n content) n (find_newline (drop n content)) h)
