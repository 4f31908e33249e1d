-- ===== src/Knowledge/Files/Headers.antt =====
-- What a header keeps: the origin and the promotion come back from the file.
use lucy.Prelude.{
  ℕ, ◌≡◌, refl, ap, Bool, true, false, ◌&&◌, Option, some, List, [], ◌∷◌, ◌++◌, take, arith, ◌==◌,
  Bool-cases, inl, inr,
}
use lucy.Text.{Text, codes, split, contains_char, starts_with}
use lucy.Text.Laws.{Avoids, All-append, split-avoid, split-at, contains_char-avoid}
use lucy.Core.Truncate.{drop_cr, lines}
use lucy.Knowledge.Provenance.{
  Origin, owner, agent, untrusted, system, as_str, parse_origin, injectable,
}
use lucy.Knowledge.Files.{header, FileMeta, dot, is_header, first_header, file_meta}

-- neither the separator of the fields nor an end of line
abbrev pub Plain : Text → Type 0
Plain s = Avoids dot s × Avoids 10 s × Avoids 13 s

drop_cr-Avoids : (s : Text) → Avoids 13 s → drop_cr s ≡ s
drop_cr-Avoids [] h = refl
drop_cr-Avoids (c ∷ []) h = rw h.0 refl
drop_cr-Avoids (c ∷ d ∷ s) h = ap (λ r. c ∷ r) (drop_cr-Avoids (d ∷ s) h.1)

split-cons : (d : ℕ) (s : Text) → (q : Text) × (ps : List Text) × (split d s ≡ q ∷ ps)
unfolding split
split-cons d [] = ([], [], refl)
split-cons d (c ∷ s) = elim (Bool-cases (c == d)) [
  | inl e ↦ ([], split d s, rw e refl)
  | inr e ↦ (c ∷ (split-cons d s).0, (split-cons d s).1, rw (e, (split-cons d s).2) refl)
]

-- the first line, where there is a further one
pub lines-first :
    (line rest : Text)
    → Avoids 10 line
    → Avoids 13 line
    → lines (line ++ 10 ∷ rest) ≡ line ∷ lines rest
unfolding lines
lines-first line rest h k =
    let (q, ps, e) = split-cons 10 rest in
    rw (split-at 10 line rest h, e, drop_cr-Avoids line k) refl

pub header-is_header :
    (origin : Origin) (promoted : Bool) (stamp tail : Text)
    → is_header (header origin promoted stamp ++ tail) ≡ true
unfolding header starts_with
header-is_header origin promoted stamp tail = refl

Avoids-by : (d : ℕ) (s : Text) → contains_char d s ≡ false → Avoids d s
unfolding contains_char
Avoids-by d [] h = tt
Avoids-by d (c ∷ s) h = (ground (arith, h), Avoids-by d s (ground (arith, h)))

-- what stands behind the name of the last field
abbrev closing : Text → Text → Text
closing stamp tail = (stamp ++ codes " -->") ++ tail

contains_closing :
    (contains_char 10 (codes " -->") ≡ false)
    × (contains_char 13 (codes " -->") ≡ false)
    × (contains_char dot (codes " -->") ≡ false)
unfolding contains_char
contains_closing = (refl, refl, refl)

closing-Avoids :
    (d : ℕ) (stamp tail : Text)
    → contains_char d (codes " -->") ≡ false
    → Avoids d stamp
    → Avoids d tail
    → Avoids d (closing stamp tail)
closing-Avoids d stamp tail e h k =
    All-append _ (stamp ++ codes " -->") tail
      (All-append _ stamp (codes " -->") h (Avoids-by d (codes " -->") e)) k

header-one_line :
    (origin : Origin) (promoted : Bool) (stamp tail : Text)
    → contains_char 10 (closing stamp tail) ≡ false
    → contains_char 13 (closing stamp tail) ≡ false
    → (contains_char 10 (header origin promoted stamp ++ tail) ≡ false)
      × (contains_char 13 (header origin promoted stamp ++ tail) ≡ false)
unfolding header as_str contains_char
header-one_line owner true stamp tail h k = (h, k)
header-one_line owner false stamp tail h k = (h, k)
header-one_line agent true stamp tail h k = (h, k)
header-one_line agent false stamp tail h k = (h, k)
header-one_line untrusted true stamp tail h k = (h, k)
header-one_line untrusted false stamp tail h k = (h, k)
header-one_line system true stamp tail h k = (h, k)
header-one_line system false stamp tail h k = (h, k)

pub header-Avoids :
    (origin : Origin) (promoted : Bool) (stamp tail : Text)
    → Plain stamp
    → Plain tail
    → Avoids 10 (header origin promoted stamp ++ tail)
      × Avoids 13 (header origin promoted stamp ++ tail)
header-Avoids origin promoted stamp tail h k =
    let (a, b) =
      header-one_line origin promoted stamp tail
        (contains_char-avoid 10 (closing stamp tail)
          (closing-Avoids 10 stamp tail contains_closing.0 h.1 k.1))
        (contains_char-avoid 13 (closing stamp tail)
          (closing-Avoids 13 stamp tail contains_closing.1 h.2 k.2)) in
    (
      Avoids-by 10 (header origin promoted stamp ++ tail) a,
      Avoids-by 13 (header origin promoted stamp ++ tail) b,
    )

abbrev pub kept : Origin → Bool → Option FileMeta
kept origin promoted = some (record { origin = origin; promoted = promoted && injectable origin })

first_header-header :
    (origin : Origin) (promoted : Bool) (stamp tail : Text) (more : List Text)
    → split dot (closing stamp tail) ≡ closing stamp tail ∷ []
    → first_header ((header origin promoted stamp ++ tail) ∷ more) ≡ kept origin promoted
unfolding header starts_with split as_str parse_origin
first_header-header owner true stamp tail more h = rw h refl
first_header-header owner false stamp tail more h = rw h refl
first_header-header agent true stamp tail more h = rw h refl
first_header-header agent false stamp tail more h = rw h refl
first_header-header untrusted true stamp tail more h = rw h refl
first_header-header untrusted false stamp tail more h = rw h refl
first_header-header system true stamp tail more h = rw h refl
first_header-header system false stamp tail more h = rw h refl

-- A header says what was written into it, whatever stands behind it on its line and below: the origin,
-- and the promotion of an origin that may be injected.
pub file_meta-header :
    (origin : Origin) (promoted : Bool) (stamp tail rest : Text)
    → Plain stamp
    → Plain tail
    → file_meta ((header origin promoted stamp ++ tail) ++ 10 ∷ rest) ≡ kept origin promoted
unfolding file_meta
file_meta-header origin promoted stamp tail rest h k =
    let line = header origin promoted stamp ++ tail in
    let (a, b) = header-Avoids origin promoted stamp tail h k in
    rw (lines-first line rest a b) (
      first_header-header origin promoted stamp tail (take 5 (lines rest)) (
        split-avoid dot (closing stamp tail)
          (closing-Avoids dot stamp tail contains_closing.2 h.0 k.0)))
