-- ===== src/Knowledge/Files/Survives.antt =====
-- The promotion of a new topic is read back from its file.
use lucy.Prelude.{◌≡◌, refl, Bool, true, false, List, [], ◌∷◌, ◌++◌, Bool-cases, inl, inr}
use mathlib.Core.Path.{subst}
use mathlib.Core.List.{append-nil, append_assoc}
use lucy.Text.{Text, codes, is_empty, trim, trim_start, trim_end, starts_with}
use lucy.Text.Laws.{Avoids}
use lucy.Core.Truncate.{lines}
use lucy.Knowledge.Provenance.{Origin}
use lucy.Knowledge.Files.{
  header, is_header, file_meta, entry_of, topic_text, rewrite_lines, promotion_text,
}
use lucy.Knowledge.Files.Headers.{Plain, kept, file_meta-header, header-Avoids, lines-first}

-- an entry starts on a line of its own
entry_of-line : (heading body : Text) → (rest : Text) × (entry_of heading body ≡ 10 ∷ rest)
entry_of-line heading body = elim (Bool-cases (is_empty (trim heading))) [
  | inl e ↦ (codes "- " ++ (body ++ codes "\n"), rw e refl)
  | inr e ↦ (codes "## " ++ (heading ++ (codes "\n\n" ++ (body ++ codes "\n"))), rw e refl)
]

new_topic :
    (slug heading body : Text) (origin : Origin) (stamp : Text)
    → (rest : Text) × (topic_text slug heading body origin stamp []
        ≡ header origin false stamp ++ 10 ∷ ((codes "# " ++ slug) ++ 10 ∷ rest))
unfolding topic_text trim trim_start trim_end
new_topic slug heading body origin stamp =
    let (rest, e) = entry_of-line heading body in (rest, rw e refl)

-- a file whose header stands alone on its line
file_meta-alone :
    (origin : Origin) (promoted : Bool) (stamp rest : Text)
    → Plain stamp
    → file_meta (header origin promoted stamp ++ 10 ∷ rest) ≡ kept origin promoted
file_meta-alone origin promoted stamp rest h =
    subst (λ l. file_meta (l ++ 10 ∷ rest) ≡ kept origin promoted)
      (append-nil (header origin promoted stamp))
      (file_meta-header origin promoted stamp [] rest h (tt, tt, tt))

lines-alone :
    (origin : Origin) (promoted : Bool) (stamp rest : Text)
    → Plain stamp
    → lines (header origin promoted stamp ++ 10 ∷ rest) ≡ header origin promoted stamp ∷ lines rest
lines-alone origin promoted stamp rest h =
    let none_here = append-nil (header origin promoted stamp) in
    let (a, b) = header-Avoids origin promoted stamp [] h (tt, tt, tt) in
    lines-first (header origin promoted stamp) rest (subst (Avoids 10) none_here a)
      (subst (Avoids 13) none_here b)

title_Plain : (slug : Text) → Plain slug → Plain (codes "# " ++ slug)
title_Plain slug k = ((refl, (refl, k.0)), (refl, (refl, k.1)), (refl, (refl, k.2)))

lines-title :
    (slug rest : Text)
    → Plain slug
    → lines ((codes "# " ++ slug) ++ 10 ∷ rest) ≡ (codes "# " ++ slug) ∷ lines rest
lines-title slug rest k =
    lines-first (codes "# " ++ slug) rest (title_Plain slug k).1 (title_Plain slug k).2

is_header-alone :
    (origin : Origin) (promoted : Bool) (stamp : Text)
    → is_header (header origin promoted stamp) ≡ true
unfolding header starts_with
is_header-alone origin promoted stamp = refl

rewrite_lines-new :
    (new line title : Text) (rest : List Text)
    → is_header line ≡ true
    → is_header title ≡ false
    → rewrite_lines new (line ∷ title ∷ rest) ≡ (new ++ title) ++ 10 ∷ rewrite_lines new rest
rewrite_lines-new new line title rest h k =
    rw
      (
        h,
        k,
        append_assoc new title (10 ∷ rewrite_lines new rest),
        append_assoc title (10 ∷ []) (rewrite_lines new rest),
      )
      refl

-- the header of a new topic and its title share a line after the first promotion
promotion_text-new :
    (origin : Origin) (stamp new slug rest : Text)
    → Plain stamp
    → Plain slug
    → promotion_text true new
        (header origin false stamp ++ 10 ∷ ((codes "# " ++ slug) ++ 10 ∷ rest))
      ≡ (header origin true new ++ (codes "# " ++ slug))
        ++ 10 ∷ rewrite_lines (header origin true new) (lines rest)
unfolding promotion_text starts_with
promotion_text-new origin stamp new slug rest h k =
    rw
      (
        file_meta-alone origin false stamp ((codes "# " ++ slug) ++ 10 ∷ rest) h,
        lines-alone origin false stamp ((codes "# " ++ slug) ++ 10 ∷ rest) h,
        lines-title slug rest k,
      )
      (rewrite_lines-new (header origin true new) (header origin false stamp) (codes "# " ++ slug)
        (lines rest) (is_header-alone origin false stamp) refl)

-- The file of a new topic says where it comes from, and says so again once it is promoted, where the
-- topic's name and the times hold neither the separator of the header's fields nor an end of line: the
-- origin is the one it was written with, and it is promoted then if that origin may be injected.
pub promotion_survives :
    (slug heading body : Text) (origin : Origin) (stamp new : Text)
    → Plain slug
    → Plain stamp
    → Plain new
    → (file_meta (topic_text slug heading body origin stamp []) ≡ kept origin false)
      × (file_meta (promotion_text true new (topic_text slug heading body origin stamp []))
          ≡ kept origin true)
promotion_survives slug heading body origin stamp new k h j =
    let (rest, e) = new_topic slug heading body origin stamp in
    (
      rw e (file_meta-alone origin false stamp ((codes "# " ++ slug) ++ 10 ∷ rest) h),
      rw (e, promotion_text-new origin stamp new slug rest h k)
          (file_meta-header origin true new (codes "# " ++ slug)
            (rewrite_lines (header origin true new) (lines rest)) j (title_Plain slug k)),
    )
