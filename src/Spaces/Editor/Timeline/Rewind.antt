-- ===== src/Spaces/Editor/Timeline/Rewind.antt =====
-- Going back and forth.
use lucy.Prelude.{
  ℕ, zero, suc, ◌+◌, ◌≤◌, ◌<◌, ◌≡◌, refl, sym, ap, ◌∙◌, Option, none, some, List, [], ◌∷◌, take,
  length, arith,
}
use mathlib.Core.Path.{subst}
use lucy.Text.{Text}
use lucy.Spaces.Editor.{MarkdownEditor, edit, max_undo, undo, undo_by, redo, redo_by}
use lucy.Spaces.Editor.Timeline.{Timeline, view}

abbrev pub times : ℕ → (MarkdownEditor → MarkdownEditor) → MarkdownEditor → MarkdownEditor
times zero f e = e
times (suc n) f e = times n f (f e)

-- edits by their contents and cursors, in their order
abbrev pub edits : List (Text × ℕ) → MarkdownEditor → MarkdownEditor
edits [] e = e
edits ((c, p) ∷ rest) e = edits rest (edit c p e)

abbrev nth : ℕ → List Text → Option Text
nth n [] = none
nth zero (x ∷ xs) = some x
nth (suc n) (x ∷ xs) = nth n xs

abbrev at_back : ℕ → MarkdownEditor → Option Text
at_back n e = nth n (e.content ∷ e.undo_stack)

nth-take : (n m : ℕ) (xs : List Text) → n < m → nth n (take m xs) ≡ nth n xs
nth-take n zero xs h = absurd (omega arith)
nth-take n (suc m) [] h = refl
nth-take zero (suc m) (x ∷ xs) h = refl
nth-take (suc n) (suc m) (x ∷ xs) h = nth-take n m xs (omega (arith, h))

-- how far back `n` steps are after the edits
abbrev later : List (Text × ℕ) → ℕ → ℕ
later [] n = n
later (x ∷ cs) n = later cs (suc n)

later-length : (cs : List (Text × ℕ)) (n : ℕ) → later cs n ≡ length cs + n
later-length [] n = omega arith
later-length (x ∷ cs) n = omega (arith, later-length cs (suc n))

edits-at_back :
    (cs : List (Text × ℕ)) (n : ℕ) (c : Text) (e : MarkdownEditor)
    → later cs n ≤ max_undo
    → at_back n e ≡ some c
    → at_back (later cs n) (edits cs e) ≡ some c
edits-at_back [] n c e l h = h
edits-at_back ((t, p) ∷ cs) n c e l h =
    edits-at_back cs (suc n) c (edit t p e) l (
      nth-take n max_undo (e.content ∷ e.undo_stack) (omega (arith, l, later-length cs (suc n)))
      ∙ h)

undo_by-at_back :
    (n : ℕ) (c : Text) (e : MarkdownEditor) (s : List Text)
    → e.undo_stack ≡ s
    → nth n s ≡ some c
    → at_back n (undo_by e s) ≡ some c
undo_by-at_back n c e [] g h = ground (arith, h)
undo_by-at_back n c e (x ∷ s) g h = h

times-at_back :
    (n : ℕ) (c : Text) (e : MarkdownEditor) → at_back n e ≡ some c → (times n undo e).content ≡ c
unfolding undo
times-at_back zero c e h = cc
times-at_back (suc n) c e h = times-at_back n c (undo e) (undo_by-at_back n c e e.undo_stack refl h)

undo-edits :
    (cs : List (Text × ℕ)) (e : MarkdownEditor)
    → length cs ≤ max_undo
    → (times (length cs) undo (edits cs e)).content ≡ e.content
undo-edits cs e l =
    let same : later cs 0 ≡ length cs = omega (arith, later-length cs 0) in
    subst (λ n. (times n undo (edits cs e)).content ≡ e.content) same
      (times-at_back (later cs 0) e.content (edits cs e)
        (edits-at_back cs 0 e.content e (omega (arith, l, later-length cs 0)) refl))

-- a step forth of a timeline
abbrev forth_by : Timeline → List Text → Timeline
forth_by t [] = t
forth_by t (c ∷ later) = record { past = t.present ∷ t.past; present = c; future = later }

abbrev forth : Timeline → Timeline
forth t = forth_by t t.future

redo_by-view :
    (e : MarkdownEditor) (s : List Text)
    → e.redo_stack ≡ s
    → view (redo_by e s) ≡ forth_by (view e) s
redo_by-view e [] h = refl
redo_by-view e (c ∷ later) h = refl

redo-view : (e : MarkdownEditor) → view (redo e) ≡ forth (view e)
unfolding redo
redo-view e = redo_by-view e e.redo_stack refl

forth-undo_by :
    (e : MarkdownEditor) (s : List Text)
    → e.undo_stack ≡ s
    → 0 < length s
    → forth (view (undo_by e s)) ≡ view e
forth-undo_by e [] h l = absurd (omega arith)
forth-undo_by e (c ∷ s) h l =
    ap (λ p. record { past = p; present = e.content; future = e.redo_stack }) (sym h)

times-after :
    (n : ℕ) (f : MarkdownEditor → MarkdownEditor) (e : MarkdownEditor)
    → times n f (f e) ≡ f (times n f e)
times-after zero f e = refl
times-after (suc n) f e = times-after n f (f e)

undo_by-depth :
    (n : ℕ) (e : MarkdownEditor) (s : List Text)
    → e.undo_stack ≡ s
    → suc n ≤ length s
    → n ≤ length (undo_by e s).undo_stack
undo_by-depth n e [] h l = absurd (omega arith)
undo_by-depth n e (c ∷ s) h l = omega (arith, l)

redo-undo :
    (n : ℕ) (e : MarkdownEditor)
    → n ≤ length e.undo_stack
    → view (times n redo (times n undo e)) ≡ view e
unfolding undo
redo-undo zero e l = refl
redo-undo (suc n) e l =
    ap view (times-after n redo (times n undo (undo e)))
    ∙ (redo-view (times n redo (times n undo (undo e)))
        ∙ (ap forth (redo-undo n (undo e) (undo_by-depth n e e.undo_stack refl l))
            ∙ forth-undo_by e e.undo_stack refl (omega (arith, l))))

-- After a series of at most a hundred edits, as many steps back restore the content before them; and
-- as many steps back as there are, followed by as many forth, restore the content, what can be undone
-- and what can be redone.
pub rewinds :
    (cs : List (Text × ℕ)) (e : MarkdownEditor) (n : ℕ)
    → length cs ≤ max_undo
    → n ≤ length e.undo_stack
    → ((times (length cs) undo (edits cs e)).content ≡ e.content)
      × (view (times n redo (times n undo e)) ≡ view e)
rewinds cs e n l k = (undo-edits cs e l, redo-undo n e k)
