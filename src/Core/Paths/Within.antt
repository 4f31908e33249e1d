-- ===== src/Core/Paths/Within.antt =====
-- A checked path lies within the workspace.
use lucy.Prelude.{
  ◌≡◌, refl, ap, sym, ◌∙◌, Bool, true, ◌&&◌, Option, none, some, List, [], ◌∷◌, ◌++◌, All, Ensures,
  Ensures-bind, Result, ok, err, ok_eq, arith, Bool-cases, inl, inr, ok_or,
}
use mathlib.Core.Path.{subst}
use lucy.Text.Equality.{eq_of_text_eq}
use lucy.Text.Laws.{All-append}
use lucy.Core.Paths.{
  Component, normal, parent_dir, no_root, no_current_dir, Absolute, PathText, FileSystem, PathError,
  component_eq, path_eq, path_starts_with, under, with_name, from_ancestor, canonical_of, inside,
  candidate_of, checked_in, base_of, checked_from, resolve_path_checked,
}

abbrev pub IsNormal : Component → Type 0
IsNormal (normal n) = Unit
IsNormal parent_dir = ⊥

-- the answers of `canonicalize` have no ".."
abbrev pub Canonical : FileSystem → Type 0
Canonical fs = (p q : Absolute) → fs.canonicalize p ≡ some q → All IsNormal q

-- `q` is the canonical workspace and names below it
abbrev pub Inside : FileSystem → Option Absolute → Absolute → Type 0
Inside fs working_dir q =
    (current : Absolute) × (fs.current_dir ≡ some current)
    × (root : Absolute) × (names : List Component) × (fs.canonicalize (base_of working_dir current)
        ≡ some root)
    × (q ≡ names ++ root)
    × All IsNormal names

and-parts : (a b : Bool) → (a && b) ≡ true → (a ≡ true) × (b ≡ true)
and-parts a b h = ground arith

component_eq-eq : (a b : Component) → component_eq a b ≡ true → a ≡ b
component_eq-eq (normal a) (normal b) h = ap normal (eq_of_text_eq a b h)
component_eq-eq parent_dir parent_dir h = refl
component_eq-eq (normal a) parent_dir h = ground (arith, h)
component_eq-eq parent_dir (normal b) h = ground (arith, h)

path_eq-eq : (p q : Absolute) → path_eq p q ≡ true → p ≡ q
path_eq-eq [] [] h = refl
path_eq-eq [] (b ∷ q) h = ground (arith, h)
path_eq-eq (a ∷ p) [] h = ground (arith, h)
path_eq-eq (a ∷ p) (b ∷ q) h =
    let (e, f) = and-parts (component_eq a b) (path_eq p q) h in
    ap (λ x. x ∷ p) (component_eq-eq a b e) ∙ ap (λ r. b ∷ r) (path_eq-eq p q f)

-- a path that starts with another is names on it
path_starts_with-names :
    (root q : Absolute)
    → path_starts_with root q ≡ true
    → (names : List Component) × (q ≡ names ++ root)
path_starts_with-names root [] h = ([], sym (path_eq-eq root [] h))
path_starts_with-names root (c ∷ q) h = elim (Bool-cases (path_eq root (c ∷ q))) [
  | inl e ↦ ([], sym (path_eq-eq root (c ∷ q) e))
  | inr e ↦
      let (names, f) = path_starts_with-names root q (ground (arith, h, e)) in
      (c ∷ names, ap (λ r. c ∷ r) f)
]

All-left : (xs ys : List Component) → All IsNormal (xs ++ ys) → All IsNormal xs
All-left [] ys h = tt
All-left (x ∷ xs) ys h = (h.0, All-left xs ys h.1)

under-IsNormal :
    (missing : List Component) (o : Option Absolute)
    → All IsNormal missing
    → ((q : Absolute) → o ≡ some q → All IsNormal q)
    → Ensures (All IsNormal) (under missing o)
under-IsNormal missing none m h = tt
under-IsNormal missing (some q) m h = All-append IsNormal missing q m (h q refl)

with_name-IsNormal :
    (c : Component) (missing : List Component)
    → All IsNormal missing
    → All IsNormal (with_name c missing)
with_name-IsNormal (normal n) missing m = All-append IsNormal missing (normal n ∷ []) m (tt, tt)
with_name-IsNormal parent_dir missing m = m

from_ancestor-IsNormal :
    (fs : FileSystem) (p : Absolute) (missing : List Component)
    → Canonical fs
    → All IsNormal missing
    → Ensures (All IsNormal) (from_ancestor fs p missing)
unfolding from_ancestor
from_ancestor-IsNormal fs [] missing h m = elim (Bool-cases (fs.exists [])) [
  | inl e ↦ rw e (under-IsNormal missing (fs.canonicalize []) m (h []))
  | inr e ↦ rw e tt
]
from_ancestor-IsNormal fs (c ∷ p) missing h m = elim (Bool-cases (fs.exists (c ∷ p))) [
  | inl e ↦ rw e (under-IsNormal missing (fs.canonicalize (c ∷ p)) m (h (c ∷ p)))
  | inr e ↦
      rw e (from_ancestor-IsNormal fs p (with_name c missing) h (with_name-IsNormal c missing m))
]

canonical_of-IsNormal :
    (fs : FileSystem) (candidate : Absolute) (o : Option Absolute)
    → Canonical fs
    → fs.canonicalize candidate ≡ o
    → Ensures (All IsNormal) (canonical_of fs candidate o)
canonical_of-IsNormal fs candidate none h e = from_ancestor-IsNormal fs candidate [] h tt
canonical_of-IsNormal fs candidate (some q) h e = h candidate q e

-- names on the workspace
abbrev Below : Absolute → Absolute → Type 0
Below root q = (names : List Component) × (q ≡ names ++ root) × All IsNormal names

inside-Below : (root q : Absolute) → All IsNormal q → Ensures (Below root) (inside root q)
inside-Below root q n = elim (Bool-cases (path_starts_with root q)) [
  | inl e ↦
      let (names, f) = path_starts_with-names root q e in
      rw e (names, f, All-left names root (subst (All IsNormal) f n))
  | inr e ↦ rw e tt
]

Ensures-ok :
    {A : Type 0} (P : A → Type 0) (m : Result PathError A) (a : A) → Ensures P m → m ≡ ok a → P a
Ensures-ok P (ok b) a h e = subst P (ok_eq (ok b) refl e) h
Ensures-ok P (err x) a h e = absurd (ground (arith, e))

ok_or-some : {A : Type 0} (o : Option A) (x : PathError) (a : A) → ok_or o x ≡ ok a → o ≡ some a
ok_or-some none x a h = ground (arith, h)
ok_or-some (some b) x a h = ap some (ok_eq (ok b) refl h)

Ensures-map :
    {A : Type 0} (P Q : A → Type 0) (m : Result PathError A)
    → ((a : A) → P a → Q a)
    → Ensures P m
    → Ensures Q m
Ensures-map P Q (ok a) f h = f a h
Ensures-map P Q (err x) f h = tt

checked_in-Below :
    (fs : FileSystem) (p : PathText) (root : Absolute)
    → Canonical fs
    → Ensures (Below root) (checked_in fs p root)
checked_in-Below fs p root h =
    let candidate = candidate_of root p in
    let m = canonical_of fs candidate (fs.canonicalize candidate) in
    Ensures-bind (Below root) m (inside root) (λ q e. inside-Below root q (
      Ensures-ok (All IsNormal) m q
        (canonical_of-IsNormal fs candidate (fs.canonicalize candidate) h refl) e))

checked_from-Inside :
    (fs : FileSystem) (working_dir : Option Absolute) (p : PathText) (current : Absolute)
    → Canonical fs
    → fs.current_dir ≡ some current
    → Ensures (Inside fs working_dir) (checked_from fs working_dir p current)
checked_from-Inside fs working_dir p current h c =
    let o = fs.canonicalize (base_of working_dir current) in
    Ensures-bind (Inside fs working_dir) (ok_or o no_root) (checked_in fs p) (λ root e.
      Ensures-map (Below root) (Inside fs working_dir) (checked_in fs p root)
        (λ q (names, f, n). (current, c, root, names, ok_or-some o no_root root e, f, n))
        (checked_in-Below fs p root h))

-- Where the file system's canonical paths have no "..", a path that is resolved is one below the
-- workspace: the canonical path of the working directory, or of the process's current directory where no
-- working directory is set, with ordinary names added and no "..".
pub resolve_path_checked-Inside :
    (fs : FileSystem) (working_dir : Option Absolute) (p : PathText) (q : Absolute)
    → Canonical fs
    → resolve_path_checked fs working_dir p ≡ ok q
    → Inside fs working_dir q
unfolding resolve_path_checked
resolve_path_checked-Inside fs working_dir p q h e =
    Ensures-ok (Inside fs working_dir) (resolve_path_checked fs working_dir p) q
      (Ensures-bind (Inside fs working_dir) (ok_or fs.current_dir no_current_dir)
        (checked_from fs working_dir p)
        (λ current g.
          checked_from-Inside fs working_dir p current h
            (ok_or-some fs.current_dir no_current_dir current g)))
      e
