-- ===== src/Knowledge/Digest/Budget.antt =====
-- The budgets of what a prompt gets.
use lucy.Prelude.{
  ℕ, suc, ◌+◌, ◌≤◌, ◌<◌, ◌⊎◌, ltb→lt, ◌≡◌, refl, sym, ◌∙◌, List, [], ◌∷◌, ◌++◌, take, length, arith,
  Bool-cases, inl, inr, ltb,
}
use mathlib.Core.Path.{subst}
use mathlib.Core.List.{append-nil, append_assoc}
use lucy.Text.{Text}
use lucy.Text.Bytes.{byte_len}
use lucy.Knowledge.Recall.{Chunk}
use lucy.Knowledge.Digest.{
  fill, blocks, render_context, headed, render_digest, digest_lines, sort_topics, first_per_slug,
}

byte_len-append : (s t : Text) → byte_len (s ++ t) ≡ byte_len s + byte_len t
unfolding byte_len
byte_len-append [] t = omega arith
byte_len-append (c ∷ s) t = omega (arith, byte_len-append s t)

byte_len_nil : byte_len [] ≡ 0
unfolding byte_len
byte_len_nil = refl

abbrev pub concat : List Text → Text
concat [] = []
concat (x ∷ xs) = x ++ concat xs

-- the text is the first parts, as many as fit
abbrev pub Fits : ℕ → Text → List Text → Text → Type 0
Fits budget out parts text =
    (n : ℕ) × (text ≡ out ++ concat (take n parts))
    × (byte_len text ≤ budget)
    × ((length parts ≤ n) ⊎ (budget < byte_len (out ++ concat (take (suc n) parts))))

Fits-cons :
    (budget : ℕ) (out part : Text) (parts : List Text) (text : Text)
    → Fits budget (out ++ part) parts text
    → Fits budget out (part ∷ parts) text
Fits-cons budget out part parts text (n, e, l, inl k) =
    (suc n, e ∙ append_assoc out part (concat (take n parts)), l, inl (omega (arith, k)))
Fits-cons budget out part parts text (n, e, l, inr k) = (
  suc n,
  e ∙ append_assoc out part (concat (take n parts)),
  l,
  inr (subst (λ t. budget < byte_len t) (append_assoc out part (concat (take (suc n) parts))) k),
)

fill-Fits :
    (budget : ℕ) (out : Text) (parts : List Text)
    → byte_len out ≤ budget
    → Fits budget out parts (fill budget out parts)
unfolding fill
fill-Fits budget out [] l = (0, sym (append-nil out), l, inl (omega arith))
fill-Fits budget out (part ∷ parts) l =
    elim (Bool-cases (ltb budget (byte_len out + byte_len part))) [
      | inl e ↦ rw e (
        0,
        sym (append-nil out),
        l,
        inr (
            omega (
              arith,
              ltb→lt budget (byte_len out + byte_len part) e,
              byte_len-append out (part ++ []),
              byte_len-append part [],
              byte_len_nil,
            )),
      )
      | inr e ↦ rw e (
          Fits-cons budget out part parts (fill budget (out ++ part) parts)
            (fill-Fits budget (out ++ part) parts (ground (arith, e, byte_len-append out part))))
    ]

-- What a prompt gets of the recalled chunks is nothing, or a header and the blocks of the first hits; and
-- the digest is the lines of the first topics in its order. Both are as many as fit into the budget of
-- bytes, which the header does not count towards: the next one, if there is one, would pass it.
pub prompt-Fits :
    (hits chunks : List Chunk) (budget : ℕ)
    → ((out : Text) × (render_context hits budget ≡ headed out)
        × Fits budget [] (blocks 0 hits) out)
      × Fits budget []
          (digest_lines (sort_topics (first_per_slug chunks)))
          (render_digest chunks budget)
unfolding render_context render_digest
prompt-Fits hits chunks budget =
    let z : byte_len [] ≤ budget = omega (arith, byte_len_nil) in
    (
      (fill budget [] (blocks 0 hits), refl, fill-Fits budget [] (blocks 0 hits) z),
      fill-Fits budget [] (digest_lines (sort_topics (first_per_slug chunks))) z,
    )
