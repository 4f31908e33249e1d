-- ===== src/Knowledge/Provenance/Trust.antt =====
-- What may be injected into a prompt, and the names of the origins.
use lucy.Prelude.{
  ℕ, ◌-◌, ◌&&◌, leb, ◌≡◌, ◌↔◌, refl, Bool, true, false, some, ◌++◌, map, if◌then◌else◌, ◌⊎◌, inl,
  inr, Bool-cases,
}
use lucy.Text.{Text, codes, trim}
use lucy.Knowledge.Provenance.{
  Origin, owner, agent, untrusted, system, SourceKind, owner_utterance, lucy_derived, external_read,
  scaffolding, as_str, parse_origin, is_scaffolding, classify, injectable,
}

no_contradiction : true ≡ false → ⊥
no_contradiction h = cc

abbrev ours : SourceKind → Bool
ours owner_utterance = true
ours lucy_derived = true
ours kind = false

no_source :
    (kind : SourceKind) → ours kind ≡ false → (kind ≡ owner_utterance) ⊎ (kind ≡ lucy_derived) → ⊥
no_source kind h (inl e) = cc
no_source kind h (inr e) = cc

-- Content may be injected exactly if it is no scaffolding and was uttered by the owner or derived by Lucy;
-- what was read from outside may not, whatever it says.
pub injectable-classify_iff :
    (content : Text) (kind : SourceKind)
    → (injectable (classify content kind) ≡ true)
      ↔ (((kind ≡ owner_utterance) ⊎ (kind ≡ lucy_derived)) × (is_scaffolding content ≡ false))
unfolding injectable classify
injectable-classify_iff content owner_utterance = elim (Bool-cases (is_scaffolding content)) [
  | inl e ↦ rw e ((λ h. cc), (λ h. absurd (no_contradiction h.1)))
  | inr e ↦ rw e ((λ h. (inl refl, refl)), (λ h. refl))
]
injectable-classify_iff content lucy_derived = elim (Bool-cases (is_scaffolding content)) [
  | inl e ↦ rw e ((λ h. cc), (λ h. absurd (no_contradiction h.1)))
  | inr e ↦ rw e ((λ h. (inr refl, refl)), (λ h. refl))
]
injectable-classify_iff content external_read =
    ((λ h. cc), (λ h. absurd (no_source external_read refl h.0)))
injectable-classify_iff content scaffolding =
    ((λ h. cc), (λ h. absurd (no_source scaffolding refl h.0)))

-- `to_ascii_uppercase` of a character
abbrev pub upper_char : ℕ → ℕ
upper_char c = if leb 97 c && leb c 122 then c - 32 else c

-- Every origin is read back from its name, in lower and in upper case, with a blank on either side.
pub parse_origin-as_str :
    (o : Origin)
    → (parse_origin (as_str o) ≡ some o)
      × (parse_origin (codes " " ++ (map upper_char (as_str o) ++ codes "\n")) ≡ some o)
unfolding parse_origin as_str trim
parse_origin-as_str owner = (refl, refl)
parse_origin-as_str agent = (refl, refl)
parse_origin-as_str untrusted = (refl, refl)
parse_origin-as_str system = (refl, refl)
