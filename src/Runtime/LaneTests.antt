-- ===== src/Runtime/LaneTests.antt =====
-- The fast lane, the probes and the cache of plans on small inputs.
use lucy.Prelude.{ℕ, ◌≤◌, ◌≡◌, refl, Bool, false, some, List, [], ◌∷◌, leb, length, All}
use lucy.Text.{Text, codes}
use lucy.Text.Equality.{text_key}
use lucy.Core.Approval.{ApprovalGate, allow_once, write_mode}
use lucy.Runtime.Lane.Sites.{host_of_url}
use lucy.Runtime.Lane.Wait.{settle_slices}
use lucy.Runtime.Lane.Anchor.{anchor_content_words, anchor_to_visible_name}
use lucy.Runtime.Lane.Anchor.Best.{IsFirstBest, anchor_to_visible_name-IsFirstBest}
use lucy.Runtime.Lane.Call.{Tools, Lane}
use lucy.Runtime.Lane.Call.Allowed.{Sound, call_all, call_all-Permitted}
use lucy.Runtime.Agent.Probe.{sanitize_probe}
use lucy.Runtime.Agent.Probe.Clean.{IsSafe, sanitize_probe-IsSafe}
use lucy.Runtime.Agent.Objectives.{max_objectives, parse_objectives}
use lucy.Runtime.Agent.Objectives.Usable.{Usable, parse_objectives-Usable}
use lucy.Runtime.AgentTests.{Doc, docs, reply}

abbrev letters : ℕ → Bool
letters c = leb 97 c

abbrev wrapped : Text
wrapped = codes "(() => { return document.title.length > 3; })();"

abbrev probe : Text
probe = codes "document.title.length > 3"

unwraps : sanitize_probe letters wrapped ≡ some probe
unfolding sanitize_probe
unwraps = refl

sanitize_probe-IsSafe_example : IsSafe probe
sanitize_probe-IsSafe_example = sanitize_probe-IsSafe letters wrapped probe unwraps

parse_objectives-Usable_example :
    (length (parse_objectives docs letters reply) ≤ max_objectives)
    × All Usable (parse_objectives docs letters reply)
parse_objectives-Usable_example = parse_objectives-Usable docs letters reply

abbrev shown : List Text
shown = codes "All (Q)" ∷ codes "Luis Fonsi - Despacito (Z)" ∷ codes "Despacito (Lyrics) (X)" ∷ []

abbrev aim : Text
aim = codes "click the video result whose title contains despacito"

anchors : anchor_to_visible_name letters aim shown ≡ some (codes "Luis Fonsi - Despacito")
unfolding anchor_to_visible_name
anchors = refl

anchor_to_visible_name-IsFirstBest_example :
    (k : ℕ) × IsFirstBest
      (anchor_content_words letters aim)
      shown
      (some (k, codes "Luis Fonsi - Despacito"))
anchor_to_visible_name-IsFirstBest_example =
    anchor_to_visible_name-IsFirstBest letters aim shown (codes "Luis Fonsi - Despacito") anchors

slices : settle_slices 7000 ≡ 250 ∷ 750 ∷ 1500 ∷ 3000 ∷ 1500 ∷ []
unfolding settle_slices
slices = refl

abbrev gate : ApprovalGate
gate = record {
  mode = write_mode;
  always_allow = [];
  pending = [];
  sent = [];
  next_channel = 0;
  published = [];
}

abbrev tools : Tools Doc
tools = record {
  resolve = λ t. some t;
  requires_approval = λ _. false;
  destructive_tools = codes "hint_act" ∷ [];
  gate = λ t. some gate;
  ask = λ t _. some allow_once;
  execute = λ _ _. some reply;
}

abbrev fresh : Lane
fresh = record { calls = 0; failures = 0; executed = []; tick = 0 }

call_all-Permitted_example :
    Sound docs tools 2 (call_all docs tools (codes "verify" ∷ codes "hint_act" ∷ []) fresh)
call_all-Permitted_example =
    call_all-Permitted docs tools (codes "verify" ∷ codes "hint_act" ∷ []) fresh refl refl refl

-- A site's host is found without its scheme, its user, its port and its `www.`.
host : host_of_url (codes "https://me@www.x.test:8080/a?b") ≡ codes "x.test"
unfolding host_of_url
host = refl
