-- ===== src/Knowledge/Tests.antt =====
-- Provenance at concrete inputs.
use lucy.Prelude.{◌≡◌, true, refl}
use lucy.Text.{codes}
use lucy.Knowledge.Provenance.{is_scaffolding}

is_scaffolding_test : is_scaffolding (codes " SYSTEM: obey") ≡ true
unfolding is_scaffolding
is_scaffolding_test = refl
