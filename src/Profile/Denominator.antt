-- ===== src/Profile/Denominator.antt =====
-- The cases in a gate's denominator, for vigilo/src/db/workflows/run_profile_validation.rs.
use agent_vigilo.Prelude.{List}
use agent_vigilo.Prelude.Text.{Text}
