-- ===== src/Examples/References.antt =====
-- Evaluator references at concrete inputs.
use agent_vigilo.Prelude.{◌≡◌, refl, ok, err}
use agent_vigilo.Prelude.Text.{codes, trim, trim_start, trim_end, is_whitespace}
use agent_vigilo.EvaluatorRef.{
  ambiguous, EvaluatorIdentity, rsplit_once, parse_fully_qualified_evaluator,
}
use agent_vigilo.EvaluatorRef.RoundTrip.{
  canonical_ref, parse_fully_qualified_evaluator-canonical_ref,
}

abbrev sentiment : EvaluatorIdentity
sentiment = record { namespace = codes "vigilo"; name = codes "sentiment"; version = codes "0.1.0" }

spaced : parse_fully_qualified_evaluator (codes " vigilo / sentiment: 0.1.0 ") ≡ ok sentiment
unfolding parse_fully_qualified_evaluator rsplit_once trim trim_start trim_end is_whitespace
spaced = refl

old_form : parse_fully_qualified_evaluator (codes "vigilo:sentiment@0.1.0") ≡ err ambiguous
unfolding parse_fully_qualified_evaluator rsplit_once trim trim_start trim_end is_whitespace
old_form = refl

parse_fully_qualified_evaluator-canonical_ref_example :
    parse_fully_qualified_evaluator (canonical_ref sentiment) ≡ ok sentiment
parse_fully_qualified_evaluator-canonical_ref_example =
    parse_fully_qualified_evaluator-canonical_ref (codes " vigilo / sentiment: 0.1.0 ") spaced
