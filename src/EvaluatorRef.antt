-- ===== src/EvaluatorRef.antt =====
-- vigilo/src/contracts/evaluator_ref.rs: the parsing of `<namespace>/<name>:<version>`.
use agent_vigilo.Prelude.{
  ℕ, not, ◌||◌, Option, none, some, [], ◌∷◌, ◌==◌, if◌then◌else◌, is_empty, Result, ok, ◌>>=◌, ◌>>◌,
  ensure, ok_or,
}
use agent_vigilo.Prelude.Text.{trim, Text}
pub mod RoundTrip

pub data RefError : Type 0 where
  ambiguous : RefError

pub record EvaluatorIdentity : Type 0 where
  pub namespace : Text
  pub name : Text
  pub version : Text

-- `rsplit_once`: the parts around the last separator.
unfoldable pub rsplit_once : ℕ → Text → Option (Text × Text)
rsplit_once c [] = none
rsplit_once c (x ∷ s) = elim (rsplit_once c s) [
  | some (left, right) ↦ some (x ∷ left, right)
  | none ↦ if x == c then some ([], s) else none
]

unfoldable pub parse_fully_qualified_evaluator : Text → Result RefError EvaluatorIdentity
parse_fully_qualified_evaluator input = do
  (identity, version) ← ok_or (rsplit_once b':' input) ambiguous
  (namespace, name) ← ok_or (rsplit_once b'/' (trim identity)) ambiguous
  let parsed : EvaluatorIdentity = record {
    namespace = trim namespace;
    name = trim name;
    version = trim version;
  }
  ensure (not (is_empty parsed.namespace || is_empty parsed.name || is_empty parsed.version))
      ambiguous
  ok parsed
