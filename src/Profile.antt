-- ===== src/Profile.antt =====
-- The matching of a case with the groups and the gates of a run's profile, from
-- vigilo/src/db/workflows/run_profile_validation.rs, with the types of vigilo/src/contracts/run.rs as far as the
-- matching reads them.
use agent_vigilo.Prelude.{
  ℕ, ◌+◌, Bool, not, ◌&&◌, ◌||◌, Option, none, some, List, [], ◌∷◌, ltb, is_none_or, length,
  is_empty, all, any, filter, Result, ok, ◌>>=◌, ◌>>◌, ensure,
}
use agent_vigilo.Prelude.Text.{Text, text_eq}
pub mod Denominator

pub data ProfileError : Type 0 where
  no_case_group no_evaluators : ProfileError

pub record EvaluatorBinding : Type 0 where
  pub id : Text
  pub required : Bool
  pub dimension : Text

pub record AppliesTo : Type 0 where
  pub task_type : Text
  pub tags_any : List Text
  pub tags_all : List Text

pub record CaseGroupProfile : Type 0 where
  pub id : Text
  pub applies_to : AppliesTo
  pub evaluators : List EvaluatorBinding

pub record ScorecardGate : Type 0 where
  pub id : Text
  pub dimension : Text
  pub binding_id : Option Text
  pub case_group : Option Text
  pub tags_all : List Text

pub record ProfileCase : Type 0 where
  pub task_type : Text
  pub case_group : Option Text
  pub tags : List Text

-- `contains` of a list of tags.
abbrev pub has_tag : List Text → Text → Bool
has_tag tags tag = any (λ t. text_eq t tag) tags

-- The predicate of a group, for a case without an explicit group.
unfoldable pub applies : AppliesTo → ProfileCase → Bool
applies a case =
    text_eq a.task_type case.task_type
    && (is_empty a.tags_any || any (has_tag case.tags) a.tags_any)
    && all (has_tag case.tags) a.tags_all

unfoldable pub matching_groups_for_case :
    List CaseGroupProfile → ProfileCase → List CaseGroupProfile
matching_groups_for_case case_groups case = elim case.case_group [
  | some id ↦ filter (λ group. text_eq group.id id) case_groups
  | none ↦ filter (λ group. applies group.applies_to case) case_groups
]

unfoldable pub count_evaluators : List CaseGroupProfile → ℕ
count_evaluators [] = 0
count_evaluators (group ∷ groups) = length group.evaluators + count_evaluators groups

unfoldable pub validate_resolved_case : List CaseGroupProfile → ProfileCase → Result ProfileError ℕ
validate_resolved_case case_groups case = do
  let groups = matching_groups_for_case case_groups case
  ensure (not (is_empty groups)) no_case_group
  ensure (ltb 0 (count_evaluators groups)) no_evaluators
  ok (count_evaluators groups)

-- A binding that a gate measures.
unfoldable pub measures : ScorecardGate → EvaluatorBinding → Bool
measures gate binding =
    binding.required
    && text_eq binding.dimension gate.dimension
    && is_none_or (λ id. text_eq binding.id id) gate.binding_id

unfoldable pub case_matches_gate : List CaseGroupProfile → ProfileCase → ScorecardGate → Bool
case_matches_gate case_groups case gate =
    let groups = matching_groups_for_case case_groups case in
    is_none_or (λ id. any (λ group. text_eq group.id id) groups) gate.case_group
    && all (has_tag case.tags) gate.tags_all
    && any (λ group. any (measures gate) group.evaluators) groups
