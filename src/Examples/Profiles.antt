-- ===== src/Examples/Profiles.antt =====
-- A profile with one group at concrete inputs.
use agent_vigilo.Prelude.{◌≡◌, refl, true, none, some, List, [], ◌∷◌, filter, err}
use agent_vigilo.Prelude.Text.{Text, codes, text_eq}
use agent_vigilo.Profile.{
  no_case_group, CaseGroupProfile, ScorecardGate, ProfileCase, matching_groups_for_case,
  validate_resolved_case, applies,
}

abbrev quality : Text
quality = codes "quality"

abbrev groups : List CaseGroupProfile
groups =
    record {
      id = codes "short";
      applies_to = record { task_type = codes "qa"; tags_any = []; tags_all = codes "en" ∷ [] };
      evaluators = record { id = codes "judge"; required = true; dimension = quality } ∷ [];
    }
    ∷ []

abbrev english : ProfileCase
english = record { task_type = codes "qa"; case_group = none; tags = codes "en" ∷ [] }

abbrev french : ProfileCase
french = record { task_type = codes "qa"; case_group = none; tags = codes "fr" ∷ [] }

abbrev quality_gate : ScorecardGate
quality_gate = record {
  id = codes "g";
  dimension = quality;
  binding_id = none;
  case_group = some (codes "short");
  tags_all = [];
}

french_unmatched : validate_resolved_case groups french ≡ err no_case_group
unfolding validate_resolved_case matching_groups_for_case applies text_eq filter
french_unmatched = refl
