-- ===== src/ShardAdmin.antt =====
-- The decisions of vigilo/src/db/workflows/shard_admin.rs that no statement makes: the length of a page
-- that a move copies, what an abort of a move finds, and which shards a rebalancing plan moves. The
-- placement is the row of vigilo/src/models/shard_placement.rs, as far as the decisions read it.
use agent_vigilo.Prelude.{
  ℕ, ◌+◌, ◌-◌, ◌/◌, ◌^◌, min, Bool, false, not, ◌&&◌, ◌||◌, Option, none, some, List, [], ◌∷◌, ltb,
  ◌==◌, if◌then◌else◌, is_some, is_some_and, length, is_empty, filter, take, Result, ok, err,
  ensure,
}
use agent_vigilo.Prelude.Int.{ℤ, pos, leb_ℤ, ltb_ℤ}
use agent_vigilo.Prelude.Text.{Text, codes, text_eq, text_lt, is_blank}
use agent_vigilo.Prelude.Dict.{Dict, get, insert, values}
pub mod Pages
pub mod Candidates

pub data ShardError : Type 0 where
  already_completed no_matching_move bad_run_shard empty_value : ShardError

pub record ShardPlacement : Type 0 where
  pub run_id : ℕ
  pub run_shard : ℤ
  pub database_alias : Text
  pub status : Text
  pub move_target_database_alias : Option Text
  pub route_version : ℤ

pub record ShardMoveAbortOutcome : Type 0 where
  pub run_id : ℕ
  pub run_shard : ℤ
  pub source_database_alias : Text
  pub target_database_alias : Text
  pub aborted : Bool
  pub placement : ShardPlacement

pub record ShardRebalanceCandidate : Type 0 where
  pub run_id : ℕ
  pub run_shard : ℤ
  pub source_database_alias : Text
  pub route_version : ℤ

abbrev active_status : Text
active_status = codes "active"

abbrev pub is_moving_status : Text → Bool
is_moving_status s =
    text_eq s (codes "copying") || text_eq s (codes "draining") || text_eq s (codes "moving")

abbrev pub saturating_add : ℕ → ℕ → ℕ
saturating_add a b = min (a + b) (2 ^ 64 - 1)

-- The loop over the rows of a page, with the bytes and the rows taken so far.
unfoldable pub page_rows : ℕ → ℕ → ℕ → List ℕ → ℕ
page_rows max_bytes bytes rows [] = rows
page_rows max_bytes bytes rows (n ∷ ns) =
    let rest = page_rows max_bytes (saturating_add bytes n) (rows + 1) ns in
    if ltb 0 rows && ltb max_bytes (saturating_add bytes n) then rows else rest

unfoldable pub bounded_page_len : List ℕ → ℕ → ℕ → ℕ
bounded_page_len row_bytes max_rows max_bytes =
    if is_empty row_bytes || (max_rows == 0)
    then 0
    else page_rows max_bytes 0 0 (take max_rows row_bytes)

unfoldable pub completed_abort_outcome :
    ShardPlacement → ℕ → ℤ → Text → Text → Result ShardError (Option ShardMoveAbortOutcome)
completed_abort_outcome placement run_id run_shard source target =
    if not (text_eq placement.status active_status)
    then ok none
    else if text_eq placement.database_alias target
    then err already_completed
    else if not (text_eq placement.database_alias source)
        || is_some placement.move_target_database_alias
    then err no_matching_move
    else ok (
        some (record {
          run_id = run_id;
          run_shard = run_shard;
          source_database_alias = source;
          target_database_alias = target;
          aborted = false;
          placement = placement;
        }))

unfoldable pub validate_abort_route : ShardPlacement → Text → Text → Result ShardError (Unit {0})
validate_abort_route placement source target =
    if not (text_eq placement.database_alias source)
      || not (is_moving_status placement.status)
      || not (is_some_and (λ t. text_eq t target) placement.move_target_database_alias)
    then err no_matching_move
    else ok tt

unfoldable pub validate_run_shard : ℤ → Result ShardError (Unit {0})
validate_run_shard run_shard =
    ensure (leb_ℤ (pos 0) run_shard && ltb_ℤ run_shard (pos 128)) bad_run_shard

unfoldable pub validate_non_empty : Text → Result ShardError (Unit {0})
validate_non_empty value = ensure (not (is_blank value)) empty_value

-- The active aliases with a count of 0.
unfoldable pub zero_counts : List Text → Dict ℕ
zero_counts [] = []
zero_counts (alias ∷ aliases) = insert alias 0 (zero_counts aliases)

unfoldable pub count_candidates : List ShardRebalanceCandidate → Dict ℕ → Dict ℕ
count_candidates [] counts = counts
count_candidates (c ∷ cs) counts = count_candidates cs (elim (get c.source_database_alias counts) [
  | none ↦ counts
  | some count ↦ insert c.source_database_alias (count + 1) counts
])

unfoldable pub sum : List ℕ → ℕ
sum [] = 0
sum (n ∷ ns) = n + sum ns

-- The order of `sort_by`, strictly.
unfoldable pub comes_before : ShardRebalanceCandidate → ShardRebalanceCandidate → Bool
comes_before a b =
    text_lt a.source_database_alias b.source_database_alias
    || (text_eq a.source_database_alias b.source_database_alias
        && (ltb a.run_id b.run_id || ((a.run_id == b.run_id) && ltb_ℤ a.run_shard b.run_shard)))

unfoldable pub insert_candidate :
    ShardRebalanceCandidate → List ShardRebalanceCandidate → List ShardRebalanceCandidate
insert_candidate c [] = c ∷ []
insert_candidate c (d ∷ ds) =
    let rest = insert_candidate c ds in if comes_before d c then d ∷ rest else c ∷ d ∷ ds

unfoldable pub sort_candidates : List ShardRebalanceCandidate → List ShardRebalanceCandidate
sort_candidates [] = []
sort_candidates (c ∷ cs) = insert_candidate c (sort_candidates cs)

-- `usize::div_ceil`, of a divisor that is not 0.
abbrev pub div_ceil : ℕ → ℕ → ℕ
div_ceil a b = (a + (b - 1)) / b

abbrev pub or_zero : Option ℕ → ℕ
or_zero none = 0
or_zero (some n) = n

unfoldable pub is_overloaded : Dict ℕ → ℕ → ShardRebalanceCandidate → Bool
is_overloaded counts desired c =
    is_some_and (λ count. ltb desired count) (get c.source_database_alias counts)

-- The counts of the shards by active alias.
unfoldable pub alias_counts : List ShardRebalanceCandidate → List Text → Dict ℕ
alias_counts candidates aliases = count_candidates candidates (zero_counts aliases)

-- The shards that every alias holds after a perfect rebalancing, rounded up.
unfoldable pub desired_per_alias : List ShardRebalanceCandidate → List Text → ℕ
desired_per_alias candidates aliases =
    div_ceil (sum (values (alias_counts candidates aliases))) (length aliases)

unfoldable pub select_rebalance_candidates :
    List ShardRebalanceCandidate → List Text → Option Text → Text → ℕ → List ShardRebalanceCandidate
select_rebalance_candidates candidates aliases source target max_items =
    if max_items == 0
    then []
    else let counts = alias_counts candidates aliases in
      let desired = desired_per_alias candidates aliases in
      let needed = desired - or_zero (get target counts) in
      let sorted =
        sort_candidates (filter (λ c. not (text_eq c.source_database_alias target)) candidates) in
      elim source [
        | some alias ↦ take max_items (filter (λ c. text_eq c.source_database_alias alias) sorted)
        | none ↦
            if ltb (length aliases) 2 || (needed == 0)
            then []
            else take (min max_items needed) (filter (is_overloaded counts desired) sorted)
      ]
