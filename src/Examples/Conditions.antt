-- ===== src/Examples/Conditions.antt =====
-- The helpers of internal/globals at concrete inputs.
use kuberbac.Prelude.{◌≡◌, ◌↔◌, refl, true, some, [], ◌∷◌, Str, lit, contains, if◌then◌else◌, ◌==◌}
use kuberbac.GoMap.{GoMap, keys}
use kuberbac.Globals.Subset.{is_subset, is_subset_over}
use kuberbac.Globals.Subset.Laws.{Within, is_subset_iff, is_subset_over-range}
use kuberbac.Globals.Conditions.{
  Condition, update_condition, condition_type_resource_synced, condition_true,
  condition_reason_target_synced, condition_reason_target_synced_message,
}
use kuberbac.Globals.Conditions.Laws.{
  condition_of, condition_types, renewed_or_new, AreDistinct, condition_of-update_condition,
  update_condition-AreDistinct,
}
use kuberbac.Examples.Cluster.{in_order, in_order-IsRange}

abbrev owner : GoMap Str
owner = (lit "owner", lit "a") ∷ []

abbrev annotations : GoMap Str
annotations = (lit "note", lit "x") ∷ (lit "owner", lit "a") ∷ []

is_subset_iff_example : (is_subset owner annotations ≡ true) ↔ Within owner annotations
is_subset_iff_example = is_subset_iff owner annotations

is_subset_over-range_example :
    is_subset_over (in_order [] (keys annotations)) annotations owner ≡ is_subset annotations owner
is_subset_over-range_example = is_subset_over-range annotations owner in_order-IsRange []

abbrev synced : Condition
synced = record {
  condition_type = condition_type_resource_synced;
  status = condition_true;
  last_transition_time = 7;
  reason = condition_reason_target_synced;
  message = condition_reason_target_synced_message;
}

condition_of-update_condition_example :
    condition_of condition_type_resource_synced (update_condition 8 (synced ∷ []) synced) ≡ (
      if synced.condition_type == condition_type_resource_synced
      then some
          (renewed_or_new 8 synced (condition_of condition_type_resource_synced (synced ∷ [])))
      else condition_of condition_type_resource_synced (synced ∷ []))
condition_of-update_condition_example =
    condition_of-update_condition 8 synced condition_type_resource_synced (synced ∷ [])

update_condition-AreDistinct_example :
    AreDistinct (condition_types (update_condition 8 (synced ∷ []) synced))
unfolding contains
update_condition-AreDistinct_example =
    update_condition-AreDistinct 8 synced (synced ∷ []) (refl, tt)
