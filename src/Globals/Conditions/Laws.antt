-- ===== src/Globals/Conditions/Laws.antt =====
-- What an update of the conditions does, read by type.
use kuberbac.Prelude.{
  ℕ, ◌≡◌, refl, ◌≢◌, false, Option, none, some, List, [], ◌∷◌, arith, Str, ◌==◌, ==_iff, contains,
  if◌then◌else◌,
}
use kuberbac.Globals.Conditions.{Condition, renewed, update_condition}

-- The first condition of a type.
unfoldable pub condition_of : Str → List Condition → Option Condition
condition_of t [] = none
condition_of t (v ∷ conditions) =
    if v.condition_type == t then some v else condition_of t conditions

-- What an update makes of the condition of its type.
abbrev pub renewed_or_new : ℕ → Condition → Option Condition → Condition
renewed_or_new now condition none = condition
renewed_or_new now condition (some current) = record {
  condition_type = current.condition_type;
  status = condition.status;
  last_transition_time = now;
  reason = condition.reason;
  message = condition.message;
}

abbrev pub condition_types : List Condition → List Str
condition_types [] = []
condition_types (v ∷ conditions) = v.condition_type ∷ condition_types conditions

-- No type stands twice.
abbrev pub AreDistinct : List Str → Type 0
AreDistinct [] = Unit
AreDistinct (x ∷ xs) = (contains xs x ≡ false) × AreDistinct xs

-- The update, by recursion on the conditions.
update : ℕ → List Condition → Condition → List Condition
update now [] condition = condition ∷ []
update now (v ∷ conditions) condition =
    if v.condition_type == condition.condition_type
    then renewed now condition v ∷ conditions
    else v ∷ update now conditions condition

update_condition-eq-update :
    (now : ℕ) (conditions : List Condition) (condition : Condition)
    → update_condition now conditions condition ≡ update now conditions condition
unfolding update_condition update
update_condition-eq-update now [] condition = refl
update_condition-eq-update now (v ∷ conditions) condition =
    ground (arith, update_condition-eq-update now conditions condition)

module _ (now : ℕ) (condition : Condition) where
  condition_of-update :
      (t : Str) (conditions : List Condition)
      → condition_of t (update now conditions condition) ≡ (
          if condition.condition_type == t
          then some (renewed_or_new now condition (condition_of t conditions))
          else condition_of t conditions)
  unfolding condition_of update
  condition_of-update t [] = ground arith
  condition_of-update t (v ∷ conditions) = ground (
    arith,
    ==_iff v.condition_type t,
    ==_iff condition.condition_type t,
    ==_iff v.condition_type condition.condition_type,
    condition_of-update t conditions,
  )

  -- After UpdateCondition the condition of the given type holds the new status, reason, message and
  -- time, in place of what the first condition of the type held or as a new condition, and the
  -- condition of every other type is what it was.
  pub condition_of-update_condition :
      (t : Str) (conditions : List Condition)
      → condition_of t (update_condition now conditions condition) ≡ (
          if condition.condition_type == t
          then some (renewed_or_new now condition (condition_of t conditions))
          else condition_of t conditions)
  condition_of-update_condition t conditions =
      rw (update_condition-eq-update now conditions condition) (condition_of-update t conditions)

  contains-condition_types-update :
      (t : Str) (conditions : List Condition)
      → t ≢ condition.condition_type
      → contains (condition_types (update now conditions condition)) t
        ≡ contains (condition_types conditions) t
  unfolding contains update
  contains-condition_types-update t [] h = ground (arith, ==_iff condition.condition_type t)
  contains-condition_types-update t (v ∷ conditions) h =
      ground
        (arith, ==_iff condition.condition_type t, contains-condition_types-update t conditions h)

  update-AreDistinct :
      (conditions : List Condition)
      → AreDistinct (condition_types conditions)
      → AreDistinct (condition_types (update now conditions condition))
  unfolding update
  update-AreDistinct [] h = (unfold contains in refl, tt)
  update-AreDistinct (v ∷ conditions) h = ground (
    arith,
    ==_iff v.condition_type condition.condition_type,
    contains-condition_types-update v.condition_type conditions,
    update-AreDistinct conditions h.1,
  )

  -- UpdateCondition keeps the types of the conditions distinct.
  pub update_condition-AreDistinct :
      (conditions : List Condition)
      → AreDistinct (condition_types conditions)
      → AreDistinct (condition_types (update_condition now conditions condition))
  update_condition-AreDistinct conditions h =
      rw (update_condition-eq-update now conditions condition) (update-AreDistinct conditions h)
