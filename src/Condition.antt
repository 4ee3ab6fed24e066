-- ===== src/Condition.antt =====
-- pkg/controller/condition/condition.go: the builder of a status condition.
use sandbox_mommy.Base.{String, string_eq, ◌==◌, List, [], ◌∷◌, Option, none, some, if◌then◌else◌}
use sandbox_mommy.Base.Int.{ℤ, pos}
use sandbox_mommy.Api.{Condition, ConditionStatus, condition_unknown, condition_empty}
use sandbox_mommy.Env.{Env}

pub record ConditionBuilder : Type 0 where
  pub cond : Condition

abbrev pub new_condition_builder : String → ConditionBuilder
new_condition_builder condition_type = record {
  cond = record {
    type = condition_type;
    status = condition_unknown;
    observed_generation = pos 0;
    last_transition_time = pos 0;
    reason = "Unknown";
    message = "";
  };
}

abbrev pub condition : ConditionBuilder → Condition
condition c = c.cond

-- The method `Status`: an empty status is ignored.
abbrev pub with_status : ConditionStatus → ConditionBuilder → ConditionBuilder
with_status condition_empty c = c
with_status status c = record c { cond = record c.cond { status = status } }

-- The method `Reason`: an empty reason is ignored.
abbrev pub with_reason : String → ConditionBuilder → ConditionBuilder
with_reason String.[] c = c
with_reason reason c = record c { cond = record c.cond { reason = reason } }

-- The method `Message`.
abbrev pub with_message : String → ConditionBuilder → ConditionBuilder
with_message msg c = record c { cond = record c.cond { message = msg } }

-- The method `Generation`.
abbrev pub with_generation : ℤ → ConditionBuilder → ConditionBuilder
with_generation generation c = record c {
  cond = record c.cond { observed_generation = generation };
}

abbrev pub clone : ConditionBuilder → ConditionBuilder
clone c = record { cond = c.cond }

unfoldable pub get_condition : String → List Condition → Option Condition
get_condition condition_type [] = none
get_condition condition_type (c ∷ conditions) =
    if c.type == condition_type then some c else get_condition condition_type conditions

module _ (E : Env) where
  abbrev pub set_condition : ConditionBuilder → List Condition → List Condition
  set_condition c conditions = E.set_status_condition conditions (condition c)

  abbrev pub remove_condition : String → List Condition → List Condition
  remove_condition condition_type conditions = E.remove_status_condition conditions condition_type
