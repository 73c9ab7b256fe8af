-- ===== src/Contracts/Tasks.antt =====
-- src/auto_code/contracts.py: task definitions, their canonical hash, and task statuses.
use auto_code.Common.{
  of_discrete, Eq, String-discrete, String, List, map, Bool, ◌==◌, ◌&&◌, distinct, text_Eq,
}
use auto_code.Contracts.Enums.{UnitStatus}
use auto_code.Contracts.Json.{Json, str, arr, obj, field, no_more, array, Hasher, hash_json}

pub record TaskDefinition : Type 0 where
  pub task_id : String
  pub text : String

pub record TaskDefinitionManifest : Type 0 where
  pub definition_hash : String
  pub tasks : List TaskDefinition

pub record TaskStatus : Type 0 where
  pub task_id : String
  pub status : UnitStatus

pub record TaskStatusManifest : Type 0 where
  pub definition_hash : String
  pub statuses : List TaskStatus

-- `task.model_dump(mode="json")`
unfoldable pub dump_task : TaskDefinition → Json
dump_task t = obj (field "task_id" (str t.task_id) (field "text" (str t.text) no_more))

unfoldable pub canonical_task_definition_hash : Hasher → List TaskDefinition → String
unfolding hash_json dump_task array
canonical_task_definition_hash h tasks = hash_json h (arr (array (map dump_task tasks)))

-- `TaskDefinitionManifest.unique_task_ids`
unfoldable pub is_task_definition_manifest : Hasher → TaskDefinitionManifest → Bool
is_task_definition_manifest h m =
    distinct (map (λ (t : TaskDefinition). t.task_id) m.tasks)
    && m.definition_hash == canonical_task_definition_hash h m.tasks

-- `TaskStatusManifest.unique_task_ids`
unfoldable pub is_task_status_manifest : TaskStatusManifest → Bool
is_task_status_manifest m = distinct (map (λ (t : TaskStatus). t.task_id) m.statuses)

unfoldable pub TaskDefinitionManifest-discrete : Discrete TaskDefinitionManifest
unfolding String-discrete
TaskDefinitionManifest-discrete = hlevel String-discrete

instance abbrev pub TaskDefinitionManifest_Eq : Eq TaskDefinitionManifest
TaskDefinitionManifest_Eq = of_discrete TaskDefinitionManifest-discrete
