-- ===== src/Process/Tasks.antt =====
-- crates/runtime-tools/src/process.rs: the permits, the calls that hold one, and numbers and texts
-- that may be missing in an event.
use gooselake.Base.{ℕ, ◌+◌, ◌-◌, String, ◌==◌, List, [], ◌∷◌, Option, none, some, if◌then◌else◌}
use gooselake.Json.{Value, str, num, null}
use gooselake.Process.{Task, Manager}

abbrev pub num_or_null : Option ℕ → Value
num_or_null none = null
num_or_null (some n) = num n

abbrev pub text_or_null : Option String → Value
text_or_null none = null
text_or_null (some s) = str s

abbrev pub take_permit : Manager → Manager
take_permit m = record m { permits = m.permits - 1 }

abbrev pub drop_permit : Manager → Manager
drop_permit m = record m { permits = m.permits + 1 }

abbrev pub add_task : Task → Manager → Manager
add_task t m = record m { tasks = t ∷ m.tasks }

unfoldable pub task_id : Task → String
task_id (Task.starting row child) = row.id
task_id (Task.launched id) = id
task_id (Task.waiting id) = id
task_id (Task.ending id status code signal) = id

-- The task of a process goes on as `next`, or ends.
unfoldable pub move_task : String → Task → List Task → List Task
unfolding task_id
move_task id next [] = []
move_task id next (t ∷ ts) = if task_id t == id then next ∷ ts else t ∷ move_task id next ts

unfoldable pub end_task : String → List Task → List Task
unfolding task_id
end_task id [] = []
end_task id (t ∷ ts) = if task_id t == id then ts else t ∷ end_task id ts
