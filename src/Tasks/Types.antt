-- ===== src/Tasks/Types.antt =====
-- The task fields of `struct lash_client` (lashd/client.h) and `struct _project` (lashd/project.h),
-- and the signals that the task functions send.
use gnu_lash.Prelude.{ℕ, Bool}

-- The values of `enum LASH_Event_Type` that a client's task_type takes; 0 is `none_set`.
pub data TaskType : Type 0 where
  none_set save_file save_data_set restore_file restore_data_set : TaskType

-- The task_type of a project: 0, LASH_TASK_SAVE or LASH_TASK_LOAD.
pub data ProjectTask : Type 0 where
  idle saving loading : ProjectTask

-- The flag bits LASH_Config_Data_Set, LASH_Config_File and LASH_Saved stand as Booleans.
pub record Client : Type 0 where
  pub pending_task : ℕ
  pub task_type : TaskType
  pub task_progress : ℕ
  pub config_data_set : Bool
  pub config_file : Bool
  pub saved : Bool

-- The counters are of type uint32_t.
pub record Project : Type 0 where
  pub task_type : ProjectTask
  pub client_tasks_total : ℕ
  pub client_tasks_pending : ℕ
  pub client_tasks_progress : ℕ
  pub modified_status : Bool

-- The D-Bus signals, and the calls of other components, in the order in which they are made.
pub data Signal : Type 0 where
  progress : ℕ → Signal
  project_saved project_loaded : Signal
  modified_status_changed : Bool → Signal
  save : ℕ → Signal
  write_info write_notes clear_lost_clients : Signal
  store_written : Bool → Signal
  satisfy_dependency : Signal
