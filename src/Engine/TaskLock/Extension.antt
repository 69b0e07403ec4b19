-- ===== src/Engine/TaskLock/Extension.antt =====
-- Who can extend a lock, and what it holds then.
use bpmninja.Prelude.{nat_eq, string_eq, option_eq}
use bpmninja.Runtime.State.{Engine}
