-- ===== src/Tests/Deployment.antt =====
-- The theorems on the registry of definitions and on the retry queue at concrete inputs.
use bpmninja.Prelude.{
  ℕ, ◌+◌, ◌≡◌, subst, some, List, [], ◌∷◌, get, nat_eq, string_eq, String, leb, if◌then◌else◌,
  arith,
}
use bpmninja.Prelude.Int.{pos, ◌<ℤ◌, i32_max}
use bpmninja.Domain.Error.{Uuid, Result, ok, err}
use bpmninja.Domain.Graph.{ProcessDefinition, tree, no_subs, sub}
use bpmninja.Runtime.State.{Engine}
use bpmninja.Engine.Registry.{highest_version, deploy_definition}
use bpmninja.Engine.Registry.Versions.{
  HasVersions, HasRoom, Exceeds, Lacks, deploy_definition_numbers,
}
use bpmninja.Engine.Registry.Unique.{deploy_definition-HasVersions}
use bpmninja.Engine.RetryQueue.{succeeded, retry_job}
use bpmninja.Engine.RetryQueue.Attempts.{Attempted, retry_job-Attempted}
use bpmninja.Tests.Samples.{process, empty_engine}

abbrev next_process : ProcessDefinition ℕ
next_process = record process { key = 77 }

abbrev embedded : ProcessDefinition ℕ
embedded = record process { key = 78; id = "embedded" }

-- An engine with one definition, of version 4.
abbrev running : Engine ℕ
running = record empty_engine {
  definitions = (5, record process { key = 5; version = pos 4 }) ∷ [];
}

running-HasVersions : HasVersions running.definitions
unfolding get
running-HasVersions j k d e hj hk same level = ground arith

running-HasRoom : HasRoom running.definitions process.id
unfolding highest_version
running-HasRoom h found =
    let same : pos 4 ≡ h = cc in subst (λ x. x <ℤ pos i32_max) same (omega arith)

deploy_definition_numbers_example :
    let (answer, after) =
      deploy_definition (tree next_process (sub (tree embedded no_subs) no_subs)) running in
    (answer.0 ≡ 77)
    × Exceeds running.definitions process.id answer.1
    × (get 77 after.definitions ≡ some (record next_process { version = answer.1 }))
    × ((k : Uuid)
        → Lacks k (tree next_process (sub (tree embedded no_subs) no_subs))
        → get k after.definitions ≡ get k running.definitions)
deploy_definition_numbers_example =
    deploy_definition_numbers next_process (sub (tree embedded no_subs) no_subs) running
      (omega arith) running-HasRoom

deploy_definition-HasVersions_example :
    HasVersions
      (deploy_definition
        (tree next_process (sub (tree embedded no_subs) no_subs))
        running).1.definitions
deploy_definition-HasVersions_example =
    deploy_definition-HasVersions 4 (tree next_process (sub (tree embedded no_subs) no_subs))
      running running-HasVersions (omega arith, tt) (omega arith, ((omega arith, tt), tt))
      (omega arith)

abbrev new_key : ℕ → Uuid
new_key n = 90 + n

abbrev members : List (ProcessDefinition ℕ)
members =
    record process { key = 90; version = pos 5 }
    ∷ record embedded { key = 91; version = pos 5 }
    ∷ []

-- The first two attempts fail.
abbrev third_works : ℕ → Result String (Unit {0})
third_works n = if leb n 2 then err "no connection" else ok tt

retry_job-Attempted_example : Attempted third_works (succeeded 3 (1000 ∷ 2000 ∷ []))
unfolding retry_job
retry_job-Attempted_example = retry_job-Attempted third_works
