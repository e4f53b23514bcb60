-- ===== src/Executor/Tests.antt =====
-- Runs of backend/app/connectors/executor.py on a concrete host.
use sentri_mesh_astra.Prelude.{
  String, ◌≡◌, refl, sym, ◌∙◌, subst, true, some, List, [], ◌∷◌, contains,
}
use sentri_mesh_astra.Json.{entry, Value, Fields, get, no_fields}
use sentri_mesh_astra.Executor.{
  run_process, rule_exists, block, unblock, validate_ip, execute_with, rollback_with, is_real,
  iptables_execute, iptables_rollback,
}
use sentri_mesh_astra.Executor.Laws.{
  Blocked, succeeded, target, execute_with_blocks, rollback_with-execute_with,
}
use sentri_mesh_astra.Executor.Sample.{sample_host, sample_documented}

abbrev address : Fields
address = entry "ip" (Value.text "203.0.113.9") no_fields

abbrev others : List String
others = "198.51.100.1" ∷ []

blocked_run : (execute_with sample_host true "block_ip" address others).1 ≡ "203.0.113.9" ∷ others
unfolding execute_with is_real iptables_execute block rule_exists run_process validate_ip contains
    get
blocked_run = refl

target_run : target sample_host sample_documented true "block_ip" address ≡ some "203.0.113.9"
unfolding is_real validate_ip contains get
target_run = refl

execute_with_blocks_example :
    Blocked sample_host sample_documented "203.0.113.9" others
      (execute_with sample_host true "block_ip" address others)
execute_with_blocks_example =
    execute_with_blocks sample_host sample_documented true "block_ip" address others "203.0.113.9"
      target_run

fresh_target :
    (ip : String)
    → target sample_host sample_documented true "block_ip" address ≡ some ip
    → sample_documented.rules ip others ≡ 0
fresh_target ip h =
    let same : some "203.0.113.9" ≡ some ip = sym target_run ∙ h in
    let eq : ◌≡◌ {A = String} "203.0.113.9" ip = cc same in
    subst (λ x. sample_documented.rules x others ≡ 0) eq refl

execute_run : succeeded (execute_with sample_host true "block_ip" address others).0 ≡ true
unfolding execute_with is_real iptables_execute block rule_exists run_process validate_ip contains
    get
execute_run = refl

rollback_run :
    succeeded
      (rollback_with sample_host true "block_ip" address
        (execute_with sample_host true "block_ip" address others).1).0
    ≡ true
unfolding execute_with rollback_with is_real iptables_execute iptables_rollback block unblock
    rule_exists run_process validate_ip contains get
rollback_run = refl

rollback_with-execute_with_example :
    sample_documented.rules "203.0.113.9"
      (rollback_with sample_host true "block_ip" address
        (execute_with sample_host true "block_ip" address others).1).1
    ≡ sample_documented.rules "203.0.113.9" others
rollback_with-execute_with_example =
    rollback_with-execute_with sample_host sample_documented true "block_ip" address others
      fresh_target execute_run rollback_run "203.0.113.9"
