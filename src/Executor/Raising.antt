-- ===== src/Executor/Raising.antt =====
-- The exceptions of backend/app/connectors/executor.py are those of starting `iptables`: none is an HTTP
-- error.
use sentri_mesh_astra.Prelude.{
  ℕ, String, refl, ◌≢◌, Bool, true, false, not, Option, none, some, List, if◌then◌else◌, contains,
  Action, pure, and_then, ◌>>=◌, Result, ok, err, http, exception,
}
use sentri_mesh_astra.Json.{get, Fields}
use sentri_mesh_astra.Executor.{
  Process, exited, not_started, ExecutionResult, Host, run_process, rule_exists, block, unblock,
  iptables_execute, iptables_rollback, execute_with, rollback_with, dry_run_execute,
  dry_run_rollback, is_real, validate_ip, supported_actions,
}

-- Whatever `m` raises is no HTTP error.
abbrev pub NoHttp : {S A : Type 0} → Action S A → Type 0
NoHttp {S} m = (s : S) (code : ℕ) → (m s).0 ≢ err (http code)

and_then-NoHttp :
    {S A B : Type 0} (f : A → Action S B) (out : Result A × S)
    → ((code : ℕ) → out.0 ≢ err (http code))
    → ((a : A) → NoHttp (f a))
    → (code : ℕ) → (and_then f out).0 ≢ err (http code)
and_then-NoHttp f (ok a, s) clean next code e = next a s code e
and_then-NoHttp f (err (http c), s) clean next code e = absurd (clean c refl)
and_then-NoHttp f (err exception, s) clean next code e = cc

pub bind-NoHttp :
    {S A B : Type 0} (m : Action S A) (f : A → Action S B)
    → NoHttp m
    → ((a : A) → NoHttp (f a))
    → NoHttp (m >>= f)
bind-NoHttp m f clean next s = and_then-NoHttp f (m s) (clean s) next

pub pure-NoHttp : {S A : Type 0} (a : A) → NoHttp {S = S} (pure a)
pure-NoHttp a s code e = cc

pub if-NoHttp :
    {S A : Type 0} (b : Bool) (m k : Action S A) → NoHttp m → NoHttp k → NoHttp (if b then m else k)
if-NoHttp true m k p q = p
if-NoHttp false m k p q = q

module _ (host : Host) where
  open host use {Firewall, run}

  ran :
      (p : Process) (f : Firewall) (code : ℕ)
      → (elim p as (λ _. Result (ℕ × String) × Firewall) [
        | exited c out ↦ (ok (c, out), f)
        | not_started ↦ (err exception, f)
      ]).0
        ≢ err (http code)
  ran (exited c out) f code e = cc
  ran not_started f code e = cc

  run_process-NoHttp : (args : List String) → NoHttp (run_process host args)
  unfolding run_process
  run_process-NoHttp args f code = ran (run args f).0 (run args f).1 code

  rule_exists-NoHttp : (ip : String) → NoHttp (rule_exists host ip)
  unfolding rule_exists
  rule_exists-NoHttp ip =
      bind-NoHttp (run_process host _) _ (run_process-NoHttp _) (λ r. pure-NoHttp _)

  block-NoHttp : (ip : String) → NoHttp (block host ip)
  unfolding block
  block-NoHttp ip = bind-NoHttp (rule_exists host ip) _ (rule_exists-NoHttp ip) (λ present.
      if-NoHttp present _ _ (pure-NoHttp _)
        (bind-NoHttp (run_process host _) _ (run_process-NoHttp _) (λ r. pure-NoHttp _)))

  unblock-NoHttp : (ip : String) → NoHttp (unblock host ip)
  unfolding unblock
  unblock-NoHttp ip = bind-NoHttp (rule_exists host ip) _ (rule_exists-NoHttp ip) (λ present.
      if-NoHttp (not present) _ _ (pure-NoHttp _)
        (bind-NoHttp (run_process host _) _ (run_process-NoHttp _) (λ r. pure-NoHttp _)))

  valid-NoHttp :
      (r : ExecutionResult) (m : String → Action Firewall ExecutionResult)
      → ((ip : String) → NoHttp (m ip))
      → (found : Option String)
      → NoHttp
          (elim found as (λ _. Action Firewall ExecutionResult) [ none ↦ pure r | some ip ↦ m ip ])
  valid-NoHttp r m clean none = pure-NoHttp r
  valid-NoHttp r m clean (some ip) = clean ip

  pub execute_with-NoHttp :
      (enabled : Bool) (action_type : String) (parameters : Fields)
      → NoHttp (execute_with host enabled action_type parameters)
  unfolding execute_with iptables_execute dry_run_execute
  execute_with-NoHttp enabled action_type parameters =
      if-NoHttp (is_real host enabled action_type) _ _
        (if-NoHttp (not (contains supported_actions action_type)) _ _ (pure-NoHttp _)
          (valid-NoHttp _ (block host) block-NoHttp (validate_ip host (get "ip" parameters))))
        (pure-NoHttp _)

  pub rollback_with-NoHttp :
      (enabled : Bool) (action_type : String) (parameters : Fields)
      → NoHttp (rollback_with host enabled action_type parameters)
  unfolding rollback_with iptables_rollback dry_run_rollback
  rollback_with-NoHttp enabled action_type parameters =
      if-NoHttp (is_real host enabled action_type) _ _
        (if-NoHttp (not (contains supported_actions action_type)) _ _ (pure-NoHttp _)
          (valid-NoHttp _ (unblock host) unblock-NoHttp (validate_ip host (get "ip" parameters))))
        (pure-NoHttp _)
