-- ===== src/Executor.antt =====
-- backend/app/connectors/executor.py: how a response action is executed and rolled back.
pub mod Iptables
pub mod Laws
pub mod Raising
pub mod Sample
mod Tests
use sentri_mesh_astra.Prelude.{
  ℕ, String, ◌<>◌, Bool, true, false, not, ◌&&◌, Option, none, some, List, [], ◌∷◌, ◌==◌,
  if◌then◌else◌, contains, Action, pure, ◌>>=◌, ◌>>◌, ok, err, exception,
}
use sentri_mesh_astra.Json.{Value, Fields, get, null}

-- What the code calls and does not define: the `iptables` process, the `ipaddress` module and
-- Python's `repr`.
pub data Process : Type 0 where
  exited : ℕ → String → Process
  not_started : Process

pub record Host : Type 1 where
  pub Firewall : Type 0
  pub run : List String → Firewall → Process × Firewall
  pub parse_ip : String → Option String
  pub repr : Value → String

pub record ExecutionResult : Type 0 where
  pub success : Bool
  pub detail : String
  pub simulated : Bool

abbrev pub supported_actions : List String
supported_actions = "block_ip" ∷ []

-- The argument list of `iptables`, for `-C`, `-I` and `-D`.
abbrev pub rule : String → String → List String
rule command ip =
    "iptables" ∷ command ∷ "INPUT" ∷ "-s" ∷ ip ∷ "-m" ∷ "comment" ∷ "--comment"
    ∷ "sentrimesh-managed" ∷ "-j" ∷ "DROP" ∷ []

module _ (host : Host) where
  open host use {Firewall, run, parse_ip, repr}

  -- `DryRunExecutor.execute`
  unfoldable pub dry_run_execute : String → Fields → Action Firewall ExecutionResult
  dry_run_execute action_type parameters = pure (record {
    success = true;
    detail =
        "[DRY RUN] Would execute '"
        <> (action_type
            <> ("' with parameters="
                <> (repr (Value.obj parameters)
                    <> ". No real infrastructure was modified — connect a live integration to enable real execution.")));
    simulated = true;
  })

  -- `DryRunExecutor.rollback`
  unfoldable pub dry_run_rollback : String → Fields → Action Firewall ExecutionResult
  dry_run_rollback action_type parameters = pure (record {
    success = true;
    detail =
        "[DRY RUN] Would roll back '"
        <> (action_type <> ("' with parameters=" <> (repr (Value.obj parameters) <> ".")));
    simulated = true;
  })

  -- `_run`: a process that cannot be started raises.
  unfoldable pub run_process : List String → Action Firewall (ℕ × String)
  run_process args f =
      let (p, f') = run args f in
      elim p [ exited code out ↦ (ok (code, out), f') | not_started ↦ (err exception, f') ]

  -- `_validate_ip`
  unfoldable pub validate_ip : Value → Option String
  validate_ip (Value.text s) = parse_ip s
  validate_ip _ = none

  -- `_rule_exists`
  unfoldable pub rule_exists : String → Action Firewall Bool
  unfolding run_process
  rule_exists ip = do result ← run_process (rule "-C" ip); pure (result.0 == 0)

  abbrev refusal : String → ExecutionResult
  refusal detail = record { success = false; detail = detail; simulated = true }

  abbrev report : Bool → String → ExecutionResult
  report success detail = record { success = success; detail = detail; simulated = false }

  -- The part of `IPTablesExecutor.execute` behind the validation.
  unfoldable pub block : String → Action Firewall ExecutionResult
  block ip = do
    present ← rule_exists ip
    if present then pure (report true (ip <> " is already blocked (rule already present).")) else do
      result ← run_process (rule "-I" ip)
      pure (
          if result.0 == 0
          then report true ("Blocked " <> (ip <> " via iptables DROP rule on INPUT."))
          else report false ("iptables failed to block " <> (ip <> (": " <> result.1))))

  -- The part of `IPTablesExecutor.rollback` behind the validation.
  unfoldable pub unblock : String → Action Firewall ExecutionResult
  unblock ip = do
    present ← rule_exists ip
    if not present
        then pure (report true (ip <> " was not blocked (nothing to roll back)."))
        else do
          result ← run_process (rule "-D" ip)
          pure (
              if result.0 == 0
              then report true ("Unblocked " <> (ip <> " — removed the iptables DROP rule."))
              else report false ("iptables failed to unblock " <> (ip <> (": " <> result.1))))

  -- `IPTablesExecutor.execute`
  unfoldable pub iptables_execute : String → Fields → Action Firewall ExecutionResult
  iptables_execute action_type parameters =
      if not (contains supported_actions action_type)
      then pure (
          refusal
            ("IPTablesExecutor does not support '" <> (action_type <> "' — only {'block_ip'}.")))
      else elim (validate_ip (get "ip" parameters)) [
        | none ↦ pure (refusal ("Refusing to block invalid IP: " <> repr (get "ip" parameters)))
        | some ip ↦ block ip
      ]

  -- `IPTablesExecutor.rollback`
  unfoldable pub iptables_rollback : String → Fields → Action Firewall ExecutionResult
  iptables_rollback action_type parameters =
      if not (contains supported_actions action_type)
      then pure
          (refusal ("IPTablesExecutor does not support rolling back '" <> (action_type <> "'.")))
      else elim (validate_ip (get "ip" parameters)) [
        | none ↦ pure (refusal ("Refusing to unblock invalid IP: " <> repr (get "ip" parameters)))
        | some ip ↦ unblock ip
      ]

  -- `get_executor`, as the choice between the two classes.
  unfoldable pub is_real : Bool → String → Bool
  is_real enable_real_response_execution action_type =
      enable_real_response_execution && contains supported_actions action_type

  -- `get_executor(action_type).execute(action_type, parameters)`
  unfoldable pub execute_with : Bool → String → Fields → Action Firewall ExecutionResult
  execute_with enabled action_type parameters =
      if is_real enabled action_type
      then iptables_execute action_type parameters
      else dry_run_execute action_type parameters

  -- `get_executor(action_type).rollback(action_type, parameters)`
  unfoldable pub rollback_with : Bool → String → Fields → Action Firewall ExecutionResult
  rollback_with enabled action_type parameters =
      if is_real enabled action_type
      then iptables_rollback action_type parameters
      else dry_run_rollback action_type parameters
