-- ===== src/Executor/Laws.antt =====
-- What backend/app/connectors/executor.py does to the firewall, given documented `iptables`.
use sentri_mesh_astra.Prelude.{
  ◌-◌, ◌≤◌, ◌<◌, String, ◌≡◌, ap, ◌∙◌, subst, ◌≢◌, inl, inr, Bool, true, false, Option, none, some,
  arith, str_eq, eq_iff, eq_refl, ltb, if◌then◌else◌, Bool-cases, Option-cases, Result, ok, err,
}
use sentri_mesh_astra.Executor.{
  get, validate_ip, iptables_execute, dry_run_rollback, iptables_rollback, dry_run_execute, is_real,
  unblock, Fields, execute_with, rollback_with, run_process, block, Host, ExecutionResult,
  rule_exists,
}
use sentri_mesh_astra.Executor.Iptables.{Documented}

abbrev pub succeeded : Result ExecutionResult → Bool
succeeded (ok r) = r.success
succeeded (err _) = false

module _ (host : Host) (d : Documented host) where
  open d use {rules, check_keeps, check_tells, insert_adds, delete_removes}

  -- `_rule_exists` answers by the number of rules, or raises, and changes nothing.
  rule_exists_tells :
      (ip : String) (f : host.Firewall) (b : Bool)
      → (rule_exists host ip f).0 ≡ ok b
      → b ≡ ltb 0 (rules ip f)
  unfolding rule_exists
  rule_exists_tells ip f b h = ground (arith, check_tells ip f)

  rule_exists_keeps :
      (ip j : String) (f : host.Firewall) → rules j (rule_exists host ip f).1 ≡ rules j f
  unfolding rule_exists
  rule_exists_keeps ip j f = ground (arith, check_keeps ip j f)

  -- Blocking an address touches no other address's rules, adds at most one rule and never a second
  -- one, and reports success only if the address is blocked.
  pub record Blocked (ip : String) (f : host.Firewall)
      (out : Result ExecutionResult × host.Firewall) : Type 0 where
    pub others : (j : String) → ip ≢ j → rules j out.1 ≡ rules j f
    pub grows : rules ip f ≤ rules ip out.1
    pub single : rules ip f ≤ 1 → rules ip out.1 ≤ 1
    pub blocks : succeeded out.0 ≡ true → 0 < rules ip out.1

  block-Blocked : (ip : String) (f : host.Firewall) → Blocked ip f (block host ip f)
  unfolding block run_process
  block-Blocked ip f =
      let seen = (rule_exists host ip f).1 in
      record {
        others =
            λ j ne. ground (arith, rule_exists_keeps ip j f, insert_adds ip j seen, eq_iff ip j);
        grows = ground (arith, rule_exists_keeps ip ip f, insert_adds ip ip seen);
        single = λ h. ground (
          arith,
          rule_exists_tells ip f false,
          rule_exists_keeps ip ip f,
          insert_adds ip ip seen,
        );
        blocks = λ h. ground (
          arith,
          rule_exists_tells ip f true,
          rule_exists_keeps ip ip f,
          insert_adds ip ip seen,
          eq_refl ip,
        );
      }

  -- Unblocking an address touches no other address's rules, adds none, and reports success only if
  -- at most one rule has gone: none is left where there was one at most.
  pub record Unblocked (ip : String) (f : host.Firewall)
      (out : Result ExecutionResult × host.Firewall) : Type 0 where
    pub others : (j : String) → ip ≢ j → rules j out.1 ≡ rules j f
    pub shrinks : rules ip out.1 ≤ rules ip f
    pub clears : succeeded out.0 ≡ true → rules ip out.1 ≡ rules ip f - 1

  unblock-Unblocked : (ip : String) (f : host.Firewall) → Unblocked ip f (unblock host ip f)
  unfolding unblock run_process
  unblock-Unblocked ip f =
      let seen = (rule_exists host ip f).1 in
      record {
        others =
            λ j ne. ground (arith, rule_exists_keeps ip j f, delete_removes ip j seen, eq_iff ip j);
        shrinks = ground (arith, rule_exists_keeps ip ip f, delete_removes ip ip seen);
        clears = λ h. ground (
          arith,
          rule_exists_tells ip f false,
          rule_exists_keeps ip ip f,
          delete_removes ip ip seen,
          eq_refl ip,
        );
      }

  -- The address that an action names, if the real executor would act on it.
  abbrev pub target : Bool → String → Fields → Option String
  target enabled action_type parameters =
      if is_real host enabled action_type then validate_ip host (get "ip" parameters) else none

  -- An action that the executor does not act on leaves the firewall alone.
  pub execute_with-untargeted :
      (enabled : Bool) (a : String) (p : Fields) (f : host.Firewall)
      → target enabled a p ≡ none
      → (execute_with host enabled a p f).1 ≡ f
  unfolding execute_with dry_run_execute iptables_execute is_real
  execute_with-untargeted enabled a p f h = ground arith

  pub rollback_with-untargeted :
      (enabled : Bool) (a : String) (p : Fields) (f : host.Firewall)
      → target enabled a p ≡ none
      → (rollback_with host enabled a p f).1 ≡ f
  unfolding rollback_with dry_run_rollback iptables_rollback is_real
  rollback_with-untargeted enabled a p f h = ground arith

  execute_with-targeted :
      (enabled : Bool) (a : String) (p : Fields) (f : host.Firewall) (ip : String)
      → target enabled a p ≡ some ip
      → execute_with host enabled a p f ≡ block host ip f
  unfolding execute_with iptables_execute is_real
  execute_with-targeted enabled a p f ip h = ground arith

  rollback_with-targeted :
      (enabled : Bool) (a : String) (p : Fields) (f : host.Firewall) (ip : String)
      → target enabled a p ≡ some ip
      → rollback_with host enabled a p f ≡ unblock host ip f
  unfolding rollback_with iptables_rollback is_real
  rollback_with-targeted enabled a p f ip h = ground arith

  -- Executing an action leaves the rules of every address but its target alone; it blocks the
  -- target if it reports success, never gives it a second rule, and never unblocks it.
  pub execute_with_blocks :
      (enabled : Bool) (a : String) (p : Fields) (f : host.Firewall) (ip : String)
      → target enabled a p ≡ some ip
      → Blocked ip f (execute_with host enabled a p f)
  execute_with_blocks enabled a p f ip h =
      rw (execute_with-targeted enabled a p f ip h) (block-Blocked ip f)

  -- A rollback that succeeds after an execution that succeeded gives every address the number of
  -- rules that it had before, if the target was not blocked before. This holds for both executors
  -- and for every action type.
  pub rollback_with-execute_with :
      (enabled : Bool) (a : String) (p : Fields) (f : host.Firewall)
      → ((ip : String) → target enabled a p ≡ some ip → rules ip f ≡ 0)
      → succeeded (execute_with host enabled a p f).0 ≡ true
      → succeeded (rollback_with host enabled a p (execute_with host enabled a p f).1).0 ≡ true
      → (j : String)
      → rules j (rollback_with host enabled a p (execute_with host enabled a p f).1).1 ≡ rules j f
  rollback_with-execute_with enabled a p f fresh done undone j =
      elim (Option-cases (target enabled a p)) [
        | inl idle ↦ ap (rules j) (
            rollback_with-untargeted enabled a p (execute_with host enabled a p f).1 idle
            ∙ execute_with-untargeted enabled a p f idle)
        | inr (ip, aimed) ↦
            let g = (execute_with host enabled a p f).1 in
            let b : Blocked ip f (execute_with host enabled a p f) =
              execute_with_blocks enabled a p f ip aimed in
            let u : Unblocked ip g (rollback_with host enabled a p g) =
              rw (rollback_with-targeted enabled a p g ip aimed) (unblock-Unblocked ip g) in
            elim (Bool-cases (str_eq ip j)) [
              | inl same ↦
                  subst (λ k. rules k (rollback_with host enabled a p g).1 ≡ rules k f)
                    ((eq_iff ip j).0 same)
                    (omega (arith, u.clears undone, b.single, fresh ip aimed))
              | inr other ↦
                  let ne : ip ≢ j = λ e. cc (other, (eq_iff ip j).1 e) in
                  u.others j ne ∙ b.others j ne
            ]
      ]
