-- ===== src/Executor/Iptables.antt =====
-- What backend/app/connectors/executor.py relies on `iptables` for: its documented effect on the
-- number of managed DROP rules for each address. A failing call changes nothing.
use sentri_mesh_astra.Prelude.{
  ℕ, ◌+◌, ◌-◌, String, ◌≡◌, ◌≢◌, Bool, false, ◌&&◌, str_eq, ltb, ◌==◌, if◌then◌else◌,
}
use sentri_mesh_astra.Executor.{Host, Process, exited, rule}

abbrev pub exit_zero : Process → Bool
exit_zero (exited code out) = code == 0
exit_zero Process.not_started = false

pub record Documented (host : Host) : Type 0 where
  pub rules : String → host.Firewall → ℕ
  -- `iptables -C` exits with 0 exactly if the rule exists, and only looks.
  pub check_keeps :
      (ip j : String) (f : host.Firewall) → rules j (host.run (rule "-C" ip) f).1 ≡ rules j f
  pub check_tells :
      (ip : String) (f : host.Firewall)
      → (host.run (rule "-C" ip) f).0 ≢ Process.not_started
      → exit_zero (host.run (rule "-C" ip) f).0 ≡ ltb 0 (rules ip f)
  -- `iptables -I` adds one rule if it exits with 0, and `iptables -D` takes one away.
  pub insert_adds :
      (ip j : String) (f : host.Firewall)
      → rules j (host.run (rule "-I" ip) f).1
        ≡ rules j f + (if exit_zero (host.run (rule "-I" ip) f).0 && str_eq ip j then 1 else 0)
  pub delete_removes :
      (ip j : String) (f : host.Firewall)
      → rules j (host.run (rule "-D" ip) f).1
        ≡ rules j f - (if exit_zero (host.run (rule "-D" ip) f).0 && str_eq ip j then 1 else 0)
