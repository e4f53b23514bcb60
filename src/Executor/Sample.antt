-- ===== src/Executor/Sample.antt =====
-- A concrete host for backend/app/connectors/executor.py: the firewall is the list of the addresses
-- that its managed rules drop. It behaves as `iptables` is documented to.
use sentri_mesh_astra.Prelude.{
  ℕ, ◌+◌, ◌-◌, String, ◌≡◌, refl, ◌≢◌, not, ◌&&◌, Option, none, some, List, [], ◌∷◌, arith, str_eq,
  eq_iff, ltb, ◌==◌, if◌then◌else◌,
}
use sentri_mesh_astra.Executor.{Host, Process, exited, not_started, rule}
use sentri_mesh_astra.Executor.Iptables.{Documented, exit_zero}

abbrev pub count : String → List String → ℕ
count ip [] = 0
count ip (j ∷ f) = (if str_eq ip j then 1 else 0) + count ip f

abbrev pub remove_one : String → List String → List String
remove_one ip [] = []
remove_one ip (j ∷ f) = if str_eq ip j then f else j ∷ remove_one ip f

abbrev pub command_on : String → String → List String → Process × List String
command_on command ip f =
    if str_eq command "-I"
    then (exited 0 "", ip ∷ f)
    else if str_eq command "-D"
    then (exited (if count ip f == 0 then 1 else 0) "", remove_one ip f)
    else (exited (if count ip f == 0 then 1 else 0) "", f)

abbrev pub run_list : List String → List String → Process × List String
run_list (program ∷ command ∷ chain ∷ source ∷ ip ∷ rest) f = command_on command ip f
run_list _ f = (not_started, f)

abbrev pub some_text : String → Option String
some_text s = if str_eq s "" then none else some s

abbrev pub sample_host : Host
sample_host = record {
  Firewall = List String;
  run = run_list;
  parse_ip = some_text;
  repr = λ v. "";
}

count-remove_one :
    (ip j : String) (f : List String)
    → count j (remove_one ip f)
      ≡ count j f - (if not (count ip f == 0) && str_eq ip j then 1 else 0)
count-remove_one ip j [] = ground arith
count-remove_one ip j (k ∷ f) =
    ground (arith, count-remove_one ip j f, eq_iff ip k, eq_iff j k, eq_iff ip j)

pub delete_removes_list :
    (ip j : String) (f : List String)
    → count j (run_list (rule "-D" ip) f).1
      ≡ count j f - (if exit_zero (run_list (rule "-D" ip) f).0 && str_eq ip j then 1 else 0)
delete_removes_list ip j f = ground (arith, count-remove_one ip j f)

pub insert_adds_list :
    (ip j : String) (f : List String)
    → count j (run_list (rule "-I" ip) f).1
      ≡ count j f + (if exit_zero (run_list (rule "-I" ip) f).0 && str_eq ip j then 1 else 0)
insert_adds_list ip j f = ground (arith, eq_iff ip j, eq_iff j ip)

pub check_tells_list :
    (ip : String) (f : List String)
    → (run_list (rule "-C" ip) f).0 ≢ not_started
    → exit_zero (run_list (rule "-C" ip) f).0 ≡ ltb 0 (count ip f)
check_tells_list ip f h = ground arith

abbrev pub sample_documented : Documented sample_host
sample_documented = record {
  rules = count;
  check_keeps = λ ip j f. refl;
  check_tells = check_tells_list;
  insert_adds = insert_adds_list;
  delete_removes = delete_removes_list;
}
