-- ===== src/Fleet/Outcome.antt =====
-- What the agents of backend/app/agents owe an incident: a proposal for it, or a message that will lead to one.
pub mod Kept
pub mod Clear
pub mod Passed
pub mod Moved
pub mod Proposed
pub mod Received
pub mod Cleared
pub mod Answered
use sentri_mesh_astra.Prelude.{
  ℕ, ◌<◌, String, ◌≡◌, Bool, true, false, not, ◌&&◌, Option, none, some, List, [], ◌∷◌, ◌++◌,
  str_eq, ◌==◌, is_some, any, All, update_first,
}
use sentri_mesh_astra.Json.{Value, Fields, text, get, get_or, num, truthy}
use sentri_mesh_astra.Pipeline.{count_of}
use sentri_mesh_astra.Models.{ActionProposal}
use sentri_mesh_astra.Bus.{Message}
use sentri_mesh_astra.System.{System, incident_is, proposal_is}
use sentri_mesh_astra.Executor.{ExecutionResult}
use sentri_mesh_astra.Response.{mark_executed}
use sentri_mesh_astra.Fleet.{World}
use sentri_mesh_astra.Fleet.Lasting.{IsUnique, is_event}

abbrev pub is_for : ℕ → ActionProposal → Bool
is_for k p = p.incident_id == k

-- An address that the threat intelligence agent can look up, or none.
abbrev pub is_readable : Value → Bool
is_readable (text _) = true
is_readable v = not (truthy v)

abbrev pub names_action : Option String → Bool
names_action none = false
names_action (some a) = not (str_eq a "")

-- A context whose count of failed logins, where it has one, can be compared.
abbrev pub is_countable : Fields → Bool
is_countable context = is_some (count_of (get_or "failed_login_count" (num 0) context))

-- A message about incident `k` that an agent answers.
abbrev pub is_about : ℕ → Message → Bool
is_about k (Message.incident_new t j c) = j == k && is_readable (get "src_ip" c)
is_about k (Message.incident_enriched t j c) = j == k && is_countable c
is_about k (Message.incident_classified t j sev a c) = j == k && names_action a
is_about k _ = false

-- Proposals have ids below the next fresh one.
abbrev pub HasFreshIds : ℕ → List ActionProposal → Type 0
HasFreshIds n ps = All (λ p. p.id < n) ps

-- What goes on to hold of messages and proposals while messages other than events are published, proposals
-- are added, and proposals are marked as executed.
pub record IsGrowing (Q : List Message → List ActionProposal → Type 0) : Type 0 where
  pub published :
      (ms : List Message) (m : Message) (ps : List ActionProposal)
      → is_event m ≡ false
      → Q ms ps
      → Q (ms ++ m ∷ []) ps
  pub proposed :
      (ms : List Message) (ps : List ActionProposal) (p : ActionProposal)
      → Q ms ps
      → Q ms (ps ++ p ∷ [])
  pub marked :
      (ms : List Message) (ps : List ActionProposal) (j : ℕ) (r : ExecutionResult) (now : ℕ)
      → Q ms ps
      → Q ms (update_first (proposal_is j) (mark_executed r now) ps)

module _ {F : Type 0} (k : ℕ) (Q : List Message → List ActionProposal → Type 0) where
  abbrev pub SystemHolds : ℕ → System F → Type 0
  SystemHolds n s =
      (any (incident_is k) s.incidents ≡ true)
      × HasFreshIds n s.proposals
      × Q s.bus.delivered s.proposals

  abbrev pub Holds : World F → Type 0
  Holds w = SystemHolds w.next_id w.system × IsUnique w.indicators
