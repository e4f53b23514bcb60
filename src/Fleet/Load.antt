-- ===== src/Fleet/Load.antt =====
-- How many messages a message can bring about while the agents of backend/app/agents work it off, and what
-- it takes to add up to a bound.
use sentri_mesh_astra.Prelude.{
  ℕ, ◌+◌, ◌≤◌, String, ◌≡◌, refl, Bool, true, false, Option, none, some, List, [], ◌∷◌, ◌++◌, arith,
  if◌then◌else◌, Action, raise_if, one_or_none, and_then, ◌>>=◌, ◌>>◌, Error, Result, ok, err,
}
use sentri_mesh_astra.Bus.{Bus, Message, publish, audit}
use sentri_mesh_astra.Intake.{Intake}
use sentri_mesh_astra.Detection.{Flow}
use sentri_mesh_astra.System.{System}
use sentri_mesh_astra.Fleet.{World}

-- The message itself, and at most so many after it: an incident passes through four channels, and an action
-- is proposed, executed and looked at.
abbrev pub weight : Message → ℕ
weight (Message.raw_event _) = 14
weight (Message.normalized_event _ _ _) = 13
weight (Message.incident_new _ _ _) = 6
weight (Message.incident_enriched _ _ _) = 5
weight (Message.incident_classified _ _ _ _ _) = 4
weight (Message.action_proposed _ _ _) = 2
weight (Message.scan_requested _ _) = 7
weight (Message.dependency_scan_requested _ _) = 7
weight _ = 1

abbrev pub total : List Message → ℕ
total [] = 0
total (m ∷ ms) = weight m + total ms

pub total-append : (ms ns : List Message) → total (ms ++ ns) ≡ total ms + total ns
total-append [] ns = omega arith
total-append (m ∷ ms) ns = omega (arith, total-append ms ns)

abbrev pub bus_load : Bus → ℕ
bus_load b = total b.delivered

pub bus_load-publish :
    (actor : String) (tenant : Option ℕ) (m : Message) (now : ℕ) (b : Bus)
    → bus_load (publish actor tenant m now b) ≡ bus_load b + weight m
unfolding publish audit
bus_load-publish actor tenant m now b = omega (arith, total-append b.delivered (m ∷ []))

abbrev pub intake_load : Intake → ℕ
intake_load s = bus_load s.bus

abbrev pub flow_load : Flow → ℕ
flow_load s = bus_load s.bus

module _ {F : Type 0} where
  abbrev pub system_load : System F → ℕ
  system_load s = bus_load s.bus

  abbrev pub world_load : World F → ℕ
  world_load w = bus_load w.system.bus

-- An action that adds `k` at most, also if it raises.
abbrev pub Adds : {S A : Type 0} → (S → ℕ) → ℕ → Action S A → Type 0
Adds {S = S} load k m = (s : S) → load (m s).1 ≤ load s + k

module _ {S : Type 0} (load : S → ℕ) where
  and_then-Adds :
      {A B : Type 0} (j k c : ℕ) (f : A → Action S B) (out : Result A × S)
      → load out.1 ≤ c + j
      → ((a : A) → Adds load k (f a))
      → load (and_then f out).1 ≤ c + (j + k)
  and_then-Adds j k c f (ok a, s) h next = omega (arith, h, next a s)
  and_then-Adds j k c f (err e, s) h next = omega (arith, h)

  pub bind-Adds :
      {A B : Type 0} (j k : ℕ) (m : Action S A) (f : A → Action S B)
      → Adds load j m
      → ((a : A) → Adds load k (f a))
      → Adds load (j + k) (m >>= f)
  bind-Adds j k m f first_part next s = and_then-Adds j k (load s) f (m s) (first_part s) next

  -- What reads or raises adds nothing.
  pub still-Adds : {A : Type 0} (k : ℕ) (m : Action S A) → ((s : S) → (m s).1 ≡ s) → Adds load k m
  still-Adds k m same s = rw (same s) (omega arith)

  pub raise_if-Adds :
      {A : Type 0} (k : ℕ) (b : Bool) (e : Error) (m : Action S A)
      → (b ≡ false → Adds load k m)
      → Adds load k (raise_if b e >> m)
  raise_if-Adds k true e m next s = omega arith
  raise_if-Adds k false e m next s = next refl s

  pub if-Adds :
      {A : Type 0} (k : ℕ) (b : Bool) (m n : Action S A)
      → (b ≡ true → Adds load k m)
      → (b ≡ false → Adds load k n)
      → Adds load k (if b then m else n)
  if-Adds k true m n yes_case no_case = yes_case refl
  if-Adds k false m n yes_case no_case = no_case refl

  pub Adds-le : {A : Type 0} (j k : ℕ) (m : Action S A) → Adds load j m → j ≤ k → Adds load k m
  Adds-le j k m h le s = omega (arith, h s, le)

  pub one_or_none-Adds :
      {A B : Type 0} (k : ℕ) (rows : List A) (f : Option A → Action S B)
      → ((o : Option A) → Adds load k (f o))
      → Adds load k (one_or_none rows >>= f)
  one_or_none-Adds k [] f next s = next none s
  one_or_none-Adds k (a ∷ []) f next s = next (some a) s
  one_or_none-Adds k (a ∷ b ∷ rest) f next s = omega arith
