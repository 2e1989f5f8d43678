-- ===== src/Runtime/Engine/Rows.antt =====
-- What the parts of a step of crates/plexis-runtime/src/mission/engine.rs do to the stored mission and
-- to the set of running missions.
use axonel.Prelude.{ℕ, ◌≡◌, refl, sym, subst, ap, ◌∙◌, false, Option, some, List, ok, arith}
use axonel.Prelude.Map
use axonel.Prelude.Map.{get-insert}
use axonel.Prelude.Sets
use axonel.Prelude.Sets.{contains-remove}
use axonel.Core.Ids.{MissionId, WorkflowId, ExecutionId}
use axonel.Core.Budget.{MissionBudgetConsumed}
use axonel.Core.Mission.{Mission, MissionCycle, PlannerContext}
use axonel.Runtime.Engine.Store.{
  Store, get_mission, update_mission, create_cycle, save_checkpoint, unmark_running,
}
use axonel.Runtime.Engine.Cycle.{Env}
use axonel.Runtime.Engine.Review.{create_checkpoint}

-- Neither the missions nor the set of those that run.
pub record Unmoved {J : Type 0} (s t : Store J) : Type 0 where
  pub missions : t.missions ≡ s.missions
  pub running : t.running ≡ s.running

module _ {J : Type 0} where
  abbrev pub row : MissionId → Store J → Option (Mission J)
  row id s = Map.get s.missions id

  pub create_cycle-Unmoved : (c : MissionCycle) (s : Store J) → Unmoved s (create_cycle c s)
  unfolding create_cycle
  create_cycle-Unmoved c s = record { missions = ground arith; running = ground arith }

  pub create_checkpoint-Unmoved :
      (env : Env J) (id : MissionId) (cycle : ℕ) (w : WorkflowId) (b : MissionBudgetConsumed)
      (commit : Option _) (active : List ExecutionId) (context : PlannerContext) (s : Store J)
      → Unmoved s (create_checkpoint env id cycle w b commit active context s)
  unfolding create_checkpoint save_checkpoint
  create_checkpoint-Unmoved env id cycle w b commit active context s = record {
    missions = ground arith;
    running = ground arith;
  }

  pub Unmoved-refl : (s : Store J) → Unmoved s s
  Unmoved-refl s = record { missions = refl; running = refl }

  pub Unmoved-trans : {s t u : Store J} → Unmoved s t → Unmoved t u → Unmoved s u
  Unmoved-trans f g = record { missions = g.missions ∙ f.missions; running = g.running ∙ f.running }

  pub row-Unmoved :
      {s t : Store J} {r : Mission J} (id : MissionId)
      → Unmoved s t
      → row id s ≡ some r
      → row id t ≡ some r
  row-Unmoved id f h = ap (λ ms. Map.get ms id) f.missions ∙ h

  -- An update writes no other part of the store.
  pub running-update_mission :
      (m : Mission J) (s : Store J) → (update_mission m s).running ≡ s.running
  unfolding update_mission
  running-update_mission m s = ground arith

  pub get_mission-row :
      (id : MissionId) (m : Mission J) (s : Store J)
      → row id s ≡ some m
      → get_mission id s ≡ (s, ok m)
  unfolding get_mission
  get_mission-row id m s h = ground arith

  own_row :
      (m r : Mission J) (s : Store J)
      → row m.id s ≡ some r
      → m.created_at ≡ r.created_at
      → row m.id (update_mission m s) ≡ some m
  unfolding update_mission
  own_row m r s h same =
      let written : Mission J = record m { created_at = r.created_at } in
      ground (arith, get-insert m.id written s.missions m.id)

  -- A row keeps its time of creation.
  pub row-update_mission :
      (id : MissionId) (m r : Mission J) (s : Store J)
      → m.id ≡ id
      → row id s ≡ some r
      → m.created_at ≡ r.created_at
      → row id (update_mission m s) ≡ some m
  row-update_mission id m r s i h same =
      subst (λ j. row j (update_mission m s) ≡ some m) i
        (own_row m r s (subst (λ j. row j s ≡ some r) (sym i) h) same)

  pub unmarked :
      (id : MissionId) (s : Store J) → Sets.contains (unmark_running id s).running id ≡ false
  unfolding unmark_running
  unmarked id s = ground (arith, contains-remove id s.running id)
