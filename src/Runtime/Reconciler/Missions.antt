-- ===== src/Runtime/Reconciler/Missions.antt =====
-- The missions that `reconcile_startup` of crates/plexis-runtime/src/reconciler.rs finds in the middle
-- of an integration.
use axonel.Prelude.{
  ◌≡◌, refl, sym, ap, ◌∙◌, subst, Bool, true, false, not, List, [], ◌∷◌, arith, Bool-cases, inl,
  inr, Has, if◌then◌else◌, ite,
}
use axonel.Prelude.Rows.{update_row, sweep, sweep-spares, all_in, all_in-of_Has}
use axonel.Core.Ids.{Instant}
use axonel.Core.State.Mission.{MissionState, MissionState-discrete}
use axonel.Core.Mission.{Mission}
use axonel.Storage.Work.{Work, update_mission, append_event, mission_key}
use axonel.Runtime.Engine.Store.{Json}
use axonel.Runtime.Reconciler.{Pass, Reconciler}
use axonel.Runtime.Reconciler.Startup.{
  Repository, is_integrated, resolved, resolve_integration, reconcile_mission, reconcile_missions,
  restart_missions,
}

abbrev pub is_integrating : {J : Type 0} → Mission J → Bool
is_integrating m = ite (MissionState-discrete m.state MissionState.integrating) true false

module _ {J : Type 0} (json : Json J) (git : Repository) (r : Reconciler) (now : Instant) where
  -- What `resolve_integration` writes over the row of a mission.
  rewritten : Work J → Mission J → Mission J → Mission J
  unfolding resolved
  rewritten w m row = record (resolved json git now (is_integrated json git r w m) m) {
    id = row.id;
    created_at = row.created_at;
  }

  reconcile_mission_missions :
      (m : Mission J) (p : Pass J)
      → (reconcile_mission json git r now m p).work.missions ≡ (
          if is_integrating m
          then update_row mission_key m.id (rewritten p.work m) p.work.missions
          else p.work.missions)
  unfolding reconcile_mission resolve_integration update_mission append_event rewritten resolved
  reconcile_mission_missions m p = ground arith

  reconcile_mission_workspaces :
      (m : Mission J) (p : Pass J)
      → (reconcile_mission json git r now m p).work.workspaces ≡ p.work.workspaces
  unfolding reconcile_mission resolve_integration update_mission append_event
  reconcile_mission_workspaces m p = ground arith

  rewritten_workspaces :
      (s w : Work J) (m : Mission J) → w.workspaces ≡ s.workspaces → rewritten w m ≡ rewritten s m
  unfolding rewritten is_integrated
  rewritten_workspaces s w m e = rw e refl

  reconcile_missions-sweep :
      (s : Work J) (ms : List (Mission J)) (p : Pass J)
      → p.work.workspaces ≡ s.workspaces
      → (reconcile_missions json git r now ms p).work.missions
        ≡ sweep mission_key is_integrating (rewritten s) ms p.work.missions
  unfolding reconcile_missions sweep
  reconcile_missions-sweep s [] p e = refl
  reconcile_missions-sweep s (m ∷ ms) p e =
      rw
        (
          reconcile_missions-sweep s ms (reconcile_mission json git r now m p)
              (reconcile_mission_workspaces m p ∙ e),
          reconcile_mission_missions m p,
          rewritten_workspaces s p.work m e,
        )
        refl

  rewritten_ends : (w : Work J) (m row : Mission J) → is_integrating (rewritten w m row) ≡ false
  unfolding rewritten resolved
  rewritten_ends w m row = ground arith

  -- With a store of missions, no mission is left in the middle of an integration.
  pub restart_missions_resolves :
      (p : Pass J)
      → r.mission_store ≡ true
      → all_in (λ m. not (is_integrating m)) (restart_missions json git r now p).work.missions
        ≡ true
  unfolding restart_missions
  restart_missions_resolves p on =
      let q = reconcile_missions json git r now p.work.missions p in
      subst (λ (x : Pass J). all_in (λ m. not (is_integrating m)) x.work.missions ≡ true)
        (sym (ap (λ b. if b then q else p) on))
        (all_in-of_Has (λ m. not (is_integrating m)) q.work.missions
          (λ m i. elim (Bool-cases (is_integrating m)) [
            | inr e ↦ ap not e
            | inl e ↦
                let (old, spared) =
                  sweep-spares mission_key is_integrating is_integrating (rewritten p.work)
                    (λ c a b. rewritten_ends p.work c a) p.work.missions p.work.missions m
                    (subst (λ l. Has m l) (reconcile_missions-sweep p.work p.work.missions p refl)
                      i)
                    e in
                absurd (ground (arith, spared m old refl))
          ]))
