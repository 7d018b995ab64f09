-- ===== src/Inventory/Freshness.antt =====
-- What the generation and the health of a snapshot say, and what an executor makes of them.
use kernmux.Prelude.{
  ◌<◌, ◌≡◌, ◌⊎◌, inl, inr, refl, sym, ◌∙◌, List, [], ◌∷◌, subst, Option, none, some, ok, err, arith,
  u64_max, some_injective,
}
use kernmux.Api.{HostSnapshot, SnapshotHealth}
use kernmux.Api.Equality.{host_snapshot_eq}
use kernmux.Executor.{KerfRunner, LifecycleExecutionError, execute, preflight}
use kernmux.Lifecycle.{LifecycleRequest}
use kernmux.Inventory.Observations.{HostObservations}
use kernmux.Inventory.Assembly.{assemble_snapshot}
use kernmux.Inventory.Service.{
  InventorySource, InventoryService, new_service, inventory_refresher, refresh, refreshed, stale_of,
}
use kernmux.Inventory.Retention.{
  Succeeds, Later, Bounded, Later-refl, Later-trans, refreshed-Later, refreshed-retained,
  refreshed-health, new_service-Bounded, SameHost, SameHost-trans, SameHost-sym,
}

module _ {W E : Type 0} (source : InventorySource W E) where
  -- The service after a refresh in each of the worlds.
  abbrev pub refresh_all : InventoryService → List W → InventoryService
  refresh_all service [] = service
  refresh_all service (w ∷ ws) = refresh_all (refresh source (service, w)).1.0 ws

  refresh-Later :
      (service : InventoryService) (w : W)
      → Bounded service.current
      → Later service.current (refresh source (service, w)).1.0.current
        × Bounded (refresh source (service, w)).1.0.current
  unfolding refresh
  refresh-Later service w h = refreshed-Later service.current (source.observe w).0 h

  refresh_all-Later :
      (service : InventoryService) (ws : List W)
      → Bounded service.current
      → Later service.current (refresh_all service ws).current
        × Bounded (refresh_all service ws).current
  refresh_all-Later service [] h = (Later-refl service.current, h)
  refresh_all-Later service (w ∷ ws) h =
      let (first, bound) = refresh-Later service w h in
      let (rest, bounded) = refresh_all-Later (refresh source (service, w)).1.0 ws bound in
      (Later-trans _ _ _ first rest, bounded)

  refresh-retained :
      (service : InventoryService) (w : W) (r : HostSnapshot)
      → (refresh source (service, w)).0 ≡ ok r
      → (t : HostSnapshot) × ((refresh source (service, w)).1.0.current ≡ some t)
        × (r.generation ≡ t.generation)
        × (SameHost r t)
  unfolding refresh
  refresh-retained service w r h = refreshed-retained service.current (source.observe w).0 r h

  -- A generation stands for one state of the host: of two snapshots that the service returns,
  -- after any refreshes before the first and between the two, whatever the source reports or
  -- fails to, the later one has a later generation, or it has the same generation and shows the same
  -- host, in every part but the free memory of its nodes; this is said of generations that can still
  -- be counted up.
  pub generation_tells :
      (ws vs : List W) (w v : W) (r t : HostSnapshot)
      → (refresh source (refresh_all new_service ws, w)).0 ≡ ok r
      → (refresh source (refresh_all (refresh source (refresh_all new_service ws, w)).1.0 vs, v)).0
        ≡ ok t
      → t.generation < u64_max
      → (r.generation < t.generation) ⊎ ((r.generation ≡ t.generation) × (SameHost r t))
  unfolding Later
  generation_tells ws vs w v r t first second counts =
      let start = refresh_all new_service ws in
      let (_, bound) = refresh_all-Later new_service ws new_service-Bounded in
      let (_, bound1) = refresh-Later start w bound in
      let (later, bound2) = refresh_all-Later (refresh source (start, w)).1.0 vs bound1 in
      let (last, _) = refresh-Later (refresh_all (refresh source (start, w)).1.0 vs) v bound2 in
      let (kept, held, same, state) = refresh-retained start w r first in
      let (kept1, held1, same1, state1) =
        refresh-retained (refresh_all (refresh source (start, w)).1.0 vs) v t second in
      let (u, held_u, follows) = Later-trans _ _ _ later last kept held in
      let e : u ≡ kept1 = some_injective (sym held_u ∙ held1) in
      elim (subst (Succeeds kept) e follows) [
        | inl up ↦ inl (omega arith)
        | inr (level, inl equal) ↦ inr (
          same ∙ level ∙ sym same1,
          SameHost-trans _ _ _ state (SameHost-trans _ _ _ equal (SameHost-sym _ _ state1)),
        )
        | inr (level, inr most) ↦ absurd (omega arith)
      ]

  -- A refresh that returns a snapshot tells how fresh it is: a healthy one is what the source
  -- reported, and is retained; any other has the state and the generation of the retained
  -- snapshot, which is kept, and the source failed.
  pub refresh-health :
      (service : InventoryService) (w : W) (r : HostSnapshot)
      → (refresh source (service, w)).0 ≡ ok r
      → ((r.health ≡ SnapshotHealth.healthy)
          × ((o : HostObservations) × ((source.observe w).0 ≡ ok o)
              × (r ≡ assemble_snapshot r.generation o))
          × ((refresh source (service, w)).1.0.current ≡ some r))
        ⊎ ((r.health ≡ SnapshotHealth.indeterminate)
            × ((e : E) × ((source.observe w).0 ≡ err e))
            × ((c : HostSnapshot) × (service.current ≡ some c)
                × ((refresh source (service, w)).1.0.current ≡ some c)
                × (r.generation ≡ c.generation)
                × (SameHost r c)))
  unfolding refresh
  refresh-health service w r h = refreshed-health service.current (source.observe w).0 r h

  preflight-unobserved :
      (request : LifecycleRequest) (c : Option HostSnapshot) (e : E)
      → (x : LifecycleExecutionError E) × (preflight request (refreshed c (err e)).0 ≡ err x)
        × ((refreshed c (err e)).1 ≡ record { current = c })
  unfolding preflight refreshed stale_of
  preflight-unobserved request none e = (LifecycleExecutionError.inventory e, refl, refl)
  preflight-unobserved request (some c) e =
      (LifecycleExecutionError.snapshot_indeterminate, refl, refl)

  -- While the host cannot be observed nothing is changed: `execute` fails without a run of Kerf,
  -- and the service keeps what it has.
  pub execute-unobserved :
      {F : Type 0} (runner : KerfRunner (InventoryService × W) F) (request : LifecycleRequest)
      (service : InventoryService) (w v : W) (e : E)
      → source.observe w ≡ (err e, v)
      → (x : LifecycleExecutionError E) × (execute runner
            (inventory_refresher source)
            request
            (service, w)
          ≡ (err x, (service, v)))
  unfolding execute refresh
  execute-unobserved runner request service w v e h =
      let (x, failed, kept) = preflight-unobserved request service.current e in
      (x, rw (h, failed, kept) refl)
