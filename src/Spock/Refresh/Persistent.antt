-- ===== src/Spock/Refresh/Persistent.antt =====
-- `RefreshActual` (internal/spock/refresh.go): what of the desired resources enters the actual map.
use pgedge_helm.Base.{
  ◌≡◌, refl, ap, sym, ◌∙◌, Bool, true, false, [], ◌∷◌, Option, none, All, ==_iff, ==_refl, subst,
  elem, arith, Option-cases, inl, inr, Nodup, if◌then◌else◌,
}
use pgedge_helm.Base.Maps.{Map, keys, contains, insert, lookup-insert}
use pgedge_helm.Base.Text.{byte_eq}
use pgedge_helm.Resource.{Identifier, identifier_key, Error}
use pgedge_helm.Spock.Object.{
  Body, user, node, slot, subscription, slot_create, disabled_subscription, sync_event,
  wait_for_sync_event, peer_catchup, lag_tracker, slot_advance, origin_advance, Object,
}
use mathlib.Core.Bool.{false≢true}
use pgedge_helm.Spock.Types.{Address}
use pgedge_helm.Spock.World.{Driver, World}
use pgedge_helm.Spock.Methods.{
  refresh_body, refresh_user, refresh_node, refresh_slot, refresh_subscription, refresh_ephemeral,
}
use pgedge_helm.Spock.Refresh.{Actual, refresh_desired}

-- The resources of a populate run.
abbrev pub is_ephemeral : Body → Bool
is_ephemeral (user _) = false
is_ephemeral (node _) = false
is_ephemeral (slot _) = false
is_ephemeral (subscription _) = false
is_ephemeral _ = true

abbrev pub IsApart : Address → Map Identifier Object → Type 0
IsApart a = All (λ e. byte_eq a e.1.address ≡ false)

-- No two entries share an object.
abbrev pub AreApart : Map Identifier Object → Type 0
AreApart [] = Unit
AreApart ((id, o) ∷ m) = IsApart o.address m × AreApart m

module _ {D : Type 0} (driver : Driver D) where
  module _ (a b : Address) (other : byte_eq b a ≡ false) where
    -- A refresh touches the status of its object alone.
    abbrev Keeps : World D → Option Error × World D → Type 0
    Keeps w r = r.1.status b ≡ w.status b

    refresh_body_frame : (body : Body) (w : World D) → Keeps w (refresh_body driver a body w)
    unfolding refresh_body refresh_user refresh_node refresh_slot refresh_subscription
        refresh_ephemeral
    refresh_body_frame (user u) w = ground arith
    refresh_body_frame (node n) w = ground arith
    refresh_body_frame (slot r) w = ground arith
    refresh_body_frame (subscription s) w = ground arith
    refresh_body_frame (slot_create _) w = ground arith
    refresh_body_frame (disabled_subscription _) w = ground arith
    refresh_body_frame (sync_event _) w = ground arith
    refresh_body_frame (wait_for_sync_event _) w = ground arith
    refresh_body_frame (peer_catchup _) w = ground arith
    refresh_body_frame (lag_tracker _) w = ground arith
    refresh_body_frame (slot_advance _) w = ground arith
    refresh_body_frame (origin_advance _) w = ground arith

  refresh_body-ephemeral :
      (a : Address) (body : Body) (w : World D)
      → is_ephemeral body ≡ true
      → ((refresh_body driver a body w).1.status a).exists ≡ false
  unfolding refresh_body refresh_ephemeral
  refresh_body-ephemeral a (user u) w h = absurd (false≢true h)
  refresh_body-ephemeral a (node n) w h = absurd (false≢true h)
  refresh_body-ephemeral a (slot r) w h = absurd (false≢true h)
  refresh_body-ephemeral a (subscription s) w h = absurd (false≢true h)
  refresh_body-ephemeral a (slot_create _) w h = ground arith
  refresh_body-ephemeral a (disabled_subscription _) w h = ground arith
  refresh_body-ephemeral a (sync_event _) w h = ground arith
  refresh_body-ephemeral a (wait_for_sync_event _) w h = ground arith
  refresh_body-ephemeral a (peer_catchup _) w h = ground arith
  refresh_body-ephemeral a (lag_tracker _) w h = ground arith
  refresh_body-ephemeral a (slot_advance _) w h = ground arith
  refresh_body-ephemeral a (origin_advance _) w h = ground arith

  -- The world and the map behind the first entry of the loop.
  abbrev after : Object → World D → World D
  after o w = (refresh_body driver o.address o.body w).1

  abbrev joined : Identifier → Object → Actual → World D → Actual
  joined id o actual w =
      if ((after o w).status o.address).exists then insert id o actual else actual

  refresh_desired_frame :
      (m : Map Identifier Object) (actual : Actual) (w : World D) (a : Address)
      → IsApart a m
      → (refresh_desired driver m actual w).2.status a ≡ w.status a
  unfolding refresh_desired
  refresh_desired_frame [] actual w a h = refl
  refresh_desired_frame ((id, o) ∷ m) actual w a h = ground (
    arith,
    refresh_desired_frame m (joined id o actual w) (after o w) a h.1,
    refresh_body_frame o.address a h.0 o.body w,
  )

  refresh_desired-contains :
      (m : Map Identifier Object) (actual : Actual) (w : World D) (k : Identifier)
      → elem k (keys m) ≡ false
      → contains k (refresh_desired driver m actual w).1 ≡ contains k actual
  unfolding refresh_desired
  refresh_desired-contains [] actual w k h = refl
  refresh_desired-contains ((id, o) ∷ m) actual w k h = ground (
    arith,
    refresh_desired-contains m (joined id o actual w) (after o w) k (ground arith),
    lookup-insert k id o actual,
  )

  -- An entry is in the map that results exactly when its object exists, and a resource of a
  -- populate run is not.
  abbrev pub IsRefreshed : Actual → World D → Identifier × Object → Type 0
  IsRefreshed actual w (id, o) =
      (contains id actual ≡ (w.status o.address).exists)
      × (is_ephemeral o.body ≡ true → contains id actual ≡ false)

  still_fresh :
      (m : Map Identifier Object) (id : Identifier) (o : Object) (actual : Actual) (w : World D)
      → elem id (keys m) ≡ false
      → All (λ e. contains e.0 actual ≡ false) m
      → All (λ e. contains e.0 (joined id o actual w) ≡ false) m
  still_fresh [] id o actual w n fresh = tt
  still_fresh ((k, p) ∷ m) id o actual w n fresh = (
    ground (arith, lookup-insert k id o actual, ==_iff k id, ==_iff id k),
    still_fresh m id o actual w (ground arith) fresh.1,
  )

  joined-IsRefreshed :
      (id : Identifier) (o : Object) (actual : Actual) (w : World D)
      → contains id actual ≡ false
      → IsRefreshed (joined id o actual w) (after o w) (id, o)
  joined-IsRefreshed id o actual w fresh = (
    ground (arith, lookup-insert id id o actual, ==_refl id),
    λ h. ground (arith, refresh_body-ephemeral o.address o.body w h),
  )

  loop-IsRefreshed :
      (m : Map Identifier Object) (actual : Actual) (w : World D)
      → Nodup (keys m)
      → AreApart m
      → All (λ e. contains e.0 actual ≡ false) m
      → (refresh_desired driver m actual w).0 ≡ none
      → All
          (IsRefreshed (refresh_desired driver m actual w).1 (refresh_desired driver m actual w).2)
          m
  unfolding refresh_desired
  loop-IsRefreshed [] actual w n a fresh fine = tt
  loop-IsRefreshed ((id, o) ∷ m) actual w n a fresh fine =
      elim (Option-cases (refresh_body driver o.address o.body w).0) [
        | inl ok ↦
            let next : refresh_desired driver ((id, o) ∷ m) actual w
                ≡ refresh_desired driver m (joined id o actual w) (after o w) =
              rw (ok, refresh_desired) refl in
            subst (λ r. All (IsRefreshed r.1 r.2) ((id, o) ∷ m)) (sym next)
              (
                ground (
                  arith,
                  refresh_desired-contains m (joined id o actual w) (after o w) id n.0,
                  refresh_desired_frame m (joined id o actual w) (after o w) o.address a.0,
                  joined-IsRefreshed id o actual w fresh.0,
                ),
                loop-IsRefreshed m (joined id o actual w) (after o w) n.1 a.1
                    (still_fresh m id o actual w n.0 fresh.1) (sym (ap (λ r. r.0) next) ∙ fine),
              )
        | inr (e, bad) ↦ absurd (ground arith)
      ]

  nothing_yet : (m : Map Identifier Object) → All (λ e. contains {V = Object} e.0 [] ≡ false) m
  nothing_yet [] = tt
  nothing_yet (e ∷ m) = (refl, nothing_yet m)

  -- When the loop of `RefreshActual` over the desired resources succeeds, where no two of them
  -- share an identifier or an object: the map that results has the identifiers of the resources
  -- whose status says that they exist, and none of a resource of a populate run.
  pub refresh_desired-IsRefreshed :
      (desired : Map Identifier Object) (w : World D)
      → Nodup (keys desired)
      → AreApart desired
      → (refresh_desired driver desired [] w).0 ≡ none
      → All
          (IsRefreshed
            (refresh_desired driver desired [] w).1
            (refresh_desired driver desired [] w).2)
          desired
  refresh_desired-IsRefreshed desired w n a fine =
      loop-IsRefreshed desired [] w n a (nothing_yet desired) fine
