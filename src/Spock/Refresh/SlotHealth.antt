-- ===== src/Spock/Refresh/SlotHealth.antt =====
-- `checkSlotHealth` (internal/spock/refresh.go): which statuses it changes.
use mathlib.Core.List.{Memᴰ}
use pgedge_helm.Base.{
  ◌≡◌, ◌⊎◌, refl, sym, subst, Bool, true, false, ◌&&◌, ◌||◌, [], ◌∷◌, none, if◌then◌else◌, ◌==◌,
  ==_iff, arith, Bool-cases, inl, inr,
}
use pgedge_helm.Base.Text.{text_key, byte_eq}
use pgedge_helm.Base.Maps.{lookup}
use pgedge_helm.Resource.{Identifier, identifier_key, Status}
use pgedge_helm.Spock.Names.{spock_slot_name}
use pgedge_helm.Spock.Types.{
  Address, ident, resource_type_replication_slot, resource_type_subscription,
}
use pgedge_helm.Spock.Subscription
use pgedge_helm.Spock.Subscription.{Subscription}
use pgedge_helm.Spock.Object.{Body, subscription, Object}
use pgedge_helm.Spock.World.{Driver, World}
use pgedge_helm.Spock.Methods.{with_status}
use pgedge_helm.Spock.Refresh.{
  Actual, lost_status, subscription_of, slot_missing, check_entries, check_slot_health,
}

-- The object at this address is a subscription of the map, and the slot of its pair of nodes is not in
-- the map.
pub record LacksSlot (actual : Actual) (a : Address) : Type 0 where
  pub id : Identifier
  pub sub : Subscription
  pub held : Memᴰ (id, record { address = a; body = subscription sub }) actual
  pub is_sub : id.type ≡ resource_type_subscription
  pub no_slot :
      lookup
        (ident resource_type_replication_slot
          (spock_slot_name sub.db_name sub.src.name sub.dst.name))
        actual
      ≡ none

-- The status of a resource that is there and has to be made again.
pub record AsksRecreation (status : Status) : Type 0 where
  pub exists : status.exists ≡ true
  pub needs_recreate : status.needs_recreate ≡ true

lost_status-AsksRecreation : AsksRecreation lost_status
lost_status-AsksRecreation = record { exists = refl; needs_recreate = refl }

missing_slot :
    (actual : Actual) (id : Identifier) (a : Address) (b : Body)
    → slot_missing actual id (record { address = a; body = b }) ≡ true
    → (s : Subscription) × (b ≡ subscription s)
      × (id.type ≡ resource_type_subscription)
      × (lookup
            (ident resource_type_replication_slot (spock_slot_name s.db_name s.src.name s.dst.name))
            actual
          ≡ none)
unfolding slot_missing subscription_of Subscription.replication_slot_name
missing_slot actual id a (subscription s) h =
    elim (Bool-cases (id.type == resource_type_subscription)) [
      | inl same ↦ (s, refl, (==_iff id.type resource_type_subscription).0 same, ground arith)
      | inr other ↦ absurd (ground arith)
    ]
missing_slot actual id a _ h = absurd (ground arith)

slot_missing_at :
    (actual : Actual) (a : Address) (l : LacksSlot actual a)
    → slot_missing actual l.id (record { address = a; body = subscription l.sub }) ≡ true
unfolding slot_missing subscription_of Subscription.replication_slot_name
slot_missing_at actual a l =
    let is_sub = (==_iff l.id.type resource_type_subscription).1 l.is_sub in
    let no_slot = l.no_slot in ground arith

-- The same as a test, over some entries of the map.
abbrev lacks_slot : Actual → Actual → Address → Bool
lacks_slot actual [] a = false
lacks_slot actual ((id, o) ∷ m) a =
    (slot_missing actual id o && byte_eq a o.address) || lacks_slot actual m a

lacks_slot-LacksSlot :
    (actual m : Actual) (a : Address)
    → ((e : Identifier × Object) → Memᴰ e m → Memᴰ e actual)
    → lacks_slot actual m a ≡ true
    → LacksSlot actual a
lacks_slot-LacksSlot actual [] a among h = absurd (ground arith)
lacks_slot-LacksSlot actual ((id, o) ∷ m) a among h =
    elim (Bool-cases (slot_missing actual id o && byte_eq a o.address)) [
      | inr away ↦ lacks_slot-LacksSlot actual m a (λ e k. among e (Memᴰ.tail k)) (ground arith)
      | inl here ↦
          let (s, is_body, is_sub, no_slot) =
            missing_slot actual id o.address o.body (ground arith) in
          let at : o.address ≡ a = ground arith in
          let with_body : Memᴰ (id, record { address = o.address; body = subscription s }) actual =
            subst (λ b. Memᴰ (id, record { address = o.address; body = b }) actual) is_body
              (among (id, o) (Memᴰ.head refl)) in
          record {
            id = id;
            sub = s;
            held =
                subst (λ x. Memᴰ (id, record { address = x; body = subscription s }) actual) at
                  with_body;
            is_sub = is_sub;
            no_slot = no_slot;
          }
    ]

LacksSlot-lacks_slot :
    (actual m : Actual) (a : Address) (l : LacksSlot actual a)
    → Memᴰ (l.id, record { address = a; body = subscription l.sub }) m
    → lacks_slot actual m a ≡ true
LacksSlot-lacks_slot actual [] a l e = elim e [ ]
LacksSlot-lacks_slot actual ((id, o) ∷ m) a l (Memᴰ.head e) =
    let here : (slot_missing actual id o && byte_eq a o.address) ≡ true =
      subst (λ x. (slot_missing actual x.0 x.1 && byte_eq a x.1.address) ≡ true) e
        (ground (arith, slot_missing_at actual a l)) in
    ground arith
LacksSlot-lacks_slot actual ((id, o) ∷ m) a l (Memᴰ.tail e) =
    ground (arith, LacksSlot-lacks_slot actual m a l e)

module _ {D : Type 0} (driver : Driver D) where
  check_entries_lem :
      (actual m : Actual) (w : World D) (a : Address)
      → (check_entries driver actual m w).status a
        ≡ (if lacks_slot actual m a then lost_status else w.status a)
  unfolding check_entries
  check_entries_lem actual [] w a = refl
  check_entries_lem actual ((id, o) ∷ m) w a = elim (Bool-cases (slot_missing actual id o)) [
    | inl lost ↦
        ground (arith, check_entries_lem actual m (with_status driver o.address lost_status w) a)
    | inr fine ↦ ground (arith, check_entries_lem actual m w a)
  ]

  check_entries_databases :
      (actual m : Actual) (w : World D) → (check_entries driver actual m w).databases ≡ w.databases
  unfolding check_entries
  check_entries_databases actual [] w = refl
  check_entries_databases actual ((id, o) ∷ m) w = elim (Bool-cases (slot_missing actual id o)) [
    | inl lost ↦
        ground
          (arith, check_entries_databases actual m (with_status driver o.address lost_status w))
    | inr fine ↦ ground (arith, check_entries_databases actual m w)
  ]

  -- After `checkSlotHealth`, an object has a status that says that it exists and has to be recreated,
  -- if it is a subscription of the map and the slot of its pair of nodes is not in the map. If it is
  -- not, it has the status that it had. The databases are as they were.
  pub check_slot_health_lem :
      (actual : Actual) (w : World D) (a : Address)
      → ((LacksSlot actual a × AsksRecreation ((check_slot_health driver actual w).status a))
          ⊎ ((LacksSlot actual a → ⊥)
              × ((check_slot_health driver actual w).status a ≡ w.status a)))
        × ((check_slot_health driver actual w).databases ≡ w.databases)
  unfolding check_slot_health
  check_slot_health_lem actual w a =
      let after = check_entries_lem actual actual w a in
      (
        elim (Bool-cases (lacks_slot actual actual a)) [
          | inl lacks ↦
              let p : (check_slot_health driver actual w).status a ≡ lost_status = ground arith in
              inl (
                lacks_slot-LacksSlot actual actual a (λ e m. m) lacks,
                subst AsksRecreation (sym p) lost_status-AsksRecreation,
              )
          | inr whole ↦ inr (
            λ l. let lacks = LacksSlot-lacks_slot actual actual a l l.held in absurd (ground arith),
            ground arith,
          )
        ],
        check_entries_databases actual actual w,
      )
