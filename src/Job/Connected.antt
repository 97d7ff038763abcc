-- ===== src/Job/Connected.antt =====
-- The loop over the nodes in `run` (cmd/init-spock/main.go): who is connected behind it.
use pgedge_helm.Base.{
  ℕ, List, [], ◌∷◌, Option, some, none, true, ◌≡◌, refl, subst, arith, inl, inr, ◌⊎◌, All, ==_refl,
}
use pgedge_helm.Base.Maps.{contains, insert, lookup-insert}
use pgedge_helm.Base.Text.{Text, text_key}
use pgedge_helm.Config.{Node, Config}
use pgedge_helm.Resource.{Error}
use pgedge_helm.Io.{Result, ok, err, Result-cases, Waited, came_up, gave_up}
use pgedge_helm.Connections.{wait_ready, connect_pool}
use pgedge_helm.Spock.Desired.{Conns}
use pgedge_helm.Job.{Outside, connect_nodes}
use pgedge_helm.Job.Keeps.{Keeps, wait_ready-keeps, connect_pool-keeps}

pub wait-cases :
    {S : Type 0} (r : Option (Waited × S))
    → (r ≡ none)
      ⊎ ((s : S) × (r ≡ some (came_up, s)))
      ⊎ ((e : Error) × (s : S) × (r ≡ some (gave_up e, s)))
wait-cases none = inl refl
wait-cases (some (came_up, s)) = inr (inl (s, refl))
wait-cases (some (gave_up e, s)) = inr (inr (e, s, refl))

module _ {D : Type 0} (outside : Outside D) (fuel : ℕ) (cfg : Config) where
  -- An entry that is there stays.
  abbrev Grows : Conns → Result Conns → Type 0
  Grows conns (err e) = Unit
  Grows conns (ok made) = (name : Text) → contains name conns ≡ true → contains name made ≡ true

  abbrev pub HasPools : List Node → Result Conns → Type 0
  HasPools ns (err e) = Unit
  HasPools ns (ok made) = All (λ n. contains n.name made ≡ true) ns

  HasPools-cons :
      (n : Node) (ns : List Node) (conns : Conns) (pool : ℕ) (result : Result Conns)
      → Grows (insert n.name pool conns) result
      → HasPools ns result
      → Grows conns result × HasPools (n ∷ ns) result
  HasPools-cons n ns conns pool (err e) g h = (tt, tt)
  HasPools-cons n ns conns pool (ok made) g h = (
    λ name c. g name (ground (arith, lookup-insert name n.name pool conns)),
    (g n.name (ground (arith, lookup-insert n.name n.name pool conns, ==_refl n.name)), h),
  )

  module _ (P : D → Type 0) (keeps : Keeps outside P) where
    -- The loop keeps what waiting and connecting keep. Where it ends well, each node has a pool.
    pub connect_nodes_lem :
        (ns : List Node) (conns : Conns) (opened : List ℕ) (d : D)
        → P d
        → (result : Result Conns) (pools : List ℕ) (after : D)
        → connect_nodes outside fuel cfg ns conns opened d ≡ some (result, pools, after)
        → P after × Grows conns result × HasPools ns result
    unfolding connect_nodes
    connect_nodes_lem [] conns opened d h result pools after e =
        let p : d ≡ after = ground arith in
        let q : ok conns ≡ result = ground arith in
        (subst P p h, subst (λ r. Grows conns r) q (λ name c. c), subst (λ r. HasPools [] r) q tt)
    connect_nodes_lem (n ∷ ns) conns opened d h result pools after e =
        let waited =
          wait_ready outside.pgx fuel n.hostname n.internal_hostname cfg.db_name cfg.admin_user d in
        let kept =
          wait_ready-keeps outside P keeps fuel n.hostname n.internal_hostname cfg.db_name
            cfg.admin_user d h in
        elim (wait-cases waited) [
          | inl out ↦ absurd (ground arith)
          | inr (inr (x, d1, late)) ↦
              let p : d1 ≡ after = ground arith in
              let q : err x ≡ result = ground arith in
              (
                subst P p (kept (gave_up x) d1 late),
                subst (λ r. Grows conns r) q tt,
                subst (λ r. HasPools (n ∷ ns) r) q tt,
              )
          | inr (inl (d1, ready)) ↦
              let r =
                connect_pool outside.pgx n.hostname n.internal_hostname cfg.db_name cfg.admin_user
                  d1 in
              let pooled =
                connect_pool-keeps outside P keeps.calls n.hostname n.internal_hostname cfg.db_name
                  cfg.admin_user d1 (kept came_up d1 ready) in
              elim (Result-cases r.0) [
                | inr (x, refused) ↦
                    let p : r.1 ≡ after = ground arith in
                    let q : err x ≡ result = ground arith in
                    (
                      subst P p pooled,
                      subst (λ r. Grows conns r) q tt,
                      subst (λ r. HasPools (n ∷ ns) r) q tt,
                    )
                | inl (pool, made) ↦
                    let (k, g, l) =
                      connect_nodes_lem ns (insert n.name pool conns) (pool ∷ opened) r.1 pooled
                        result pools after (ground arith) in
                    let both = HasPools-cons n ns conns pool result g l in (k, both.0, both.1)
              ]
        ]
