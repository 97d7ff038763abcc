-- ===== src/Spock/Desired/Rank.antt =====
-- A rank for the identifiers of internal/spock/desired.go, where one node `n` is filled from `s`.
use pgedge_helm.Base.{
  ℕ, ◌≤◌, ◌≡◌, ◌≢◌, refl, sym, ◌∙◌, true, false, List, [], ◌∷◌, map, elem, ◌==◌, ==_iff, ==_refl,
  if◌then◌else◌, arith, Bool-cases, inl, inr, ap,
}
use mathlib.Core.Bool.{false≢true}
use pgedge_helm.Base.Text.{Text, text_key, text_eq}
use pgedge_helm.Resource.{Identifier}
use pgedge_helm.Spock.Names.{pair_id, spock_sub_name}
use pgedge_helm.Spock.Types.{
  resource_type_user, resource_type_node, resource_type_replication_slot,
  resource_type_subscription, resource_type_replication_slot_create, resource_type_sync_event,
  resource_type_wait_for_sync_event, resource_type_lag_tracker_commit_ts,
  resource_type_replication_slot_advance_from_cts, resource_type_disabled_subscription,
  resource_type_peer_catchup,
}

-- No two pairs of names make one subscription name, or one identifier.
pub record IsUnambiguous (names : List Text) : Type 0 where
  pub sub_name_inj :
      (a b c d : Text)
      → elem a names ≡ true
      → elem b names ≡ true
      → elem c names ≡ true
      → elem d names ≡ true
      → spock_sub_name a b ≡ spock_sub_name c d
      → (a ≡ c) × (b ≡ d)
  pub pair_id_inj :
      (a b c d : Text)
      → elem a names ≡ true
      → elem b names ≡ true
      → elem c names ≡ true
      → elem d names ≡ true
      → pair_id a b ≡ pair_id c d
      → (a ≡ c) × (b ≡ d)

module _ (names : List Text) (n s : Text) where
  unfoldable pub sub_rank : Text → ℕ
  sub_rank id =
      if id == spock_sub_name s n
      then 6
      else if elem id (map (λ p. spock_sub_name p n) names)
      then 12
      else if elem id (map (λ p. spock_sub_name n p) names)
      then 9
      else 3

  unfoldable pub rank : Identifier → ℕ
  unfolding text_eq
  rank k =
      if k.type == resource_type_user
      then 0
      else if k.type == resource_type_node
      then 1
      else if k.type == resource_type_replication_slot
      then 2
      else if k.type == resource_type_replication_slot_create
      then 2
      else if k.type == resource_type_disabled_subscription
      then 3
      else if k.type == resource_type_subscription
      then sub_rank k.id
      else if k.type == resource_type_sync_event
      then (if k.id == pair_id s n then 7 else 4)
      else if k.type == resource_type_wait_for_sync_event
      then (if k.id == pair_id s n then 8 else 5)
      else if k.type == resource_type_peer_catchup
      then 5
      else if k.type == resource_type_lag_tracker_commit_ts
      then 9
      else if k.type == resource_type_replication_slot_advance_from_cts
      then 10
      else 11

  elem-map :
      (f : Text → Text) (x : Text) (xs : List Text)
      → elem x xs ≡ true
      → elem (f x) (map f xs) ≡ true
  elem-map f x [] m = m
  elem-map f x (y ∷ ys) m = elim (Bool-cases (x == y)) [
    | inl here ↦ ground (arith, ==_iff (f x) (f y), ==_iff x y, ap f ((==_iff x y).0 here))
    | inr away ↦ ground (arith, elem-map f x ys)
  ]

  not_elem-map :
      (f : Text → Text) (t : Text) (xs : List Text)
      → ((x : Text) → elem x xs ≡ true → t ≢ f x)
      → elem t (map f xs) ≡ false
  not_elem-map f t [] h = refl
  not_elem-map f t (y ∷ ys) h = elim (Bool-cases (t == f y)) [
    | inl here ↦ absurd (h y (ground (arith, ==_refl y)) ((==_iff t (f y)).0 here))
    | inr away ↦ ground (arith, not_elem-map f t ys (λ x m. h x (ground arith)))
  ]

  differs : (a b : Text) → a ≢ b → (a == b) ≡ false
  differs a b h = elim (Bool-cases (a == b)) [
    | inl same ↦ absurd (h ((==_iff a b).0 same))
    | inr ne ↦ ne
  ]

  pub sub_rank_min : (id : Text) → 3 ≤ sub_rank id
  unfolding sub_rank
  sub_rank_min id = ground arith

  pub sub_rank_filling : sub_rank (spock_sub_name s n) ≡ 6
  unfolding sub_rank
  sub_rank_filling = rw (==_refl (spock_sub_name s n))

  module _ (h : IsUnambiguous names) (n_in : elem n names ≡ true) (s_in : elem s names ≡ true)
      (ne : (s == n) ≡ false) where
    pub sub_rank_into :
        (p : Text) → elem p names ≡ true → (p == s) ≡ false → sub_rank (spock_sub_name p n) ≡ 12
    unfolding sub_rank
    sub_rank_into p p_in other = ground (
      arith,
      ==_iff p s,
      differs (spock_sub_name p n) (spock_sub_name s n) (λ e.
          false≢true (sym other ∙ (==_iff p s).1 (h.sub_name_inj p n s n p_in n_in s_in n_in e).0)),
      elem-map (λ q. spock_sub_name q n) p names p_in,
    )

    pub sub_rank_from :
        (x : Text) → elem x names ≡ true → (x == n) ≡ false → sub_rank (spock_sub_name n x) ≡ 9
    unfolding sub_rank
    sub_rank_from x x_in other = ground (
      arith,
      differs (spock_sub_name n x) (spock_sub_name s n) (λ e.
          false≢true (sym other ∙ (==_iff x n).1 (h.sub_name_inj n x s n n_in x_in s_in n_in e).1)),
      not_elem-map (λ q. spock_sub_name q n) (spock_sub_name n x) names
          (λ q q_in e.
            false≢true
              (sym other ∙ (==_iff x n).1 (h.sub_name_inj n x q n n_in x_in q_in n_in e).1)),
      elem-map (λ q. spock_sub_name n q) x names x_in,
    )

    pub sub_rank_old :
        (p q : Text)
        → elem p names ≡ true
        → elem q names ≡ true
        → (p == n) ≡ false
        → (q == n) ≡ false
        → sub_rank (spock_sub_name p q) ≡ 3
    unfolding sub_rank
    sub_rank_old p q p_in q_in pn qn = ground (
      arith,
      differs (spock_sub_name p q) (spock_sub_name s n) (λ e.
          false≢true (sym qn ∙ (==_iff q n).1 (h.sub_name_inj p q s n p_in q_in s_in n_in e).1)),
      not_elem-map (λ r. spock_sub_name r n) (spock_sub_name p q) names
          (λ r r_in e.
            false≢true (sym qn ∙ (==_iff q n).1 (h.sub_name_inj p q r n p_in q_in r_in n_in e).1)),
      not_elem-map (λ r. spock_sub_name n r) (spock_sub_name p q) names
          (λ r r_in e.
            false≢true (sym pn ∙ (==_iff p n).1 (h.sub_name_inj p q n r p_in q_in n_in r_in e).0)),
    )

    -- The pair of a peer is not the pair of the source and the new node.
    pub pair_id_peer : (p : Text) → elem p names ≡ true → (pair_id p s == pair_id s n) ≡ false
    pair_id_peer p p_in =
        differs (pair_id p s) (pair_id s n) (λ e.
          false≢true (sym ne ∙ (==_iff s n).1 (h.pair_id_inj p s s n p_in s_in s_in n_in e).1))
