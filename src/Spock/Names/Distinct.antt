-- ===== src/Spock/Names/Distinct.antt =====
-- internal/spock/names.go: which names are different, and which are not.
use pgedge_helm.Base.{
  ◌≡◌, refl, sym, ap, ◌∙◌, true, false, List, [], ◌∷◌, ◌++◌, append_assoc, All, All-elem, elem,
  arith,
}
use pgedge_helm.Base.Text.{Text, bytes, text_key, has_byte}
use pgedge_helm.Spock.Names.{undash, replace_dashes, pair_id, spock_sub_name, spock_slot_name}
use pgedge_helm.Spock.Desired.Rank.{IsUnambiguous}

-- A name with neither a dash nor an underscore.
abbrev pub IsPlain : Text → Type 0
IsPlain t = (has_byte b'-' t ≡ false) × (has_byte b'_' t ≡ false)

replace_dashes-plain : (t : Text) → has_byte b'-' t ≡ false → replace_dashes t ≡ t
replace_dashes-plain [] h = refl
replace_dashes-plain (c ∷ t) h = ground (arith, replace_dashes-plain t)

-- A text is split at its first underscore in one way.
split_unique :
    (a b c d : Text)
    → has_byte b'_' a ≡ false
    → has_byte b'_' c ≡ false
    → a ++ (bytes "_" ++ b) ≡ c ++ (bytes "_" ++ d)
    → (a ≡ c) × (b ≡ d)
split_unique [] b [] d ha hc e = (refl, ground arith)
split_unique [] b (x ∷ c) d ha hc e = absurd (ground arith)
split_unique (x ∷ a) b [] d ha hc e = absurd (ground arith)
split_unique (x ∷ a) b (y ∷ c) d ha hc e =
    let (p, q) = split_unique a b c d (ground arith) (ground arith) (ground arith) in
    (ground arith, q)

replace_dashes-append :
    (s t : Text) → replace_dashes (s ++ t) ≡ replace_dashes s ++ replace_dashes t
replace_dashes-append [] t = refl
replace_dashes-append (c ∷ s) t = ap (λ l. undash c ∷ l) (replace_dashes-append s t)

spock_sub_name-plain :
    (a b : Text)
    → IsPlain a
    → IsPlain b
    → spock_sub_name a b ≡ bytes "sub_" ++ (a ++ (bytes "_" ++ b))
unfolding spock_sub_name
spock_sub_name-plain a b ha hb =
    ap (λ l. bytes "sub_" ++ l)
      (replace_dashes-append a (bytes "_" ++ b)
        ∙ cc (replace_dashes-plain a ha.0, replace_dashes-plain b hb.0))

-- The slot of a pair is named after the database, the provider and the subscription.
spock_slot_name-spock_sub_name :
    (db provider subscriber : Text)
    → spock_slot_name db provider subscriber
      ≡ bytes "spk_"
        ++ (replace_dashes db
            ++ (bytes "_"
                ++ (replace_dashes provider ++ (bytes "_" ++ spock_sub_name provider subscriber))))
unfolding spock_slot_name spock_sub_name
spock_slot_name-spock_sub_name db provider subscriber =
    ap (λ l. bytes "spk_" ++ l)
      (replace_dashes-append db
          (bytes "_" ++ (provider ++ (bytes "_sub_" ++ (provider ++ (bytes "_" ++ subscriber)))))
        ∙ ap (λ l. replace_dashes db ++ (bytes "_" ++ l))
            (replace_dashes-append provider
              (bytes "_sub_" ++ (provider ++ (bytes "_" ++ subscriber)))))

cancel_sub : (s t : Text) → bytes "sub_" ++ s ≡ bytes "sub_" ++ t → s ≡ t
cancel_sub s t e = cc

-- Two pairs of plain names have one subscription name only if they are one pair.
pub spock_sub_name-injective :
    (a b c d : Text)
    → IsPlain a
    → IsPlain b
    → IsPlain c
    → IsPlain d
    → spock_sub_name a b ≡ spock_sub_name c d
    → (a ≡ c) × (b ≡ d)
spock_sub_name-injective a b c d ha hb hc hd e =
    split_unique a b c d ha.1 hc.1
      (cancel_sub _ _ (sym (spock_sub_name-plain a b ha hb) ∙ e ∙ spock_sub_name-plain c d hc hd))

cancel_append : (p s t : Text) → p ++ s ≡ p ++ t → s ≡ t
cancel_append [] s t e = e
cancel_append (x ∷ p) s t e = cancel_append p s t (cc)

-- Two pairs of plain names have one slot name, for one database, only if they are one pair.
pub spock_slot_name-injective :
    (db a b c d : Text)
    → IsPlain a
    → IsPlain b
    → IsPlain c
    → IsPlain d
    → spock_slot_name db a b ≡ spock_slot_name db c d
    → (a ≡ c) × (b ≡ d)
spock_slot_name-injective db a b c d ha hb hc hd e =
    spock_sub_name-injective a b c d ha hb hc hd
      (split_unique (replace_dashes a) (spock_sub_name a b) (replace_dashes c) (spock_sub_name c d)
        (rw (replace_dashes-plain a ha.0) ha.1) (rw (replace_dashes-plain c hc.0) hc.1)
        (cancel_append (bytes "_") _ _ (
          cancel_append (replace_dashes db) _ _ (
            cancel_append (bytes "spk_") _ _ (
              sym (spock_slot_name-spock_sub_name db a b)
              ∙ e
              ∙ spock_slot_name-spock_sub_name db c d))))).1

-- Plain names are unambiguous.
pub plain-IsUnambiguous : (names : List Text) → All IsPlain names → IsUnambiguous names
unfolding pair_id
plain-IsUnambiguous names h = record {
  sub_name_inj = λ a b c d ma mb mc md e.
      spock_sub_name-injective a b c d (plain a ma) (plain b mb) (plain c mc) (plain d md) e;
  pair_id_inj = λ a b c d ma mb mc md e. split_unique a b c d (plain a ma).1 (plain c mc).1 e;
}
  where
    plain : (t : Text) → elem t names ≡ true → IsPlain t
    plain t m = All-elem IsPlain names t h m

-- With dashes in names, different pairs of nodes have one subscription name: the subscription
-- from `a-b` to `c` is named like the one from `a` to `b-c`.
pub spock_sub_name_collides :
    (a b c : Text)
    → spock_sub_name (a ++ (bytes "-" ++ b)) c ≡ spock_sub_name a (b ++ (bytes "-" ++ c))
unfolding spock_sub_name
spock_sub_name_collides a b c =
    ap (λ l. bytes "sub_" ++ l)
      (replace_dashes-append (a ++ (bytes "-" ++ b)) (bytes "_" ++ c)
        ∙ ap (λ l. l ++ replace_dashes (bytes "_" ++ c)) (replace_dashes-append a (bytes "-" ++ b))
        ∙ append_assoc (replace_dashes a) (bytes "_" ++ replace_dashes b)
            (bytes "_" ++ replace_dashes c)
        ∙ ap (λ l. replace_dashes a ++ (bytes "_" ++ l))
            (sym (replace_dashes-append b (bytes "-" ++ c)))
        ∙ sym (replace_dashes-append a (bytes "_" ++ (b ++ (bytes "-" ++ c)))))
