-- ===== src/Checkpoint/Wire/Grouped.antt =====
-- src/ipc_lib.rs: maps of lists, filled entry by entry and then flattened.
use bitcoin_ipc.Prelude.{
  List, [], ◌∷◌, ◌++◌, ◌≡◌, subst, subst₂, ◌==◌, Bool-cases, ==_iff, inl, inr, All,
}
use bitcoin_ipc.Types.{SubnetId}
use bitcoin_ipc.Checkpoint.Wire.{Grouped, push_entry, group_by}
use mathlib.Core.List.{Perm, Permᴰ, append_assoc, append-nil}
use mathlib.Core.List.Permᴰ
use mathlib.Core.Logic.{∥∥₁_map}

-- `out` turns the values of a group into items, one after the other.
module _ {A V : Type 0} (out : SubnetId → List V → List A)
    (additive : (k : SubnetId) (xs ys : List V) → out k (xs ++ ys) ≡ out k xs ++ out k ys) where
  unfoldable pub flat : Grouped V → List A
  flat [] = []
  flat ((k, values) ∷ groups) = out k values ++ flat groups

  -- Items in the middle move to the front.
  to_front : (xs ys zs : List A) → Permᴰ (xs ++ (ys ++ zs)) (ys ++ (xs ++ zs))
  to_front xs ys zs =
      subst₂ Permᴰ (append_assoc xs ys zs) (append_assoc ys xs zs)
        (Permᴰ.append_right zs (Permᴰ.append_comm xs ys))

  push_entry-perm :
      (k : SubnetId) (v : V) (groups : Grouped V)
      → Permᴰ (flat (push_entry k v groups)) (out k (v ∷ []) ++ flat groups)
  unfolding push_entry flat
  push_entry-perm k v [] = Permᴰ.refl _
  push_entry-perm k v ((j, values) ∷ groups) = elim (Bool-cases (j == k)) [
    | inl e ↦
        rw (e, additive j values (v ∷ []), append_assoc)
          (subst
            (λ i.
              Permᴰ (out j values ++ (out j (v ∷ []) ++ flat groups))
                (out i (v ∷ []) ++ (out j values ++ flat groups)))
            ((==_iff j k).0 e) (to_front (out j values) (out j (v ∷ [])) (flat groups)))
    | inr e ↦ rw e (
        Permᴰ.trans (Permᴰ.append_left (out j values) (push_entry-perm k v groups))
          (to_front (out j values) (out k (v ∷ [])) (flat groups)))
  ]

  -- An item whose entry alone gives back the item.
  abbrev pub Returns : (A → SubnetId) → (A → V) → A → Type 0
  Returns key value a = out (key a) (value a ∷ []) ≡ a ∷ []

  group_by-permᴰ :
      (key : A → SubnetId) (value : A → V) (items : List A) (groups : Grouped V)
      → All (Returns key value) items
      → Permᴰ (flat (group_by key value items groups)) (items ++ flat groups)
  unfolding group_by
  group_by-permᴰ key value [] groups h = Permᴰ.refl _
  group_by-permᴰ key value (a ∷ items) groups (h, hs) =
      Permᴰ.trans (group_by-permᴰ key value items (push_entry (key a) (value a) groups) hs) (
        Permᴰ.trans (Permᴰ.append_left items (push_entry-perm (key a) (value a) groups)) (
          subst
            (λ one.
              Permᴰ (items ++ (out (key a) (value a ∷ []) ++ flat groups))
                (one ++ (items ++ flat groups)))
            h (to_front items (out (key a) (value a ∷ [])) (flat groups))))

  -- The order of the entries does not matter but for the order of the items.
  flat-permᴰ :
      {groups groups' : Grouped V} → Permᴰ groups groups' → Permᴰ (flat groups) (flat groups')
  unfolding flat
  flat-permᴰ Permᴰ.nil = Permᴰ.nil
  flat-permᴰ (Permᴰ.cons {a = a} {b = b} {l₁ = l} {l₂ = l'} e p) =
      subst (λ c. Permᴰ (out a.0 a.1 ++ flat l) (out c.0 c.1 ++ flat l')) e
        (Permᴰ.append_left (out a.0 a.1) (flat-permᴰ p))
  flat-permᴰ (Permᴰ.swap {a = a} {b = b} {l = l} e f) =
      subst₂
        (λ c d.
          Permᴰ (out a.0 a.1 ++ (out b.0 b.1 ++ flat l)) (out d.0 d.1 ++ (out c.0 c.1 ++ flat l)))
        e f (to_front (out a.0 a.1) (out b.0 b.1) (flat l))
  flat-permᴰ (Permᴰ.trans p q) = Permᴰ.trans (flat-permᴰ p) (flat-permᴰ q)

  -- Grouped and then listed in any order of the groups, the items are the same up to order.
  pub group_by-perm :
      (key : A → SubnetId) (value : A → V) (items : List A) (groups : Grouped V)
      → All (Returns key value) items
      → Perm groups (group_by key value items [])
      → Perm (flat groups) items
  unfolding flat
  group_by-perm key value items groups h p = ∥∥₁_map p (λ π. Permᴰ.trans (flat-permᴰ π) (
      subst (Permᴰ (flat (group_by key value items []))) (append-nil items)
        (group_by-permᴰ key value items [] h)))
