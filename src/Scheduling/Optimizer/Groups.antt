-- ===== src/Scheduling/Optimizer/Groups.antt =====
-- Every two indices with one key stand in one group.
use mathlib.Core.List.{mem-cons, mem-cons_self, mem-append, not-mem-nil}
use mathlib.Core.Logic.Or
use mathlib.Core.Path.{subst}
use native.Mathlib.Nat.{ℕ_set}
use sda_system.Prelude.{
  ℕ, zero, suc, ◌+◌, ◌<◌, ◌≡◌, ◌≢◌, ◌↔◌, refl, sym, ◌∙◌, ap, inl, inr, Bool, true, false, List, [],
  ◌∷◌, ◌++◌, map, Mem, length, get_or, Bool-cases, arith, if◌then◌else◌,
}
use sda_system.Scheduling.Optimizer.{group_add, group_keys}

module _ {ℓ} {K : Type ℓ} (same : K → K → Bool)
    (same_iff : (a b : K) → (same a b ≡ true) ↔ (a ≡ b)) where
  -- The group of the key.
  unfoldable members : K → List (K × List ℕ) → List ℕ
  members key [] = []
  members key ((k, is) ∷ rest) = let later = members key rest in if same k key then is else later

  nobody : (key : K) (j : ℕ) → ¬ Mem j (members key [])
  unfolding members
  nobody key j m = not-mem-nil m

  module _ (key k : K) (is : List ℕ) (rest : List (K × List ℕ)) where
    members-cons_true : same k key ≡ true → members key ((k, is) ∷ rest) ≡ is
    unfolding members
    members-cons_true h = ap (λ b. if b then is else members key rest) h

    members-cons_false : same k key ≡ false → members key ((k, is) ∷ rest) ≡ members key rest
    unfolding members
    members-cons_false h = ap (λ b. if b then is else members key rest) h

    add-cons_true :
        (i : ℕ)
        → same k key ≡ true
        → group_add same key i ((k, is) ∷ rest) ≡ (k, is ++ i ∷ []) ∷ rest
    unfolding group_add
    add-cons_true i h =
        ap (λ b. if b then (k, is ++ i ∷ []) ∷ rest else (k, is) ∷ group_add same key i rest) h

    add-cons_false :
        (i : ℕ)
        → same k key ≡ false
        → group_add same key i ((k, is) ∷ rest) ≡ (k, is) ∷ group_add same key i rest
    unfolding group_add
    add-cons_false i h =
        ap (λ b. if b then (k, is ++ i ∷ []) ∷ rest else (k, is) ∷ group_add same key i rest) h

  -- The new index joins the group of its key.
  members-add_self :
      (key : K) (i : ℕ) (d : List (K × List ℕ)) → Mem i (members key (group_add same key i d))
  members-add_self key i [] =
      unfold group_add in
      subst (Mem i) (sym (members-cons_true key key _ _ ((same_iff key key).1 refl))) mem-cons_self
  members-add_self key i ((k, is) ∷ rest) = elim (Bool-cases (same k key)) [
    | inl h ↦
        subst (Mem i)
          (sym (ap (members key) (add-cons_true key k is rest i h) ∙ members-cons_true key k _ _ h))
          (mem-append.1 (Or.inr mem-cons_self))
    | inr h ↦
        subst (Mem i)
          (sym
            (ap (members key) (add-cons_false key k is rest i h) ∙ members-cons_false key k _ _ h))
          (members-add_self key i rest)
  ]

  -- Nobody leaves a group.
  members-add_mem :
      (key k' : K) (i j : ℕ) (d : List (K × List ℕ))
      → Mem j (members k' d)
      → Mem j (members k' (group_add same key i d))
  members-add_mem key k' i j [] m = absurd (nobody _ j m)
  members-add_mem key k' i j ((k, is) ∷ rest) m = elim (Bool-cases (same k key)) [
    | inl h ↦
        subst (λ d. Mem j (members k' d)) (sym (add-cons_true key k is rest i h))
          (elim (Bool-cases (same k k')) [
            | inl e ↦
                subst (Mem j) (sym (members-cons_true k' k _ rest e))
                  (mem-append.1 (Or.inl (subst (Mem j) (members-cons_true k' k is rest e) m)))
            | inr e ↦
                subst (Mem j)
                  (members-cons_false k' k is rest e ∙ sym (members-cons_false k' k _ rest e)) m
          ])
    | inr h ↦
        subst (λ d. Mem j (members k' d)) (sym (add-cons_false key k is rest i h))
          (elim (Bool-cases (same k k')) [
            | inl e ↦
                subst (Mem j)
                  (members-cons_true k' k is rest e ∙ sym (members-cons_true k' k is _ e)) m
            | inr e ↦ subst (Mem j) (sym (members-cons_false k' k is _ e)) (
                members-add_mem key k' i j rest
                  (subst (Mem j) (members-cons_false k' k is rest e) m))
          ])
  ]

  members-group_keys :
      (i : ℕ) (keys : List K) (d : List (K × List ℕ)) (k' : K) (j : ℕ)
      → Mem j (members k' d)
      → Mem j (members k' (group_keys same i keys d))
  unfolding group_keys
  members-group_keys i [] d k' j m = m
  members-group_keys i (key ∷ keys) d k' j m =
      members-group_keys (i + 1) keys _ k' j (members-add_mem key k' i j d m)

  -- Each index is in the group of its key.
  group_keys-mem :
      (i : ℕ) (keys : List K) (d : List (K × List ℕ)) (j : ℕ) (none_there : K)
      → j < length keys
      → Mem (i + j) (members (get_or keys j none_there) (group_keys same i keys d))
  unfolding group_keys
  group_keys-mem i [] d j none_there h = elim h [ ]
  group_keys-mem i (key ∷ keys) d zero none_there h =
      members-group_keys (i + 1) keys _ key (i + 0) (
        subst (λ n. Mem n (members key (group_add same key i d))) (omega arith)
          (members-add_self key i d))
  group_keys-mem i (key ∷ keys) d (suc j) none_there h =
      subst
        (λ n. Mem n (
          members (get_or keys j none_there)
            (group_keys same (i + 1) keys (group_add same key i d))))
        (omega arith)
        (group_keys-mem (i + 1) keys (group_add same key i d) j none_there (omega arith))

  members-Mem :
      (key : K) (d : List (K × List ℕ)) (j : ℕ)
      → Mem j (members key d)
      → Mem (members key d) (map (λ (g : K × List ℕ). g.1) d)
  members-Mem key [] j m = absurd (nobody _ j m)
  members-Mem key ((k, is) ∷ rest) j m = elim (Bool-cases (same k key)) [
    | inl h ↦ mem-cons.1 (Or.inl (members-cons_true key k is rest h))
    | inr h ↦ mem-cons.1 (
        Or.inr (
          subst (λ l. Mem l (map (λ (g : K × List ℕ). g.1) rest))
            (sym (members-cons_false key k is rest h))
            (members-Mem key rest j (subst (Mem j) (members-cons_false key k is rest h) m))))
  ]

  zero_add : (n : ℕ) → 0 + n ≡ n
  zero_add n = omega arith

  -- Two indices with one key stand in one group.
  pub group_keys-together :
      (keys : List K) (none_there : K) (i j : ℕ)
      → i < length keys
      → j < length keys
      → get_or keys i none_there ≡ get_or keys j none_there
      → (g : List ℕ) × Mem g (map (λ (g : K × List ℕ). g.1) (group_keys same 0 keys []))
        × Mem i g
        × Mem j g
  group_keys-together keys none_there i j hi hj e =
      let groups = group_keys same 0 keys [] in
      let key = get_or keys j none_there in
      let at_index = λ (n : ℕ) (h : n < length keys).
        subst (λ m. Mem m (members (get_or keys n none_there) groups)) (zero_add n)
          (group_keys-mem 0 keys [] n none_there h) in
      (
        members key groups,
        members-Mem key groups j (at_index j hj),
        subst (λ k. Mem i (members k groups)) e (at_index i hi),
        at_index j hj,
      )

-- A list with two different members has several.
pub two-several : (g : List ℕ) (i j : ℕ) → i ≢ j → Mem i g → Mem j g → 1 < length g
two-several [] i j ne m n = absurd (not-mem-nil m)
two-several (x ∷ []) i j ne m n = absurd (ne (only i m ∙ sym (only j n)))
  where
    only : (k : ℕ) → Mem k (x ∷ []) → k ≡ x
    only k o = Or.elim (ℕ_set _ _) (mem-cons.0 o) (λ e. e) (λ q. absurd (not-mem-nil q))
two-several (x ∷ y ∷ l) i j ne m n = omega arith
