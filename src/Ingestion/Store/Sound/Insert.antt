-- ===== src/Ingestion/Store/Sound/Insert.antt =====
-- A new row keeps the run consistent.
use mathlib.Core.List.{mem-cons, mem-append, not-mem-nil, append_assoc, Pairwise-append}
use mathlib.Core.Logic.Or
use mathlib.Core.HLevel.{¬_prop, ⊥_prop}
use mathlib.Core.Bool.{Bool-set, true≢false}
use mathlib.Core.Path.{subst}
use sda_system.Prelude.{
  ℕ, ◌≡◌, ◌≢◌, sym, ◌∙◌, ap, inl, inr, Bool, true, false, not, ◌||◌, List, [], ◌∷◌, ◌++◌, Mem,
  Pairwise, arith, Bool-cases, elem, Mem→elem, elem→Mem, select, select-keep, ==_iff, if◌then◌else◌,
  ◌==◌,
}
use sda_system.Ingestion.Store.{Key, Tle, same_key, has_key, Ingest, insert_new}
use sda_system.Ingestion.Store.Rows.{KeyApart}
use sda_system.Ingestion.Store.Sound.{Unknown, Consistent}

elem-append : (x : ℕ) (l m : List ℕ) → elem x l ≡ true → elem x (l ++ m) ≡ true
elem-append x l m h = Mem→elem x (l ++ m) (mem-append.1 (Or.inl (elem→Mem x l h)))

elem-append_last : (x y : ℕ) (l : List ℕ) → x ≡ y → elem x (l ++ y ∷ []) ≡ true
elem-append_last x y l e = Mem→elem x (l ++ y ∷ []) (mem-append.1 (Or.inr (mem-cons.1 (Or.inl e))))

elem-other :
    (x n : ℕ) (l : List ℕ) → elem x l ≡ true → x ≢ n → elem x (select (λ m. not (m == n)) l) ≡ true
elem-other x n l h ne = Mem→elem x _ (select-keep _ l x (elem→Mem x l h) (differ ne))
  where
    differ : x ≢ n → not (x == n) ≡ true
    differ k = ground arith

elem-later : (x n : ℕ) (l : List ℕ) → elem x l ≡ true → elem x (n ∷ l) ≡ true
elem-later x n l h = Mem→elem x (n ∷ l) (mem-cons.1 (Or.inr (elem→Mem x l h)))

elem-here : (x n : ℕ) (l : List ℕ) → x ≡ n → elem x (n ∷ l) ≡ true
elem-here x n l e = Mem→elem x (n ∷ l) (mem-cons.1 (Or.inl e))

-- Whoever is listed stays listed, or has been added.
still_known :
    (x n : ℕ) (ids added : List ℕ)
    → (elem x ids || elem x added) ≡ true
    → (elem x (select (λ m. not (m == n)) ids) || elem x (n ∷ added)) ≡ true
still_known x n ids added h = elim (Bool-cases (x == n)) [
  | inl e ↦ right _ _ (elem-here x n added ((==_iff x n).0 e))
  | inr e ↦ elim (Bool-cases (elem x ids)) [
    | inl k ↦ left _ _ (elem-other x n ids k (λ q. true≢false (sym ((==_iff x n).1 q) ∙ e)))
    | inr k ↦ right _ _ (elem-later x n added (other _ _ h k))
  ]
]
  where
    left : (a b : Bool) → a ≡ true → (a || b) ≡ true
    left a b k = ground arith

    right : (a b : Bool) → b ≡ true → (a || b) ≡ true
    right a b k = ground arith

    other : (a b : Bool) → (a || b) ≡ true → a ≡ false → b ≡ true
    other a b k j = ground arith

Unknown-tail : (r k : Key) (keys : List Key) → Unknown k (r ∷ keys) → Unknown k keys
unfolding has_key
Unknown-tail r k keys h = ground arith

Unknown-head : (r k : Key) (keys : List Key) → Unknown k (r ∷ keys) → same_key r k ≡ false
unfolding has_key
Unknown-head r k keys h = ground arith

mem_only : (t row : Tle) {P : Type 0} → IsProp P → Mem t (row ∷ []) → (t ≡ row → P) → P
mem_only t row p m f = Or.elim p (mem-cons.0 m) f (λ k. absurd (not-mem-nil k))

mem_last :
    (t row : Tle) (l : List Tle) {P : Type 0}
    → IsProp P
    → Mem t (l ++ row ∷ [])
    → (Mem t l → P)
    → (t ≡ row → P)
    → P
mem_last t row l p m f g = Or.elim p (mem-append.0 m) f (λ k. mem_only t row p k g)

module _ (s : Ingest) (c : Consistent s) (row : Tle) (unknown : Unknown row.key s.all_epochs)
    (fresh : elem row.key.norad_id s.added_this_run ≡ false) where
  abbrev n : ℕ
  n = row.key.norad_id

  abbrev retiring : List ℕ
  retiring =
      if elem n s.current_norad_ids then s.retire_this_batch ++ n ∷ [] else s.retire_this_batch

  retiring_mono : (x : ℕ) → elem x s.retire_this_batch ≡ true → elem x retiring ≡ true
  retiring_mono x h = decided (elem n s.current_norad_ids)
    where
      decided :
          (b : Bool)
          → elem x (if b then s.retire_this_batch ++ n ∷ [] else s.retire_this_batch) ≡ true
      decided true = elem-append x _ _ h
      decided false = h

  -- A current row of the satellite is among those to retire.
  retiring_old :
      (u : Tle)
      → Mem u s.table
      → u.is_current ≡ true
      → u.key.norad_id ≡ n
      → elem u.key.norad_id retiring ≡ true
  retiring_old u m h e =
      ap
        (λ b.
          elem u.key.norad_id (if b then s.retire_this_batch ++ n ∷ [] else s.retire_this_batch))
        listed
      ∙ elem-append_last u.key.norad_id n _ e
    where
      left : (a b : Bool) → (a || b) ≡ true → b ≡ false → a ≡ true
      left a b k j = ground arith

      listed : elem n s.current_norad_ids ≡ true
      listed =
          subst (λ x. elem x s.current_norad_ids ≡ true) e
            (left _ _ (c.known u m h) (ap (λ x. elem x s.added_this_run) e ∙ fresh))

  pub insert_new-Consistent : Consistent (insert_new s row)
  insert_new-Consistent = record {
    keys_apart = subst (Pairwise KeyApart) (append_assoc s.table s.inserts (row ∷ [])) (
        (Pairwise-append (λ a b. Bool-set _ _)).1 (
          c.keys_apart,
          Pairwise.cons (λ u m. absurd (not-mem-nil m)) Pairwise.nil,
          λ u m t k.
              mem_only t row (Bool-set _ _) k
                λ e. subst (λ y. KeyApart u y) (sym e) (c.epochs u m row.key unknown),
        ));
    currents_apart = c.currents_apart;
    inserts_apart = (Pairwise-append (λ a b. ¬_prop)).1 (
      c.inserts_apart,
      Pairwise.cons (λ u m. absurd (not-mem-nil m)) Pairwise.nil,
      λ u m t k e. mem_only t row ⊥_prop k λ same. true≢false (
          sym (c.adds u m)
          ∙ ap (λ x. elem x s.added_this_run) (e ∙ ap (λ (y : Tle). y.key.norad_id) same)
          ∙ fresh),
    );
    adds = λ t m.
        mem_last t row s.inserts (Bool-set _ _) m
          (λ k. elem-later t.key.norad_id n s.added_this_run (c.adds t k))
          (λ e. elem-here t.key.norad_id n s.added_this_run (ap (λ (y : Tle). y.key.norad_id) e));
    superseded = λ t u m k h e.
        mem_last t row s.inserts (Bool-set _ _) m
          (λ j. retiring_mono u.key.norad_id (c.superseded t u j k h e))
          (λ same. retiring_old u k h (e ∙ ap (λ (y : Tle). y.key.norad_id) same));
    known =
        λ u m h. still_known u.key.norad_id n s.current_norad_ids s.added_this_run (c.known u m h);
    epochs = λ u m k unk.
        mem_last u row (s.table ++ s.inserts) (Bool-set _ _)
          (subst (Mem u) (sym (append_assoc s.table s.inserts (row ∷ []))) m)
          (λ j. c.epochs u j k (Unknown-tail row.key k s.all_epochs unk))
          (λ same.
            ap (λ (y : Tle). same_key y.key k) same ∙ Unknown-head row.key k s.all_epochs unk);
  }
