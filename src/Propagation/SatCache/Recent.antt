-- ===== src/Propagation/SatCache/Recent.antt =====
-- The keys of the cache are those that were used last.
use sda_system.Prelude.{
  ℕ, zero, suc, ◌≤◌, ◌≡◌, refl, sym, ap, ◌∙◌, inl, inr, true, false, Option, none, some, List, [],
  ◌∷◌, map, length, take, take_all, length-map, elem, ltb, ◌==◌, if◌then◌else◌, Bool-cases, arith,
}
use mathlib.Core.Path.{subst}
use sda_system.Ingestion.Tle.{Line}
use sda_system.Propagation.SatCache.{
  cached_sat, remove_item, drop_last, evict, after_lookup, Request, key_text,
}

-- The keys of a history with its latest use first, each at its latest use.
unfoldable pub without : ℕ → List ℕ → List ℕ
without key [] = []
without key (k ∷ ks) = if k == key then ks else k ∷ without key ks

unfoldable pub uses : List ℕ → List ℕ
uses [] = []
uses (k ∷ past) = k ∷ without k (uses past)

-- Taking out a key that is among the first n.
take-without_mem :
    (key n : ℕ) (ks : List ℕ)
    → elem key (take (suc n) ks) ≡ true
    → without key (take (suc n) ks) ≡ take n (without key ks)
unfolding without elem
take-without_mem key n [] h = absurd (cc)
take-without_mem key zero (k ∷ ks) h = elim (Bool-cases (k == key)) [
  | inl e ↦ rw e refl
  | inr e ↦ absurd (ground (arith, h, e))
]
take-without_mem key (suc n) (k ∷ ks) h = elim (Bool-cases (k == key)) [
  | inl e ↦ rw e refl
  | inr e ↦ rw e (ap (◌∷◌ k) (take-without_mem key n ks (ground (arith, h, e))))
]

-- Taking out a key that is not among the first n.
take-without_other :
    (key n : ℕ) (ks : List ℕ) → elem key (take n ks) ≡ false → take n (without key ks) ≡ take n ks
unfolding without elem
take-without_other key zero ks h = refl
take-without_other key (suc n) [] h = refl
take-without_other key (suc n) (k ∷ ks) h = elim (Bool-cases (k == key)) [
  | inl e ↦ absurd (ground (arith, h, e))
  | inr e ↦ rw e (ap (◌∷◌ k) (take-without_other key n ks (ground (arith, h, e))))
]

module _ {ℓ} {S : Type ℓ} where
  abbrev pub keys : List (ℕ × S) → List ℕ
  keys = map (λ (x : ℕ × S). x.0)

  keys-remove_item :
      (key : ℕ) (items : List (ℕ × S)) → keys (remove_item key items) ≡ without key (keys items)
  unfolding remove_item without
  keys-remove_item key [] = refl
  keys-remove_item key ((k, s) ∷ items) = elim (Bool-cases (k == key)) [
    | inl e ↦ rw e refl
    | inr e ↦ rw e (ap (◌∷◌ k) (keys-remove_item key items))
  ]

  keys-drop_last :
      (n : ℕ) (items : List (ℕ × S))
      → length items ≡ suc n
      → keys (drop_last items) ≡ take n (keys items)
  unfolding drop_last
  keys-drop_last n [] h = absurd (omega arith)
  keys-drop_last zero (x ∷ []) h = refl
  keys-drop_last (suc n) (x ∷ []) h = absurd (omega arith)
  keys-drop_last zero (x ∷ y ∷ items) h = absurd (omega arith)
  keys-drop_last (suc n) (x ∷ y ∷ items) h =
      ap (◌∷◌ x.0) (keys-drop_last n (y ∷ items) (omega arith))

  cached_sat-elem :
      (key : ℕ) (items : List (ℕ × S)) (s : S)
      → cached_sat key items ≡ some s
      → elem key (keys items) ≡ true
  unfolding cached_sat elem
  cached_sat-elem key [] s h = absurd (cc)
  cached_sat-elem key ((k, t) ∷ items) s h = elim (Bool-cases (k == key)) [
    | inl e ↦ rw e refl
    | inr e ↦ rw e (cached_sat-elem key items s (rw e at h))
  ]

  cached_sat-not_elem :
      (key : ℕ) (items : List (ℕ × S)) → cached_sat key items ≡ none → elem key (keys items) ≡ false
  unfolding cached_sat elem
  cached_sat-not_elem key [] h = refl
  cached_sat-not_elem key ((k, t) ∷ items) h = elim (Bool-cases (k == key)) [
    | inl e ↦ absurd (ground (arith, h, e))
    | inr e ↦ rw e (cached_sat-not_elem key items (rw e at h))
  ]

  keys-evict :
      (n : ℕ) (items : List (ℕ × S))
      → length items ≤ suc (suc n)
      → keys (evict (suc n) items) ≡ take (suc n) (keys items)
  unfolding evict
  keys-evict n items h = elim (Bool-cases (ltb (suc n) (length items))) [
    | inl e ↦ rw e (keys-drop_last (suc n) items (ground arith))
    | inr e ↦ rw e (
        sym (take_all (keys items) (suc n) (ground (arith, length-map (λ (x : ℕ × S). x.0) items))))
  ]

take-take : (n : ℕ) (ks : List ℕ) → take n (take (suc n) ks) ≡ take n ks
take-take zero ks = refl
take-take (suc n) [] = refl
take-take (suc n) (k ∷ ks) = ap (◌∷◌ k) (take-take n ks)

not_elem-take :
    (key n : ℕ) (ks : List ℕ) → elem key (take (suc n) ks) ≡ false → elem key (take n ks) ≡ false
unfolding elem
not_elem-take key zero ks h = refl
not_elem-take key (suc n) [] h = refl
not_elem-take key (suc n) (k ∷ ks) h = ground (arith, h, not_elem-take key n ks)

length-take_le : (n : ℕ) (ks : List ℕ) → length (take n ks) ≤ n
length-take_le zero ks = omega arith
length-take_le (suc n) [] = omega arith
length-take_le (suc n) (k ∷ ks) = omega (arith, length-take_le n ks)

module _ {ℓ} {S : Type ℓ} (sha256 : Line → ℕ) (earth_satellite : Request → S) (n : ℕ) where
  abbrev key_of : Request → ℕ
  key_of r = sha256 (key_text r)

  abbrev pub Holds : List (ℕ × S) → List Request → Type 0
  Holds items past = keys items ≡ take (suc n) (uses (map key_of past))

  pub after_lookup-Holds :
      (items : List (ℕ × S)) (past : List Request) (r : Request) (o : Option S)
      → cached_sat (key_of r) items ≡ o
      → Holds items past
      → Holds (after_lookup (suc n) (key_of r) (earth_satellite r) o items).0 (r ∷ past)
  unfolding after_lookup uses
  after_lookup-Holds items past r (some s) e h =
      let among : elem (key_of r) (take (suc n) (uses (map key_of past))) ≡ true =
        subst (λ ks. elem (key_of r) ks ≡ true) h (cached_sat-elem (key_of r) items s e) in
      ap (◌∷◌ (key_of r)) (
        keys-remove_item (key_of r) items
        ∙ ap (without (key_of r)) h
        ∙ take-without_mem (key_of r) n (uses (map key_of past)) among)
  after_lookup-Holds items past r none e h =
      let absent : elem (key_of r) (take (suc n) (uses (map key_of past))) ≡ false =
        subst (λ ks. elem (key_of r) ks ≡ false) h (cached_sat-not_elem (key_of r) items e) in
      let short : length items ≤ suc n = omega (
        arith,
        ap length h,
        length-map (λ (x : ℕ × S). x.0) items,
        length-take_le (suc n) (uses (map key_of past)),
      ) in
      keys-evict n ((key_of r, earth_satellite r) ∷ items) (omega (arith, short))
      ∙ ap (◌∷◌ (key_of r)) (
          ap (take n) h
          ∙ take-take n (uses (map key_of past))
          ∙ sym (
              take-without_other (key_of r) n (uses (map key_of past))
                (not_elem-take (key_of r) n (uses (map key_of past)) absent)))
