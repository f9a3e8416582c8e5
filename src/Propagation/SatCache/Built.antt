-- ===== src/Propagation/SatCache/Built.antt =====
-- What the cache hands out was built for its key.
use sda_system.Prelude.{
  ℕ, suc, ◌≡◌, refl, inl, inr, ◌⊎◌, Option, none, some, List, [], ◌∷◌, map, length, take, ltb, ◌==◌,
  Bool-cases, ==_iff,
}
use mathlib.Core.Path.{subst}
use sda_system.Ingestion.Tle.{Line}
use sda_system.Propagation.SatCache.{
  cached_sat, remove_item, drop_last, evict, after_lookup, Request, key_text,
  get_or_create_satellite,
}
use sda_system.Propagation.SatCache.Recent.{uses, keys, Holds, after_lookup-Holds}

module _ {S : Type 0} (sha256 : Line → ℕ) (earth_satellite : Request → S) (n : ℕ) where
  -- Some call of the history has the key, and the satellite is what it built.
  unfoldable pub BuiltBy : List Request → ℕ → S → Type 0
  BuiltBy [] key s = ⊥
  BuiltBy (r ∷ past) key s =
      ((sha256 (key_text r) ≡ key) × (earth_satellite r ≡ s)) ⊎ BuiltBy past key s

  abbrev AllBuilt : List (ℕ × S) → List Request → Type 0
  AllBuilt [] past = Unit {0}
  AllBuilt ((key, s) ∷ items) past = BuiltBy past key s × AllBuilt items past

  cached_sat-BuiltBy :
      (key : ℕ) (items : List (ℕ × S)) (past : List Request) (s : S)
      → AllBuilt items past
      → cached_sat key items ≡ some s
      → BuiltBy past key s
  unfolding cached_sat
  cached_sat-BuiltBy key [] past s all e = absurd (cc)
  cached_sat-BuiltBy key ((k, t) ∷ items) past s all e = elim (Bool-cases (k == key)) [
    | inl same ↦
        subst (λ j. BuiltBy past j s) ((==_iff k key).0 same)
          (subst (BuiltBy past k) (some_inj (rw same at e)) all.0)
    | inr apart ↦ cached_sat-BuiltBy key items past s all.1 (rw apart at e)
  ]
    where
      some_inj : {a b : S} → some a ≡ some b → a ≡ b
      some_inj h = cc

  later-AllBuilt :
      (items : List (ℕ × S)) (past : List Request) (r : Request)
      → AllBuilt items past
      → AllBuilt items (r ∷ past)
  unfolding BuiltBy
  later-AllBuilt [] past r all = tt
  later-AllBuilt ((key, s) ∷ items) past r all = (inr all.0, later-AllBuilt items past r all.1)

  remove_item-AllBuilt :
      (key : ℕ) (items : List (ℕ × S)) (past : List Request)
      → AllBuilt items past
      → AllBuilt (remove_item key items) past
  unfolding remove_item
  remove_item-AllBuilt key [] past all = tt
  remove_item-AllBuilt key ((k, s) ∷ items) past all = elim (Bool-cases (k == key)) [
    | inl e ↦ rw e all.1
    | inr e ↦ rw e (all.0, remove_item-AllBuilt key items past all.1)
  ]

  drop_last-AllBuilt :
      (items : List (ℕ × S)) (past : List Request)
      → AllBuilt items past
      → AllBuilt (drop_last items) past
  unfolding drop_last
  drop_last-AllBuilt [] past all = tt
  drop_last-AllBuilt (x ∷ []) past all = tt
  drop_last-AllBuilt (x ∷ y ∷ items) past all = (all.0, drop_last-AllBuilt (y ∷ items) past all.1)

  evict-AllBuilt :
      (items : List (ℕ × S)) (past : List Request)
      → AllBuilt items past
      → AllBuilt (evict (suc n) items) past
  unfolding evict
  evict-AllBuilt items past all = elim (Bool-cases (ltb (suc n) (length items))) [
    | inl e ↦ rw e (drop_last-AllBuilt items past all)
    | inr e ↦ rw e all
  ]

  -- One call: the cache stays built from the history, and so is what it returns.
  after_lookup-AllBuilt :
      (items : List (ℕ × S)) (past : List Request) (r : Request) (o : Option S)
      → cached_sat (sha256 (key_text r)) items ≡ o
      → AllBuilt items past
      → let (items', s) = after_lookup (suc n) (sha256 (key_text r)) (earth_satellite r) o items in
        AllBuilt items' (r ∷ past) × BuiltBy (r ∷ past) (sha256 (key_text r)) s
  unfolding after_lookup BuiltBy
  after_lookup-AllBuilt items past r (some s) e all =
      let b = cached_sat-BuiltBy (sha256 (key_text r)) items past s all e in
      (
        (
          inr b,
          later-AllBuilt (remove_item (sha256 (key_text r)) items) past r
              (remove_item-AllBuilt (sha256 (key_text r)) items past all),
        ),
        inr b,
      )
  after_lookup-AllBuilt items past r none e all = (
    evict-AllBuilt ((sha256 (key_text r), earth_satellite r) ∷ items) (r ∷ past)
        (inl (refl, refl), later-AllBuilt items past r all),
    inl (refl, refl),
  )

  -- The calls of a list in turn: the cache they leave, and the history, latest first.
  unfoldable pub run : List (ℕ × S) → List Request → List Request → List (ℕ × S) × List Request
  run items past [] = (items, past)
  run items past (r ∷ rs) =
      run (get_or_create_satellite sha256 earth_satellite (suc n) items r).0 (r ∷ past) rs

  run-invariant :
      (items : List (ℕ × S)) (past : List Request) (rs : List Request)
      → Holds sha256 earth_satellite n items past
      → AllBuilt items past
      → let (items', past') = run items past rs in
        Holds sha256 earth_satellite n items' past' × AllBuilt items' past'
  unfolding run get_or_create_satellite
  run-invariant items past [] h all = (h, all)
  run-invariant items past (r ∷ rs) h all =
      run-invariant (get_or_create_satellite sha256 earth_satellite (suc n) items r).0 (r ∷ past) rs
        (after_lookup-Holds sha256 earth_satellite n items past r
          (cached_sat (sha256 (key_text r)) items) refl h)
        (after_lookup-AllBuilt items past r (cached_sat (sha256 (key_text r)) items) refl all).0

  -- After any calls a cache of at least one place holds the keys that were used last, the latest
  -- first, as many as it has places; and the next call returns what it builds itself, or what an
  -- earlier call built whose lines have the same digest.
  pub run-uses :
      (rs : List Request) (r : Request)
      → let (items, past) = run [] [] rs in
        (keys items ≡ take (suc n) (uses (map (λ q. sha256 (key_text q)) past)))
        × BuiltBy
            (r ∷ past)
            (sha256 (key_text r))
            (get_or_create_satellite sha256 earth_satellite (suc n) items r).1
  unfolding get_or_create_satellite uses
  run-uses rs r =
      let (items, past) = run [] [] rs in
      let (holds, all) = run-invariant [] [] rs refl tt in
      (
        holds,
        (after_lookup-AllBuilt items past r (cached_sat (sha256 (key_text r)) items) refl all).1,
      )
