-- ===== src/Ingestion/Fetch/Sources.antt =====
-- Which source fetch_all takes its text from.
use sda_system.Prelude.{
  ℕ, suc, ◌*◌, ◌≤◌, ◌≡◌, ◌≢◌, refl, sym, ◌∙◌, inl, inr, ◌⊎◌, ◌↔◌, List, [], ◌∷◌, length, arith,
}
use sda_system.Ingestion.Fetch.{
  http_max_retries, Outcome, text_found, no_text, raised, Reply, Fetched, fetch_url, or_next,
  fetch_all,
}
use sda_system.Ingestion.Fetch.Attempts.{Serves, attempts-ServesAfter, fetch_url-costs}

module _ {U : Type 0} (server : U → ℕ → Reply) where
  -- The first of the sources that serve a text or raise at all comes to this outcome.
  unfoldable pub Picks : List U → Outcome → Type 0
  Picks [] outcome = ⊥
  Picks (url ∷ urls) outcome =
      Serves (server url) outcome
      ⊎ (((o : Outcome) → o ≢ no_text → ¬ Serves (server url) o) × Picks urls outcome)

  fetch_all-outcome :
      (urls : List U) (outcome : Outcome)
      → outcome ≢ no_text
      → ((fetch_all server urls).outcome ≡ outcome) ↔ Picks urls outcome
  unfolding fetch_all Picks
  fetch_all-outcome [] outcome ends = (λ e. absurd (ends (sym e)), λ p. absurd p)
  fetch_all-outcome (url ∷ urls) outcome ends =
      by_outcome (fetch_all-outcome urls outcome ends) (fetch_url (server url)).outcome refl
    where
      served :
          (o : Outcome)
          → o ≢ no_text
          → ((fetch_url (server url)).outcome ≡ o) ↔ Serves (server url) o
      served o n = attempts-ServesAfter (server url) o n http_max_retries 0 refl

      here :
          (o : Outcome)
          → o ≢ no_text
          → (fetch_url (server url)).outcome ≡ o
          → ((fetch_url (server url)).outcome ≡ outcome) ↔ (
              Serves (server url) outcome
              ⊎ (((u : Outcome) → u ≢ no_text → ¬ Serves (server url) u) × Picks urls outcome))
      here o n e = (
        λ h. inl ((served outcome ends).0 h),
        λ p. elim p [
          | inl s ↦ (served outcome ends).1 s
          | inr (never, later) ↦ absurd (never o n ((served o n).0 e))
        ],
      )

      by_outcome :
          ((fetch_all server urls).outcome ≡ outcome) ↔ Picks urls outcome
          → (o : Outcome) → (fetch_url (server url)).outcome ≡ o
          → ((or_next (fetch_url (server url)) (fetch_all server urls) o).outcome ≡ outcome) ↔ (
              Serves (server url) outcome
              ⊎ (((u : Outcome) → u ≢ no_text → ¬ Serves (server url) u) × Picks urls outcome))
      by_outcome rest (text_found t) e = unfold or_next in here (text_found t) (λ n. cc) e
      by_outcome rest raised e = unfold or_next in here raised (λ n. cc) e
      by_outcome rest no_text e =
          unfold or_next in
          let never : (u : Outcome) → u ≢ no_text → ¬ Serves (server url) u =
            λ u n s. n (sym ((served u n).1 s) ∙ e) in
          (
            λ h. inr (never, rest.0 h),
            λ p. elim p [
              | inl s ↦ absurd (never outcome ends s)
              | inr (none_here, later) ↦ rest.1 later
            ],
          )

  fetch_all-costs :
      (urls : List U)
      → ((fetch_all server urls).requests ≤ 3 * length urls)
        × ((fetch_all server urls).waited ≤ 6 * length urls)
  unfolding fetch_all
  fetch_all-costs [] = (omega arith, omega arith)
  fetch_all-costs (url ∷ urls) =
      let here = fetch_url-costs (server url) in
      let rest = fetch_all-costs urls in
      by_found (fetch_url (server url)) (fetch_all server urls) (fetch_url (server url)).outcome
        here rest
    where
      by_found :
          (found rest : Fetched) (o : Outcome)
          → (found.requests ≤ 3) × (found.waited ≤ 6)
          → (rest.requests ≤ 3 * length urls) × (rest.waited ≤ 6 * length urls)
          → ((or_next found rest o).requests ≤ 3 * suc (length urls))
            × ((or_next found rest o).waited ≤ 6 * suc (length urls))
      by_found found rest (text_found t) h k =
          unfold or_next in (omega (arith, h.0), omega (arith, h.1))
      by_found found rest raised h k = unfold or_next in (omega (arith, h.0), omega (arith, h.1))
      by_found found rest no_text h k =
          unfold or_next in (omega (arith, h.0, k.0), omega (arith, h.1, k.1))

  -- fetch_all returns a text, or lets an exception of a body that cannot be decoded through, exactly
  -- when some source comes to one of the two, and then what the first source that does comes to: in
  -- one of three attempts, after attempts that failed for the time being. It finds no text exactly
  -- when no source does. It sends at most three requests to each source and waits at most six
  -- seconds for each.
  pub fetch_all-Picks :
      (urls : List U)
      → ((outcome : Outcome)
          → outcome ≢ no_text
          → ((fetch_all server urls).outcome ≡ outcome) ↔ Picks urls outcome)
        × (((fetch_all server urls).outcome ≡ no_text)
            ↔ ((outcome : Outcome) → outcome ≢ no_text → ¬ Picks urls outcome))
        × ((fetch_all server urls).requests ≤ 3 * length urls)
        × ((fetch_all server urls).waited ≤ 6 * length urls)
  fetch_all-Picks urls = (
    fetch_all-outcome urls,
    no_text_iff (fetch_all server urls).outcome (fetch_all-outcome urls),
    (fetch_all-costs urls).0,
    (fetch_all-costs urls).1,
  )
    where
      no_text_iff :
          (o : Outcome)
          → ((outcome : Outcome) → outcome ≢ no_text → (o ≡ outcome) ↔ Picks urls outcome)
          → (o ≡ no_text) ↔ ((outcome : Outcome) → outcome ≢ no_text → ¬ Picks urls outcome)
      no_text_iff no_text known = (λ e outcome n p. n (sym ((known outcome n).1 p)), λ h. refl)
      no_text_iff (text_found t) known =
          let some_end : text_found t ≢ no_text = λ e. cc in
          (λ e. absurd (cc), λ h. absurd (h (text_found t) some_end ((known _ some_end).0 refl)))
      no_text_iff raised known =
          let some_end : raised ≢ no_text = λ e. cc in
          (λ e. absurd (cc), λ h. absurd (h raised some_end ((known _ some_end).0 refl)))
