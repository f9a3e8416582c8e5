-- ===== src/Ingestion/Fetch/Attempts.antt =====
-- What the attempts at one URL come to.
use mathlib.Core.Path.{subst}
use sda_system.Prelude.{
  ℕ, zero, suc, ◌+◌, ◌^◌, ◌≤◌, ◌<◌, ◌≡◌, ◌≢◌, refl, sym, ap, ◌∙◌, inl, inr, ◌↔◌, Bool, true, false,
  ◌&&◌, none, some, elem, ltb, ◌==◌, if◌then◌else◌, Bool-cases, arith,
}
use sda_system.Ingestion.Fetch.{
  http_max_retries, transient_statuses, Outcome, no_text, raised, Reply, answered, network_error,
  Fetched, body_text, give_up, wait_and_retry, on_reply, fetch_attempts, fetch_url,
}

-- What a reply comes to where no other attempt follows, and whether it is worth another one.
unfoldable pub outcome_of : Reply → Outcome
outcome_of (answered status is_html none) = raised
outcome_of (answered status is_html (some body)) =
    if status == 200 then body_text is_html body else no_text
outcome_of network_error = no_text

unfoldable pub is_transient : Reply → Bool
is_transient (answered status is_html none) = false
is_transient (answered status is_html (some body)) = elem status transient_statuses
is_transient network_error = true

on_reply_lem :
    (attempt : ℕ) (rest : Fetched) (r : Reply)
    → on_reply attempt rest r ≡ (
        if is_transient r && ltb attempt http_max_retries
        then wait_and_retry attempt rest
        else give_up attempt (outcome_of r))
unfolding on_reply outcome_of is_transient
on_reply_lem attempt rest (answered status is_html none) = refl
on_reply_lem attempt rest (answered status is_html (some body)) =
    elim (Bool-cases (status == 200)) [
      | inl e ↦
          let fine : elem status transient_statuses ≡ false = unfold elem in ground arith in
          rw (e, fine) refl
      | inr e ↦ rw e refl
    ]
on_reply_lem attempt rest network_error = refl

transient-outcome_of : (r : Reply) → is_transient r ≡ true → outcome_of r ≡ no_text
unfolding outcome_of is_transient
transient-outcome_of (answered status is_html none) t = absurd (cc)
transient-outcome_of (answered status is_html (some body)) t =
    let other : (status == 200) ≡ false = unfold elem in ground arith in rw other refl
transient-outcome_of network_error t = refl

-- Some attempt after the given ones comes to the outcome, and those before it are worth another one.
pub record ServesAfter (done : ℕ) (replies : ℕ → Reply) (outcome : Outcome) : Type 0 where
  pub attempt : ℕ
  pub later : done < attempt
  pub in_time : attempt ≤ http_max_retries
  pub given : outcome_of (replies attempt) ≡ outcome
  pub passing : (m : ℕ) → done < m → m < attempt → is_transient (replies m) ≡ true

abbrev pub Serves : (ℕ → Reply) → Outcome → Type 0
Serves = ServesAfter 0

module _ (replies : ℕ → Reply) (outcome : Outcome) where
  -- The next reply is worth another attempt.
  go_on :
      (done : ℕ)
      → is_transient (replies (done + 1)) ≡ true
      → ServesAfter (done + 1) replies outcome
      → ServesAfter done replies outcome
  go_on done t s = record {
    attempt = s.attempt;
    later = omega (arith, s.later);
    in_time = s.in_time;
    given = s.given;
    passing = λ m low high. elim (Bool-cases (m == done + 1)) [
      | inl e ↦
          let same : m ≡ done + 1 = ground arith in
          subst (λ k. is_transient (replies k) ≡ true) (sym same) t
      | inr e ↦ s.passing m (ground arith) high
    ];
  }

  go_back :
      (done : ℕ)
      → outcome ≢ no_text
      → is_transient (replies (done + 1)) ≡ true
      → ServesAfter done replies outcome
      → ServesAfter (done + 1) replies outcome
  go_back done some_end t s = elim (Bool-cases (s.attempt == done + 1)) [
    | inl e ↦
        let same : s.attempt ≡ done + 1 = ground arith in
        let nothing = transient-outcome_of (replies (done + 1)) t in
        let given = subst (λ k. outcome_of (replies k) ≡ outcome) same s.given in
        absurd (some_end (sym given ∙ nothing))
    | inr e ↦ record {
      attempt = s.attempt;
      later = ground (arith, s.later);
      in_time = s.in_time;
      given = s.given;
      passing = λ m low high. s.passing m (omega arith) high;
    }
  ]

  -- The next reply ends the attempts.
  stop_here :
      (done : ℕ)
      → done < http_max_retries
      → outcome_of (replies (done + 1)) ≡ outcome
      → ServesAfter done replies outcome
  stop_here done h given = record {
    attempt = done + 1;
    later = omega arith;
    in_time = omega arith;
    given = given;
    passing = λ m low high. absurd (omega arith);
  }

  stopped_here :
      (done : ℕ)
      → (is_transient (replies (done + 1)) && ltb (done + 1) http_max_retries) ≡ false
      → ServesAfter done replies outcome
      → outcome_of (replies (done + 1)) ≡ outcome
  stopped_here done h s = elim (Bool-cases (s.attempt == done + 1)) [
    | inl e ↦
        let same : s.attempt ≡ done + 1 = ground arith in
        subst (λ k. outcome_of (replies k) ≡ outcome) same s.given
    | inr e ↦
        let more : done + 1 < s.attempt = ground (arith, s.later) in
        let passed = s.passing (done + 1) (omega arith) more in
        absurd (ground (arith, passed, h, more, s.in_time))
  ]

  pub attempts-ServesAfter :
      outcome ≢ no_text
      → (left done : ℕ) → left + done ≡ http_max_retries
      → ((fetch_attempts replies left done).outcome ≡ outcome) ↔ ServesAfter done replies outcome
  unfolding fetch_attempts
  attempts-ServesAfter some_end zero done h =
      (λ e. absurd (some_end (sym e)), λ s. absurd (omega (arith, s.later, s.in_time)))
  attempts-ServesAfter some_end (suc left) done h =
      let (to, from) = attempts-ServesAfter some_end left (done + 1) (omega arith) in
      let rest = fetch_attempts replies left (done + 1) in
      let step =
        ap (λ (f : Fetched). f.outcome) (on_reply_lem (done + 1) rest (replies (done + 1))) in
      elim (Bool-cases (is_transient (replies (done + 1)) && ltb (done + 1) http_max_retries)) [
        | inl b ↦
            let t : is_transient (replies (done + 1)) ≡ true = ground arith in
            let same = rw b at step in
            (λ e. go_on done t (to (sym same ∙ e)), λ s. same ∙ from (go_back done some_end t s))
        | inr b ↦
            let same = rw b at step in
            (λ e. stop_here done (omega arith) (sym same ∙ e), λ s. same ∙ stopped_here done b s)
      ]

-- What one attempt adds to the requests and the seconds.
on_reply-costs :
    (attempt : ℕ) (rest : Fetched) (r : Reply) (most wait : ℕ)
    → attempt ≤ most
    → rest.requests ≤ most
    → rest.waited ≤ wait
    → ((on_reply attempt rest r).requests ≤ most)
      × ((on_reply attempt rest r).waited
          ≤ (if ltb attempt http_max_retries then 2 ^ attempt + wait else 0))
on_reply-costs attempt rest r most wait h k w =
    subst
      (λ (f : Fetched).
        (f.requests ≤ most)
        × (f.waited ≤ (if ltb attempt http_max_retries then 2 ^ attempt + wait else 0)))
      (sym (on_reply_lem attempt rest r)) (by_tests (is_transient r) (ltb attempt http_max_retries))
  where
    by_tests :
        (t more : Bool)
        → let f =
            if t && more then wait_and_retry attempt rest else give_up attempt (outcome_of r) in
          (f.requests ≤ most) × (f.waited ≤ (if more then 2 ^ attempt + wait else 0))
    by_tests true true = (k, omega arith)
    by_tests true false = (h, omega arith)
    by_tests false more = (h, omega arith)

pub fetch_url-costs :
    (replies : ℕ → Reply) → ((fetch_url replies).requests ≤ 3) × ((fetch_url replies).waited ≤ 6)
unfolding fetch_attempts
fetch_url-costs replies =
    let last =
      on_reply-costs 3 (give_up 3 no_text) (replies 3) 3 0 (omega arith) (omega arith)
        (omega arith) in
    let second =
      on_reply-costs 2 (fetch_attempts replies 1 2) (replies 2) 3 0 (omega arith) last.0 last.1 in
    on_reply-costs 1 (fetch_attempts replies 2 1) (replies 1) 3 4 (omega arith) second.0 second.1
