-- ===== src/Ingestion/Fetch.antt =====
-- ingestion/fetcher.py: fetch_all and _fetch_url. The answers of the servers are an argument. Waits
-- are counted in seconds. The text that fetch_all finds goes to _parse_and_store (Ingestion/Store).
pub mod Attempts
pub mod Sources
use sda_system.Prelude.{
  ℕ, zero, suc, ◌+◌, ◌^◌, Bool, true, false, ◌&&◌, Option, none, some, List, [], ◌∷◌, length, elem,
  ltb, ◌==◌, if◌then◌else◌,
}
use sda_system.Ingestion.Tle.{Line, strip}

-- `_HTTP_MAX_RETRIES`, `_TRANSIENT_STATUSES`
abbrev pub http_max_retries : ℕ
http_max_retries = 3

abbrev pub transient_statuses : List ℕ
transient_statuses = 429 ∷ 500 ∷ 502 ∷ 503 ∷ 504 ∷ []

-- One GET: it is answered, with a body that is decoded or not (`none`, on which `resp.text` raises a
-- UnicodeDecodeError), or raises a ClientError or TimeoutError.
pub data Reply : Type 0 where
  answered : (status : ℕ) → (is_html : Bool) → (body : Option Line) → Reply
  network_error : Reply

-- A text, None, or an exception.
pub data Outcome : Type 0 where
  text_found : Line → Outcome
  no_text raised : Outcome

-- What a URL comes to: the outcome, the requests sent, and the seconds waited.
pub record Fetched : Type 0 where
  pub outcome : Outcome
  pub requests : ℕ
  pub waited : ℕ

abbrev pub is_blank : Line → Bool
is_blank body = length (strip body) == 0

-- An answer with status 200.
abbrev pub body_text : (is_html : Bool) → Line → Outcome
body_text is_html body =
    if is_html then no_text else if is_blank body then no_text else text_found body

-- The end of an attempt without another one.
abbrev pub give_up : ℕ → Outcome → Fetched
give_up attempt outcome = record { outcome = outcome; requests = attempt; waited = 0 }

abbrev pub wait_and_retry : ℕ → Fetched → Fetched
wait_and_retry attempt rest = record rest { waited = 2 ^ attempt + rest.waited }

-- The body of the `for`, where `rest` is what the later attempts come to.
unfoldable pub on_reply : (attempt : ℕ) → (rest : Fetched) → Reply → Fetched
on_reply attempt rest (answered status is_html none) = give_up attempt raised
on_reply attempt rest (answered status is_html (some body)) =
    if status == 200
    then give_up attempt (body_text is_html body)
    else if elem status transient_statuses && ltb attempt http_max_retries
    then wait_and_retry attempt rest
    else give_up attempt no_text
on_reply attempt rest network_error =
    if ltb attempt http_max_retries then wait_and_retry attempt rest else give_up attempt no_text

-- The `for`, with `left` attempts to go after `done`.
unfoldable pub fetch_attempts : (ℕ → Reply) → (left done : ℕ) → Fetched
fetch_attempts replies zero done = give_up done no_text
fetch_attempts replies (suc left) done =
    on_reply (done + 1) (fetch_attempts replies left (done + 1)) (replies (done + 1))

-- `_fetch_url`, on the replies to its attempts by number.
abbrev pub fetch_url : (ℕ → Reply) → Fetched
fetch_url replies = fetch_attempts replies http_max_retries 0

-- The other URLs are only asked where this one came to None.
unfoldable pub or_next : Fetched → Fetched → Outcome → Fetched
or_next found rest (text_found text) = found
or_next found rest raised = found
or_next found rest no_text = record {
  outcome = rest.outcome;
  requests = found.requests + rest.requests;
  waited = found.waited + rest.waited;
}

module _ {U : Type 0} (server : U → ℕ → Reply) where
  -- `fetch_all` up to `_parse_and_store`; with `no_text` it raises a RuntimeError, with `raised` the
  -- exception of _fetch_url.
  unfoldable pub fetch_all : (urls : List U) → Fetched
  fetch_all [] = record { outcome = no_text; requests = 0; waited = 0 }
  fetch_all (url ∷ urls) =
      or_next (fetch_url (server url)) (fetch_all urls) (fetch_url (server url)).outcome
