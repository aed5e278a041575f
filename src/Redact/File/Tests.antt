-- ===== src/Redact/File/Tests.antt =====
-- A loader whose file comes and goes, and the witness of the theorem on it.
use traversal_connector.Common.{
  [], ◌∷◌, ◌≡◌, refl, none, some, true, false, text_eq, List, ℕ, Option, Text, any,
}
use traversal_connector.Redact.File.{Library, FileLoader, file_refresh, counted, poll, polls, run}
use traversal_connector.Redact.File.Polls.{is_stopped, loader, outcomes, run_stops}

abbrev library : Library
library = record {
  redact = record {
    Regex = List ℕ;
    compile = some;
    matches = text_eq;
    replace_all = λ re s r. s;
    idna = some;
    to_lower = λ s. s;
  };
  toml = λ body. none;
  sha256 = λ body. body;
}

abbrev loaded : FileLoader library
loaded = record { last_hash = []; loaded = true; consecutive_failures = 0; rules = [] }

-- The file is gone, but is there at every third poll.
abbrev now_and_then : List (Option Text)
now_and_then = none ∷ none ∷ some [] ∷ none ∷ none ∷ []

now_and_then_test : is_stopped library (run library loaded now_and_then) ≡ false
unfolding run polls poll counted file_refresh text_eq
now_and_then_test = refl

run_stops_example :
    (is_stopped library (run library loaded (none ∷ none ∷ none ∷ [])) ≡ true)
    × (any (λ o. o) (outcomes library loaded (none ∷ none ∷ none ∷ [])) ≡ false
        → (loader library (run library loaded (none ∷ none ∷ none ∷ []))).rules ≡ [])
unfolding outcomes file_refresh
run_stops_example = run_stops library loaded (none ∷ none ∷ none ∷ []) refl
