-- ===== src/Redact/File/Polls.antt =====
-- How long a loader whose file cannot be loaded keeps its rules.
use traversal_connector.Common.{
  ℕ, zero, suc, ◌+◌, ◌<◌, ◌≤◌, Bool, true, false, not, ◌&&◌, ◌||◌, Option, none, some, List, [],
  ◌∷◌, ◌≡◌, refl, sym, ap, ◌∙◌, arith, any, if◌then◌else◌, Text, text_eq, leb, Bool-cases, inl, inr,
}
use traversal_connector.Redact.Compile.{update}
use traversal_connector.Redact.File.{
  Library, FileLoader, Parsed, is_nil, listed, refresh_parsed, file_refresh, Status, running,
  stopped, counted, poll, polls, run,
}

-- Whether three polls one after the other failed, somewhere in a list of what polls came to.
abbrev pub starts_failing : List Bool → Bool
starts_failing (false ∷ false ∷ false ∷ rest) = true
starts_failing _ = false

abbrev pub three_failures : List Bool → Bool
three_failures [] = false
three_failures (o ∷ os) = starts_failing (o ∷ os) || three_failures os

-- Failures before others.
abbrev failures : ℕ → List Bool → List Bool
failures zero os = os
failures (suc n) os = false ∷ failures n os

module _ (lib : Library) where
  abbrev pub is_stopped : Status lib → Bool
  is_stopped (stopped l) = true
  is_stopped (running l) = false

  abbrev pub loader : Status lib → FileLoader lib
  loader (stopped l) = l
  loader (running l) = l

  -- What refresh comes to on one read after the other.
  unfoldable pub outcomes : FileLoader lib → List (Option Text) → List Bool
  outcomes l [] = []
  outcomes l (read ∷ reads) = let (m, fine) = file_refresh lib l read in fine ∷ outcomes m reads

  -- The loader with a count of failures.
  abbrev pub with_failures : FileLoader lib → ℕ → FileLoader lib
  with_failures l n = record l { consecutive_failures = n }

  -- refresh neither reads nor changes the count.
  parsed-with_failures :
      (l : FileLoader lib) (n : ℕ) (hash : Text) (p : Option Parsed)
      → let (m, fine) = refresh_parsed lib l hash p in
        refresh_parsed lib (with_failures l n) hash p ≡ (with_failures m n, fine)
  unfolding refresh_parsed
  parsed-with_failures l n hash none = refl
  parsed-with_failures l n hash (some p) = elim (Bool-cases (is_nil p.rules && p.is_remote)) [
    | inl remote ↦ rw (remote) refl
    | inr local ↦
        let (rules, fine) =
          update lib.redact
            (record { default_replacement = p.default_replacement; rules = listed p.rules })
            l.rules in
        rw (local) (elim (Bool-cases fine) [ inl good ↦ rw (good) refl | inr bad ↦ rw (bad) refl ])
  ]

  refresh-with_failures :
      (l : FileLoader lib) (n : ℕ) (read : Option Text)
      → let (m, fine) = file_refresh lib l read in
        file_refresh lib (with_failures l n) read ≡ (with_failures m n, fine)
  unfolding file_refresh
  refresh-with_failures l n none = refl
  refresh-with_failures l n (some body) =
      elim (Bool-cases (l.loaded && text_eq (lib.sha256 body) l.last_hash)) [
        | inl same ↦ rw (same) refl
        | inr new ↦ rw (new) (parsed-with_failures l n (lib.sha256 body) (lib.toml body))
      ]

  parsed-failed :
      (l : FileLoader lib) (hash : Text) (p : Option Parsed)
      → (refresh_parsed lib l hash p).1 ≡ false
      → (refresh_parsed lib l hash p).0 ≡ l
  unfolding refresh_parsed
  parsed-failed l hash none e = refl
  parsed-failed l hash (some p) e = ground arith

  refresh-failed :
      (l : FileLoader lib) (read : Option Text)
      → (file_refresh lib l read).1 ≡ false
      → (file_refresh lib l read).0 ≡ l
  unfolding file_refresh
  refresh-failed l none e = refl
  refresh-failed l (some body) e =
      elim (Bool-cases (l.loaded && text_eq (lib.sha256 body) l.last_hash)) [
        | inl same ↦ rw (same) refl
        | inr new ↦ rw (new) (parsed-failed l (lib.sha256 body) (lib.toml body) (rw (new) at e))
      ]

  poll-counted :
      (l : FileLoader lib) (n : ℕ) (read : Option Text) (fine : Bool)
      → (file_refresh lib l read).1 ≡ fine
      → poll lib (with_failures l n) read
        ≡ counted lib (with_failures (file_refresh lib l read).0 n, fine)
  unfolding poll
  poll-counted l n read fine e = ap (counted lib) (
      refresh-with_failures l n read
      ∙ ap (λ (b : Bool). (with_failures (file_refresh lib l read).0 n, b)) e)

  -- The rest of the polls, behind one.
  abbrev on : Status lib → List (Option Text) → Status lib
  on (stopped m) reads = stopped m
  on (running m) reads = polls lib m reads

  polls-on :
      (l : FileLoader lib) (read : Option Text) (reads : List (Option Text)) (s : Status lib)
      → poll lib l read ≡ s
      → polls lib l (read ∷ reads) ≡ on s reads
  unfolding polls
  polls-on l read reads (stopped m) e = rw (e, polls) refl
  polls-on l read reads (running m) e = rw (e, polls) refl

  -- Fewer than three failures, and then a success, count for nothing.
  reset :
      (n : ℕ) (os : List Bool) → n < 3 → three_failures (failures n (true ∷ os)) ≡ three_failures os
  reset zero os small = refl
  reset (suc zero) os small = refl
  reset (suc (suc zero)) os small = refl
  reset (suc (suc (suc n))) os small = absurd (omega arith)

  few : (n : ℕ) → n < 3 → three_failures (failures n []) ≡ false
  few zero small = refl
  few (suc zero) small = refl
  few (suc (suc zero)) small = refl
  few (suc (suc (suc n))) small = absurd (omega arith)

  one_more : (n : ℕ) (os : List Bool) → failures n (false ∷ os) ≡ failures (n + 1) os
  one_more zero os = refl
  one_more (suc n) os =
      let count : suc (n + 1) ≡ suc n + 1 = omega arith in
      ap (λ (xs : List Bool). false ∷ xs) (one_more n os) ∙ ap (λ (k : ℕ). failures k os) count

  starts-three : (n : ℕ) (os : List Bool) → 3 ≤ n → three_failures (failures n os) ≡ true
  starts-three (suc (suc (suc n))) os h = refl
  starts-three zero os h = absurd (omega arith)
  starts-three (suc zero) os h = absurd (omega arith)
  starts-three (suc (suc zero)) os h = absurd (omega arith)

  polls-stop :
      (l : FileLoader lib) (n : ℕ) (reads : List (Option Text))
      → n < 3
      → is_stopped (polls lib (with_failures l n) reads)
        ≡ three_failures (failures n (outcomes l reads))
  unfolding polls outcomes counted
  polls-stop l n [] small = sym (few n small)
  polls-stop l n (read ∷ reads) small =
      let m = (file_refresh lib l read).0 in
      elim (Bool-cases (file_refresh lib l read).1) [
        | inl good ↦
            ap is_stopped (
              polls-on (with_failures l n) read reads (running (with_failures m 0))
                (poll-counted l n read true good))
            ∙ polls-stop m 0 reads (omega arith)
            ∙ sym (
                ap (λ (b : Bool). three_failures (failures n (b ∷ outcomes m reads))) good
                ∙ reset n (outcomes m reads) small)
        | inr bad ↦
            let counts : three_failures (failures n (outcomes l (read ∷ reads)))
                ≡ three_failures (failures (n + 1) (outcomes m reads)) =
              ap (λ (b : Bool). three_failures (failures n (b ∷ outcomes m reads))) bad
              ∙ ap three_failures (one_more n (outcomes m reads)) in
            elim (Bool-cases (leb 3 (n + 1))) [
              | inl third ↦
                  ap is_stopped (
                    polls-on (with_failures l n) read reads (stopped (with_failures m (n + 1)))
                      (poll-counted l n read false bad ∙ rw (third) refl))
                  ∙ sym (counts ∙ starts-three (n + 1) (outcomes m reads) (ground arith))
              | inr fewer ↦
                  ap is_stopped (
                    polls-on (with_failures l n) read reads (running (with_failures m (n + 1)))
                      (poll-counted l n read false bad ∙ rw (fewer) refl))
                  ∙ polls-stop m (n + 1) reads (ground arith)
                  ∙ sym counts
            ]
      ]

  polls-rules :
      (l : FileLoader lib) (n : ℕ) (reads : List (Option Text))
      → any (λ o. o) (outcomes l reads) ≡ false
      → (loader (polls lib (with_failures l n) reads)).rules ≡ l.rules
  unfolding polls outcomes counted
  polls-rules l n [] none_ = refl
  polls-rules l n (read ∷ reads) none_ =
      let m = (file_refresh lib l read).0 in
      let bad : (file_refresh lib l read).1 ≡ false = ground (arith, none_) in
      let kept : m.rules ≡ l.rules =
        ap (λ (x : FileLoader lib). x.rules) (refresh-failed l read bad) in
      elim (Bool-cases (leb 3 (n + 1))) [
        | inl third ↦
            ap (λ (x : Status lib). (loader x).rules)
              (polls-on (with_failures l n) read reads (stopped (with_failures m (n + 1)))
                (poll-counted l n read false bad ∙ rw (third) refl))
            ∙ kept
        | inr fewer ↦
            ap (λ (x : Status lib). (loader x).rules)
              (polls-on (with_failures l n) read reads (running (with_failures m (n + 1)))
                (poll-counted l n read false bad ∙ rw (fewer) refl))
            ∙ polls-rules m (n + 1) reads (ground (arith, none_))
            ∙ kept
      ]

  guarded :
      (l : FileLoader lib) (b : Bool) (s : Status lib) (os : List Bool)
      → is_stopped s ≡ three_failures os
      → (any (λ o. o) os ≡ false → (loader s).rules ≡ l.rules)
      → (is_stopped (if not b then stopped l else s) ≡ (not b || three_failures os))
        × (any (λ o. o) os ≡ false → (loader (if not b then stopped l else s)).rules ≡ l.rules)
  guarded l true s os stops keeps = (stops, keeps)
  guarded l false s os stops keeps = (refl, λ _. refl)

  -- For a loader that counts no failure: Run stops exactly if nothing was loaded before, or three
  -- polls one after the other fail; a success between failures starts the count again. As long as
  -- no poll succeeds, the rules in force are those that it had, whether it stops or not.
  pub run_stops :
      (l : FileLoader lib) (reads : List (Option Text))
      → l.consecutive_failures ≡ 0
      → (is_stopped (run lib l reads) ≡ (not l.loaded || three_failures (outcomes l reads)))
        × (any (λ o. o) (outcomes l reads) ≡ false → (loader (run lib l reads)).rules ≡ l.rules)
  unfolding run
  run_stops l reads z =
      let fresh : with_failures l 0 ≡ l = ap (with_failures l) (sym z) in
      let stops : is_stopped (polls lib l reads) ≡ three_failures (outcomes l reads) =
        ap (λ (x : FileLoader lib). is_stopped (polls lib x reads)) (sym fresh)
        ∙ polls-stop l 0 reads (omega arith) in
      let keeps : any (λ o. o) (outcomes l reads) ≡ false
          → (loader (polls lib l reads)).rules ≡ l.rules =
        λ none_.
          ap (λ (x : FileLoader lib). (loader (polls lib x reads)).rules) (sym fresh)
          ∙ polls-rules l 0 reads none_ in
      guarded l l.loaded (polls lib l reads) (outcomes l reads) stops keeps
