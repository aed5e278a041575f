-- ===== src/Remote/Rollback.antt =====
-- Where signatures are required: no poll goes back, and a failed one changes nothing.
use traversal_connector.Common.{
  ℕ, ◌≤◌, ◌<◌, Bool, true, false, not, ◌&&◌, ◌||◌, Option, none, some, List, [], ◌∷◌, arith, leb,
  ◌==◌, Text, text_eq, text_eq_iff, ◌≡◌, ◌≢◌, refl, sym, ap, ◌∙◌, ◌⊎◌, inl, inr, Bool-cases,
  Option-cases, is_empty, subst, if◌then◌else◌,
}
use traversal_connector.Common.Int.{ℤ, ◌≤ℤ◌, ltb_ℤ}
use traversal_connector.Redact.{CompiledRule}
use traversal_connector.SignedConfig.{Verdict, refused, accepted}
use traversal_connector.Remote.{
  Library, Response, failed, not_found, not_modified, other_status, fetched, Outcome, error,
  unchanged, applied, unsigned, rolled_back, Loader, Judgment, rejected, in_force, replaces,
  judge_signed, judge_new, judge, apply_rules, keep_version, settle, refresh,
}

if-or : {A : Type 0} {x : A} (y : A) (b : Bool) → (if b || true then x else y) ≡ x
if-or y true = refl
if-or y false = refl

module _ (lib : Library) where
  -- A loader is no older than another: the version and the time of issue have not gone down, and
  -- the document and its rules are the same unless the version went up.
  pub record NotOlder (l r : Loader lib) : Type 0 where
    pub loaded : r.loaded ≡ true
    pub version : l.version ≤ r.version
    pub issued : l.issued ≤ℤ r.issued
    pub replaced : ((r.document ≡ l.document) × (r.rules ≡ l.rules)) ⊎ (l.version < r.version)

  -- A judgment that takes the loader back nowhere.
  data Forward (l : Loader lib) : Judgment lib → Type 0 where
    refuses : (o : Outcome) → o ≢ unchanged → o ≢ applied → Forward l (rejected o)
    keeps :
        (v : ℕ) (i : ℤ) (d : Text)
        → l.version ≤ v
        → l.issued ≤ℤ i
        → d ≡ l.document
        → Forward l (in_force v i d)
    renews :
        (body : Text) (v : ℕ) (i : ℤ) (d : Text)
        → l.version < v
        → l.issued ≤ℤ i
        → Forward l (replaces body v i d)

  judge_signed-Forward :
      (l : Loader lib) (r : Verdict) → l.loaded ≡ true → Forward l (judge_signed lib l r)
  unfolding judge_signed
  judge_signed-Forward l (refused r) h = refuses unsigned (cc) (cc)
  judge_signed-Forward l (accepted document c) h = elim (Bool-cases (ltb_ℤ c.issued_at l.issued)) [
    | inl older ↦ rw (h, older) (refuses rolled_back (cc) (cc))
    | inr kept ↦
        elim (Bool-cases (c.version == l.version && text_eq (lib.sha256 document) l.document)) [
          | inl same ↦
              rw (h, kept, same)
                (keeps c.version c.issued_at (lib.sha256 document) (ground arith) (ground arith)
                  ((text_eq_iff (lib.sha256 document) l.document).0 (ground arith)))
          | inr other ↦ elim (Bool-cases (leb c.version l.version)) [
            | inl back ↦ rw (h, kept, other, back) (refuses rolled_back (cc) (cc))
            | inr fresh ↦
                rw (h, kept, other, fresh)
                  (renews document c.version c.issued_at (lib.sha256 document) (ground arith)
                    (ground arith))
          ]
        ]
  ]

  judge-Forward :
      (l : Loader lib) (verify : Text → Verdict) (body : Text)
      → l.loaded ≡ true
      → Forward l (judge lib l (some verify) body)
  unfolding judge judge_new
  judge-Forward l verify body h = elim (Bool-cases (text_eq (lib.sha256 body) l.hash)) [
    | inl same ↦ rw (h, same) (keeps l.version l.issued l.document (omega arith) (omega arith) refl)
    | inr other ↦
        let signed : judge lib l (some verify) body ≡ judge_signed lib l (verify body) =
          rw other (if-or _ (not l.loaded)) in
        subst (Forward l) (sym signed) (judge_signed-Forward l (verify body) h)
  ]

  same-NotOlder : (l : Loader lib) → l.loaded ≡ true → NotOlder l l
  same-NotOlder l h = record {
    loaded = h;
    version = omega arith;
    issued = omega arith;
    replaced = inl (refl, refl);
  }

  settle-fault :
      (l : Loader lib) (hash etag : Text) (now : ℤ) (body : Text) (v : ℕ) (i : ℤ) (d : Text)
      → apply_rules lib body l.rules ≡ none
      → settle lib l hash etag now (replaces body v i d) ≡ (l, error)
  unfolding settle
  settle-fault l hash etag now body v i d e = rw (settle, e) refl

  settle-fine :
      (l : Loader lib) (hash etag : Text) (now : ℤ) (body : Text) (v : ℕ) (i : ℤ) (d : Text)
      (rules : List (CompiledRule lib.redact.Regex)) (n : ℕ)
      → apply_rules lib body l.rules ≡ some (rules, n)
      → settle lib l hash etag now (replaces body v i d) ≡ (
        keep_version lib (record l { rules = rules; rule_count = n }) hash etag now v i d,
        applied,
      )
  unfolding settle keep_version
  settle-fine l hash etag now body v i d rules n e = rw (settle, e) refl

  settle-NotOlder :
      (l : Loader lib) (hash etag : Text) (now : ℤ) (j : Judgment lib)
      → l.loaded ≡ true
      → Forward l j
      → NotOlder l (settle lib l hash etag now j).0
  unfolding settle keep_version
  settle-NotOlder l hash etag now j h (refuses o _ _) = record {
    loaded = h;
    version = omega arith;
    issued = omega arith;
    replaced = inl (refl, refl);
  }
  settle-NotOlder l hash etag now j h (keeps v i d newer later same) = record {
    loaded = refl;
    version = newer;
    issued = later;
    replaced = inl (same, refl);
  }
  settle-NotOlder l hash etag now j h (renews body v i d newer later) =
      elim (Option-cases (apply_rules lib body l.rules)) [
        | inl fault ↦
            subst (λ x. NotOlder l x.0) (sym (settle-fault l hash etag now body v i d fault))
              (same-NotOlder l h)
        | inr ((rules, n), fine) ↦
            subst (λ x. NotOlder l x.0) (sym (settle-fine l hash etag now body v i d rules n fine))
              (record {
                loaded = refl;
                version = omega (arith, newer);
                issued = later;
                replaced = inr newer;
              })
      ]

  -- Whatever a poll gets, the version and the time of issue do not go down, and the document and
  -- the rules in force stay unless the version goes up.
  refresh-NotOlder :
      (l : Loader lib) (verify : Text → Verdict) (now : ℤ) (r : Response)
      → l.loaded ≡ true
      → NotOlder l (refresh lib l (some verify) now r).0
  unfolding refresh
  refresh-NotOlder l verify now failed h = same-NotOlder l h
  refresh-NotOlder l verify now not_found h = same-NotOlder l h
  refresh-NotOlder l verify now other_status h = same-NotOlder l h
  refresh-NotOlder l verify now (fetched none etag) h = same-NotOlder l h
  refresh-NotOlder l verify now not_modified h = elim (Bool-cases (is_empty l.etag)) [
    | inl e ↦
        let kept : refresh lib l (some verify) now not_modified ≡ (l, error) =
          rw e (if-or _ (not l.loaded)) in
        subst (λ x. NotOlder l x.0) (sym kept) (same-NotOlder l h)
    | inr e ↦
        let seen : refresh lib l (some verify) now not_modified
            ≡ (record l { last_success = some now }, unchanged) =
          ground arith in
        subst (λ x. NotOlder l x.0) (sym seen)
          (record {
            loaded = h;
            version = omega arith;
            issued = omega arith;
            replaced = inl (refl, refl);
          })
  ]
  refresh-NotOlder l verify now (fetched (some body) etag) h =
      settle-NotOlder l (lib.sha256 body) etag now (judge lib l (some verify) body) h
        (judge-Forward l verify body h)

  -- One poll: what verifies signatures at its time, the time, and the response.
  pub record Poll : Type 0 where
    pub verify : Text → Verdict
    pub now : ℤ
    pub response : Response

  pub polled : Loader lib → List Poll → Loader lib
  polled l [] = l
  polled l (p ∷ ps) = polled (refresh lib l (some p.verify) p.now p.response).0 ps

  NotOlder-trans : {a b c : Loader lib} → NotOlder a b → NotOlder b c → NotOlder a c
  NotOlder-trans {a} {b} {c} p q = record {
    loaded = q.loaded;
    version = omega (arith, p.version, q.version);
    issued = omega (arith, p.issued, q.issued);
    replaced = elim p.replaced [
      | inr up ↦ inr (omega (arith, up, q.version))
      | inl (d, r) ↦ elim q.replaced [
        | inr up ↦ inr (omega (arith, up, p.version))
        | inl (d', r') ↦ inl (d' ∙ d, r' ∙ r)
      ]
    ];
  }

  -- Where signatures are required, no history of polls, with any responses, brings back an older
  -- configuration once one is loaded: the version and the time of issue never go down, and the
  -- document and the rules in force are the same as before unless the version went up.
  pub polled-NotOlder :
      (l : Loader lib) (ps : List Poll) → l.loaded ≡ true → NotOlder l (polled l ps)
  unfolding polled
  polled-NotOlder l [] h = same-NotOlder l h
  polled-NotOlder l (p ∷ ps) h =
      let once = refresh-NotOlder l p.verify p.now p.response h in
      NotOlder-trans once
        (polled-NotOlder (refresh lib l (some p.verify) p.now p.response).0 ps once.loaded)

  settle_retains :
      (l l' : Loader lib) (hash etag : Text) (now : ℤ) (j : Judgment lib) (o : Outcome)
      → settle lib l hash etag now j ≡ (l', o)
      → o ≢ unchanged
      → o ≢ applied
      → l' ≡ l
  unfolding settle
  settle_retains l l' hash etag now (rejected o') o e _ _ = ap (λ x. x.0) (sym e)
  settle_retains l l' hash etag now (in_force v i d) o e other _ =
      absurd (other (ap (λ x. x.1) (sym e)))
  settle_retains l l' hash etag now (replaces body v i d) o e _ other =
      elim (Option-cases (apply_rules lib body l.rules)) [
        | inl fault ↦ ap (λ x. x.0) (sym e ∙ settle-fault l hash etag now body v i d fault)
        | inr ((rules, n), fine) ↦
            absurd
              (other (ap (λ x. x.1) (sym e ∙ settle-fine l hash etag now body v i d rules n fine)))
      ]

  -- A poll with any outcome but `unchanged` and `applied` leaves the whole loader, and the rules in
  -- force, as they were, whether signatures are required or not.
  pub refresh_retains :
      (l l' : Loader lib) (verify : Option (Text → Verdict)) (now : ℤ) (r : Response) (o : Outcome)
      → refresh lib l verify now r ≡ (l', o)
      → o ≢ unchanged
      → o ≢ applied
      → l' ≡ l
  unfolding refresh
  refresh_retains l l' verify now failed o e _ _ = ap (λ x. x.0) (sym e)
  refresh_retains l l' verify now not_found o e _ _ = ap (λ x. x.0) (sym e)
  refresh_retains l l' verify now other_status o e _ _ = ap (λ x. x.0) (sym e)
  refresh_retains l l' verify now (fetched none etag) o e _ _ = ap (λ x. x.0) (sym e)
  refresh_retains l l' verify now not_modified o e other _ =
      elim (Bool-cases (not l.loaded || is_empty l.etag)) [
        | inl bad ↦ ground arith
        | inr good ↦ absurd (other (ground arith))
      ]
  refresh_retains l l' verify now (fetched (some body) etag) o e other other' =
      settle_retains l l' (lib.sha256 body) etag now (judge lib l verify body) o e other other'
