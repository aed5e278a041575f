-- ===== src/Redact/Walk/Scope.antt =====
-- What a path filter covers, and that nothing in a covered document escapes the rule.
use traversal_connector.Common.{
  ℕ, Bool, true, false, ◌||◌, Option, none, some, List, [], ◌∷◌, ◌++◌, map, any, arith, Text,
  text_eq, ◌≡◌, ◌≢◌, refl, ◌⊎◌, inl, inr, Bool-cases, ◌==◌, ap, sym, ◌∙◌, subst, text_eq_iff, ◌↔◌,
}
use mathlib.Core.List.{Memᴰ}
use traversal_connector.Redact.{
  Library, CompiledRule, in_set, ancestors, has_path_prefix_in_set, apply_one_rule,
}
use traversal_connector.Redact.Walk.{
  Json, null, boolean, number, string, array, object, Items, no_items, item, Members, no_members,
  member, put, child_path, filtered, skips, in_scope, redact_number, redact, redact_items,
  redact_members,
}

any-map :
    {A B : Type 0} (q : B → Bool) (f : A → B) (xs : List A)
    → any q (map f xs) ≡ any (λ x. q (f x)) xs
any-map q f [] = refl
any-map q f (x ∷ xs) = rw (any-map q f xs) refl

any-ancestors :
    (q : Text → Bool) (s k : Text)
    → (q s || any q (ancestors s)) ≡ true
    → any q (ancestors (s ++ b'|' ∷ k)) ≡ true
unfolding ancestors
any-ancestors q [] k h = ground arith
any-ancestors q (c ∷ s) k h =
    let f : Text → Text = λ p. c ∷ p in
    let below = any-ancestors (λ p. q (c ∷ p)) s k in
    let here = any-map q f (ancestors s) in
    let there = any-map q f (ancestors (s ++ b'|' ∷ k)) in ground (arith, below, here, there)

-- A filter that holds for a path, other than the empty one, holds for whatever is below it.
pub has_path_prefix_in_set-child :
    (path k : Text) (set : List Text)
    → path ≢ []
    → has_path_prefix_in_set path set ≡ true
    → has_path_prefix_in_set (child_path path k) set ≡ true
unfolding has_path_prefix_in_set
has_path_prefix_in_set-child [] k set some_ h = absurd (some_ refl)
has_path_prefix_in_set-child (c ∷ s) k set some_ h =
    ground (arith, any-ancestors (λ p. in_set p set) (c ∷ s) k h)

any-ancestors_cons :
    (q : Text → Bool) (c : ℕ) (s : Text)
    → any q (ancestors (c ∷ s)) ≡ true
    → (((c == b'|') ≡ true) × (q [] ≡ true)) ⊎ (any (λ p. q (c ∷ p)) (ancestors s) ≡ true)
unfolding ancestors
any-ancestors_cons q c s h =
    let f : Text → Text = λ p. c ∷ p in ground (arith, any-map q f (ancestors s))

ancestors_sound :
    (q : Text → Bool) (s : Text)
    → any q (ancestors s) ≡ true
    → (p : Text) × (k : Text) × (s ≡ p ++ b'|' ∷ k) × (q p ≡ true)
unfolding ancestors
ancestors_sound q [] h = absurd (cc)
ancestors_sound q (c ∷ s) h = elim (any-ancestors_cons q c s h) [
  | inl (bar, found) ↦ ([], s, ground arith, found)
  | inr deeper ↦
      let (p, k, e, found) = ancestors_sound (λ p. q (c ∷ p)) s deeper in
      (c ∷ p, k, ap (λ x. c ∷ x) e, found)
]

in_set_sound : (field : Text) (set : List Text) → in_set field set ≡ true → Memᴰ field set
unfolding in_set
in_set_sound field [] h = absurd (cc)
in_set_sound field (p ∷ set) h = elim (Bool-cases (text_eq field p)) [
  | inl same ↦ Memᴰ.head ((text_eq_iff field p).0 same)
  | inr other ↦ Memᴰ.tail (in_set_sound field set (ground arith))
]

in_set_complete :
    (p field : Text) (set : List Text) → Memᴰ p set → field ≡ p → in_set field set ≡ true
unfolding in_set
in_set_complete p field [] m e = elim m [ ]
in_set_complete p field (q ∷ set) (Memᴰ.head h) e = ground (arith, (text_eq_iff field q).1 (e ∙ h))
in_set_complete p field (q ∷ set) (Memᴰ.tail m) e = ground (arith, in_set_complete p field set m e)

-- The field itself, or a node above it.
pub data Above (field p : Text) : Type 0 where
  itself : field ≡ p → Above field p
  parent : (k : Text) → field ≡ p ++ b'|' ∷ k → Above field p

-- A set of fields holds for exactly the fields in it and those below one, whose path goes on with
-- a separator.
pub has_path_prefix_in_set_iff :
    (field : Text) (set : List Text)
    → (has_path_prefix_in_set field set ≡ true) ↔ ((p : Text) × Memᴰ p set × Above field p)
unfolding has_path_prefix_in_set
has_path_prefix_in_set_iff field set = (forth, back)
  where
    forth : has_path_prefix_in_set field set ≡ true → (p : Text) × Memᴰ p set × Above field p
    forth h = elim (Bool-cases (in_set field set)) [
      | inl held ↦ (field, in_set_sound field set held, itself refl)
      | inr absent ↦
          let (p, k, e, found) = ancestors_sound (λ p. in_set p set) field (ground arith) in
          (p, in_set_sound p set found, parent k e)
    ]

    back : (p : Text) × Memᴰ p set × Above field p → has_path_prefix_in_set field set ≡ true
    back (p, m, itself e) = ground (arith, in_set_complete p field set m e)
    back (p, m, parent k e) =
        let found = in_set_complete p p set m refl in
        let below = any-ancestors (λ q. in_set q set) p k (ground arith) in
        let placed : any (λ q. in_set q set) (ancestors field) ≡ true =
          subst (λ x. any (λ q. in_set q set) (ancestors x) ≡ true) (sym e) below in
        ground (arith, placed)

module _ (lib : Library) (rule : CompiledRule lib.Regex) where
  abbrev replaced : Text → Text
  replaced s = (apply_one_rule lib rule s).0

  abbrev pub hits : Text → Bool
  hits s = (apply_one_rule lib rule s).1

  -- Every key, string and number of the document goes through the rule's expression.
  mutual
    pub redact_all : Json → Bool → Json × Bool
    redact_all null matched = (null, matched)
    redact_all (boolean b) matched = (boolean b, matched)
    redact_all (number s) matched = redact_number lib rule true s matched
    redact_all (string s) matched = (string (replaced s), matched || hits s)
    redact_all (array xs) matched = let (ys, m) = redact_all_items xs matched in (array ys, m)
    redact_all (object ms) matched =
        let (out, m) = redact_all_members ms no_members matched in (object out, m)

    pub redact_all_items : Items → Bool → Items × Bool
    redact_all_items no_items matched = (no_items, matched)
    redact_all_items (item v vs) matched =
        let (w, m) = redact_all v matched in let (ws, n) = redact_all_items vs m in (item w ws, n)

    pub redact_all_members : Members → Members → Bool → Members × Bool
    redact_all_members no_members out matched = (out, matched)
    redact_all_members (member k v ms) out matched =
        let (w, n) = redact_all v (matched || hits k) in
        redact_all_members ms (put (replaced k) w out) n

  -- The rule has no filter on a path, or has one that holds for it; the path is not the document's.
  abbrev pub Covers : Text → Type 0
  Covers path = (rule.redact_fields ≡ none) ⊎ ((path ≢ []) × (in_scope lib rule path ≡ true))

  filtered-child :
      (filter : Option (List Text)) (path k : Text)
      → path ≢ []
      → filtered filter true path ≡ true
      → filtered filter true (child_path path k) ≡ true
  filtered-child none path k some_ h = refl
  filtered-child (some set) path k some_ h = has_path_prefix_in_set-child path k set some_ h

  child_path-some : (path k : Text) → path ≢ [] → child_path path k ≢ []
  child_path-some [] k h e = h refl
  child_path-some (c ∷ s) k h e = cc

  Covers-child : (path k : Text) → Covers path → Covers (child_path path k)
  Covers-child path k (inl e) = inl e
  Covers-child path k (inr (some_, h)) =
      inr (child_path-some path k some_, filtered-child rule.redact_fields path k some_ h)

  Covers-in_scope : (path : Text) → Covers path → in_scope lib rule path ≡ true
  Covers-in_scope path (inl e) = rw e refl
  Covers-in_scope path (inr (_, h)) = h

  skips-none : (path : Text) → rule.skip_fields ≡ none → skips lib rule path ≡ false
  skips-none path e = rw e refl

  module _ (unskipped : rule.skip_fields ≡ none) where
    mutual
      unfolding redact redact_items redact_members redact_all redact_all_items redact_all_members

      redact-all :
          (path : Text) (v : Json) (m : Bool)
          → Covers path
          → redact lib rule path v m ≡ redact_all v m
      redact-all path null m c = refl
      redact-all path (boolean b) m c = refl
      redact-all path (number s) m c = rw (unskipped, Covers-in_scope path c) refl
      redact-all path (string s) m c = rw (unskipped, Covers-in_scope path c) refl
      redact-all path (array xs) m c = rw (unskipped, items-all path xs m c) refl
      redact-all path (object ms) m c = rw (unskipped, members-all path ms no_members m c) refl

      items-all :
          (path : Text) (xs : Items) (m : Bool)
          → Covers path
          → redact_items lib rule path xs m ≡ redact_all_items xs m
      items-all path no_items m c = refl
      items-all path (item v vs) m c =
          rw (redact-all path v m c, items-all path vs (redact_all v m).1 c) refl

      members-all :
          (path : Text) (ms out : Members) (m : Bool)
          → Covers path
          → redact_members lib rule path ms out m ≡ redact_all_members ms out m
      members-all path no_members out m c = refl
      members-all path (member k v ms) out m c =
          let at = child_path path k in
          let whole = redact-all at v (m || hits k) (Covers-child path k c) in
          let entered : redact_members lib rule path (member k v ms) out m
              ≡ redact_members lib rule path ms
                  (put (replaced k) (redact lib rule at v (m || hits k)).0 out)
                  (redact lib rule at v (m || hits k)).1 =
            rw (skips-none at unskipped, Covers-in_scope path c) refl in
          entered
          ∙ ap (λ r. redact_members lib rule path ms (put (replaced k) r.0 out) r.1) whole
          ∙ members-all path ms (put (replaced k) (redact_all v (m || hits k)).0 out)
              (redact_all v (m || hits k)).1 c

  -- Once a node is in the scope of a rule that skips nothing, everything below it is redacted: the
  -- walk is the one that puts every key, string and number through the rule's expression. The node
  -- is not the document itself, if the rule has a filter.
  pub redact-redact_all :
      (path : Text) (v : Json) (m : Bool)
      → rule.skip_fields ≡ none
      → Covers path
      → redact lib rule path v m ≡ redact_all v m
  redact-redact_all path v m unskipped c = redact-all unskipped path v m c
