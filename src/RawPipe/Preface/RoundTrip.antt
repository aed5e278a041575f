-- ===== src/RawPipe/Preface/RoundTrip.antt =====
-- What a connector writes as its preface is what a controller reads.
use traversal_connector.Common.{
  ℕ, zero, suc, ◌≤◌, ◌<◌, Bool, true, false, not, ◌&&◌, ◌||◌, Option, none, some, List, [], ◌∷◌,
  ◌++◌, leb, ◌==◌, Text, codes, text_eq, text_eq_iff, text_eq_refl, is_empty, split, join, all,
  length, length-append, split-join, join-append, all-append, all-join, lacks, ◌≡◌, refl, sym, ap,
  subst, ◌∙◌, inl, inr, arith, Bool-cases, Option-cases, append_assoc, append-nil,
}
use traversal_connector.RawPipe.Preface.{
  Hello, preface, max_preface_len, preface_roots, preface_kids, value_byte, preface_value,
  join_values, list_of, add_field, bounded_line, trim_newline, cut_field, set_field, parse_fields,
  hello, is_connector_id, write_preface, parse_tagged, parse_preface, read_line, read_from,
  read_preface,
}

trim_newline-append : (s : Text) → trim_newline (s ++ 10 ∷ []) ≡ s
unfolding trim_newline
trim_newline-append [] = refl
trim_newline-append (c ∷ []) = refl
trim_newline-append (c ∷ d ∷ s) = ap (λ (t : Text). c ∷ t) (trim_newline-append (d ∷ s))

-- The fields that a list of values adds.
abbrev field : Text → List Text → List Text
field key [] = []
field key (v ∷ vs) = (key ++ b'=' ∷ join_values (v ∷ vs)) ∷ []

add_field-join :
    (tag : Text) (fs : List Text) (key : Text) (vs : List Text) (line : Text)
    → add_field (join b' ' tag fs) key vs ≡ some line
    → (line ≡ join b' ' tag (fs ++ field key vs)) × (all preface_value vs ≡ true)
unfolding add_field
add_field-join tag fs key [] line e = (ground (arith, ap (join b' ' tag) (append-nil fs)), refl)
add_field-join tag fs key (v ∷ vs) line e = elim (Bool-cases (all preface_value (v ∷ vs))) [
  | inl fine ↦ (ground (arith, join-append b' ' tag fs (key ++ b'=' ∷ join_values (v ∷ vs))), fine)
  | inr bad ↦ absurd (ground arith)
]

value_byte_other : (c sep : ℕ) → value_byte sep ≡ false → value_byte c ≡ true → (c == sep) ≡ false
value_byte_other c sep s h = ground arith

-- A byte that can stand in a value is no separator.
value_byte-lacks :
    (sep : ℕ) (v : Text) → value_byte sep ≡ false → all value_byte v ≡ true → lacks sep v ≡ true
value_byte-lacks sep [] s h = refl
value_byte-lacks sep (c ∷ v) s h = ground (arith, value_byte-lacks sep v s, value_byte_other c sep)

list_of_some : (s : Text) → is_empty s ≡ false → list_of s ≡ (split b',' s).0 ∷ (split b',' s).1
unfolding list_of
list_of_some [] h = cc
list_of_some (c ∷ s) h = refl

join_some : (v : Text) (vs : List Text) → is_empty v ≡ false → is_empty (join b',' v vs) ≡ false
unfolding join
join_some [] vs h = cc
join_some (c ∷ v) [] h = refl
join_some (c ∷ v) (w ∷ vs) h = refl

values_lack :
    (sep : ℕ) (vs : List Text)
    → value_byte sep ≡ false
    → all preface_value vs ≡ true
    → all (lacks sep) vs ≡ true
unfolding preface_value
values_lack sep [] s h = refl
values_lack sep (v ∷ vs) s h = ground (arith, values_lack sep vs s, value_byte-lacks sep v s)

list_of-join_values : (vs : List Text) → all preface_value vs ≡ true → list_of (join_values vs) ≡ vs
unfolding join_values
list_of-join_values [] h = unfold list_of in refl
list_of-join_values (v ∷ vs) h =
    let lack = values_lack b',' (v ∷ vs) refl h in
    list_of_some (join b',' v vs) (join_some v vs (unfold preface_value in ground arith))
    ∙ ap (λ (r : Text × List Text). r.0 ∷ r.1) (split-join b',' v vs (ground arith) (ground arith))

-- A key and what it is cut from.
cut_roots : (v : Text) → cut_field (preface_roots ++ b'=' ∷ v) ≡ some (preface_roots, v)
unfolding cut_field
cut_roots v = refl

cut_kids : (v : Text) → cut_field (preface_kids ++ b'=' ∷ v) ≡ some (preface_kids, v)
unfolding cut_field
cut_kids v = refl

parse_fields_lem :
    (id : Text) (roots kids : List Text)
    → all preface_value roots ≡ true
    → all preface_value kids ≡ true
    → parse_fields []
        (record { connector_id = id; roots = []; kids = [] })
        (field preface_roots roots ++ field preface_kids kids)
      ≡ some (record { connector_id = id; roots = roots; kids = kids })
unfolding parse_fields cut_field set_field text_eq
parse_fields_lem id [] [] r k = refl
parse_fields_lem id [] (v ∷ vs) r k = rw (list_of-join_values (v ∷ vs) k) refl
parse_fields_lem id (v ∷ vs) [] r k = rw (list_of-join_values (v ∷ vs) r) refl
parse_fields_lem id (v ∷ vs) (w ∷ ws) r k =
    rw (list_of-join_values (v ∷ vs) r, list_of-join_values (w ∷ ws) k) refl

-- No field has a space or a newline.
field_plain :
    (sep : ℕ) (key : Text) (vs : List Text)
    → value_byte sep ≡ false
    → lacks sep (key ++ codes "=,") ≡ true
    → all preface_value vs ≡ true
    → all (lacks sep) (field key vs) ≡ true
unfolding join_values
field_plain sep key [] s k h = refl
field_plain sep key (v ∷ vs) s k h =
    let lack = values_lack sep (v ∷ vs) s h in
    ground (
      arith,
      all-append (λ (c : ℕ). not (c == sep)) key (codes "=,"),
      all-append (λ (c : ℕ). not (c == sep)) key (b'=' ∷ join b',' v vs),
      all-join (λ (c : ℕ). not (c == sep)) b',' v vs,
    )

fields_plain :
    (sep : ℕ) (roots kids : List Text)
    → value_byte sep ≡ false
    → lacks sep (preface_roots ++ codes "=,") ≡ true
    → lacks sep (preface_kids ++ codes "=,") ≡ true
    → all preface_value roots ≡ true
    → all preface_value kids ≡ true
    → all (lacks sep) (field preface_roots roots ++ field preface_kids kids) ≡ true
fields_plain sep roots kids s a b r k = ground (
  arith,
  all-append (lacks sep) (field preface_roots roots) (field preface_kids kids),
  field_plain sep preface_roots roots s,
  field_plain sep preface_kids kids s,
)

and_left : (a b : Bool) → (a && b) ≡ true → a ≡ true
and_left a b h = ground arith

module _ (uuid : Text → Option Text) where
  -- The canonical form of an ID is 36 lower-case hex digits and hyphens.
  abbrev pub uuid_byte : ℕ → Bool
  uuid_byte c = (leb b'0' c && leb c b'9') || (leb b'a' c && leb c b'f') || c == b'-'

  abbrev pub Canonical : Type 0
  Canonical = (s t : Text) → uuid s ≡ some t → (all uuid_byte t && length t == 36) ≡ true

  uuid_lacks :
      (sep : ℕ) (s : Text) → uuid_byte sep ≡ false → all uuid_byte s ≡ true → lacks sep s ≡ true
  uuid_lacks sep [] h a = refl
  uuid_lacks sep (c ∷ s) h a = ground (arith, uuid_lacks sep s h)

  pub id_lacks :
      (sep : ℕ) (id : Text)
      → Canonical
      → uuid_byte sep ≡ false
      → is_connector_id uuid id ≡ true
      → lacks sep id ≡ true
  unfolding is_connector_id
  id_lacks sep id law h e = elim (Option-cases (uuid id)) [
    | inl absent ↦ absurd (ground arith)
    | inr (t, found) ↦
        let same : t ≡ id = (text_eq_iff t id).0 (ground arith) in
        subst (λ (x : Text). lacks sep x ≡ true) same
          (uuid_lacks sep t h (and_left (all uuid_byte t) (length t == 36) (law id t found)))
  ]

  -- What WritePreface writes: the three parts, each with its spaces.
  record Written (h : Hello) (line : Text) : Type 0 where
    id : is_connector_id uuid h.connector_id ≡ true
    roots : all preface_value h.roots ≡ true
    kids : all preface_value h.kids ≡ true
    body :
        line
        ≡ join b' ' preface
            (h.connector_id ∷ (field preface_roots h.roots ++ field preface_kids h.kids))
          ++ 10 ∷ []
    short : length line ≤ max_preface_len

  bounded_line_lem :
      (o : Option Text) (line : Text)
      → bounded_line o ≡ some line
      → (s : Text) × (o ≡ some s) × (line ≡ s ++ 10 ∷ []) × (length line ≤ max_preface_len)
  unfolding bounded_line
  bounded_line_lem none line e = cc
  bounded_line_lem (some s) line e = (s, refl, ground arith, ground arith)

  write_preface-Written :
      (h : Hello) (line : Text) → write_preface uuid h ≡ some line → Written h line
  unfolding write_preface join
  write_preface-Written h line e = elim (Bool-cases (is_connector_id uuid h.connector_id)) [
    | inr bad ↦ absurd (ground arith)
    | inl good ↦
        let start = preface ++ b' ' ∷ h.connector_id in
        elim (Option-cases (add_field start preface_roots h.roots)) [
          | inl fault ↦ absurd (unfold bounded_line in ground arith)
          | inr (mid, first) ↦
              let (whole, second, ends, short) =
                bounded_line_lem (add_field mid preface_kids h.kids) line (ground arith) in
              let (e₁, r) =
                add_field-join preface (h.connector_id ∷ []) preface_roots h.roots mid first in
              let (e₂, k) =
                add_field-join preface (h.connector_id ∷ field preface_roots h.roots) preface_kids
                  h.kids whole
                  (subst (λ (t : Text). add_field t preface_kids h.kids ≡ some whole) e₁ second) in
              record {
                id = good;
                roots = r;
                kids = k;
                body = ends ∙ ap (λ (t : Text). t ++ 10 ∷ []) e₂;
                short = short;
              }
        ]
  ]

  -- The loop of ReadPreface takes what comes before the first newline.
  read_from-append :
      (s line rest : Text) (left : ℕ)
      → lacks 10 s ≡ true
      → length s < left
      → read_from uuid left line (s ++ 10 ∷ rest)
        ≡ read_line uuid rest (parse_preface uuid (line ++ (s ++ 10 ∷ [])))
  unfolding read_from
  read_from-append s line rest zero h l = absurd (ground arith)
  read_from-append [] line rest (suc left) h l = refl
  read_from-append (c ∷ s) line rest (suc left) h l =
      let next = read_from-append s (line ++ c ∷ []) rest left (ground arith) (ground arith) in
      ground (arith, next, append_assoc line (c ∷ []) (s ++ 10 ∷ []))

  parse_preface-Written :
      (h : Hello) (line : Text) → Canonical → Written h line → parse_preface uuid line ≡ some h
  unfolding parse_preface parse_tagged
  parse_preface-Written h line law w =
      let parts = h.connector_id ∷ (field preface_roots h.roots ++ field preface_kids h.kids) in
      let plain : all (lacks b' ') parts ≡ true = ground (
        arith,
        id_lacks b' ' h.connector_id law refl w.id,
        fields_plain b' ' h.roots h.kids refl refl refl w.roots w.kids,
      ) in
      let pieces : split b' ' (trim_newline line) ≡ (preface, parts) =
        ap (λ (t : Text). split b' ' (trim_newline t)) w.body
        ∙ ap (split b' ') (trim_newline-append (join b' ' preface parts))
        ∙ split-join b' ' preface parts refl plain in
      let good = w.id in
      let fields = parse_fields_lem h.connector_id h.roots h.kids w.roots w.kids in
      rw (pieces) (rw (good, text_eq_refl preface) fields)

  -- What WritePreface writes, ReadPreface reads back from a reader that goes on with anything,
  -- and leaves what follows the line in the reader; `Canonical` is that uuid.String gives 36
  -- lower-case hex digits and hyphens.
  pub read_preface-write_preface :
      (h : Hello) (line rest : Text)
      → Canonical
      → write_preface uuid h ≡ some line
      → read_preface uuid (line ++ rest) ≡ hello h rest
  unfolding read_preface read_line
  read_preface-write_preface h line rest law e =
      let w = write_preface-Written h line e in
      let parts = h.connector_id ∷ (field preface_roots h.roots ++ field preface_kids h.kids) in
      let body = join b' ' preface parts in
      let plain : lacks 10 body ≡ true =
        all-join (λ (c : ℕ). not (c == 10)) b' ' preface parts refl refl
          (ground (
            arith,
            id_lacks 10 h.connector_id law refl w.id,
            fields_plain 10 h.roots h.kids refl refl refl w.roots w.kids,
          )) in
      let short : length body < max_preface_len =
        omega (arith, w.short, ap length w.body, length-append body (10 ∷ [])) in
      let ends : line ++ rest ≡ body ++ 10 ∷ rest =
        ap (λ (t : Text). t ++ rest) w.body ∙ append_assoc body (10 ∷ []) rest in
      ap (read_from uuid max_preface_len []) ends
      ∙ read_from-append body [] rest max_preface_len plain short
      ∙ ap (read_line uuid rest)
          (ap (parse_preface uuid) (sym w.body) ∙ parse_preface-Written h line law w)
