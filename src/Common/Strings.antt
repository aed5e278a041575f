-- ===== src/Common/Strings.antt =====
-- A Go string as the list of its bytes.
use Prim.Native.Nat.{ℕ, ◌+◌}
use Prim.Native.Char.{code}
use Prim.Native.String.{String}
use mathlib.Core.Path.{◌≡◌, refl, sym, ap, ◌∙◌}
use mathlib.Core.Logic.{◌↔◌}
use mathlib.Core.Bool.{Bool, true, false, not, ◌&&◌}
use mathlib.Core.List.{List, [], ◌∷◌, ◌++◌, reverse, reverse_aux, append_assoc}
use mathlib.Core.Option.{Option, none, some}
use native.Mathlib.Omega.{arith}
use traversal_connector.Common.Tests.{◌==◌, leb, if◌then◌else◌}
use traversal_connector.Common.Lists.{all}

abbrev pub Text : Type 0
Text = List ℕ

-- The bytes of an ASCII literal.
abbrev pub codes : String → Text
codes String.[] = []
codes (String.◌∷◌ c s) = code c ∷ codes s

-- Two schemes of a URL.
abbrev pub http : Text
http = codes "http"

abbrev pub https : Text
https = codes "https"

-- Go's `==` on strings.
unfoldable pub text_eq : Text → Text → Bool
text_eq [] [] = true
text_eq (a ∷ s) (b ∷ t) = a == b && text_eq s t
text_eq _ _ = false

pub text_eq_refl : (s : Text) → text_eq s s ≡ true
unfolding text_eq
text_eq_refl [] = refl
text_eq_refl (a ∷ s) = ground (arith, text_eq_refl s)

text_eq_sound : (s t : Text) → text_eq s t ≡ true → s ≡ t
unfolding text_eq
text_eq_sound [] [] h = refl
text_eq_sound [] (b ∷ t) h = cc
text_eq_sound (a ∷ s) [] h = cc
text_eq_sound (a ∷ s) (b ∷ t) h = ground (arith, text_eq_sound s t)

text_eq_complete : (s t : Text) → s ≡ t → text_eq s t ≡ true
text_eq_complete s t e = rw (← e) (text_eq_refl s)

pub text_eq_iff : (s t : Text) → (text_eq s t ≡ true) ↔ (s ≡ t)
text_eq_iff s t = (text_eq_sound s t, text_eq_complete s t)

abbrev pub is_empty : Text → Bool
is_empty [] = true
is_empty (a ∷ s) = false

-- strings.HasPrefix and strings.CutPrefix.
unfoldable pub cut_prefix : Text → Text → Option Text
cut_prefix s [] = some s
cut_prefix [] (p ∷ ps) = none
cut_prefix (a ∷ s) (p ∷ ps) = if a == p then cut_prefix s ps else none

unfoldable pub has_prefix : Text → Text → Bool
has_prefix s [] = true
has_prefix [] (p ∷ ps) = false
has_prefix (a ∷ s) (p ∷ ps) = a == p && has_prefix s ps

-- strings.HasSuffix.
unfoldable pub has_suffix : Text → Text → Bool
unfolding has_prefix
has_suffix s p = has_prefix (reverse s) (reverse p)

has_prefix-append : (p rest : Text) → has_prefix (p ++ rest) p ≡ true
unfolding has_prefix
has_prefix-append [] [] = refl
has_prefix-append [] (c ∷ rest) = refl
has_prefix-append (c ∷ p) rest = ground (arith, has_prefix-append p rest)

reverse_aux-append : (s t acc : Text) → reverse_aux (s ++ t) acc ≡ reverse_aux t (reverse_aux s acc)
reverse_aux-append [] t acc = refl
reverse_aux-append (c ∷ s) t acc = reverse_aux-append s t (c ∷ acc)

reverse_aux-eq : (s acc : Text) → reverse_aux s acc ≡ reverse s ++ acc
reverse_aux-eq [] acc = refl
reverse_aux-eq (c ∷ s) acc =
    reverse_aux-eq s (c ∷ acc)
    ∙ sym (
        ap (λ (t : Text). t ++ acc) (reverse_aux-eq s (c ∷ []))
        ∙ append_assoc (reverse s) (c ∷ []) acc)

pub has_suffix-append : (s p : Text) → has_suffix (s ++ p) p ≡ true
unfolding has_suffix
has_suffix-append s p =
    ap (λ (t : Text). has_prefix t (reverse p))
      (reverse_aux-append s p [] ∙ reverse_aux-eq p (reverse s))
    ∙ has_prefix-append (reverse p) (reverse s)

-- strings.ToLower on an ASCII byte.
abbrev pub lower : ℕ → ℕ
lower c = if leb b'A' c && leb c b'Z' then c + 32 else c

pub cut_prefix-append : (s p rest : Text) → cut_prefix s p ≡ some rest → s ≡ p ++ rest
unfolding cut_prefix
cut_prefix-append s [] rest h = ground arith
cut_prefix-append [] (p ∷ ps) rest h = cc
cut_prefix-append (a ∷ s) (p ∷ ps) rest h = ground (arith, cut_prefix-append s ps rest)

-- strings.Split at a byte, which gives at least one piece: the first piece and the others.
abbrev extend : ℕ → Text × List Text → Text × List Text
extend c (h, t) = (c ∷ h, t)

abbrev begin : Text × List Text → Text × List Text
begin (h, t) = ([], h ∷ t)

unfoldable pub split : ℕ → Text → Text × List Text
split sep [] = ([], [])
split sep (c ∷ s) = let r = split sep s in if c == sep then begin r else extend c r

-- strings.Join of a first piece and others.
unfoldable pub join : ℕ → Text → List Text → Text
join sep p [] = p
join sep p (q ∷ qs) = p ++ sep ∷ join sep q qs

abbrev pub lacks : ℕ → Text → Bool
lacks sep s = all (λ c. not (c == sep)) s

split-lacks : (sep : ℕ) (s : Text) → lacks sep s ≡ true → split sep s ≡ (s, [])
unfolding split
split-lacks sep [] h = refl
split-lacks sep (c ∷ s) h = ground (arith, split-lacks sep s)

split-append :
    (sep : ℕ) (s r : Text)
    → lacks sep s ≡ true
    → split sep (s ++ sep ∷ r) ≡ (s, (split sep r).0 ∷ (split sep r).1)
unfolding split
split-append sep [] r h = ground arith
split-append sep (c ∷ s) r h = ground (arith, split-append sep s r)

pub split-join :
    (sep : ℕ) (p : Text) (qs : List Text)
    → lacks sep p ≡ true
    → all (lacks sep) qs ≡ true
    → split sep (join sep p qs) ≡ (p, qs)
unfolding join
split-join sep p [] h hs = split-lacks sep p h
split-join sep p (q ∷ qs) h hs =
    split-append sep p (join sep q qs) h
    ∙ ap (λ (r : Text × List Text). (p, r.0 ∷ r.1))
        (split-join sep q qs (ground arith) (ground arith))

pub join-append :
    (sep : ℕ) (p : Text) (qs : List Text) (q : Text)
    → join sep p (qs ++ q ∷ []) ≡ join sep p qs ++ sep ∷ q
unfolding join
join-append sep p [] q = refl
join-append sep p (r ∷ rs) q =
    ap (λ (t : Text). p ++ sep ∷ t) (join-append sep r rs q)
    ∙ sym (append_assoc p (sep ∷ join sep r rs) (sep ∷ q))

-- What holds for the separator and for every byte of the pieces holds for the join.
pub all-append : {A : Type 0} (f : A → Bool) (s t : List A) → all f (s ++ t) ≡ (all f s && all f t)
all-append f [] t = refl
all-append f (c ∷ s) t = ground (arith, all-append f s t)

pub all-join :
    (f : ℕ → Bool) (sep : ℕ) (p : Text) (qs : List Text)
    → f sep ≡ true
    → all f p ≡ true
    → all (all f) qs ≡ true
    → all f (join sep p qs) ≡ true
unfolding join
all-join f sep p [] hs hp hq = hp
all-join f sep p (q ∷ qs) hs hp hq =
    ground (arith, all-append f p (sep ∷ join sep q qs), all-join f sep q qs hs)

join-extend :
    (sep c : ℕ) (r : Text × List Text)
    → join sep (extend c r).0 (extend c r).1 ≡ c ∷ join sep r.0 r.1
unfolding join
join-extend sep c (h, []) = refl
join-extend sep c (h, q ∷ qs) = refl

-- The pieces of a split have no separator, and their join is the text.
pub join-split : (sep : ℕ) (s : Text) → join sep (split sep s).0 (split sep s).1 ≡ s
unfolding split join
join-split sep [] = refl
join-split sep (c ∷ s) = ground (arith, join-split sep s, join-extend sep c (split sep s))

pub split-Lacks :
    (sep : ℕ) (s : Text) → (lacks sep (split sep s).0 && all (lacks sep) (split sep s).1) ≡ true
unfolding split
split-Lacks sep [] = refl
split-Lacks sep (c ∷ s) = ground (arith, split-Lacks sep s)
