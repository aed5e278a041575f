-- ===== src/Halfconn/Copied.antt =====
-- One direction of a splice.
use traversal_connector.Common.{
  ℕ, ◌+◌, ◌≡◌, refl, sym, ap, ◌∙◌, ◌≢◌, true, false, Option, none, some, [], ◌∷◌, ◌++◌, Text,
  length, take, drop, zero, suc, arith, length-append, append_assoc, append-nil, subst,
}
use traversal_connector.Halfconn.{
  Outcome, completed, ReadStatus, more, eof, broken, Copier, reading, closing, returned, writing,
  Link, Answer, gives, takes, refuses, closes, after_read, received, copy_from, has_returned,
}

-- What holds of a direction, unless it has failed.
abbrev pub Good : Copier → Link → Type 0
Good (reading n) l = (l.taken ≡ l.given) × (n ≡ length l.taken)
Good (closing n) l = (l.taken ≡ l.given) × (n ≡ length l.taken)
Good (writing bytes status n) l = (l.taken ++ bytes ≡ l.given) × (n ≡ length l.taken)
Good (returned n) l = (l.taken ≡ l.given) × (n ≡ length l.taken) × (l.closed ≡ true)

-- The bytes that were taken are the first of those that were given.
abbrev pub IsPrefix : Text → Text → Type 0
IsPrefix s t = (rest : Text) × (s ++ rest ≡ t)

take-drop : (m : ℕ) (s : Text) → take m s ++ drop m s ≡ s
take-drop zero s = refl
take-drop (suc m) [] = refl
take-drop (suc m) (c ∷ s) = ap (λ r. c ∷ r) (take-drop m s)

prefix-take : (m : ℕ) (s bytes t : Text) → s ++ bytes ≡ t → IsPrefix (s ++ take m bytes) t
prefix-take m s bytes t e = (
  drop m bytes,
  append_assoc s (take m bytes) (drop m bytes) ∙ ap (λ r. s ++ r) (take-drop m bytes) ∙ e,
)

-- A step of one direction.
abbrev pub Copied : Option Outcome → Link → Type 0
Copied none l = Good l.copier l
Copied (some o) l = IsPrefix l.taken l.given × (has_returned l.copier ≡ true) × (o ≢ completed)

after_read-Copied :
    (src_failed : Outcome) (status : ReadStatus) (n : ℕ) (l : Link)
    → src_failed ≢ completed
    → l.taken ≡ l.given
    → n ≡ length l.taken
    → let r = after_read src_failed status n l in Copied r.1 r.0
unfolding after_read
after_read-Copied src_failed more n l f e c = (e, c)
after_read-Copied src_failed eof n l f e c = (e, c)
after_read-Copied src_failed broken n l f e c = (([], append-nil l.taken ∙ e), refl, f)

pub copy_from-Copied :
    (src_failed dst_failed : Outcome) (c : Copier) (a : Answer) (l : Link)
    → src_failed ≢ completed
    → dst_failed ≢ completed
    → l.copier ≡ c
    → Good c l
    → let r = copy_from src_failed dst_failed c a l in Copied r.1 r.0
unfolding copy_from
copy_from-Copied s d (reading n) (gives [] status) l f g q (e, k) =
    after_read-Copied s status n l f e k
copy_from-Copied s d (reading n) (gives (b ∷ bytes) status) l f g q (e, k) =
    (ap (λ t. t ++ (b ∷ bytes)) e, k)
copy_from-Copied s d (writing bytes status n) takes l f g q (e, k) =
    after_read-Copied s status (n + length bytes) (received l bytes) f e
      (omega (arith, k, length-append l.taken bytes))
copy_from-Copied s d (writing bytes status n) (refuses m) l f g q (e, k) =
    (prefix-take m l.taken bytes l.given e, refl, g)
copy_from-Copied s d (closing n) (closes true) l f g q (e, k) = (e, k, refl)
copy_from-Copied s d (closing n) (closes false) l f g q (e, k) =
    (([], append-nil l.taken ∙ e), refl, g)
copy_from-Copied s d c a l f g q h = subst (λ x. Good x l) (sym q) h

-- A direction that has returned is through.
pub copy_from-returned :
    (src_failed dst_failed : Outcome) (c : Copier) (a : Answer) (l : Link)
    → has_returned c ≡ true
    → copy_from src_failed dst_failed c a l ≡ (l, none)
unfolding copy_from
copy_from-returned s d (reading n) a l h = cc
copy_from-returned s d (closing n) a l h = cc
copy_from-returned s d (writing bytes status n) a l h = cc
copy_from-returned s d (returned n) a l h = refl
