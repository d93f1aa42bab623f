-- ===== src/Routes/Archived.antt =====
-- What a restored route gets back, and what a copy of a route runs into.
use cluster_gate.Prelude.{
  none, true, false, strip_prefix, String, ◌≡◌, Bool, not, if◌then◌else◌, str_append, ◌==◌, ◌&&◌,
  some, refl, arith, ◌∙◌, ap,
}
use Prim.Native.Char.{Char, char, code}
use text.Mathlib.TextLemmas.{nil-append, cons-append}
use cluster_gate.Routes.Names.{before_text, archive_tag, unmangle_archive, mangle_for_archive}

abbrev starts_plain : String → Bool
starts_plain String.[] = false
starts_plain (String.◌∷◌ c s) = not (code c == 95)

-- No two underscores in a row, and none at the end.
unfoldable pub is_plain : String → Bool
is_plain String.[] = true
is_plain (String.◌∷◌ c s) =
    let rest = is_plain s in if code c == 95 then starts_plain s && rest else rest

abbrev underscore : Char
underscore = char 95 tt

-- A mark begins with two underscores.
abbrev marked : String → String
marked p = String.◌∷◌ underscore (String.◌∷◌ underscore p)

strip_prefix-plain :
    (c : Char) (s t p : String)
    → is_plain (String.◌∷◌ c s) ≡ true
    → strip_prefix (marked p) (String.◌∷◌ c (str_append s t)) ≡ none
unfolding is_plain strip_prefix
strip_prefix-plain c String.[] t p h = ground arith
strip_prefix-plain c (String.◌∷◌ d s) t p h = rw (cons-append d s t) (ground arith)

is_plain-rest : (c : Char) (s : String) → is_plain (String.◌∷◌ c s) ≡ true → is_plain s ≡ true
unfolding is_plain
is_plain-rest c s h = ground arith

strip_prefix-itself : (p : String) → strip_prefix p p ≡ some ""
unfolding strip_prefix
strip_prefix-itself String.[] = refl
strip_prefix-itself (String.◌∷◌ c p) = ground (arith, strip_prefix-itself p)

before_text-itself : (p : String) → before_text (marked p) (marked p) ≡ some ""
unfolding before_text strip_prefix
before_text-itself p = rw (strip_prefix-itself (marked p)) refl

before_text-append :
    (v p : String) → is_plain v ≡ true → before_text (marked p) (str_append v (marked p)) ≡ some v
unfolding before_text
before_text-append String.[] p h = rw (nil-append (marked p)) (before_text-itself p)
before_text-append (String.◌∷◌ c v) p h = rw (cons-append c v (marked p)) (
    rw
      (
        before_text,
        strip_prefix-plain c v (marked p) p h,
        before_text-append v p (is_plain-rest c v h),
      )
      refl)

strip_prefix-absent :
    (c : Char) (s p : String)
    → is_plain (String.◌∷◌ c s) ≡ true
    → strip_prefix (marked p) (String.◌∷◌ c s) ≡ none
unfolding is_plain strip_prefix
strip_prefix-absent c String.[] p h = ground arith
strip_prefix-absent c (String.◌∷◌ d s) p h = ground arith

-- A plain text does not hold the mark already.
before_text-plain : (v p : String) → is_plain v ≡ true → before_text (marked p) v ≡ none
unfolding before_text
before_text-plain String.[] p h = refl
before_text-plain (String.◌∷◌ c v) p h =
    rw (before_text, strip_prefix-absent c v p h, before_text-plain v p (is_plain-rest c v h)) refl

mark-marked : (id : String) → str_append archive_tag id ≡ marked (str_append "deleted_" id)
mark-marked id =
    cons-append underscore "_deleted_" id
    ∙ ap (String.◌∷◌ underscore) (cons-append underscore "deleted_" id)

mangle_for_archive-plain :
    (id v : String)
    → is_plain v ≡ true
    → mangle_for_archive id v ≡ str_append v (marked (str_append "deleted_" id))
unfolding mangle_for_archive
mangle_for_archive-plain id v h =
    let absent : before_text archive_tag v ≡ none = before_text-plain v "deleted_" h in
    let marks : mangle_for_archive id v ≡ str_append v (str_append archive_tag id) =
      ground (arith, absent) in
    marks ∙ ap (str_append v) (mark-marked id)

pub unmangle_archive-mangle_for_archive :
    (id v : String) → is_plain v ≡ true → unmangle_archive id (mangle_for_archive id v) ≡ v
unfolding unmangle_archive
unmangle_archive-mangle_for_archive id v h =
    rw
      (
        mangle_for_archive-plain id v h,
        mark-marked id,
        before_text-append v (str_append "deleted_" id) h,
      )
      refl
