-- ===== src/Common/TextLaws.antt =====
-- Laws of the texts' functions on texts without the characters that they look for.
use Prim.Native.Nat.{ℕ}
use Prim.Native.Char.{code}
use Prim.Native.String.{String, [], ◌∷◌}
use mathlib.Core.Path.{◌≡◌, refl, subst}
use mathlib.Core.Bool.{Bool, true, false}
use mathlib.Core.List.{List, [], ◌∷◌}
use activitypub_core.Common.Lists.{All}
use activitypub_core.Common.Text.{
  ◌⧺◌, trim_left, trim_right, cons_kept, trim_space, is_space, join, fields_from, fields_func,
  close_field,
}

-- No character passes the test.
abbrev pub NoChar : (ℕ → Bool) → String → Type 0
NoChar p [] = Unit
NoChar p (c ∷ s) = (p (code c) ≡ false) × NoChar p s

-- A text that is not empty and has no character that passes.
abbrev pub IsWord : (ℕ → Bool) → String → Type 0
IsWord p [] = ⊥
IsWord p (c ∷ s) = (p (code c) ≡ false) × NoChar p s

pub NoChar-of_IsWord : (p : ℕ → Bool) (s : String) → IsWord p s → NoChar p s
NoChar-of_IsWord p [] h = absurd h
NoChar-of_IsWord p (c ∷ s) h = h

trim_left_word : (p : ℕ → Bool) (s t : String) → IsWord p s → trim_left p (s ⧺ t) ≡ s ⧺ t
unfolding trim_left ◌⧺◌
trim_left_word p [] t h = absurd h
trim_left_word p (c ∷ s) t (h, _) = rw h refl

abbrev pub IsGiven : String → Type 0
IsGiven [] = ⊥
IsGiven (c ∷ s) = Unit

cons_kept_given :
    (p : ℕ → Bool) (c : _) (s t : String) → IsGiven t → cons_kept p c (s ⧺ t) ≡ c ∷ (s ⧺ t)
unfolding ◌⧺◌
cons_kept_given p c [] [] h = absurd h
cons_kept_given p c [] (d ∷ t) h = refl
cons_kept_given p c (d ∷ s) t h = refl

cons_kept_last : (p : ℕ → Bool) (c : _) (s : String) → p (code c) ≡ false → cons_kept p c s ≡ c ∷ s
cons_kept_last p c [] h = rw h refl
cons_kept_last p c (d ∷ s) h = refl

trim_right_none : (p : ℕ → Bool) (s : String) → NoChar p s → trim_right p s ≡ s
unfolding trim_right
trim_right_none p [] h = refl
trim_right_none p (c ∷ s) (h, hs) = rw (trim_right_none p s hs) (cons_kept_last p c s h)

-- What stands in front of a text that is not empty and is not cut at its end.
pub trim_right-append :
    (p : ℕ → Bool) (s t : String) → IsGiven t → trim_right p t ≡ t → trim_right p (s ⧺ t) ≡ s ⧺ t
unfolding trim_right ◌⧺◌
trim_right-append p [] t g e = e
trim_right-append p (c ∷ s) t g e = rw (trim_right-append p s t g e) (cons_kept_given p c s t g)

⧺_empty : (s : String) → s ⧺ "" ≡ s
unfolding ◌⧺◌
⧺_empty [] = refl
⧺_empty (c ∷ s) = rw (⧺_empty s) refl

pub trim_space_word : (s : String) → IsWord is_space s → trim_space s ≡ s
unfolding trim_space
trim_space_word s h =
    let left : trim_left is_space s ≡ s = rw (← ⧺_empty s) (trim_left_word is_space s "" h) in
    rw left (trim_right_none is_space s (NoChar-of_IsWord is_space s h))

IsGiven-append : (s t : String) → IsGiven t → IsGiven (s ⧺ t)
unfolding ◌⧺◌
IsGiven-append [] t h = h
IsGiven-append (c ∷ s) t h = tt

IsGiven-word : (p : ℕ → Bool) (s : String) → IsWord p s → IsGiven s
IsGiven-word p [] h = absurd h
IsGiven-word p (c ∷ s) h = tt

-- A word, some text, and a word at the end.
pub trim_space_words :
    (s t u : String) → IsWord is_space s → IsWord is_space u → trim_space (s ⧺ t ⧺ u) ≡ s ⧺ t ⧺ u
unfolding trim_space
trim_space_words s t u h k =
    let g = IsGiven-word is_space u k in
    rw (trim_left_word is_space s (t ⧺ u) h) (
      trim_right-append is_space s (t ⧺ u) (IsGiven-append t u g) (
        trim_right-append is_space t u g
          (trim_right_none is_space u (NoChar-of_IsWord is_space u k))))

-- The words of a list, joined: the text begins and ends with a word.
pub join-IsGiven :
    (sep s : String) (us : List String) → IsWord is_space s → IsGiven (join sep (s ∷ us))
unfolding join ◌⧺◌
join-IsGiven sep s [] h = IsGiven-word is_space s h
join-IsGiven sep [] (t ∷ us) h = absurd h
join-IsGiven sep (c ∷ s) (t ∷ us) h = tt

trim_right-join :
    (sep : String) (us : List String)
    → All (IsWord is_space) us
    → trim_right is_space (join sep us) ≡ join sep us
unfolding join trim_right
trim_right-join sep [] h = refl
trim_right-join sep (s ∷ []) (h, _) = trim_right_none is_space s (NoChar-of_IsWord is_space s h)
trim_right-join sep (s ∷ t ∷ us) (h, hs) =
    let g = join-IsGiven sep t us hs.0 in
    let rest = trim_right-join sep (t ∷ us) hs in
    trim_right-append is_space s (sep ⧺ join sep (t ∷ us))
      (IsGiven-append sep (join sep (t ∷ us)) g)
      (trim_right-append is_space sep (join sep (t ∷ us)) g rest)

pub trim_space-join :
    (sep : String) (us : List String)
    → All (IsWord is_space) us
    → trim_space (join sep us) ≡ join sep us
unfolding trim_space join trim_left
trim_space-join sep [] h = refl
trim_space-join sep (s ∷ []) (h, _) = trim_space_word s h
trim_space-join sep (s ∷ t ∷ us) (h, hs) =
    rw (trim_left_word is_space s (sep ⧺ join sep (t ∷ us)) h)
      (trim_right-join sep (s ∷ t ∷ us) (h, hs))

-- The fields of a text that begins with characters that do not separate.
fields_from_prefix :
    (p : ℕ → Bool) (s t first : String) (others : List String)
    → NoChar p s
    → fields_from p t ≡ first ∷ others
    → fields_from p (s ⧺ t) ≡ (s ⧺ first) ∷ others
unfolding fields_from ◌⧺◌
fields_from_prefix p [] t first others h e = e
fields_from_prefix p (c ∷ s) t first others (h, hs) e =
    rw (h, fields_from_prefix p s t first others hs e) refl

close_word :
    (p : ℕ → Bool) (s : String) (parts : List String)
    → IsWord p s
    → close_field (s ∷ parts) ≡ s ∷ parts
close_word p [] parts h = absurd h
close_word p (c ∷ s) parts h = refl

fields_from-join :
    (p : ℕ → Bool) (d : _) (s : String) (us : List String)
    → p (code d) ≡ true
    → All (IsWord p) (s ∷ us)
    → fields_from p (join (d ∷ []) (s ∷ us)) ≡ s ∷ us
unfolding join fields_from ◌⧺◌
fields_from-join p d s [] sep (h, _) =
    subst (λ x. fields_from p x ≡ x ∷ []) (⧺_empty s)
      (fields_from_prefix p s "" "" [] (NoChar-of_IsWord p s h) refl)
fields_from-join p d s (t ∷ us) sep (h, hs) =
    let rest = fields_from-join p d t us sep hs in
    subst (λ x. fields_from p (s ⧺ (d ∷ [] ⧺ join (d ∷ []) (t ∷ us))) ≡ x ∷ t ∷ us) (⧺_empty s)
      (fields_from_prefix p s ((d ∷ []) ⧺ join (d ∷ []) (t ∷ us)) "" (t ∷ us)
        (NoChar-of_IsWord p s h) (rw (sep, rest, close_word p t us hs.0) refl))

-- Joined by a separator, words are the fields of the text.
pub fields_func-join :
    (p : ℕ → Bool) (d : _) (us : List String)
    → p (code d) ≡ true
    → All (IsWord p) us
    → fields_func p (join (d ∷ []) us) ≡ us
unfolding fields_func join fields_from
fields_func-join p d [] sep h = refl
fields_func-join p d (s ∷ us) sep h = rw (fields_from-join p d s us sep h) (close_word p s us h.0)
