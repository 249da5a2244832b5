-- ===== src/Security/Normal.antt =====
-- Normalized boundary keys: their shape, and that the normalization is a retraction onto it.
use pmqa.Base.{
  ℕ, ◌≡◌, refl, ◌↔◌, ◌⊎◌, inl, inr, Bool, true, false, List, [], ◌∷◌, arith, ◌==◌, if◌then◌else◌,
  Bool-cases,
}
use pmqa.Security.{
  normalize_boundary_key, casefold, casefold_char, sub_runs, is_plain, strip_left, strip_right,
  cons_unless_blank,
}

-- Plain characters with single underscores between them. The flag asks for a plain one first.
abbrev pub Words : Bool → List ℕ → Type 0
Words true [] = ⊥
Words false [] = Unit
Words b (c ∷ cs) =
    ((is_plain c ≡ true) × Words false cs) ⊎ ((b ≡ false) × (c ≡ b'_') × Words true cs)

-- The shape of a normalized key: nothing, or words of `[a-z0-9]` joined by single underscores.
abbrev pub IsNormal : List ℕ → Type 0
IsNormal key = (key ≡ []) ⊎ Words true key

-- The same with an underscore allowed at the end, and at the start if the flag is false.
abbrev Loose : Bool → List ℕ → Type 0
Loose b [] = Unit
Loose b (c ∷ cs) =
    ((is_plain c ≡ true) × Loose false cs) ⊎ ((b ≡ false) × (c ≡ b'_') × Loose true cs)

Loose-blank : (b : Bool) (cs : List ℕ) → Loose true cs → Loose b (if b then cs else b'_' ∷ cs)
Loose-blank true cs h = h
Loose-blank false cs h = inr (refl, refl, h)

sub_runs-Loose : (b : Bool) (cs : List ℕ) → Loose b (sub_runs b cs)
unfolding sub_runs
sub_runs-Loose b [] = tt
sub_runs-Loose b (c ∷ cs) = elim (Bool-cases (is_plain c)) [
  | inl e ↦ rw e (inl (e, sub_runs-Loose false cs))
  | inr e ↦ rw e (Loose-blank b (sub_runs true cs) (sub_runs-Loose true cs))
]

plain_not_blank : (c : ℕ) → is_plain c ≡ true → (c == b'_') ≡ false
unfolding is_plain
plain_not_blank c h = ground arith

strip_left-Loose-true : (cs : List ℕ) → Loose true cs → strip_left cs ≡ cs
unfolding strip_left
strip_left-Loose-true [] h = refl
strip_left-Loose-true (c ∷ cs) (inl (p, h)) = rw (plain_not_blank c p)
strip_left-Loose-true (c ∷ cs) (inr (e, _, _)) = cc

strip_left-Loose : (cs : List ℕ) → Loose false cs → Loose true (strip_left cs)
unfolding strip_left
strip_left-Loose [] h = tt
strip_left-Loose (c ∷ cs) (inl (p, h)) = rw (plain_not_blank c p) (inl (p, h))
strip_left-Loose (c ∷ cs) (inr (_, e, h)) = rw (e, strip_left-Loose-true cs h) h

-- Stripping at the right of a list that starts with no underscore leaves whole words.
Words-cons_unless_blank :
    (b : Bool) (c : ℕ) (cs : List ℕ)
    → is_plain c ≡ true
    → (cs ≡ []) ⊎ Words false cs
    → Words b (cons_unless_blank c cs)
Words-cons_unless_blank b c [] p h = rw (plain_not_blank c p) (words b)
  where
    words : (b : Bool) → Words b (c ∷ [])
    words true = inl (p, tt)
    words false = inl (p, tt)
Words-cons_unless_blank true c (d ∷ ds) p (inr h) = inl (p, h)
Words-cons_unless_blank false c (d ∷ ds) p (inr h) = inl (p, h)
Words-cons_unless_blank b c (d ∷ ds) p (inl e) = cc

Words-blank :
    (cs : List ℕ)
    → (cs ≡ []) ⊎ Words true cs
    → (cons_unless_blank b'_' cs ≡ []) ⊎ Words false (cons_unless_blank b'_' cs)
Words-blank [] h = inl refl
Words-blank (d ∷ ds) (inl e) = cc
Words-blank (d ∷ ds) (inr h) = inr (inr (refl, refl, h))

Words-strip_right :
    (b : Bool) (cs : List ℕ) → Loose b cs → (strip_right cs ≡ []) ⊎ Words b (strip_right cs)
unfolding strip_right
Words-strip_right b [] h = inl refl
Words-strip_right b (c ∷ cs) (inl (p, h)) =
    inr (Words-cons_unless_blank b c (strip_right cs) p (Words-strip_right false cs h))
Words-strip_right true (c ∷ cs) (inr (e, _, _)) = cc
Words-strip_right false (c ∷ cs) (inr (_, e, h)) =
    rw e (Words-blank (strip_right cs) (Words-strip_right true cs h))

-- Whatever the field name, its normalized form is empty or consists of words of `[a-z0-9]`
-- joined by single underscores.
pub normalize_boundary_key-IsNormal : (value : List ℕ) → IsNormal (normalize_boundary_key value)
unfolding normalize_boundary_key
normalize_boundary_key-IsNormal value =
    Words-strip_right true _ (strip_left-Loose _ (sub_runs-Loose false (casefold value)))

Words-Loose : (b : Bool) (cs : List ℕ) → Words b cs → Loose b cs
Words-Loose true [] h = tt
Words-Loose false [] h = tt
Words-Loose true (c ∷ cs) (inl (p, h)) = inl (p, Words-Loose false cs h)
Words-Loose false (c ∷ cs) (inl (p, h)) = inl (p, Words-Loose false cs h)
Words-Loose true (c ∷ cs) (inr (e, _, _)) = cc
Words-Loose false (c ∷ cs) (inr (_, e, h)) = inr (refl, e, Words-Loose true cs h)

casefold_char_plain : (c : ℕ) → is_plain c ≡ true → casefold_char c ≡ c ∷ []
unfolding casefold_char is_plain
casefold_char_plain c h = ground arith

casefold-Loose : (b : Bool) (cs : List ℕ) → Loose b cs → casefold cs ≡ cs
unfolding casefold
casefold-Loose b [] h = refl
casefold-Loose b (c ∷ cs) (inl (p, h)) = rw (casefold_char_plain c p, casefold-Loose false cs h)
casefold-Loose b (c ∷ cs) (inr (_, e, h)) =
    rw (e, casefold-Loose true cs h) (unfold casefold_char in refl)

sub_runs_of_Loose : (b : Bool) (cs : List ℕ) → Loose b cs → sub_runs b cs ≡ cs
unfolding sub_runs
sub_runs_of_Loose b [] h = refl
sub_runs_of_Loose b (c ∷ cs) (inl (p, h)) = rw (p, sub_runs_of_Loose false cs h)
sub_runs_of_Loose true (c ∷ cs) (inr (e, _, _)) = cc
sub_runs_of_Loose false (c ∷ cs) (inr (_, e, h)) =
    rw (e, sub_runs_of_Loose true cs h) (unfold is_plain in refl)

keep_plain : (c : ℕ) (cs : List ℕ) → is_plain c ≡ true → cons_unless_blank c cs ≡ c ∷ cs
keep_plain c [] p = rw (plain_not_blank c p)
keep_plain c (d ∷ ds) p = refl

strip_right_of_Words : (b : Bool) (cs : List ℕ) → Words b cs → strip_right cs ≡ cs
unfolding strip_right
strip_right_of_Words true [] h = absurd h
strip_right_of_Words false [] h = refl
strip_right_of_Words true (c ∷ cs) (inl (p, h)) =
    rw (strip_right_of_Words false cs h) (keep_plain c cs p)
strip_right_of_Words false (c ∷ cs) (inl (p, h)) =
    rw (strip_right_of_Words false cs h) (keep_plain c cs p)
strip_right_of_Words true (c ∷ cs) (inr (e, _, _)) = cc
strip_right_of_Words false (c ∷ []) (inr (_, _, h)) = absurd h
strip_right_of_Words false (c ∷ d ∷ ds) (inr (_, _, h)) = rw (strip_right_of_Words true (d ∷ ds) h)

Loose-weaken : (cs : List ℕ) → Loose true cs → Loose false cs
Loose-weaken [] h = tt
Loose-weaken (c ∷ cs) (inl h) = inl h
Loose-weaken (c ∷ cs) (inr (e, _, _)) = cc

normalize_of_Words : (value : List ℕ) → Words true value → normalize_boundary_key value ≡ value
unfolding normalize_boundary_key
normalize_of_Words value h =
    let loose = Words-Loose true value h in
    rw (casefold-Loose true value loose, sub_runs_of_Loose false value (Loose-weaken value loose))
      (rw (strip_left-Loose-true value loose) (strip_right_of_Words true value h))

-- Normalizing leaves exactly the normal forms alone.
pub normalize_boundary_key_iff :
    (value : List ℕ) → (normalize_boundary_key value ≡ value) ↔ IsNormal value
normalize_boundary_key_iff value =
    (λ e. rw e at (normalize_boundary_key-IsNormal value), fixed value)
  where
    fixed : (key : List ℕ) → IsNormal key → normalize_boundary_key key ≡ key
    fixed key (inl e) = rw e (unfold normalize_boundary_key in refl)
    fixed key (inr h) = normalize_of_Words key h

-- A second normalization changes nothing.
pub normalize_boundary_key_idem :
    (value : List ℕ)
    → normalize_boundary_key (normalize_boundary_key value) ≡ normalize_boundary_key value
normalize_boundary_key_idem value =
    (normalize_boundary_key_iff _).1 (normalize_boundary_key-IsNormal value)
