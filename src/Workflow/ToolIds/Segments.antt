-- ===== src/Workflow/ToolIds/Segments.antt =====
-- The pattern of the identifiers, described by their segments.
use pmqa.Base.{
  ℕ, ◌≡◌, refl, sym, ◌∙◌, inl, inr, Bool, true, false, ◌&&◌, ◌||◌, List, [], ◌∷◌, arith, ◌==◌,
  if◌then◌else◌, Bool-cases,
}
use pmqa.Workflow.ToolIds.{is_letter, is_word, matches, is_tool_id}

-- The segments between the dots.
abbrev pub push : ℕ → List (List ℕ) → List (List ℕ)
push c [] = (c ∷ []) ∷ []
push c (segment ∷ segments) = (c ∷ segment) ∷ segments

unfoldable pub segments : List ℕ → List (List ℕ)
segments [] = [] ∷ []
segments (c ∷ cs) = let rest = segments cs in if c == b'.' then [] ∷ rest else push c rest

abbrev pub all_words : List ℕ → Bool
all_words [] = true
all_words (c ∷ cs) = is_word c && all_words cs

-- A letter, and then letters, digits and underscores.
abbrev pub is_segment : List ℕ → Bool
is_segment [] = false
is_segment (c ∷ cs) = is_letter c && all_words cs

abbrev pub all_segments : List (List ℕ) → Bool
all_segments [] = true
all_segments (s ∷ ss) = is_segment s && all_segments ss

-- At least two of them.
abbrev pub is_dotted : List (List ℕ) → Bool
is_dotted (s ∷ t ∷ ss) = true
is_dotted _ = false

-- What `matches` tests of the segments of the rest.
abbrev rest_matches : Bool → Bool → List (List ℕ) → Bool
rest_matches dotted inside [] = false
rest_matches dotted true (s ∷ ss) = all_words s && all_segments ss && (dotted || is_dotted (s ∷ ss))
rest_matches dotted false (s ∷ ss) =
    is_segment s && all_segments ss && (dotted || is_dotted (s ∷ ss))

dot_no_letter : (c : ℕ) → (c == b'.') ≡ true → is_letter c ≡ false
dot_no_letter c h = ground arith

segments_cons : (cs : List ℕ) → (s : List ℕ) × (ss : List (List ℕ)) × (segments cs ≡ s ∷ ss)
unfolding segments
segments_cons [] = ([], [], refl)
segments_cons (c ∷ cs) = elim (Bool-cases (c == b'.')) [
  | inl e ↦ ([], segments cs, rw e refl)
  | inr e ↦ let (s, ss, h) = segments_cons cs in (c ∷ s, ss, rw (e, h) refl)
]

and_assoc : (a b c d : Bool) → (a && (b && c && d)) ≡ (a && b && c && d)
and_assoc true b c d = refl
and_assoc false b c d = refl

or_true : (b : Bool) → b || true ≡ true
or_true true = refl
or_true false = refl

or_false : (b : Bool) → b || false ≡ b
or_false true = refl
or_false false = refl

is_dotted_push :
    (c : ℕ) (s : List ℕ) (ss : List (List ℕ)) → is_dotted (s ∷ ss) ≡ is_dotted ((c ∷ s) ∷ ss)
is_dotted_push c s [] = refl
is_dotted_push c s (_ ∷ _) = refl

at_start :
    (dotted : Bool) (c : ℕ) (s : List ℕ) (ss : List (List ℕ))
    → (is_letter c && rest_matches dotted true (s ∷ ss)) ≡ rest_matches dotted false ((c ∷ s) ∷ ss)
at_start dotted c s ss =
    rw (is_dotted_push c s ss)
      (and_assoc (is_letter c) (all_words s) (all_segments ss) (dotted || is_dotted ((c ∷ s) ∷ ss)))

inside_segment :
    (dotted : Bool) (c : ℕ) (s : List ℕ) (ss : List (List ℕ))
    → (is_word c && rest_matches dotted true (s ∷ ss)) ≡ rest_matches dotted true ((c ∷ s) ∷ ss)
inside_segment dotted c s ss =
    rw (is_dotted_push c s ss)
      (and_assoc (is_word c) (all_words s) (all_segments ss) (dotted || is_dotted ((c ∷ s) ∷ ss)))

after_dot :
    (dotted : Bool) (s : List ℕ) (ss : List (List ℕ))
    → rest_matches true false (s ∷ ss) ≡ rest_matches dotted true ([] ∷ s ∷ ss)
after_dot dotted s ss = rw (or_true dotted) refl

matches-segments :
    (dotted inside : Bool) (cs : List ℕ)
    → matches dotted inside cs ≡ rest_matches dotted inside (segments cs)
unfolding matches segments
matches-segments dotted false [] = refl
matches-segments dotted true [] = sym (or_false dotted)
matches-segments dotted false (c ∷ cs) = elim (Bool-cases (c == b'.')) [
  | inl e ↦ rw (e, dot_no_letter c e) refl
  | inr e ↦
      let (s, ss, h) = segments_cons cs in
      rw (e, matches-segments dotted true cs, h) (at_start dotted c s ss)
]
matches-segments dotted true (c ∷ cs) = elim (Bool-cases (c == b'.')) [
  | inl e ↦
      let (s, ss, h) = segments_cons cs in
      rw (e, matches-segments true false cs, h) (after_dot dotted s ss)
  | inr e ↦
      let (s, ss, h) = segments_cons cs in
      rw (e, matches-segments dotted true cs, h) (inside_segment dotted c s ss)
]

-- An identifier is accepted exactly when there are at least two segments between its dots and each
-- is a letter followed by letters, digits and underscores.
pub is_tool_id-segments :
    (value : List ℕ)
    → is_tool_id value ≡ (all_segments (segments value) && is_dotted (segments value))
unfolding is_tool_id
is_tool_id-segments value =
    let (s, ss, h) = segments_cons value in matches-segments false false value ∙ rw h refl
