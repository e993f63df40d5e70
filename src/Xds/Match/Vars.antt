-- ===== src/Xds/Match/Vars.antt =====
-- When getHeadersMatchVars of pkg/amesh/provisioner/route_translator.go succeeds, and what the
-- conditions are that it gives.
use Prim.Native.String.{◌++◌ as ◌+++◌}
use amesh.Prelude.{
  String, Bool, true, false, ◌≡◌, ◌≢◌, refl, sym, List, [], ◌∷◌, Result, ok, err, ok_injective, inl,
  inr, text-cases, if◌then◌else◌,
}
use amesh.Prelude.Text.{to_lower, replace_char}
use amesh.Apisix.Var.{Var, texts}
use amesh.Xds.Envoy.{
  StringPattern, exact, contains, prefix, suffix, safe_regex, unknown_pattern, HeaderMatcher,
  HeaderSpecifier, string_match, contains_match, exact_match, prefix_match, safe_regex_match,
  suffix_match, present_match, unknown_header,
}
use amesh.Xds.Match.{
  pattern_value, header_var_name, get_string_match_value, header_value, header_expr, header_var,
  header_vars,
}

abbrev pub is_known_pattern : StringPattern → Bool
is_known_pattern unknown_pattern = false
is_known_pattern _ = true

abbrev pub is_known : HeaderSpecifier → Bool
is_known (string_match m) = is_known_pattern m.match_pattern
is_known unknown_header = false
is_known _ = true

abbrev pub all_known : List HeaderMatcher → Bool
all_known [] = true
all_known (h ∷ hs) = if is_known h.specifier then all_known hs else false

-- A function that succeeds just when a test holds, and never panics.
abbrev pub IsDecided : {A : Type 0} → Bool → Result A → Type 0
IsDecided {A} true m = (a : A) × (m ≡ ok a)
IsDecided false m = (message : String) × (m ≡ err message)

pattern_value-IsDecided : (p : StringPattern) → IsDecided (is_known_pattern p) (pattern_value p)
unfolding pattern_value
pattern_value-IsDecided (exact s) = (_, refl)
pattern_value-IsDecided (contains s) = (_, refl)
pattern_value-IsDecided (prefix s) = (_, refl)
pattern_value-IsDecided (suffix s) = (_, refl)
pattern_value-IsDecided (safe_regex s) = (_, refl)
pattern_value-IsDecided unknown_pattern = (_, refl)

header_value-IsDecided : (s : HeaderSpecifier) → IsDecided (is_known s) (header_value s)
unfolding header_value get_string_match_value
header_value-IsDecided (string_match m) = pattern_value-IsDecided m.match_pattern
header_value-IsDecided (contains_match s) = (_, refl)
header_value-IsDecided (exact_match s) = (_, refl)
header_value-IsDecided (prefix_match s) = (_, refl)
header_value-IsDecided present_match = (_, refl)
header_value-IsDecided (safe_regex_match s) = (_, refl)
header_value-IsDecided (suffix_match s) = (_, refl)
header_value-IsDecided unknown_header = (_, refl)

-- The pattern that a header's matcher stands for: any text contains the empty one.
abbrev pub as_pattern : HeaderSpecifier → StringPattern
as_pattern (string_match m) = m.match_pattern
as_pattern (contains_match s) = contains s
as_pattern (exact_match s) = exact s
as_pattern (prefix_match s) = prefix s
as_pattern present_match = contains ""
as_pattern (safe_regex_match s) = safe_regex s
as_pattern (suffix_match s) = suffix s
as_pattern unknown_header = unknown_pattern

-- The text of a pattern, and whether it is tied to the start and to the end.
abbrev pub pattern_text : StringPattern → String
pattern_text (exact s) = s
pattern_text (contains s) = s
pattern_text (prefix s) = s
pattern_text (suffix s) = s
pattern_text (safe_regex s) = s
pattern_text unknown_pattern = ""

abbrev pub at_start : StringPattern → Bool
at_start (exact s) = true
at_start (prefix s) = true
at_start _ = false

abbrev pub at_end : StringPattern → Bool
at_end (exact s) = true
at_end (suffix s) = true
at_end _ = false

-- the text with the anchors of a regular expression
abbrev pub anchored : Bool → Bool → String → String
anchored true true text = "^" +++ (text +++ "$")
anchored true false text = "^" +++ text
anchored false true text = text +++ "$"
anchored false false text = text

abbrev pub regex_of : HeaderSpecifier → String
regex_of s =
    let pattern = as_pattern s in
    anchored (at_start pattern) (at_end pattern) (pattern_text pattern)

-- The condition on a header: the variable of the header is compared with the regular expression,
-- and the comparison is inverted if the header asks for that.
pub record IsCondition (h : HeaderMatcher) (v : Var) : Type 0 where
  pub variable : String
  pub method : h.name ≡ ":method" → variable ≡ "request_method"
  pub authority : h.name ≡ ":authority" → variable ≡ "http_host"
  pub other :
      h.name ≢ ":method"
      → h.name ≢ ":authority"
      → variable ≡ "http_" +++ replace_char b'-' "_" (to_lower h.name)
  pub plain : h.invert_match ≡ false → v ≡ texts (variable ∷ "~~" ∷ regex_of h.specifier ∷ [])
  pub inverted :
      h.invert_match ≡ true → v ≡ texts (variable ∷ "!" ∷ "~~" ∷ regex_of h.specifier ∷ [])

abbrev pub AreConditions : List HeaderMatcher → List Var → Type 0
AreConditions [] [] = Unit
AreConditions (h ∷ hs) (v ∷ vs) = IsCondition h v × AreConditions hs vs
AreConditions _ _ = ⊥

pattern_value-anchored :
    (p : StringPattern) (value : String)
    → pattern_value p ≡ ok value
    → value ≡ anchored (at_start p) (at_end p) (pattern_text p)
unfolding pattern_value
pattern_value-anchored (exact s) value e = sym (ok_injective e)
pattern_value-anchored (contains s) value e = sym (ok_injective e)
pattern_value-anchored (prefix s) value e = sym (ok_injective e)
pattern_value-anchored (suffix s) value e = sym (ok_injective e)
pattern_value-anchored (safe_regex s) value e = sym (ok_injective e)
pattern_value-anchored unknown_pattern value e = absurd (cc e)

header_value-regex_of :
    (s : HeaderSpecifier) (value : String) → header_value s ≡ ok value → value ≡ regex_of s
unfolding header_value get_string_match_value
header_value-regex_of (string_match m) value e = pattern_value-anchored m.match_pattern value e
header_value-regex_of (contains_match s) value e = sym (ok_injective e)
header_value-regex_of (exact_match s) value e = sym (ok_injective e)
header_value-regex_of (prefix_match s) value e = sym (ok_injective e)
header_value-regex_of present_match value e = sym (ok_injective e)
header_value-regex_of (safe_regex_match s) value e = sym (ok_injective e)
header_value-regex_of (suffix_match s) value e = sym (ok_injective e)
header_value-regex_of unknown_header value e = absurd (cc e)

other_name :
    (name : String)
    → name ≢ ":method"
    → name ≢ ":authority"
    → header_var_name name ≡ "http_" +++ replace_char b'-' "_" (to_lower name)
unfolding header_var_name
other_name name m a = elim (text-cases name ":method") [
  | inl (h, e) ↦ absurd (m e)
  | inr (h, _) ↦ elim (text-cases name ":authority") [
    | inl (g, e) ↦ absurd (a e)
    | inr (g, _) ↦ rw (h, g) refl
  ]
]

header_expr-IsCondition :
    (h : HeaderMatcher) (value : String)
    → header_value h.specifier ≡ ok value
    → IsCondition h (header_expr h value)
unfolding header_var_name
header_expr-IsCondition h value e =
    let same = header_value-regex_of h.specifier value e in
    record {
      variable = header_var_name h.name;
      method = λ n. rw n refl;
      authority = λ n. rw n refl;
      other = other_name h.name;
      plain = λ i. rw (i, ← same) refl;
      inverted = λ i. rw (i, ← same) refl;
    }

-- The conditions on the headers, or a failure.
abbrev pub IsComplete : Bool → List HeaderMatcher → Result (List Var) → Type 0
IsComplete true hs m = (vs : List Var) × (m ≡ ok vs) × AreConditions hs vs
IsComplete false hs m = (message : String) × (m ≡ err message)

next_header :
    (known later : Bool) (h : HeaderMatcher) (hs : List HeaderMatcher)
    → IsDecided known (header_value h.specifier)
    → IsComplete later hs (header_vars hs)
    → IsComplete (if known then later else false) (h ∷ hs) (header_vars (h ∷ hs))
unfolding header_vars header_var
next_header true true h hs (v, e) (vs, f, n) =
    (header_expr h v ∷ vs, rw (e, f) refl, (header_expr-IsCondition h v e, n))
next_header true false h hs (v, e) (message, f) = (message, rw (e, f) refl)
next_header false true h hs (message, e) rest = (message, rw e refl)
next_header false false h hs (message, e) rest = (message, rw e refl)

-- If every header has a matcher of a known kind, there is one condition for each header, in their
-- order, on the variable of the header: it asks for the regular expression of the matcher, tied to
-- the start for an exact text or a prefix and to the end for an exact text or a suffix, and it is
-- inverted just when the header asks for that. If any header has no matcher of a known kind, the
-- whole translation fails; it never panics.
pub header_vars-IsComplete :
    (hs : List HeaderMatcher) → IsComplete (all_known hs) hs (header_vars hs)
header_vars-IsComplete [] = ([], unfold header_vars in refl, tt)
header_vars-IsComplete (h ∷ hs) =
    next_header (is_known h.specifier) (all_known hs) h hs (header_value-IsDecided h.specifier)
      (header_vars-IsComplete hs)
