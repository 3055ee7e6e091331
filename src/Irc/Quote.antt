-- ===== src/Irc/Quote.antt =====
-- `JsonQuote` of src/uc_irc_expression.cpp writes a JSON string that reads back as the text.
use unity_catalog.Base.{
  ℕ, ◌≤◌, ◌≡◌, refl, sym, ◌∙◌, ap, ◌⊎◌, Option, none, some, [], ◌∷◌, ◌++◌, append_assoc, All,
  length, if◌then◌else◌, ◌==◌, leb, arith, Text, lit,
}
use unity_catalog.Irc.{escape, escape_all, json_quote}

abbrev cons_to : ℕ → Option (Text × Text) → Option (Text × Text)
cons_to c none = none
cons_to c (some (s, rest)) = some (c ∷ s, rest)

-- The character that an escape of one letter stands for.
abbrev pub escaped : ℕ → Option ℕ
escaped c =
    if c == 34
    then some 34
    else if c == 92
    then some 92
    else if c == 110
    then some 10
    else if c == 114
    then some 13
    else if c == 116
    then some 9
    else none

-- Reads a JSON string behind its opening quote, up to its closing one, as RFC 8259 has it: a control
-- character must be escaped. Escapes that the writer has no use for are not read.
pub read_string : Text → Option (Text × Text)
read_string [] = none
read_string (c ∷ []) = if c == 34 then some ([], []) else none
read_string (c ∷ d ∷ s) =
    let next = read_string (d ∷ s) in
    let behind = read_string s in
    if c == 34
    then some ([], d ∷ s)
    else if c == 92
    then elim (escaped d) [ none ↦ none | some x ↦ cons_to x behind ]
    else if leb 32 c
    then cons_to c next
    else none

-- A character that JSON allows in a string as it is, or that the writer escapes.
abbrev pub Writable : ℕ → Type 0
Writable c = (32 ≤ c) ⊎ (c ≡ 10) ⊎ (c ≡ 13) ⊎ (c ≡ 9)

read-escape :
    (c : ℕ) (d : ℕ) (s : Text)
    → Writable c
    → read_string (escape c ++ d ∷ s) ≡ cons_to c (read_string (d ∷ s))
unfolding escape read_string lit
read-escape c d s w = ground arith

abbrev pub read_quoted : Text → Option (Text × Text)
read_quoted [] = none
read_quoted (c ∷ s) = if c == 34 then read_string s else none

first_of : (e rest : Text) → 1 ≤ length e → (d : ℕ) × (t : Text) × (e ++ rest ≡ d ∷ t)
first_of [] rest h = absurd (omega arith)
first_of (d ∷ t) rest h = (d, t ++ rest, refl)

escape-length : (c : ℕ) → 1 ≤ length (escape c)
unfolding escape lit
escape-length c = ground arith

escape_all_some : (s rest : Text) → (d : ℕ) × (t : Text) × (escape_all s ++ 34 ∷ rest ≡ d ∷ t)
unfolding escape_all
escape_all_some [] rest = (34, rest, refl)
escape_all_some (c ∷ s) rest =
    let (d, t, e) = first_of (escape c) (escape_all s ++ 34 ∷ rest) (escape-length c) in
    (d, t, append_assoc (escape c) (escape_all s) (34 ∷ rest) ∙ e)

read-escape_all :
    (s rest : Text) → All Writable s → read_string (escape_all s ++ 34 ∷ rest) ≡ some (s, rest)
unfolding escape_all read_string
read-escape_all [] [] w = refl
read-escape_all [] (x ∷ rest) w = refl
read-escape_all (c ∷ s) rest w =
    let (d, t, e) = escape_all_some s rest in
    rw (append_assoc (escape c) (escape_all s) (34 ∷ rest), e)
      (read-escape c d t w.0 ∙ ap (cons_to c) (ap read_string (sym e) ∙ read-escape_all s rest w.1))

-- The JSON string of a text reads back as that text, up to its closing quote and no further, where
-- the text has no control character but newline, carriage return and tab.
pub json_quote-reads :
    (s rest : Text) → All Writable s → read_quoted (json_quote s ++ rest) ≡ some (s, rest)
unfolding json_quote
json_quote-reads s rest w =
    ap read_string (append_assoc (escape_all s) (34 ∷ []) rest) ∙ read-escape_all s rest w
