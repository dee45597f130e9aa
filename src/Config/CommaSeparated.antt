-- ===== src/Config/CommaSeparated.antt =====
-- AbsTypeCommaSeparated, CommaSeparatedList and CommaSeparatedPair. A string is a list of character
-- codes. boost's tokenizer and lexical_cast, and the output operator of the element type, are the
-- parameter `Lexer`.
use doo_fit.Base.{ℕ, Option, none, some, List, [], ◌∷◌, ◌++◌, All, ◌≡◌, ◌≢◌}

abbrev pub Text : Type 0
Text = List ℕ

abbrev pub comma : ℕ
comma = 44

-- `tokens` is the tokenizer with the separator ",", `cast` is lexical_cast, with none where it throws
-- bad_lexical_cast, and `show` is operator<<.
pub record Lexer (T : Type 0) : Type 0 where
  pub tokens : Text → List Text
  pub cast : Text → Option T
  pub show : T → Text

-- The parse returned, threw bad_lexical_cast, or ended the program by a `throw` with no exception at
-- hand.
pub data Outcome : Type 0 where
  returned bad_lexical_cast terminated : Outcome

-- The parts, with a comma between them.
abbrev pub join : List Text → Text
join [] = []
join (t ∷ []) = t
join (t ∷ u ∷ ts) = t ++ (comma ∷ join (u ∷ ts))

-- A text that is one token: not empty and without a comma.
abbrev pub IsWord : Text → Type 0
IsWord t = (t ≢ []) × All (λ c. c ≢ comma) t

-- What boost documents: words joined by commas are the tokens; and that a value can be read back from
-- what it prints, which is a word, as for numbers and names.
pub record Laws {T : Type 0} (lexer : Lexer T) : Type 0 where
  pub tokens_join : (ts : List Text) → All IsWord ts → lexer.tokens (join ts) ≡ ts
  pub cast_show : (x : T) → lexer.cast (lexer.show x) ≡ some x
  pub show_word : (x : T) → IsWord (lexer.show x)

module _ {T : Type 0} (lexer : Lexer T) where
  unfoldable pub decompose_string : Text → List Text
  decompose_string str = lexer.tokens str

  abbrev push_cast : (List T → Outcome × List T) → Option T → List T → Outcome × List T
  push_cast rest none vec = (bad_lexical_cast, vec)
  push_cast rest (some x) vec = rest (vec ++ (x ∷ []))

  -- The loop of CommaSeparatedList::Parse.
  unfoldable pub parse_elements : List Text → List T → Outcome × List T
  parse_elements [] vec = (returned, vec)
  parse_elements (e ∷ es) vec = push_cast (parse_elements es) (lexer.cast e) vec

  -- CommaSeparatedList::Parse clears the list first.
  unfoldable pub parse_list : Text → List T → Outcome × List T
  parse_list str vec = parse_elements (decompose_string str) []

  -- CommaSeparatedList::Print; with an empty list it reads before the first element: none.
  unfoldable pub print_list : List T → Option Text
  print_list [] = none
  print_list (x ∷ []) = some (lexer.show x)
  print_list (x ∷ y ∷ xs) = elim (print_list (y ∷ xs)) [
    | none ↦ none
    | some t ↦ some (lexer.show x ++ (comma ∷ t))
  ]

pub record CommaSeparatedPair (T : Type 0) : Type 0 where
  pub first : T
  pub second : T

module _ {T : Type 0} (lexer : Lexer T) where
  abbrev pub set_second : Option T → CommaSeparatedPair T → Outcome × CommaSeparatedPair T
  set_second none p = (bad_lexical_cast, p)
  set_second (some y) p = (returned, record p { second = y })

  abbrev pub set_both : Option T → Option T → CommaSeparatedPair T → Outcome × CommaSeparatedPair T
  set_both none y p = (bad_lexical_cast, p)
  set_both (some x) y p = set_second y (record p { first = x })

  abbrev pub parse_parts : List Text → CommaSeparatedPair T → Outcome × CommaSeparatedPair T
  parse_parts (a ∷ b ∷ []) p = set_both (lexer.cast a) (lexer.cast b) p
  parse_parts _ p = (terminated, p)

  -- CommaSeparatedPair::Parse
  unfoldable pub parse_pair : Text → CommaSeparatedPair T → Outcome × CommaSeparatedPair T
  parse_pair str p = parse_parts (decompose_string lexer str) p

  -- CommaSeparatedPair::Print, with "->" between the two.
  unfoldable pub print_pair : CommaSeparatedPair T → Text
  print_pair p = lexer.show p.first ++ (45 ∷ 62 ∷ lexer.show p.second)
