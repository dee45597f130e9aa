-- ===== src/Config/Lists.antt =====
-- CommaSeparatedList: what it prints, it reads.
use doo_fit.Base.{none, some, List, [], ◌∷◌, ◌++◌, All, ◌≡◌, refl, ◌∙◌, sym, ap}
use doo_fit.Config.CommaSeparated.{
  Text, Lexer, returned, bad_lexical_cast, join, IsWord, Laws, decompose_string, parse_elements,
  parse_list, print_list,
}

module _ {T : Type 0} where
  pub append_one : (xs : List T) (y : T) (ys : List T) → (xs ++ (y ∷ [])) ++ ys ≡ xs ++ (y ∷ ys)
  append_one [] y ys = refl
  append_one (x ∷ xs) y ys = ap (λ zs. x ∷ zs) (append_one xs y ys)

  pub append_nil : (xs : List T) → xs ++ [] ≡ xs
  append_nil [] = refl
  append_nil (x ∷ xs) = ap (λ zs. x ∷ zs) (append_nil xs)

module _ {T : Type 0} (lexer : Lexer T) where
  -- Each token is cast to its value.
  abbrev pub Casts : List Text → List T → Type 0
  Casts [] [] = Unit
  Casts (t ∷ ts) (x ∷ xs) = (lexer.cast t ≡ some x) × Casts ts xs
  Casts _ _ = ⊥

  parse_elements-Casts :
      (ts rest : List Text) (xs vec : List T)
      → Casts ts xs
      → parse_elements lexer (ts ++ rest) vec ≡ parse_elements lexer rest (vec ++ xs)
  unfolding parse_elements
  parse_elements-Casts [] rest [] vec c = rw (append_nil vec) refl
  parse_elements-Casts [] rest (x ∷ xs) vec c = absurd c
  parse_elements-Casts (t ∷ ts) rest [] vec c = absurd c
  parse_elements-Casts (t ∷ ts) rest (x ∷ xs) vec c =
      rw c.0 (parse_elements-Casts ts rest xs (vec ++ (x ∷ [])) c.1 ∙ rw (append_one vec x xs) refl)

  parse_elements-nil : (vec : List T) → parse_elements lexer [] vec ≡ (returned, vec)
  unfolding parse_elements
  parse_elements-nil vec = refl

  -- If the tokens of a string are cast to values up to one that is not, Parse throws
  -- bad_lexical_cast, and the list, whatever it held, holds these values.
  parse_list-bad :
      (str : Text) (good rest : List Text) (bad : Text) (xs vec : List T)
      → decompose_string lexer str ≡ good ++ (bad ∷ rest)
      → Casts good xs
      → lexer.cast bad ≡ none
      → parse_list lexer str vec ≡ (bad_lexical_cast, xs)
  unfolding parse_list parse_elements
  parse_list-bad str good rest bad xs vec e c b =
      rw e (parse_elements-Casts good (bad ∷ rest) xs [] c ∙ rw b refl)

  abbrev shown : List T → List Text
  shown [] = []
  shown (x ∷ xs) = lexer.show x ∷ shown xs

  print_list-eq : (x : T) (xs : List T) → print_list lexer (x ∷ xs) ≡ some (join (shown (x ∷ xs)))
  unfolding print_list
  print_list-eq x [] = refl
  print_list-eq x (y ∷ xs) = rw (print_list-eq y xs) refl

  module _ (laws : Laws lexer) where
    shown-AllWords : (xs : List T) → All IsWord (shown xs)
    shown-AllWords [] = tt
    shown-AllWords (x ∷ xs) = (laws.show_word x, shown-AllWords xs)

    shown-Casts : (xs : List T) → Casts (shown xs) xs
    shown-Casts [] = tt
    shown-Casts (x ∷ xs) = (laws.cast_show x, shown-Casts xs)

    -- If words joined by commas are the tokens, and a printed value is a word that is cast to the value,
    -- then Print of a list that is not empty gives a text, and Parse of this text gives the list,
    -- whatever was in the list before.
    pub print_list-parse_list :
        (x : T) (xs vec : List T)
        → (str : Text) × (print_list lexer (x ∷ xs) ≡ some str)
          × (parse_list lexer str vec ≡ (returned, x ∷ xs))
    unfolding parse_list decompose_string
    print_list-parse_list x xs vec =
        let ts = shown (x ∷ xs) in
        let e : lexer.tokens (join ts) ≡ ts ++ [] =
          laws.tokens_join ts (shown-AllWords (x ∷ xs)) ∙ sym (append_nil ts) in
        (
          join ts,
          print_list-eq x xs,
          rw e (
              parse_elements-Casts ts [] (x ∷ xs) [] (shown-Casts (x ∷ xs))
              ∙ parse_elements-nil (x ∷ xs)),
        )
