-- ===== src/Config/Pairs.antt =====
-- CommaSeparatedPair: what it reads, and that it does not read what it prints.
use doo_fit.Base.{ℕ, [], ◌∷◌, ◌++◌, All, ◌≡◌, ◌≢◌, refl, arith}
use doo_fit.Config.CommaSeparated.{
  Text, comma, Lexer, returned, terminated, IsWord, Laws, decompose_string, CommaSeparatedPair,
  parse_pair, print_pair,
}

All-append :
    (xs ys : Text)
    → All (λ c. c ≢ comma) xs
    → All (λ c. c ≢ comma) ys
    → All (λ c. c ≢ comma) (xs ++ ys)
All-append [] ys a b = b
All-append (x ∷ xs) ys a b = (a.0, All-append xs ys a.1 b)

append_ne : (xs : Text) (y : ℕ) (ys : Text) → xs ++ (y ∷ ys) ≢ []
append_ne [] y ys h = ground arith
append_ne (x ∷ xs) y ys h = ground arith

module _ {T : Type 0} (lexer : Lexer T) (laws : Laws lexer) where
  print_pair-IsWord : (p : CommaSeparatedPair T) → IsWord (print_pair lexer p)
  unfolding print_pair
  print_pair-IsWord p =
      let (n1, a1) = laws.show_word p.first in
      let (n2, a2) = laws.show_word p.second in
      (
        append_ne (lexer.show p.first) 45 _,
        All-append (lexer.show p.first) _ a1 (omega arith, (omega arith, a2)),
      )

  -- If words joined by commas are the tokens, and a printed value is a word that is cast to the value,
  -- then Parse of two printed values with a comma between gives a pair of these values, whatever the
  -- pair was before; but Parse of what Print gives ends the program, for every pair.
  pub parse_pair_lem :
      (x y : T) (p q : CommaSeparatedPair T)
      → (parse_pair lexer (lexer.show x ++ (comma ∷ lexer.show y)) p
          ≡ (returned, record { first = x; second = y }))
        × (parse_pair lexer (print_pair lexer p) q ≡ (terminated, q))
  unfolding parse_pair decompose_string
  parse_pair_lem x y p q =
      let e : lexer.tokens (lexer.show x ++ (comma ∷ lexer.show y))
          ≡ lexer.show x ∷ lexer.show y ∷ [] =
        laws.tokens_join (lexer.show x ∷ lexer.show y ∷ [])
          (laws.show_word x, (laws.show_word y, tt)) in
      let f : lexer.tokens (print_pair lexer p) ≡ print_pair lexer p ∷ [] =
        laws.tokens_join (print_pair lexer p ∷ []) (print_pair-IsWord p, tt) in
      (rw (e, laws.cast_show x, laws.cast_show y) refl, rw f refl)
