-- ===== src/Config/Tests.antt =====
-- A tokenizer that drops empty tokens, the letters y and n for the Booleans, and runs with them.
use doo_fit.Base.{
  ℕ, ◌+◌, ◌==◌, ==_iff, Bool, true, false, Option, none, some, List, [], ◌∷◌, ◌++◌, All, Bool-cases,
  inl, inr, ◌⊎◌, ◌≡◌, ◌≢◌, refl, ◌∙◌, ap, arith, if◌then◌else◌, length, ◌%◌,
}
use doo_fit.Config.CommaSeparated.{
  Text, comma, Lexer, returned, terminated, join, IsWord, Laws, CommaSeparatedPair, parse_pair,
  print_pair, parse_list, print_list,
}
use doo_fit.Config.Lists.{append_one, append_nil, print_list-parse_list}
use doo_fit.Config.Pairs.{parse_pair_lem}
use doo_fit.Config.Distribution.{
  Double, DiscreteProbabilityDistribution, parse, flatten, IsCumulated, parse_lem,
}

abbrev emit : Text → List Text → List Text
emit [] ts = ts
emit (c ∷ cs) ts = (c ∷ cs) ∷ ts

abbrev split : Text → Text → List Text
split [] cur = emit cur []
split (c ∷ cs) cur =
    let rest = split cs (cur ++ (c ∷ [])) in
    let new = split cs [] in if c == comma then emit cur new else rest

split-word :
    (t rest cur : Text) → All (λ c. c ≢ comma) t → split (t ++ rest) cur ≡ split rest (cur ++ t)
split-word [] rest cur a = rw (append_nil cur) refl
split-word (c ∷ cs) rest cur a = elim (Bool-cases (c == comma)) [
  | inl e ↦ absurd (a.0 ((==_iff c comma).0 e))
  | inr e ↦ rw e (split-word cs rest (cur ++ (c ∷ [])) a.1 ∙ rw (append_one cur c cs) refl)
]

emit-word : (t : Text) (ts : List Text) → t ≢ [] → emit t ts ≡ t ∷ ts
emit-word [] ts h = absurd (h refl)
emit-word (c ∷ cs) ts h = refl

split-join : (ts : List Text) → All IsWord ts → split (join ts) [] ≡ ts
split-join [] a = refl
split-join (t ∷ []) a = rw (append_nil t) at (split-word t [] [] a.0.1) ∙ emit-word t [] a.0.0
split-join (t ∷ u ∷ ts) a =
    split-word t (comma ∷ join (u ∷ ts)) [] a.0.1
    ∙ (emit-word t _ a.0.0 ∙ ap (λ x. t ∷ x) (split-join (u ∷ ts) a.1))

abbrev cast : Text → Option Bool
cast (c ∷ []) = if c == 121 then some true else if c == 110 then some false else none
cast _ = none

abbrev show : Bool → Text
show true = 121 ∷ []
show false = 110 ∷ []

abbrev lexer : Lexer Bool
lexer = record { tokens = λ t. split t []; cast = cast; show = show }

cast-show : (b : Bool) → cast (show b) ≡ some b
cast-show true = refl
cast-show false = refl

show-IsWord : (b : Bool) → IsWord (show b)
show-IsWord true = ((λ h. ground arith), (omega arith, tt))
show-IsWord false = ((λ h. ground arith), (omega arith, tt))

lexer-Laws : Laws lexer
lexer-Laws = record { tokens_join = split-join; cast_show = cast-show; show_word = show-IsWord }

print_list-parse_list_example :
    (str : Text) × (print_list lexer (true ∷ false ∷ true ∷ []) ≡ some str)
    × (parse_list lexer str (false ∷ []) ≡ (returned, true ∷ false ∷ true ∷ []))
print_list-parse_list_example =
    print_list-parse_list lexer lexer-Laws true (false ∷ true ∷ []) (false ∷ [])

-- "y,n,?,y"

abbrev pair : CommaSeparatedPair Bool
pair = record { first = false; second = false }

parse_pair_lem_example :
    (parse_pair lexer (121 ∷ 44 ∷ 110 ∷ []) pair
      ≡ (returned, record { first = true; second = false }))
    × (parse_pair lexer (print_pair lexer pair) pair ≡ (terminated, pair))
parse_pair_lem_example = parse_pair_lem lexer lexer-Laws true false pair pair

-- A number is the length of its text.
abbrev double : Double ℕ
double = record { zero_ = 0; add = λ a b. a + b; atof = λ t. length t }

abbrev distribution : DiscreteProbabilityDistribution ℕ
distribution = record { var_name = []; probabilities = [] }

-- "a,1,11"
abbrev text : Text
text = 97 ∷ 44 ∷ 49 ∷ 44 ∷ 49 ∷ 49 ∷ []

parse_lem_example :
    ((name : Text) × (kvs : List (Text × Text)) × (ps : List (ℕ × ℕ)) × (split text []
        ≡ name ∷ flatten kvs)
      × (parse double (λ t. split t []) text distribution
          ≡ some (returned, record { var_name = name; probabilities = ps }))
      × IsCumulated double ps kvs 0)
    ⊎ ((length (split text []) % 2 ≡ 0)
        × (parse double (λ t. split t []) text distribution ≡ some (terminated, distribution)))
parse_lem_example = parse_lem double (λ t. split t []) text distribution
