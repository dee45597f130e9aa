-- ===== src/Toy/Study/Partners.antt =====
-- The choice of results in BuildEvaluationArgSet, where reference toys are evaluated.
use doo_fit.Base.{
  true, false, not, Option, none, some, List, [], ◌∷◌, length, ℤ, if◌then◌else◌, Bool-cases, inl,
  inr, ◌⊎◌, ◌≡◌, ◌≢◌, refl, sym, ap, ◌∙◌, arith,
}
use doo_fit.Fitter.EasyFitResult.Convert.{RooFitResult}
use doo_fit.Toy.Study.Reading.{Container, Config}
use doo_fit.Toy.Study.Evaluation.{SeedMap, same_int, count_seed, partner, select}

same_refl : (a : ℤ) → same_int a a ≡ true
same_refl a = ground arith

different : (a b : ℤ) → a ≢ b → same_int a b ≡ false
different a b h = ground arith

module _ {D : Type 0} where
  -- The results of a seed, in the order of the multimap.
  abbrev pub of_seed : ℤ → SeedMap D → List (Container D)
  of_seed k [] = []
  of_seed k ((j, c) ∷ m) = let rest = of_seed k m in if same_int j k then c ∷ rest else rest

  count_seed-length : (k : ℤ) (m : SeedMap D) → count_seed k m ≡ length (of_seed k m)
  unfolding count_seed
  count_seed-length k [] = refl
  count_seed-length k ((j, c) ∷ m) = elim (Bool-cases (same_int j k)) [
    | inl t ↦ rw t (omega (arith, count_seed-length k m))
    | inr t ↦ rw t (omega (arith, count_seed-length k m))
  ]

  -- The last of some results that has another run id.
  abbrev last_other : ℤ → List (Container D) → Option (RooFitResult D) → Option (RooFitResult D)
  last_other run_id [] found = found
  last_other run_id (c ∷ cs) found =
      last_other run_id cs (if not (same_int c.run_id run_id) then some c.fit_result1 else found)

  partner-last_other :
      (k run_id : ℤ) (m : SeedMap D) (found : Option (RooFitResult D))
      → partner k run_id m found ≡ last_other run_id (of_seed k m) found
  unfolding partner
  partner-last_other k run_id [] found = refl
  partner-last_other k run_id ((j, c) ∷ m) found = elim (Bool-cases (same_int j k)) [
    | inl t ↦ rw t (partner-last_other k run_id m _)
    | inr t ↦ rw t (partner-last_other k run_id m found)
  ]

  -- The multimap has exactly these two results of their seed, in either order.
  abbrev pub ArePartners : SeedMap D → Container D → Container D → Type 0
  ArePartners m c d = (of_seed c.seed m ≡ c ∷ d ∷ []) ⊎ (of_seed c.seed m ≡ d ∷ c ∷ [])

  count_two : (m : SeedMap D) (c d : Container D) → ArePartners m c d → count_seed c.seed m ≡ 2
  count_two m c d (inl e) = count_seed-length c.seed m ∙ ap length e
  count_two m c d (inr e) = count_seed-length c.seed m ∙ ap length e

  partner_lem :
      (m : SeedMap D) (c d : Container D)
      → c.run_id ≢ d.run_id
      → ArePartners m c d
      → partner c.seed c.run_id m none ≡ some d.fit_result1
  partner_lem m c d other (inl e) =
      partner-last_other c.seed c.run_id m none
      ∙ rw (e, same_refl c.run_id, different d.run_id c.run_id (λ h. other (sym h))) refl
  partner_lem m c d other (inr e) =
      partner-last_other c.seed c.run_id m none
      ∙ rw (e, same_refl c.run_id, different d.run_id c.run_id (λ h. other (sym h))) refl

  -- If reference toys are evaluated and the multimap has exactly two results of a seed, one of which
  -- has the run id of the reference toys and the other has not, BuildEvaluationArgSet evaluates the
  -- first with the second as its reference, and nothing for the second.
  pub select_lem :
      (config : Config) (m : SeedMap D) (c d : Container D)
      → config.evaluate_reference_toys ≡ true
      → c.seed ≡ d.seed
      → c.run_id ≡ config.reference_toys_id
      → c.run_id ≢ d.run_id
      → ArePartners m c d
      → (select config m c ≡ some (c.fit_result1, some d.fit_result1)) × (select config m d ≡ none)
  unfolding select
  select_lem config m c d on same id other two = (
    rw (on, count_two m c d two, ← id, same_refl c.run_id, partner_lem m c d other two) refl,
    rw (on, ← same, count_two m c d two, ← id, different d.run_id c.run_id (λ h. other (sym h)))
        refl,
  )
