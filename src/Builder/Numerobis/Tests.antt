-- ===== src/Builder/Numerobis/Tests.antt =====
-- A registrar with a dimension, a parameter and two formulas, on a workspace that is a list of objects.
use doo_fit.Builder.Numerobis.Order.{register-assemble_all}
use doo_fit.Base.{
  insert, ℕ, ◌<◌, ◌==◌, String, false, none, some, List, [], ◌∷◌, All, Dict, find, assign,
  find-assign, find-assign_self, has_key, eq_iff, str_eq, Bool-cases, inl, inr, ◌⊎◌, ◌≡◌, refl,
  subst, arith, if◌then◌else◌,
}
use doo_fit.Builder.Numerobis.Element.{
  Element, Registrar, empty, declare, formula, dim_real, param_basic,
}
use doo_fit.Builder.Numerobis.Readiness.{check_ready}
use doo_fit.Builder.Numerobis.Buildable.{IsBuildable, Flags, IsKeyed}
use doo_fit.Builder.Numerobis.Termination.{IsRanked, IsRight, check_ready_lem, check_ready-cycle}
use doo_fit.Builder.Numerobis.Registration.{RooObject, Workspace, Site, register, returned}
use doo_fit.Builder.Numerobis.Safety.{Laws, IsSafe}
use doo_fit.Builder.Numerobis.Registered.{Places}
use doo_fit.Builder.Numerobis.Guarantee.{register_lem}
use doo_fit.Builder.Numerobis.Assembly.{
  Assembly, assembles_dim_real, assembles_param_basic, assembles_formula, assemble_all,
  assemble_all-IsSafe,
}

abbrev roo : Workspace (Dict (RooObject ℕ)) ℕ
roo = record { import_obj = λ o w. assign o.name o w; obj = λ w n. find n w; same = λ a b. a == b }

roo-Laws : Laws roo
roo-Laws = record {
  import_new = λ o w h. find-assign_self o.name o w;
  import_others = λ o w n h. ground (arith, find-assign o.name n o w);
}

-- The formula "twice" of "width", the formula "width" of "mean" and "x", and the formula "lost" of a
-- name that is not declared.
abbrev model : List (Assembly ℕ)
model =
    assembles_formula "twice" "twice" "2*@0" ("width" ∷ [])
    ∷ assembles_formula "lost" "lost" "@0" ("nowhere" ∷ [])
    ∷ assembles_formula "width" "width" "@0/@1" ("mean" ∷ "x" ∷ [])
    ∷ assembles_dim_real "x" "x" "mass" 0 10 "MeV"
    ∷ assembles_param_basic "mean" "mean" "mean" 5 0 10 "MeV"
    ∷ []

abbrev declared : Registrar ℕ
declared = elim (assemble_all model empty) [ none ↦ empty | some r ↦ r ]

abbrev start : Site (Dict (RooObject ℕ)) ℕ
start = record { elements = declared.elements; ws = [] }

start-IsSafe : IsSafe roo start
unfolding assemble_all declare empty has_key find assign formula insert dim_real param_basic
start-IsSafe = assemble_all-IsSafe roo model declared [] refl (λ n h. refl)

abbrev small : Registrar ℕ
small = elim (assemble_all (assembles_formula "f" "f" "@0" ("x" ∷ []) ∷ []) empty) [
  | none ↦ empty
  | some r ↦ r
]

assemble_all-IsSafe_example : IsSafe roo (record { elements = small.elements; ws = [] })
unfolding assemble_all declare empty has_key find assign formula insert
assemble_all-IsSafe_example =
    assemble_all-IsSafe roo (assembles_formula "f" "f" "@0" ("x" ∷ []) ∷ []) small [] refl
      (λ n h. refl)

abbrev rank : String → ℕ
rank n =
    if str_eq n "twice" then 2 else if str_eq n "width" then 1 else if str_eq n "lost" then 1 else 0

-- The rank, tested along the list.
abbrev AllRanked : Dict (Element ℕ) → Type 0
AllRanked [] = Unit
AllRanked ((k, e) ∷ m) = All (λ d. rank d < rank k) e.dependants × AllRanked m

AllRanked-IsRanked : (m : Dict (Element ℕ)) → AllRanked m → IsRanked rank m
unfolding find
AllRanked-IsRanked [] a n e f = ground arith
AllRanked-IsRanked ((k, e) ∷ m) a n e' f = elim (Bool-cases (str_eq k n)) [
  | inl same ↦
      let at : e ≡ e' = ground arith in
      let key : k ≡ n = (eq_iff k n).0 same in
      subst (λ n. All (λ d. rank d < rank n) e'.dependants) key
        (subst (λ z. All (λ d. rank d < rank k) z.dependants) at a.0)
  | inr other ↦ AllRanked-IsRanked m a.1 n e' ground (arith)
]

declared-IsRanked : IsRanked rank declared.elements
unfolding assemble_all declare empty has_key find assign insert formula dim_real param_basic
declared-IsRanked =
    AllRanked-IsRanked declared.elements
      ((omega arith, tt), (tt, ((omega arith, tt), ((omega arith, (omega arith, tt)), (tt, tt)))))

check_ready_lem_example :
    (m : Dict (Element ℕ)) × IsRight
      (check_ready 3 "twice" declared.elements)
      declared.elements
      "twice"
      m
    × Flags declared.elements m
check_ready_lem_example =
    check_ready_lem rank 3 "twice" declared.elements start-IsSafe.keyed declared-IsRanked
      (omega arith)

register_lem_example :
    (IsBuildable declared.elements "twice"
      × Places roo (register roo 3 "twice" start) start "twice")
    ⊎ ((IsBuildable declared.elements "twice" → ⊥)
        × (m : Dict (Element ℕ)) × (register roo 3 "twice" start
            ≡ (returned none, record start { elements = m }))
        × Flags declared.elements m)
register_lem_example =
    register_lem roo roo-Laws rank 3 "twice" start start-IsSafe declared-IsRanked (omega arith)

-- Two formulas of one another.
abbrev loop : Dict (Element ℕ)
loop = ("a", formula "a" "a" "@0" ("b" ∷ [])) ∷ ("b", formula "b" "b" "@0" ("a" ∷ [])) ∷ []

loop-IsKeyed : IsKeyed loop
unfolding find formula
loop-IsKeyed n e f = elim (Bool-cases (str_eq "a" n)) [
  | inl a ↦ ground (arith, eq_iff "a" n)
  | inr a ↦ ground (arith, eq_iff "b" n)
]

abbrev IsLooped : String → Type 0
IsLooped n = (n ≡ "a") ⊎ (n ≡ "b")

loop-IsLooped :
    (n : String)
    → IsLooped n
    → (e : Element ℕ) × (d : String) × (ds : List String) × (find n loop ≡ some e)
      × (e.ready ≡ false)
      × (e.dependants ≡ d ∷ ds)
      × IsLooped d
unfolding find formula
loop-IsLooped n (inl a) =
    (formula "a" "a" "@0" ("b" ∷ []), "b", [], rw a refl, refl, refl, inr refl)
loop-IsLooped n (inr b) =
    (formula "b" "b" "@0" ("a" ∷ []), "a", [], rw b refl, refl, refl, inl refl)

check_ready-cycle_example : check_ready 100 "a" loop ≡ none
check_ready-cycle_example =
    check_ready-cycle IsLooped loop loop-IsKeyed loop-IsLooped 100 "a" (inl refl)

-- The same elements but "lost", each after what it needs.
abbrev ordered : List (Assembly ℕ)
ordered =
    assembles_param_basic "mean" "mean" "mean" 5 0 10 "MeV"
    ∷ assembles_dim_real "x" "x" "mass" 0 10 "MeV"
    ∷ assembles_formula "width" "width" "@0/@1" ("mean" ∷ "x" ∷ [])
    ∷ assembles_formula "twice" "twice" "2*@0" ("width" ∷ [])
    ∷ []

abbrev ordered_registrar : Registrar ℕ
ordered_registrar = elim (assemble_all ordered empty) [ none ↦ empty | some r ↦ r ]

abbrev ordered_site : Site (Dict (RooObject ℕ)) ℕ
ordered_site = record { elements = ordered_registrar.elements; ws = [] }

register-assemble_all_example :
    Places roo (register roo 5 "twice" ordered_site) ordered_site "twice"
unfolding assemble_all declare empty has_key find assign formula insert dim_real param_basic
register-assemble_all_example =
    register-assemble_all roo ordered ordered_registrar [] roo-Laws refl
      (tt, (tt, ((refl, (refl, tt)), ((refl, tt), tt)))) (λ n h. refl) "twice" refl
