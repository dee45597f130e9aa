-- ===== src/Builder/Numerobis/Readiness.antt =====
-- elements/registrar.cpp: Registrar::CheckReady.
use doo_fit.Base.{
  ℕ, zero, suc, String, Bool, ◌&&◌, true, false, Option, none, some, List, [], ◌∷◌, Dict, find,
  assign, if◌then◌else◌,
}
use doo_fit.Builder.Numerobis.Element.{Element}

-- none where the recursion has not ended within the fuel.
abbrev pub Check : Type 0 → Type 0
Check R = Option (Bool × Dict (Element R))

abbrev pub and_check : {R : Type 0} → Check R → (Bool → Dict (Element R) → Check R) → Check R
and_check none f = none
and_check (some (b, m)) f = f b m

module _ {R : Type 0} where
  abbrev pub ready_in : Option (Element R) → Bool
  ready_in none = false
  ready_in (some e) = e.ready

  -- element->set_ready(true) on the element of a name.
  abbrev pub set_ready_found : String → Option (Element R) → Dict (Element R) → Dict (Element R)
  set_ready_found n none m = m
  set_ready_found n (some e) m = assign n (record e { ready = true }) m

  unfoldable pub set_ready : String → Dict (Element R) → Dict (Element R)
  set_ready n m = set_ready_found n (find n m) m

  -- One round of the loop over the dependants, with `check` for the recursive call.
  abbrev pub check_dependant :
      (check : String → Dict (Element R) → Check R)
      → Option (Element R)
      → Bool
      → Dict (Element R)
      → Check R
  check_dependant check none allready m = some (false, m)
  check_dependant check (some e) allready m =
      and_check (check e.id_abs m) (λ b m'. some (allready && b, m'))

  unfoldable pub check_dependants :
      (check : String → Dict (Element R) → Check R)
      → List String
      → Bool
      → Dict (Element R)
      → Check R
  check_dependants check [] allready m = some (allready, m)
  check_dependants check (d ∷ ds) allready m =
      and_check (check_dependant check (find d m) allready m) (check_dependants check ds)

  -- What follows the loop.
  abbrev pub finish_check : String → Bool → Dict (Element R) → Check R
  finish_check n allready m =
      let m' = if allready then set_ready n m else m in some (ready_in (find n m'), m')

  abbrev pub check_found :
      (check : String → Dict (Element R) → Check R)
      → Option (Element R)
      → String
      → Dict (Element R)
      → Check R
  check_found check none n m = some (false, m)
  check_found check (some e) n m =
      if e.ready
      then some (true, m)
      else and_check (check_dependants check e.dependants true m) (finish_check n)

  unfoldable pub check_ready : ℕ → String → Dict (Element R) → Check R
  check_ready zero n m = none
  check_ready (suc fuel) n m = check_found (check_ready fuel) (find n m) n m
