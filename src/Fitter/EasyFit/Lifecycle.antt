-- ===== src/Fitter/EasyFit/Lifecycle.antt =====
-- The states of a fit: SetPdfAndDataSet, ExecuteFit, FinalizeFit, Fit and the getters of
-- EasyFit.cpp. `RooAbsPdf::fitTo` and the clocks are the parameter `Roo`.
use doo_fit.Base.{
  ℕ, ◌-◌, ◌/◌, String, Bool, true, ◌&&◌, ◌||◌, not, Option, none, some, List, [], ◌∷◌,
  if◌then◌else◌,
}
use doo_fit.Fitter.EasyFit.Options.{CmdArg, EasyFit}
use doo_fit.Fitter.EasyFit.Setters.{Setter, set_option}
use doo_fit.Fitter.EasyFit.Commands.{prepare_fit}

-- What ExecuteFit takes from ROOT and the system: fitTo's result pointer, for the PDF, the data and
-- the commands; `std::clock` in microseconds and the high resolution clock in nanoseconds, before
-- and after the fit.
pub record Roo : Type 0 where
  pub fit_to : (pdf data_set : ℕ) → List CmdArg → Option ℕ
  pub c_start : ℕ
  pub c_end : ℕ
  pub t_start : ℕ
  pub t_end : ℕ

abbrev pub is_set : Option ℕ → Bool
is_set none = Bool.false
is_set (some _) = true

-- PdfAndDataReady
unfoldable pub pdf_and_data_ready : EasyFit → Bool
pdf_and_data_ready e = is_set e.pdf && is_set e.data_set

-- SetPdfAndDataSet(RooAbsPdf*, RooAbsData*)
unfoldable pub set_pdf_and_data_set : Option ℕ → Option ℕ → EasyFit → EasyFit
unfolding pdf_and_data_ready
set_pdf_and_data_set p d e =
    if not (pdf_and_data_ready e) then record e { pdf = p; data_set = d } else e

-- SetPdfAndDataSet(const RooWorkspace&, const std::string&, RooAbsData*). `ws_pdf` is `ws.pdf`.
unfoldable pub set_pdf_and_data_set_ws : (String → Option ℕ) → String → Option ℕ → EasyFit → EasyFit
unfolding set_pdf_and_data_set
set_pdf_and_data_set_ws ws_pdf name d e = elim (ws_pdf name) [
  | none ↦ e
  | some p ↦ set_pdf_and_data_set (some p) d e
]

abbrev pub run_fit_to : Roo → Option ℕ → Option ℕ → List CmdArg → Option ℕ
run_fit_to roo (some p) (some d) l = roo.fit_to p d l
run_fit_to roo none d l = none
run_fit_to roo (some p) none l = none

unfoldable pub execute_fit : Roo → EasyFit → EasyFit
unfolding pdf_and_data_ready
execute_fit roo e =
    if not e.prepared || e.fitted || e.finalized || not (pdf_and_data_ready e)
    then e
    else record e {
      fit_result = run_fit_to roo e.pdf e.data_set e.fc_linklist;
      time_real = (roo.t_end - roo.t_start) / 1000000;
      time_cpu = roo.c_end - roo.c_start;
      fitted = true;
    }

unfoldable pub finalize_fit : EasyFit → EasyFit
finalize_fit e =
    if not e.prepared || not e.fitted || e.finalized then e else record e { finalized = true }

unfoldable pub fit : Roo → EasyFit → EasyFit
unfolding prepare_fit execute_fit finalize_fit
fit roo e = finalize_fit (execute_fit roo (prepare_fit e))

abbrev pub not_available : EasyFit → Bool
not_available e = not e.prepared || not e.fitted || not e.finalized || not (is_set e.fit_result)

unfoldable pub get_fit_result : EasyFit → Option ℕ
get_fit_result e = if not_available e then none else e.fit_result

-- FitTime, in the units of the two fields.
unfoldable pub fit_time : EasyFit → ℕ × ℕ
fit_time e = if not_available e then (0, 0) else (e.time_real, e.time_cpu)

-- The public calls that change the object.
pub data Call : Type 0 where
  sets : Setter → Call
  gives : Option ℕ → Option ℕ → Call
  gives_from : (String → Option ℕ) → String → Option ℕ → Call
  fits : Roo → Call

unfoldable pub step : Call → EasyFit → EasyFit
unfolding set_option set_pdf_and_data_set_ws fit
step (sets s) e = set_option s e
step (gives p d) e = set_pdf_and_data_set p d e
step (gives_from ws name d) e = set_pdf_and_data_set_ws ws name d e
step (fits roo) e = fit roo e

unfoldable pub run : List Call → EasyFit → EasyFit
unfolding step
run [] e = e
run (c ∷ cs) e = run cs (step c e)
