-- ===== src/Fitter/EasyFit/Commands.antt =====
-- PrepareFit of EasyFit.cpp: the options become commands, in the order of their keys in `fc_map_`.
use doo_fit.Base.{
  String, Bool, true, ◌&&◌, ◌||◌, not, List, [], ◌∷◌, ◌++◌, Dict, assign, if◌then◌else◌, ◌≡◌, arith,
}
use doo_fit.Fitter.EasyFit.Options.{
  CmdArg, num_cpu, extended, constrained, external_constraints, conditional_observables, strategy,
  optimize, offset, sum_w2_error, minimizer, initial_hesse, hesse, minos, minos_set, save, verbose,
  warnings, print_level, print_eval_errors, timer, Options, EasyFit,
}

abbrev pub when_assign : Bool → String → CmdArg → Dict CmdArg → Dict CmdArg
when_assign b k c m = if b then assign k c m else m

-- The assignments to `fc_map_`, in the order of the source. A set that is null, which the source
-- dereferences all the same, is none in the command.
abbrev pub fill_map : Options → Dict CmdArg → Dict CmdArg
fill_map o m0 =
    let m1 = assign "NumCPU" (num_cpu o.fc_num_cpu o.fc_num_cpu_strategy) m0 in
    let m2 = assign "Extended" (extended o.fc_extended) m1 in
    let m3 = when_assign o.fc_constrained "Contrained" constrained m2 in
    let m4 =
      when_assign o.fc_constrained_externally "ExternalConstraints"
        (external_constraints o.fc_external_constraints) m3 in
    let m5 =
      when_assign o.fc_conditional_observables_set "ConditionalObservables"
        (conditional_observables o.fc_conditional_observables) m4 in
    let m6 = assign "Strategy" (strategy o.fc_strategy) m5 in
    let m7 = assign "Optimize" (optimize o.fc_optimize) m6 in
    let m8 = assign "Offset" (offset o.fc_offset) m7 in
    let m9 = assign "SumW2Err" (sum_w2_error o.fc_sumw2err) m8 in
    let m10 = assign "Minimizer" (minimizer o.fc_minimizer_type o.fc_minimizer_algo) m9 in
    let m11 = assign "HessInit" (initial_hesse o.fc_hesse_init) m10 in
    let m12 = assign "Hesse" (hesse o.fc_hesse) m11 in
    let m13 =
      if o.fc_minos && not o.fc_minos_wpars
      then assign "Minos" (minos o.fc_minos) m12
      else when_assign o.fc_minos_wpars "MinosSet" (minos_set o.fc_minos_pars) m12 in
    let m14 = assign "Save" (save o.fc_save) m13 in
    let m15 = assign "Verbose" (verbose o.fc_verbose) m14 in
    let m16 = assign "Warnings" (warnings o.fc_warnings) m15 in
    let m17 = assign "PrintLevel" (print_level o.fc_printlevel) m16 in
    let m18 = assign "PrintEvalErrs" (print_eval_errors o.fc_numevalerr) m17 in
    assign "Timer" (timer o.fc_timer) m18

abbrev pub values : Dict CmdArg → List CmdArg
values [] = []
values ((k, c) ∷ m) = c ∷ values m

unfoldable pub prepare_fit : EasyFit → EasyFit
prepare_fit e =
    if e.prepared || e.fitted || e.finalized
    then e
    else (let m = fill_map e.options e.fc_map in
        record e { fc_map = m; fc_linklist = e.fc_linklist ++ values m; prepared = true })

abbrev pub when : Bool → CmdArg → List CmdArg
when b c = if b then c ∷ [] else []

-- The commands that the options ask for, in the order of the keys.
unfoldable pub commands : Options → List CmdArg
commands o =
    when o.fc_conditional_observables_set (conditional_observables o.fc_conditional_observables)
    ++ (when o.fc_constrained constrained
        ++ (extended o.fc_extended
            ∷ (when o.fc_constrained_externally (external_constraints o.fc_external_constraints)
                ++ (initial_hesse o.fc_hesse_init
                    ∷ hesse o.fc_hesse
                    ∷ minimizer o.fc_minimizer_type o.fc_minimizer_algo
                    ∷ (when (o.fc_minos && not o.fc_minos_wpars) (minos o.fc_minos)
                        ++ (when o.fc_minos_wpars (minos_set o.fc_minos_pars)
                            ++ (num_cpu o.fc_num_cpu o.fc_num_cpu_strategy
                                ∷ offset o.fc_offset
                                ∷ optimize o.fc_optimize
                                ∷ print_eval_errors o.fc_numevalerr
                                ∷ print_level o.fc_printlevel
                                ∷ save o.fc_save
                                ∷ strategy o.fc_strategy
                                ∷ sum_w2_error o.fc_sumw2err
                                ∷ timer o.fc_timer
                                ∷ verbose o.fc_verbose
                                ∷ warnings o.fc_warnings
                                ∷ [])))))))

-- The map that starts empty ends with the commands that the options ask for, in order of key.
pub values-fill_map : (o : Options) → values (fill_map o []) ≡ commands o
unfolding commands assign
values-fill_map o = ground arith
