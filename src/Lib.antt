-- ===== src/Lib.antt =====
-- A model of parts of DooFit, with their correctness theorems.
--
-- - Fitter: src/doofit/fitter. `Fitter.EasyFit` models src/doofit/fitter/easyfit/EasyFit.{h,cpp},
--   the configuration and the life cycle of one fit. The record `EasyFit` has the members of the
--   class (`Options` the members fc_*), `set_option` is every setter with its guard (`change` is the
--   bodies), `prepare_fit`, `execute_fit` and `finalize_fit` are PrepareFit, ExecuteFit and
--   FinalizeFit. RooFit's fitTo and the clocks are the parameter `Roo`.
--   `Fitter.EasyFitResult` models src/doofit/fitter/easyfit/EasyFitResult.{h,cpp}, the storage of a
--   result: `Convert` has the members, the constructor, ConvertRooFitResult and status; RooFitResult
--   and RooRealVar are data, and the ten status entries are a list. Trees are left out.
-- - Builder: src/doofit/builder. `Builder.EasyPdf` models
--   src/doofit/builder/EasyPdf/EasyPdf.{h,cpp}: a pool of named RooFit objects. `Pool` has the state
--   and AddPdfToStore, `Access` the functions that look up or create by name, `Shapes`, `Composites`
--   and `Scaled` the functions that build PDFs, `Requests` a history of public calls. A function of
--   EasyPdf is a function of the pool that returns a result or an exception, and the pool after it.
--   RooWorkspace, the class hierarchy of RooFit and the comma tokenizer are the parameter `RooFit`;
--   `Growth.Laws` states what the theorems assume of the workspace. A reference to a RooFit object
--   is its name. C++ leaves the order in which arguments are evaluated open; the model takes them
--   from left to right, inner calls first. A RooArgSet is the list of what is added to it.
--   `Builder.Numerobis` models src/doofit/builder/numerobis/blueprint/elements: elements are
--   declared by name and put on a workspace once all that they need is declared. `Element` has the
--   data and Declare, `Readiness` is Registrar::CheckReady, `Registration` is Registrar::Register
--   and AddToWorkspace, `Assembly` is Factory, and `Order` puts them together. `Buildable` says
--   independently which names can be made. RooWorkspace and the equality of doubles are the
--   parameter `Workspace`; `Safety.Laws` states what the theorems assume of an import.
--   `PdfReadiness` models Declare and CheckReady of
--   src/doofit/builder/numerobis/blueprint/pdfs/registrar.cpp, where a dependant is an element or a
--   PDF, and `PdfBuildable` says which PDFs can be made.
-- - Config: src/doofit/config. `Config.CommaSeparated` models AbsTypeCommaSeparated.cpp,
--   CommaSeparatedList.h and CommaSeparatedPair.h, `Config.Distribution` models Parse of
--   DiscreteProbabilityDistribution.cpp. boost's tokenizer and lexical_cast are the parameter
--   `Lexer`, with `CommaSeparated.Laws`; doubles, their sum and atof are the parameter `Double`.
-- - Toy: src/doofit/toy. `Toy.Factory` models the functions of ToyFactoryStd/ToyFactoryStd.cpp that
--   put data sets together: `Datasets` has MergeDatasets, MergeDatasetVector, AppendDatasets and
--   MixMergeDatasets, `Shuffle` the Fisher-Yates shuffle of AppendDatasets, and `Discrete` has
--   GenerateDiscreteSample over the distributions of `Config.Distribution`. A data set is its
--   columns and rows; what RooFit does with one row is the parameter `RooFit`, with `Append.Laws`,
--   what it does with a variable is the parameter `RooVariables`, and the random numbers are a
--   function of the number of the draw.
--   `Toy.Generation` is the generation of data sets for PDFs in that file: `Generate` is Generate
--   with the discrete variables, including DrawConstrainedParameters as far as it throws and draws,
--   and with the order in which the compiler evaluates the PDF and the observables as a part of the
--   settings (`Order`); `Decompose` is GenerateForPdf with GenerateForAddedPdf,
--   GenerateForProductPdf and GenerateForSimultaneousPdf, `Yields` has the yields of the parts of a
--   RooAddPdf and their rounding, `Direct` the proto data and the PDFs that are not decomposed. A
--   PDF is a tree (`Pdf`). Doubles are the parameter `Double`, where theorems on sizes need it with
--   `Exact`: they compute exactly in thousandths. RooFit and the random numbers are the parameter
--   `Generator`, with `Laws`; a computation counts the uses of the random numbers (`Random`). The
--   data set of a proto section is a parameter; `Plain` says which PDFs are made by products alone.
--   `Toy.Study` models ToyStudyStd/ToyStudyStd.{h,cpp}. `Saving` has StoreFitResult,
--   FinishFitResultSaving and SaveFitResultWorker as the steps of two threads that share a queue, a
--   mutex and a file; `SaveBatch` is what the worker writes into the tree. `Reading` is
--   ReadFitResultWorker, `Quality` is FitResultOkay, `Evaluation` is the first loop of
--   EvaluateFitResults and the choice of partners in BuildEvaluationArgSet, and `EasyResults` is
--   GetEasyFitResult and NumberOfAvailableEasyFitResults. doocore's concurrent_queue is the
--   parameter `ConcurrentQueue`, with `QueueLaws`; what files hold and the operations on doubles are
--   parameters. `Pulls` has the values that BuildEvaluationArgSet makes of the chosen results, apart
--   from additional variables. Other processes of the program may save into the same tree, between
--   the steps of the two threads. A RooFitResult is the record of `Fitter.EasyFitResult.Convert`.
--   Reading runs on the thread of the caller, as in the code.
-- - Base: lists, association lists, integers and Boolean tests that the parts share.
--
-- EasyFit and EasyPdf do not call each other: a user builds a PDF with EasyPdf and passes it to
-- EasyFit. Numerobis uses neither. A throw is a value. CheckReady and Register recurse on fuel,
-- since elements can depend on one another in a cycle: where the dependants of every element have a
-- smaller rank, fuel above the rank of the name is enough, and on a cycle no fuel is. The loop of
-- MixMergeDatasets that draws positions recurses on fuel, also in Generate: where every position is
-- drawn within the fuel, it is enough. The first loop of EvaluateFitResults (`take_results`)
-- recurses on fuel, of which as much as there are queued results is enough. All else is total. A
-- dereference of a null pointer, which C++ leaves undefined, is the exception `null_pointer`, in
-- `EasyResults` `null_tree`, and in `EasyFit` a command with no set; `while (true) {}` is `hangs`,
-- and the deletion of a part of the returned data set in Generate is `deletes_own_columns`.
--
-- Not modelled: the numerical code (src/doofit/roofit), plotting, analysis and profiles; of the toy
-- studies the values that files and constraining PDFs give to parameters, the data set of
-- EvaluateFitResults, additional variables of an evaluation, plots and the destructor; the tree of
-- configurations, the registration of PDFs and components in numerobis, and what RooFit itself does.
-- Copies of other projects (src/lhcb, src/libjson) are left out.
pub mod Base
pub mod Fitter
pub mod Builder
pub mod Config
pub mod Toy
