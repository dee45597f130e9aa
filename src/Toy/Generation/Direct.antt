-- ===== src/Toy/Generation/Direct.antt =====
-- GenerateForPdf of a PDF that is generated directly, and the proto data. `proto_sample` stands for
-- the data set of GenerateProtoSample, of a section and a size.
use doo_fit.Base.{
  ℕ, zero, suc, String, str_eq, Bool, true, false, ◌&&◌, not, Option, none, some, List, [], ◌∷◌,
  ◌++◌, length, ℤ, pos, pos_part, ltb_ℤ, if◌then◌else◌,
}
use doo_fit.Toy.Study.Saving.{is_empty}
use doo_fit.Toy.Factory.Datasets.{
  RooDataSet, RooFit, Result, ok, throw, terminated, null_pointer, roofit_sending_sigabrt, contains,
  overlaps, merge, merge_datasets, merge_dataset_vector,
}
use doo_fit.Toy.Generation.Pdf.{
  Pdf, name_of, Double, Generator, Random, ◌>>=◌, lift, return, draw, rounded,
}

-- GetPdfProtoSections: the sections of `proto_sections` that are for a PDF.
unfoldable get_pdf_proto_sections : String → List (String × String) → List (String × String)
get_pdf_proto_sections n [] = []
get_pdf_proto_sections n (s ∷ ss) =
    let rest = get_pdf_proto_sections n ss in if str_eq n s.0 then s ∷ rest else rest

-- `remove` of the columns that the proto data has.
unfoldable pub remove : List String → List String → List String
unfolding contains
remove [] cs = []
remove (o ∷ os) cs = let rest = remove os cs in if contains cs o then rest else o ∷ rest

abbrev has_proto : {A : Type 0} → Option A → Bool
has_proto none = false
has_proto (some d) = true

module _ {Row : Type 0} where
  -- `EventRange(0, n)`
  unfoldable first_rows : ℕ → List Row → List Row
  first_rows zero rs = []
  first_rows (suc n) [] = []
  first_rows (suc n) (r ∷ rs) = r ∷ first_rows n rs

  abbrev proto_columns : Option (RooDataSet Row) → List String
  proto_columns none = []
  proto_columns (some d) = d.columns

  abbrev pub generated : Option (RooDataSet Row) → Result (RooDataSet Row)
  generated none = throw roofit_sending_sigabrt
  generated (some d) = ok d

module _ {D Row : Type 0} (double : Double D) (roo : RooFit Row) (gen : Generator D Row)
    (proto_sections : List (String × String))
    (proto_sample : Pdf D → (section : String) (size : ℤ) → Random (RooDataSet Row)) where
  open double use {zero_, ten, hundred, margin, add, mul, sqrt, truncate, equal}
  open gen use {expected_events, observables, generate}

  -- The events to have in the proto data: as many as there are already, or well above the yield.
  unfoldable proto_size : Pdf D → D → List (RooDataSet Row) → ℤ
  proto_size pdf expected (d ∷ ds) = pos (length d.rows)
  proto_size pdf expected [] =
      let yield = if equal expected zero_ then expected_events pdf else expected in
      truncate (add (mul (add yield (mul ten (sqrt yield))) margin) hundred)

  -- GenerateProtoSample starts with `assert(yield>0)`.
  unfoldable generate_proto_sample : Pdf D → String → ℤ → Random (RooDataSet Row)
  generate_proto_sample pdf section size =
      if ltb_ℤ (pos 0) size then proto_sample pdf section size else lift (throw terminated)

  -- The loop over the matched sections, after the first.
  unfoldable merge_protos :
      Pdf D → ℤ → List (String × String) → RooDataSet Row → Random (RooDataSet Row)
  unfolding generate_proto_sample merge_datasets
  merge_protos pdf size [] d = return d
  merge_protos pdf size (s ∷ ss) d = generate_proto_sample pdf s.1 size >>= λ temp.
      lift (merge_datasets roo d temp none) >>= merge_protos pdf size ss

  -- The proto data that comes along, with that of the matched sections at its end.
  unfoldable extend_protos :
      Pdf D → D → List (String × String) → List (RooDataSet Row) → Random (List (RooDataSet Row))
  unfolding proto_size generate_proto_sample merge_protos
  extend_protos pdf expected [] proto = return proto
  extend_protos pdf expected (s ∷ ss) proto =
      let size = proto_size pdf expected proto in
      generate_proto_sample pdf s.1 size >>= λ first.
      merge_protos pdf size ss first >>= λ d. return (proto ++ (d ∷ []))

  unfoldable pub with_protos : Pdf D → D → List (RooDataSet Row) → Random (List (RooDataSet Row))
  unfolding get_pdf_proto_sections extend_protos
  with_protos pdf expected proto =
      extend_protos pdf expected (get_pdf_proto_sections (name_of pdf) proto_sections) proto

  -- MergeDatasetVector where there is proto data, else null.
  unfoldable pub proto_set : List (RooDataSet Row) → Result (Option (RooDataSet Row))
  unfolding merge_dataset_vector
  proto_set [] = ok none
  proto_set (d ∷ ds) = elim (merge_dataset_vector roo (d ∷ ds)) [
    | ok m ↦ ok (some m)
    | throw e ↦ throw e
  ]

  -- An empty data set gets the proto variables, by RooDataSet::merge, which refuses data sets of
  -- unequal size.
  unfoldable pub add_proto_columns : Option (RooDataSet Row) → RooDataSet Row → RooDataSet Row
  unfolding overlaps merge
  add_proto_columns none d = d
  add_proto_columns (some p) d =
      if is_empty d.rows && not (overlaps d.columns p.columns) && is_empty p.rows
      then merge roo d p
      else d

  -- The three ways to a data set: from the proto data, by RooFit, or empty.
  unfoldable pub sample :
      Pdf D
      → (obs : List String) (size : ℤ) (extended : Bool) → Option (RooDataSet Row)
      → Random (RooDataSet Row)
  unfolding first_rows
  sample pdf obs size extended proto =
      if is_empty obs && has_proto proto
      then (elim proto [
        | none ↦ lift (throw null_pointer)
        | some p ↦ return (record p { rows = first_rows (pos_part size) p.rows })
      ])
      else if ltb_ℤ (pos 0) size
      then (draw (λ n. generate n pdf obs (pos_part size) extended proto) >>= λ d.
          lift (generated d))
      else return (record { columns = obs ++ proto_columns proto; rows = [] })

  -- The branch of GenerateForPdf for a PDF that is not decomposed.
  unfoldable pub generate_directly :
      Pdf D → D → Bool → List (RooDataSet Row) → Random (RooDataSet Row)
  unfolding proto_set remove sample add_proto_columns
  generate_directly pdf expected extended protos = lift (proto_set protos) >>= λ proto.
      lift (rounded double expected) >>= λ size.
      sample pdf (remove (observables pdf) (proto_columns proto)) size extended proto >>= λ d.
      return (add_proto_columns proto d)
