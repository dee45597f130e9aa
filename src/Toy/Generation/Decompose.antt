-- ===== src/Toy/Generation/Decompose.antt =====
-- GenerateForPdf, and GenerateForAddedPdf, GenerateForProductPdf and GenerateForSimultaneousPdf,
-- which take a PDF apart and put the data sets of its parts together.
use doo_fit.Base.{String, Bool, true, false, ◌&&◌, Option, none, some, List, ℤ, pos, if◌then◌else◌}
use doo_fit.Toy.Study.Saving.{is_empty}
use doo_fit.Toy.Factory.Datasets.{
  RooDataSet, RooFit, throw, terminated, null_pointer, deref, merge_datasets, append_datasets,
}
use doo_fit.Toy.Generation.Pdf.{
  Pdf, direct, extended, added, product, simultaneous, Server, real_var, sub_pdf, other_server,
  Pdfs, nil, cons, Categories, end, label, no_pdf, Double, Generator, Random, ◌>>=◌, lift, return,
  draw,
}
use doo_fit.Toy.Generation.Direct.{with_protos, proto_set, generate_directly}
use doo_fit.Toy.Generation.Yields.{
  Loop, Context, yield_of, next_coef, sub_yield, sub_protos, correct_rounding,
}

module _ {D Row : Type 0} (double : Double D) (roo : RooFit Row) (gen : Generator D Row)
    (proto_sections : List (String × String))
    (proto_sample : Pdf D → (section : String) (size : ℤ) → Random (RooDataSet Row)) where
  open double use {zero_, less, equal}
  open gen use {expected_events, add_category, poisson, integer}

  -- `Poisson` of a yield where the size is drawn.
  unfoldable pub drawn_yield : Bool → D → Random D
  drawn_yield true y = draw (λ n. poisson n y)
  drawn_yield false y = return y

  -- The data of a part is appended to the data so far.
  unfoldable pub append_part :
      Option (RooDataSet Row) → RooDataSet Row → Random (Option (RooDataSet Row))
  unfolding append_datasets
  append_part none temp = return (some temp)
  append_part (some d) temp =
      draw (λ n. append_datasets roo (integer n) d temp) >>= λ r. lift r >>= λ d'. return (some d')

  -- The data of a factor is merged with the data so far.
  unfoldable pub merge_part :
      List (RooDataSet Row)
      → Option (RooDataSet Row)
      → RooDataSet Row
      → Random (Option (RooDataSet Row))
  unfolding merge_datasets
  merge_part protos none temp = return (some temp)
  merge_part protos (some d) temp =
      lift (merge_datasets roo d temp (if is_empty protos then none else some protos)) >>= λ d'.
      return (some d')

  -- One part of a RooAddPdf; `generate` is GenerateForPdf of the part.
  unfoldable pub generate_part :
      Context D Row
      → Pdf D
      → (D → Bool → List (RooDataSet Row) → Random (RooDataSet Row))
      → Loop D Row
      → Random (Loop D Row)
  generate_part c part generate l =
      lift (next_coef double expected_events c part l.coefs l.sum_coef) >>= λ (coef, coefs, sum).
      drawn_yield c.size_drawn (sub_yield double c coef) >>= λ yield.
      lift (sub_protos double c.proto yield l.proto_pos) >>= λ (protos, position).
      lift (correct_rounding double yield l.lost) >>= λ (yield', lost).
      generate yield' false protos >>= λ temp. append_part l.sampled temp >>= λ sampled.
      return (record {
        sampled = sampled;
        coefs = coefs;
        sum_coef = sum;
        proto_pos = position;
        lost = lost;
      })

  -- The start of the loop of GenerateForAddedPdf.
  unfoldable pub context :
      Pdf D → Bool → List D → D → Bool → Option (RooDataSet Row) → Context D Row
  context whole must coefs expected drawn proto = record {
    whole = whole;
    pdf_extended = is_empty coefs;
    must_be_extended = must;
    expected_yield =
        if equal expected zero_ && is_empty coefs then expected_events whole else expected;
    size_drawn = drawn;
    proto = proto;
  }

  abbrev pub loop_start : List D → Loop D Row
  loop_start coefs = record {
    sampled = none;
    coefs = coefs;
    sum_coef = zero_;
    proto_pos = pos 0;
    lost = zero_;
  }

  -- `throw;` where no server is a PDF.
  abbrev no_server : D → Bool → List (RooDataSet Row) → Random (RooDataSet Row)
  no_server y drawn protos = lift (throw terminated)

  unfoldable mutual
    unfolding with_protos proto_set generate_directly yield_of drawn_yield context generate_part
        append_part merge_part

    pub generate_for_pdf : Pdf D → D → Bool → List (RooDataSet Row) → Random (RooDataSet Row)
    generate_for_pdf (direct n) y drawn protos =
        with_protos double roo gen proto_sections proto_sample (direct n) y protos >>= λ ps.
        generate_directly double roo gen proto_sections proto_sample (direct n) y drawn ps
    generate_for_pdf (extended n s t) y drawn protos =
        with_protos double roo gen proto_sections proto_sample (extended n s t) y protos >>= λ ps.
        lift (yield_of t s) >>= λ v.
        generate_server s (generate_server t no_server) (if less zero_ y then y else v) drawn ps
    generate_for_pdf (added n must cs parts) y drawn protos =
        with_protos double roo gen proto_sections proto_sample (added n must cs parts) y protos
        >>= λ ps. lift (proto_set double roo gen proto_sections proto_sample ps) >>= λ proto.
            generate_for_added_pdf (context (added n must cs parts) must cs y drawn proto) parts
              (loop_start cs)
            >>= λ d. lift (deref d)
    generate_for_pdf (product n parts) y drawn protos =
        with_protos double roo gen proto_sections proto_sample (product n parts) y protos >>= λ ps.
        drawn_yield drawn y >>= λ y'.
        generate_for_product_pdf parts y' ps none >>= λ d. lift (deref d)
    generate_for_pdf (simultaneous n c ls) y drawn protos =
        with_protos double roo gen proto_sections proto_sample (simultaneous n c ls) y protos
        >>= λ ps. generate_for_simultaneous_pdf c ls y drawn ps none >>= λ d. lift (deref d)

    pub generate_server :
        Server D
        → (D → Bool → List (RooDataSet Row) → Random (RooDataSet Row))
        → D
        → Bool
        → List (RooDataSet Row)
        → Random (RooDataSet Row)
    generate_server (sub_pdf p) other y drawn protos = generate_for_pdf p y drawn protos
    generate_server (real_var v) other y drawn protos = other y drawn protos
    generate_server other_server other y drawn protos = other y drawn protos

    pub generate_for_added_pdf :
        Context D Row → Pdfs D → Loop D Row → Random (Option (RooDataSet Row))
    generate_for_added_pdf c nil l = return l.sampled
    generate_for_added_pdf c (cons p ps) l =
        generate_part c p (generate_for_pdf p) l >>= λ l'. generate_for_added_pdf c ps l'

    pub generate_for_product_pdf :
        Pdfs D
        → D
        → List (RooDataSet Row)
        → Option (RooDataSet Row)
        → Random (Option (RooDataSet Row))
    generate_for_product_pdf nil y protos d = return d
    generate_for_product_pdf (cons p ps) y protos d = generate_for_pdf p y false protos >>= λ temp.
        merge_part protos d temp >>= λ d'. generate_for_product_pdf ps y protos d'

    pub generate_for_simultaneous_pdf :
        String
        → Categories D
        → D
        → Bool
        → List (RooDataSet Row)
        → Option (RooDataSet Row)
        → Random (Option (RooDataSet Row))
    generate_for_simultaneous_pdf c end y drawn protos d = return d
    generate_for_simultaneous_pdf c (no_pdf n ls) y drawn protos d = lift (throw null_pointer)
    generate_for_simultaneous_pdf c (label n p ls) y drawn protos d =
        generate_for_pdf p y drawn protos >>= λ temp.
        append_part d (add_category c n temp) >>= λ d'.
        generate_for_simultaneous_pdf c ls y drawn protos d'
