-- ===== src/Toy/Study/Stored.antt =====
-- What stands in the file when FinishFitResultSaving has returned.
use mathlib.Core.List.{append_assoc, append-nil, map-append}
use doo_fit.Base.{
  Bool, true, false, Option, List, [], ◌∷◌, ◌++◌, map, All, ◌≡◌, refl, sym, ◌∙◌, subst, arith,
}
use doo_fit.Toy.Study.SaveBatch.{FitResultContainer, Row, Tree, saved, save_batch}
use doo_fit.Toy.Study.Batches.{full, Uniform, IsOwn, rows_of, save_batch-Stores}
use doo_fit.Toy.Study.Saving.{
  ConcurrentQueue, QueueLaws, idle, System, is_empty, Step, push_result, save, other_saves, Reach,
  start, later,
}
use doo_fit.Toy.Study.Conserved.{Inv, is_done, Reach-Inv}

module _ {A : Type 0} (P : A → Type 0) where
  All-left : (xs ys : List A) → All P (xs ++ ys) → All P xs
  All-left [] ys a = tt
  All-left (x ∷ xs) ys a = (a.0, All-left xs ys a.1)

  All-right : (xs ys : List A) → All P (xs ++ ys) → All P ys
  All-right [] ys a = a
  All-right (x ∷ xs) ys a = All-right xs ys a.1

is_empty_nil : {A : Type 0} (xs : List A) → is_empty xs ≡ true → xs ≡ []
is_empty_nil [] e = refl
is_empty_nil (x ∷ xs) e = cc

nothing_queued :
    {A : Type 0} (written saver queue accepted : List A)
    → written ++ (saver ++ queue) ≡ accepted
    → saver ≡ []
    → queue ≡ []
    → written ≡ accepted
nothing_queued written saver queue accepted e s q = sym (append-nil written) ∙ (rw (s, q) at e)

module _ {F T : Type 0} where
  more_rows :
      (written saver : List (FitResultContainer F T)) (old now : List (Row F T))
      → now ≡ old ++ map full written
      → now ++ map full saver ≡ old ++ map full (written ++ saver)
  more_rows written saver old now e =
      rw (e, map-append, append_assoc old (map full written) (map full saver)) refl

-- The third list has the elements of the first two, each in its order.
module _ {A : Type 0} where
  pub data Interleaved : List A → List A → List A → Type 0 where
    nothing : Interleaved [] [] []
    from_left :
        (x : A) (xs ys zs : List A) → Interleaved xs ys zs → Interleaved (x ∷ xs) ys (x ∷ zs)
    from_right :
        (y : A) (xs ys zs : List A) → Interleaved xs ys zs → Interleaved xs (y ∷ ys) (y ∷ zs)

  all_left : (xs : List A) → Interleaved xs [] xs
  all_left [] = nothing
  all_left (x ∷ xs) = from_left x xs [] xs (all_left xs)

  all_right : (ys : List A) → Interleaved [] ys ys
  all_right [] = nothing
  all_right (y ∷ ys) = from_right y [] ys ys (all_right ys)

  append_left :
      {xs ys zs : List A} (more : List A)
      → Interleaved xs ys zs
      → Interleaved (xs ++ more) ys (zs ++ more)
  append_left more nothing = all_left more
  append_left more (from_left x xs ys zs i) =
      from_left x (xs ++ more) ys (zs ++ more) (append_left more i)
  append_left more (from_right y xs ys zs i) =
      from_right y (xs ++ more) ys (zs ++ more) (append_left more i)

  append_right :
      {xs ys zs : List A} (more : List A)
      → Interleaved xs ys zs
      → Interleaved xs (ys ++ more) (zs ++ more)
  append_right more nothing = all_right more
  append_right more (from_left x xs ys zs i) =
      from_left x xs (ys ++ more) (zs ++ more) (append_right more i)
  append_right more (from_right y xs ys zs i) =
      from_right y xs (ys ++ more) (zs ++ more) (append_right more i)

module _ {F T : Type 0} (cq : ConcurrentQueue (FitResultContainer F T)) where
  open cq use {contents}

  Step-Uniform :
      {named : Bool} {s t : System cq} (b : Bool)
      → Step cq named s t
      → Uniform b t.accepted
      → Uniform b s.accepted
  Step-Uniform b (push_result s c m n) u = All-left _ s.accepted (c ∷ []) u
  Step-Uniform b _ u = u

  Step-Uniform-others :
      {named : Bool} {s t : System cq} (b : Bool)
      → Step cq named s t
      → Uniform b t.others
      → Uniform b s.others
  Step-Uniform-others b (other_saves s file cs e) u = All-left _ s.others cs u
  Step-Uniform-others b _ u = u

  -- The entries that were added to a tree are those of two sequences of containers.
  abbrev pub HasSaved :
      Option (Tree F T)
      → (written others : List (FitResultContainer F T)) → Option (Tree F T)
      → Type 0
  HasSaved old written others now =
      (all : List (FitResultContainer F T)) × (rows_of now ≡ rows_of old ++ map full all)
      × Interleaved written others all

  -- The file has the rows it had at the start and an entry for each container that was saved.
  pub record FileInv (b : Bool) (file : Option (Tree F T)) (s : System cq) : Type 0 where
    pub own : IsOwn b s.file
    pub rows : HasSaved file s.written s.others s.file

  pub Inv-Uniform-saver :
      {s : System cq} (b : Bool) → Inv cq s → Uniform b s.accepted → Uniform b s.saver_queue
  Inv-Uniform-saver {s} b v u = All-left _ s.saver_queue (contents s.queue) (
      All-right _ s.written (s.saver_queue ++ contents s.queue)
        (subst (Uniform b) (sym v.conserved) u))

  save-FileInv :
      (s : System cq) (b : Bool) (file0 file : Option (Tree F T))
      → save_batch s.file s.saver_queue ≡ saved file
      → Uniform b s.saver_queue
      → FileInv b file0 s
      → IsOwn b file × HasSaved file0 (s.written ++ s.saver_queue) s.others file
  save-FileInv s b file0 file e u i =
      let (f, g, o, r) = save_batch-Stores b s.file s.saver_queue i.own u in
      let same : f ≡ file = cc in
      let (all, known, mixed) = i.rows in
      (
        subst (IsOwn b) same o,
        (
          all ++ s.saver_queue,
          subst (λ x. rows_of x ≡ rows_of file0 ++ map full (all ++ s.saver_queue)) same
              (r ∙ more_rows all s.saver_queue (rows_of file0) (rows_of s.file) known),
          append_left s.saver_queue mixed,
        ),
      )

  other_saves-FileInv :
      (s : System cq) (b : Bool) (file0 file : Option (Tree F T))
      (cs : List (FitResultContainer F T))
      → save_batch s.file cs ≡ saved file
      → Uniform b cs
      → FileInv b file0 s
      → IsOwn b file × HasSaved file0 s.written (s.others ++ cs) file
  other_saves-FileInv s b file0 file cs e u i =
      let (f, g, o, r) = save_batch-Stores b s.file cs i.own u in
      let same : f ≡ file = cc in
      let (all, known, mixed) = i.rows in
      (
        subst (IsOwn b) same o,
        (
          all ++ cs,
          subst (λ x. rows_of x ≡ rows_of file0 ++ map full (all ++ cs)) same
              (r ∙ more_rows all cs (rows_of file0) (rows_of s.file) known),
          append_right cs mixed,
        ),
      )

  Step-FileInv :
      {named : Bool} {s t : System cq} (b : Bool) (file : Option (Tree F T))
      → Step cq named s t
      → Uniform b s.saver_queue
      → Uniform b t.others
      → FileInv b file s
      → FileInv b file t
  Step-FileInv b file (other_saves s new cs e) u v i =
      let (o, r) = other_saves-FileInv s b file new cs e (All-right _ s.others cs v) i in
      record { own = o; rows = r }
  Step-FileInv b file (save s new aborted w e) u v i =
      let (o, r) = save-FileInv s b file new e u i in record { own = o; rows = r }
  Step-FileInv b file _ u v i = record { own = i.own; rows = i.rows }

  module _ (laws : QueueLaws cq) where
    pub Reach-FileInv :
        {named : Bool} {file : Option (Tree F T)} {s : System cq} (b : Bool)
        → Reach cq named file s
        → IsOwn b file
        → Uniform b s.accepted
        → Uniform b s.others
        → FileInv b file s
    Reach-FileInv {file} b start o u v = record {
      own = o;
      rows = ([], sym (append-nil (rows_of file)), nothing);
    }
    Reach-FileInv {file} b (later {s} r st) o u v =
        let u' = Step-Uniform b st u in
        Step-FileInv b file st (Inv-Uniform-saver b (Reach-Inv cq laws r) u') v
          (Reach-FileInv b r o u' (Step-Uniform-others b st v))

    -- The worker is done, so nothing is queued.
    pub written_all :
        (s : System cq) → Inv cq s → s.main ≡ idle → s.accepting ≡ false → s.written ≡ s.accepted
    written_all s v m a =
        let finished : is_done s.worker ≡ true = ground (arith, v.returned) in
        let no_saver : is_empty s.saver_queue ≡ true = ground (arith, v.quiet) in
        let no_queue : is_empty (contents s.queue) ≡ true = ground (arith, v.quiet) in
        nothing_queued s.written s.saver_queue (contents s.queue) s.accepted v.conserved
          (is_empty_nil s.saver_queue no_saver) (is_empty_nil (contents s.queue) no_queue)

    -- Whatever the interleaving, when FinishFitResultSaving has returned, the tree has its old entries
    -- and then an entry with all of each accepted container, in the order of the calls of
    -- StoreFitResult, with the entries of other processes that save into the same tree in between, in
    -- their order. The tree is new or of this program, the other processes run this program too, and
    -- either all containers, theirs included, have a second result or none has.
    pub Reach-stored :
        {named : Bool} {file : Option (Tree F T)} {s : System cq} (b : Bool)
        → Reach cq named file s
        → s.main ≡ idle
        → s.accepting ≡ false
        → IsOwn b file
        → Uniform b s.accepted
        → Uniform b s.others
        → (all : List (FitResultContainer F T)) × (rows_of s.file ≡ rows_of file ++ map full all)
          × Interleaved s.accepted s.others all
    Reach-stored {file} {s} b r m a o u v =
        subst (λ cs. HasSaved file cs s.others s.file) (written_all s (Reach-Inv cq laws r) m a)
          (Reach-FileInv b r o u v).rows
