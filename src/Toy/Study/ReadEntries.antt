-- ===== src/Toy/Study/ReadEntries.antt =====
-- What ReadFitResultWorker reads of one tree.
use mathlib.Core.List.{append_assoc, append-nil}
use doo_fit.Base.{
  ℕ, suc, Bool, true, false, Option, none, some, List, [], ◌∷◌, ◌++◌, if◌then◌else◌, All,
  Bool-cases, inl, inr, ◌≡◌, refl, sym, ap, ◌∙◌, subst,
}
use doo_fit.Fitter.EasyFitResult.Convert.{RooFitResult}
use doo_fit.Toy.Study.Saving.{ConcurrentQueue, QueueLaws}
use doo_fit.Toy.Study.EasyResults.{FileTree}
use doo_fit.Toy.Study.Quality.{Numbers, fit_result_okay}
use doo_fit.Toy.Study.Reading.{
  Container, Entry, Opened, entries, Config, Study, limit_reached, Progress, went_on, broke_off,
  lost_pointer, stuck, purge_released, container, store_entry, read_checked, read_found,
  read_entries,
}
use doo_fit.Toy.Study.Limited.{left, left-cons, left_reached}

module _ {D : Type 0} (cq : ConcurrentQueue (Container D)) (laws : QueueLaws cq) where
  open cq use {contents}
  open laws use {contents-push, contents-disable}

  module _ (zero_ : D) (q : Numbers D) (config : Config) (open_file : FileTree → Opened D) where
    -- The container of an entry with an okay result.
    abbrev wanted_of : Entry D → RooFitResult D → Option Bool → List (Container D)
    wanted_of e f (some true) = container cq zero_ q config open_file e f ∷ []
    wanted_of e f _ = []

    abbrev wanted_entry : Entry D → Option (RooFitResult D) → List (Container D)
    wanted_entry e none = []
    wanted_entry e (some f) =
        wanted_of e f (fit_result_okay q config.min_acceptable_cov_matrix_quality f)

    abbrev pub wanted_entries : List (Entry D) → List (Container D)
    wanted_entries [] = []
    wanted_entries (e ∷ es) = wanted_entry e e.fit_result ++ wanted_entries es

    abbrev pub wanted_file : Opened D → List (Container D)
    wanted_file (entries es) = wanted_entries es
    wanted_file _ = []

    -- The containers of all okay results in the files.
    abbrev pub wanted : List FileTree → List (Container D)
    wanted [] = []
    wanted (f ∷ fs) = wanted_file (open_file f) ++ wanted fs

    -- No result is null, and its quality can be found.
    abbrev Sound : Entry D → Type 0
    Sound e =
        (f : RooFitResult D) × (e.fit_result ≡ some f)
        × (okay : Bool) × (fit_result_okay q config.min_acceptable_cov_matrix_quality f ≡ some okay)

    abbrev pub SoundFile : Opened D → Type 0
    SoundFile (entries es) = All Sound es
    SoundFile _ = Unit

    abbrev pub SoundFiles : List FileTree → Type 0
    SoundFiles fs = All (λ f. SoundFile (open_file f)) fs

    -- A loop that had `xs` to read, with some results stored before.
    abbrev pub Reads : ℕ → List (Container D) → Study D cq → Progress (Study D cq) → Type 0
    Reads stored xs s (went_on stored' s') =
        (limit_reached config.num_toys_read stored' ≡ false)
        × (contents s'.read_queue ≡ contents s.read_queue ++ xs)
        × ((ys : List (Container D))
            → left config.num_toys_read stored (xs ++ ys)
              ≡ xs ++ left config.num_toys_read stored' ys)
    Reads stored xs s (broke_off s') =
        (zs : List (Container D)) × (contents s'.read_queue ≡ contents s.read_queue ++ zs)
        × ((ys : List (Container D)) → left config.num_toys_read stored (xs ++ ys) ≡ zs)
    Reads stored xs s _ = ⊥

    queue-store_entry :
        (e : Entry D) (f : RooFitResult D) (okay : Bool) (s : Study D cq)
        → contents (store_entry cq zero_ q config open_file e f okay s).read_queue
          ≡ contents s.read_queue ++ wanted_of e f (some okay)
    unfolding store_entry purge_released
    queue-store_entry e f true s =
        contents-push (container cq zero_ q config open_file e f) s.read_queue
    queue-store_entry e f false s = sym (append-nil (contents s.read_queue))

    -- Reading goes on after a part that has read `v`.
    pub Reads-after :
        (stored stored' : ℕ) (v w : List (Container D)) (s s' : Study D cq)
        (p : Progress (Study D cq))
        → contents s'.read_queue ≡ contents s.read_queue ++ v
        → ((zs : List (Container D))
            → left config.num_toys_read stored (v ++ zs)
              ≡ v ++ left config.num_toys_read stored' zs)
        → Reads stored' w s' p
        → Reads stored (v ++ w) s p
    Reads-after stored stored' v w s s' (went_on n t) e f (l, g, h) = (
      l,
      g ∙ ap (λ x. x ++ w) e ∙ append_assoc (contents s.read_queue) v w,
      λ ys.
          ap (left config.num_toys_read stored) (append_assoc v w ys)
          ∙ f (w ++ ys)
          ∙ ap (λ x. v ++ x) (h ys)
          ∙ sym (append_assoc v w (left config.num_toys_read n ys)),
    )
    Reads-after stored stored' v w s s' (broke_off t) e f (zs, g, h) = (
      v ++ zs,
      g ∙ ap (λ x. x ++ zs) e ∙ append_assoc (contents s.read_queue) v zs,
      λ ys.
          ap (left config.num_toys_read stored) (append_assoc v w ys)
          ∙ f (w ++ ys)
          ∙ ap (λ x. v ++ x) (h ys),
    )
    Reads-after stored stored' v w s s' lost_pointer e f h = absurd h
    Reads-after stored stored' v w s s' stuck e f h = absurd h

    left-wanted_of :
        (e : Entry D) (f : RooFitResult D) (okay : Bool) (stored : ℕ) (zs : List (Container D))
        → limit_reached config.num_toys_read stored ≡ false
        → left config.num_toys_read stored (wanted_of e f (some okay) ++ zs)
          ≡ wanted_of e f (some okay)
            ++ left config.num_toys_read (if okay then suc stored else stored) zs
    left-wanted_of e f true stored zs h = left-cons config.num_toys_read stored _ zs h
    left-wanted_of e f false stored zs h = refl

    -- One entry, and the rest of the loop.
    read_checked-Reads :
        (e : Entry D) (f : RooFitResult D) (okay : Bool) (stored : ℕ) (s : Study D cq)
        (w : List (Container D)) (k : ℕ → Study D cq → Progress (Study D cq))
        → limit_reached config.num_toys_read stored ≡ false
        → ((n : ℕ) (t : Study D cq)
            → limit_reached config.num_toys_read n ≡ false
            → Reads n w t (k n t))
        → Reads stored
            (wanted_of e f (some okay) ++ w)
            s
            (read_checked cq zero_ q config open_file e f (some okay) stored s k)
    unfolding read_checked
    read_checked-Reads e f okay stored s w k h ih =
        let stored' : ℕ = if okay then suc stored else stored in
        let s' = store_entry cq zero_ q config open_file e f okay s in
        let grown = queue-store_entry e f okay s in
        elim (Bool-cases (limit_reached config.num_toys_read stored')) [
          | inl t ↦ rw t (
            wanted_of e f (some okay),
            grown,
            λ ys.
                ap (left config.num_toys_read stored)
                  (append_assoc (wanted_of e f (some okay)) w ys)
                ∙ left-wanted_of e f okay stored (w ++ ys) h
                ∙ ap (λ x. wanted_of e f (some okay) ++ x)
                    (left_reached config.num_toys_read stored' (w ++ ys) t)
                ∙ append-nil (wanted_of e f (some okay)),
          )
          | inr t ↦ rw t (
              Reads-after stored stored' (wanted_of e f (some okay)) w s s' (k stored' s') grown
                (λ zs. left-wanted_of e f okay stored zs h) (ih stored' s' t))
        ]

    pub read_entries-Reads :
        (es : List (Entry D)) (stored : ℕ) (s : Study D cq)
        → limit_reached config.num_toys_read stored ≡ false
        → All Sound es
        → Reads stored (wanted_entries es) s (read_entries cq zero_ q config open_file es stored s)
    unfolding read_entries read_found
    read_entries-Reads [] stored s h a = (h, sym (append-nil (contents s.read_queue)), λ ys. refl)
    read_entries-Reads (e ∷ es) stored s h ((f, found, okay, good), a) =
        let k = read_entries cq zero_ q config open_file es in
        let w = wanted_entries es in
        subst
          (λ o.
            Reads stored (wanted_entry e o ++ w) s
              (read_found cq zero_ q config open_file e o stored s k))
          (sym found)
          (subst
            (λ r.
              Reads stored (wanted_of e f r ++ w) s
                (read_checked cq zero_ q config open_file e f r stored s k))
            (sym good)
            (read_checked-Reads e f okay stored s w k h (λ n t g. read_entries-Reads es n t g a)))
