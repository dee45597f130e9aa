-- ===== src/Toy/Study/Limit.antt =====
-- What ReadFitResultWorker reads of all files.
use mathlib.Core.List.{append_assoc, append-nil}
use doo_fit.Base.{ℕ, true, false, List, [], ◌∷◌, ◌++◌, ◌≡◌, refl, sym, ap, ◌∙◌, subst, arith}
use doo_fit.Toy.Study.Saving.{ConcurrentQueue, QueueLaws}
use doo_fit.Toy.Study.EasyResults.{FileTree}
use doo_fit.Toy.Study.Quality.{Numbers}
use doo_fit.Toy.Study.Reading.{
  Container, Opened, unreadable, no_tree, no_branch, entries, Config, Outcome, returned, Study,
  limit_reached, Progress, went_on, broke_off, lost_pointer, stuck, read_entries, after_entries,
  read_file, go_on, read_files, end_reading, finish_reading, read_with, read_fit_result_worker,
}
use doo_fit.Toy.Study.Limited.{limited, left, left_nil, left_zero}
use doo_fit.Toy.Study.ReadEntries.{
  wanted_entries, wanted_file, wanted, SoundFile, SoundFiles, Reads, Reads-after,
  read_entries-Reads,
}

module _ {D : Type 0} (cq : ConcurrentQueue (Container D)) (laws : QueueLaws cq) where
  open cq use {contents}
  open laws use {contents-push, contents-disable}

  module _ (zero_ : D) (q : Numbers D) (config : Config) (open_file : FileTree → Opened D) where
    after_entries-Reads :
        (stored : ℕ) (xs : List (Container D)) (s : Study D cq) (p : Progress (Study D cq))
        → Reads cq laws zero_ q config open_file stored xs s p
        → Reads cq laws zero_ q config open_file stored xs s
            (after_entries cq zero_ q config open_file p)
    unfolding after_entries
    after_entries-Reads stored xs s (went_on n t) (l, e, f) = rw l (l, e, f)
    after_entries-Reads stored xs s (broke_off t) h = h
    after_entries-Reads stored xs s lost_pointer h = absurd h
    after_entries-Reads stored xs s stuck h = absurd h

    read_file-Reads :
        (f : FileTree) (o : Opened D) (stored : ℕ) (s : Study D cq)
        → limit_reached config.num_toys_read stored ≡ false
        → SoundFile cq laws zero_ q config open_file o
        → Reads cq laws zero_ q config open_file stored
            (wanted_file cq laws zero_ q config open_file o)
            s
            (read_file cq zero_ q config open_file f o stored s)
    unfolding read_file
    read_file-Reads f unreadable stored s h a =
        (h, sym (append-nil (contents s.read_queue)), λ ys. refl)
    read_file-Reads f no_tree stored s h a =
        (h, sym (append-nil (contents s.read_queue)), λ ys. refl)
    read_file-Reads f (no_branch false) stored s h a =
        (h, sym (append-nil (contents s.read_queue)), λ ys. refl)
    read_file-Reads f (no_branch true) stored s h a =
        (h, sym (append-nil (contents s.read_queue)), λ ys. refl)
    read_file-Reads f (entries es) stored s h a =
        after_entries-Reads stored (wanted_entries cq laws zero_ q config open_file es) s
          (read_entries cq zero_ q config open_file es stored s)
          (read_entries-Reads cq laws zero_ q config open_file es stored s h a)

    go_on-Reads :
        (stored : ℕ) (v w : List (Container D)) (s : Study D cq) (p : Progress (Study D cq))
        (k : ℕ → Study D cq → Progress (Study D cq))
        → Reads cq laws zero_ q config open_file stored v s p
        → ((n : ℕ) (t : Study D cq)
            → limit_reached config.num_toys_read n ≡ false
            → Reads cq laws zero_ q config open_file n w t (k n t))
        → Reads cq laws zero_ q config open_file stored
            (v ++ w)
            s
            (go_on cq zero_ q config open_file p k)
    go_on-Reads stored v w s (went_on n t) k (l, e, f) ih =
        Reads-after cq laws zero_ q config open_file stored n v w s t (k n t) e f (ih n t l)
    go_on-Reads stored v w s (broke_off t) k (zs, e, f) ih =
        (zs, e, λ ys. ap (left config.num_toys_read stored) (append_assoc v w ys) ∙ f (w ++ ys))
    go_on-Reads stored v w s lost_pointer k h ih = absurd h
    go_on-Reads stored v w s stuck k h ih = absurd h

    read_files-Reads :
        (fs : List FileTree) (stored : ℕ) (s : Study D cq)
        → limit_reached config.num_toys_read stored ≡ false
        → SoundFiles cq laws zero_ q config open_file fs
        → Reads cq laws zero_ q config open_file stored
            (wanted cq laws zero_ q config open_file fs)
            s
            (read_files cq zero_ q config open_file fs stored s)
    unfolding read_files
    read_files-Reads [] stored s h a = (h, sym (append-nil (contents s.read_queue)), λ ys. refl)
    read_files-Reads (f ∷ fs) stored s h (a, rest) =
        go_on-Reads stored (wanted_file cq laws zero_ q config open_file (open_file f))
          (wanted cq laws zero_ q config open_file fs) s
          (read_file cq zero_ q config open_file f (open_file f) stored s)
          (read_files cq zero_ q config open_file fs) (read_file-Reads f (open_file f) stored s h a)
          (λ n t g. read_files-Reads fs n t g rest)

    -- The worker has returned, and the queue has got the wanted cq laws zero_ q config open_file results up to the limit.
    abbrev pub HasRead : List FileTree → Study D cq → Outcome (Study D cq) → Type 0
    HasRead fs s o =
        (t : Study D cq) × (o ≡ returned t)
        × (contents t.read_queue
            ≡ contents s.read_queue
              ++ limited config.num_toys_read (wanted cq laws zero_ q config open_file fs))
        × (t.reading_fit_results ≡ false)

    finish-HasRead :
        (fs : List FileTree) (s : Study D cq) (p : Progress (Study D cq))
        → Reads cq laws zero_ q config open_file 0 (wanted cq laws zero_ q config open_file fs) s p
        → HasRead fs s (finish_reading cq zero_ q config open_file p)
    unfolding end_reading
    finish-HasRead fs s (went_on n t) (l, e, f) =
        let all : limited config.num_toys_read (wanted cq laws zero_ q config open_file fs)
            ≡ wanted cq laws zero_ q config open_file fs =
          sym (left_zero config.num_toys_read (wanted cq laws zero_ q config open_file fs))
          ∙ ap (left config.num_toys_read 0)
              (sym (append-nil (wanted cq laws zero_ q config open_file fs)))
          ∙ f []
          ∙ ap (λ x. wanted cq laws zero_ q config open_file fs ++ x)
              (left_nil config.num_toys_read n)
          ∙ append-nil (wanted cq laws zero_ q config open_file fs) in
        (
          end_reading cq zero_ q config open_file t,
          refl,
          contents-disable t.read_queue ∙ e ∙ ap (λ x. contents s.read_queue ++ x) (sym all),
          refl,
        )
    finish-HasRead fs s (broke_off t) (zs, e, f) =
        let all : limited config.num_toys_read (wanted cq laws zero_ q config open_file fs) ≡ zs =
          sym (left_zero config.num_toys_read (wanted cq laws zero_ q config open_file fs))
          ∙ ap (left config.num_toys_read 0)
              (sym (append-nil (wanted cq laws zero_ q config open_file fs)))
          ∙ f [] in
        (
          end_reading cq zero_ q config open_file t,
          refl,
          contents-disable t.read_queue ∙ e ∙ ap (λ x. contents s.read_queue ++ x) (sym all),
          refl,
        )
    finish-HasRead fs s lost_pointer h = absurd h
    finish-HasRead fs s stuck h = absurd h

    no_limit_yet : limit_reached config.num_toys_read 0 ≡ false
    no_limit_yet = ground arith

    -- If files are named, no results are stored, and no result in the files is null or lacks the
    -- initial value of a parameter, ReadFitResultWorker returns and appends to the queue the okay
    -- results of all files, in order, or the first num_toys_read of them if that number is positive.
    pub read_fit_result_worker-HasRead :
        (f : FileTree) (fs : List FileTree) (s : Study D cq)
        → config.read_results_filename_treename ≡ f ∷ fs
        → s.fit_results ≡ []
        → SoundFiles cq laws zero_ q config open_file (f ∷ fs)
        → HasRead (f ∷ fs) s (read_fit_result_worker cq zero_ q config open_file s)
    unfolding read_fit_result_worker
    read_fit_result_worker-HasRead f fs s named none_yet sound =
        subst (λ x. HasRead (f ∷ fs) s (read_with cq zero_ q config open_file x s.fit_results s))
          (sym named)
          (subst (λ x. HasRead (f ∷ fs) s (read_with cq zero_ q config open_file (f ∷ fs) x s))
            (sym none_yet)
            (finish-HasRead (f ∷ fs) s (read_files cq zero_ q config open_file (f ∷ fs) 0 s)
              (read_files-Reads (f ∷ fs) 0 s no_limit_yet sound)))
