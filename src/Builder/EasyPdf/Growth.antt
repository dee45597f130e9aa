-- ===== src/Builder/EasyPdf/Growth.antt =====
-- How one function of EasyPdf changes the pool: it only adds, and keeps the pool's pointers in the
-- workspace.
use doo_fit.Base.{
  String, true, Bool-cases, Option, none, some, find, find-assign, has_key, eq_iff, inl, inr, ◌⊎◌,
  List, ◌≡◌, refl, ap, arith,
}
use doo_fit.Builder.EasyPdf.Pool.{
  Class, Object, BinningObject, Store, same_store, Result, ok, throw, RooFit, EasyPdf, M, pure,
  ◌>>=◌, ◌>>◌, and_then, put, keep_in, fetch, got, keep, add,
}

same_store_eq : (t u : Store) → same_store t u ≡ true → t ≡ u
same_store_eq t u h = ground arith

-- What RooWorkspace documents: an import leaves the objects that are there, and so does defineSet.
pub record Laws {W : Type 0} (roo : RooFit W) : Type 0 where
  pub import_keeps :
      (o : Object) (w : W) (n : String) (p : Object)
      → roo.obj w n ≡ some p
      → roo.obj (roo.import_obj o w) n ≡ some p
  pub define_set_keeps :
      (k : String) (l : List String) (w : W) (n : String)
      → roo.obj (roo.define_set k l w) n ≡ roo.obj w n

module _ {W R : Type 0} where
  -- Every object of `s` is still in its map in `s'`.
  abbrev pub Extends : EasyPdf W R → EasyPdf W R → Type 0
  Extends s s' =
      (t : Store) (k : String) (o : Object)
      → find k (s.slot t) ≡ some o
      → find k (s'.slot t) ≡ some o

  -- And so is every binning, unchanged.
  abbrev pub ExtendsBinnings : EasyPdf W R → EasyPdf W R → Type 0
  ExtendsBinnings s s' =
      (k : String) (b : BinningObject R) → find k s.binnings ≡ some b → find k s'.binnings ≡ some b

  pub Extends-put :
      (t : Store) (k : String) (o : Object) (s : EasyPdf W R)
      → find k (s.slot t) ≡ none
      → Extends s (put t k o s)
  Extends-put t k o s new u j p h = elim (Bool-cases (same_store t u)) [
    | inl same ↦ ground (
      arith,
      same_store_eq t u,
      find-assign k j o (s.slot u),
      eq_iff k j,
      ap s.slot (same_store_eq t u same),
    )
    | inr other ↦ rw (other, put) h
  ]

  find-put :
      (t : Store) (k : String) (o : Object) (s : EasyPdf W R) (u : Store) (j : String) (p : Object)
      → find j ((put t k o s).slot u) ≡ some p
      → ((k ≡ j) × (p ≡ o)) ⊎ (find j (s.slot u) ≡ some p)
  find-put t k o s u j p h = elim (Bool-cases (same_store t u)) [
    | inl same ↦ ground (arith, find-assign k j o (s.slot u), eq_iff k j)
    | inr other ↦ inr (rw (other, put) at h)
  ]

module _ {W : Type 0} (roo : RooFit W) where
  fetch-eq-some :
      (c : Class) (n : String) (w : W) (q : Object)
      → fetch roo c n w ≡ some q
      → roo.obj w n ≡ some q
  fetch-eq-some c n w q e = ground arith

module _ {W : Type 0} (roo : RooFit W) {R : Type 0} where
  -- With a workspace, every object of the pool is the workspace's object of that name.
  abbrev pub IsCoherent : EasyPdf W R → Type 0
  IsCoherent s =
      (w : W)
      → s.ws ≡ some w
      → (t : Store) (k : String) (o : Object) → find k (s.slot t) ≡ some o
      → roo.obj w k ≡ some o

  pub record Evolves (s s' : EasyPdf W R) : Type 0 where
    pub extends : Extends s s'
    pub binned : ExtendsBinnings s s'
    pub coherent : Laws roo → IsCoherent s → IsCoherent s'

  pub Evolves-refl : (s : EasyPdf W R) → Evolves s s
  Evolves-refl s = record { extends = λ t k o h. h; binned = λ k b h. h; coherent = λ l c. c }

  pub Evolves-trans : (r s t : EasyPdf W R) → Evolves r s → Evolves s t → Evolves r t
  Evolves-trans r s t f g = record {
    extends = λ u k o h. g.extends u k o (f.extends u k o h);
    binned = λ k b h. g.binned k b (f.binned k b h);
    coherent = λ l c. g.coherent l (f.coherent l c);
  }

  -- What changes neither a map of objects nor the workspace.
  pub frame-Evolves :
      (s s' : EasyPdf W R) → s'.slot ≡ s.slot → s'.ws ≡ s.ws → ExtendsBinnings s s' → Evolves s s'
  frame-Evolves s s' e f g = record {
    extends = λ t k o h. rw e h;
    binned = g;
    coherent = λ l c w h t k o i. c w (rw f at h) t k o (rw e at i);
  }

  -- A function that only adds, and keeps coherence.
  pub record Grows {A : Type 0} (m : M W R A) : Type 0 where
    pub grow : (s : EasyPdf W R) → Evolves s (m s).1

  keep_none-Evolves :
      (t : Store) (k : String) (o : Object) (s : EasyPdf W R)
      → find k (s.slot t) ≡ none
      → s.ws ≡ none
      → Evolves s (put t k o s)
  keep_none-Evolves t k o s new bare = record {
    extends = Extends-put t k o s new;
    binned = λ k b h. h;
    coherent = λ l c w h. cc;
  }

  import-keeps :
      (o : Object) (w : W) (s : EasyPdf W R)
      → Laws roo
      → IsCoherent s
      → s.ws ≡ some w
      → (v : W) → some (roo.import_obj o w) ≡ some v
      → (u : Store) (k : String) (p : Object) → find k (s.slot u) ≡ some p
      → roo.obj v k ≡ some p
  import-keeps o w s l c has v hv u k p h = ground (arith, l.import_keeps o w k p (c w has u k p h))

  keep_some-Evolves :
      (t : Store) (o : Object) (w : W) (x : Option Object) (s : EasyPdf W R)
      → fetch roo o.class o.name (roo.import_obj o w) ≡ x
      → find o.name (s.slot t) ≡ none
      → s.ws ≡ some w
      → Evolves s (got roo t o.name x (record s { ws = some (roo.import_obj o w) })).1
  keep_some-Evolves t o w none s e new has = record {
    extends = λ u k p h. h;
    binned = λ k b h. h;
    coherent = λ l c v hv u k p h. import-keeps o w s l c has v hv u k p h;
  }
  keep_some-Evolves t o w (some q) s e new has = record {
    extends = Extends-put t o.name q (record s { ws = some (roo.import_obj o w) }) new;
    binned = λ k b h. h;
    coherent = λ l c v hv u k p h.
        elim (find-put t o.name q (record s { ws = some (roo.import_obj o w) }) u k p h) [
          | inl (same, it) ↦
              ground (arith, fetch-eq-some roo o.class o.name (roo.import_obj o w) q e)
          | inr old ↦ import-keeps o w s l c has v hv u k p old
        ];
  }

  keep_in-Evolves :
      (t : Store) (o : Object) (x : Option W) (s : EasyPdf W R)
      → find o.name (s.slot t) ≡ none
      → s.ws ≡ x
      → Evolves s (keep_in roo t o x s).1
  keep_in-Evolves t o none s new e = keep_none-Evolves t o.name o s new e
  keep_in-Evolves t o (some w) s new e = keep_some-Evolves t o w _ s refl new e

  pub keep-Evolves :
      (t : Store) (o : Object) (s : EasyPdf W R)
      → find o.name (s.slot t) ≡ none
      → Evolves s (keep roo t o s).1
  unfolding keep
  keep-Evolves t o s new = keep_in-Evolves t o s.ws s new refl

  pub add-Grows : (t : Store) (o : Object) → Grows (add roo t o)
  unfolding add has_key
  add-Grows t o = record { grow = λ s. go s (find o.name (s.slot t)) refl }
    where
      go :
          (s : EasyPdf W R) (x : Option Object)
          → find o.name (s.slot t) ≡ x
          → Evolves s (add roo t o s).1
      go s none e = rw (e, add, has_key) (keep-Evolves t o s e)
      go s (some p) e = rw (e, add, has_key) (Evolves-refl s)

module _ {W : Type 0} (roo : RooFit W) {R : Type 0} {A : Type 0} where
  pub Grows-pure : (a : A) → Grows roo (pure {W = W} {R = R} a)
  Grows-pure a = record { grow = Evolves-refl roo }

  module _ {B : Type 0} (m : M W R A) (f : A → M W R B) (gm : Grows roo m)
      (gf : (a : A) → Grows roo (f a)) where
    then-Evolves :
        (r : Result A) (s s' : EasyPdf W R) → Evolves roo s s' → Evolves roo s (and_then r f s').1
    then-Evolves (ok a) s s' e = Evolves-trans roo s s' (f a s').1 e ((gf a).grow s')
    then-Evolves (throw x) s s' e = e

    pub Grows-bind : Grows roo (m >>= f)
    unfolding ◌>>=◌
    Grows-bind = record { grow = λ s. then-Evolves (m s).0 s (m s).1 (gm.grow s) }

  pub Grows-then :
      {B : Type 0} (m : M W R A) (n : M W R B) → Grows roo m → Grows roo n → Grows roo (m >> n)
  unfolding ◌>>◌
  Grows-then m n gm gn = unfold ◌>>=◌ in Grows-bind m (λ _. n) gm (λ _. gn)
