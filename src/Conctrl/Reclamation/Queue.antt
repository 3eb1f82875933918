-- ===== src/Conctrl/Reclamation/Queue.antt =====
-- The queue of batches of lib/conctrl/reclamation.hpp: its order, and what may leave it.
use contrees_fat_node.Prelude.{
  ℕ, ◌≤◌, ◌<◌, ◌≡◌, ◌⊎◌, refl, ap, sym, true, not, subst, Option, none, some, List, [], ◌∷◌, ◌++◌,
  leb, ◌==◌, if◌then◌else◌, arith, Bool-cases, if_both, inl, inr, leb→le, leb→lt,
}
use contrees_fat_node.Conctrl.Retired.{Context, drain_retired}
use contrees_fat_node.Conctrl.Reclamation.{
  RetireBatch, Reclaimer, oldest_of, oldest_active_reader, safe_version, free_front, try_reclaim,
  reclaim, push_batch, retire, batch_of,
}
use contrees_fat_node.Conctrl.Reclamation.Readers.{
  AtLeast, AtLeast-mono, oldest_of-le, oldest_of-AtLeast, IsReader, min-cases, oldest_of-IsReader,
}

module _ {ℓ} {A : Type ℓ} where
  -- The versions of the batches are at least `v` and do not descend.
  abbrev pub Ascending : ℕ → List (RetireBatch A) → Type 0
  Ascending v [] = Unit {0}
  Ascending v (x ∷ xs) = (v ≤ x.version) × Ascending x.version xs

  -- All versions are at most `v`, or above it.
  abbrev pub UpTo : ℕ → List (RetireBatch A) → Type 0
  UpTo v [] = Unit {0}
  UpTo v (x ∷ xs) = (x.version ≤ v) × UpTo v xs

  abbrev pub Above : ℕ → List (RetireBatch A) → Type 0
  Above v [] = Unit {0}
  Above v (x ∷ xs) = (v < x.version) × Above v xs

  Ascending-Above : (u v : ℕ) (xs : List (RetireBatch A)) → u < v → Ascending v xs → Above u xs
  Ascending-Above u v [] h a = tt
  Ascending-Above u v (x ∷ xs) h a = (omega arith, Ascending-Above u x.version xs (omega arith) a.1)

  pub free_front-append :
      (safe : ℕ) (xs : List (RetireBatch A)) → (free_front safe xs).0 ++ (free_front safe xs).1 ≡ xs
  unfolding free_front
  free_front-append safe [] = refl
  free_front-append safe (x ∷ xs) = elim (Bool-cases (leb x.version safe)) [
    | inl old ↦ rw old (ap (◌∷◌ x) (free_front-append safe xs))
    | inr young ↦ rw young
  ]

  free_front-UpTo : (safe : ℕ) (xs : List (RetireBatch A)) → UpTo safe (free_front safe xs).0
  unfolding free_front
  free_front-UpTo safe [] = tt
  free_front-UpTo safe (x ∷ xs) = elim (Bool-cases (leb x.version safe)) [
    | inl old ↦ rw old (leb→le x.version safe old, free_front-UpTo safe xs)
    | inr young ↦ rw young tt
  ]

  free_front-Above :
      (safe v : ℕ) (xs : List (RetireBatch A)) → Ascending v xs → Above safe (free_front safe xs).1
  unfolding free_front
  free_front-Above safe v [] a = tt
  free_front-Above safe v (x ∷ xs) a = elim (Bool-cases (leb x.version safe)) [
    | inl old ↦ rw old (free_front-Above safe x.version xs a.1)
    | inr young ↦ rw young (
      leb→lt x.version safe young,
      Ascending-Above safe x.version xs (leb→lt x.version safe young) a.1,
    )
  ]

  -- The versions that may be freed: no writer, no reader and no later pin is behind them.
  safe_version-le :
      (s : Reclaimer A) (w : ℕ)
      → (safe_version s w ≤ w)
        × (safe_version s w ≤ s.published_version)
        × AtLeast (safe_version s w) s.readers
  unfolding safe_version oldest_active_reader
  safe_version-le s w =
      let o = oldest_of-le s.published_version s.readers in
      (
        omega arith,
        omega (arith, o),
        AtLeast-mono _ (oldest_of s.published_version s.readers) s.readers (omega arith)
            (oldest_of-AtLeast s.published_version s.readers),
      )

  -- The version is that of the writers, the published one or that of an active reader.
  abbrev pub Reached : Reclaimer A → ℕ → ℕ → Type 0
  Reached s w v = (v ≡ w) ⊎ ((v ≡ s.published_version) ⊎ IsReader v s.readers)

  safe_version-Reached : (s : Reclaimer A) (w : ℕ) → Reached s w (safe_version s w)
  unfolding safe_version oldest_active_reader
  safe_version-Reached s w =
      let o = oldest_of s.published_version s.readers in
      elim (min-cases o w) [
        | inl older ↦ inr (
            subst (λ v. (v ≡ s.published_version) ⊎ IsReader v s.readers) (sym older)
              (oldest_of-IsReader s.published_version s.readers))
        | inr newer ↦ inl newer
      ]

  -- What was freed and what was left, by the version `v`: a prefix of the queue up to `v`, the rest
  -- above it, where `v` is behind neither the writers nor the published root nor a reader, and is one of
  -- these versions.
  pub record Split (s : Reclaimer A) (w : ℕ) (result : Reclaimer A × List (RetireBatch A))
      : Type ℓ where
    pub version : ℕ
    pub reached : Reached s w version
    pub writers : version ≤ w
    pub published : version ≤ s.published_version
    pub readers : AtLeast version s.readers
    pub prefix : result.1 ++ result.0.retired ≡ s.retired
    pub freed : UpTo version result.1
    pub left : Above version result.0.retired

  -- With reclamation on and the batches in order, try_reclaim frees exactly the prefix of the queue
  -- up to some version that is above neither the writers' safe version, nor the published version,
  -- nor the version of an active reader, and that is one of these versions.
  pub try_reclaim-Split :
      (s : Reclaimer A) (w : ℕ)
      → s.enabled ≡ true
      → Ascending 0 s.retired
      → Split s w (try_reclaim s w)
  unfolding try_reclaim reclaim
  try_reclaim-Split s w on a =
      let v = safe_version s w in
      let l = safe_version-le s w in
      subst (Split s w) (ap (λ e. if not e then (s, []) else reclaim s v) (sym on)) (record {
        version = v;
        reached = safe_version-Reached s w;
        writers = l.0;
        published = l.1;
        readers = l.2;
        prefix = free_front-append v s.retired;
        freed = free_front-UpTo v s.retired;
        left = free_front-Above v 0 s.retired a;
      })

  -- The batch that `retire` makes of a context.
  abbrev pub retired_batch : (Option A → ℕ) → ℕ → Context A → Option (A × ℕ × ℕ) → RetireBatch A
  retired_batch node_size version ctx rebuilt =
      batch_of node_size version (drain_retired ctx).0 rebuilt

  Ascending-snoc :
      (v : ℕ) (xs : List (RetireBatch A)) (x : RetireBatch A)
      → v ≤ x.version
      → UpTo x.version xs
      → Ascending v xs
      → Ascending v (xs ++ x ∷ [])
  Ascending-snoc v [] x h u a = (h, tt)
  Ascending-snoc v (y ∷ xs) x h u a = (a.0, Ascending-snoc y.version xs x u.0 u.1 a.1)

  batch_of-version :
      (node_size : Option A → ℕ) (version : ℕ) (nodes : List (Option A))
      (rebuilt : Option (A × ℕ × ℕ))
      → (batch_of node_size version nodes rebuilt).version ≡ version
  unfolding batch_of
  batch_of-version node_size version nodes none = refl
  batch_of-version node_size version nodes (some r) = refl

  push_batch-Ascending :
      (s : Reclaimer A) (x : RetireBatch A)
      → UpTo x.version s.retired
      → Ascending 0 s.retired
      → Ascending 0 (push_batch s x).retired
  unfolding push_batch
  push_batch-Ascending s x u a =
      if_both (λ r. Ascending 0 r.retired) (x.node_count == 0) s _ a
        (Ascending-snoc 0 s.retired x (omega arith) u a)

  -- A call of `retire` with a version that no batch of the queue is above keeps the batches in the
  -- order of their versions.
  pub retire-Ascending :
      (node_size : Option A → ℕ) (s : Reclaimer A) (version : ℕ) (ctx : Context A)
      (rebuilt : Option (A × ℕ × ℕ))
      → UpTo version s.retired
      → Ascending 0 s.retired
      → Ascending 0 (retire node_size s version ctx rebuilt).0.retired
  unfolding retire
  retire-Ascending node_size s version ctx rebuilt u a =
      let x = retired_batch node_size version ctx rebuilt in
      let ctx' = (drain_retired ctx).2 in
      if_both (λ (r : Reclaimer A × Context A). Ascending 0 r.0.retired) (not s.enabled) (s, ctx')
        (push_batch s x, ctx') a
        (push_batch-Ascending s x
          (rw (batch_of-version node_size version (drain_retired ctx).0 rebuilt) u) a)
