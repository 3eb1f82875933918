-- ===== src/Conctrl/Epoch/Invariant.antt =====
-- What holds in every state that the threads of an `epoch_reclaimer` reach.
use contrees_fat_node.Prelude.{
  ℕ, ◌+◌, ◌%◌, ◌^◌, ◌≤◌, ◌<◌, ◌≡◌, ◌⊎◌, refl, subst, ◌∙◌, inl, inr, List, [], ◌∷◌, arith,
}
use contrees_fat_node.Conctrl.Reclamation.{inactive}
use contrees_fat_node.Conctrl.Epoch.{
  Reader, resting, sequenced, rooted, loaded, advertised, refused, pinned, Writer, idle, announced,
  root_stored, version_stored, Scan, no_scan, scanning, State, begin_publish, publish_step,
}

-- The scan has passed the slot of a reader.
abbrev pub Covered : Scan → ℕ → ℕ → Type 0
Covered no_scan j version = Unit {0}
Covered (scanning oldest i) j version = j < i → oldest ≤ version

abbrev pub ScanOk : Scan → ℕ → Type 0
ScanOk no_scan version = Unit {0}
ScanOk (scanning oldest i) version = oldest ≤ version

pub scan_later : {u v : ℕ} (scan : Scan) → ScanOk scan u → u ≤ v → ScanOk scan v
scan_later no_scan o h = tt
scan_later (scanning oldest i) o h = omega (arith, o)

module _ {A : Type 0} where
  -- A root and its version in a history.
  abbrev pub Among : A → ℕ → List (A × ℕ) → Type 0
  Among root version [] = ⊥
  Among root version ((r, v) ∷ history) = ((root ≡ r) × (version ≡ v)) ⊎ Among root version history

  -- The sequence is odd while a publication is under way.
  abbrev pub WriterOk : Writer A → ℕ → A → ℕ → List (A × ℕ) → Type 0
  WriterOk idle s root version history = (s % 2 ≡ 0) × Among root version history
  WriterOk (announced r v) s root version history =
      (s % 2 ≡ 1) × (s + 1 < 2 ^ 64) × (version ≤ v) × (v < inactive) × Among r v history
  WriterOk (root_stored v) s root version history =
      (s % 2 ≡ 1) × (s + 1 < 2 ^ 64) × (version ≤ v) × (v < inactive) × Among root v history
  WriterOk version_stored s root version history =
      (s % 2 ≡ 1) × (s + 1 < 2 ^ 64) × Among root version history

  -- What a reader has loaded is still current if the sequence is.
  abbrev pub ReaderOk : Reader A → ℕ → State A → Type 0
  ReaderOk resting j st = Unit {0}
  ReaderOk (refused v) j st = Unit {0}
  ReaderOk (sequenced s) j st = (s ≤ st.published_sequence) × (s % 2 ≡ 0)
  ReaderOk (rooted s r) j st =
      (s ≤ st.published_sequence)
      × (s % 2 ≡ 0)
      × (s ≡ st.published_sequence → r ≡ st.published_root)
  ReaderOk (loaded s r v) j st =
      (s ≤ st.published_sequence)
      × (s % 2 ≡ 0)
      × (s ≡ st.published_sequence → (r ≡ st.published_root) × (v ≡ st.published_version))
  ReaderOk (advertised s r v) j st =
      (s ≤ st.published_sequence)
      × (s % 2 ≡ 0)
      × (s ≡ st.published_sequence → (r ≡ st.published_root) × (v ≡ st.published_version))
  ReaderOk (pinned r v) j st =
      Among r v st.history × (v < inactive) × (st.freed ≤ v) × ((k : ℕ) → Covered (st.scans k) j v)

  pub record Invariant (n_readers : ℕ) (st : State A) : Type 0 where
    pub writer_ok :
        WriterOk st.writer st.published_sequence st.published_root st.published_version st.history
    pub version_ok : st.published_version < inactive
    pub freed_ok : st.freed ≤ st.published_version
    pub scan_ok : (k : ℕ) → ScanOk (st.scans k) st.published_version
    pub readers_ok : (j : ℕ) → j < n_readers → ReaderOk (st.readers j) j st

  -- A step that is not the reader's: the sequence does not go back, and if it stays, nothing has
  -- changed that a reader has loaded.
  pub moves :
      (reader : Reader A) (j : ℕ) (st st' : State A)
      → st.published_sequence ≤ st'.published_sequence
      → ((s : ℕ)
          → s % 2 ≡ 0
          → s ≤ st.published_sequence
          → s ≡ st'.published_sequence
          → (s ≡ st.published_sequence)
            × (st.published_root ≡ st'.published_root)
            × (st.published_version ≡ st'.published_version))
      → ((r : A) (v : ℕ)
          → reader ≡ pinned r v
          → ReaderOk (pinned r v) j st
          → ReaderOk (pinned r v) j st')
      → ReaderOk reader j st
      → ReaderOk reader j st'
  moves resting j st st' l c f ok = tt
  moves (refused v) j st st' l c f ok = tt
  moves (sequenced s) j st st' l c f ok = (omega (arith, ok.0), ok.1)
  moves (rooted s r) j st st' l c f ok =
      (omega (arith, ok.0), ok.1, λ e. let d = c s ok.1 ok.0 e in ok.2 d.0 ∙ d.1)
  moves (loaded s r v) j st st' l c f ok = (
    omega (arith, ok.0),
    ok.1,
    λ e. let d = c s ok.1 ok.0 e in ((ok.2 d.0).0 ∙ d.1, (ok.2 d.0).1 ∙ d.2),
  )
  moves (advertised s r v) j st st' l c f ok = (
    omega (arith, ok.0),
    ok.1,
    λ e. let d = c s ok.1 ok.0 e in ((ok.2 d.0).0 ∙ d.1, (ok.2 d.0).1 ∙ d.2),
  )
  moves (pinned r v) j st st' l c f ok = f r v refl ok

  module _ (n : ℕ) (st : State A) (i : Invariant n st) where
    pub begin_publish-Invariant :
        (root : A) (version : ℕ)
        → st.writer ≡ idle
        → st.published_version < version
        → version < inactive
        → st.published_sequence + 2 < 2 ^ 64
        → Invariant n (begin_publish st root version)
    unfolding begin_publish
    begin_publish-Invariant root version e a b c =
        let w : WriterOk idle st.published_sequence st.published_root st.published_version
            st.history =
          subst
            (λ w.
              WriterOk w st.published_sequence st.published_root st.published_version st.history)
            e i.writer_ok in
        let s : (st.published_sequence + 1) % 2 ^ 64 ≡ st.published_sequence + 1 = omega arith in
        record {
          writer_ok = (omega (arith, w.0, s), omega (arith, s), omega arith, b, inl (refl, refl));
          version_ok = i.version_ok;
          freed_ok = i.freed_ok;
          scan_ok = i.scan_ok;
          readers_ok = λ j h.
              moves (st.readers j) j st (begin_publish st root version) (omega (arith, s))
                (λ t even old e. absurd (omega (arith, s, old, e)))
                (λ r v e ok. (inr ok.0, ok.1, ok.2, ok.3)) (i.readers_ok j h);
        }

    pub publish_step-Invariant :
        (w : Writer A)
        → WriterOk w st.published_sequence st.published_root st.published_version st.history
        → Invariant n (publish_step st w)
    unfolding publish_step
    publish_step-Invariant idle w = i
    publish_step-Invariant (announced root version) w = record {
      writer_ok = (w.0, w.1, w.2, w.3, w.4);
      version_ok = i.version_ok;
      freed_ok = i.freed_ok;
      scan_ok = i.scan_ok;
      readers_ok = λ j h.
          moves (st.readers j) j st (publish_step st (announced root version)) (omega arith)
            (λ t even old e. absurd (omega (arith, even, e, w.0))) (λ r v e ok. ok)
            (i.readers_ok j h);
    }
    publish_step-Invariant (root_stored version) w = record {
      writer_ok = (w.0, w.1, w.4);
      version_ok = w.3;
      freed_ok = omega (arith, i.freed_ok, w.2);
      scan_ok = λ k. scan_later (st.scans k) (i.scan_ok k) w.2;
      readers_ok = λ j h.
          moves (st.readers j) j st (publish_step st (root_stored version)) (omega arith)
            (λ t even old e. absurd (omega (arith, even, e, w.0))) (λ r v e ok. ok)
            (i.readers_ok j h);
    }
    publish_step-Invariant version_stored w =
        let s : (st.published_sequence + 1) % 2 ^ 64 ≡ st.published_sequence + 1 =
          omega (arith, w.1) in
        record {
          writer_ok = (omega (arith, w.0, s), w.2);
          version_ok = i.version_ok;
          freed_ok = i.freed_ok;
          scan_ok = i.scan_ok;
          readers_ok = λ j h.
              moves (st.readers j) j st (publish_step st version_stored) (omega (arith, s))
                (λ t even old e. absurd (omega (arith, s, old, e))) (λ r v e ok. ok)
                (i.readers_ok j h);
        }
