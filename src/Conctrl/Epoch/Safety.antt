-- ===== src/Conctrl/Epoch/Safety.antt =====
-- What the readers of an `epoch_reclaimer` may rely on, whatever the interleaving.
use contrees_fat_node.Prelude.{
  ℕ, suc, ◌%◌, ◌≤◌, ◌<◌, ◌≡◌, refl, ap, subst, sym, inl, inr, List, ◌==◌, if◌then◌else◌, min, arith,
  Bool-cases, ==→eq, ==→ne, ne→==, if_both,
}
use contrees_fat_node.Conctrl.Reclamation.{inactive}
use contrees_fat_node.Conctrl.Epoch.{
  Reader, resting, sequenced, rooted, loaded, advertised, refused, pinned, Writer, idle, announced,
  root_stored, version_stored, Scan, no_scan, scanning, State, slot_of, pin_step, read_step,
  set_scan, begin_scan, scan_step, end_scan, Step, publishes_first, publishes, reads, scans_first,
  scans_next, frees, Steps, here, then_step, initial,
}
use contrees_fat_node.Conctrl.Epoch.Invariant.{
  Among, WriterOk, Covered, ReaderOk, ScanOk, Invariant, moves, begin_publish-Invariant,
  publish_step-Invariant,
}

current-Covered : (j : ℕ) {u v : ℕ} (scan : Scan) → ScanOk scan u → v ≡ u → Covered scan j v
current-Covered j no_scan o e = tt
current-Covered j (scanning oldest i) o e = λ h. omega (arith, o, e)

module _ {A : Type 0} where
  -- Between two publications the published pair is in the history.
  current :
      (w : Writer A) (s : ℕ) (root : A) (version : ℕ) (history : List (A × ℕ))
      → s % 2 ≡ 0
      → WriterOk w s root version history
      → Among root version history
  current idle s root version history e w = w.1
  current (announced r v) s root version history e w = absurd (omega (arith, w.0, e))
  current (root_stored v) s root version history e w = absurd (omega (arith, w.0, e))
  current version_stored s root version history e w = absurd (omega (arith, w.0, e))

  module _ (n : ℕ) (st : State A) (i : Invariant n st) where
    confirmed :
        (j s v : ℕ) (r : A)
        → ReaderOk (advertised s r v) j st
        → s ≡ st.published_sequence
        → ReaderOk (pinned r v) j st
    confirmed j s v r ok e =
        let same = ok.2 e in
        let a =
          current st.writer st.published_sequence st.published_root st.published_version st.history
            (omega (arith, ok.1, e)) i.writer_ok in
        (
          subst (λ (x : A). Among x v st.history) (sym same.0)
              (subst (λ (x : ℕ). Among st.published_root x st.history) (sym same.1) a),
          omega (arith, i.version_ok, same.1),
          omega (arith, i.freed_ok, same.1),
          λ k. current-Covered j (st.scans k) (i.scan_ok k) same.1,
        )

    pin_step-ReaderOk :
        (j : ℕ) (reader : Reader A) → ReaderOk reader j st → ReaderOk (pin_step st reader) j st
    unfolding pin_step
    pin_step-ReaderOk j resting ok = elim (Bool-cases (st.published_sequence % 2 == 1)) [
      | inl odd ↦ rw odd tt
      | inr even ↦ rw even (omega arith, omega (arith, ==→ne (st.published_sequence % 2) 1 even))
    ]
    pin_step-ReaderOk j (sequenced s) ok = (ok.0, ok.1, λ e. refl)
    pin_step-ReaderOk j (rooted s r) ok = (ok.0, ok.1, λ e. (ok.2 e, refl))
    pin_step-ReaderOk j (loaded s r v) ok = ok
    pin_step-ReaderOk j (advertised s r v) ok = elim (Bool-cases (s == st.published_sequence)) [
      | inl same ↦ rw same (confirmed j s v r ok (==→eq s st.published_sequence same))
      | inr other ↦ rw other tt
    ]
    pin_step-ReaderOk j (refused v) ok = tt
    pin_step-ReaderOk j (pinned r v) ok = tt

    unmoved :
        (cid j : ℕ) (reader : Reader A)
        → ReaderOk reader j st
        → ReaderOk reader j (read_step st cid)
    unfolding read_step
    unmoved cid j reader ok =
        moves reader j st (read_step st cid) (omega arith) (λ s even old e. (e, refl, refl))
          (λ r v p ok. ok) ok

    read_step-Invariant : (cid : ℕ) → cid < n → Invariant n (read_step st cid)
    unfolding read_step
    read_step-Invariant cid b = record {
      writer_ok = i.writer_ok;
      version_ok = i.version_ok;
      freed_ok = i.freed_ok;
      scan_ok = i.scan_ok;
      readers_ok = λ j h. elim (Bool-cases (j == cid)) [
        | inl same ↦ rw same (
            unmoved cid j (pin_step st (st.readers cid)) (
              subst (λ (k : ℕ). ReaderOk (pin_step st (st.readers k)) j st) (==→eq j cid same)
                (pin_step-ReaderOk j (st.readers j) (i.readers_ok j h))))
        | inr other ↦ rw other (unmoved cid j (st.readers j) (i.readers_ok j h))
      ];
    }

    begin_scan-Invariant : (thread : ℕ) → Invariant n (begin_scan st thread)
    unfolding begin_scan set_scan
    begin_scan-Invariant thread = record {
      writer_ok = i.writer_ok;
      version_ok = i.version_ok;
      freed_ok = i.freed_ok;
      scan_ok = λ k.
          if_both (λ (s : Scan). ScanOk s st.published_version) (k == thread) _ (st.scans k)
            (omega arith) (i.scan_ok k);
      readers_ok = λ j h.
          moves (st.readers j) j st (begin_scan st thread) (omega arith)
            (λ s even old e. (e, refl, refl))
            (λ r v e ok. (
              ok.0,
              ok.1,
              ok.2,
              λ k.
                  if_both (λ (s : Scan). Covered s j v) (k == thread) _ (st.scans k)
                    (λ z. absurd (omega (arith, z))) (ok.3 k),
            ))
            (i.readers_ok j h);
    }

    -- The scan reads the slot of a pinned reader, or has read it before.
    passes :
        (j v : ℕ) (r : A) (thread oldest next : ℕ)
        → st.readers j ≡ pinned r v
        → st.scans thread ≡ scanning oldest next
        → ReaderOk (pinned r v) j st
        → j < suc next
        → (let version = slot_of (st.readers next) in
            (if version == inactive then oldest else min oldest version) ≤ v)
    unfolding slot_of
    passes j v r thread oldest next p e ok h =
        let c : j < next → oldest ≤ v = subst (λ (s : Scan). Covered s j v) e (ok.3 thread) in
        elim (Bool-cases (j == next)) [
          | inl same ↦
              let slot : slot_of (st.readers next) ≡ v =
                subst (λ (k : ℕ). slot_of (st.readers k) ≡ v) (==→eq j next same) (ap slot_of p) in
              rw (slot, ne→== v inactive (omega (arith, ok.1))) (omega arith)
          | inr other ↦
              let l : oldest ≤ v = c (omega (arith, h, ==→ne j next other)) in ground (arith, l)
        ]

    scan_step-Invariant :
        (thread oldest next : ℕ)
        → st.scans thread ≡ scanning oldest next
        → Invariant n (scan_step st thread oldest next)
    unfolding scan_step set_scan
    scan_step-Invariant thread oldest next e =
        let old : oldest ≤ st.published_version =
          subst (λ (s : Scan). ScanOk s st.published_version) e (i.scan_ok thread) in
        record {
          writer_ok = i.writer_ok;
          version_ok = i.version_ok;
          freed_ok = i.freed_ok;
          scan_ok = λ k.
              if_both (λ (s : Scan). ScanOk s st.published_version) (k == thread) _ (st.scans k)
                (ground (arith, old)) (i.scan_ok k);
          readers_ok = λ j h.
              moves (st.readers j) j st (scan_step st thread oldest next) (omega arith)
                (λ s even old e. (e, refl, refl))
                (λ r v p ok. (
                  ok.0,
                  ok.1,
                  ok.2,
                  λ k.
                      if_both (λ (s : Scan). Covered s j v) (k == thread) _ (st.scans k)
                        (passes j v r thread oldest next p e ok) (ok.3 k),
                ))
                (i.readers_ok j h);
        }

    end_scan-Invariant :
        (thread oldest writer_safe : ℕ)
        → st.scans thread ≡ scanning oldest n
        → Invariant n (end_scan st thread oldest writer_safe)
    unfolding end_scan set_scan
    end_scan-Invariant thread oldest writer_safe e =
        let old : oldest ≤ st.published_version =
          subst (λ (s : Scan). ScanOk s st.published_version) e (i.scan_ok thread) in
        record {
          writer_ok = i.writer_ok;
          version_ok = i.version_ok;
          freed_ok = omega (arith, i.freed_ok, old);
          scan_ok = λ k.
              if_both (λ (s : Scan). ScanOk s st.published_version) (k == thread) _ (st.scans k) tt
                (i.scan_ok k);
          readers_ok = λ j h.
              moves (st.readers j) j st (end_scan st thread oldest writer_safe) (omega arith)
                (λ s even old e. (e, refl, refl))
                (λ r v p ok.
                  let c : j < n → oldest ≤ v =
                    subst (λ (s : Scan). Covered s j v) e (ok.3 thread) in
                  (
                    ok.0,
                    ok.1,
                    omega (arith, ok.2, c h),
                    λ k.
                        if_both (λ (s : Scan). Covered s j v) (k == thread) _ (st.scans k) tt
                          (ok.3 k),
                  ))
                (i.readers_ok j h);
        }

  Step-Invariant : (n : ℕ) (s t : State A) → Step n s t → Invariant n s → Invariant n t
  Step-Invariant n s t (publishes_first st root version e a b c) i =
      begin_publish-Invariant n s i root version e a b c
  Step-Invariant n s t (publishes st) i = publish_step-Invariant n s i s.writer i.writer_ok
  Step-Invariant n s t (reads st cid b) i = read_step-Invariant n s i cid b
  Step-Invariant n s t (scans_first st thread e) i = begin_scan-Invariant n s i thread
  Step-Invariant n s t (scans_next st thread oldest next e b) i =
      scan_step-Invariant n s i thread oldest next e
  Step-Invariant n s t (frees st thread oldest writer_safe e) i =
      end_scan-Invariant n s i thread oldest writer_safe e

  pub Steps-Invariant : (n : ℕ) (s t : State A) → Steps n s t → Invariant n s → Invariant n t
  Steps-Invariant n s t (here st) i = i
  Steps-Invariant n s t (then_step a u b step rest) i =
      Steps-Invariant n u b rest (Step-Invariant n a u step i)

  pub initial-Invariant : (n : ℕ) (root : A) → Invariant n (initial root)
  unfolding initial
  initial-Invariant n root = record {
    writer_ok = (omega arith, inl (refl, refl));
    version_ok = omega arith;
    freed_ok = omega arith;
    scan_ok = λ k. tt;
    readers_ok = λ j h. tt;
  }

  module _ (n : ℕ) (root r : A) (st : State A) (cid v : ℕ) (steps : Steps n (initial root) st)
      (b : cid < n) (e : st.readers cid ≡ pinned r v) where
    pinned-ReaderOk : ReaderOk (pinned r v) cid st
    pinned-ReaderOk =
        let i = Steps-Invariant n (initial root) st steps (initial-Invariant n root) in
        subst (λ (reader : Reader A). ReaderOk reader cid st) e (i.readers_ok cid b)

    -- In every interleaving of one publisher, any readers and any scans, started from the
    -- constructor, with versions that grow and a sequence that does not wrap around, the root and
    -- the version of a pinned reader were published together.
    pub pinned-Among : Among r v st.history
    pinned-Among = pinned-ReaderOk.0

    -- In every interleaving of one publisher, any readers and any scans, started from the
    -- constructor, with versions that grow and a sequence that does not wrap around, the versions up
    -- to which batches were freed are never above the version of a pinned reader.
    pub freed-le-pinned : st.freed ≤ v
    freed-le-pinned = pinned-ReaderOk.2
