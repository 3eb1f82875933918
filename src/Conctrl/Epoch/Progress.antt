-- ===== src/Conctrl/Epoch/Progress.antt =====
-- A reader of an `epoch_reclaimer` that runs while no publication is under way.
use contrees_fat_node.Prelude.{
  ℕ, zero, suc, ◌%◌, ◌<◌, ◌≡◌, refl, ap, subst, ◌∙◌, false, ◌==◌, arith, eq→==, ne→==,
}
use contrees_fat_node.Conctrl.Epoch.{
  Reader, resting, sequenced, pinned, idle, State, pin_step, read_step, reads, Steps, here,
  then_step, initial,
}
use contrees_fat_node.Conctrl.Epoch.Invariant.{WriterOk}
use contrees_fat_node.Conctrl.Epoch.Safety.{Steps-Invariant, initial-Invariant}

module _ {A : Type 0} where
  -- `n` steps of one reader, with none of another thread between them.
  abbrev pub alone : ℕ → State A → ℕ → State A
  alone zero st cid = st
  alone (suc n) st cid = alone n (read_step st cid) cid

  pub alone-Steps :
      (readers n : ℕ) (st : State A) (cid : ℕ) → cid < readers → Steps readers st (alone n st cid)
  alone-Steps readers zero st cid b = here st
  alone-Steps readers (suc n) st cid b =
      then_step st (read_step st cid) _ (reads st cid b)
        (alone-Steps readers n (read_step st cid) cid b)

  -- The reader's own step.
  read_own :
      (st : State A) (cid : ℕ) (reader : Reader A)
      → st.readers cid ≡ reader
      → (read_step st cid).readers cid ≡ pin_step st reader
  unfolding read_step
  read_own st cid reader e = rw (eq→== cid cid refl) (ap (pin_step st) e)

  five_steps :
      (st : State A) (cid : ℕ)
      → st.published_sequence % 2 ≡ 0
      → st.readers cid ≡ resting
      → (alone 5 st cid).readers cid ≡ pinned st.published_root st.published_version
  unfolding pin_step read_step
  five_steps st cid even e =
      let s = st.published_sequence in
      let odd : (s % 2 == 1) ≡ false = ne→== (s % 2) 1 (omega (arith, even)) in
      let a = read_own st cid resting e ∙ rw odd refl in
      let b = read_own (alone 1 st cid) cid (sequenced s) a in
      let c = read_own (alone 2 st cid) cid _ b in
      let d = read_own (alone 3 st cid) cid _ c in
      read_own (alone 4 st cid) cid _ d ∙ rw (eq→== s s refl) refl

  -- In a reachable state with no publication under way, a reader outside pin that takes five steps,
  -- with no step of another thread between them, has pinned the published root and version.
  pub pin_completes :
      (n : ℕ) (root : A) (st : State A) (cid : ℕ)
      → Steps n (initial root) st
      → cid < n
      → st.writer ≡ idle
      → st.readers cid ≡ resting
      → Steps n st (alone 5 st cid)
        × ((alone 5 st cid).readers cid ≡ pinned st.published_root st.published_version)
  pin_completes n root st cid steps b e r =
      let i = Steps-Invariant n (initial root) st steps (initial-Invariant n root) in
      let w : WriterOk idle st.published_sequence st.published_root st.published_version
          st.history =
        subst
          (λ w. WriterOk w st.published_sequence st.published_root st.published_version st.history)
          e i.writer_ok in
      (alone-Steps n 5 st cid b, five_steps st cid w.0 r)
