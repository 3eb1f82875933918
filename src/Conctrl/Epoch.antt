-- ===== src/Conctrl/Epoch.antt =====
-- lib/conctrl/reclamation.hpp, `epoch_reclaimer` with reclamation on: `publish` by one writer, `pin` and
-- the end of a `read_guard` by the readers, and the scans of `try_reclaim` by any threads, as interleaved atomic steps.
--
-- Each step is one load or store of the source, all of them sequentially consistent. A reader is in a
-- state that says what it has loaded; what its slot advertises depends on that state. `history` is what
-- was ever published, and `freed` the greatest version whose batches may have been freed; the program
-- keeps neither.
pub mod Invariant
pub mod Safety
pub mod Progress
mod Examples
use contrees_fat_node.Prelude.{
  ℕ, suc, ◌+◌, ◌%◌, ◌^◌, ◌<◌, ◌≡◌, Bool, true, false, List, [], ◌∷◌, ◌==◌, if◌then◌else◌, min, max,
}
use contrees_fat_node.Conctrl.Reclamation.{inactive}

-- Where a reader stands in `pin`, with the sequence, the root and the version it has loaded.
pub data Reader (A : Type 0) : Type 0 where
  resting : Reader A
  sequenced : ℕ → Reader A
  rooted : ℕ → A → Reader A
  loaded : ℕ → A → ℕ → Reader A
  advertised : ℕ → A → ℕ → Reader A
  refused : ℕ → Reader A
  pinned : A → ℕ → Reader A

-- Where the writer stands in `publish`.
pub data Writer (A : Type 0) : Type 0 where
  idle : Writer A
  announced : A → ℕ → Writer A
  root_stored : ℕ → Writer A
  version_stored : Writer A

-- Where a thread stands in `oldest_active_reader_`: the oldest version so far and the next slot.
pub data Scan : Type 0 where
  no_scan : Scan
  scanning : ℕ → ℕ → Scan

pub record State (A : Type 0) : Type 0 where
  pub published_sequence : ℕ
  pub published_root : A
  pub published_version : ℕ
  pub writer : Writer A
  pub readers : ℕ → Reader A
  pub scans : ℕ → Scan
  pub freed : ℕ
  pub history : List (A × ℕ)

module _ {A : Type 0} where
  -- `readers_[cid].version`.
  unfoldable pub slot_of : Reader A → ℕ
  slot_of resting = inactive
  slot_of (sequenced s) = inactive
  slot_of (rooted s root) = inactive
  slot_of (loaded s root version) = inactive
  slot_of (advertised s root version) = version
  slot_of (refused version) = version
  slot_of (pinned root version) = version

  -- The first step of `publish(root, version)`.
  unfoldable pub begin_publish : State A → A → ℕ → State A
  begin_publish st root version = record st {
    published_sequence = (st.published_sequence + 1) % 2 ^ 64;
    writer = announced root version;
    history = (root, version) ∷ st.history;
  }

  -- The others.
  unfoldable pub publish_step : State A → Writer A → State A
  publish_step st idle = st
  publish_step st (announced root version) = record st {
    published_root = root;
    writer = root_stored version;
  }
  publish_step st (root_stored version) = record st {
    published_version = version;
    writer = version_stored;
  }
  publish_step st version_stored = record st {
    published_sequence = (st.published_sequence + 1) % 2 ^ 64;
    writer = idle;
  }

  -- The next step of `pin`; that of a pinned reader is `unpin_`.
  unfoldable pub pin_step : State A → Reader A → Reader A
  pin_step st resting =
      if st.published_sequence % 2 == 1 then resting else sequenced st.published_sequence
  pin_step st (sequenced s) = rooted s st.published_root
  pin_step st (rooted s root) = loaded s root st.published_version
  pin_step st (loaded s root version) = advertised s root version
  pin_step st (advertised s root version) =
      if s == st.published_sequence then pinned root version else refused version
  pin_step st (refused version) = resting
  pin_step st (pinned root version) = resting

  unfoldable pub read_step : State A → ℕ → State A
  unfolding pin_step
  read_step st cid = record st {
    readers = λ j. if j == cid then pin_step st (st.readers cid) else st.readers j;
  }

  unfoldable pub set_scan : State A → ℕ → Scan → ℕ → Scan
  set_scan st thread scan k = if k == thread then scan else st.scans k

  -- The load of the published version at the start of `oldest_active_reader_`.
  unfoldable pub begin_scan : State A → ℕ → State A
  unfolding set_scan
  begin_scan st thread = record st { scans = set_scan st thread (scanning st.published_version 0) }

  -- The next slot.
  unfoldable pub scan_step : State A → ℕ → ℕ → ℕ → State A
  unfolding slot_of set_scan
  scan_step st thread oldest i =
      let version = slot_of (st.readers i) in
      record st {
        scans =
            set_scan st thread
              (scanning (if version == inactive then oldest else min oldest version) (suc i));
      }

  -- The batches up to the safe version are freed.
  unfoldable pub end_scan : State A → ℕ → ℕ → ℕ → State A
  unfolding set_scan
  end_scan st thread oldest writer_safe_version = record st {
    scans = set_scan st thread no_scan;
    freed = max st.freed (min oldest writer_safe_version);
  }

  -- One step of one of the threads, of which `n_readers` are readers. Versions that are published grow,
  -- and the sequence does not wrap around.
  pub data Step (n_readers : ℕ) : State A → State A → Type 0 where
    publishes_first :
        (st : State A) (root : A) (version : ℕ)
        → st.writer ≡ idle
        → st.published_version < version
        → version < inactive
        → st.published_sequence + 2 < 2 ^ 64
        → Step n_readers st (begin_publish st root version)
    publishes : (st : State A) → Step n_readers st (publish_step st st.writer)
    reads : (st : State A) (cid : ℕ) → cid < n_readers → Step n_readers st (read_step st cid)
    scans_first :
        (st : State A) (thread : ℕ)
        → st.scans thread ≡ no_scan
        → Step n_readers st (begin_scan st thread)
    scans_next :
        (st : State A) (thread oldest i : ℕ)
        → st.scans thread ≡ scanning oldest i
        → i < n_readers
        → Step n_readers st (scan_step st thread oldest i)
    frees :
        (st : State A) (thread oldest writer_safe_version : ℕ)
        → st.scans thread ≡ scanning oldest n_readers
        → Step n_readers st (end_scan st thread oldest writer_safe_version)

  pub data Steps (n_readers : ℕ) : State A → State A → Type 0 where
    here : (st : State A) → Steps n_readers st st
    then_step : (s t u : State A) → Step n_readers s t → Steps n_readers t u → Steps n_readers s u

  -- The constructor of `epoch_reclaimer`.
  unfoldable pub initial : A → State A
  initial root = record {
    published_sequence = 0;
    published_root = root;
    published_version = 0;
    writer = idle;
    readers = λ j. resting;
    scans = λ k. no_scan;
    freed = 0;
    history = (root, 0) ∷ [];
  }
