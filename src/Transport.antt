-- ===== src/Transport.antt =====
-- The exchange of data between a lock-free and a locking thread: `Transport` of
-- src/include/tdap/Transport.hpp. The two threads are one sequence of atomic events, in any order
-- that their code allows. `true` stands for the slot `data_[1]`.
pub mod Exclusion
pub mod Updates
mod Examples
use speakerman.Prelude.{
  Bool, true, false, not, ◌&&◌, ◌||◌, if◌then◌else◌, List, [], ◌∷◌, Option, none, some,
}

abbrev pub bool_eq : Bool → Bool → Bool
bool_eq true b = b
bool_eq false b = not b

-- Where the lock-free thread stands. `getLockFree` reads `write_` twice, for the slot and for the member
-- `write_` of the `LockFreeData`; C++ leaves open which of these is first.
pub data Reader : Type 0 where
  idle : Reader
  loaded : (slot : Bool) → Reader
  captured : (write : Bool) → Reader
  holding : (slot write : Bool) → Reader

-- Where the thread in `getAndSet` stands: outside, past the test `write_ != read_` with the data to
-- set, or past the two assignments with the data that it got.
pub data Writer {ℓ} (D : Type ℓ) : Type ℓ where
  outside : Writer D
  entered : (set : D) → Writer D
  assigned : (get : D) → Writer D

pub record Transport {ℓ} (D : Type ℓ) : Type ℓ where
  pub read : Bool
  pub write : Bool
  pub data0 : D
  pub data1 : D
  pub reader : Reader
  pub writer : Writer D
  -- what the last call of `getAndSet` that returned true gave
  pub got : Option D

module _ {ℓ} {D : Type ℓ} where
  abbrev pub slot_data : Bool → Transport D → D
  slot_data true t = t.data1
  slot_data false t = t.data0

  abbrev pub set_slot : Bool → D → Transport D → Transport D
  set_slot true d t = record t { data1 = d }
  set_slot false d t = record t { data0 = d }

  -- `init`, with the lock-free data not yet asked for
  unfoldable pub init : D → Bool → Transport D → Transport D
  init original start_modified t = record t {
    data0 = original;
    data1 = original;
    read = if start_modified then not t.write else t.read;
  }

  -- `Transport()`; what the two slots hold is not set.
  abbrev pub constructed : (content0 content1 : D) → Transport D
  constructed content0 content1 = record {
    read = false;
    write = false;
    data0 = content0;
    data1 = content1;
    reader = idle;
    writer = outside;
    got = none;
  }

  -- `LockFreeData::modified`
  unfoldable pub modified : Bool → Transport D → Bool
  modified write t = not (bool_eq write t.read)

pub data Event {ℓ} (D : Type ℓ) : Type ℓ where
  -- `write_ ? data_[1] : data_[0]`
  load : Event D
  -- the read of `write_` for the member
  capture : Event D
  -- a change of the data that the lock-free thread holds
  store : D → Event D
  -- `~LockFreeData`
  release : Event D
  -- `getAndSet` gets past the loop and the test with the data to set
  enter : D → Event D
  -- `get = data; data = set;`
  assign : Event D
  -- `write_ = !write_;`
  flip : Event D
  -- `getAndSet` gives up and returns false
  give_up : Event D

module _ {ℓ} {D : Type ℓ} where
  unfoldable pub reader_step : Event D → Reader → Transport D → Option (Transport D)
  unfolding modified
  reader_step load idle t = some (record t { reader = loaded t.write })
  reader_step capture idle t = some (record t { reader = captured t.write })
  reader_step load (captured write) t = some (record t { reader = holding t.write write })
  reader_step capture (loaded slot) t = some (record t { reader = holding slot t.write })
  reader_step (store d) (holding slot write) t = some (set_slot slot d t)
  reader_step release (holding slot write) t =
      some (record t { read = if modified write t then write else t.read; reader = idle })
  reader_step _ _ t = none

  -- The mutex lets one thread at a time into `getAndSet`.
  unfoldable pub writer_step : Event D → Writer D → Transport D → Option (Transport D)
  writer_step (enter set) outside t =
      if bool_eq t.write t.read then some (record t { writer = entered set }) else none
  writer_step assign (entered set) t =
      some (record (set_slot (not t.write) set t) { writer = assigned (slot_data (not t.write) t) })
  writer_step flip (assigned get) t =
      some (record t { write = not t.write; writer = outside; got = some get })
  writer_step give_up outside t = if bool_eq t.write t.read then none else some t
  writer_step _ _ t = none

  abbrev is_reader_event : Event D → Bool
  is_reader_event load = true
  is_reader_event capture = true
  is_reader_event (store d) = true
  is_reader_event release = true
  is_reader_event _ = false

  -- `none` if the thread cannot make this step.
  unfoldable pub step : Event D → Transport D → Option (Transport D)
  step e t = if is_reader_event e then reader_step e t.reader t else writer_step e t.writer t

  unfoldable pub run : List (Event D) → Transport D → Option (Transport D)
  run [] t = some t
  run (e ∷ es) t = elim (step e t) [ none ↦ none | some t' ↦ run es t' ]
