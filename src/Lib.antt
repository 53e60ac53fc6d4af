-- ===== src/Lib.antt =====
-- Verification of speakerman: the parts of the speaker manager that keep, read and exchange its
-- configuration and data.
--
-- The program reads a configuration file and makes settings from it. Each setting may be unset, and
-- is then filled from a default or boxed into its range. Groups of channels are validated and mapped
-- to ports. While the program runs, changed settings and measured levels pass between the audio thread
-- and the other threads through a transport. Buffers are sized by checked counts.
--
--   ConfigReader   src/include/speakerman/utils/Config.hpp: `config::Reader`. The stream is the list
--                  of its bytes, the callback a function on data of its own, and each case of the
--                  switch in `Reader::read` a function: `on_start` for START, and so on.
--   Unset          src/include/speakerman/UnsetValue.h: the functions with the names of the source on
--                  any type that has an unset value and an order. Double gives these for `double`.
--   Named          src/include/speakerman/NamedConfig.h and src/NamedConfig.cc: `copyToName` is
--                  `copy_to_name`, `printToName` is `print_to_name`.
--   LogicalGroup   src/include/speakerman/LogicalGroupConfig.h and src/LogicalGroupConfig.cc:
--                  `LogicalGroupConfig`, one group of channels.
--   LogicalGroups  the same files: `AbstractLogicalGroupsConfig`, all groups of one direction, and
--                  `LogicalPortMap` in PortMap.
--   Equalizer, Detection, ProcessingGroup, ProcessingGroups, Matrix
--                  src/EqualizerConfig.cc, src/DetectionConfig.cc, src/ProcessingGroupConfig.cc,
--                  src/MatrixConfig.cc and their headers in src/include/speakerman: settings with
--                  their ranges, and how they are filled at the start and changed at runtime.
--   Config         src/include/speakerman/SpeakermanConfig.hpp and src/SpeakermanConfig.cpp: the whole
--                  configuration, with `setInitial`, `updateRuntimeValues` and `copyEqualizers`. A
--                  call that throws, or that uses an array out of range, has a result of its own.
--   Settings       src/SpeakermanConfig.cpp: the variables of the configuration file. Values has the
--                  parsers, Keys the keys of lines, Variables the classes of readers, Table all
--                  readers, Lines `ConfigManager`, Files `actualReadConfig`, and Load
--                  `readSpeakermanConfig`. A pointer to a text is the list of the bytes from there.
--   Peak           src/include/tdap/PeakDetection.hpp: `PeakMemory`, the maximum of the last
--                  samples. Its arrays are lists; an access outside of them is a result of its own. Arrays,
--                  Loops and Ranges are for adding a sample, Setup for setting the number of samples.
--   CheapPeak      the same file: `resetState` and `addSampleGetPeak` of `CheapPeakMemory`.
--   Average        src/include/tdap/TrueFloatingPointWindowAverage.hpp: the history, a window of it, and
--                  the average of one window.
--   Allocation     src/Allocation.cpp and src/include/tdap/Allocation.hpp: blocks from which a thread
--                  allocates consecutively. `Handle` and what uses one handle are in Allocation, its
--                  static members and `consecutive_alloc` in World, the class `Disable` in Guards.
--   Jack           src/JackClient.cpp and src/include/speakerman/jack/JackClient.hpp: the client and its
--                  state; Steps has the threads, Retry the policy for opening a client, and Processor
--                  src/JackProcessor.cpp with its header.
--   JsonReader     src/JsonCanonicalReader.cc and its header: the path of a JSON value.
--   Transport      src/include/tdap/Transport.hpp: the two threads as a sequence of events.
--   Count          src/include/tdap/Count.hpp: `CountOfSize`.
--   Delay          src/include/tdap/Delay.hpp: `Delay` in Single, `MultiChannelDelay` in Multi, and
--                  `MultiChannelAndTimeDelay` in Timed.
--   Stream         src/include/speakerman/Stream.hpp and src/Stream.cpp: reading and writing over any
--                  stream; the thread-local variables are fields of `World`.
--
-- Prelude has what the others share: Boolean tests, lists by index, texts, and the results of calls
-- that may throw.
--
-- Functions that change an object return the new one. Arrays are lists; the theorems that depend on
-- the length of an array say so. A `double` is the 64 bits of its IEEE representation, since the
-- configuration only copies and compares them. A `size_t` has 64 bits; where the source adds,
-- subtracts or multiplies numbers that can be near the maximum, the model wraps. The loops run over
-- arrays and inputs, and are recursions on these or on the number of rounds. Two loops have fuel: that of
-- `initNewSamples` in Peak has one more round than there are windows, and `belongs_to_any` in
-- Allocation has more rounds than there are handles; a theorem for each says that it returns before
-- the fuel is used up. The
-- decimal digits of a number are limited to 20, which any `size_t` fits.
--
-- Not modelled: messages on the standard error stream; the memory order of the threads, which the
-- source leaves to fences (the events of Transport are atomic and in one order); clocks and sleeping,
-- which decide only when the wait in `getAndSet` ends; filters and dynamics in floating point; the
-- functions of JACK, of its ports and names, and of the web server; the JSON parser, which calls
-- JsonReader; the set of windows of an average, and the floating-point arithmetic of the limits
-- on its sizes; the constructors of the
-- memories for peaks, and `CheapPeakMemoryMetrics`, which needs a root; and the copy of the mongoose
-- library.
pub mod Prelude
pub mod Double
pub mod Unset
pub mod Named
pub mod Equalizer
pub mod Detection
pub mod ProcessingGroup
pub mod ProcessingGroups
pub mod Matrix
pub mod Config
pub mod Settings
pub mod Peak
pub mod CheapPeak
pub mod Average
pub mod Allocation
pub mod Jack
pub mod JsonReader
pub mod LogicalGroup
pub mod LogicalGroups
pub mod Transport
pub mod Count
pub mod Delay
pub mod Stream
pub mod ConfigReader
