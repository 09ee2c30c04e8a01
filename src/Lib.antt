-- ===== src/Lib.antt =====
-- Verification of the market-data and market-making logic of this repository.
--
-- The program. A historical adapter (pyresearch/historical/l2.py) orders and audits the depth
-- messages of one instrument and packs them into the raw records that the C++ pipeline
-- replays (cpp/replay, cpp/exchange/binance, cpp/book); research code under pyresearch/ simulates
-- trading on the result.
--
-- The files.
--   Prelude: the library names that all modules share, with Prelude/Lists and Prelude/Int for
--     lemmas on lists and for the integers over the native numbers; Prelude/Search for numpy's
--     binary searches, as the number of rows before the first that passes the key; Prelude/Arrays
--     for its tests on values that may not be finite.
--   Historical/Message, Snapshot, Decimal: `DepthMessage` of pyresearch/historical/l2.py, with the
--     order of its keys and the usability of a snapshot. A decimal is a number with a power of ten.
--   Historical/Hours: `iter_hour_messages`, the grouping of an hour's rows into messages in order.
--   Historical/Discovery: `discover_snapshot`, over what a cache holds for each hour.
--   Historical/Emission: the calls of the raw writer that the packing makes, one constructor for
--     each of its write calls, with the stamps and the messages that they carry.
--   Historical/Packing: `pack_for_existing_cpp_pipeline`, the loop's local variables as the
--     record `PackState` and one function for each branch.
--   Historical/Continuity: `audit_continuity`, its variables as the record `Audit`; Continuity/Loop,
--     Classes, Stages and Counts: what its loop keeps, the order of the classes, and the counters.
--   Binance/Book, OrderBook: `OrderBook` (cpp/book/order_book.cpp), as an interface that the
--     synchronizer uses and as the implementation that fills it.
--   Binance/DepthSync: `DepthSynchronizer` (cpp/exchange/binance/depth_sync.cpp).
--   Binance/Replay: the calls that `EventReplayer::replay` (cpp/replay/event_replayer.cpp) makes,
--     and its handler of a payload that the parser refuses.
--   MarketMaking/Permission, Fills, Schedule, Liquidation: `quote_permission`, `_apply_fill` and
--     `simulate_schedule` of pyresearch/obi/continuous_mm.py. The heap of pending fills is a list
--     in the order in which it is popped.
--   MarketMaking/Limits, Counts, Reports: the position's bound, the counters, and the report.
--   Execution/Walk, Day: `floor_quantity`, `walk_visible_book` and `run_day` of
--     pyresearch/execution/engine.py, a turn of the loop as the function `next`.
--   Execution/Costs: `add_cost_layers` with the columns of `run_day` that it reads.
--   Execution/Fills, Windows, Partition: what a walk pays, the trades' windows, the counters.
--   StateExit: `first_true_for_starts` and `state_exit_targets` of
--     pyresearch/obi/state_exit_search.py.
--   Download: the client of pyresearch/historical/cryptohftdata.py, with what the network answers as
--     a parameter; Download/Cache: `HourlyCache.ensure` over the files of an hour. Download/Prefix,
--     Retry, Served: what a download leaves, and when it succeeds; Cached, Again: a cached hour.
--   Passive/Replay: `_replay_sample` of pyresearch/passive/manual_audit.py, the queue of a resting
--     order; Passive/Labels: `attach_markouts` of pyresearch/passive/labeling.py, with the
--     arithmetic of floats as a parameter;
--     Passive/Placements: `build_placements` of pyresearch/passive/placements.py;
--     Passive/Policies: the masks of the policies of pyresearch/passive/approach_search.py.
--   PassiveEntry: `next_unsafe_indices`, `_side_safety`, `_placement_mask` and
--     `passive_exit_returns` of pyresearch/obi/passive_entry_search.py.
--   Cancel: `apply_cancel` and `classify` of pyresearch/native/cancel/counterfactual.py.
--   SignalSearch: `bbo_returns` of pyresearch/obi/search.py.
--   Splits: the folds of pyresearch/native/predictive/data.py, and `assert_split_embargo` of
--     pyresearch/support/evaluate.py.
--   RawFormat: the bytes of a record, between `ExistingRawFormatWriter.write` of
--     pyresearch/historical/l2.py and `RawEventReader::for_each` of cpp/storage/raw_event_writer.cpp.
--   Binance/Agreement: the packing against the replay of its records.
--
-- Bounds. Python integers are unbounded and are natural numbers or integers here; update ids are
-- nonnegative. Quantities and prices that are floats in the source are scaled integers, with the
-- source's tolerances as parameters; fees in basis points are kept in ten-thousandths, so that no
-- rounding is modelled, except in Passive/Labels, where the arithmetic of floats is a parameter that
-- may round. Loops run over a list by structural recursion; the loop of
-- `run_day`, which moves its cursor by a search, has fuel for each of the signals, and each turn
-- uses up at least one of them. The
-- synchronizer's buffer limit is a parameter, and so is the number of attempts of a download.
--
-- Not modelled: compression, digests and the parquet format, which are parameters where a cache
-- asks for them; the JSON of the payloads, so that the
-- levels of an order book's update are a parameter, and so is whether the parser takes a payload; the
-- lists of policies that a search tries; the numpy, pandas and model-fitting code.
pub mod Prelude
pub mod Historical
pub mod Binance
pub mod MarketMaking
pub mod Execution
pub mod StateExit
pub mod RawFormat
pub mod Passive
pub mod Download
pub mod Cancel
pub mod PassiveEntry
pub mod Splits
pub mod SignalSearch
