-- ===== src/Lib.antt =====
-- A model of the state tracking of the SDK for the Perpl exchange (the crate's src/ directory), with the
-- theorems that make it correct.
--
-- The program. The exchange is a smart contract that emits events. `state::Exchange` (src/state/) replays
-- them: it holds perpetual contracts, each with market data, funding and an order book of level 3, and
-- accounts with positions. `fill` (src/fill/) reads the same events by itself and joins them to trades.
--
-- The order book (src/state/l3_book/). A map of orders by identifier, whose nodes carry the links of a
-- queue; and for each side a map of levels by price, each with the ends of its queue and cached totals.
--   BookOrder, BookLevel, BookError     order.rs, level.rs, error.rs
--   BookKeys, Table                     the keys of the maps; a map as a list sorted by its keys
--   OrderBook, OrderBook/Ops            mod.rs: lookups, links, add_order, update_order,
--                                       remove_order_by_id, move_to_back
--   OrderBook/Iteration, Impact         mod.rs: LevelOrdersIter and its users, impact
--   OrderBook/Queue, Rep                the abstract book: a queue of identifiers for each side and price,
--                                       and `Rep`, which says that a book holds such queues
--   OrderBook/View, Member, Placed      what the parts of an operation do to lookups; where an order stands
--   OrderBook/Add, Update, Remove, Move one theorem for each operation, against the queues
--   OrderBook/Sides                     the orders of a whole side
--   OrderBook/Moved                     the book that move_to_back leaves, for Move
--   OrderBook/Failures                  the error paths
--   OrderBook/Snapshot                  mod.rs: add_orders_from_snapshot
--   OrderBook/Grouping, BuildLevel,     the levels that it finds, the level that it builds, its two
--     Loading, Reload, Saved            passes, and a book that is saved and loaded again
--   OrderBook/Reached                   the books that the operations make
--   OrderBook/Walk                      the iterator against the queues
--   OrderBook/Ordered, Best             levels in the order of their prices; the best ask and bid
-- Contracts and positions (src/state/perpetual.rs, src/state/position.rs).
--   Perpetual, Perpetual/Orders         the contract, its updates, its calls into the book
--   Perpetual/Routing, Funding          what an update does to the queues; when funding fires
--   Perpetual/Books                     the calls into the book as operations of the book
--   Position, Position/Profit           the position; prices and payments on both sides
-- Accounts and the exchange (src/state/account.rs, src/state/exchange.rs).
--   Account, Account/Bitmap             the account; the perpetuals that a bitmap names
--   Exchange                            the state, apply_state_event, and the end of apply_events
--   Exchange/RawEvents                  the contract's events (abi/dex/Exchange.json, stream.rs)
--   Exchange/Handler                    what a handler is: it runs on a state, and ends in a result, an
--                                       error that leaves the state as it then is, or a panic
--   Exchange/Lookup                     account, perpetual, order, account_perpetual, position, must_ctx
--                                       and err_ctx, each with the closure that it runs
--   Exchange/Requests, Prepare          OrderContext::from and Order::placed; request.rs: prepare
--   Exchange/OnAccounts, OnContracts,   the arms of apply_raw_event, one function each
--     OnOrders, OnPositions, OnSizes
--   Exchange/Dispatch, Block            apply_raw_event; apply_events
--   Exchange/Valid                      the invariant of the state
--   Exchange/Keeps, MethodsKeep,        rules for what a handler keeps, and that each handler keeps
--     LookupKeeps, AccountsKeep,        the invariant
--     ContractsKeep, StepsKeep,
--     OrdersKeep, PositionsKeep,
--     SizesKeep, EventsKeep, Invariant
--   Exchange/Instants                   what a block makes of a state
--   Exchange/Fills                      a maker's fill, against the queues of the book
--   Exchange/Failures                   the events of failed requests
--   Exchange/Tracking                   lookups of positions; new marks
--   Exchange/Positions, Commit          what the end of a block does to the positions
--   Snapshot/Orders, Holdings,          the constructors new of Order, Position, Account and Perpetual, from
--     Contracts                         the contract's records (abi/dex/Exchange.json)
-- Trades (src/fill/).
--   Fill, Fill/Listener                 types.rs, and the processor of listener.rs
--   Fill/Trades, Fill/Batch             where fills come from; a whole transaction
-- Shared data: Types (src/types/mod.rs, order.rs, request.rs), BlockEvents (src/types/event.rs), Order
-- (src/state/order.rs), StateEvents and Emit (src/state/event.rs), DexError (src/error.rs), Converters
-- (src/num.rs). Types/Requests has the conversions of request.rs, Table/Each what holds of every entry of
-- a map. Prelude holds the helpers, and Examples the concrete instances of the theorems.
--
-- Numbers. The decimal types are of the crate fastnum. `Amount` is what the book relies on: an amount is a
-- number of steps, with exact sums up to `cap` steps; a theorem that needs room at a level says so.
-- `Numbers` lists the operations that contracts, positions and converters use, and the contract's
-- integers; `WordLaws` is what a round trip through them needs. Identifiers, blocks and times are plain
-- numbers; the count of a level's orders wraps at 2^32. A function on `&mut self` returns the state that
-- it leaves beside its result; `Option` stands for code that can panic.
--
-- Fuel. Only the iterators over a level and a side take fuel: one step more than the book has orders is
-- enough.
--
-- Not modelled: the network (the polling of stream.rs, the snapshot builder of src/state/mod.rs, the start
-- of the listener), the types that a macro generates for the contract, the programs and the tests.
-- Exchange::new, which only stores what the snapshot has read, and the accessors that return a field are
-- left out too.
pub mod Prelude
pub mod Amount
pub mod Table
pub mod Types
pub mod Order
pub mod BookError
pub mod BookOrder
pub mod BookLevel
pub mod Numbers
pub mod Position
pub mod StateEvents
pub mod DexError
pub mod Converters
pub mod Emit
pub mod BookKeys
pub mod OrderBook
pub mod Perpetual
pub mod Account
pub mod BlockEvents
pub mod Fill
pub mod Exchange
pub mod Snapshot
pub mod Examples
