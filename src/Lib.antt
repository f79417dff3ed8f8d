-- ===== src/Lib.antt =====
-- kit4go: the components of the Go utility library kit4go that keep state or decide something, as
-- executable definitions, with the theorems that make them correct. Each package stands by itself; the
-- sliding-window limiter and the circuit breaker share one algorithm, a ring of per-second counters.
--
-- * RingBuffer models ringbuffer/ringbuffer.go. The slice, the two indices and the count are a record;
--   a method is one attempt under the lock, and a call that would block on the condition variable
--   answers `waiting`. RingBuffer/Fifo is the bounded list that the buffer is, RingBuffer/Valid
--   its invariant, RingBuffer/Refine the refinement; `drain_loop` has the count as its fuel, one round
--   for each item.
-- * Buckets models the ring of counters of limiter/sliding_window.go (`advance`, and the charge in
--   `acquire`). Its loop has the seconds that are left to the new one as its fuel. Buckets/Tracks and
--   Buckets/History relate a ring to the list of everything that was ever charged to it.
-- * Limiter models limiter/limiter.go and the loop of `Wait`, which the limiters repeat. Its children
--   model limiter/sliding_window.go, limiter/gcra.go and limiter/fixed_window.go. The first holds a
--   lock, so that a call is one step; the other two are lock free, so that an `acquire` is a sequence
--   of atomic actions (`Pc` says which one is next), and a schedule is any list of events of
--   any goroutines. A `Wait` is given as the list of its polls, each with what the other goroutines do.
-- * Breaker models breaker/breaker.go and breaker/options.go: Breaker/Options the options, Breaker/Window
--   the two rings, Breaker/Machine the methods that change the state, and Breaker/Machine/Schedule
--   `Execute` as the actions of goroutines (admission, lock, start, end of `fn`). The reading of the
--   epoch and of the state by an admitted call is one action with its check of the context, and
--   each method is one action, so that interleavings inside a method are not modelled.
-- * Lru models lru/lru.go. The linked list and the map, which the code changes together, are one list.
-- * Fsm models fsm/fsm.go, Interval interval/interval.go, Auction auction/auction.go, Queue
--   queue/queue.go.
-- * Base62 models base62/base62.go. The buffer of twelve bytes is the fuel of the encoding loop; a
--   uint64 has at most eleven digits. A panic is `none`.
-- * LoadBalance models loadbalance/loadbalance.go. A random draw is the number that is drawn, and the
--   pointers to entries are their indices.
-- * FreqCap models freqcap/freqcap.go with its map as an association list. The slices of two keys never
--   share an array; what `trimBefore` does to the array of a slice that is not stored again is
--   `trim_in_place`.
-- * BiMap models bimap/bimap.go and Retry retry/retry.go. The callbacks of a retry are parameters that
--   answer by the number of the attempt; its loop runs on fuel, one for each attempt and one more,
--   since a limit of 0 is none.
-- * Money models money/money.go: Money the checked operations, Money/Major `FromMajor`,
--   Money/Allocate the allocation. An int64 is
--   an integer, and every operation of the code wraps it at 64 bits. The registry of currencies
--   (money/currency.go) and the float64 fractions of an allocation are parameters.
-- * Idempotency models idempotency/idempotency.go as steps of goroutines between the locks: a `Do` up to
--   the run of its function, and the end of a leader. The second pass of the eviction has the number
--   of entries as its fuel, one of which each round drops.
-- * Semaphore models semaphore/semaphore.go as the channel operations of goroutines, each with a place in
--   its call (`Pc`); a schedule is any list of them.
-- * Trie models trie/trie.go on keys that are cut into segments; the nodes are a tree, which no caller
--   shares.
-- * ConsistentHash models consistenthash/consistenthash.go, CountMin countmin/countmin.go and Bloom
--   bloom/bloom.go. The hashes are parameters, or a field; no theorem asks anything of them. A word of
--   the bits of the filter is the list of its 64 bits. ConsistentHash/Choice and ConsistentHash/Moves
--   are about what is chosen and what a change moves; CountMin/Counts about the rows of counters.
-- * Decimal models decimal/decimal.go. A `*big.Int` is an integer; the digits of a number and the reading
--   of a string are those of math/big, a parameter, with the laws that Decimal/Text states and
--   Decimal/Digits fills with one concrete choice. The loop that pads has the scale and one more as its
--   fuel, which is enough for any text.
-- * Shortlink models shortlink/shortlink.go: Shortlink/Values is about what a code stands for,
--   Shortlink/Codes about the codes of numbers, whose 64 bytes of
--   buffer are the fuel of the encoding, one for each binary digit of a uint64; Shortlink/Saved about
--   random codes in a store, with the attempts as the fuel.
-- * Backpressure models backpressure/backpressure.go and Batcher batcher/batcher.go, as steps of goroutines.
--   In the first a step is one atomic operation, in the second one operation on a channel or a lock;
--   the channel is a queue; Batcher/Steps has what every step keeps.
-- * MultiMap models multimap/multimap.go.
-- * Common has what they share: tests on numbers, lists, Go maps as association lists, integers with the
--   wrap of int64 and their signs, the wrap of uint64 and uint32, and strings of bytes.
--
-- Clock readings are numbers that a caller hands in, in nanoseconds or seconds since the epoch, and may
-- go back where a theorem does not say otherwise. Counters of metrics wrap at 64 or 32 bits; indices
-- and sums, which the memory or the rate bounds, are natural numbers, and so are the int64 prices; amounts of
-- money, delays, current weights, and the sums of the cell rate algorithm and the fixed window wrap. The sums of weights of
-- LoadBalance are exact, which those of the code are below 2^63. Floating-point numbers are not modelled: a rate of the
-- sliding window, below 2^53, is a fraction, the cost of a token in the cell rate algorithm and the tests on failure
-- rates are parameters. The sort of the standard library is a parameter with its documented promise.
--
-- Not modelled: limiter/token_bucket.go and limiter/leaky_bucket.go, whose state is a floating-point
-- number, and `NewLimiter`; `Parse`, `String` and `Scale` of money;
-- `KeysWithPrefix` and the cut of a key by slashes of the trie; the hook for panics and the wait of the
-- followers of the idempotency cache; the names, callbacks and loggers of the options; the sizes that
-- bloom and countmin compute from error rates in floating point; the packages that wrap a
-- client library (kafka, redis, mongo and the like), the helpers over the standard library, and the
-- other packages, which have no part in the ones above.
pub mod Common
pub mod RingBuffer
pub mod Buckets
pub mod Limiter
pub mod Breaker
pub mod Lru
pub mod Fsm
pub mod Interval
pub mod Auction
pub mod Queue
pub mod LoadBalance
pub mod FreqCap
pub mod BiMap
pub mod Retry
pub mod Money
pub mod Idempotency
pub mod Trie
pub mod Semaphore
pub mod Base62
pub mod ConsistentHash
pub mod MultiMap
pub mod Bloom
pub mod Batcher
pub mod Shortlink
pub mod Backpressure
pub mod Decimal
pub mod CountMin
