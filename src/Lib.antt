-- ===== src/Lib.antt =====
-- The clients of Apache Kafka in kafka/: models of the parts that carry protocol state, and what is
-- proved of them.
--
-- The producer's transactions, kafka/producer/transaction_manager.py. The producer's thread calls
-- the public methods of TransactionManager (initialize_transactions, begin_transaction,
-- maybe_add_partition_to_transaction, begin_commit, begin_abort, ...); the sender's thread takes
-- requests with next_request_handler, sends each, and gives the response to the handler's
-- on_complete, which moves the state machine on. The lock makes each call one step, so a run is a
-- list of calls in any order. Transactions.State has the states, the transition table and the
-- priorities; Transactions.Requests the handlers, requests and the heap of pending requests;
-- Transactions.Manager the manager's fields and private methods; Transactions.Calls the public
-- methods, and Transactions.NextRequest the one that takes a request from the queue;
-- Transactions.Handlers and Transactions.Offsets the handle_response of each handler;
-- Transactions.Complete on_complete. Transactions.Runs lists the calls. A method is a state-passing
-- function that may raise (Exec), and a raise keeps the changes made before it, as in Python. A
-- heap is the sorted list of its entries in the order they are popped, and a set the list of its
-- members. A TransactionalRequestResult is an index into the manager's list of results. The dict
-- order of TxnOffsetCommit's request is that of insertion.
--
-- The consumer's subscription, kafka/consumer/subscription_state.py. The user subscribes to topics
-- or a pattern, or assigns partitions; the coordinator assigns partitions after a rebalance; the
-- fetcher asks for the fetchable partitions, moves a partition to the end once it was fetched, and
-- writes positions and resets. Subscriptions.TopicName has ensure_valid_topic_name (kafka/util.py),
-- Subscriptions.Position the state of a partition, Subscriptions.State the subscription,
-- Subscriptions.Assignment the two ways to assign, with the batching by topic, and
-- Subscriptions.Calls the reads and writes of the assigned partitions. Subscriptions.Runs lists the
-- calls. The order that random.shuffle gives to the topics and what re.compile accepts are
-- parameters.
--
-- Varint has the varints of kafka/record/util.py: the bytes written as a list, the buffer as a list
-- of bytes, and the general loop on fuel, for which its value is enough since every round divides
-- it. Future has kafka/future.py: the callbacks are names, and the calls made are a list.
-- Assignors.Range has kafka/coordinator/assignors/range.py and Assignors.RoundRobin roundrobin.py
-- beside it, where the search for a subscribed member has as much fuel as there are members, which
-- is one turn of the cycle; Assignors.Sort has the sorts, and Partitioner
-- kafka/partitioner/default.py.
--
-- Heartbeat has kafka/coordinator/heartbeat.py, with the time as an argument, and WireTypes the two
-- variable-length integers of 32 bits of kafka/protocol/types.py; four rounds of the encoder's loop
-- and five of the decoder's are enough for 32 bits.
--
-- The protocol, kafka/protocol/. Protocol.Types has the types of fields and schemas of types.py
-- with encode, Protocol.Decoding their decode on the list of the bytes left, Protocol.Ints the
-- integers of a fixed width and Protocol.Utf8 what decode('utf-8') accepts; a str stands for its
-- bytes in UTF-8. Protocol.Message has the classes Request and Response of api.py with their
-- headers, and Protocol.Messages their subclasses by file, all but DescribeClientQuotas, whose
-- response has a Float64; tagged fields are encoded as in the source, which does not read them
-- back. Protocol.Frame has the buffer of frame.py and Protocol.Parser KafkaProtocol of parser.py:
-- send_request queues a frame and puts the request in flight; in Protocol.Parser.Receiving
-- receive_bytes takes any bytes that came from the socket and returns the complete responses. The
-- loop of receive_bytes has fuel for each byte and one round more, which is enough since each round
-- takes a byte, but for the first after a call that raised. The parser takes the classes of
-- requests through the interface Api, and Protocol.Classes fills it.
--
-- Cluster has kafka/cluster.py: the state and its reads, in Cluster.Reading how update_metadata
-- reads a MetadataResponse, in Cluster.Calls the calls that listeners and callbacks may make as
-- well, and in Cluster.Update update_metadata and failed_update, which call them. What each of them
-- does (as ConsumerCoordinator._handle_metadata_update of kafka/coordinator/consumer.py, which may
-- ask for another update) is a parameter: any of the calls but the two updates, by the state it is
-- called in, and then perhaps a raise. Cluster.Reacts has what they keep, and Cluster.Runs lists
-- the calls. The sender asks the accumulator which leaders are ready, and drains the partitions
-- that the cluster lists under each. Accumulator has kafka/producer/record_accumulator.py:
-- Accumulator.Batch ProducerBatch, Accumulator the queues of batches with append, expiry and ready,
-- Accumulator.Drain the drain, whose loop has as much fuel as there are partitions, which is once
-- round them. The builder of records and the transaction manager are interfaces there.
--
-- Left out: log calls, locks (every call holds the manager's lock), and the sockets that carry the
-- requests; what the broker answers is any value of the response type.
--
-- Errors has kafka/errors.py: for_code, with a constructor for each broker error that the modelled
-- code names and the code itself for the others. Structs has kafka/structs.py. Common has integers,
-- lists, sets and dicts as association lists.
pub mod Common
pub mod Exec
pub mod Errors
pub mod Structs
pub mod Transactions
pub mod Subscriptions
pub mod Varint
pub mod Future
pub mod Assignors
pub mod Partitioner
pub mod Heartbeat
pub mod WireTypes
pub mod Cluster
pub mod Accumulator
pub mod Protocol
