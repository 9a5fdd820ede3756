-- ===== src/Lib.antt =====
-- The Dioxide Python SDK: the serializer of GCL values, the arguments of contract calls, the
-- identifiers of contracts, transactions and their proof of work, addresses and accounts, the
-- filters and handlers of subscriptions, and the client.
--
-- The package talks to a Dioxide node. The client, dioxide_python_sdk/client/dioxclient.py, asks
-- the node, or dioxide_python_sdk/client/transaction.py by itself, for a transaction whose input
-- holds the arguments of a contract call; an account, dioxide_python_sdk/client/account.py,
-- signs it and appends the proof of work; the client sends it and waits until the transaction
-- and those that it relays are confirmed. Arguments are written and read by
-- dioxide_python_sdk/utils/gadget.py, by a signature of types and names, which calls the
-- serializer of dioxide_python_sdk/utils/serializer.py for each value. Contract identifiers,
-- dioxide_python_sdk/client/contract.py, are ints with five parts. Messages of a subscription go
-- through a filter and a handler.
--
-- Gcl models dioxide_python_sdk/utils/serializer.py. Gcl.Value has the Python values, Gcl.Dict
-- the dict, Gcl.TypeName the tests on type names and the parts of the names of containers,
-- Gcl.Scalar the fixed-size types, Gcl.Variable strings, bigints and tokens, Gcl.Table the
-- offset tables, Gcl.Container arrays, maps and structs, Gcl.Infer `_infer_type`, and
-- Gcl.Serializer the dispatch `serialize` and `deserialize`. A method `_f` of the class is the
-- function `f`; exceptions are the errors of Prelude.Result. A float is its 64-bit pattern;
-- Gcl.Float rounds the ints that struct.pack takes. Gcl.Shape is the description that the
-- theorems use: the types as trees, with their names, in Gcl.Shape.Typed what values they have,
-- and in Gcl.Shape.Sized how many bytes these take. The keys of maps have a fixed size or are
-- strings or bigints, as in the source, and the round trips are for types without bigint keys.
-- Args models `serialize_args` and `deserialized_args` of dioxide_python_sdk/utils/gadget.py,
-- with the parsing by hand in Args.Fallback; the module krock32 is a parameter. Contract models
-- dioxide_python_sdk/client/contract.py, and Transaction
-- dioxide_python_sdk/client/transaction.py with `get_ttl_from_signed_txn` of
-- dioxide_python_sdk/utils/gadget.py; `int(math.log2(n))`, which goes through a double, is a
-- parameter; Transaction.Layout describes the fields of a transaction by a reader. Pow models
-- `PowDifficulty` and `get_pow_difficulty`, and Pow.Search `calculate_txn_pow`, of
-- dioxide_python_sdk/utils/gadget.py, with the hash functions as a parameter.
--
-- Address models the class `DioxAddress`, and Account with Account.Sign the class `DioxAccount`,
-- of dioxide_python_sdk/client/account.py; the libraries for base64, krock32, crc32c, ed25519
-- and sm2, and the Unicode database, are parameters. Message.Filters models
-- dioxide_python_sdk/client/filters.py, Message.Handlers dioxide_python_sdk/client/handlers.py,
-- and Message.Subscriptions what the client's `__subscribe` does with a message; a handler is
-- the function from a message to the one that it passes on.
--
-- Rpc models dioxide_python_sdk/utils/rpc.py with dioxide_python_sdk/utils/request.py, and
-- `get_subscribe_message` of dioxide_python_sdk/utils/gadget.py; requests.post and json.dumps
-- are parameters. Requests of several threads, which share one dict of parameters, are a step
-- relation. Client models dioxide_python_sdk/client/dioxclient.py. A method is a function of the
-- state of the world, `Run`, which returns, raises an exception or raises a DioxError; the node,
-- the clock and the library Box are the record `Service` of operations on that state.
-- Client.Queries has the requests, Client.Relays and Client.Relays.Collect the walks over
-- relayed transactions, Client.Wait the waiting loops, Client.Send what composes by the node,
-- signs and sends, Client.Deploy the deployments, Client.Interface the signature in a contract's
-- description, Client.Local `compose_transaction_local`, and Client.Decode
-- `decode_transaction_input`. Client.Local.Asked says what a transaction made without the node
-- should call, and Client.Send.Logged keeps the list of requests of a run. Client.Connections
-- has the table of the sockets of subscriptions, as a step relation. Text, Bytes and Prelude
-- model what all these use of Python: texts as code points, UTF-8, hex, byte strings, ints and
-- bit operations.
--
-- Fuel: a container calls the dispatch with a shorter type name, so the dispatch gets the length
-- of the name and one more, behind which nothing is called; Gcl.Serializer.Fuel and
-- Gcl.Serializer.ReadFuel put any function there. `limbs` gets the number itself, which is at
-- least the number of its digits, and decoding UTF-8 the number of bytes. The search for a nonce
-- gets one round more than there are nonces of 32 bits: behind these to_bytes raises. The walks
-- over relayed transactions and the waiting loops take their rounds as arguments, since the node
-- may keep them running; what is enough for them is said with the results.
--
-- Not modelled: the client's constructor, the event loop itself, the web sockets, logging and
-- what is printed, the printed forms of identifiers, `get_client_version`, ints that are
-- negative in identifiers and transactions, Python's limit on recursion. In a dict, a float is
-- equal to no int.
pub mod Prelude
pub mod Bytes
pub mod Text
pub mod Gcl
pub mod Args
pub mod Contract
pub mod Transaction
pub mod Pow
pub mod Message
pub mod Address
pub mod Account
pub mod Rpc
pub mod Client
