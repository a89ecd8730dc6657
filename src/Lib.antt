-- ===== src/Lib.antt =====
-- Verification of the bandwidth market at an Internet exchange point (esdx4ixps): sellers offer
-- bandwidth profiles, buyers purchase parts of them, and the contracts are merged into the SCION
-- topology files of the two ASes.
--
-- The parts of the program and the modules that model them:
--   * esdx4ixps/util/conversion.py: Conversion (Conversion/Csv, Ia, Ip, Address). `csv_to_intlist`,
--     `ia_str_to_int`, `ip_port_from_str`, `ip_port_range_from_str` and `ip_port_to_str` have the
--     names of the source. Strings and bytes are lists of code points; Text has the string methods
--     of Python that the code calls (split, strip, replace, int, str, encode).
--   * esdx4ixps/util/serialize.py: Serialize, the bytes that are signed.
--   * esdx4ixps/market/models/offer.py: Market/Offer, with the loop of `Offer.purchase` on parsed
--     profiles in Market/Profile and the times and constants (esdx4ixps/defs.py) in Market/Time.
--     `buy_loop` is the loop, `buy` its use with the slice at the offset, `purchase` the method.
--   * esdx4ixps/util/crypto.py: Crypto and Crypto/Create, over parameters for the library
--     `cryptography`.
--   * esdx4ixps/market/management/commands: Commands/CreateClient, with `ASManager.create` of
--     esdx4ixps/market/models/ases.py as `create_as`, and Commands/Broker.
--   * esdx4ixps/market/models/purchase_order.py, contract.py and ases.py: Market/Order, with the
--     signing functions of esdx4ixps/market/purchases.py; Market/BrAddress is its
--     `find_available_br_address` on the address that `used_address` of Market/Purchase looks up.
--   * esdx4ixps/market/models/broker.py: Market/Broker, the cached key and certificate; the manager
--     of the offers in esdx4ixps/market/models/offer.py: Market/Derived, on what the queries find.
--   * the tables of the models: Market/Storage, an interface of queries and inserts with the laws
--     that Django and the database document; Market/Storage/Memory is an instance, which the tests
--     run. The queries of the manager of the offers over it are in Market/Manager. Transaction has
--     code that reads and writes a database and may raise, with `transaction.atomic`.
--   * esdx4ixps/market/purchases.py: Market/Purchase, with `purchase_offer` as a transaction; saving
--     an offer with the signal before it is `save_offer`. Market/Purchase/Done is what it has done
--     when it returns.
--   * esdx4ixps/market/services.py and serializers.py: Market/Service, the handler `GetContract`
--     with the message that it returns; Market/Trade, the handlers `list_offers`, `add_offer`,
--     `handle_purchase` and `handle_purchase_equivalent`. Market/Trade/Invariant is what holds of
--     the tables between calls, Growth the abstract view of what calls do to them, Calls and Sale
--     show that the handlers implement it, and Serve has the service with its sequences of calls.
--     Deal, Succeeds, Offered, Listing, Sales, Safety and Ports are what follows for the single calls and
--     for all sequences of them.
--   * esdx4ixps/util/experiments.py: Client, the requests that `MarketClient` builds.
--   * the protobuf messages that the code exchanges: Messages.
--   * esdx4ixps/reloader/topology.py: Topology, which merges a contract (a `ContractMessage`) into a
--     topology and takes it out again; Topology/Fresh and Topology/Merged are what a merge makes of
--     it. Topology/Init is the check of the constructor and Topology/File the lock file with
--     `activate` and `deactivate`; Topology/File/Race has their steps in several processes at a time, Mutex and Solo below it what follows. A Python dict is
--     Dict, an association list in insertion order.
-- Base has the results of calls that may raise (Result, with the exceptions as values), integers
-- over the native numbers and list lemmas; Tests applies the theorems to concrete data.
--
-- Integers are unbounded, as in Python. Times are microseconds; `total_seconds()` is a float, exact
-- for every difference below 285 years. Loops are structural recursion over the list that they
-- walk; the attempts of the lock file count down from the configured number. Printing a number has
-- the number plus one as fuel, which exceeds the count of its digits. The walk of `get_derived` has
-- a bound of the primary keys as fuel, which is enough if offers are deprecated by later ones
-- alone.
--
-- The calls of the service run one after the other: purchases hold a mutex, and the transactions of
-- the database are isolated from one another. A key of an offer is larger than those before it, and
-- no offer is ever deleted, which a signal of the models forbids. The bound of the keys, `size`, is
-- the fuel of the walk of `get_derived` in the service.
--
-- Code outside the repository is a parameter: reading and printing an IPv6 address (Ipv6, with the
-- law that a printed address is read back), floats with their format (Floats), Django's
-- `full_clean` and `get`, the database (Storage, with the laws IsLawful and, where a row has to be
-- accepted, IsComplete), the serializers of offers and protobuf's `SerializeToString` (Wire), the
-- table of the ASes in the command that registers one (AsTable), and the library `cryptography`
-- (Cryptography, with the law that a signature made with a key is verified with its certificate,
-- and Authority, with the laws IsStandard on what it makes and prints). The salt of a signature and
-- the current time are arguments. The broker's key and certificate are arguments of the handlers, and
-- so is whether the libraries raise when they make the message of a contract (`rendering`), which the
-- handlers do after their transactions. The database may compare identifiers without regard to case:
-- no law says that the row found for one spells it in the same way. Timestamps of messages are whole
-- seconds, and `int` reads ASCII digits.
-- The topology file is its decoded contents, since `json` is not modelled. In Topology/File other
-- processes are seen through the attempts that find the lock file; no process dies with the lock.
-- Not modelled: the threads and processes of the experiments, the fields of the serializers,
-- settings, migrations and generated code.
mod Base
pub mod Text
pub mod Conversion
pub mod Serialize
pub mod Dict
pub mod Market
pub mod Commands
pub mod Crypto
pub mod Messages
pub mod Transaction
pub mod Topology
pub mod Client
mod Tests
