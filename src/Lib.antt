-- ===== src/Lib.antt =====
-- The C++ SDK of Catena (sdks/cpp): the core of a device service, from the text of a parameter's path
-- to the calls of the gRPC and REST connections.
--
-- A client names a parameter by a path, sends a value, and is known by a token. The connection
-- finds the device of the slot, makes an authorizer from the token, and asks the device, which
-- walks the path to a parameter, checks the client's scopes against the parameter's descriptor,
-- validates the value against the type, the lengths and the constraint, and stores it.
--
--   Base           numbers, lists, texts, maps and sets, and the lemmas on them
--   Status         common/include/Status.h: status codes, and calls that return or throw
--   Utils          common/src/utils.cpp: `subs`, `split`, base64, `readTimestamp`
--   ParamPath      common/src/Path.cpp, include/Path.h: the class `Path`
--   Authorizer     common/src/Authorizer.cpp: scopes, and the claims of a token
--   Connections    common/include/rpc/Connect.h (rank, order), common/src/ConnectionQueue.cpp
--   Proto          the message `st2138::Value` with its accessors, and common/include/IConstraint.h
--   Constraints    common/include/RangeConstraint.h at `int32_t`, src/ChoiceConstraint.cpp
--   Params         common/src/ParamDescriptor.cpp, with Described: `toProto`, `name`, `addSubParam`;
--                  Convert: src/StructInfo.cpp; Stored: include/ParamWithValue.h for values without
--                  fields and arrays of such; Structs:
--                  include/StructInfo.h, `toProto` (Reading, and Serialized as its reference),
--                  `validFromProto` and `fromProto` (Writing), with Lookup: `getParam` of
--                  include/ParamWithValue.h
--   Device         common/src/Device.cpp: Lookup (`getParam` ...), Values (`setValue`,
--                  `tryMultiSetValue`, `commitMultiSetValue`, `getValue`), Languages, Serializer
--                  (`toProto`, `shouldSendParam`), Parts (`getComponentSerializer`), Items (`addItem`,
--                  `getItem`)
--   Menus          common/src/Menu.cpp, MenuGroup.cpp and PolyglotText.cpp
--   Visitor        common/src/ParamVisitor.cpp, and the visitor of the subscriptions
--   Subscriptions  common/src/SubscriptionManager.cpp; Adding: `addSubscription`
--   Heartbeat      common/include/rpc/Heartbeat.h and common/src/Heartbeat.cpp, as a step relation
--   Rpc            connections/gRPC/include/CallData.h and the unary controllers under
--                  connections/gRPC/src/controllers, as one state machine with a body for each;
--                  Streams, Streaming and Commands: DeviceRequest, UpdateSubscriptions and
--                  ExecuteCommand, as one with a body and a round of writing for each; Infos:
--                  ParamInfoRequest; Objects: ExternalObjectRequest; Pushing: Connect
--                  with the updates of common/include/rpc/Connect.h; Service: src/ServiceImpl.cpp, its
--                  devices and its registry
--   Rest           connections/REST: Paths, Headers and Reader: `read` of src/SocketReader.cpp; Writer and
--                  Events: src/SocketWriter.cpp; Controllers, Languages, Assets, Streaming, Infos
--                  (with Collecting: its modes) and Connecting: those under src/controllers; Agreement, Collected and Informed: the two connections compared;
--                  Service: src/ServiceImpl.cpp, with `run` as a step relation
--   Tests          concrete data, and each result at it
--
-- A function keeps its name, in lower case with underscores. State is passed explicitly: an operation
-- takes the device, the queue or the path and returns the new one. A call that may throw returns an
-- `Outcome`; a call through a null pointer throws `null_dereference`, which no handler catches. An
-- `exception_with_status` is its code, since the text goes to the log. Integers wrap round where the
-- code's do: an `Index` has 64 bits (`ParamPath.Decimal.word_size`), an `int32_t` 32
-- (`Constraints.wrap32`). A float is its 32 bits, and the range constraint at `float` has no model.
--
-- The loops of `subs` and `split` run at most 1000 rounds in the code, and so they do here; the fuel
-- of `ParamPath.Decimal.print_fuel` is the number to be printed, which has no more digits than that.
-- `Visitor.traverse_params` recurs on what a device finds under longer paths; nothing is found below a
-- member of an array, so that fuel for two levels is enough (`Visitor.Flat.traverse_top`). Every other
-- loop is structural.
--
-- The JWT library, protobuf's accessors, gRPC and the C++ library are not part of the repository. The
-- claims of a token are an argument, `decode`; the message type has the kinds that the code uses;
-- what gRPC answers to an action is the list of events that a call's life is run on; of boost, the
-- URL parser is an argument and the socket is what it delivers, `first` and `more`, of which a read of `n`
-- bytes that goes well gives `n` (`Rest.Bodies.IsExact`); JSON is parsed and printed by arguments. What a
-- file holds is an argument or a map, and zlib and OpenSSL are arguments (`Rest.Assets.Host`). The
-- locks are not modelled: a body that holds the device's lock is one step.
--
-- A device serializer is the list of the parts that it is still to give, fixed when it is made; the
-- coroutine of the code reads the device anew for each part. A command's responder is the list of what
-- its coroutine comes to; what a command does is an argument.
--
-- Not modelled: a device whose parameters hold structs and variants, the loop over gRPC's completion
-- queue, logging, configuration, the NMOS node, the examples, the code generator, and the Java and Go SDKs.
pub mod Base
pub mod Status
pub mod Utils
pub mod ParamPath
pub mod Authorizer
pub mod Connections
pub mod Proto
pub mod Constraints
pub mod Params
pub mod Menus
pub mod Device
pub mod Visitor
pub mod Subscriptions
pub mod Heartbeat
pub mod Rpc
pub mod Rest
pub mod Tests
