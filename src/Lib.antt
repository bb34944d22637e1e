-- ===== src/Lib.antt =====
-- FriendNet is a file sharing network: clients meet in rooms on a central server, which keeps
-- their accounts, relays their messages and issues tokens for direct connections; package common
-- holds the values that both sides share. This library models the parts below and proves what
-- makes them correct.
--
-- Common.Path models common/path.go. A Go string is its list of bytes; a result with a PathError
-- is a `Result` with its code. `validate_path`, `segments_to_path`, `normalize_path`,
-- `to_segments` and `join_paths` are the functions of these names, and `check_slashes`,
-- `check_each`, `resolve` and `write_paths` are their loops. The loop of ValidatePath recurs on
-- fuel, one more than the bytes of the path: each round but the last goes past one more slash.
-- Common.Path.Utf8 is utf8.ValidString.
--
-- Common.Names models common/type.go over runes, with the Unicode lowercase table as a parameter;
-- Common.Octal models common/octal.go with strconv.ParseUint at base 8 and 32 bits; Common.Query
-- models common/query.go, where an index out of range is the value `none`.
--
-- Server.Token models server/room/token.go. A `TokenManager` is the valid duration and the map of
-- redeemed ids; the cipher with its key and the base64 encoding are the parameter `Sealing`, and
-- each read of the clock is an argument. `redeem` returns the manager it leaves and its result,
-- and `exp_gc` is one pass of the collector. An `Event` is a Redeem or a pass; `run` composes them
-- in one order. A Redeem is one step, so one that has read the clock and then waits for the lock
-- over a whole pass of the collector is not covered.
--
-- Server.Room models server/room/room.go. A `Room` is its flag, its map of clients, which Close
-- sets to nil, and the list of what it has sent. What the code does under one hold of `Room.mu` is
-- one function: `check_onboard`, `handle_connect`, `handle_disconnect`, `kick_client_by_username`,
-- `begin_close` and `end_close`. Server.Room.Steps lets them run into each other: a `World` is a
-- room with its goroutines, a `Section` is what one of them does before the next lock, and
-- `Reaches` is every order of sections. Server.Room.Latecomers follows the clients that are past
-- the check of Onboard. `onboard` and `close` are the functions of these names with no one else in
-- between. The reason and the result of closing a connection, and whether a message could be
-- written, are data. A broadcast goes out unless the room is closed, and its goroutine is taken to
-- read the clients before another one has the lock.
--
-- Server.Storage models server/storage over the tables of its migration: a `Storage` is the rooms
-- and the accounts, each statement may fail, and the primary and foreign keys are written out.
-- Common.Password models common/password/password.go, with strings.ToLower as a parameter.
-- Server.Accounts is the account methods of server/room/room.go over both; package mcfpassword is
-- the parameter `Hashing`, of which the code relies on that a password matches the hash that was
-- made of it.
--
-- Server.Manager models server/room/manager.go: a `Server` is the manager with the database, and a
-- `Command` a call that changes the rooms. Protocol models CompareProtoVersions of
-- protocol/protocol.go. Server.Lobby models server/lobby/lobby.go: a `Visit` is what one
-- connection sends and whether the messages to it are written, and `lobby_onboard` gives the
-- server it leaves, its replies, and the room and username under which the visitor has come in, or
-- `none` for a panic.
--
-- Client.Replace models client/fsys/replace.go and the lenient replacer of replace_linux.go over
-- runes, with strings.ToUpper as a parameter; Client.Event models client/event/bus.go, where a
-- subscriber is a number and publishing lists the calls that it starts.
--
-- Server.Logic models the messages of a client, in server/room/client.go and logic.go:
-- `msg_handler` is the switch of msgHandler, and each handler gives the state it leaves and what
-- it writes. netip.ParseAddrPort and the attempt to connect to a client are parameters.
-- OnGetOnlineUsers recurs on fuel, one more than the users: each page takes one of them at least.
-- Server.Proxy models server/room/proxy.go, with the calls of Close and the sections of Run in any
-- order.
--
-- Protocol.Framing models the messages of protocol/protocol.go: a `Source` is what the peer has
-- written and how the stream cuts it into reads, with the error that ends it; the loops of ReadRaw
-- recur on those pieces. Package proto is the parameter `Protobuf`, of which the code relies on
-- that Unmarshal gives back what Marshal has encoded.
--
-- Client.Downloads models client/downloadmanager.go: a `DownloadManager` is its flag, the list of
-- handles and the table of download states, and `queue`, `remove`, `stop_with_status` and
-- `load_handles` are its operations under one lock. Client.Downloads.Launch is the ticks of the
-- downloader; a worker that a tick starts is taken to end before the next one.
-- Client.Downloads.Transfer is such a worker's run, `start_download`: what the peer sends is a
-- `Session`, the files are a `Disk`, and the copy loop recurs on the reads. An int64 is its bit
-- pattern, and pointers to servers are compared by UUID.
--
-- Client.Nanny models client/nanny.go: a `ConnNanny` is the state under its lock, `turn` is what a
-- daemon does from one wait to the next, a `NannyWorld` is the nanny with all its daemons, and an
-- `Act` is whichever daemon or call comes to the lock next. Client.Multi models client/multi.go
-- with the table of servers: each call is one step, and each statement of the storage may fail.
--
-- Client.Share models client/share/share.go: what package os does below the directory of a share
-- is the parameter `DirFs`, and a reader is the bytes that it gives. Client.Serving models the
-- handlers of client/room/logic.go for what peers ask of the shares, with the lookups of
-- client/share/manager.go: a `PeerStream` takes a number of writes and then fails. The loop of
-- sendDirFiles recurs on fuel, the files themselves: each page takes one of them at least.
--
-- Common.HttpRange models common/http.go over bytes, with strings.TrimSpace, strings.Split and
-- strconv.ParseInt written out; an int64 argument is its bit pattern. TrimSpace recurs on fuel,
-- the bytes of the text: each round takes one of them at least.
--
-- Common.Migration models common/migration.go: a `Database` is the table of names with the rest,
-- each statement may fail, and a transaction that does not commit leaves no trace.
--
-- Client.Direct models Config.Validate of client/direct/config.go, with the parsers of package
-- netip as parameters; an address is its bits, and the map of addresses is a list in the order in
-- which they came.
--
-- Client.Settings models client/storage/setting.go over the table of settings, with
-- strconv.FormatInt written out; either statement of a call may fail, and no one else writes in
-- between.
--
-- Not modelled are the search on the server, the connections of the client to a room and to its
-- peers, the index of the shares and its search, their caches, the certificates in the storage of
-- the client, the statements of the migrations, UPnP, and what is I/O or generated.
pub mod Client
pub mod Common
pub mod Prelude
pub mod Protocol
pub mod Server
