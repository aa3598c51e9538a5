-- ===== src/Lib.antt =====
-- Models of webpier, a manager of peer-to-peer tunnels, and theorems about them.
--
-- webpier has a user interface, which edits the settings and the services of a pier, and a backend,
-- which keeps a tunnel for each service that is engaged. They share a directory of JSON files and
-- talk by messages on a local socket.
--
-- - Base, Texts, Map: shared names, lemmas on texts, and `std::map` as a list in ascending order of the keys' texts.
-- - Ptree: the interface to `boost::property_tree`, with its documented behaviour as laws;
--   Ptree/Sample is one tree that has them, for the tests. Ptree/Fields is about runs of `put`.
-- - Store/Types: the records of src/store/context.h. Store/Settings and Store/Services are the two
--   kinds of JSON file: what `save_config` and `save_pier_config` of src/store/context.cpp write,
--   and what they and the three `load_config` of src/backend/server.cpp read. to_config_with is
--   both readers of the settings, by the default in which they differ.
-- - Store/Context: `context_impl` of src/store/context.cpp with its `locker`: memory, disk and the
--   result of each call, also when it throws. Store/Context/Histories is any run of these calls. A
--   time of 0 is the default `file_time_type`.
-- - Store/Utils: `is_utf8`, `make_text_hash` and `hexify` of src/store/utils.cpp. The loop of
--   `is_utf8` runs on fuel, the length of the text; each round takes a byte at least, so it ends.
-- - Backend/Message: src/backend/message.h, with its comparisons. Backend/Message/Codec is
--   src/backend/message.cpp: of_handle and to_handle are the two `convert_handle`, and so on. A call
--   that throws is an `err` with the text of the exception.
-- - Backend/Connector: `controller::connector` of src/backend/server.cpp, a record that each handler
--   maps to the next; an Event is what happens to it by its thread, its timer, the main loop and its
--   processes. Backend/Connector/Liveness is the step relation of these. How the thread can end is of
--   plexus, and a hypothesis where it matters.
-- - Backend/Carrier: how `connector::connect` of src/backend/server.cpp starts a tunnel process, and
--   Backend/Carrier/Program, the program of src/backend/tunnel.cpp. Store/Utils/Paths is `make_path` of
--   src/store/utils.cpp with `std::to_string`, which runs on fuel, the number: a round takes a digit off.
-- - Backend/Controller: `controller` of src/backend/server.cpp, the connectors of one service by pier.
-- - Backend/Engine: `engine` of src/backend/server.cpp. engage_all, adjust_all and unplug_all are the
--   commands without a handle, engage_one, adjust_one and unplug_one those with one; an Outcome has
--   the pool also when the command throws. Backend/Engine/Comply is `comply`, from the text of the
--   request to the text of the answer.
-- - Backend/Server: `server_impl` of src/backend/server.cpp. A handler maps a Server to the next;
--   Backend/Server/Moves is what the sockets and the connectors of the pool do, in any order. The
--   answers that were written, the requests that were read and the events of the connectors are kept
--   beside its state. Slots is about lists by position.
-- - Backend/Loading: the three `load_config` of src/backend/server.cpp on the disk of Store/Context.
-- - Backend/Client: the calls of src/backend/client.cpp; the socket is a function. The coroutines of the
--   client and the server are detached, so what is thrown in one is discarded.
-- - Backend/Client/Connecting: the attempts to connect in the constructor of `client_impl`.
-- - Store/Autostart: `verify_autostart`, `assign_autostart` and `revoke_autostart` of
--   src/store/utils.cpp, on the lines of the table of cron; the match with the pattern is a function.
-- - Store/Resolve: the functions of src/store/utils.cpp that resolve a name; the two patterns are
--   functions on texts, what the resolver answers is an argument.
-- - Backend/Options: `make_options` of src/backend/server.cpp, over the resolvers of asio.
-- - Ui/Services: `ServiceImpl` of src/ui/context.cpp, the form of a service with the service that it
--   was made from. A Desk is a form with the context, the disk and the handles that the backend was told
--   of. Store/Context/Effects is what the calls of the context do to the services that are found,
--   Store/Context/Refusing what they leave alone.
-- - Ui/Window: the list, the states and the notifications of src/ui/mainframe.cpp. A click on a row
--   is a command to a Backend, an interface that Ui/Window/Toggle fills with the client, the wire and
--   the engine.
-- - Ui/Startup: `InitContext` and `Init` of src/ui/context.cpp, and `CWebPierApp` of src/ui/main.cpp.
--   Store/Context/Switching is what the settings of another pier leave.
-- - Ui/Tray: the menu of the icon in src/ui/main.cpp.
-- - Ui/Probe: `CheckRendezvous` of src/ui/context.cpp, and the tests of src/ui/settingsdialog.cpp.
-- - Ui/Upload: how src/ui/mainframe.cpp takes over the services of an offer; what the dialogs come to
--   is an argument; Ui/Upload/Whole is the whole handler. Store/Context/Kept is what adding a
--   service leaves of the others.
-- - Ui/Exchange: `CExchangeDialog` of src/ui/exchangedialog.cpp; Ui/Exchange/Moves is what a user can do,
--   and export_offer what is written then.
-- - Ui/Buttons: how src/ui/mainframe.cpp adds, changes and removes a service.
-- - Ui/Settings: `ConfigImpl` of src/ui/context.cpp, and what confirming the dialogs of
--   src/ui/settingsdialog.cpp and src/ui/servicedialog.cpp does. Ui/Settings/Menu is the menu of
--   src/ui/mainframe.cpp that opens the dialog of the settings; Ui/Settings/ServiceDialog confirms a
--   service.
-- - Ui/Offer: the offers of src/ui/context.cpp, which one side writes and the other reads; whether a
--   gateway is of version 6 is what the resolvers of asio answer, or nothing when they throw.
-- - Backend/Tests, Store/Tests, Ui/Tests: the theorems at concrete data.
--
-- Every other loop is a recursion on the list that it visits, so no fuel is needed. Process ids are
-- `uint32_t`, written as they are and read as an `int`; what an `int` cannot hold is an error.
--
-- Not modelled: the layout of the windows and the other dialogs, the program of the backend around its
-- server, sockets, logging, process creation, openssl and the tasks of Windows. Texts are taken to be UTF-8, so
-- `locale_to_utf8` and `utf8_to_locale` change nothing.
-- The enumerations of plexus and wormhole are the numbers that are stored for them.
pub mod Base
pub mod Texts
pub mod Map
pub mod Slots
pub mod Ptree
pub mod Store
pub mod Backend
pub mod Ui
