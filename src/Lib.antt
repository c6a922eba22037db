-- ===== src/Lib.antt =====
-- sacs: modules with properties, registered by programs and shown and changed in a web page.
--
-- The first process that starts is the host. It serves the web page and talks to it over websockets.
-- A later process finds the host's proxy server on the port below the web port, and becomes its
-- client: it sends its messages there, and gets back the changes that a page makes.
--
-- Parts, and the files that model them (paths are from the repository's root):
--   Module.cpp, Module.h: Module, and what a list of updates leaves in Module/Update,
--     and all at once in Module/Reference.
--   JsonMsg.cpp, JsonMsg.h: JsonMsg has the readers (Parse is parse_msg, SetId set_msg_id), and
--     JsonMsg/Build the builders. JsonMsg/Objects, Arrays, Modules and RoundTrip relate the two;
--     Totality is about where the builders fail.
--   ModuleManager.cpp, ModuleManager.h: ModuleManager has one function for each method that runs on
--     the loop's thread (HandleMessage is handle_msg, DoRegisterModule do_register_module,
--     SavePropertiesList save_list, PassPropertyUpdateToModule pass_update), and ModuleManager/Loop
--     the loop and the calls that wait for it (RegisterModule, ProcessJSRequest). Frame, Registry and
--     Invariant are about the registry, Queue about messages to pages, Answers about requests, and
--     Delivery about updates from pages. OnLoop tells what a call on the loop's thread leaves alone.
--     Spec is the abstract registry, a partial map from ids to modules, and Refinement relates it.
--   Proxy.cpp: Proxy and Proxy/Connection; Proxy/Roles is about them.
--   ProxyServer.cpp: ProxyServer has the table and the way back to a process, ProxyServer/Session
--     the handlers of what a process sends. Table, Arrival, Relay and Closing are about them.
--   ServerImpl.cpp, WebAppDataTemplate.cpp: ServerImpl has the listeners, ServerImpl/Requests the
--     requests of pages. Listeners, Files and Publishing are about them.
--   SacsLib.cpp: SacsLib. wrappers/SacsWrapper.h and wrappers/SacsWrapperNoLib.h: Wrapper, compared in
--     Wrapper/Marshalling. The constructor of the first is wrapper_new.
--   wrappers/android/jni/src/JniGlue.cpp and MsgThread.cpp: Jni has the actions of the loop's
--     thread and of the message thread, and a run is a list of actions in any order that the
--     locks allow; Jni/Delivery, Progress and Deadlock are about the runs. Jni/Java has
--     JniGlue::Init and the conversions of JniGlue.cpp, and Java/Exported the functions of
--     JniLib.cpp; Java/Found and Java/Properties are about them. Java/Calls has the arrays that
--     CallJavaPropertiesUpdate makes.
--   examples/TextFields.cpp, ButtonAndLog.cpp, DynamicRegisterAndUnregister.cpp, Script.cpp, Start.cpp:
--     Clients/TextFields (with FromPage), ButtonAndLog, CreateClose, Script and Start have callback and
--     `main` of each, and Clients/Decimal the conversions of numbers. Clients tells how a callback
--     answers to an event.
--   webapp/: Page has the data and properties.js and module.js, Page/Selector module.selector.js, and
--     Page/Messages module.manager.js, message.builder.js and web.app.js (crateModule is crate_module).
--     Page/Environment is the browser. Page/Shown says without JSON what a text of the host does, and
--     Reading, Rounds, FromHost and Updated that the page does it; Updates and ToHost are about its
--     own texts.
--     Page/Reconnection has reconnect.info.js, and Page/Countdown is about it.
--     Page/Mirror says when a page shows a registry (Mirrors), and its children what keeps it so.
--   A process as a whole: System has the steps of all its threads as a relation on World and on the
--     place of the network thread in the case of MODULE_ADD. System/OffLoop, Consistent and Tables are
--     about the reachable worlds, Filing about the place before AddModule, Draining about the loop, and
--     Isolation about what a client can bring about.
--   State: the fields of all these classes, as one record World for a process, with the calls posted
--     to the loop and the effects on others as lists. Json: the JSON library. Maps: std::map.
--     Prelude: numbers, lists and code that throws. EndToEnd and its FromOwner: the host and a process
--     together; EndToEnd/Hosting, Pages, Requests and Astray: the host and a page; EndToEnd/Shown: all
--     three. Examples: a JSON library that satisfies the laws, and concrete inputs.
--
-- The model. An operation takes a World and gives a World, or a fault: an exception that nothing
-- catches, undefined behaviour, or a wait that never ends; nothing is said of the state behind a
-- fault. The field different_thread is ThreadLoop::OnDifferentThread for the thread that runs the
-- operation. Off the loop's thread an operation posts itself; run_task runs one posted call on the
-- loop's thread, and the tasks are run in whatever order a list gives them. A caller that waits for
-- the loop is given the list `meanwhile` of the tasks that the loop runs before the one it waits for,
-- and then that one is run; the entry in `posted` records that it was posted. One thread at a time
-- takes a step: the mutex of ServerImpl makes this true there, and for the table of ProxyServer, which
-- two threads use without a lock, it is an assumption.
--
-- In System a step is what one thread does between two waits, and the loop may take any of the posted
-- calls. A registration off the loop that waits is the step that posts it and the step of the loop that
-- runs it; the one of the network thread keeps its place in `Reading`. What a thread does with the
-- answer of the loop to a page is no step.
--
-- A callback is a number that stands for a function, and a call of it is an effect: what the function
-- does when it is called is its own next step; for the example programs `answer` is that step. Integers
-- are signed and unbounded; the id counter, the counter of ButtonAndLog and std::atoi fault where `int`
-- would overflow. A text is the list of its bytes. The loops are over lists, or over counts that the
-- source has, and need no fuel, but for the digits of a number, in Clients/Decimal: their fuel is the
-- number plus one, and that this is enough is proved. The JSON library of Examples parses with as much
-- fuel as the text is long, which is proved to be enough.
--
-- A page is a value of its own: a text that the host sends it is an effect of the host, and what the
-- page does with it is on_message. The browser's JSON is another library than the processes', and
-- BrowserLaws says that each reads from the other's texts what was written. A widget's id is its place
-- among the widgets, and a module of the page has the number of its creation to tell it from others.
--
-- Parameters: the JSON library (a submodule), with its documented behaviour as JsonLaws, and `dump`
-- may throw, and so may `parse`, not only its parse_error; of the network library, the id of a
-- client, whether a weak pointer to it still locks, the lookup of a client by its id, and whether
-- ThreadLoop::Post runs a call at once when it is made on the loop's own thread or queues it (Net),
-- and its Collector (CollectorLaws); the finder of MIME types; the files of the web page, which are
-- generated; what dlopen and dlsym find; the Java virtual machine (JavaEnv, and JavaArrays with
-- ArrayLaws), and in which callbacks Java waits for the loop; the numbers of rand; the browser
-- (Browser), with the values of JavaScript, the inputs of the document, and the objects that the
-- texts of scripts make.
--
-- Not modelled: logging; building and freeing of arrays; the outcome of listening on a port, which the
-- source does not use; the framing of network messages; the attachment of the message thread to the
-- Java machine, and the release of its references; casts of a number to an enumeration that
-- has no such value, which are a fault; the Java wrapper and the build scripts; of the web page its
-- layout, the loading of its files, and the clock of its timers, which run out in any order.
pub mod Prelude
pub mod Maps
pub mod Json
pub mod Module
pub mod JsonMsg
pub mod State
pub mod ServerImpl
pub mod ProxyServer
pub mod Proxy
pub mod ModuleManager
pub mod Page
pub mod SacsLib
pub mod Wrapper
pub mod Jni
pub mod EndToEnd
pub mod System
pub mod Examples
pub mod Clients
