-- ===== src/Lib.antt =====
-- Verification library of olg-nats-agent-core, the Go library through which OLG agents talk over NATS.
--
-- The program's parts and the files that model them (paths from the repository's root):
-- - Errors.antt: internal/runtimeerr/error.go, agentcore/errors.go and toPublicError of
--   agentcore/client.go. Go's `error` is the data type Error, with `nil` as one of its values.
-- - Results.antt: pairs of a value and an error.
-- - Strings.antt and its children: what the program uses of Go's packages strings, unicode and fmt,
--   over native texts. The Unicode tables beyond ASCII are the parameter Unicode.
-- - Subjects.antt: internal/subjects. Subjects/Validate.antt has the checks of validate.go; the
--   other children hold proofs.
-- - Registry.antt: internal/registry. Each method is one function on the state, since it runs under
--   the registry's lock. A Go map is a list of pairs (Common/Dict.antt); its order stands for
--   whichever order Go's loops take. The 64-bit counter of ids wraps as in the source, and the
--   theorems that need room below 2^64 say so.
-- - Publisher.antt: internal/transport/publisher.go. The answers of the context, the connection, NATS
--   and the timer are the record World; the calls made are a list of events. The loop runs on the
--   rounds left, of which it has max(1, attempts).
-- - Session.antt: internal/session. Session/Lifecycle.antt has Start, Close and the callbacks, one
--   function for what each does under one hold of the lock (setters of health.go in
--   Session/Health.antt), and Session/Steps.antt lets them come in any order. Session/Options.antt is
--   options.go, Session/Bind.antt is bindOrCreateKV, on whose answer Start depends, and
--   Session/Connect.antt connectNATS with the options and the TLS configuration of the connection,
--   newJetStream and drainConnection, whose answers Start and Close are given. Connections,
--   JetStream contexts, buckets and channels are numbers.
-- - Kv.antt: internal/kv. The JetStream bucket and encoding/json are the parameters Bucket and Json.
--   Kv/Keys.antt is helpers.go, Kv/Records.antt and Kv/Store.antt are store.go. Of watch.go,
--   Kv/Watch.antt is the loop of consumeWatch on the list of what it sees, and Kv/Start.antt the start
--   and the stop of a watch; what the bucket, the watcher and the timers answer is given for the n-th
--   call as an Attempt, and the n-th call makes the watch n. A watch that was made stays in the list
--   of the watches until its stop function is called, also where its goroutine has ended by itself,
--   since its context is done or its channel is closed; and a watch whose goroutine had not ended when
--   the time to wait for it was over is noted as lingering.
-- - Envelopes.antt: the messages of agentcore/contracts.go. Envelopes/Validate.antt is their decoding
--   and validation in agentcore/handlers_runtime.go, with encoding/json as the parameter Codec.
-- - Handlers.antt: agentcore/handlers_runtime.go, the subscriptions of a client's handlers over Registry.
--   What subMu guards is one state. Handlers/Subscribe.antt is subscribeInternal, Handlers/Activate.antt
--   the activation, the rollback and the end of subscriptions, Handlers/Restore.antt
--   restoreAllRegisteredSubscriptions, Handlers/Register.antt the four register methods, and
--   Handlers/Dispatch.antt the callbacks that call the handlers. The answers of NATS are given one after
--   another; what it has is the list of subscriptions that were made and on which Unsubscribe was not
--   called. Handlers/Views.antt is the abstract view of who owns which subscription, and
--   Handlers/Steps.antt lets the calls come in any order, each as one step: also
--   deactivateAllSubscriptions, which gives up subMu in between. The other children hold proofs.
-- - Client.antt: agentcore/client.go. Client/Config.antt has agentcore/config.go and its conversion for
--   internal/session, and Client/New.antt New and its options. Client/Submit.antt has
--   StoreDesiredConfig, LoadDesiredConfig and SubmitConfigure, over Kv, Envelopes, Subjects and
--   Publisher; Client/Publish.antt has SubmitAction, PublishResult and PublishStatus.
--   Client/Watches.antt has WatchDesiredConfig, its stop function and stopAllWatches, and
--   Client/Rewatch.antt restoreAllActiveWatches, over Kv/Start.antt: what watchMu guards is one state,
--   and a function for each part of WatchDesiredConfig that holds the lock or makes the watch lets
--   another call come in between. A panic is the answer `none`. Client/Reached.antt lets the calls of
--   the watches come one after another, and Client/Leaked.antt has two runs that go wrong.
--   Client/Lifecycle.antt has Start and Close of a client and what its session calls, over Session,
--   Handlers and the watches; the calls of session.Connection on the way are among the answers of
--   NATS, and Close has no answer where it waits for a start that runs. Client/Enabled.antt lets these
--   calls come one after another, none while another runs, which the Go code does not enforce;
--   Client/Raced.antt has a run where the session is closed in the midst of Start. What encoding/json
--   makes of a json.RawMessage, which it compacts and escapes, is a parameter of the theorems on
--   messages that carry one. The other children hold proofs.
-- Publisher, Session and Kv report typed errors of Errors; Kv gets its bucket from Session by way of
-- the record Provider.
-- Common.antt passes on the names that all modules share.
--
-- Logging calls are left out where nothing depends on them; measured durations too.
-- Not modelled: in internal/session the getters of the configuration. The functions of a client that
-- only tests replace are left out, with the branches that only they reach.
pub mod Common
pub mod Strings
pub mod Errors
pub mod Results
pub mod Subjects
pub mod Registry
pub mod Publisher
pub mod Session
pub mod Kv
pub mod Envelopes
pub mod Client
pub mod Handlers
