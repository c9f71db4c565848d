-- ===== src/Lib.antt =====
-- IPGW-Meta: the campus gateway client, its public SDK and its launcher.
--
-- The SDK (package ipgw at the repository's root) logs a user in at a network gateway: it looks at the
-- gateway's status, discovers the access controller behind the captive portal, logs in at the CAS
-- (by password or by QR code), hands the service ticket to the gateway and verifies the session. The
-- launcher (internal/launcher) chooses between two sibling binaries and runs one of them.
--
-- Which file models which part:
--   Text, Prelude: texts as lists of bytes, with what package strings does to them; Result.
--   Sdk/Url: url.URL in parsed form, and the origin, redirect and ticket checks of auth.go
--     (casRedirectPolicy, validatedTicket, sameHost, validateSameHTTPSOrigin, requireHTTPS).
--   Sdk/Errors: errors.go (newError, wrapError, CodeOf, interactionError).
--   Sdk/Machine: the state of a call, its surroundings (Ports) and the monad of the operations; its
--     children hold the rules for invariants (Keeps), results (Yields) and single steps (Steps).
--   Sdk/Http: newHTTPClient, http.Client.Do with a redirect policy, request, doCAS and doCASRequest.
--   Sdk/Session: status.go, Logout, logoutOnline, the lock and the two events of a call.
--   Sdk/Discovery: discoverACID and what it inspects.
--   Sdk/Form, LoginTypes, Challenge, Activation, Password, Qr, Login: Login with passwordLogin, qrLogin,
--     finishQRConfirmation and finishActivation; login_call is Login, logout_call Logout, status_call
--     Status.
--   Sdk/BuiltIn: the endpoints and durations of NewClient (defaultEndpoints).
--   Launcher/Mode, Version, Execute: internal/launcher/launcher.go (extractMode, parseVersionRequest,
--     resolveMode, siblingExecutable, Execute).
--   Config: internal/config/types.go (Validate, Config.Profile); App: internal/app/service.go
--     (resolveLoginTarget, resolveConfiguredLoginProfile), which selects the profile of a login from it.
--   WireJson: internal/wirejson/object.go, the JSON and JSONP envelopes of the gateway's answers.
--   Srun: internal/srun. Its children are Status (status.go: ParseStatus), Fields, Address, Csv and
--     Balance (the fields that ParseStatus reads), and Business (business.go).
--   Text/Decimal: what is used of package strconv; Text/Trim: when bytes.TrimSpace changes nothing.
--   Migration: internal/config/migration.go and migration_journal.go, the transaction that writes a
--     migrated configuration. Disk has the files and what may go wrong, Journal the journal and its
--     check, Snapshot the files of a transaction, Recover the recovery of a pending transaction, Apply
--     the transaction. Logic is a small program logic for them; Artifact, Removal, Transaction,
--     RollBack, Complete, Atomic, Writes, Commit, Saves and Applies go from one file to the whole transaction.
--   Sdk/Scene holds a gateway and a CAS that answer one login; the Tests modules run
--     the definitions.
--
-- State and interaction: a Machine holds the world (which only the ports read and change), the trace
-- of all actions taken (requests sent, events, credential reads, QR prompts), the token of
-- Client.mutating and a counter of cookie jars, since every HTTP client gets a jar of its own unless
-- it is given one. An operation returns a result or an error and the machine that it leaves; what
-- was done before an error stays done. Deferred calls (the unlock, the final event) run after the
-- body, whatever it returned. Whether a wait for a taken lock ends with the lock or with the end of
-- the context is left to the port acquire.
--
-- Parameters: the transport, the context, the clock, the caller's providers, the parsers of
-- internal/cas and internal/srun, RSA, and net/url's parser are fields of Ports; environment, files,
-- YAML, path functions and the child process are fields of the launcher's System. The theorems hold
-- for all of them; Srun has the parsers that stand behind those fields of Ports. The parsers of Srun
-- take encoding/json as `parse_json`, which reads a text that is one JSON value and keeps duplicate
-- names. A migration takes SHA-256 as `digest`, and the strict decoders of a configuration and of a
-- marker as fields of its Plan.
--
-- Conventions: host names are ASCII; texts are valid UTF-8 where UTF-16 units are counted; lower case
-- is taken of ASCII letters (no other letter lowers into the words that are compared). A query is the
-- list of its decoded pairs, and query_ok says that every pair was valid. Durations are milliseconds.
-- The messages of validatedTicket are one message where QR confirmation reports them. An HTTP client
-- has fuel for 12 requests: the CAS policy refuses a chain before that, the other policies follow
-- nothing. A QR login polls on fuel of one round for each millisecond of its lifetime, and one more,
-- which is enough where each wait takes time.
--
-- A decoded JSON null leaves Go's zero value, as package encoding/json does. Addresses are the
-- four-byte ones of net/netip; a record of encoding/csv is that of a single line. What is used of
-- these packages is written out in Srun/Address and Srun/Csv.
--
-- Migration: paths are the values of File, and the journal's file is kept as the journal that it
-- encodes. Each access to the disk or the keyring works, fails without its effect, fails with it, or
-- the process stops before it; a list of fates says what the accesses to come meet, and behind its
-- end they all work. A removal looks for its file in the access that removes it. A file that is
-- created in place is written byte by byte, so that it can be cut off anywhere, and a failure
-- removes it, if that works; the temporary file of atomicWriteFile is not modelled, since its
-- destination is replaced at once. A journal that is cut off is one that every load refuses; one
-- that is cut off in its last field, the keyring references, could be loaded, but nothing reads them
-- in the phase of that write. The lock is held, and no other process writes, but the recovery may
-- find files that are neither the old nor the new ones. The hypotheses on a transaction (Prepared)
-- are that its journal is valid, that its files are within maxConfigBytes, that digests are 64
-- hexadecimal digits, and that they tell the old and the new content of each file apart.
--
-- Not modelled: the options of NewClient, request headers, the protocol cache (networkKey is empty,
-- so discoverACID never reads it), checks of nil arguments, JSON encodings of the types, the parsers
-- of internal/cas, the rest of the application layer, the command line, the search for the files of
-- older programs and the plan of their migration, the configuration's store but for atomicWriteFile,
-- its credentials, and the tools for releases and documentation.
pub mod Prelude
pub mod Text
pub mod Launcher
pub mod Sdk
pub mod Config
pub mod App
pub mod WireJson
pub mod Srun
pub mod Migration
