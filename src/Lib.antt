-- ===== src/Lib.antt =====
-- Ladon keeps secrets in an encrypted vault and lets coding agents run programs with them. An agent names
-- a secret, the user approves, and the program gets the value; the agent never sees it. This library
-- models the parts of that which decide: who may use which secret until when, what the vault holds, and
-- when access is closed.
--
-- The parts, each with the file that models it:
--   Prelude    Boolean tests, lists, maps, results, methods on a state, times and UTF-8.
--   Model      crates/ladon-core/src/model.rs: names of secrets and fields, references, records.
--   Vault      crates/ladon-core/src/vault.rs, and VaultPayload of codec.rs: the session on an open vault.
--              VaultSession's methods have their names; Operations is a sequence of the ones that change
--              the records.
--   Codec      crates/ladon-core/src/codec.rs: encode_payload and decode_payload, and in Canonical the form
--              that the entries of an unknown kind must have. Decode has the loop over the entries and
--              what it decodes, Payload decode_payload itself. Laws says what is relied on of minicbor.
--   Protocol   crates/ladon-core/src/protocol.rs: requests and responses; Documents and Responses have the
--              JSON that the derived Serialize and Deserialize make of them, Frames encodes and decodes the frames, and
--              Json is the check of a document before it is read.
--   AgentBroker crates/ladon-app/src/agent_broker.rs: Runs is RunCoordinator with its leases and blocks,
--              Threads any interleaving of those who use it; UiLocks is UiLockCoordinator, and
--              UiLocks.Ordered the sequences of its calls.
--   Crypto     crates/ladon-core/src/crypto.rs: the encrypted file. Header is the header of the key
--              derivation, File the layout, create_vault (with the random bytes as arguments) and unlock_vault,
--              Rotate the change of the passphrase.
--   Grants     crates/ladon-core/src/grants.rs: GrantStore, which client may use which secret until when.
--              View states each operation by the pairs that hold a grant, History is a sequence of calls.
--   Broker     crates/ladon-core/src/broker.rs: BrokerState, the state machine of locking and unlocking,
--              and the log of activity. The repository uses it in tests only.
--   Approval   crates/ladon-app/src/approval.rs: ApprovalCoordinator, which authorises requests, asks the
--              user, locks the app and tracks the clients. It owns a GrantStore. State has its fields and
--              the free functions, Authorize the methods authorize and with_valid_grant, Control the
--              decisions, the locks and the revocations, Sessions the clients, Unattended the access while
--              the app is locked. Operations is a sequence of all of them; Keeps and Kept say what a
--              property needs to be kept by all.
--
--   Redact     crates/ladon-core/src/redact.rs: StreamingRedactor, which takes the secrets out of the output of
--              a program. Patterns has the forms in which a secret may be printed, Utf8 the Utf8Escaper,
--              Capture the BoundedCapture, Stream the methods. Reference is what the redactor is to do, on
--              the whole output at once; Scan, Search, Equivalence and Ready lead from the one to the other.
--   Runner     crates/ladon-core/src/runner.rs, and the binding types of protocol.rs: Validate has
--              validate_run_request, Resolve has ValidatedRunRequest::resolve.
--   SessionAuth    crates/ladon-app/src/session_auth.rs: the PIN of a session and its failed tries.
--   UnlockRequest  crates/ladon-app/src/unlock_request.rs: the requests to unlock and the user's decisions.
--   SecretEditor   crates/ladon-app/src/secret_editor.rs: a record while the user edits it.
--   Store      crates/ladon-core/src/store.rs: how the two copies of the vault's file are replaced and opened.
-- An agent's request is checked by Runner and authorised by Approval, which asks UnlockRequest where the
-- vault is locked; the values come from Vault, go to the program by Runner, and the program's output comes
-- back through Redact. Vault's bytes are kept by Store.
--
-- How the code is read. A method that takes `&mut self` is a function from the state to the state and its
-- result; a method of Prelude.Method keeps the state also where it fails, as the code does. Identifiers
-- (UUIDs) are numbers, since they are only compared; random identifiers are arguments. A text is the list
-- of its scalar values. A Duration and a SystemTime are numbers of nanoseconds, bounded where the code is.
-- u64 is a number, with the checked or saturating addition of the code. A HashMap is a list of pairs with
-- different keys. One operation sees one reading of the clocks; a sequence of operations has them change
-- between, forwards or backwards.
--
-- Fuel. The loops of Redact take fuel: the redaction, the escaping and the decoding of UTF-8 as many rounds
-- as there are bytes, since each takes a byte at least; the shortening of the captured tail likewise; the
-- loop that makes room for the note of what was left out one round more than the tail has bytes, after which
-- the tail is empty. For a limit of 128 bytes or more that is enough. The other loops are over lists.
--
-- authorize_with_wake waits for the user. authorize_start is what it does before it gives the mutex away,
-- and authorize_poll one round of its loop, with what the token and the deadline show then as arguments.
-- Since the mutex serialises the methods, a sequence of operations is an interleaving of the threads. The
-- poisoning of the mutex and the wake-ups of the condition variable are left out. Closures that the code
-- runs under the mutex (with_valid_grant, coordinate_secret_mutation, grant_unattended) are given by their
-- results.
--
-- UnlockRequests::wait is split in the same way into register and poll, and so are the waits of the two
-- coordinators of AgentBroker. A commit of Store makes a list of calls of the operating system; whether each
-- succeeds is an argument, and the directories between the calls are kept, since the machine may stop at any
-- of them. A file that was not synced may then hold anything, and at a path there may be any of the files that
-- stood there since the directory was synced; a directory's paths are taken to survive apart from each other.
-- A file is known by its path, so that a file that a rename moved before its sync is not synced by it.
--
-- Parameters: the normalisation of Unicode and the reading and printing of UUIDs are code of other
-- packages, and are the fields of Model.Externals; where a theorem relies on it, normalising twice is
-- normalising once, or a UUID that is printed reads back.
-- The search for bytes, base64 and the text of JSON are the fields of Redact.Patterns.Externals; IsSearch says
-- that the search finds the first place. The hash of a PIN is SessionAuth's parameter, and the opening of a
-- vault's bytes an argument of Store. The CBOR of single values, the type of the next item and the bytes of a UUID are the fields of
-- Codec.Cbor; IsCbor says that what is encoded is decoded again, whatever follows it. Argon2 and
-- XChaCha20-Poly1305 are the fields of Crypto.Primitives; IsCipher says that what is encrypted is decrypted
-- again, with 16 bytes more in between. serde_json
-- is read_json and write_json of Protocol.Frames.Serde; IsSerde says that a document that is written is read
-- again, if its numbers are integers of 64 bits. The other fields are what the derived readers accept
-- beyond the form that is written, such as a struct as an array of its fields. The depth of 16 to which
-- the code follows a canonical item is the measure on which its recursion ends.
--
-- Not modelled: the sockets between processes (ipc.rs), the broker's answers to agents (the rest of
-- agent_broker.rs) and the texts of its errors (request_error_response in protocol.rs), the supervisor of
-- processes (supervisor.rs), the lifetimes that the user chooses (approval_lifetime.rs), the scan for
-- exposed secrets (exposure_scan.rs), commit_to of vault.rs, which seals and commits, and the user
-- interfaces.
pub mod Prelude
pub mod Grants
pub mod Broker
pub mod Model
pub mod Vault
pub mod AgentBroker
pub mod Approval
pub mod Protocol
pub mod Redact
pub mod Runner
pub mod SessionAuth
pub mod UnlockRequest
pub mod Store
pub mod SecretEditor
pub mod Codec
pub mod Crypto
