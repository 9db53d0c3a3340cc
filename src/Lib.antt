-- ===== src/Lib.antt =====
-- notedeck is a desktop client for Misskey: a deck of columns, and a set of capabilities (commands with
-- permissions) that the user, an AI, plugins and external applications run. This library models the
-- core of its TypeScript part.
--
-- The parts and the files:
--
-- - Prelude: names of the libraries, tests, lists with native indices, and Prelude/Dict, the
--   association list that stands for `Map` and `Record`.
-- - Permissions/Principal (src/permissions/principal.ts): on whose behalf a capability runs.
-- - Permissions/Schema (src/permissions/schema.ts): the keys, the presets and the profiles. The tables
--   are in Schema/Keys, the laws in Schema/Laws. A map of permissions is a function from the keys to an
--   optional Boolean.
-- - Permissions/Store (src/permissions/store.ts): the file of profiles and consents, its normalisation
--   (`normalizePermissionsFile`) and migration (`migrateLegacyPermissions`), the clamping of third
--   parties (`clampForPrincipal`), and the remembered consents. Store/Load has `_initFileStorage` and
--   `syncExternalToRust`. Floors, Profiles, Consents and Sync are the proofs.
-- - Permissions/Denials (src/permissions/pluginDenials.ts, src/permissions/misskeyApiGate.ts): the record
--   of refused plugins and the gate of the raw API; the table of endpoints is an argument.
-- - Capabilities/Registry (src/capabilities/registry.ts, src/capabilities/identifier.ts, and `Command` of
--   src/commands/registry.ts): capabilities by their ids. A capability is a record of functions on the
--   state of the program.
-- - Capabilities/Dispatcher (src/capabilities/dispatcher.ts): `dispatchCapability`, which asks the
--   permissions, the preflight and the user, and runs the capability. The dialog is an argument: a
--   function that returns the decision and the world as it is when the dialog closes.
-- - Capabilities/Confirm (src/stores/confirm.ts): the queue of dialogs; a promise is the record of its
--   answer, and timers are counted. Queue is the queue that it stands for, Served shows that it implements
--   it, Tally counts the answers.
-- - Deck/Layout (src/utils/deckLayout.ts): the operations on the groups of columns.
-- - Deck/Columns and Deck/Store (src/stores/deck.ts): columns, focus, sidebar, removal with its undo.
--   Deck/Windows: the windows that columns are moved to.
-- - Deck/Profiles (src/stores/deckProfile.ts): the profiles, of which one is shown.
-- - Deck/WellFormed: the invariant of profiles; Operations is the data type of what the user does and
--   the reachability relation, Edits, Steps, Changes, Slots, Catalog and Run the proofs, Lookups and Undo
--   the round trip of a removal.
-- - Notes/Sorted (src/utils/sortNotes.ts): sorting, merging and insertion of notes by time. The time, a
--   text of fixed format in the source, is a number. Order, Contents and Insertion are the proofs.
-- - Notes/Updates (src/services/streamUpdateMerge.ts, src/utils/toggleReaction.ts): what events of the
--   stream and the user's own reactions do to a note. The answers of the server are an argument. Counts
--   and Toggle are the proofs.
-- - Notes/Chat (src/services/streamUpdateMerge.ts): what events of the stream do to the messages
--   of a chat; Balance counts the reactions.
-- - Notes/Eviction (src/services/mapEviction.ts): the two passes by which a map of items shrinks to its
--   bound. Dropped and Ages are the passes, Survivors and Outcome what they leave.
-- - Notes/Cache (src/stores/notes.ts): the store of notes. Notes are objects that the map and other notes
--   share: numbers name them, and a function holds them. `put`, `get`, `resolve`, `remove`, `update` and
--   `applyUpdate` are put, get_note, resolve, remove, update and apply_update. Visits and Live are about
--   the live ids, Renotes and Puts about `put`, WellFormed and Runs about the invariant.
-- - Windows (src/stores/windows.ts): the windows over the deck, with the tables of their types in
--   Windows/Types. An id is the time and the count that its text is made of, a position counts half
--   pixels. Front and Opening are about the window in front, Sound and Runs about the invariant.
-- - Threads (src/engine/threadMerge.ts): `mergeThreadFragments` and its helpers. Climb is about the
--   ancestors, Groups, Children and Merged about the nodes.
-- - Widgets (src/stores/widgets.ts, and the prefixes of src/utils/storage.ts): the widgets and the order
--   of the sidebar. What is asked of the files is a list of tasks. Edits has the operations on one widget. Restoring and Undo are about the undo
--   of a removal.
--
-- The dispatcher reads the permissions and the consents of Permissions/Store and writes to
-- Permissions/Denials; its dialogs are those of Capabilities/Confirm. The store of notes evicts by
-- Notes/Eviction and applies the events of Notes/Updates. The deck store changes the current profile of Deck/Profiles through
-- `mutateProfile`, with the layouts that Deck/Layout computes. Tasks/Runner runs the tasks that
-- Tasks/Store has read, with the tokens of Tasks/Expand. Visibility takes the deleted notes of the store
-- of notes and the users of the accounts as arguments.
--
-- Bounds: the retries of `syncExternalToRust` are fuel, with the source's bound of three. The loop over
-- the live ids of the store of notes has one unit for each id of the roots and each entry, which Live
-- shows to be enough; the climb to the ancestors of a note has one for each node, which Threads/Climb
-- shows to be enough. All other loops are structural recursion. Indices are natural numbers, and -1 is
-- `none`.
--
-- Not modelled: promises and timers (an asynchronous call is its result, or is cut in two where others
-- may come between), the Vue reactivity, the user
-- interface, the Rust side (its answers are arguments), sounds, the spotlight, the navbar, which widgets a
-- column shows, profile files and the synchronisation of windows, the built-in capabilities, and the
-- adapters.
--
-- - Tasks (src/tasks/types.ts): the values that JSON5 gives, and the types of tasks.
-- - Tasks/Schema (src/tasks/schema.ts): how tasks.json5 is read; Schema/File has `parseTask` and
--   `parseTasks`, Written the objects that tasks are. Valid, Fits and Accepted are about what is accepted,
--   Reread about reading it again.
-- - Tasks/Store (src/stores/tasks.ts): the definitions and their file; Reload is about a second start.
-- - Tasks/Expand (src/tasks/expand.ts): the tokens in the parameters; Pieces is the proof.
-- - Tasks/Runner (src/stores/taskRunner.ts, src/tasks/resolveAccount.ts): the runs. `runTask` is cut where
--   it waits: `launch` before the request and `settle` after it. RunTask puts the parts together, with what
--   others do to the runs between them; Steps and Whole are about it, Sound and Sound/Kept about the
--   invariant.
-- - Visibility (src/stores/mutes.ts, src/utils/wordMuteMatch.ts): what is muted. Visibility/Notes
--   (src/composables/useNoteVisibility.ts) has which notes and notifications are hidden, Visibility/Filter
--   (src/utils/timelineFilter.ts) which notes a column takes. Muted has the proofs.
-- - Accounts (src/stores/accounts.ts): the accounts and the active one; Sound and Runs are about the
--   invariant.
-- - Notes/Messages (src/stores/chatMessageStore.ts): the messages of all chats. Sound has the invariant,
--   Events what arrives twice.
-- - Sessions (src/services/aiSessionCodec.ts): the files of the sessions of the AI, over the values of
--   Tasks. Keys is about the fields of an object, Readable about what reading gives, Reread about reading
--   again.

pub mod Prelude
pub mod Permissions
pub mod Capabilities
pub mod Deck
pub mod Notes
pub mod Windows
pub mod Threads
pub mod Widgets
pub mod Tasks
pub mod Visibility
pub mod Accounts
pub mod Sessions
