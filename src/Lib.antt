-- ===== src/Lib.antt =====
-- The control plane's session core: which sandbox a session has, who keeps it alive, and what
-- survives when it is put away. Paths are relative to the repository's root; `manager/` stands for
-- control-plane/src/sandbox/manager/.
--
-- Parts and files.
--   * control-plane/src/core/types.ts: `Records` (profiles, references, session records), and the
--     backend interface in `Registry`.
--   * control-plane/src/core/state-store.ts (`SessionStore`): `Store`; `Store.Durable` has histories of
--     its writes, `Store.Memory` what one write does in memory.
--   * manager/profile-registry.ts (`ProfileRegistry`): `Registry`. manager/profile-choice.ts
--     (`ProfileChoice`): `ProfileChoice`.
--   * control-plane/src/sandbox/checkpoint.ts: `Checkpoint` (parsers of the scripts' outputs, the script
--     runner, `saveCheckpoint`, `restoreCheckpoint`); the files of `CheckpointStore` are `bundles` and
--     `archives` of `World`.
--   * manager/runner-attachment.ts (`RunnerAttachment`): `Attachment`; its map of clients is `clients`
--     of `World`.
--   * manager/sandbox-lifecycle.ts (`SandboxLifecycle`): `Lifecycle` (dependencies and shared steps),
--     `Lifecycle.Starting` (provision, wake, replace, restore), `Lifecycle.Stopping` (hibernate,
--     checkpoint, release, reclaim), `Lifecycle.Machine` (`react`, the three verbs, boot recovery);
--     proofs about a boot stand in `Lifecycle.Recovery`.
--   * manager/idle.ts (`IdleSchedule`): `Idle`. control-plane/src/core/message-queue.ts: `MessageQueue`.
--   * control-plane/src/mcp/mcp-choice.ts (`McpChoice`): `McpChoice`; the turn events of
--     manager/sandbox-manager.ts that drive it beside the idle schedule: `McpChoice.Turns`.
--   * control-plane/src/previews/preview.ts: `Preview`. control-plane/src/media/video-media.ts: `Media`.
--     Their texts are lists of codes, with JavaScript's string functions in `Codes`.
--   * control-plane/src/core/tunnel.ts (`TunnelServer`): `Tunnel`; a stream and its client are one number.
--   * manager/archive-release.ts: `ArchiveRelease`. manager/root-session.ts: `RootSession`.
--   * control-plane/src/credentials/git-hosts.ts: `GitHosts`.
--   * control-plane/src/client/notifications/notifications.ts: `Notifications`.
--   * manager/sandbox-notices.ts: `Notices`, with its texts in `NoticeTexts`.
--   * control-plane/src/instructions/instruction-store.ts (`InstructionStore`): `Instructions`.
--   * control-plane/src/credentials/broker.ts (`CredentialBroker`): `Broker`, with the reading of its file
--     in `Broker.File`; its tables are those of `Codes.Tables`.
--   * control-plane/src/mcp/mcp-tool-exclusion.ts (`McpToolExclusion`): `ToolExclusion`; what it hides of
--     a session is the `SessionHiddenServers` of `McpChoice`.
--   * control-plane/src/workspaces/file-reference.ts: `FileSearch` (matching and ranking),
--     `FileSearch.Query` (a query as it is typed), `FileSearch.Directory` (directory
--     queries) and `FileSearch.Cache` (the snapshots of the trees).
--   * control-plane/src/auth/passcode-auth.ts (`Attempts`, and the answers of `handleLogin`): `Attempts`.
--   * `Base`, `Dict`, `Exec` and the rules of `Exec.Hoare`, `Exec.Outcomes` and `Exec.Returns` are shared
--     by all; `Examples` has runs on a small host.
--
-- How they interact. The lifecycle's actions run in `Exec (World E)`: state passing with thrown errors,
-- where a thrown error keeps what was changed before it. `World` holds what the host keeps (store,
-- cached clients, checkpoint files) and an environment `E` for all that is outside: backends, runners,
-- the broker, the clock and the disk, whose calls are the fields of `Host` and `SandboxBackend` and may
-- answer anything. `IsLocal` in `Lifecycle.Frame` lists the steps by which a verb changes the host; a
-- condition kept by them is kept by every verb, and `Lifecycle.Isolation` and `Lifecycle.Backed`
-- instantiate it. `Lifecycle.Frame.Writes` has the single writes below those steps.
--
-- Bounds. `react_start` runs on fuel 2: it calls itself only after an expired record was removed. The
-- wait for a runner runs on fuel 121: each failed round pauses 500 ms, and the deadline is 60 000 ms
-- ahead. The walk to a root session gets one round more than there are registered agents. Numbers are
-- natural; times are milliseconds; a deadline whose text is no date is `none`.
--
-- Not modelled. Verbs of one session that overlap (the session's lock makes a verb one action) and the
-- interleaving of one session's verb with another's; spans, counters and the texts of most messages;
-- the shell scripts, which are names; hooks that change the host's own state; the key `__proto__` of
-- the plain objects that serve as maps; of file references, the cancellation of a query and the
-- disposal of agents; of the tool exclusion, the edits of prompt sections. Of the other subsystems
-- (most of the user interface, the credential services, cookies, OIDC, MCP connections, terminal, the
-- preview relay, the Go runner) nothing is modelled. Letters beyond Latin-1 keep their case in `Codes`.
pub mod Base
pub mod Codes
pub mod Dict
pub mod FileSearch
pub mod GitHosts
pub mod Idle
pub mod McpChoice
pub mod Media
pub mod MessageQueue
pub mod Exec
pub mod Records
pub mod ToolExclusion
pub mod Tunnel
pub mod Store
pub mod Registry
pub mod Broker
pub mod Checkpoint
pub mod World
pub mod Preview
pub mod ProfileChoice
pub mod Attachment
pub mod Lifecycle
pub mod ArchiveRelease
pub mod RootSession
pub mod Notifications
pub mod NoticeTexts
pub mod Notices
pub mod Instructions
pub mod Examples
pub mod Attempts
