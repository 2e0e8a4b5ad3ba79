-- ===== src/Lib.antt =====
-- bivouac: a command that runs development sessions on cloud instances.
--
-- State (internal/state). A Store keeps one JSON file with a Record for each instance, a Record its
-- Sessions and the receipts of retired ones. State/Types has the records of state.go and
-- session_lifecycle.go; State/Generation has NewSessionGeneration and its validation;
-- State/Validate has ValidateSessionLifecycle and what it calls, and State/Validate/Spec says
-- without the order of the checks what it should accept; State/Sessions has FindSession,
-- PutSession, RemoveSession, FindRetirementReceipt and PrepareSessionStart; State/Disk has
-- WriteFileAtomic (atomic.go); State/Store has List, Get, Put, Update, Delete and
-- CompleteRetirement, which lock, read and validate the whole file and replace it;
-- State/Store/Refines says of a sequence of these writes what it does to the map from names to
-- records.
--
-- Retirement (internal/lifecycle/retirement.go, retirement_effects.go). RetireSession takes a
-- session through the phases checking, closing, final-check and removing, each recorded in the
-- state file before the next, and ends by replacing the session with a receipt. Retirement/Journal
-- has the changes of the file that it makes, Retirement/Options its decisions on intents,
-- Retirement/Steps the helpers that read and write the file, Retirement/Intent and
-- Retirement/Phases its stages, Retirement/Retire the whole. An action (Retirement/Exec) runs
-- against the file and the rest of the world, and what it wrote before an error stays written.
-- Merge policies (internal/lifecycle/retirement_work.go). Retirement/Policy has Validate, the
-- checks on working trees and the readers of git that they need, Retirement/Policy/Merge has Check
-- with checkMerge and checkDelete. They are actions (Act) over git, with the texts of their errors
-- left out; Retirement/Policy/InPlace puts them in place of the two questions to the world that
-- RetireSession asks.
--
-- Replay (internal/lifecycle/merge.go, replayprogress.go). Git has the git commands that are run
-- (gitexec.go, gitlocal.go), with the log of them that the laws speak of, and Git/Lines the reading
-- of their output. Replay/Progress has the progress file, Replay/Resume resumeAt, and Replay
-- replaySignedRange. Trailers has stripAgentTrailers (trailers.go), by which messages are cleaned.
--
-- Beads (internal/beads/report.go, sync.go, internal/lifecycle/issues.go, beads.go). Beads has the
-- issues and what a diff says of them, Beads/Sync the changes of a session and whether they have
-- landed, Beads/Tree the issues below one, Beads/Issues the receipt, the gate and
-- pullBeadsRequired, Beads/Progress the start record, the listing and the progress of a session.
-- Retirement/Policy/Issued puts bd into the policies.
--
-- Shell (internal/shellcmd/shellcmd.go). Quote, LoginShell and Remote over bytes; Shell/Words is
-- the reading of a POSIX shell, for lines without expansions.
--
-- SSH keys (internal/sshkeys). SshKeys has discover with agentKeys and diskKeys, ReadPublicFile and
-- Find; the agent, the files, their parser and the trimming of texts are a KeyEnv. SshKeys/Indexed
-- and SshKeys/Discovered are about the map of the indexes that discover keeps.
--
-- Images (internal/image). Image/Markers has ParseMarkers, SnapshotTags and ValidUserTag;
-- Image/Eligible the rule by which an image may be launched or pruned, and the order of images;
-- Image/Retention PlanPrune; Image/Execute ExecutePrune, against a cloud that answers from a state
-- of its own; Image/Resolve the image that a launch uses; Image/Groups GroupScopes, the images that
-- an error names, and bootMode (internal/lifecycle/up_plan.go). strconv.Atoi is a parameter. The
-- texts of the errors are values of data types.
--
-- SSH keys (internal/keyplan/plan.go). KeyPlan has Build, RegisterPublic and Register, against a
-- world that reads key files, chooses signers and holds the account; a provider that cannot list
-- keys at all is left out.
--
-- Parameters. encoding/json is a record Json, of which the laws on files use that what was written
-- reads back, but that its raw messages are indented anew, which keeps them valid, and an empty one
-- comes back as null (State/Settle). What the operating system refuses is chosen by Faults and
-- StoreFaults, one test for each call that may fail, with what a failed write has stored. What
-- RetireSession asks of git, ssh, herdr, beads and the clock, and what fails in each access to the
-- file, is an Env, each answer from a state of the world that the laws leave arbitrary. GitEnv does
-- the same for a replay: git, the progress file, its encoding, filepath.Join, and the functions of
-- package strings that read Unicode; Instance has RescueSession, which runs ssh, and the pull and
-- the check of the issues. BeadsEnv has bd on both machines, the connection, and the readers of
-- bd's JSON.
--
-- Bounds and fuel. All loops are over lists, but for the one of Descendants, whose list grows: it
-- has fuel, and what is enough is said by a bound on the issues below each issue. Sizes and times
-- are natural numbers. The one sum of the modelled code that could leave a 64-bit int, one more
-- than keep-previous in PlanPrune, wraps around.
--
-- Not modelled: file locking (a refused lock is an answer of the world), texts of errors but for
-- those that are recorded in the file, the SSH field of a Record, warnings, and the partial results
-- that RetireSession returns beside an error. Of the replay, restoreReplayProgress and
-- MergeSession, which nothing calls, are left out. The progress file stands at one path, as if git
-- always gave the same directory. The other packages of internal and cmd are not modelled.
--
-- Prelude holds what the modules share; Tests has a table as encoding/json, a concrete machine, and
-- runs of the laws.
pub mod Prelude
pub mod Act
pub mod State
pub mod Git
pub mod Trailers
pub mod Replay
pub mod Retirement
pub mod Beads
pub mod Shell
pub mod SshKeys
pub mod Image
pub mod KeyPlan
pub mod Tests
