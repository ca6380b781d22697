-- ===== src/Lib.antt =====
-- P2P-Thief: the physics and the wire of a peer-to-peer pursuit game, modelled and verified.
--
-- Two peers play a cop and a thief on a square grid, with no server between them. Each peer runs the
-- same physics, seals its half-turns by commitments, and audits the other side at the end. The files
-- under src/p2p_thief/ are modelled here by the files named after their parts:
--
--   Primitives      domain/primitives.py: cells (row, col) of integers, moves, roles, phases, outcomes
--   Prelude         shared helpers; Prelude/Outcomes has the exceptions of domain/errors.py
--   Board           domain/board.py; Board/Laws what its methods promise
--   Rules           domain/rules.py: the rule set, the law of barriers, the verdict of a full turn
--   StateMachine    domain/state_machine.py; StateMachine/Table the rulebook's table as a relation
--   Scoring         domain/scoring.py
--   Scent           domain/scent.py over Scent/Float, an interface of float operations
--   Engine          domain/engine.py; Engine/Methods, Engine/Invariant and Engine/Start its laws
--   Protocol        domain/protocol.py and the replay loop of report/lookup.py
--   Json            JSON values, which cross the wire
--   Crypto          domain/crypto.py; Crypto/Audit its audit
--   Sealing         peer/sealing.py: the wait for a message; Sealing/Records the half-turns and the audit;
--                   Sealing/{Receiver, Waiting, Delivery} the laws of the wait, Sealing/{Honest, Relay} those
--                   of a whole game
--   OwnState        wire/own_state.py, wire/claims.py, and what wire/hidden_turns.py does with them;
--                   OwnState/{Actions, Agreement, Game}: two peers of the hidden wire
--   Hidden          wire/hidden_turns.py with Hidden/Exchange, wire/hidden_exchange.py, and Hidden/Play, the
--                   loop of wire/hidden_runtime.py; Hidden/Turns the handlers, Hidden/{Mine, Spoken} the
--                   own half-turn, Hidden/Duty the answer to a claim
--   Reconstruct     wire/audit.py and wire/declared.py; Reconstruct/Order the order of the replay,
--                   Reconstruct/{Applied, Lived, Turns} the replay against a game that was played
--   Codec           wire/codec.py; Codec/{Accepts, Checked} which messages it accepts, Codec/Built its own
--   Foreign         wire/audit_foreign.py and, in Foreign/Dispute, wire/dispute.py; Foreign/{Clean, Index,
--                   Reproven} the first tier, Foreign/{Steps, Counted, Moved, Captures} the second
--   Limiter         shared/rate_limiter.py; Limiter/{Gates, Queue, Deadline} its laws
--   Gatekeeper      shared/gatekeeper.py; Gatekeeper/Retries its retries and its call log
--   Series          sdk/series.py, and in Series/Totals the sums of report/series_doc.py; Series/{Kept,
--                   Majority, Winner} its laws
--   Ledger          sdk/counted_ledger.py; Ledger/Laws what a record makes of later checks
--   Endgame         strategy/endgame.py; Endgame/Plain its recursion with no memo, Endgame/{Memo, Certified}
--                   the search against it, Endgame/{Reach, Escape, Lock} the certified move on the engine
--   Resume          wire/hidden_resume.py; Resume/Cells the barriers in order, Resume/Smell the sparse scent of
--                   wire/codec.py, Resume/Kept what a game keeps for it, Resume/Rearmed the restart
--   Pathfind        domain/pathfind.py; Pathfind/{Walk, Visit, Loop} the walks and the invariant of the
--                   search, Pathfind/Shortest its distances
--   Forensics       domain/trail_forensics.py; Forensics/Frames its check of two frames, Forensics/{Honest,
--                   History} an honest agent under it
--   Tests           concrete runs
--
-- A method that mutates its object is a function to the new object; a method that may raise returns a
-- `Result`, and the tests before it raises come before every change, so that a raise leaves the object
-- as it was. Exception messages are not kept. Python integers are integers (`ℤ`) where they may be
-- negative and natural numbers where they count. A set of cells is a list of its members; that of the
-- barriers is proved free of duplicates. Floats are values of an interface whose laws are those of IEEE comparison.
-- Loops over a grid or a log are recursions on the list. In the hidden wire's runtime a raise keeps the
-- object as it then is, and what Python raises on a value of a wrong type in a message is an error too.
-- A float in a message is its integer part and the digits after the point, or infinite, or no number.
--
-- What the network delivers to a wait before its deadline is a list of messages; `next` runs its loop
-- on one unit of fuel for each delivery, one for the buffer and one for the deadline. A wait for a token
-- is a recursion on the list of its polls. The shortest paths have the cells of the grid and two more as
-- fuel, since a cell enters the queue once. The endgame search recurs on the turns that remain; its node
-- cap and its deadline are in the model, and `lock_cost` nodes are enough. The canonical JSON of a payload,
-- SHA-256, the drawn nonces and the digest of an engine's state are parameters.
--
-- Not modelled: the belief about the rival and the strategies that read it but for the endgame search,
-- the negotiation, the layout of the reports, file and network access, the user interface, the language
-- models, training scripts.
pub mod Prelude
pub mod Primitives
pub mod Board
pub mod Rules
pub mod StateMachine
pub mod Scoring
pub mod Scent
pub mod Engine
pub mod Protocol
pub mod Json
pub mod Crypto
pub mod Sealing
pub mod OwnState
pub mod Reconstruct
pub mod Limiter
pub mod Gatekeeper
mod Tests
pub mod Codec
pub mod Foreign
pub mod Hidden
pub mod Series
pub mod Ledger
pub mod Endgame
pub mod Resume
pub mod Pathfind
pub mod Forensics
