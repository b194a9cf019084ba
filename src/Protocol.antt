-- ===== src/Protocol.antt =====
-- The session as a protocol, which the calls of src/core/ProviderCore.cpp and
-- src/broker/ProviderSerialization.cpp are to follow: its phases, what is heard from the broker, and what
-- each call does to the phase.
pub mod Poll
pub mod Refinement
use dot1xcp.Base.{
  ℕ, Bool, true, false, not, none, some, List, [], ◌∷◌, ◌==◌, if◌then◌else◌, is_empty, Bytes, codes,
  bytes_eq,
}
use dot1xcp.State.{State}
use dot1xcp.Json.Message.{parse_json_line}
use dot1xcp.Json.Message.Object.{empty_msg}
use dot1xcp.Response.{Env, PipeReadResult, ok, timed_out, broker_exited, failed, PipeConnectResult}
use dot1xcp.Provider.{is_logon}
use dot1xcp.Run.{Call, polls, uses, selects, deselects, fires, advises, unadvises}

-- There is no session; it was started and nothing was heard; the broker asked to wait for a final
-- message; the broker said that it is idle.
pub data Phase : Type 0 where
  off fresh waiting idle : Phase

-- What a poll hears: nothing; that the broker waits, or is idle; another message, such as a success or an
-- AUTH_FAIL, behind which the code ends the session; no message, since what
-- came is none or the broker is gone.
pub data Heard : Type 0 where
  silence pending_word idle_word final_word noise : Heard

-- What a type of a message says.
unfoldable pub word_of : Bytes → Heard
word_of type =
    if bytes_eq type (codes "AUTH_PENDING")
    then pending_word
    else if bytes_eq type (codes "AUTH_IDLE")
    then idle_word
    else final_word

unfoldable pub heard_bytes : Bytes → Heard
heard_bytes bytes =
    let (m, parsed) = parse_json_line bytes empty_msg in if parsed then word_of m.type else noise

unfoldable pub heard : PipeReadResult → Bytes → Heard
heard timed_out bytes = silence
heard ok bytes = if is_empty bytes then noise else heard_bytes bytes
heard broker_exited bytes = noise
heard failed bytes = noise

abbrev pub is_connected : PipeConnectResult → Bool
is_connected PipeConnectResult.connected = true
is_connected _ = false

-- Whether a session can be started.
unfoldable pub starts : Env → Bool
starts env = elim env.pipe [
  | none ↦ false
  | some h ↦ elim env.launch [ none ↦ false | some l ↦ is_connected env.connect ]
]

-- The phase behind a poll of a session.
abbrev pub next : Heard → Phase → Phase
next silence p = p
next pending_word p = waiting
next idle_word p = idle
next final_word p = off
next noise p = off

-- A poll starts a session if there is none, and then hears what it says.
unfoldable pub polled : Env → Phase → Phase
polled env off = if starts env then next (heard env.read env.message) fresh else off
polled env p = next (heard env.read env.message) p

-- The phase behind a call: polls aside, only leaving the tile and other scenarios than the logon end a
-- session, and nothing else changes it.
unfoldable pub moves : Call → Phase → Phase
moves (polls env outputs usage) p = if outputs then polled env p else p
moves (uses os usage) p = if is_logon usage then p else off
moves (deselects os usage) p = if is_logon usage then off else p
moves call p = p

unfoldable pub moves_all : List Call → Phase → Phase
moves_all [] p = p
moves_all (call ∷ calls) p = moves_all calls (moves call p)

-- The phase that a state stands for.
unfoldable pub phase_of : Bool → ℕ → Phase
phase_of active flow =
    if not active then off else if flow == 1 then waiting else if flow == 2 then idle else fresh

abbrev pub phase : State → Phase
phase s = phase_of s.active s.flow_state
