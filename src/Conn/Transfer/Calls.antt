-- ===== src/Conn/Transfer/Calls.antt =====
-- System calls as the code sees them: a count and an error, and the loops that retry on EINTR
-- (go/connection.go, go/sendfile_unix.go).
use event_work_balance.Base.{
  ℕ, List, [], ◌∷◌, Bool, true, false, ◌&&◌, Option, none, some, ◌==◌, ltb, if◌then◌else◌, min, ◌^◌,
  not, take,
}
use event_work_balance.Conn.State.{FileSegment}
use event_work_balance.Conn.SendQueue.Stream.{file_bytes}
use event_work_balance.Conn.Engine.{Errno, eintr, would_block, refused, unexpected_eof}

pub record SysResult : Type 0 where
  pub count : ℕ
  pub error : Option Errno

abbrev pub is_eintr : Option Errno → Bool
is_eintr (some eintr) = true
is_eintr _ = false

abbrev pub is_would_block : Option Errno → Bool
is_would_block (some would_block) = true
is_would_block _ = false

abbrev pub is_refused : Option Errno → Bool
is_refused (some refused) = true
is_refused _ = false

abbrev pub no_error : Option Errno → Bool
no_error none = true
no_error (some e) = false

-- How a direct write ends.
pub data Attempt : Type 0 where
  took : ℕ → Attempt
  blocked : Attempt
  broken : Errno → Attempt

unfoldable pub attempt_of : ℕ → Option Errno → Attempt
attempt_of n none = took n
attempt_of n (some would_block) = blocked
attempt_of n (some e) = broken e

-- `for { n, err := c.sysWrite(data); if err == syscall.EINTR { continue } … break }`
unfoldable pub write_retrying : List SysResult → Option Attempt
unfolding attempt_of
write_retrying [] = none
write_retrying (r ∷ rs) =
    let rest = write_retrying rs in
    if is_eintr r.error then rest else some (attempt_of r.count r.error)

-- `maxSendFileCall` and `sendFileChunk`.
abbrev pub max_send_file_call : ℕ
max_send_file_call = 2 ^ 30

abbrev pub send_file_chunk : ℕ
send_file_chunk = 2 ^ 16

-- What one flush round's system calls answer: a write or writev, or for a file the calls of
-- sendfile, and the pread and write of the copying fallback.
pub record Calls : Type 0 where
  pub write : SysResult
  pub splice : List SysResult
  pub pread : SysResult

-- (n, attempted, fromFile, err), the bytes that the call was offered, of which it took `n`, and for a
-- file the segment as the call leaves it.
pub record Sent : Type 0 where
  pub n : ℕ
  pub attempted : ℕ
  pub from_file : Bool
  pub error : Option Errno
  pub offered : List ℕ
  pub segment : Option FileSegment

-- The retry loop of sendfile: the count, what was attempted and the error.
unfoldable pub splice_retrying : ℕ → List SysResult → Option (ℕ × ℕ × Option Errno)
splice_retrying attempted [] = none
splice_retrying attempted (r ∷ rs) =
    let rest = splice_retrying attempted rs in
    if is_eintr r.error && r.count == 0
    then rest
    else if ltb 0 r.count
    then some (r.count, if is_eintr r.error then r.count else attempted, none)
    else some (r.count, attempted, r.error)

copied : (ℕ → ℕ → ℕ) → FileSegment → ℕ → ℕ → ℕ → Option Errno → Sent
copied contents s read n attempted e = record {
  n = n;
  attempted = attempted;
  from_file = true;
  error = e;
  offered = take read (file_bytes contents s.fd s.offset (min s.remaining send_file_chunk));
  segment = some (record s { copying = true });
}

-- The copying fallback reads a chunk of the file and writes what it read.
copy_file : (ℕ → ℕ → ℕ) → FileSegment → Calls → Sent
unfolding copied
copy_file contents s calls =
    let chunk = min s.remaining send_file_chunk in
    let read = calls.pread.count in
    if not (no_error calls.pread.error)
    then copied contents s read 0 chunk calls.pread.error
    else if read == 0
    then copied contents s read 0 chunk (some unexpected_eof)
    else copied contents s read calls.write.count read calls.write.error

-- sysSendFileLocked. `contents fd i` is the byte of the file `fd` at `i`.
unfoldable pub sys_send_file : (ℕ → ℕ → ℕ) → FileSegment → Calls → Option Sent
unfolding copy_file
sys_send_file contents s calls =
    if s.copying
    then some (copy_file contents s calls)
    else elim (splice_retrying (min s.remaining max_send_file_call) calls.splice) [
      | none ↦ none
      | some (n, attempted, e) ↦
          if is_refused e
          then some (copy_file contents s calls)
          else some (record {
            n = n;
            attempted = attempted;
            from_file = true;
            error = if no_error e && n == 0 then some unexpected_eof else e;
            offered = file_bytes contents s.fd s.offset (min s.remaining max_send_file_call);
            segment = some s;
          })
    ]
