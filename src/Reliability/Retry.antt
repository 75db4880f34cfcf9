-- ===== src/Reliability/Retry.antt =====
-- pkg/reliability/retry.go: which errors are worth another attempt.
pub mod Delay
pub mod Loop
pub mod Matching
use matrimail.Prelude.{
  ◌&&◌, [], none, ◌∷◌, ◌||◌, if◌then◌else◌, true, some, codes, false, any, Bool, ℕ, List, Text,
  Option,
}
use matrimail.Prelude.Strings.{Text, contains, has_prefix, to_lower}
use matrimail.Reliability.Breaker.{Error, circuit_breaker_open, too_many_requests, failed}

-- err.Error()
unfoldable pub message : Error → Text
message circuit_breaker_open = codes "circuit breaker is open"
message too_many_requests = codes "too many requests"
message (failed m) = m

-- `contains` of the source: without regard to case.
unfoldable pub contains_fold : Text → Text → Bool
contains_fold s sub = contains (to_lower s) (to_lower sub)

abbrev pub newline : ℕ
newline = 10

abbrev pub space : ℕ
space = 32

unfoldable pub matches_imap_pattern : Text → Text → Bool
matches_imap_pattern err_str pattern_ =
    let e = to_lower err_str in
    let p = to_lower pattern_ in
    if has_prefix p (codes "* ")
    then has_prefix e p || contains e (newline ∷ p)
    else if has_prefix p (codes "no ") || has_prefix p (codes "bad ")
    then contains e p && (has_prefix e p || (contains e (space ∷ p) || contains e (newline ∷ p)))
    else contains e p

abbrev pub retryable_patterns : List Text
retryable_patterns =
    codes "connection refused"
    ∷ codes "connection reset"
    ∷ codes "connection timeout"
    ∷ codes "timeout"
    ∷ codes "operation timed out"
    ∷ codes "temporary failure"
    ∷ codes "network unreachable"
    ∷ codes "host unreachable"
    ∷ codes "no such host"
    ∷ codes "i/o timeout"
    ∷ codes "broken pipe"
    ∷ codes "use of closed network connection"
    ∷ codes "connection lost"
    ∷ codes "server misbehaving"
    ∷ codes "cannot read tag"
    ∷ codes "unexpected eof"
    ∷ []

abbrev pub imap_retryable_patterns : List Text
imap_retryable_patterns =
    codes "* bye"
    ∷ codes "no unavailable"
    ∷ codes "bad serverbug"
    ∷ codes "no contactadmin"
    ∷ codes "bad [clientbug]"
    ∷ codes "server temporarily unavailable"
    ∷ codes "temporary failure in name resolution"
    ∷ codes "mailbox unavailable"
    ∷ codes "idle already"
    ∷ codes "already running"
    ∷ codes "idle command already"
    ∷ []

-- `err == nil` is `none`.
unfoldable pub is_retryable_error : Option Error → Bool
unfolding contains_fold matches_imap_pattern message
is_retryable_error none = false
is_retryable_error (some err) =
    any (contains_fold (message err)) retryable_patterns
    || any (matches_imap_pattern (message err)) imap_retryable_patterns

pub data ErrorCategory : Type 0 where
  temporary permanent authentication network timeout_ : ErrorCategory

abbrev pub auth_patterns : List Text
auth_patterns =
    codes "authentication failed"
    ∷ codes "login failed"
    ∷ codes "invalid credentials"
    ∷ codes "bad credentials"
    ∷ codes "access denied"
    ∷ codes "unauthorized"
    ∷ codes "authentication error"
    ∷ codes "authenticationfailed"
    ∷ []

abbrev pub network_patterns : List Text
network_patterns =
    codes "connection refused"
    ∷ codes "connection reset"
    ∷ codes "network unreachable"
    ∷ codes "host unreachable"
    ∷ codes "no such host"
    ∷ codes "broken pipe"
    ∷ codes "connection lost"
    ∷ []

abbrev pub timeout_patterns : List Text
timeout_patterns = codes "timeout" ∷ codes "i/o timeout" ∷ codes "deadline exceeded" ∷ []

abbrev pub permanent_patterns : List Text
permanent_patterns =
    codes "no mailbox"
    ∷ codes "mailbox does not exist"
    ∷ codes "permission denied"
    ∷ codes "quota exceeded"
    ∷ codes "invalid mailbox"
    ∷ []

unfoldable pub mentions : List Text → Text → Bool
mentions patterns err_str = any (contains_fold err_str) patterns

categorize_message : Text → ErrorCategory
categorize_message err_str =
    if mentions auth_patterns err_str
    then authentication
    else if mentions network_patterns err_str
    then network
    else if mentions timeout_patterns err_str
    then timeout_
    else if mentions permanent_patterns err_str
    then permanent
    else temporary

unfoldable pub categorize_error : Option Error → ErrorCategory
unfolding categorize_message
categorize_error none = temporary
categorize_error (some err) = categorize_message (to_lower (message err))

retried : ErrorCategory → Bool
retried temporary = true
retried network = true
retried timeout_ = true
retried authentication = false
retried permanent = false

unfoldable pub should_retry : Option Error → Bool
unfolding retried
should_retry (some circuit_breaker_open) = true
should_retry (some too_many_requests) = true
should_retry err = retried (categorize_error err)
